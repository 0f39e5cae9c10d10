-- ===== src/Network.antt =====
-- src/network.c: the UDP sockets, the epoll set, and the datagrams between them and tinydtls.
pub mod Sockets
pub mod Epoll
pub mod Callbacks
pub mod Receive
