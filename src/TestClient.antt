-- ===== src/TestClient.antt =====
-- src/test-client.c: a client that moves the pointer in a straight line.
pub mod Types
pub mod Callbacks
pub mod Program
