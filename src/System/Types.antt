-- ===== src/System/Types.antt =====
-- Values that the program exchanges with the kernel, tinydtls, libwayland and lib/mdns.h: addresses,
-- descriptors, messages and records. `src/common.h` and `src/network.h` name the two structs of the
-- program that its parts share.
use wlr_remote.Base.{ℕ, Bool, true, false, ℤ, Bytes, List, Option}

-- An opaque pointer of a library; 0 is NULL.
abbrev pub Handle : Type 0
Handle = ℕ

pub data Family : Type 0 where
  unspec inet inet6 : Family
  other_family : ℕ → Family

abbrev pub is_inet : Family → Bool
is_inet inet = true
is_inet unspec = false
is_inet inet6 = false
is_inet (other_family n) = false

abbrev pub is_inet6 : Family → Bool
is_inet6 inet6 = true
is_inet6 unspec = false
is_inet6 inet = false
is_inet6 (other_family n) = false

-- A socket address: its family, port (in network order) and the bytes of the host.
pub record SockAddr : Type 0 where
  pub family : Family
  pub port : ℕ
  pub host : Bytes

-- One entry of the list that `getaddrinfo` returns.
pub record AddrInfo : Type 0 where
  pub family : Family
  pub socktype : ℕ
  pub protocol : ℕ
  pub addr : SockAddr

-- tinydtls's `session_t`: the peer's address.
pub record Session : Type 0 where
  pub addr : SockAddr
  pub size : ℕ

pub data Errno : Type 0 where
  eagain ewouldblock enobufs eintr : Errno
  other_error : ℕ → Errno

-- What `recvfrom` with MSG_TRUNC reports: a whole datagram and its sender, or an error.
pub data Received : Type 0 where
  datagram : Session → Bytes → Received
  recv_failed : Errno → Received

-- What `epoll_wait` reports: the descriptors of the events, or an error.
pub data Waited : Type 0 where
  ready : List ℤ → Waited
  wait_failed : Errno → Waited

-- A global that the compositor announces: its name, interface and version.
pub record Global : Type 0 where
  pub name : ℕ
  pub interface : Bytes
  pub version : ℕ

-- What the registry tells its listener.
pub data RegistryEvent : Type 0 where
  global_added : Global → RegistryEvent
  global_removed : ℕ → RegistryEvent

-- What `sendto` reports.
pub data Sent : Type 0 where
  sent_bytes : ℕ → Sent
  send_failed : Errno → Sent

-- What `getaddrinfo` reports.
pub data Resolved : Type 0 where
  resolved : List AddrInfo → Resolved
  gai_failed : ℤ → Resolved

-- What `getaddrinfo` reports for a host: the first entry, with its `ai_addrlen`.
pub data Lookup : Type 0 where
  found : AddrInfo → ℕ → Lookup
  lookup_failed : ℤ → Lookup

-- What `select` reports of one descriptor: whether it is in the set, or none was ready in time.
pub data Selected : Type 0 where
  selected : Bool → Selected
  timeout select_failed : Selected

-- tinydtls's `dtls_credentials_type_t`.
pub data Credential : Type 0 where
  psk_hint psk_identity psk_key : Credential

-- The alerts that the program raises.
pub data Alert : Type 0 where
  internal_error illegal_parameter : Alert

-- A call of one of the four handlers that the program gives to tinydtls.
pub data Callback : Type 0 where
  call_write : Session → Bytes → Callback
  call_read : Session → Bytes → Callback
  call_event : Session → ℕ → ℕ → Callback
  call_get_psk_info : Session → Credential → Bytes → ℕ → Callback

-- A pointer to memory: to a block that `malloc` returned, or to memory that is never freed.
pub data Pointer : Type 0 where
  null static_memory : Pointer
  allocated : ℕ → Pointer

abbrev pub is_null : Pointer → Bool
is_null null = true
is_null static_memory = false
is_null (allocated p) = false

-- One entry of the list that `getifaddrs` returns, with the four flags that the program tests.
pub record IfAddr : Type 0 where
  pub addr : Option SockAddr
  pub up : Bool
  pub multicast : Bool
  pub loopback : Bool
  pub point_to_point : Bool

-- lib/mdns.h's `mdns_string_t`: the pointer, the bytes that it points to, and the stated length.
pub record MdnsString : Type 0 where
  pub str : Pointer
  pub text : Bytes
  pub length : ℕ

pub data RecordData : Type 0 where
  ptr : MdnsString → RecordData
  srv : (priority weight port : ℕ) → MdnsString → RecordData
  a aaaa : SockAddr → RecordData
  txt : MdnsString → RecordData

-- lib/mdns.h's `mdns_record_t`.
pub record MdnsRecord : Type 0 where
  pub name : MdnsString
  pub type : ℕ
  pub payload : RecordData
  pub rclass : ℕ
  pub ttl : ℕ

-- lib/mdns.h's `mdns_entry_type_t`.
pub data EntryType : Type 0 where
  question answer authority additional : EntryType

-- One call of the callback that `mdns_socket_listen` is given, less what it never reads: the time to
-- live, the length of the name, and the place of the record. `payload` is `data` with its size.
pub record Query : Type 0 where
  pub entry : EntryType
  -- `from` and `addrlen`: who sent it
  pub from : Session
  pub query_id : ℕ
  pub rtype : ℕ
  pub rclass : ℕ
  pub payload : Bytes
  pub name_offset : ℕ

-- `struct termios`: the bit ECHO of `c_lflag`, and all the rest of it.
pub record Termios : Type 0 where
  pub echo : Bool
  pub others : Bytes

-- `struct sockets`; -1 stands for no socket.
pub record Sockets : Type 0 where
  pub v4 : ℤ
  pub v6 : ℤ

-- `struct client_state`.
pub record ClientState : Type 0 where
  pub seat : Handle
  pub pointer_manager : Handle
  pub virtual_pointer : Handle
  pub socks : Sockets
  pub psk_key : Bytes
  pub psk_key_len : ℕ

-- `struct mouse_packet`, with the fields as integers.
pub record MousePacket : Type 0 where
  pub dx : ℤ
  pub dy : ℤ
  pub button : ℕ
  pub button_state : ℕ
