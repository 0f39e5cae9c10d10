-- ===== src/System/Env.antt =====
-- The program's surroundings: what the kernel, the C library's input, tinydtls and libwayland
-- answer, each a function of all that has happened before. Nothing is assumed of the answers here.
use wlr_remote.Base.{ℕ, ℤ, Bytes, Option, List, Bool, ◌≡◌, ◌<◌, ◌^◌}
use wlr_remote.System.Types.{
  Waited, RegistryEvent, Handle, AddrInfo, Session, Received, Sent, Resolved, Alert, Callback,
  SockAddr, IfAddr, Query, Termios, Pointer,
}
use wlr_remote.System.Event.{Trace}
use wlr_remote.Libc.ByteOrder.{Endian}

pub record Env : Type 0 where
  pub host_order : Endian
  -- the kernel
  pub getaddrinfo : Trace → Bytes → Resolved
  pub socket : Trace → AddrInfo → ℤ
  pub set_v6only : Trace → ℤ → ℤ
  pub bind : Trace → ℤ → SockAddr → ℤ
  pub epoll_create : Trace → ℤ
  pub epoll_ctl : Trace → ℤ → ℤ → ℤ
  pub recvfrom : Trace → ℤ → Received
  pub sendto : Trace → ℤ → Session → Bytes → Sent
  pub inet_ntop : SockAddr → Option Bytes
  pub tcgetattr : Trace → Termios × ℤ
  pub tcsetattr : Trace → Termios → ℤ
  pub stdin : Trace → Bytes
  pub epoll_wait : Trace → ℤ → ℕ → Waited
  -- the signals that have come, the newest first
  pub signals : Trace → List ℕ
  -- tinydtls: its constants, and how `dtls_handle_message` proceeds
  pub dtls_max_buf : ℕ
  pub psk_max_key_len : ℕ
  pub alert_fatal : Alert → ℤ
  pub close_notify : ℕ
  pub event_connect : ℕ
  pub event_connected : ℕ
  pub dtls_new_context : Trace → Bool
  pub dtls_rounds : Trace → ℕ
  pub dtls_next : Trace → Option Callback
  pub dtls_result : Trace → ℤ
  -- memory, interfaces and lib/mdns.h
  pub malloc : Trace → ℕ → Option ℕ
  pub sizeof_service : ℕ
  pub host_name_max : ℕ
  pub getifaddrs : Trace → Option (List IfAddr)
  pub gethostname : Trace → Option Bytes
  pub is_linklocal : SockAddr → Bool
  pub is_v4mapped : SockAddr → Bool
  pub mdns_open_ipv4 : Trace → SockAddr → ℤ
  pub mdns_open_ipv6 : Trace → SockAddr → ℤ
  pub mdns_string_extract : Bytes → ℕ → Bytes
  pub mdns_queries : Trace → ℤ → Pointer → ℕ → List Query
  -- libwayland
  pub fixed_from_int : ℤ → ℤ
  pub wl_connect : Trace → Handle
  pub wl_globals : Trace → List RegistryEvent
  pub wl_get_fd : Trace → ℤ
  pub wl_dispatch : Trace → ℤ
  pub create_virtual_pointer : Trace → Handle → Handle → Handle
  pub registry_bind : Trace → ℕ → Bytes → ℕ → Handle

-- The integers that a 24.8 fixed-point number can hold.
abbrev pub IsFixed : ℤ → Type 0
IsFixed (ℤ.pos n) = n < 2 ^ 23
IsFixed (ℤ.negsuc n) = n < 2 ^ 23

-- What `wl_fixed_from_int` documents: the fixed-point number of the same value, which is zero for
-- the integer zero alone.
pub record FixedLaws (env : Env) : Type 0 where
  pub fixed_zero : env.fixed_from_int (ℤ.pos 0) ≡ ℤ.pos 0
  pub fixed_ne_zero : (z : ℤ) → IsFixed z → env.fixed_from_int z ≡ ℤ.pos 0 → z ≡ ℤ.pos 0
