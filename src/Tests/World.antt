-- ===== src/Tests/World.antt =====
-- A world: a kernel, a compositor and a tinydtls that answer as real ones may.
use wlr_remote.Base.{
  ℕ, ◌+◌, ◌*◌, ◌≤◌, ◌≡◌, refl, subst, All, arith, true, false, none, some, Bytes, List, [], ◌∷◌,
  ◌++◌, length, ltb, if◌then◌else◌, ℤ, pos, negsuc,
}
use wlr_remote.Libc.ByteOrder.{little}
use wlr_remote.Pointer.{codes}
use wlr_remote.System.Types.{
  SockAddr, Session, inet, inet6, Received, datagram, AddrInfo, Resolved, gai_failed, recv_failed,
  eagain, sent_bytes, resolved, Alert, internal_error, illegal_parameter, call_read, IfAddr, ready,
}
use wlr_remote.System.Event.{Trace, socket, epoll_create, close, mdns_open, mdns_close}
use wlr_remote.System.Env.{Env, FixedLaws}
use wlr_remote.System.Descriptors.{live, SocketLaws}
use wlr_remote.Network.Callbacks.Quiet.{received_mail}
use wlr_remote.Network.Sockets.Ready.{ResolvedLaws}
use wlr_remote.Network.Callbacks.Send.{SendLaws}
use wlr_remote.Network.Callbacks.Credentials.{AlertLaws}
use wlr_remote.Network.Receive.Drained.{ArrivalLaws}

abbrev over : ℤ → ℕ → ℕ
over (pos n) m = if ltb m (n + 1) then n + 1 else m
over (negsuc n) m = m

-- A descriptor above all that were ever returned.
abbrev fresh_fd : Trace → ℕ
fresh_fd [] = 3
fresh_fd (socket f s p r ∷ t) = over r (fresh_fd t)
fresh_fd (epoll_create r ∷ t) = over r (fresh_fd t)
fresh_fd (mdns_open f r ∷ t) = over r (fresh_fd t)
fresh_fd (_ ∷ t) = fresh_fd t

fresh_fd-live : (n : ℕ) (t : Trace) → fresh_fd t ≤ n → live (pos n) t ≡ 0
fresh_fd-live n [] h = refl
fresh_fd-live n (socket f s p r ∷ t) h = ground (arith, fresh_fd-live n t)
fresh_fd-live n (epoll_create r ∷ t) h = ground (arith, fresh_fd-live n t)
fresh_fd-live n (mdns_open f r ∷ t) h = ground (arith, fresh_fd-live n t)
fresh_fd-live n (mdns_close s ∷ t) h = omega (arith, fresh_fd-live n t h)
fresh_fd-live n (close s ∷ t) h = omega (arith, fresh_fd-live n t h)
fresh_fd-live n (_ ∷ t) h = fresh_fd-live n t h

abbrev pub times_256 : ℤ → ℤ
times_256 (pos n) = pos (n * 256)
times_256 (negsuc n) = negsuc (n * 256 + 255)

abbrev pub alert_code : Alert → ℤ
alert_code internal_error = negsuc 591
alert_code illegal_parameter = negsuc 558

abbrev pub any_v4 : SockAddr
any_v4 = record { family = inet; port = 42136; host = 0 ∷ 0 ∷ 0 ∷ 0 ∷ [] }

abbrev pub any_v6 : SockAddr
any_v6 = record { family = inet6; port = 42136; host = [] }

abbrev pub peer : Session
peer = record { addr = record any_v4 { host = 10 ∷ 0 ∷ 0 ∷ 7 ∷ [] }; size = 16 }

-- A packet that moves the pointer by (10, 10), as tinydtls deciphers it.
abbrev pub move_bytes : Bytes
move_bytes = 0 ∷ 0 ∷ 0 ∷ 10 ∷ 0 ∷ 0 ∷ 0 ∷ 10 ∷ 0 ∷ 0 ∷ 0 ∷ 0 ∷ []

-- One datagram waits on each socket.
abbrev mailbox : Trace → Received
mailbox t =
    if ltb (length (received_mail t)) 1 then datagram peer (1 ∷ 2 ∷ []) else recv_failed eagain

abbrev ethernet : IfAddr
ethernet = record {
  addr = some (record any_v4 { host = 10 ∷ 0 ∷ 0 ∷ 2 ∷ [] });
  up = true;
  multicast = true;
  loopback = false;
  point_to_point = false;
}

abbrev loopback : IfAddr
loopback = record ethernet {
  addr = some (record any_v4 { host = 127 ∷ 0 ∷ 0 ∷ 1 ∷ [] });
  loopback = true;
}

abbrev pub interfaces : List IfAddr
interfaces = loopback ∷ ethernet ∷ []

abbrev pub world : Env
world = record {
  host_order = little;
  getaddrinfo = λ t p. resolved (
      record { family = inet; socktype = 2; protocol = 17; addr = any_v4 }
      ∷ record { family = inet6; socktype = 2; protocol = 17; addr = any_v6 }
      ∷ []);
  socket = λ t info. pos (fresh_fd t);
  set_v6only = λ t fd. pos 0;
  bind = λ t fd addr. pos 0;
  epoll_create = λ t. pos (fresh_fd t);
  epoll_ctl = λ t ep fd. pos 0;
  recvfrom = λ t fd. mailbox t;
  sendto = λ t fd session buf. sent_bytes (length buf);
  inet_ntop = λ addr. none;
  tcgetattr = λ t. (record { echo = true; others = [] }, pos 0);
  tcsetattr = λ t term. pos 0;
  stdin = λ t. codes "hunter2\n";
  epoll_wait = λ t ep max. ready [];
  signals = λ t. 2 ∷ [];
  dtls_max_buf = 1400;
  psk_max_key_len = 16;
  alert_fatal = alert_code;
  close_notify = 0;
  event_connect = 476;
  event_connected = 478;
  dtls_new_context = λ t. true;
  dtls_rounds = λ t. 1;
  dtls_next = λ t. some (call_read peer move_bytes);
  dtls_result = λ t. pos 0;
  malloc = λ t size. some (length t);
  sizeof_service = 512;
  host_name_max = 64;
  getifaddrs = λ t. some interfaces;
  gethostname = λ t. some (codes "desk" ++ 0 ∷ []);
  is_linklocal = λ addr. false;
  is_v4mapped = λ addr. false;
  mdns_open_ipv4 = λ t addr. pos (fresh_fd t);
  mdns_open_ipv6 = λ t addr. pos (fresh_fd t);
  mdns_string_extract = λ bytes at. bytes;
  mdns_queries = λ t fd buffer size. [];
  fixed_from_int = times_256;
  wl_connect = λ t. 1;
  wl_globals = λ t. [];
  wl_get_fd = λ t. pos 2;
  wl_dispatch = λ t. pos 0;
  create_virtual_pointer = λ t manager seat. 9;
  registry_bind = λ t name interface version. name;
}

pub world-SocketLaws : SocketLaws world
world-SocketLaws = record { socket_fresh = λ t info h. fresh_fd-live (fresh_fd t) t (omega arith) }

pub world-ResolvedLaws : ResolvedLaws world
world-ResolvedLaws = record {
  same_family = λ t service infos e.
      subst (λ found. All (λ info. info.addr.family ≡ info.family) (entries found)) e
        (refl, (refl, tt));
}
  where
    entries : Resolved → List AddrInfo
    entries (resolved infos) = infos
    entries (gai_failed code) = []

pub world-FixedLaws : FixedLaws world
world-FixedLaws = record { fixed_zero = refl; fixed_ne_zero = λ z r e. times_256-zero z e }
  where
    times_256-zero : (z : ℤ) → times_256 z ≡ pos 0 → z ≡ pos 0
    times_256-zero z e = ground arith

pub world-SendLaws : SendLaws world
world-SendLaws = record { sent_le = λ t fd session buf n e. ground arith }

pub world-AlertLaws : AlertLaws world
world-AlertLaws = record { alert_negative = λ a. ground arith }

pub world-ArrivalLaws : ArrivalLaws world 1
world-ArrivalLaws = record { no_more = λ t fd s b e. ground arith }
