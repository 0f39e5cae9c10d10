-- ===== src/System/Event.antt =====
-- Every effect of the program on its surroundings, with the answer that it got, and the trace of
-- them: the list of the events so far, the newest first.
use wlr_remote.Base.{ℕ, ℤ, Bool, Bytes, List, Option}
use wlr_remote.System.Types.{
  Waited, Pointer, MdnsString, MdnsRecord, Family, Handle, SockAddr, Session, Received, Sent,
  Resolved, Callback, Lookup, Selected, IfAddr, Termios,
}

-- What the program prints, by the message's first words.
pub data Log : Type 0 where
  perror : Bytes → Log
  gai_strerror : ℤ → Log
  failed_to_bind : Bytes → Log
  packet_exceeds_buffer : ℕ → Log
  unrecognized_family : Log
  unexpected_size : ℕ → Log
  no_client_address : Log
  -- these show the peer's address, as far as the buffer for it was written
  connection_closed : Option Bytes → Log
  received_alert : ℕ → ℕ → Option Bytes → Log
  handshake_initiated handshake_completed : Option Bytes → Log
  invalid_button_state unknown_button : ℕ → Log
  invalid_port : Bytes → Log
  create_password echo_not_disabled newline : Log
  password_unread password_too_long password_empty : Log
  no_interface no_mdns_socket no_mdns_strings unexpected_type : Log
  cannot_open_display no_protocol no_dtls_context : Log
  advertising : Log
  listening : ℕ → Log
  -- the test client's
  enter_password connect_failed handshaking handshake_timeout : Log
  received_event small_key_buffer : ℕ → ℕ → Log
  packet_sent : ℕ → ℤ → Log
  write_failed : ℤ → Log
  text : Bytes → Log

pub data Event : Type 0 where
  log : Log → Event
  -- memory
  malloc : ℕ → Pointer → Event
  free : Pointer → Event
  -- sockets
  getaddrinfo : Bytes → Resolved → Event
  freeaddrinfo : Event
  socket : Family → ℕ → ℕ → ℤ → Event
  set_v6only : ℤ → ℤ → Event
  bind : ℤ → SockAddr → ℤ → Event
  close : ℤ → Event
  recvfrom : ℤ → Received → Event
  sendto : ℤ → Session → Bytes → Sent → Event
  lookup : Bytes → Bytes → Lookup → Event
  select : Selected → Event
  -- epoll
  epoll_create : ℤ → Event
  epoll_add : ℤ → ℤ → ℤ → Event
  epoll_wait : ℤ → ℕ → Waited → Event
  -- requests to the compositor
  pointer_button : Handle → ℕ → ℕ → ℕ → Event
  pointer_motion : Handle → ℕ → ℤ → ℤ → Event
  pointer_frame : Handle → Event
  registry_bind : ℕ → Bytes → ℕ → Handle → Event
  -- libwayland
  wl_connect : Handle → Event
  wl_get_registry wl_add_listener wl_roundtrip wl_flush wl_dispatch_pending : Event
  wl_dispatch : ℤ → Event
  create_virtual_pointer : Handle → Event
  pointer_destroy manager_destroy seat_destroy : Handle → Event
  registry_destroy wl_disconnect : Event
  -- tinydtls
  dtls_init dtls_set_handler dtls_free_context : Event
  dtls_new_context : Bool → Event
  dtls_connect : Session → Event
  dtls_write : Session → Bytes → Event
  dtls_input : Session → Bytes → Event
  dtls_called : Callback → Event
  dtls_returned : ℤ → Event
  dtls_credential : Bytes → Event
  -- lib/mdns.h
  getifaddrs : Option (List IfAddr) → Event
  freeifaddrs gethostname : Event
  mdns_open : Family → ℤ → Event
  mdns_close : ℤ → Event
  mdns_announce mdns_goodbye : ℤ → Pointer → ℕ → MdnsRecord → List MdnsRecord → Event
  mdns_answer_unicast : ℤ → Session → ℕ → ℕ → ℕ → MdnsString → MdnsRecord → List MdnsRecord → Event
  mdns_answer_multicast : ℤ → ℕ → MdnsRecord → List MdnsRecord → Event
  -- the terminal and signals
  tcgetattr : Termios × ℤ → Event
  tcsetattr : Termios → ℤ → Event
  fgets : Event
  usleep : ℕ → Event
  sigaction : ℕ → (ℕ → Bool → Bool) → Event

abbrev pub Trace : Type 0
Trace = List Event
