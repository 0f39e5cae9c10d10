-- ===== src/TestClient/Program.antt =====
-- src/test-client.c, `main`: the password, the handshake, fifty packets, and the end.
pub mod Drag
pub mod Passed
pub mod Ends
pub mod Open
pub mod Over
pub mod Total
use wlr_remote.Base.{
  ℕ, zero, suc, ◌+◌, ◌-◌, ◌*◌, Bool, true, false, ◌&&◌, Option, none, some, Bytes, [], ◌∷◌, length,
  ltb, take, set, if◌then◌else◌, ⊤, ℤ, pos, is_neg, ltb_ℤ,
}
use wlr_remote.Libc.Text as Text
use wlr_remote.Libc.Text.{strcspn}
use wlr_remote.Pointer.{codes}
use wlr_remote.Packet.{store_packet, packet_to_network}
use wlr_remote.System.Types.{
  AddrInfo, Session, MousePacket, Received, datagram, recv_failed, Lookup, found, lookup_failed,
  Selected, selected, timeout, select_failed,
}
use wlr_remote.System.Event.{
  Event, lookup, select, socket, recvfrom, close, freeaddrinfo, fgets, usleep, dtls_init,
  dtls_new_context, dtls_set_handler, dtls_free_context, dtls_connect, dtls_write, dtls_input,
  gai_strerror, perror, enter_password, connect_failed, handshaking, handshake_timeout, packet_sent,
  write_failed, no_dtls_context,
}
use wlr_remote.System.Monad.{M, pure, perform, emit, print, skip, when, ◌>>=◌, ◌>>◌}
use wlr_remote.Setup.{exit_failure}
use wlr_remote.Main.Cleanup.{exit_success}
use wlr_remote.TestClient.Types.{
  Vars, ClientEnv, client_buffer_size, server_ip, server_port_str, delay, iterations,
}
use wlr_remote.TestClient.Callbacks.{dtls_proceeds}

-- How a round of the handshake ends: `break`, or on to the test of the loop.
pub data Turn : Type 0 where
  again leave : Vars → Turn

-- The packet that is sent, in the order of the host's fields.
abbrev pub client_packet : MousePacket
client_packet = record { dx = pos 10; dy = pos 10; button = 0; button_state = 0 }

-- The static variables once the password was read into the buffer.
abbrev pub read_vars : Bytes → Vars
read_vars buffer =
    let len = strcspn b'\n' buffer in
    record { psk_key = set buffer len 0; psk_key_len = len; is_connected = false }

module _ (env : ClientEnv) where
  -- The label `cleanup`. tinydtls ends the connection by calls of the handlers, the socket being open.
  unfoldable pub cleanup : ℤ → Vars → M ℕ
  cleanup fd vars = do
    emit dtls_free_context
    freed ← dtls_proceeds env fd vars
    emit (close fd)
    pure (if freed.1.is_connected then exit_success else exit_failure)

  -- The bytes of `pkt`.
  abbrev pub client_bytes : Bytes
  client_bytes =
      store_packet env.base.host_order (packet_to_network env.base.host_order client_packet)

  -- The body of the `for` loop.
  unfoldable pub send_packet : ℤ → Session → ℕ → Vars → M Vars
  send_packet fd session i vars = do
    emit (dtls_write session client_bytes)
    written ← dtls_proceeds env fd vars
    print (if ltb_ℤ (pos 0) written.0 then packet_sent i written.0 else write_failed written.0)
    emit (usleep (if ltb i (iterations - 1) then delay else 0))
    pure written.1

  -- The loop, with `left` rounds to go.
  unfoldable pub send_packets : ℕ → ℕ → ℤ → Session → Vars → M Vars
  send_packets zero i fd session vars t = (vars, t)
  send_packets (suc left) i fd session vars t =
      let (vars', u) = send_packet fd session i vars t in
      send_packets left (i + 1) fd session vars' u

  -- What was received is cut to the buffer; an empty datagram and an error are passed over.
  unfoldable pub take_datagram : ℤ → Vars → Received → M Vars
  take_datagram fd vars (recv_failed e) = pure vars
  take_datagram fd vars (datagram session bytes) =
      let buf = take env.base.dtls_max_buf bytes in
      if ltb 0 (length buf)
      then (do emit (dtls_input session buf); handled ← dtls_proceeds env fd vars; pure handled.1)
      else pure vars

  -- The body of the `while` loop, on what `select` reported.
  unfoldable pub after_select : ℤ → Vars → Selected → M Turn
  after_select fd vars select_failed = do print (perror (codes "select")); pure (leave vars)
  after_select fd vars timeout = do print handshake_timeout; pure (leave vars)
  after_select fd vars (selected false) = pure (again vars)
  after_select fd vars (selected true) = do
    received ← perform (λ t. env.base.recvfrom t fd) (recvfrom fd)
    vars' ← take_datagram fd vars received
    pure (again vars')

  -- `while (!is_connected)`, with a bound on its rounds; `none` is a loop that is not done by then.
  unfoldable pub handshake : ℕ → ℤ → Turn → M (Option Vars)
  handshake rounds fd (leave vars) t = (some vars, t)
  handshake zero fd (again vars) t = (none, t)
  handshake (suc rounds) fd (again vars) t = elim vars.is_connected [
    | true ↦ (some vars, t)
    | false ↦
        let s = env.select t in
        let (turn, u) = after_select fd vars s (select s ∷ t) in handshake rounds fd turn u
  ]

  -- From the end of the handshake on.
  unfoldable pub after_handshake : ℤ → Session → Option Vars → M (Option ℕ)
  after_handshake fd session none = pure none
  after_handshake fd session (some vars) = do
    vars' ← if vars.is_connected then send_packets iterations 0 fd session vars else pure vars
    status ← cleanup fd vars'
    pure (some status)

  module _ (fuel : ℕ) where
    -- From `dtls_connect` on.
    unfoldable pub connect_server : ℤ → Session → Vars → M (Option ℕ)
    connect_server fd session vars = do
      emit (dtls_connect session)
      connected ← dtls_proceeds env fd vars
      if is_neg connected.0
          then (do print connect_failed; status ← cleanup fd connected.1; pure (some status))
          else (do
            print handshaking
            done ← handshake fuel fd (again connected.1)
            after_handshake fd session done)

    -- From `dtls_init` on.
    unfoldable pub create_context : ℤ → Session → Vars → M (Option ℕ)
    create_context fd session vars = do
      emit dtls_init
      created ← perform (λ t. env.base.dtls_new_context t) dtls_new_context
      if created
          then (do emit dtls_set_handler; connect_server fd session vars)
          else (do print no_dtls_context; emit (close fd); pure (some exit_failure))

    -- From `socket` on.
    unfoldable pub open_client : AddrInfo → ℕ → Vars → M (Option ℕ)
    open_client head addrlen vars = do
      fd ← perform (λ t. env.base.socket t head) (socket head.family head.socktype head.protocol)
      if is_neg fd
          then (do print (perror (codes "socket")); emit freeaddrinfo; pure (some exit_failure))
          else (do
            emit freeaddrinfo
            create_context fd (record { addr = head.addr; size = addrlen }) vars)

    -- On what `getaddrinfo` reported.
    unfoldable pub after_lookup : Vars → Lookup → M (Option ℕ)
    after_lookup vars (lookup_failed code) = do print (gai_strerror code); pure (some exit_failure)
    after_lookup vars (found head addrlen) = open_client head addrlen vars

    -- On what `fgets` read.
    unfoldable pub after_password : Option Bytes → M (Option ℕ)
    after_password none = pure (some exit_failure)
    after_password (some buffer) = do
      answer ← perform (λ t. env.lookup t) (lookup server_ip server_port_str)
      after_lookup (read_vars buffer) answer

    unfoldable pub main : M (Option ℕ)
    main = do
      print enter_password
      key ← (λ t. (Text.fgets (client_buffer_size env) (env.base.stdin t), fgets ∷ t))
      after_password key
