-- ===== src/Network/Callbacks.antt =====
-- src/network.c: the handlers in `net_dtls_callbacks`, and how tinydtls calls them. What tinydtls
-- does with a datagram is not known: after each event it may make any call of a handler, and it is
-- only assumed to come to an end.
pub mod Send
pub mod Calm
pub mod Credentials
pub mod Events
pub mod Grants
pub mod Traffic
pub mod Played
pub mod Quiet
use wlr_remote.Base.{
  ℕ, zero, suc, ◌+◌, ◌≤◌, Bool, true, false, ◌&&◌, ◌||◌, Option, none, some, List, [], ◌∷◌, ◌++◌,
  Bytes, ltb, leb, ◌==◌, if◌then◌else◌, bytes_eq, length, take, ⊤, ℤ, pos, minus_one, is_neg,
  to_int,
}
use wlr_remote.Pointer.{codes}
use wlr_remote.Packet.{net_handle_receive}
use wlr_remote.System.Types.{
  ClientState, Session, SockAddr, Family, Sockets, Errno, eagain, ewouldblock, enobufs, eintr,
  other_error, Sent, sent_bytes, send_failed, Credential, psk_hint, psk_identity, psk_key,
  internal_error, illegal_parameter, Callback, call_write, call_read, call_event, call_get_psk_info,
  is_inet, is_inet6,
}
use wlr_remote.System.Event.{
  Event, Trace, sendto, perror, unrecognized_family, no_client_address, connection_closed,
  received_alert, handshake_initiated, handshake_completed, dtls_input, dtls_called, dtls_returned,
  dtls_credential, dtls_free_context,
}
use wlr_remote.System.Env.{Env}
use wlr_remote.System.Monad.{M, pure, perform, emit, print, skip, when, ◌>>=◌, ◌>>◌}

-- `errno == EAGAIN || errno == EWOULDBLOCK`.
abbrev pub would_block : Errno → Bool
would_block eagain = true
would_block ewouldblock = true
would_block enobufs = false
would_block eintr = false
would_block (other_error e) = false

-- The same, or ENOBUFS.
abbrev pub may_retry : Errno → Bool
may_retry eagain = true
may_retry ewouldblock = true
may_retry enobufs = true
may_retry eintr = false
may_retry (other_error e) = false

-- PSK_ID.
abbrev pub psk_id : Bytes
psk_id = codes "wlr-remote"

-- The end of `net_handle_send`, on what `sendto` reported for a datagram of this length.
unfoldable pub send_result : ℕ → Sent → M ℤ
send_result len (sent_bytes n) = pure (to_int n)
send_result len (send_failed e) =
    if may_retry e then pure (to_int len) else (do print (perror (codes "sendto")); pure minus_one)

module _ (env : Env) where
  unfoldable pub send_on : ℤ → Session → Bytes → M ℤ
  send_on sock session buf = do
    sent ← perform (λ t. env.sendto t sock session buf) (sendto sock session buf)
    send_result (length buf) sent

  -- The choice of a socket by `session->addr.sa.sa_family`.
  unfoldable pub send_by_family : Family → ClientState → Session → Bytes → M ℤ
  send_by_family family state session buf =
      if is_inet family
      then send_on state.socks.v4 session buf
      else if is_inet6 family
      then send_on state.socks.v6 session buf
      else (do print unrecognized_family; pure minus_one)

  unfoldable pub net_handle_send : ClientState → Session → Bytes → M ℤ
  net_handle_send state session buf = send_by_family session.addr.family state session buf

  -- The message for an alert, or for an event of tinydtls itself, which has level 0.
  unfoldable pub print_event : ℕ → ℕ → Option Bytes → M ⊤
  print_event level code client_addr =
      if ltb 0 level
      then (if code == env.close_notify
          then print (connection_closed client_addr)
          else print (received_alert level code client_addr))
      else if code == env.event_connect
      then print (handshake_initiated client_addr)
      else when (code == env.event_connected) (print (handshake_completed client_addr))

  -- The buffer `client_addr` is left as it was, not written, where `inet_ntop` fails.
  unfoldable pub net_handle_event : Session → ℕ → ℕ → M ℤ
  net_handle_event session level code =
      let client_addr = env.inet_ntop session.addr in
      do
        elim client_addr [
          | none ↦ (do print no_client_address; print (perror (codes "inet_ntop")))
          | some shown ↦ skip
        ]
        print_event level code client_addr
        pure (pos 0)

  -- The result, and the bytes written to the caller's buffer, which has room for `result_length`.
  unfoldable pub net_get_psk_info : ClientState → Credential → Bytes → ℕ → ℤ × Bytes
  net_get_psk_info state psk_hint id result_length = (pos 0, [])
  net_get_psk_info state psk_identity id result_length = (pos 0, [])
  net_get_psk_info state psk_key id result_length =
      if length id == length psk_id && bytes_eq id psk_id
      then (if ltb result_length state.psk_key_len
          then (env.alert_fatal internal_error, [])
          else (to_int state.psk_key_len, take state.psk_key_len state.psk_key))
      else (env.alert_fatal illegal_parameter, [])

  -- A call through the table `net_dtls_callbacks`; the events say what tinydtls gets back.
  unfoldable pub net_dtls_callbacks : ClientState → Callback → M ℤ
  net_dtls_callbacks state (call_write session buf) = net_handle_send state session buf
  net_dtls_callbacks state (call_read session buf) = net_handle_receive env state buf
  net_dtls_callbacks state (call_event session level code) = net_handle_event session level code
  net_dtls_callbacks state (call_get_psk_info session type id result_length) =
      let (result, written) = net_get_psk_info state type id result_length in
      do emit (dtls_credential written); pure result

  unfoldable pub run_callbacks : ℕ → ClientState → M ⊤
  run_callbacks zero state t = (tt, t)
  run_callbacks (suc rounds) state t = elim (env.dtls_next t) [
    | none ↦ (tt, t)
    | some callback ↦
        (do
          emit (dtls_called callback)
          result ← net_dtls_callbacks state callback
          emit (dtls_returned result)
          run_callbacks rounds state)
          t
  ]

  unfoldable pub dtls_handle_message : ClientState → Session → Bytes → M ℤ
  dtls_handle_message state session buf = do
    emit (dtls_input session buf)
    rounds ← (λ t. (env.dtls_rounds t, t))
    run_callbacks rounds state
    λ t. (env.dtls_result t, t)

  -- `dtls_free_context`: tinydtls ends the connections that there are, by calls of the handlers, the
  -- sockets being open.
  unfoldable pub free_context : ClientState → M ⊤
  free_context state = do
    emit dtls_free_context
    rounds ← (λ t. (env.dtls_rounds t, t))
    run_callbacks rounds state
