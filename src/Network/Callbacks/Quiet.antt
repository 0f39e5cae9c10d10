-- ===== src/Network/Callbacks/Quiet.antt =====
-- What a call of a handler, and so all that tinydtls does with a datagram, leaves alone: the order of
-- the pointer's requests, and what was received and handed to tinydtls.
use wlr_remote.Base.{
  ℕ, zero, suc, ◌≡◌, refl, ◌∙◌, arith, Bytes, List, [], ◌∷◌, Option-cases, inl, inr, ℤ,
}
use wlr_remote.System.Types.{
  ClientState, Session, Callback, call_write, call_read, call_event, call_get_psk_info, datagram,
  MousePacket, Family,
}
use wlr_remote.System.Event.{Trace, recvfrom, dtls_input, dtls_called, dtls_returned}
use wlr_remote.System.Env.{Env}
use wlr_remote.Pointer.{vp_handle_packet}
use wlr_remote.Pointer.Frames.{between, phase, vp_handle_packet-between}
use wlr_remote.Packet.{net_handle_receive, load_packet, packet_to_host}
use wlr_remote.Network.Callbacks.{
  send_result, send_on, send_by_family, net_handle_send, print_event, net_handle_event,
  net_dtls_callbacks, run_callbacks, dtls_handle_message,
}

-- The datagrams received, with their senders, and those handed to tinydtls, the newest first.
abbrev pub Mail : Type 0
Mail = List (Session × Bytes)

abbrev pub received_mail : Trace → Mail
received_mail [] = []
received_mail (recvfrom fd (datagram s b) ∷ t) = (s, b) ∷ received_mail t
received_mail (_ ∷ t) = received_mail t

abbrev pub handed_mail : Trace → Mail
handed_mail [] = []
handed_mail (dtls_input s b ∷ t) = (s, b) ∷ handed_mail t
handed_mail (_ ∷ t) = handed_mail t

-- Nothing is received or handed on, and whole frames stay whole frames.
pub record IsQuiet (t t' : Trace) : Type 0 where
  pub received_same : received_mail t' ≡ received_mail t
  pub handed_same : handed_mail t' ≡ handed_mail t
  pub framed : phase t ≡ between → phase t' ≡ between

pub IsQuiet-trans : (t u v : Trace) → IsQuiet t u → IsQuiet u v → IsQuiet t v
IsQuiet-trans t u v p q = record {
  received_same = q.received_same ∙ p.received_same;
  handed_same = q.handed_same ∙ p.handed_same;
  framed = λ h. q.framed (p.framed h);
}

IsQuiet-called : {c : Callback} {t : Trace} → IsQuiet t (dtls_called c ∷ t)
IsQuiet-called = record { received_same = refl; handed_same = refl; framed = λ h. h }

IsQuiet-returned : {r : ℤ} {t : Trace} → IsQuiet t (dtls_returned r ∷ t)
IsQuiet-returned = record { received_same = refl; handed_same = refl; framed = λ h. h }

module _ (env : Env) (state : ClientState) where
  vp_handle_packet-IsQuiet :
      (p : MousePacket) (t : Trace) → IsQuiet t (vp_handle_packet env state p t).1
  vp_handle_packet-IsQuiet p t = record {
    received_same = unfold vp_handle_packet in (ground arith);
    handed_same = unfold vp_handle_packet in (ground arith);
    framed = vp_handle_packet-between env state p t;
  }

  net_handle_receive-IsQuiet :
      (bytes : Bytes) (t : Trace) → IsQuiet t (net_handle_receive env state bytes t).1
  unfolding net_handle_receive
  net_handle_receive-IsQuiet bytes t = ground (
    arith,
    vp_handle_packet-IsQuiet (packet_to_host env.host_order (load_packet env.host_order bytes)) t,
  )

  send_on-IsQuiet :
      (sock : ℤ) (session : Session) (buf : Bytes) (t : Trace)
      → IsQuiet t (send_on env sock session buf t).1
  unfolding send_on send_result
  send_on-IsQuiet sock session buf t = ground arith

  send_by_family-IsQuiet :
      (f : Family) (session : Session) (buf : Bytes) (t : Trace)
      → IsQuiet t (send_by_family env f state session buf t).1
  unfolding send_by_family
  send_by_family-IsQuiet f session buf t = ground (
    arith,
    send_on-IsQuiet state.socks.v4 session buf t,
    send_on-IsQuiet state.socks.v6 session buf t,
  )

  net_handle_event-IsQuiet :
      (session : Session) (level code : ℕ) (t : Trace)
      → IsQuiet t (net_handle_event env session level code t).1
  unfolding net_handle_event print_event
  net_handle_event-IsQuiet session level code t = ground arith

  -- Whatever call tinydtls makes of whichever handler.
  pub net_dtls_callbacks-IsQuiet :
      (c : Callback) (t : Trace) → IsQuiet t (net_dtls_callbacks env state c t).1
  unfolding net_dtls_callbacks net_handle_send
  net_dtls_callbacks-IsQuiet (call_write session buf) t =
      send_by_family-IsQuiet session.addr.family session buf t
  net_dtls_callbacks-IsQuiet (call_read session buf) t = net_handle_receive-IsQuiet buf t
  net_dtls_callbacks-IsQuiet (call_event session level code) t =
      net_handle_event-IsQuiet session level code t
  net_dtls_callbacks-IsQuiet (call_get_psk_info session type id n) t = ground arith

  pub run_callbacks-IsQuiet :
      (rounds : ℕ) (t : Trace) → IsQuiet t (run_callbacks env rounds state t).1
  unfolding run_callbacks
  run_callbacks-IsQuiet zero t = ground arith
  run_callbacks-IsQuiet (suc rounds) t = elim (Option-cases (env.dtls_next t)) [
    | inl over ↦
        rw (over, run_callbacks)
          (record { received_same = refl; handed_same = refl; framed = λ h. h })
    | inr (c, next) ↦
        let t' = dtls_called c ∷ t in
        let (result, u) = net_dtls_callbacks env state c t' in
        let called = IsQuiet-trans t t' u IsQuiet-called (net_dtls_callbacks-IsQuiet c t') in
        let u' = dtls_returned result ∷ u in
        let ended = IsQuiet-trans t u u' called IsQuiet-returned in
        rw (next, run_callbacks) (IsQuiet-trans t u' _ ended (run_callbacks-IsQuiet rounds u'))
  ]

  -- All that tinydtls does with a datagram, once it has it, is quiet.
  pub dtls_handle_message-IsQuiet :
      (session : Session) (buf : Bytes) (t : Trace)
      → IsQuiet (dtls_input session buf ∷ t) (dtls_handle_message env state session buf t).1
  unfolding dtls_handle_message
  dtls_handle_message-IsQuiet session buf t = run_callbacks-IsQuiet _ _
