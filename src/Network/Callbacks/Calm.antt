-- ===== src/Network/Callbacks/Calm.antt =====
-- src/network.c, the handlers: whatever tinydtls calls, no descriptor, no object and no memory is
-- taken or given back, and no event is waited for.
use wlr_remote.Base.{
  ℕ, zero, suc, ◌≡◌, refl, ◌∙◌, arith, ◌∷◌, Option-cases, inl, inr, Bytes, ℤ, pos,
}
use wlr_remote.System.Types.{
  ClientState, MdnsRecord, Session, MousePacket, Callback, call_write, call_read, call_event,
  call_get_psk_info,
}
use wlr_remote.System.Event.{Trace, dtls_input, dtls_called, dtls_returned, dtls_free_context}
use wlr_remote.System.Notices.{Notice, notices, told}
use wlr_remote.Base.{List, Option, ap}
use wlr_remote.System.Grants.{grants}
use wlr_remote.System.Signals.{Handler, handlers}
use wlr_remote.System.Controls.{Control, controls}
use wlr_remote.System.Env.{Env}
use wlr_remote.Base.{Bool}
use wlr_remote.System.Terminal.{echo_on}
use wlr_remote.System.Descriptors.{live}
use wlr_remote.System.Ledger.{heap, epoll_sets, faults}
use wlr_remote.System.Objects.{objects, waits}
use wlr_remote.Pointer.{vp_handle_packet}
use wlr_remote.Packet.{net_handle_receive, load_packet, packet_to_host}
use wlr_remote.Network.Callbacks.{
  send_result, send_on, send_by_family, net_handle_send, print_event, net_handle_event,
  net_dtls_callbacks, run_callbacks, dtls_handle_message, free_context,
}

-- What the handlers leave alone.
abbrev pub held :
    ℕ
    → Trace
    → (ℕ × ℕ × ℕ × ℕ × ℕ)
      × ℕ
      × ℕ
      × ℕ
      × ℕ
      × ℕ
      × List Notice
      × Bool
      × List MdnsRecord
      × List Control
      × List (ℕ × Handler)
held n t = (
  objects t,
  waits t,
  live (pos n) t,
  heap n t,
  epoll_sets (pos n) t,
  faults n t,
  notices t,
  echo_on t,
  told t,
  controls t,
  handlers t,
)

-- The same, with what was granted to tinydtls.
abbrev pub calm :
    ℕ
    → Trace
    → ((ℕ × ℕ × ℕ × ℕ × ℕ)
        × ℕ
        × ℕ
        × ℕ
        × ℕ
        × ℕ
        × List Notice
        × Bool
        × List MdnsRecord
        × List Control
        × List (ℕ × Handler))
      × List (Option Callback × Bytes)
calm n t = (held n t, grants t)

module _ (n : ℕ) (env : Env) (state : ClientState) where
  vp_handle_packet-calm :
      (p : MousePacket) (t : Trace) → calm n (vp_handle_packet env state p t).1 ≡ calm n t
  unfolding vp_handle_packet
  vp_handle_packet-calm p t = ground arith

  pub net_handle_receive-calm :
      (bytes : Bytes) (t : Trace) → calm n (net_handle_receive env state bytes t).1 ≡ calm n t
  unfolding net_handle_receive
  net_handle_receive-calm bytes t = ground (
    arith,
    vp_handle_packet-calm (packet_to_host env.host_order (load_packet env.host_order bytes)) t,
  )

  send_on-calm :
      (sock : ℤ) (session : Session) (buf : Bytes) (t : Trace)
      → calm n (send_on env sock session buf t).1 ≡ calm n t
  unfolding send_on send_result
  send_on-calm sock session buf t = ground arith

  pub net_handle_send-calm :
      (session : Session) (buf : Bytes) (t : Trace)
      → calm n (net_handle_send env state session buf t).1 ≡ calm n t
  unfolding net_handle_send send_by_family
  net_handle_send-calm session buf t =
      ground (
        arith,
        send_on-calm state.socks.v4 session buf t,
        send_on-calm state.socks.v6 session buf t,
      )

  pub net_handle_event-calm :
      (session : Session) (level code : ℕ) (t : Trace)
      → calm n (net_handle_event env session level code t).1 ≡ calm n t
  unfolding net_handle_event print_event
  net_handle_event-calm session level code t = ground arith

  net_dtls_callbacks-held :
      (c : Callback) (t : Trace) → held n (net_dtls_callbacks env state c t).1 ≡ held n t
  unfolding net_dtls_callbacks
  net_dtls_callbacks-held (call_write session buf) t =
      ap (λ x. x.0) (net_handle_send-calm session buf t)
  net_dtls_callbacks-held (call_read session buf) t = ap (λ x. x.0) (net_handle_receive-calm buf t)
  net_dtls_callbacks-held (call_event session level code) t =
      ap (λ x. x.0) (net_handle_event-calm session level code t)
  net_dtls_callbacks-held (call_get_psk_info session type id len) t = refl

  pub run_callbacks-held :
      (rounds : ℕ) (t : Trace) → held n (run_callbacks env rounds state t).1 ≡ held n t
  unfolding run_callbacks
  run_callbacks-held zero t = refl
  run_callbacks-held (suc rounds) t = elim (Option-cases (env.dtls_next t)) [
    | inl over ↦ rw (over, run_callbacks) refl
    | inr (c, next) ↦
        let (result, u) = net_dtls_callbacks env state c (dtls_called c ∷ t) in
        rw (next, run_callbacks)
          (run_callbacks-held rounds (dtls_returned result ∷ u)
            ∙ net_dtls_callbacks-held c (dtls_called c ∷ t))
  ]

  pub dtls_handle_message-held :
      (session : Session) (buf : Bytes) (t : Trace)
      → held n (dtls_handle_message env state session buf t).1 ≡ held n t
  unfolding dtls_handle_message
  dtls_handle_message-held session buf t =
      run_callbacks-held (env.dtls_rounds (dtls_input session buf ∷ t)) (dtls_input session buf ∷ t)

  pub free_context-held :
      (t : Trace) → held n (free_context env state t).1 ≡ held n (dtls_free_context ∷ t)
  unfolding free_context
  free_context-held t =
      run_callbacks-held (env.dtls_rounds (dtls_free_context ∷ t)) (dtls_free_context ∷ t)
