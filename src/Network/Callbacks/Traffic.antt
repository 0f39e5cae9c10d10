-- ===== src/Network/Callbacks/Traffic.antt =====
-- src/network.c, the handlers: what goes out is what tinydtls wants to go out.
use wlr_remote.Base.{ℕ, zero, suc, ◌≡◌, sym, ap, ◌∙◌, arith, ◌∷◌, Bytes, Option-cases, inl, inr, ℤ}
use wlr_remote.System.Types.{
  ClientState, Session, Sockets, MousePacket, Callback, call_write, call_read, call_event,
  call_get_psk_info,
}
use wlr_remote.System.Event.{Trace, dtls_input, dtls_called, dtls_returned}
use wlr_remote.System.Env.{Env}
use wlr_remote.System.Traffic.{sends, writes, traffic, addressed}
use wlr_remote.Pointer.{vp_handle_packet}
use wlr_remote.Packet.{net_handle_receive, load_packet, packet_to_host}
use wlr_remote.Network.Callbacks.{
  send_result, send_on, send_by_family, net_handle_send, print_event, net_handle_event,
  net_dtls_callbacks, run_callbacks, dtls_handle_message,
}

-- Exactly what tinydtls wanted to go out to a peer of either family did, on that family's socket.
abbrev pub IsSent : Sockets → Trace → Type 0
IsSent socks t = sends t ≡ addressed socks (writes t)

module _ (env : Env) (state : ClientState) where
  vp_handle_packet-traffic :
      (p : MousePacket) (t : Trace) → traffic (vp_handle_packet env state p t).1 ≡ traffic t
  unfolding vp_handle_packet
  vp_handle_packet-traffic p t = ground arith

  net_handle_receive-traffic :
      (bytes : Bytes) (t : Trace) → traffic (net_handle_receive env state bytes t).1 ≡ traffic t
  unfolding net_handle_receive
  net_handle_receive-traffic bytes t = ground (
    arith,
    vp_handle_packet-traffic (packet_to_host env.host_order (load_packet env.host_order bytes)) t,
  )

  net_handle_event-traffic :
      (session : Session) (level code : ℕ) (t : Trace)
      → traffic (net_handle_event env session level code t).1 ≡ traffic t
  unfolding net_handle_event print_event
  net_handle_event-traffic session level code t = ground arith

  send_on-traffic :
      (sock : ℤ) (session : Session) (buf : Bytes) (t : Trace)
      → traffic (send_on env sock session buf t).1 ≡ ((sock, session, buf) ∷ sends t, writes t)
  unfolding send_on send_result
  send_on-traffic sock session buf t = ground arith

  net_handle_send-IsSent :
      (session : Session) (buf : Bytes) (t : Trace)
      → IsSent state.socks t
      → IsSent state.socks
          (net_handle_send env state session buf (dtls_called (call_write session buf) ∷ t)).1
  unfolding net_handle_send send_by_family
  net_handle_send-IsSent session buf t h =
      let u = dtls_called (call_write session buf) ∷ t in
      ground (
        arith,
        send_on-traffic state.socks.v4 session buf u,
        send_on-traffic state.socks.v6 session buf u,
      )

  module _ {socks : Sockets} (fit : state.socks ≡ socks) where
    net_dtls_callbacks-IsSent :
        (c : Callback) (t : Trace)
        → IsSent socks t
        → IsSent socks (net_dtls_callbacks env state c (dtls_called c ∷ t)).1
    unfolding net_dtls_callbacks
    net_dtls_callbacks-IsSent (call_write session buf) t h =
        let before : IsSent state.socks t = h ∙ ap (λ x. addressed x (writes t)) (sym fit) in
        let u =
          (net_handle_send env state session buf (dtls_called (call_write session buf) ∷ t)).1 in
        net_handle_send-IsSent session buf t before ∙ ap (λ x. addressed x (writes u)) fit
    net_dtls_callbacks-IsSent (call_read session buf) t h =
        ground (arith, net_handle_receive-traffic buf (dtls_called (call_read session buf) ∷ t))
    net_dtls_callbacks-IsSent (call_event session level code) t h = ground (
      arith,
      net_handle_event-traffic session level code (dtls_called (call_event session level code) ∷ t),
    )
    net_dtls_callbacks-IsSent (call_get_psk_info session type id room) t h = h

    pub run_callbacks-IsSent :
        (rounds : ℕ) (t : Trace)
        → IsSent socks t
        → IsSent socks (run_callbacks env rounds state t).1
    unfolding run_callbacks
    run_callbacks-IsSent zero t h = h
    run_callbacks-IsSent (suc rounds) t h = elim (Option-cases (env.dtls_next t)) [
      | inl over ↦ rw (over, run_callbacks) h
      | inr (c, next) ↦
          let (result, u) = net_dtls_callbacks env state c (dtls_called c ∷ t) in
          rw (next, run_callbacks)
            (run_callbacks-IsSent rounds (dtls_returned result ∷ u)
              (net_dtls_callbacks-IsSent c t h))
    ]

    pub dtls_handle_message-IsSent :
        (session : Session) (buf : Bytes) (t : Trace)
        → IsSent socks t
        → IsSent socks (dtls_handle_message env state session buf t).1
    unfolding dtls_handle_message
    dtls_handle_message-IsSent session buf t h =
        run_callbacks-IsSent (env.dtls_rounds (dtls_input session buf ∷ t))
          (dtls_input session buf ∷ t) h
