-- ===== src/Network/Callbacks/Played.antt =====
-- src/network.c, the handlers: the pointer does what the plaintexts say, and nothing else.
use wlr_remote.Base.{
  ℕ, zero, suc, ◌≡◌, refl, arith, Bytes, List, [], ◌∷◌, ◌++◌, ◌==◌, if◌then◌else◌, length, All,
  IsByte, some, Option-cases, inl, inr, ℤ,
}
use wlr_remote.System.Types.{
  ClientState, Session, Callback, call_write, call_read, call_event, call_get_psk_info, MousePacket,
}
use wlr_remote.System.Event.{Trace, dtls_called, dtls_returned, dtls_input}
use wlr_remote.System.Env.{Env}
use wlr_remote.Pointer.{vp_handle_packet}
use wlr_remote.Pointer.Commands.{Request, requests, packet_requests, requests-vp_handle_packet}
use wlr_remote.Packet.{net_handle_receive, load_packet, packet_to_host, sizeof_mouse_packet}
use wlr_remote.Packet.Layout.{network_packet, packet_to_host-load_packet}
use wlr_remote.Network.Callbacks.{
  send_result, send_on, send_by_family, net_handle_send, print_event, net_handle_event,
  net_dtls_callbacks, run_callbacks, dtls_handle_message,
}

-- The plaintexts that tinydtls passed on, the newest first.
abbrev pub plaintexts : Trace → List Bytes
plaintexts [] = []
plaintexts (dtls_called (call_read s d) ∷ t) = d ∷ plaintexts t
plaintexts (_ ∷ t) = plaintexts t

-- What tinydtls hands over is an array of bytes.
pub record PlaintextLaws (env : Env) : Type 0 where
  pub plaintext_bytes :
      (t : Trace) (s : Session) (d : Bytes) → env.dtls_next t ≡ some (call_read s d) → All IsByte d

module _ (env : Env) where
  -- What a plaintext asks for: what the packet does that its bytes stand for in network order, if it
  -- has the size of one, and nothing otherwise.
  abbrev pub meaning : Bytes → List Request
  meaning d = if length d == sizeof_mouse_packet then packet_requests env (network_packet d) else []

  -- The same of plaintexts in a row.
  abbrev pub played : List Bytes → List Request
  played [] = []
  played (d ∷ ds) = meaning d ++ played ds

  -- Up to now the pointer was asked for what the plaintexts ask for, and nothing else, in order.
  abbrev pub IsPlayed : Trace → Type 0
  IsPlayed t = requests t ≡ played (plaintexts t)

  module _ (state : ClientState) where
    requests-net_handle_receive :
        (d : Bytes) (t : Trace)
        → All IsByte d
        → requests (net_handle_receive env state d t).1 ≡ meaning d ++ requests t
    unfolding net_handle_receive
    requests-net_handle_receive d t h = ground (
      arith,
      requests-vp_handle_packet env state
          (packet_to_host env.host_order (load_packet env.host_order d)) t,
      packet_to_host-load_packet env.host_order d h,
    )

    plaintexts-vp_handle_packet :
        (p : MousePacket) (t : Trace) → plaintexts (vp_handle_packet env state p t).1 ≡ plaintexts t
    unfolding vp_handle_packet
    plaintexts-vp_handle_packet p t = ground arith

    plaintexts-net_handle_receive :
        (d : Bytes) (t : Trace) → plaintexts (net_handle_receive env state d t).1 ≡ plaintexts t
    unfolding net_handle_receive
    plaintexts-net_handle_receive d t = ground (
      arith,
      plaintexts-vp_handle_packet (packet_to_host env.host_order (load_packet env.host_order d)) t,
    )

    -- The other handlers ask the pointer for nothing.
    abbrev IsStill : Trace → Trace → Type 0
    IsStill t t' = (requests t' ≡ requests t) × (plaintexts t' ≡ plaintexts t)

    send_on-IsStill :
        (sock : ℤ) (session : Session) (buf : Bytes) (t : Trace)
        → IsStill t (send_on env sock session buf t).1
    unfolding send_on send_result
    send_on-IsStill sock session buf t = ground arith

    net_handle_send-IsStill :
        (session : Session) (buf : Bytes) (t : Trace)
        → IsStill t (net_handle_send env state session buf t).1
    unfolding net_handle_send send_by_family
    net_handle_send-IsStill session buf t = ground (
      arith,
      send_on-IsStill state.socks.v4 session buf t,
      send_on-IsStill state.socks.v6 session buf t,
    )

    net_handle_event-IsStill :
        (session : Session) (level code : ℕ) (t : Trace)
        → IsStill t (net_handle_event env session level code t).1
    unfolding net_handle_event print_event
    net_handle_event-IsStill session level code t = ground arith

    -- Whatever call tinydtls makes of whichever handler.
    net_dtls_callbacks-IsPlayed :
        (c : Callback) (t : Trace)
        → ((s : Session) (d : Bytes) → c ≡ call_read s d → All IsByte d)
        → IsPlayed t
        → IsPlayed (net_dtls_callbacks env state c (dtls_called c ∷ t)).1
    unfolding net_dtls_callbacks
    net_dtls_callbacks-IsPlayed (call_write s buf) t bytes h =
        ground (arith, net_handle_send-IsStill s buf (dtls_called (call_write s buf) ∷ t))
    net_dtls_callbacks-IsPlayed (call_read s d) t bytes h =
        let u = dtls_called (call_read s d) ∷ t in
        ground (
          arith,
          requests-net_handle_receive d u (bytes s d refl),
          plaintexts-net_handle_receive d u,
        )
    net_dtls_callbacks-IsPlayed (call_event s level code) t bytes h =
        ground
          (arith, net_handle_event-IsStill s level code (dtls_called (call_event s level code) ∷ t))
    net_dtls_callbacks-IsPlayed (call_get_psk_info s type id n) t bytes h = ground arith

    pub run_callbacks-IsPlayed :
        (rounds : ℕ) (t : Trace)
        → PlaintextLaws env
        → IsPlayed t
        → IsPlayed (run_callbacks env rounds state t).1
    unfolding run_callbacks
    run_callbacks-IsPlayed zero t laws h = h
    run_callbacks-IsPlayed (suc rounds) t laws h = elim (Option-cases (env.dtls_next t)) [
      | inl over ↦ rw (over, run_callbacks) h
      | inr (c, next) ↦
          let (result, u) = net_dtls_callbacks env state c (dtls_called c ∷ t) in
          let bytes : (s : Session) (d : Bytes) → c ≡ call_read s d → All IsByte d =
            λ s d e. laws.plaintext_bytes t s d (cc) in
          let at_u = net_dtls_callbacks-IsPlayed c t bytes h in
          rw (next, run_callbacks)
            (run_callbacks-IsPlayed rounds (dtls_returned result ∷ u) laws at_u)
    ]

    -- All that tinydtls does with a datagram.
    pub dtls_handle_message-IsPlayed :
        (session : Session) (buf : Bytes) (t : Trace)
        → PlaintextLaws env
        → IsPlayed t
        → IsPlayed (dtls_handle_message env state session buf t).1
    unfolding dtls_handle_message
    dtls_handle_message-IsPlayed session buf t laws h =
        run_callbacks-IsPlayed (env.dtls_rounds (dtls_input session buf ∷ t))
          (dtls_input session buf ∷ t) laws h
