-- ===== src/Pointer/Requests.antt =====
-- src/virtual_pointer.c, `vp_handle_packet`: which requests a packet causes.
use wlr_remote.Base.{
  Bool, true, false, ◌&&◌, ◌||◌, not, [], ◌∷◌, ◌++◌, List, leb, ◌==◌, if◌then◌else◌, pos, ℤ, eq_ℤ,
  ◌≡◌, arith, ◌⊎◌, inl, inr, eq_ℤ_iff, Bool-cases,
}
use wlr_remote.System.Types.{ClientState, MousePacket}
use wlr_remote.System.Event.{
  Event, Trace, pointer_button, pointer_motion, pointer_frame, log, invalid_button_state,
  unknown_button,
}
use wlr_remote.System.Env.{Env, FixedLaws, IsFixed}
use wlr_remote.Pointer.{vp_handle_packet, move_and_frame}

-- A packet to act on: a button state of 0 or 1, with no button or one of the five known ones.
abbrev pub is_accepted : MousePacket → Bool
is_accepted p = leb p.button_state 1 && (p.button == 0 || leb 0x110 p.button && leb p.button 0x114)

abbrev pub is_move : MousePacket → Bool
is_move p = not (eq_ℤ p.dx (pos 0) && eq_ℤ p.dy (pos 0))

module _ (env : Env) (state : ClientState) (packet : MousePacket) where
  -- The button request of an accepted packet, if it names a button.
  abbrev pub button_part : List Event
  button_part =
      if packet.button == 0
      then []
      else pointer_button state.virtual_pointer 0 packet.button packet.button_state ∷ []

  -- The motion request, if the packet moves the pointer.
  abbrev pub motion_part : List Event
  motion_part =
      if is_move packet
      then pointer_motion state.virtual_pointer 0 (env.fixed_from_int packet.dx)
          (env.fixed_from_int packet.dy)
        ∷ []
      else []

  fixed_test :
      FixedLaws env → (z : ℤ) → IsFixed z → eq_ℤ (env.fixed_from_int z) (pos 0) ≡ eq_ℤ z (pos 0)
  fixed_test laws z r = elim (Bool-cases (eq_ℤ z (pos 0))) [
    | inl e ↦ ground (arith, eq_ℤ_iff z (pos 0), laws.fixed_zero)
    | inr e ↦ ground (arith, laws.fixed_ne_zero z r)
  ]

  move_and_frame_lem :
      (t : Trace)
      → FixedLaws env
      → IsFixed packet.dx
      → IsFixed packet.dy
      → (move_and_frame env state packet t).1
        ≡ pointer_frame state.virtual_pointer ∷ motion_part ++ t
  unfolding move_and_frame
  move_and_frame_lem t laws rx ry =
      ground (arith, fixed_test laws packet.dx rx, fixed_test laws packet.dy ry)

  -- If the conversion to fixed point maps 0 and no other distance in range to 0, then an accepted
  -- packet whose distances are in range causes, in this order, its button
  -- request, a motion exactly when a distance is not zero, and one frame, and nothing else.
  pub vp_handle_packet-is_accepted :
      (t : Trace)
      → FixedLaws env
      → IsFixed packet.dx
      → IsFixed packet.dy
      → is_accepted packet ≡ true
      → (vp_handle_packet env state packet t).1
        ≡ pointer_frame state.virtual_pointer ∷ motion_part ++ (button_part ++ t)
  unfolding vp_handle_packet
  vp_handle_packet-is_accepted t laws rx ry ok =
      ground (arith, fixed_test laws packet.dx rx, fixed_test laws packet.dy ry)

  -- A packet that is not accepted causes one message and no request.
  pub vp_handle_packet-not_accepted :
      (t : Trace)
      → is_accepted packet ≡ false
      → ((vp_handle_packet env state packet t).1
          ≡ log (invalid_button_state packet.button_state) ∷ t)
        ⊎ ((vp_handle_packet env state packet t).1 ≡ log (unknown_button packet.button) ∷ t)
  unfolding vp_handle_packet
  vp_handle_packet-not_accepted t no_packet = ground arith
