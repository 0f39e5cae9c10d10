-- ===== src/Pointer/Commands.antt =====
-- src/virtual_pointer.c, `vp_handle_packet`, seen from outside: what a packet asks the compositor
-- for.
use wlr_remote.Base.{ℕ, ◌≡◌, arith, ◌&&◌, List, [], ◌∷◌, ◌++◌, ◌==◌, if◌then◌else◌, ℤ, pos, eq_ℤ}
use wlr_remote.System.Types.{ClientState, MousePacket}
use wlr_remote.System.Event.{Trace, pointer_button, pointer_motion, pointer_frame}
use wlr_remote.System.Env.{Env}
use wlr_remote.Pointer.{vp_handle_packet}
use wlr_remote.Pointer.Requests.{is_accepted}

-- A request to a virtual pointer, whichever it is.
pub data Request : Type 0 where
  press : ℕ → ℕ → Request
  move : ℤ → ℤ → Request
  frame : Request

-- The requests in a trace, the newest first.
abbrev pub requests : Trace → List Request
requests [] = []
requests (pointer_button p time b s ∷ t) = press b s ∷ requests t
requests (pointer_motion p time dx dy ∷ t) = move dx dy ∷ requests t
requests (pointer_frame p ∷ t) = frame ∷ requests t
requests (_ ∷ t) = requests t

module _ (env : Env) where
  -- The requests of a packet: its button, if it names one, its motion, if there is any once the
  -- distances are fixed-point numbers, and a frame; or none, if it is not accepted.
  abbrev pub packet_requests : MousePacket → List Request
  packet_requests p =
      let dx = env.fixed_from_int p.dx in
      let dy = env.fixed_from_int p.dy in
      if is_accepted p
      then frame ∷ (if eq_ℤ dx (pos 0) && eq_ℤ dy (pos 0) then [] else move dx dy ∷ [])
        ++ (if p.button == 0 then [] else press p.button p.button_state ∷ [])
      else []

  pub requests-vp_handle_packet :
      (state : ClientState) (p : MousePacket) (t : Trace)
      → requests (vp_handle_packet env state p t).1 ≡ packet_requests p ++ requests t
  unfolding vp_handle_packet
  requests-vp_handle_packet state p t = ground arith
