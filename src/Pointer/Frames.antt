-- ===== src/Pointer/Frames.antt =====
-- src/virtual_pointer.c, `vp_handle_packet`: the order of the requests and what each packet causes.
use wlr_remote.Base.{Bool, true, ◌&&◌, [], ◌∷◌, leb, ◌≡◌, arith}
use wlr_remote.System.Types.{ClientState, MousePacket}
use wlr_remote.System.Event.{Event, Trace, pointer_button, pointer_motion, pointer_frame}
use wlr_remote.System.Env.{Env}
use wlr_remote.Pointer.{vp_handle_packet}

-- Where a stream of pointer requests stands: between two frames, within one, or against the rules.
pub data Phase : Type 0 where
  between after_button after_motion broken : Phase

abbrev button_next : Bool → Phase → Phase
button_next true between = after_button
button_next _ _ = broken

abbrev motion_next : Phase → Phase
motion_next between = after_motion
motion_next after_button = after_motion
motion_next _ = broken

abbrev frame_next : Phase → Phase
frame_next broken = broken
frame_next _ = between

abbrev advance : Event → Phase → Phase
advance (pointer_button p time b s) ph = button_next (leb 0x110 b && leb b 0x114 && leb s 1) ph
advance (pointer_motion p time dx dy) ph = motion_next ph
advance (pointer_frame p) ph = frame_next ph
advance _ ph = ph

-- The phase after a trace.
abbrev pub phase : Trace → Phase
phase [] = between
phase (e ∷ t) = advance e (phase t)

module _ (env : Env) (state : ClientState) (packet : MousePacket) where
  -- If the requests so far make up whole frames, then so they do after a packet: each frame has at
  -- most one button request, of a known button in state 0 or 1, then at most one motion, then its
  -- end.
  pub vp_handle_packet-between :
      (t : Trace) → phase t ≡ between → phase (vp_handle_packet env state packet t).1 ≡ between
  unfolding vp_handle_packet
  vp_handle_packet-between t h = ground arith
