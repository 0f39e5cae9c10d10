-- ===== src/Pointer.antt =====
-- src/virtual_pointer.c: a mouse packet becomes requests to the compositor's virtual pointer, and
-- the registry's listener binds the two globals that the program needs.
pub mod Commands
pub mod Frames
pub mod Requests
use Prim.Native.Char.{code}
use Prim.Native.String.{String}
use wlr_remote.Base.{
  ℕ, Bool, ◌||◌, not, Bytes, [], ◌∷◌, ltb, ◌==◌, if◌then◌else◌, ⊤, pos, eq_ℤ, bytes_eq,
}
use wlr_remote.System.Types.{
  RegistryEvent, global_added, global_removed, ClientState, MousePacket, Handle,
}
use wlr_remote.System.Event.{
  pointer_button, pointer_motion, pointer_frame, registry_bind, invalid_button_state,
  unknown_button,
}
use wlr_remote.System.Env.{Env}
use wlr_remote.System.Monad.{M, pure, perform, emit, print, when, ◌>>=◌, ◌>>◌}

-- The codes of <linux/input-event-codes.h> that the switch names.
abbrev pub btn_left : ℕ
btn_left = 0x110

abbrev pub btn_right : ℕ
btn_right = 0x111

abbrev pub btn_middle : ℕ
btn_middle = 0x112

abbrev pub btn_side : ℕ
btn_side = 0x113

abbrev pub btn_extra : ℕ
btn_extra = 0x114

abbrev pub is_button : ℕ → Bool
is_button b = b == btn_left || b == btn_right || b == btn_middle || b == btn_side || b == btn_extra

-- The code points of a literal.
abbrev pub codes : String → Bytes
codes String.[] = []
codes (String.◌∷◌ c s) = code c ∷ codes s

module _ (env : Env) where
  -- What follows the switch, where it does not return.
  unfoldable pub move_and_frame : ClientState → MousePacket → M ⊤
  move_and_frame state packet =
      let dx = env.fixed_from_int packet.dx in
      let dy = env.fixed_from_int packet.dy in
      do
        when (not (eq_ℤ dx (pos 0)) || not (eq_ℤ dy (pos 0)))
            (emit (pointer_motion state.virtual_pointer 0 dx dy))
        emit (pointer_frame state.virtual_pointer)

  unfoldable pub vp_handle_packet : ClientState → MousePacket → M ⊤
  unfolding move_and_frame
  vp_handle_packet state packet =
      if ltb 1 packet.button_state
      then print (invalid_button_state packet.button_state)
      else if is_button packet.button
      then (do
        emit (pointer_button state.virtual_pointer 0 packet.button packet.button_state)
        move_and_frame state packet)
      else if packet.button == 0
      then move_and_frame state packet
      else print (unknown_button packet.button)

  bind_global : ℕ → Bytes → ℕ → M Handle
  bind_global name interface version =
      perform (λ t. env.registry_bind t name interface version)
        (registry_bind name interface version)

  -- `version` is not read.
  unfoldable pub registry_handle_global : ClientState → ℕ → Bytes → ℕ → M ClientState
  unfolding bind_global
  registry_handle_global state name interface version =
      if bytes_eq interface (codes "wl_seat")
      then (do seat ← bind_global name (codes "wl_seat") 1; pure (record state { seat = seat }))
      else if bytes_eq interface (codes "zwlr_virtual_pointer_manager_v1")
      then (do
        manager ← bind_global name (codes "zwlr_virtual_pointer_manager_v1") 2
        pure (record state { pointer_manager = manager }))
      else pure state

  -- Its body is empty.
  unfoldable pub registry_handle_global_remove : ClientState → ℕ → M ClientState
  registry_handle_global_remove state name = pure state

  -- A call through the listener, as libwayland makes it for each event of the registry.
  unfoldable pub vp_registry_listener : ClientState → RegistryEvent → M ClientState
  vp_registry_listener state (global_added g) =
      registry_handle_global state g.name g.interface g.version
  vp_registry_listener state (global_removed name) = registry_handle_global_remove state name
