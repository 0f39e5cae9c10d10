-- ===== src/Main/Loop/Settings.antt =====
-- src/virtual_pointer.c, as the event loop calls it: the globals that the compositor announces change
-- the seat and the manager of the state, and nothing else.
use wlr_remote.Base.{ℕ, ◌≡◌, refl, ◌∙◌, arith, Bytes, List, [], ◌∷◌}
use wlr_remote.System.Types.{ClientState, Sockets, RegistryEvent, global_added, global_removed}
use wlr_remote.System.Event.{Trace}
use wlr_remote.System.Env.{Env}
use wlr_remote.Pointer.{registry_handle_global, registry_handle_global_remove, vp_registry_listener}
use wlr_remote.Main.Loop.{announce_globals, deliver_globals}

-- The key, its length, and the sockets.
abbrev pub settings : ClientState → Bytes × ℕ × Sockets
settings state = (state.psk_key, state.psk_key_len, state.socks)

module _ (env : Env) where
  vp_registry_listener-settings :
      (state : ClientState) (event : RegistryEvent) (t : Trace)
      → settings (vp_registry_listener env state event t).0 ≡ settings state
  unfolding vp_registry_listener registry_handle_global registry_handle_global_remove
  vp_registry_listener-settings state (global_added g) t = ground arith
  vp_registry_listener-settings state (global_removed name) t = refl

  announce_globals-settings :
      (events : List RegistryEvent) (state : ClientState) (t : Trace)
      → settings (announce_globals env events state t).0 ≡ settings state
  unfolding announce_globals
  announce_globals-settings [] state t = refl
  announce_globals-settings (event ∷ rest) state t =
      let (state', u) = vp_registry_listener env state event t in
      announce_globals-settings rest state' u ∙ vp_registry_listener-settings state event t

  pub deliver_globals-settings :
      (state : ClientState) (t : Trace) → settings (deliver_globals env state t).0 ≡ settings state
  unfolding deliver_globals
  deliver_globals-settings state t = announce_globals-settings (env.wl_globals t) state t
