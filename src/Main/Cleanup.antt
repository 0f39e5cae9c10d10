-- ===== src/Main/Cleanup.antt =====
-- src/main.c: the labels behind the loop. Each falls through to the next.
use wlr_remote.Base.{ℕ, Bool, Option, none, some, if◌then◌else◌, ⊤, is_fd}
use wlr_remote.System.Types.{ClientState}
use wlr_remote.System.Event.{
  close, pointer_destroy, manager_destroy, seat_destroy, registry_destroy, wl_disconnect,
}
use wlr_remote.System.Env.{Env}
use wlr_remote.Network.Callbacks.{free_context}
use wlr_remote.System.Monad.{M, pure, emit, skip, when, ◌>>◌}
use wlr_remote.Setup.{exit_failure}
use wlr_remote.Advertise.Types.{Service}
use wlr_remote.Advertise.Service.{advertise_announce_goodbye, destroy_service}

abbrev pub exit_success : ℕ
exit_success = 0

-- The label `err_free_registry`, and the end of `main`.
unfoldable pub err_free_registry : Bool → M ℕ
err_free_registry success = do
  emit registry_destroy
  emit wl_disconnect
  pure (if success then exit_success else exit_failure)

-- The label `err_free_virtual_pointer`.
unfoldable pub err_free_virtual_pointer : ClientState → Bool → M ℕ
err_free_virtual_pointer state success = do
  emit (pointer_destroy state.virtual_pointer)
  emit (manager_destroy state.pointer_manager)
  emit (seat_destroy state.seat)
  err_free_registry success

-- `if (service != NULL)`.
unfoldable pub stop_service : Option Service → M ⊤
stop_service none = skip
stop_service (some service) = do advertise_announce_goodbye service; destroy_service service

-- The label `err_free_all`.
unfoldable pub err_free_all : Env → Option Service → ClientState → Bool → M ℕ
err_free_all env service state success = do
  stop_service service
  free_context env state
  when (is_fd state.socks.v4) (emit (close state.socks.v4))
  when (is_fd state.socks.v6) (emit (close state.socks.v6))
  err_free_virtual_pointer state success
