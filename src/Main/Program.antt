-- ===== src/Main/Program.antt =====
-- src/main.c, `main`, from its start to the loop.
use wlr_remote.Base.{
  ℕ, true, false, ◌||◌, Option, none, some, List, Bytes, ◌==◌, if◌then◌else◌, ℤ, is_neg,
}
use wlr_remote.System.Types.{ClientState}
use wlr_remote.System.Event.{
  wl_connect, wl_get_registry, wl_add_listener, wl_roundtrip, create_virtual_pointer, dtls_init,
  dtls_new_context, dtls_set_handler, cannot_open_display, no_protocol, no_dtls_context,
  advertising, listening,
}
use wlr_remote.System.Env.{Env}
use wlr_remote.System.Monad.{M, Run, returned, exited, pure, perform, emit, print, ◌>>=◌, ◌>>◌}
use wlr_remote.System.Descriptors.{no_sockets}
use wlr_remote.Setup.{setup_signals, setup_parse_port, setup_password, exit_failure}
use wlr_remote.Network.Sockets.{net_setup_udp_sockets}
use wlr_remote.Network.Epoll.{net_setup_epoll}
use wlr_remote.Advertise.Types.{Service}
use wlr_remote.Advertise.Service.{
  advertise_create_service, advertise_setup_epoll, advertise_announce_service,
}
use wlr_remote.Main.Loop.{Step, go_on, failed, unfinished, Context, deliver_globals, event_loop}
use wlr_remote.Main.Cleanup.{err_free_registry, err_free_virtual_pointer, err_free_all}

-- `state` before the first call that fills it.
abbrev pub initial_state : Bytes → ℕ → ClientState
initial_state key len = record {
  seat = 0;
  pointer_manager = 0;
  virtual_pointer = 0;
  socks = no_sockets;
  psk_key = key;
  psk_key_len = len;
}

-- An exit status, or none where the bound on the rounds was met.
abbrev pub Status : Type 0
Status = Option ℕ

abbrev pub ends : M ℕ → M Status
ends m = do status ← m; pure (some status)

-- From the end of the loop on.
unfoldable pub after_loop : Env → Option Service → Step → M Status
after_loop env service (go_on state) = ends (err_free_all env service state true)
after_loop env service (failed state) = ends (err_free_all env service state false)
after_loop env service unfinished = pure none

module _ (env : Env) (fuel : ℕ) where
  unfoldable pub run_loop : Context → ℕ → ClientState → M Status
  run_loop ctx port state = do
    print (listening port)
    step ← event_loop env fuel ctx fuel (go_on state)
    after_loop env ctx.service step

  -- `if (service != NULL)`, and the loop.
  unfoldable pub start_service : ℤ → ℤ → ℕ → ClientState → Option Service → M Status
  start_service wl_fd epoll_fd port state none =
      run_loop (record { wl_fd = wl_fd; epoll_fd = epoll_fd; service = none }) port state
  start_service wl_fd epoll_fd port state (some service) = do
    added ← advertise_setup_epoll env service epoll_fd
    if added
        then (do
          advertise_announce_service service
          print advertising
          run_loop (record { wl_fd = wl_fd; epoll_fd = epoll_fd; service = some service }) port
              state)
        else ends (err_free_all env (some service) state false)

  -- From `dtls_init` on.
  unfoldable pub start_dtls : ℤ → ℤ → ℕ → ClientState → M Status
  start_dtls wl_fd epoll_fd port state = do
    emit dtls_init
    created ← perform (λ t. env.dtls_new_context t) dtls_new_context
    if created
        then (do
          emit dtls_set_handler
          service ← advertise_create_service env port
          start_service wl_fd epoll_fd port state service)
        else (do print no_dtls_context; ends (err_free_virtual_pointer state false))

  -- The three calls of the one `if`; `||` stops at the first that fails.
  unfoldable pub setup_descriptors : ℕ → ClientState → M Status
  setup_descriptors port state t =
      let wl_fd = env.wl_get_fd t in
      if is_neg wl_fd
      then ends (err_free_virtual_pointer state false) t
      else (do
        made ← net_setup_udp_sockets env state.socks port
        let state' = record state { socks = made.1 }
        if is_neg made.0 then ends (err_free_virtual_pointer state' false) else (do
          epoll_fd ← net_setup_epoll env state' wl_fd
          if is_neg epoll_fd
              then ends (err_free_virtual_pointer state' false)
              else start_dtls wl_fd epoll_fd port state'))
          t

  -- From the test for the two globals on.
  unfoldable pub create_pointer : ℕ → ClientState → M Status
  create_pointer port state =
      if state.seat == 0 || state.pointer_manager == 0
      then (do print no_protocol; ends (err_free_registry false))
      else (do
        pointer ←
            perform (λ t. env.create_virtual_pointer t state.pointer_manager state.seat)
              create_virtual_pointer
        setup_descriptors port (record state { virtual_pointer = pointer }))

  -- From `wl_display_connect` on.
  unfoldable pub open_display : ℕ → ClientState → M Status
  open_display port state = do
    display ← perform (λ t. env.wl_connect t) wl_connect
    if display == 0 then (do print cannot_open_display; pure (some exit_failure)) else (do
      emit wl_get_registry
      emit wl_add_listener
      emit wl_roundtrip
      state' ← deliver_globals env state
      create_pointer port state')

  unfoldable pub with_password : ℕ → Run (Bytes × ℕ) → M Status
  with_password port (exited status) = pure (some status)
  with_password port (returned (key, len)) = open_display port (initial_state key len)

  unfoldable pub main : List Bytes → M Status
  main argv = do
    port ← setup_parse_port argv
    setup_signals
    password ← setup_password env
    with_password port password
