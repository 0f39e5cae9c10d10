-- ===== src/Main/Stages.antt =====
-- src/main.c, `main`: what a given run has made by each of its stages, and what is still quiet then.
use wlr_remote.Base.{
  ℕ, ◌≡◌, sym, ap, ◌∙◌, false, Option, some, Bytes, List, [], ◌∷◌, ℤ, is_neg, subst,
}
use wlr_remote.System.Types.{ClientState, Sockets, Session}
use wlr_remote.System.Event.{
  Trace, create_virtual_pointer, log, cannot_open_display, no_protocol, no_dtls_context, dtls_init,
  dtls_new_context, wl_connect,
}
use wlr_remote.System.Env.{Env}
use wlr_remote.System.Monad.{Run, returned, exited}
use wlr_remote.System.Notices.{Notice, notices}
use wlr_remote.System.Objects.{waits}
use wlr_remote.System.Traffic.{traffic}
use wlr_remote.Setup.{setup_password, exit_failure}
use wlr_remote.Network.Sockets.{net_setup_udp_sockets}
use wlr_remote.Network.Epoll.{net_setup_epoll}
use wlr_remote.Advertise.Types.{Service}
use wlr_remote.Advertise.Service.{advertise_create_service}
use wlr_remote.Main.Cleanup.{err_free_registry, err_free_virtual_pointer}
use wlr_remote.Main.Loop.{deliver_globals}
use wlr_remote.Main.Served.Silent.{Silence, net_setup_udp_sockets-silent, net_setup_epoll-silent}
use wlr_remote.Main.Served.Serving.{deliver_globals-silent}
use wlr_remote.Main.Served.Start.{start-silent}
use wlr_remote.Main.Walk.{Walk, port_of, opened, handled, signalled, main-Ended}
use wlr_remote.Main.Program.{Status, ends, initial_state, start_service, main}

abbrev key_of : Run (Bytes × ℕ) → Bytes × ℕ
key_of (exited status) = ([], 0)
key_of (returned key) = key

-- A stage from the one before.
abbrev look_up_step : Env → Run (Bytes × ℕ) × Trace → ClientState × Trace
look_up_step env x =
    deliver_globals env (initial_state (key_of x.0).0 (key_of x.0).1) (opened env x.1)

abbrev point_step : Env → ClientState × Trace → ClientState × Trace
point_step env x =
    let pointer = env.create_virtual_pointer x.1 x.0.pointer_manager x.0.seat in
    (record x.0 { virtual_pointer = pointer }, create_virtual_pointer pointer ∷ x.1)

abbrev bind_step : Env → ℕ → ClientState × Trace → ClientState × Trace
bind_step env port x =
    let made = net_setup_udp_sockets env x.0.socks port x.1 in
    (record x.0 { socks = made.0.1 }, made.1)

module _ (env : Env) (argv : List Bytes) where
  -- The state and the trace of the run when the pointer is made, and when the sockets are.
  abbrev pub pointed : ClientState × Trace
  pointed = point_step env (look_up_step env (setup_password env (signalled argv)))

  abbrev pub bound : ClientState × Trace
  bound = bind_step env (port_of argv) pointed

  -- The descriptor of the connection to the compositor, in this run.
  abbrev pub connection : ℤ
  connection = env.wl_get_fd pointed.1

  -- The sockets that `net_setup_udp_sockets` returns in this run.
  abbrev pub run_sockets : Sockets
  run_sockets = bound.0.socks

  -- The epoll set, and the trace when it is made.
  abbrev pub watching : ℤ × Trace
  watching = net_setup_epoll env bound.0 connection bound.1

  -- The service that `advertise_create_service` returns in this run, or none, and the trace then.
  abbrev pub serviced : Option Service × Trace
  serviced = advertise_create_service env (port_of argv) (handled watching.1)

-- Nothing was announced or waited for, and no datagram was to go out.
abbrev pub quiet : Trace → List Notice × ℕ × List (ℤ × Session × Bytes) × List (Session × Bytes)
quiet t = (notices t, waits t, (traffic t).0, (traffic t).1)

abbrev pub all_quiet : List Notice × ℕ × List (ℤ × Session × Bytes) × List (Session × Bytes)
all_quiet = ([], 0, [], [])

abbrev silent-quiet :
    Silence → List Notice × ℕ × List (ℤ × Session × Bytes) × List (Session × Bytes)
silent-quiet x = (x.3, x.2, x.0.7.0, x.0.7.1)

module _ (env : Env) (fuel : ℕ) (argv : List Bytes) (Ended : Status × Trace → Type 0) where
  stages_walk :
      ((c : Status × Trace) → quiet c.1 ≡ all_quiet → Ended c)
      → ((wl_fd : ℤ)
          → is_neg (watching env argv).0 ≡ false
          → quiet (watching env argv).1 ≡ all_quiet
          → Ended (
              start_service env fuel wl_fd
                (watching env argv).0
                (port_of argv)
                (bound env argv).0
                (serviced env argv).0
                (serviced env argv).1))
      → Walk env fuel argv
  unfolding err_free_virtual_pointer err_free_registry
  stages_walk early served = record {
    Started = λ t. quiet t ≡ all_quiet;
    Opened = λ state t.
        ((state, t) ≡ look_up_step env (setup_password env (signalled argv)))
        × (quiet t ≡ all_quiet);
    Pointed = λ state t. ((state, t) ≡ pointed env argv) × (quiet t ≡ all_quiet);
    Bound = λ state t. ((state, t) ≡ bound env argv) × (quiet t ≡ all_quiet);
    Watching = λ epoll_fd state t.
        (((epoll_fd, t), state) ≡ (watching env argv, (bound env argv).0))
        × (is_neg epoll_fd ≡ false)
        × (quiet t ≡ all_quiet);
    Ended = Ended;
    start = ap silent-quiet (start-silent env argv);
    no_password = λ status t u e h. early (some status, u) h;
    no_display = λ t e h.
        early (some exit_failure, log cannot_open_display ∷ wl_connect (env.wl_connect t) ∷ t) h;
    look_up = λ key len t read e h. (
      ap (look_up_step env) (sym read),
      ap silent-quiet (deliver_globals-silent env (initial_state key len) (opened env t)) ∙ h,
    );
    no_globals = λ state t h. early (ends (err_free_registry false) (log no_protocol ∷ t)) h.1;
    point = λ state t h. (ap (point_step env) h.0, h.1);
    no_display_fd = λ state t h. early (ends (err_free_virtual_pointer state false) t) h.1;
    bind = λ state t h. (
      ap (bind_step env (port_of argv)) h.0,
      ap silent-quiet (net_setup_udp_sockets-silent env state.socks (port_of argv) t) ∙ h.1,
    );
    no_sockets = λ state t h. early (ends (err_free_virtual_pointer state false) t) h.1;
    no_epoll_set = λ wl_fd state t h.
        early (ends (err_free_virtual_pointer state false) (net_setup_epoll env state wl_fd t).1)
          (ap silent-quiet (net_setup_epoll-silent env state wl_fd t) ∙ h.1);
    watch = λ wl_fd state t display h set_up.
        let (old, u, (here, still'), connected) = display in
        let at_wl = connected ∙ ap (λ x. env.wl_get_fd x.1) here in
        (
          ap (λ x. (net_setup_epoll env x.0 wl_fd x.1, x.0)) h.0
              ∙ ap
                  (λ x. (
                    net_setup_epoll env (bound env argv).0 x (bound env argv).1,
                    (bound env argv).0,
                  ))
                  at_wl,
          set_up,
          ap silent-quiet (net_setup_epoll-silent env state wl_fd t) ∙ h.1,
        );
    no_context = λ epoll_fd state t h.
        early
          (ends (err_free_virtual_pointer state false)
            (log no_dtls_context ∷ dtls_new_context false ∷ dtls_init ∷ t))
          h.2;
    serve = λ wl_fd epoll_fd state t h.
        let (here, good, calm) = h in
        let end : (ℤ × Trace) × ClientState → Type 0 = λ x.
          let made = advertise_create_service env (port_of argv) (handled x.0.1) in
          Ended (start_service env fuel wl_fd x.0.0 (port_of argv) x.1 made.0 made.1) in
        subst end (sym here) (
          served wl_fd (ap (λ x. is_neg x.0.0) (sym here) ∙ good)
            (ap (λ x. quiet x.0.1) (sym here) ∙ calm));
  }

  -- What holds of every run that ends before the service, and of the service and the loop at their
  -- stage, holds at the end of a run.
  pub main-staged :
      ((c : Status × Trace) → quiet c.1 ≡ all_quiet → Ended c)
      → ((wl_fd : ℤ)
          → is_neg (watching env argv).0 ≡ false
          → quiet (watching env argv).1 ≡ all_quiet
          → Ended (
              start_service env fuel wl_fd
                (watching env argv).0
                (port_of argv)
                (bound env argv).0
                (serviced env argv).0
                (serviced env argv).1))
      → Ended (main env fuel argv [])
  unfolding stages_walk
  main-staged early served = main-Ended env fuel argv (stages_walk early served)
