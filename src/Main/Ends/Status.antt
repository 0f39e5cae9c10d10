-- ===== src/Main/Ends/Status.antt =====
-- src/main.c: the exit status of a run.
use wlr_remote.Base.{
  ℕ, zero, suc, ◌≡◌, refl, ap, arith, ◌⊎◌, inl, inr, true, false, Option, none, some, Bytes, List,
  [], ◌∷◌, Bool-cases, ℤ,
}
use wlr_remote.System.Types.{ClientState}
use wlr_remote.System.Event.{Trace, log, listening, advertising}
use wlr_remote.System.Env.{Env}
use wlr_remote.System.Signals.{quit_is_set}
use wlr_remote.System.Monad.{exited}
use wlr_remote.Setup.{setup_password, exit_failure}
use wlr_remote.Advertise.Types.{Service}
use wlr_remote.Advertise.Service.{
  advertise_create_service, advertise_setup_epoll, advertise_announce_service,
}
use wlr_remote.Main.Cleanup.{
  exit_success, err_free_all, err_free_virtual_pointer, err_free_registry,
}
use wlr_remote.Main.Loop.{Step, go_on, failed, unfinished, Context, loop_round, event_loop}
use wlr_remote.Main.Walk.{port_of, Walk, handled, main-Ended}
use wlr_remote.Main.Program.{Status, ends, after_loop, run_loop, start_service, main}

module _ (env : Env) (fuel : ℕ) where
  -- A run that the user ended: from the moment `t` at which `quit` was found set, the program did no
  -- more than to clean up.
  pub record IsQuit (status : ℕ) (u : Trace) : Type 0 where
    pub service : Option Service
    pub state : ClientState
    pub t : Trace
    pub quit_set : quit_is_set env t ≡ true
    pub succeeded : status ≡ exit_success
    pub cleaned : u ≡ (err_free_all env service state true t).1

  abbrev Reports : Status × Trace → Type 0
  Reports (none, u) = Unit
  Reports (some status, u) = (status ≡ exit_failure) ⊎ IsQuit status u

  -- The loop goes on to the cleanup without an error only by `quit`.
  abbrev IsLeft : Step × Trace → Type 0
  IsLeft (go_on state, t) = quit_is_set env t ≡ true
  IsLeft (failed state, t) = Unit
  IsLeft (unfinished, t) = Unit

  event_loop-IsLeft :
      (ctx : Context) (rounds : ℕ) (step : Step) (t : Trace)
      → IsLeft (event_loop env fuel ctx rounds step t)
  unfolding event_loop
  event_loop-IsLeft ctx rounds (failed state) t = tt
  event_loop-IsLeft ctx rounds unfinished t = tt
  event_loop-IsLeft ctx zero (go_on state) t = tt
  event_loop-IsLeft ctx (suc rounds) (go_on state) t =
      let (step, u) = loop_round env fuel ctx state t in
      elim (Bool-cases (quit_is_set env t)) [
        | inl stop ↦ rw (stop, event_loop) stop
        | inr more ↦ rw (more, event_loop) (event_loop-IsLeft ctx rounds step u)
      ]

  err_free_all-Reports :
      (service : Option Service) (state : ClientState) (t : Trace)
      → Reports (ends (err_free_all env service state false) t)
  unfolding err_free_all err_free_virtual_pointer err_free_registry
  err_free_all-Reports service state t = inl refl

  after_loop-Reports :
      (service : Option Service) (c : Step × Trace)
      → IsLeft c
      → Reports (after_loop env service c.0 c.1)
  unfolding after_loop
  after_loop-Reports service (go_on state, t) h = inr (record {
    service = service;
    state = state;
    t = t;
    quit_set = h;
    succeeded = unfold err_free_all err_free_virtual_pointer err_free_registry in refl;
    cleaned = refl;
  })
  after_loop-Reports service (failed state, t) h = err_free_all-Reports service state t
  after_loop-Reports service (unfinished, t) h = tt

  run_loop-Reports :
      (ctx : Context) (port : ℕ) (state : ClientState) (t : Trace)
      → Reports (run_loop env fuel ctx port state t)
  unfolding run_loop
  run_loop-Reports ctx port state t =
      after_loop-Reports ctx.service _
        (event_loop-IsLeft ctx fuel (go_on state) (log (listening port) ∷ t))

  start_service-Reports :
      (wl_fd epoll_fd : ℤ) (port : ℕ) (state : ClientState) (service : Option Service) (t : Trace)
      → Reports (start_service env fuel wl_fd epoll_fd port state service t)
  unfolding start_service
  start_service-Reports wl_fd epoll_fd port state none t = run_loop-Reports _ port state t
  start_service-Reports wl_fd epoll_fd port state (some s) t =
      let ctx : Context = record { wl_fd = wl_fd; epoll_fd = epoll_fd; service = some s } in
      let (added, u) = advertise_setup_epoll env s epoll_fd t in
      let v = log advertising ∷ (advertise_announce_service s u).1 in
      elim (Bool-cases added) [
        | inl yes' ↦ rw (yes', start_service) (run_loop-Reports ctx port state v)
        | inr no' ↦ rw (no', start_service) (err_free_all-Reports (some s) state u)
      ]

  setup_password-exited :
      (status : ℕ) (t : Trace) → (setup_password env t).0 ≡ exited status → status ≡ exit_failure
  unfolding setup_password
  setup_password-exited status t e = ground arith

  Reports-walk : (argv : List Bytes) → Walk env fuel argv
  unfolding err_free_virtual_pointer err_free_registry
  Reports-walk argv = record {
    Started = λ t. Unit;
    Opened = λ state t. Unit;
    Pointed = λ state t. Unit;
    Bound = λ state t. Unit;
    Watching = λ epoll_fd state t. Unit;
    Ended = Reports;
    start = tt;
    no_password = λ status t u e h. inl (setup_password-exited status t (ap (λ x. x.0) e));
    no_display = λ t e h. inl refl;
    look_up = λ key len t read e h. tt;
    no_globals = λ state t h. inl refl;
    point = λ state t h. tt;
    no_display_fd = λ state t h. inl refl;
    bind = λ state t h. tt;
    no_sockets = λ state t h. inl refl;
    no_epoll_set = λ wl_fd state t h. inl refl;
    watch = λ wl_fd state t display h set_up. tt;
    no_context = λ epoll_fd state t h. inl refl;
    serve = λ wl_fd epoll_fd state t h.
        let (service, u) = advertise_create_service env (port_of argv) (handled t) in
        start_service-Reports wl_fd epoll_fd (port_of argv) state service u;
  }

  main-Reports : (argv : List Bytes) → Reports (main env fuel argv [])
  unfolding Reports-walk
  main-Reports argv = main-Ended env fuel argv (Reports-walk argv)

  Reports-some :
      (c : Status × Trace) (status : ℕ)
      → Reports c
      → c.0 ≡ some status
      → (status ≡ exit_failure) ⊎ IsQuit status c.1
  Reports-some (none, t) status h e = cc
  Reports-some (some s, t) status h e = let same : status ≡ s = cc in rw same h

  -- A run of the program that returns, returns the status of a failure; or the status of success, and
  -- then there was a moment at which the loop found `quit` set, from which on the program did no more
  -- than to clean up. So no error, at whatever point, is reported as a success.
  pub main-status :
      (argv : List Bytes) (status : ℕ)
      → (main env fuel argv []).0 ≡ some status
      → (status ≡ exit_failure) ⊎ IsQuit status (main env fuel argv []).1
  main-status argv status e = Reports-some (main env fuel argv []) status (main-Reports argv) e
