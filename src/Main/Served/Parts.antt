-- ===== src/Main/Served/Parts.antt =====
-- src/main.c: the parts of `main`, from its first event on.
use wlr_remote.Base.{
  Bool, ap, ℕ, refl, arith, true, false, Option, none, some, Bytes, List, [], ◌∷◌, ℤ,
}
use wlr_remote.System.Types.{ClientState}
use wlr_remote.System.Event.{Trace, log, listening, advertising}
use wlr_remote.System.Env.{Env}
use wlr_remote.Network.Epoll.{net_setup_epoll}
use wlr_remote.System.Event.{dtls_free_context}
use wlr_remote.Network.Callbacks.{free_context, run_callbacks}
use wlr_remote.Main.Cleanup.{stop_service, err_free_all}
use wlr_remote.Main.Loop.{Step, failed, unfinished}
use wlr_remote.Advertise.Types.{Service}
use wlr_remote.Advertise.Service.{
  advertise_announce_service, advertise_create_service, advertise_setup_epoll,
}
use wlr_remote.Main.Loop.{Step, go_on, failed, unfinished, Context, event_loop}
use wlr_remote.Main.Cleanup.{err_free_all, err_free_virtual_pointer, err_free_registry}
use wlr_remote.Main.Walk.{port_of, Walk, opened, handled, main-Ended}
use wlr_remote.Main.Program.{initial_state, after_loop, run_loop, start_service, main}
use wlr_remote.Main.Served.Invariant.{Invariant, by_silent}
use wlr_remote.Main.Served.Serving.{deliver_globals-silent}
use wlr_remote.Main.Served.Silent.{net_setup_udp_sockets-silent, net_setup_epoll-silent}
use wlr_remote.Main.Served.Start.{start-silent, armed_trace}
use wlr_remote.Main.Served.Start.{
  announce-view, stop_service-rested, advertise_create_service-silent, advertise_setup_epoll-silent,
}
use wlr_remote.Main.Served.Laws.{loop_laws}
use wlr_remote.Main.Served.Rounds.{Fits, event_loop-Fits, event_loop-Holds}

module _ (env : Env) (inv : Invariant env) (fuel : ℕ) where
  -- The calls that tinydtls makes while the context is freed count as any others.
  err_free_all-Holds :
      (service : Option Service) (state : ClientState) (success : Bool) (t : Trace)
      → inv.Fit state
      → inv.Holds t
      → inv.Holds (err_free_all env service state success t).1
  unfolding err_free_all err_free_virtual_pointer err_free_registry free_context
  err_free_all-Holds service state success t fit h =
      let u = (stop_service service t).1 in
      let freed = dtls_free_context ∷ u in
      let at_freed = inv.by_view t freed (ap (λ x. x.0) (stop_service-rested service t)) h in
      let v = (run_callbacks env (env.dtls_rounds freed) state freed).1 in
      inv.by_view v (err_free_all env service state success t).1 (ground arith)
        (inv.by_callbacks state (env.dtls_rounds freed) freed fit at_freed)

  -- The state that a step ends with fits.
  abbrev Ready : Step → Type 0
  Ready (go_on state) = inv.Fit state
  Ready (failed state) = inv.Fit state
  Ready unfinished = Unit

  after_loop-Holds :
      (service : Option Service) (step : Step) (t : Trace)
      → Ready step
      → inv.Holds t
      → inv.Holds (after_loop env service step t).1
  unfolding after_loop
  after_loop-Holds service (go_on state) t fit h = err_free_all-Holds service state true t fit h
  after_loop-Holds service (failed state) t fit h = err_free_all-Holds service state false t fit h
  after_loop-Holds service unfinished t fit h = h

  ready :
      (ctx : Context) (step : Step) → Fits env ctx (loop_laws env inv ctx.service) step → Ready step
  ready ctx (go_on state) fit = fit
  ready ctx (failed state) fit = fit
  ready ctx unfinished fit = tt

  run_loop-Holds :
      (ctx : Context) (port : ℕ) (state : ClientState) (t : Trace)
      → inv.Fit state
      → inv.Holds t
      → inv.Holds (run_loop env fuel ctx port state t).1
  unfolding run_loop
  run_loop-Holds ctx port state t fit h =
      let u = log (listening port) ∷ t in
      let (step, v) = event_loop env fuel ctx fuel (go_on state) u in
      let laws = loop_laws env inv ctx.service in
      let fits = event_loop-Fits env ctx laws fuel fuel (go_on state) u fit in
      after_loop-Holds ctx.service step v (ready ctx step fits) (
        event_loop-Holds env ctx (loop_laws env inv ctx.service) fuel fuel (go_on state) u fit
          (inv.by_view t u refl h))

  pub start_service-Holds :
      (wl_fd epoll_fd : ℤ) (port : ℕ) (state : ClientState) (service : Option Service) (t : Trace)
      → inv.Fit state
      → inv.Holds t
      → inv.Holds (start_service env fuel wl_fd epoll_fd port state service t).1
  unfolding start_service
  start_service-Holds wl_fd epoll_fd port state none t fit h =
      run_loop-Holds (record { wl_fd = wl_fd; epoll_fd = epoll_fd; service = none }) port state t
        fit h
  start_service-Holds wl_fd epoll_fd port state (some s) t fit h =
      let ctx : Context = record { wl_fd = wl_fd; epoll_fd = epoll_fd; service = some s } in
      let (added, u) = advertise_setup_epoll env s epoll_fd t in
      let at_u = by_silent inv t u (advertise_setup_epoll-silent env s epoll_fd t) h in
      let v = log advertising ∷ (advertise_announce_service s u).1 in
      ground (
        arith,
        run_loop-Holds ctx port state v fit (inv.by_view u v (announce-view s u) at_u),
        err_free_all-Holds (some s) state false u fit at_u,
      )

  free_pointer-Holds :
      (state : ClientState) (t : Trace)
      → inv.Holds t
      → inv.Holds (err_free_virtual_pointer state false t).1
  unfolding err_free_virtual_pointer err_free_registry
  free_pointer-Holds state t h = inv.by_view t _ refl h

  -- At every stage the statement holds of the trace.
  Holds-walk :
      ((state : ClientState) → inv.Fit state)
      → inv.Holds []
      → (argv : List Bytes) → Walk env fuel argv
  unfolding err_free_registry
  Holds-walk fits begin argv = record {
    Started = inv.Holds;
    Opened = λ state. inv.Holds;
    Pointed = λ state. inv.Holds;
    Bound = λ state. inv.Holds;
    Watching = λ epoll_fd state. inv.Holds;
    Ended = λ c. inv.Holds c.1;
    start =
        by_silent inv armed_trace _ (start-silent env argv) (inv.by_view [] armed_trace refl begin);
    no_password = λ status t u e h. h;
    no_display = λ t e h. inv.by_view t _ refl h;
    look_up = λ key len t read e h.
        let state = initial_state key len in
        inv.by_view t _ (ap (λ x. x.0) (deliver_globals-silent env state (opened env t))) h;
    no_globals = λ state t h. inv.by_view t _ refl h;
    point = λ state t h. inv.by_view t _ refl h;
    no_display_fd = free_pointer-Holds;
    bind = λ state t h.
        by_silent inv t _ (net_setup_udp_sockets-silent env state.socks (port_of argv) t) h;
    no_sockets = free_pointer-Holds;
    no_epoll_set = λ wl_fd state t h.
        let u = (net_setup_epoll env state wl_fd t).1 in
        free_pointer-Holds state u (by_silent inv t u (net_setup_epoll-silent env state wl_fd t) h);
    watch = λ wl_fd state t display h set_up.
        by_silent inv t _ (net_setup_epoll-silent env state wl_fd t) h;
    no_context = λ epoll_fd state t h. free_pointer-Holds state _ (inv.by_view t _ refl h);
    serve = λ wl_fd epoll_fd state t h.
        let (service, u) = advertise_create_service env (port_of argv) (handled t) in
        start_service-Holds wl_fd epoll_fd (port_of argv) state service u (fits state) (
          inv.by_view t u
            (ap (λ x. x.0) (advertise_create_service-silent env (port_of argv) (handled t))) h);
  }

  -- Where every state fits, what holds of the empty trace holds after a run, cut off or complete.
  pub main-Holds :
      (argv : List Bytes)
      → ((state : ClientState) → inv.Fit state)
      → inv.Holds []
      → inv.Holds (main env fuel argv []).1
  unfolding Holds-walk
  main-Holds argv fits begin = main-Ended env fuel argv (Holds-walk fits begin argv)
