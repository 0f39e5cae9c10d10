-- ===== src/Main/Ends/Returns.antt =====
-- src/main.c: the program returns.
use wlr_remote.Base.{
  ap, ◌∙◌, is_some, ℕ, ◌≡◌, ◌<◌, refl, arith, true, Option, none, some, Bytes, List, [], ◌∷◌,
  Option-cases, inl, inr, ℤ,
}
use wlr_remote.System.Types.{ClientState}
use wlr_remote.System.Event.{Trace, log, listening, advertising}
use wlr_remote.System.Env.{Env}
use wlr_remote.Network.Receive.Drained.{ArrivalLaws}
use wlr_remote.Advertise.Types.{Service}
use wlr_remote.Advertise.Service.{
  advertise_announce_service, advertise_create_service, advertise_setup_epoll,
}
use wlr_remote.Main.Loop.{Step, go_on, failed, unfinished, Context, event_loop}
use wlr_remote.Main.Loop.Total.{IsArmed, QuitLaws, is_over, event_loop-is_over}
use wlr_remote.Main.Walk.{opened, port_of, Walk, handled, main-Ended}
use wlr_remote.System.Signals.{handlers}
use wlr_remote.Advertise.Service.{advertise_announce}
use wlr_remote.Advertise.Records.{build_additional}
use wlr_remote.Main.Served.Silent.{net_setup_udp_sockets-silent, net_setup_epoll-silent}
use wlr_remote.Main.Served.Serving.{deliver_globals-silent}
use wlr_remote.Main.Served.Start.{
  start-silent, advertise_setup_epoll-silent, advertise_create_service-silent,
}
use wlr_remote.Main.Cleanup.{err_free_registry, err_free_virtual_pointer}
use wlr_remote.Main.Program.{initial_state, after_loop, run_loop, start_service, main}

announce-handlers :
    (s : Service) (t : Trace) → handlers (advertise_announce_service s t).1 ≡ handlers t
unfolding advertise_announce_service advertise_announce build_additional
announce-handlers s t = ground arith

module _ (env : Env) (total deadline fuel : ℕ) (arrivals : ArrivalLaws env total)
    (quits : QuitLaws env deadline) (received : total < fuel) (waited : deadline < fuel) where
  -- A status is returned.
  abbrev IsDone : Option ℕ × Trace → Type 0
  IsDone c = is_some c.0 ≡ true

  after_loop-IsDone :
      (service : Option Service) (step : Step) (t : Trace)
      → is_over step ≡ true
      → IsDone (after_loop env service step t)
  unfolding after_loop
  after_loop-IsDone service (go_on state) t h = refl
  after_loop-IsDone service (failed state) t h = refl
  after_loop-IsDone service unfinished t h = cc

  run_loop-IsDone :
      (ctx : Context) (port : ℕ) (state : ClientState) (t : Trace)
      → IsArmed t
      → IsDone (run_loop env fuel ctx port state t)
  unfolding run_loop
  run_loop-IsDone ctx port state t arm =
      let u = log (listening port) ∷ t in
      let (step, v) = event_loop env fuel ctx fuel (go_on state) u in
      after_loop-IsDone ctx.service step v (
        event_loop-is_over env total fuel arrivals received ctx deadline fuel (go_on state) u quits
          arm (omega arith) refl)

  start_service-IsDone :
      (wl_fd epoll_fd : ℤ) (port : ℕ) (state : ClientState) (service : Option Service) (t : Trace)
      → IsArmed t
      → IsDone (start_service env fuel wl_fd epoll_fd port state service t)
  unfolding start_service
  start_service-IsDone wl_fd epoll_fd port state none t arm = run_loop-IsDone _ port state t arm
  start_service-IsDone wl_fd epoll_fd port state (some s) t arm =
      let ctx : Context = record { wl_fd = wl_fd; epoll_fd = epoll_fd; service = some s } in
      let u = (advertise_setup_epoll env s epoll_fd t).1 in
      let v = log advertising ∷ (advertise_announce_service s u).1 in
      let set_up : IsArmed u =
        ap (λ x. x.6) (advertise_setup_epoll-silent env s epoll_fd t) ∙ arm in
      let told : IsArmed v = announce-handlers s u ∙ set_up in
      ground (arith, run_loop-IsDone ctx port state v told)

  IsDone-walk : (argv : List Bytes) → Walk env fuel argv
  unfolding err_free_virtual_pointer err_free_registry
  IsDone-walk argv = record {
    Started = IsArmed;
    Opened = λ state. IsArmed;
    Pointed = λ state. IsArmed;
    Bound = λ state. IsArmed;
    Watching = λ epoll_fd state. IsArmed;
    Ended = IsDone;
    start = ap (λ x. x.6) (start-silent env argv);
    no_password = λ status t u e h. refl;
    no_display = λ t e h. refl;
    look_up = λ key len t read e h.
        ap (λ x. x.6) (deliver_globals-silent env (initial_state key len) (opened env t)) ∙ h;
    no_globals = λ state t h. refl;
    point = λ state t h. h;
    no_display_fd = λ state t h. refl;
    bind = λ state t h.
        ap (λ x. x.6) (net_setup_udp_sockets-silent env state.socks (port_of argv) t) ∙ h;
    no_sockets = λ state t h. refl;
    no_epoll_set = λ wl_fd state t h. refl;
    watch = λ wl_fd state t display h set_up.
        ap (λ x. x.6) (net_setup_epoll-silent env state wl_fd t) ∙ h;
    no_context = λ epoll_fd state t h. refl;
    serve = λ wl_fd epoll_fd state t h.
        start_service-IsDone wl_fd epoll_fd (port_of argv) state
          (advertise_create_service env (port_of argv) (handled t)).0
          (advertise_create_service env (port_of argv) (handled t)).1
          (ap (λ x. x.6) (advertise_create_service-silent env (port_of argv) (handled t)) ∙ h);
  }

  main-is_some : (argv : List Bytes) → is_some (main env fuel argv []).0 ≡ true
  unfolding IsDone-walk
  main-is_some argv = main-Ended env fuel argv (IsDone-walk argv)

  pub main_terminates :
      (argv : List Bytes) → (status : ℕ) × ((main env fuel argv []).0 ≡ some status)
  main_terminates argv = elim (Option-cases (main env fuel argv []).0) [
    | inl never ↦ absurd (ground (arith, main-is_some argv))
    | inr (status, e) ↦ (status, e)
  ]
