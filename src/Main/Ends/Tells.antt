-- ===== src/Main/Ends/Tells.antt =====
-- src/main.c and src/advertise.c: the records that a whole run sends over mDNS.
use wlr_remote.Base.{
  ℕ, ◌≡◌, refl, ap, sym, ◌∙◌, ◌⊎◌, inl, inr, arith, true, false, Bool, Option, none, some, Bytes,
  List, [], ◌∷◌, Bool-cases, ℤ,
}
use wlr_remote.System.Types.{ClientState}
use wlr_remote.System.Event.{Trace, log, listening, advertising}
use wlr_remote.System.Env.{Env}
use wlr_remote.System.Notices.{told}
use wlr_remote.Network.Callbacks.Calm.{free_context-held}
use wlr_remote.Network.Receive.Calm.{net_handle_epoll-held}
use wlr_remote.Advertise.Types.{Service}
use wlr_remote.Advertise.Strings.Names.{HostnameLaws}
use wlr_remote.Advertise.Records.Own.{AllOwn}
use wlr_remote.Advertise.Respond.Own.{advertise_respond_request-own}
use wlr_remote.Advertise.Respond.{advertise_respond_request}
use wlr_remote.Advertise.Service.{
  advertise_create_service, advertise_setup_epoll, advertise_announce_service,
  advertise_announce_goodbye,
}
use wlr_remote.Advertise.Service.Made.{IsMade, MadeBy, advertise_create_service-MadeBy}
use wlr_remote.Advertise.Service.Own.{
  advertise_announce_service-own, advertise_announce_goodbye-own,
}
use wlr_remote.Main.Cleanup.{
  stop_service, err_free_all, err_free_virtual_pointer, err_free_registry,
}
use wlr_remote.Main.Loop.{Step, go_on, failed, unfinished, Context, event_loop}
use wlr_remote.Main.Served.Serving.{deliver_globals-silent}
use wlr_remote.Main.Served.Silent.{net_setup_udp_sockets-silent, net_setup_epoll-silent}
use wlr_remote.Main.Served.Start.{
  start-silent, destroy_service-silent, advertise_setup_epoll-silent,
  advertise_create_service-silent,
}
use wlr_remote.Main.Served.Laws.{LoopLaws}
use wlr_remote.Main.Served.Rounds.{event_loop-Holds}
use wlr_remote.Main.Walk.{port_of, Walk, opened, handled, main-Ended}
use wlr_remote.Main.Program.{initial_state, after_loop, run_loop, start_service, main}

-- All that was told are records of the service; where there is none, nothing was.
abbrev OwnTold : Option Service → Trace → Type 0
OwnTold none t = told t ≡ []
OwnTold (some s) t = AllOwn s (told t)

OwnTold-same :
    (service : Option Service) (t t' : Trace)
    → told t' ≡ told t
    → OwnTold service t
    → OwnTold service t'
OwnTold-same none t t' e h = e ∙ h
OwnTold-same (some s) t t' e h = rw e h

stop_service-own :
    (service : Option Service) (t : Trace)
    → OwnTold service t
    → OwnTold service (stop_service service t).1
unfolding stop_service
stop_service-own none t h = h
stop_service-own (some s) t h =
    let u = (advertise_announce_goodbye s t).1 in
    rw (ap (λ x. x.4) (destroy_service-silent s u)) (advertise_announce_goodbye-own s t h)

err_free_all-own :
    (env : Env) (service : Option Service) (state : ClientState) (success : Bool) (t : Trace)
    → OwnTold service t
    → OwnTold service (err_free_all env service state success t).1
unfolding err_free_all err_free_virtual_pointer err_free_registry
err_free_all-own env service state success t h =
    let u = (stop_service service t).1 in
    let same : told (err_free_all env service state success t).1 ≡ told u =
      ground (arith, free_context-held 0 env state u) in
    OwnTold-same service u (err_free_all env service state success t).1 same
      (stop_service-own service t h)

module _ (env : Env) (port : ℕ) where
  -- Nothing was told; or there is a service on the port, as it was made, and all that was told are its
  -- records.
  abbrev pub Tells : Trace → Type 0
  Tells t = (told t ≡ []) ⊎ ((s : Service) × IsMade env port s × AllOwn s (told t))

  OwnTold-Tells :
      (service : Option Service) (t : Trace) → MadeBy env port service → OwnTold service t → Tells t
  OwnTold-Tells none t made h = inl h
  OwnTold-Tells (some s) t made h = inr (s, made, h)

  own_laws : (service : Option Service) → MadeBy env port service → LoopLaws env service
  own_laws service made = record {
    Fit = λ state. Unit;
    Holds = OwnTold service;
    by_globals = λ state t fit. tt;
    by_quiet = λ t t' e same h. OwnTold-same service t t' same h;
    by_datagrams = λ state fuel fd t fit h.
        OwnTold-same service t _ (ap (λ x. x.8) (net_handle_epoll-held 0 env state fuel fd t)) h;
    by_answers = answered service made;
  }
    where
      answered :
          (service : Option Service)
          → MadeBy env port service
          → (s : Service) (fd : ℤ) (t : Trace) → service ≡ some s
          → OwnTold service t
          → OwnTold service (advertise_respond_request env s fd t).1
      answered none made s fd t e h = cc
      answered (some s') made s fd t e h =
          let same : s' ≡ s = cc in
          rw (sym same) (advertise_respond_request-own s' env fd t made.recorded h)

  module _ (fuel : ℕ) where
    after_loop-Tells :
        (service : Option Service) (step : Step) (t : Trace)
        → MadeBy env port service
        → OwnTold service t
        → Tells (after_loop env service step t).1
    unfolding after_loop
    after_loop-Tells service (go_on state) t made h =
        OwnTold-Tells service _ made (err_free_all-own env service state true t h)
    after_loop-Tells service (failed state) t made h =
        OwnTold-Tells service _ made (err_free_all-own env service state false t h)
    after_loop-Tells service unfinished t made h = OwnTold-Tells service t made h

    run_loop-Tells :
        (ctx : Context) (state : ClientState) (t : Trace)
        → MadeBy env port ctx.service
        → OwnTold ctx.service t
        → Tells (run_loop env fuel ctx port state t).1
    unfolding run_loop own_laws
    run_loop-Tells ctx state t made h =
        let u = log (listening port) ∷ t in
        let (step, v) = event_loop env fuel ctx fuel (go_on state) u in
        after_loop-Tells ctx.service step v made (
          event_loop-Holds env ctx (own_laws ctx.service made) fuel fuel (go_on state) u tt
            (OwnTold-same ctx.service t u refl h))

    start_service-Tells :
        (wl_fd epoll_fd : ℤ) (state : ClientState) (service : Option Service) (t : Trace)
        → MadeBy env port service
        → told t ≡ []
        → Tells (start_service env fuel wl_fd epoll_fd port state service t).1
    unfolding start_service
    start_service-Tells wl_fd epoll_fd state none t made h =
        run_loop-Tells (record { wl_fd = wl_fd; epoll_fd = epoll_fd; service = none }) state t made
          h
    start_service-Tells wl_fd epoll_fd state (some s) t made h =
        let ctx : Context = record { wl_fd = wl_fd; epoll_fd = epoll_fd; service = some s } in
        let (added, u) = advertise_setup_epoll env s epoll_fd t in
        let v = log advertising ∷ (advertise_announce_service s u).1 in
        let none_told : told u ≡ [] =
          ap (λ x. x.4) (advertise_setup_epoll-silent env s epoll_fd t) ∙ h in
        let at_u : AllOwn s (told u) = rw none_told tt in
        elim (Bool-cases added) [
          | inl yes' ↦
              rw (yes', start_service)
                (run_loop-Tells ctx state v made (advertise_announce_service-own s u at_u))
          | inr no' ↦
              rw (no', start_service)
                (OwnTold-Tells (some s) (err_free_all env (some s) state false u).1 made
                  (err_free_all-own env (some s) state false u at_u))
        ]

module _ (env : Env) (fuel : ℕ) (argv : List Bytes) (laws : HostnameLaws env) where
  -- Before the loop nothing is told.
  Tells-walk : Walk env fuel argv
  unfolding err_free_virtual_pointer err_free_registry
  Tells-walk = record {
    Started = λ t. told t ≡ [];
    Opened = λ state t. told t ≡ [];
    Pointed = λ state t. told t ≡ [];
    Bound = λ state t. told t ≡ [];
    Watching = λ epoll_fd state t. told t ≡ [];
    Ended = λ c. Tells env (port_of argv) c.1;
    start = ap (λ x. x.4) (start-silent env argv);
    no_password = λ status t u e h. inl h;
    no_display = λ t e h. inl h;
    look_up = λ key len t read e h.
        ap (λ x. x.4) (deliver_globals-silent env (initial_state key len) (opened env t)) ∙ h;
    no_globals = λ state t h. inl h;
    point = λ state t h. h;
    no_display_fd = λ state t h. inl h;
    bind = λ state t h.
        ap (λ x. x.4) (net_setup_udp_sockets-silent env state.socks (port_of argv) t) ∙ h;
    no_sockets = λ state t h. inl h;
    no_epoll_set =
        λ wl_fd state t h. inl (ap (λ x. x.4) (net_setup_epoll-silent env state wl_fd t) ∙ h);
    watch = λ wl_fd state t display h set_up.
        ap (λ x. x.4) (net_setup_epoll-silent env state wl_fd t) ∙ h;
    no_context = λ epoll_fd state t h. inl h;
    serve = λ wl_fd epoll_fd state t h.
        let (service, u) = advertise_create_service env (port_of argv) (handled t) in
        start_service-Tells env (port_of argv) fuel wl_fd epoll_fd state service u
          (advertise_create_service-MadeBy env (port_of argv) laws (handled t))
          (ap (λ x. x.4) (advertise_create_service-silent env (port_of argv) (handled t)) ∙ h);
  }

-- `gethostname` keeping its promise: in a run of the program, cut off after any number of rounds or
-- complete, nothing is sent over mDNS, or there is one service, on the port that the arguments give,
-- named after the host; its type points to its instance, the instance to this port on the host's name
-- with an empty text, and the host's name to its addresses; and whatever is
-- sent, be it announced, retracted, answered or added to an answer, is one of its records, an address
-- only of a family that it has, or the answer to the question for the types of services.
pub main-Tells :
    (env : Env) (fuel : ℕ) (argv : List Bytes)
    → HostnameLaws env
    → Tells env (port_of argv) (main env fuel argv []).1
unfolding Tells-walk
main-Tells env fuel argv laws = main-Ended env fuel argv (Tells-walk env fuel argv laws)
