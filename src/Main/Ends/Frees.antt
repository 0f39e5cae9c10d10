-- ===== src/Main/Ends/Frees.antt =====
-- src/main.c: what the program has given back by the time that it returns.
use wlr_remote.Base.{ℕ, ◌≡◌, ap, ◌∙◌, arith, false, Option, none, some, Bytes, List, [], ◌∷◌}
use wlr_remote.System.Types.{Sockets}
use wlr_remote.Advertise.Types.{Service}
use wlr_remote.System.Event.{Trace, log, no_protocol}
use wlr_remote.System.Env.{Env}
use wlr_remote.System.Objects.{objects}
use wlr_remote.Advertise.Service.{advertise_create_service}
use wlr_remote.Main.Loop.Held.{deliver_globals-held}
use wlr_remote.Main.Ends.Cleanup.{err_free_virtual_pointer-objects, err_free_registry-objects}
use wlr_remote.Main.Served.Silent.{net_setup_udp_sockets-silent, net_setup_epoll-silent}
use wlr_remote.Main.Served.Start.{start-silent}
use wlr_remote.Main.Served.Start.{advertise_create_service-silent}
use wlr_remote.Main.Ends.Closes.{Closes, start_service-Closes}
use wlr_remote.Main.Walk.{port_of, Walk, opened, handled, main-Ended}
use wlr_remote.Main.Program.{initial_state, main}

-- Where the program returns, there is no object left.
abbrev pub Frees : Option ℕ × Trace → Type 0
Frees (none, t') = Unit
Frees (some status, t') = objects t' ≡ (0, 0, 0, 0, 0)

Frees-Closes :
    (n : ℕ) (env : Env) (fuel : ℕ) (service : Option Service) (socks : Sockets) (t : Trace)
    (c : Option ℕ × Trace)
    → Closes n env fuel service socks t c
    → Frees c
Frees-Closes n env fuel service socks t (none, t') h = tt
Frees-Closes n env fuel service socks t (some status, t') h = h.0

Frees-some :
    (c : Option ℕ × Trace) (status : ℕ)
    → Frees c
    → c.0 ≡ some status
    → objects c.1 ≡ (0, 0, 0, 0, 0)
Frees-some (none, t) status h e = cc
Frees-some (some s, t) status h e = h

module _ (env : Env) (fuel : ℕ) where
  Frees-walk : (argv : List Bytes) → Walk env fuel argv
  Frees-walk argv = record {
    Started = λ t. objects t ≡ (0, 0, 0, 0, 0);
    Opened = λ state t. objects t ≡ (0, 1, 1, 0, 0);
    Pointed = λ state t. objects t ≡ (0, 1, 1, 1, 0);
    Bound = λ state t. objects t ≡ (0, 1, 1, 1, 0);
    Watching = λ epoll_fd state t. objects t ≡ (0, 1, 1, 1, 0);
    Ended = Frees;
    start = ap (λ x. x.1) (start-silent env argv);
    no_password = λ status t u e o. o;
    no_display = λ t e o. ground arith;
    look_up = λ key len t read e o.
        ap (λ x. x.0) (deliver_globals-held 0 env (initial_state key len) (opened env t))
        ∙ ground arith;
    no_globals = λ state t o. err_free_registry-objects false (log no_protocol ∷ t) o;
    point = λ state t o. ground arith;
    no_display_fd = λ state t o. err_free_virtual_pointer-objects state false t o;
    bind = λ state t o.
        ap (λ x. x.1) (net_setup_udp_sockets-silent env state.socks (port_of argv) t) ∙ o;
    no_sockets = λ state t o. err_free_virtual_pointer-objects state false t o;
    no_epoll_set = λ wl_fd state t o.
        err_free_virtual_pointer-objects state false _
          (ap (λ x. x.1) (net_setup_epoll-silent env state wl_fd t) ∙ o);
    watch = λ wl_fd state t display o set_up.
        ap (λ x. x.1) (net_setup_epoll-silent env state wl_fd t) ∙ o;
    no_context =
        λ epoll_fd state t o. err_free_virtual_pointer-objects state false _ (ground arith);
    serve = λ wl_fd epoll_fd state t o.
        let (service, u) = advertise_create_service env (port_of argv) (handled t) in
        let at_u : objects u ≡ (1, 1, 1, 1, 0) =
          ap (λ x. x.1) (advertise_create_service-silent env (port_of argv) (handled t))
          ∙ ground arith in
        Frees-Closes 0 env fuel service state.socks u _
          (start_service-Closes 0 env fuel wl_fd epoll_fd (port_of argv) state service u at_u);
  }

  main-Frees : (argv : List Bytes) → Frees (main env fuel argv [])
  unfolding Frees-walk
  main-Frees argv = main-Ended env fuel argv (Frees-walk argv)

  -- In a run of the program that returns, by whichever of its exits, every connection to the
  -- compositor, registry, virtual pointer and context of tinydtls that it made was given back, and so
  -- was every list of addresses that `getaddrinfo` or `getifaddrs` had made for it.
  pub main-objects :
      (argv : List Bytes) (status : ℕ)
      → (main env fuel argv []).0 ≡ some status
      → objects (main env fuel argv []).1 ≡ (0, 0, 0, 0, 0)
  main-objects argv status e = Frees-some (main env fuel argv []) status (main-Frees argv) e
