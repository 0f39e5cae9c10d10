-- ===== src/Main/Ends/Settled.antt =====
-- src/main.c: the memory and the descriptors that a run has given back by its end.
use wlr_remote.Base.{
  ℕ, ◌+◌, false, ◌≡◌, ap, sym, ◌∙◌, arith, Option, none, some, Bytes, List, [], ◌∷◌, pos, is_neg, ℤ,
}
use wlr_remote.System.Types.{ClientState}
use wlr_remote.System.Event.{Trace, log, no_protocol}
use wlr_remote.System.Env.{Env}
use wlr_remote.System.Descriptors.{live, holds, no_sockets}
use wlr_remote.System.Objects.{objects, contexts_made}
use wlr_remote.System.Ledger.{heap, epoll_sets, ledger, faults}
use wlr_remote.Setup.{setup_parse_port, setup_signals}
use wlr_remote.Network.Sockets.{net_setup_udp_sockets}
use wlr_remote.Network.Sockets.Owned.{net_setup_udp_sockets-holds}
use wlr_remote.Network.Epoll.{net_setup_epoll, net_setup_epoll-live}
use wlr_remote.Main.Cleanup.{exit_success}
use wlr_remote.Main.Loop.Held.{deliver_globals-held, deliver_globals-socks}
use wlr_remote.Main.Served.Silent.{net_setup_udp_sockets-spared, net_setup_epoll-spared}
use wlr_remote.Main.Served.Start.{start-silent}
use wlr_remote.Base.{◌⊎◌, ◌<◌}
use wlr_remote.Main.Served.Serving.{deliver_globals-silent}
use wlr_remote.Main.Walk.{port_of, Walk, opened, main-Ended}
use wlr_remote.Main.Program.{initial_state, main}
use wlr_remote.Network.Epoll.Faults.{net_setup_epoll-faults}
use wlr_remote.Main.Ends.Balance.{
  Settled, setup_signals-ledger, setup_parse_port-ledger, setup_password-ledger,
  net_setup_epoll-sets, err_free_registry-Settled, err_free_virtual_pointer-Settled,
  start_service-Settled,
}

-- The objects, and how many contexts were ever made.
abbrev counts : Trace → (ℕ × ℕ × ℕ × ℕ × ℕ) × ℕ
counts t = (objects t, contexts_made t)

module _ (n : ℕ) where
  setup_udp_sockets-ledger :
      (env : Env) (port : ℕ) (state : ClientState) (t : Trace)
      → state.socks ≡ no_sockets
      → counts t ≡ ((0, 1, 1, 1, 0), 0)
      → ledger n t ≡ (0, 0, 0, 0)
      → let ((made, socks), u) = net_setup_udp_sockets env state.socks port t in
        (counts u ≡ ((0, 1, 1, 1, 0), 0)) × (ledger n u ≡ (holds (pos n) socks, 0, 0, 0))
  setup_udp_sockets-ledger env port state t e o l =
      let ((made, socks), u) = net_setup_udp_sockets env state.socks port t in
      let spared = net_setup_udp_sockets-spared n env state.socks port t in
      let held_u : live (pos n) u ≡ live (pos n) t + holds (pos n) socks =
        rw e (net_setup_udp_sockets-holds n env port t) in
      let live_u : live (pos n) u ≡ holds (pos n) socks = omega (arith, held_u, ap (λ x. x.0) l) in
      let rest_u = ap (λ x. (x.1, x.2, x.3)) spared ∙ ap (λ x. (x.1, x.2, x.3)) l in
      let row : ℕ → ℕ × ℕ × ℕ → ℕ × ℕ × ℕ × ℕ = λ x r. (x, r.0, r.1, r.2) in
      (
        ap (λ x. (x.0.1, x.0.5)) spared ∙ o,
        ap (λ x. row x (heap n u, epoll_sets (pos n) u, faults n u)) live_u
            ∙ ap (row (holds (pos n) socks)) rest_u,
      )

  setup_epoll-no_faults :
      (env : Env) (wl_fd : ℤ) (state : ClientState) (t : Trace)
      → ledger n t ≡ (holds (pos n) state.socks, 0, 0, 0)
      → faults n (net_setup_epoll env state wl_fd t).1 ≡ 0
  setup_epoll-no_faults env wl_fd state t l =
      net_setup_epoll-faults n env state wl_fd t (omega (arith, ap (λ x. x.0) l)) ∙ ap (λ x. x.3) l

  setup_epoll-balance :
      (env : Env) (wl_fd : ℤ) (state : ClientState) (t : Trace)
      → ledger n t ≡ (holds (pos n) state.socks, 0, 0, 0)
      → let (epoll_fd, u) = net_setup_epoll env state wl_fd t in
        is_neg epoll_fd ≡ false → live (pos n) u ≡ epoll_sets (pos n) u + holds (pos n) state.socks
  setup_epoll-balance env wl_fd state t l set_up =
      let (sets, created) = net_setup_epoll-sets n env state wl_fd t set_up in
      let at_t = ap (λ x. x.0) l in
      let opened' = net_setup_epoll-live env state wl_fd t n (omega (arith, at_t)) in
      ground (arith, ap (λ x. x.2) l)

  module _ (env : Env) (fuel : ℕ) where
    -- Objects are counted as well, since the cleanup gives back each of them once.
    Settled-walk : (argv : List Bytes) → Walk env fuel argv
    unfolding Settled
    Settled-walk argv = record {
      Started = λ t. (counts t ≡ ((0, 0, 0, 0, 0), 0)) × (ledger n t ≡ (0, 0, 0, 0));
      Opened = λ state t.
          (state.socks ≡ no_sockets)
          × (counts t ≡ ((0, 1, 1, 0, 0), 0))
          × (ledger n t ≡ (0, 0, 0, 0));
      Pointed = λ state t.
          (state.socks ≡ no_sockets)
          × (counts t ≡ ((0, 1, 1, 1, 0), 0))
          × (ledger n t ≡ (0, 0, 0, 0));
      Bound = λ state t.
          (counts t ≡ ((0, 1, 1, 1, 0), 0)) × (ledger n t ≡ (holds (pos n) state.socks, 0, 0, 0));
      Watching = λ epoll_fd state t.
          (counts t ≡ ((0, 1, 1, 1, 0), 0))
          × (heap n t ≡ 0)
          × (faults n t ≡ 0)
          × (live (pos n) t ≡ epoll_sets (pos n) t + holds (pos n) state.socks);
      Ended = Settled n;
      start =
          let t = (setup_parse_port argv []).1 in
          (
            ap (λ x. (x.1, x.5)) (start-silent env argv),
            setup_password-ledger n env (setup_signals t).1
                ∙ (setup_signals-ledger n t ∙ setup_parse_port-ledger n argv []),
          );
      no_password = λ status t u e (o, l).
          (ap (λ x. x.1) l, (λ x. ap (λ x. x.0) l ∙ sym (ap (λ x. x.2) l)), ap (λ x. x.3) l);
      no_display =
          λ t e (o, l). (ap (λ x. x.1) l, (λ x. absurd (ground (arith, x, o))), ap (λ x. x.3) l);
      look_up = λ key len t read e (o, l).
          let state = initial_state key len in
          let same = deliver_globals-held n env state (opened env t) in
          (
            deliver_globals-socks n env state (opened env t),
            ap (λ x. (x.1, x.5)) (deliver_globals-silent env state (opened env t)) ∙ ground arith,
            ap (λ x. (x.2, x.3, x.4, x.5)) same ∙ l,
          );
      no_globals = λ state t (e, o, l).
          err_free_registry-Settled n env fuel (log no_protocol ∷ t) (ap (λ x. x.1) l)
            (ap (λ x. x.3) l) (ap (λ x. x.1) o);
      point = λ state t (e, o, l). (e, ground arith, l);
      no_display_fd = λ state t (e, o, l).
          err_free_virtual_pointer-Settled n env fuel state t (ap (λ x. x.1) l) (ap (λ x. x.3) l)
            (ap (λ x. x.1) o);
      bind = λ state t (e, o, l). setup_udp_sockets-ledger env (port_of argv) state t e o l;
      no_sockets = λ state t (o, l).
          err_free_virtual_pointer-Settled n env fuel state t (ap (λ x. x.1) l) (ap (λ x. x.3) l)
            (ap (λ x. x.1) o);
      no_epoll_set = λ wl_fd state t (o, l).
          err_free_virtual_pointer-Settled n env fuel state _
            ((net_setup_epoll-spared n env state wl_fd t).1 ∙ ap (λ x. x.1) l)
            (setup_epoll-no_faults env wl_fd state t l)
            (ap (λ x. x.5) (net_setup_epoll-spared n env state wl_fd t).0 ∙ ap (λ x. x.1) o);
      watch = λ wl_fd state t display (o, l) set_up.
          let (same, same_heap) = net_setup_epoll-spared n env state wl_fd t in
          (
            ap (λ x. (x.1, x.5)) same ∙ o,
            same_heap ∙ ap (λ x. x.1) l,
            setup_epoll-no_faults env wl_fd state t l,
            setup_epoll-balance env wl_fd state t l set_up,
          );
      no_context = λ epoll_fd state t (o, h, f, l).
          err_free_virtual_pointer-Settled n env fuel state _ h f (omega (arith, ap (λ x. x.1) o));
      serve = λ wl_fd epoll_fd state t (o, h, f, l).
          start_service-Settled n env fuel wl_fd epoll_fd (port_of argv) state t (ap (λ x. x.0) o) h
            l f;
    }

    main-Settled : (argv : List Bytes) → Settled n (main env fuel argv [])
    unfolding Settled-walk
    main-Settled argv = main-Ended env fuel argv (Settled-walk argv)

    Settled-heap :
        (c : Option ℕ × Trace) (status : ℕ) → Settled n c → c.0 ≡ some status → heap n c.1 ≡ 0
    unfolding Settled
    Settled-heap (none, t) status h e = cc
    Settled-heap (some s, t) status h e = h.0

    Settled-live :
        (c : Option ℕ × Trace) (status : ℕ)
        → Settled n c
        → c.0 ≡ some status
        → (status ≡ exit_success) ⊎ (0 < contexts_made c.1)
        → live (pos n) c.1 ≡ epoll_sets (pos n) c.1
    unfolding Settled
    Settled-live (none, t) status h e k = cc
    Settled-live (some s, t) status h e k = let same : status ≡ s = cc in h.1 (rw same at k)

    Settled-faults : (c : Option ℕ × Trace) → Settled n c → faults n c.1 ≡ 0
    unfolding Settled
    Settled-faults (none, t) h = h
    Settled-faults (some s, t) h = h.2

    -- In every run of the program, cut off after any number of rounds or complete, by whichever of
    -- its exits: each descriptor that it closed was open, and each block of memory that it freed
    -- was allocated. So nothing is closed twice or freed twice.
    pub main-faults : (argv : List Bytes) → faults n (main env fuel argv []).1 ≡ 0
    main-faults argv = Settled-faults (main env fuel argv []) (main-Settled argv)

    -- In a run of the program that returns, by whichever of its exits, every block of memory that it
    -- allocated was freed.
    pub main-heap :
        (argv : List Bytes) (status : ℕ)
        → (main env fuel argv []).0 ≡ some status
        → heap n (main env fuel argv []).1 ≡ 0
    main-heap argv status e = Settled-heap (main env fuel argv []) status (main-Settled argv) e

    -- In a run of the program that ends with success, or that had made a context of tinydtls, by
    -- whichever of its exits: every socket that it opened was closed, also those that it gave up;
    -- each descriptor is still open exactly as often as an epoll set was made with it.
    pub main-live :
        (argv : List Bytes) (status : ℕ)
        → (main env fuel argv []).0 ≡ some status
        → (status ≡ exit_success) ⊎ (0 < contexts_made (main env fuel argv []).1)
        → live (pos n) (main env fuel argv []).1 ≡ epoll_sets (pos n) (main env fuel argv []).1
    main-live argv status = Settled-live (main env fuel argv []) status (main-Settled argv)
