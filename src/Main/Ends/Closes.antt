-- ===== src/Main/Ends/Closes.antt =====
-- src/main.c: what is closed and freed from the start of the service on.
use wlr_remote.Base.{
  Bool, sym, ℕ, ◌+◌, ◌-◌, ◌≡◌, refl, ap, ◌∙◌, arith, true, false, Option, none, some, ◌∷◌,
  Bool-cases, inl, inr, ℤ, pos,
}
use wlr_remote.System.Types.{ClientState, Sockets}
use wlr_remote.System.Event.{Trace, log, listening, advertising}
use wlr_remote.System.Env.{Env}
use wlr_remote.System.Descriptors.{live, holds}
use wlr_remote.System.Objects.{objects}
use wlr_remote.System.Ledger.{heap, epoll_sets, ledger, faults}
use wlr_remote.Advertise.Service.Blocks.{owned}
use wlr_remote.Network.Epoll.{add_socket, epoll_ctl_add}
use wlr_remote.Advertise.Types.{Service}
use wlr_remote.Advertise.Records.{build_additional}
use wlr_remote.Advertise.Service.{
  advertise_announce, advertise_announce_service, advertise_setup_epoll,
}
use wlr_remote.Main.Loop.{Step, go_on, failed, unfinished, Context, event_loop}
use wlr_remote.Main.Loop.Held.{IsKept, socks_of, event_loop-IsKept}
use wlr_remote.Advertise.Service.Blocks.{service_holds}
use wlr_remote.Main.Ends.Cleanup.{err_free_all-live, err_free_all-faults}
use wlr_remote.Main.Program.{ends, after_loop, run_loop, start_service}
use wlr_remote.Main.Cleanup.{err_free_all}

module _ (n : ℕ) (env : Env) (fuel : ℕ) where
  -- Where the program returns, there is no object left, and since `t` the descriptor `pos n` was
  -- closed, and the block `n` freed, as often as the service and the sockets name it, and there was a
  -- fault each time that they name more than there is; where it is cut off, there was none.
  abbrev pub Closes : Option Service → Sockets → Trace → Option ℕ × Trace → Type 0
  Closes service socks t (none, t') = faults n t' ≡ faults n t
  Closes service socks t (some status, t') =
      (objects t' ≡ (0, 0, 0, 0, 0))
      × (live (pos n) t' ≡ live (pos n) t - (service_holds (pos n) service + holds (pos n) socks))
      × (heap n t' ≡ heap n t - owned n service)
      × (epoll_sets (pos n) t' ≡ epoll_sets (pos n) t)
      × (faults n t'
          ≡ faults n t
            + (service_holds (pos n) service + holds (pos n) socks - live (pos n) t)
            + (owned n service - heap n t))

  Closes-from :
      (service : Option Service) (socks : Sockets) (u t : Trace) (c : Option ℕ × Trace)
      → ledger n u ≡ ledger n t
      → Closes service socks u c
      → Closes service socks t c
  Closes-from service socks u t (none, v) e h = h ∙ ap (λ x. x.3) e
  Closes-from service socks u t (some status, v) e h = (
    h.0,
    h.1 ∙ ap (λ x. x.0 - (service_holds (pos n) service + holds (pos n) socks)) e,
    h.2 ∙ ap (λ x. x.1 - owned n service) e,
    h.3 ∙ ap (λ x. x.2) e,
    h.4
        ∙ ap
            (λ x.
              x.3
              + (service_holds (pos n) service + holds (pos n) socks - x.0)
              + (owned n service - x.1))
            e,
  )

  err_free_all-Closes :
      (service : Option Service) (state : ClientState) (success : Bool) (t : Trace)
      → objects t ≡ (1, 1, 1, 1, 0)
      → Closes service state.socks t (ends (err_free_all env service state success) t)
  err_free_all-Closes service state success t o =
      let (freed, closed, unallocated, sets) = err_free_all-live n env service state success t o in
      (freed, closed, unallocated, sets, err_free_all-faults n env service state success t)

  after_loop-Closes :
      (service : Option Service) (socks : Sockets) (step : Step) (t0 t : Trace)
      → objects t ≡ (1, 1, 1, 1, 0)
      → ledger n t ≡ ledger n t0
      → socks_of socks step ≡ socks
      → Closes service socks t0 (after_loop env service step t)
  unfolding after_loop
  after_loop-Closes service socks (go_on state) t0 t o l e =
      Closes-from service socks t t0 (ends (err_free_all env service state true) t) l
        (rw (sym e) (err_free_all-Closes service state true t o))
  after_loop-Closes service socks (failed state) t0 t o l e =
      Closes-from service socks t t0 (ends (err_free_all env service state false) t) l
        (rw (sym e) (err_free_all-Closes service state false t o))
  after_loop-Closes service socks unfinished t0 t o l e = ap (λ x. x.3) l

  run_loop-Closes :
      (ctx : Context) (port : ℕ) (state : ClientState) (t : Trace)
      → objects t ≡ (1, 1, 1, 1, 0)
      → Closes ctx.service state.socks t (run_loop env fuel ctx port state t)
  unfolding run_loop
  run_loop-Closes ctx port state t o =
      let u = log (listening port) ∷ t in
      let (step, v) = event_loop env fuel ctx fuel (go_on state) u in
      let kept : IsKept n env fuel ctx state.socks u (step, v) =
        event_loop-IsKept n env fuel ctx fuel state.socks (go_on state) u u (record {
          objects_kept = refl;
          ledger_kept = refl;
          notices_kept = refl;
          controls_kept = (0, refl);
          socks_kept = refl;
        }) in
      after_loop-Closes ctx.service state.socks step t v (kept.objects_kept ∙ o) kept.ledger_kept
        kept.socks_kept

  announce-held :
      (s : Service) (t : Trace)
      → let u = (advertise_announce_service s t).1 in
        (objects u ≡ objects t) × (ledger n u ≡ ledger n t)
  unfolding advertise_announce_service advertise_announce build_additional
  announce-held s t = ground arith

  setup_epoll-held :
      (s : Service) (fd : ℤ) (t : Trace)
      → let u = (advertise_setup_epoll env s fd t).1 in
        (objects u ≡ objects t) × (ledger n u ≡ ledger n t)
  unfolding advertise_setup_epoll add_socket epoll_ctl_add
  setup_epoll-held s fd t = ground arith

  -- Each object of the program existing once: where it returns from the start of the service on,
  -- whether by `quit` or by an error, no object is left, and each descriptor is closed as often as
  -- the sockets of the state and of the service name it, each block is freed as often as the service
  -- names it, and nothing else is closed or freed; what they name beyond what there is counts as a
  -- fault.
  pub start_service-Closes :
      (wl_fd epoll_fd : ℤ) (port : ℕ) (state : ClientState) (service : Option Service) (t : Trace)
      → objects t ≡ (1, 1, 1, 1, 0)
      → Closes service state.socks t (start_service env fuel wl_fd epoll_fd port state service t)
  unfolding start_service
  start_service-Closes wl_fd epoll_fd port state none t o =
      run_loop-Closes (record { wl_fd = wl_fd; epoll_fd = epoll_fd; service = none }) port state t o
  start_service-Closes wl_fd epoll_fd port state (some s) t o =
      let ctx : Context = record { wl_fd = wl_fd; epoll_fd = epoll_fd; service = some s } in
      let (added, u) = advertise_setup_epoll env s epoll_fd t in
      let before = setup_epoll-held s epoll_fd t in
      let v = log advertising ∷ (advertise_announce_service s u).1 in
      let shown = announce-held s u in
      let at_v : objects v ≡ (1, 1, 1, 1, 0) = shown.0 ∙ (before.0 ∙ o) in
      elim (Bool-cases added) [
        | inl yes' ↦
            rw (yes', start_service)
              (Closes-from (some s) state.socks v t _ (shown.1 ∙ before.1)
                (run_loop-Closes ctx port state v at_v))
        | inr no' ↦
            rw (no', start_service)
              (Closes-from (some s) state.socks u t (ends (err_free_all env (some s) state false) u)
                before.1 (err_free_all-Closes (some s) state false u (before.0 ∙ o)))
      ]
