-- ===== src/Main/Ends/Retracts.antt =====
-- src/main.c and src/advertise.c: what is announced at the start of the service and retracted at its
-- end.
use wlr_remote.Base.{
  ℕ, ◌≡◌, refl, ap, ◌∙◌, ◌⊎◌, inl, inr, arith, true, false, Bool, Option, none, some, List, [], ◌∷◌,
  ◌++◌, Bool-cases, if◌then◌else◌, ℤ, is_fd,
}
use mathlib.Core.List.{append-nil}
use wlr_remote.System.Types.{ClientState}
use wlr_remote.System.Event.{Trace, log, listening, advertising}
use wlr_remote.System.Env.{Env}
use wlr_remote.System.Objects.{waits}
use wlr_remote.System.Notices.{notices, Reach, announcements, retractions}
use wlr_remote.Network.Callbacks.Calm.{free_context-held}
use wlr_remote.Advertise.Types.{Service}
use wlr_remote.Advertise.Records.{
  build_additional, from_case_srv, from_case_a, from_case_txt, recordtype_ptr,
}
use wlr_remote.Advertise.Records.Additional.{companions}
use wlr_remote.Advertise.Service.{
  advertise_announce, advertise_announce_service, advertise_announce_goodbye, destroy_service,
  close_mdns_socket, advertise_setup_epoll,
}
use wlr_remote.Main.Loop.{Step, go_on, failed, unfinished, Context, event_loop}
use wlr_remote.Main.Loop.Held.{IsKept, event_loop-IsKept}
use wlr_remote.Main.Cleanup.{
  stop_service, err_free_all, err_free_virtual_pointer, err_free_registry,
}
use wlr_remote.Main.Served.Start.{advertise_setup_epoll-silent, err_free_all-waits}
use wlr_remote.Main.Program.{after_loop, run_loop, start_service}

-- What a service tells: the record of its type with its companions, on each of its sockets, the one
-- for IPv6 last.
abbrev pub service_reach : Service → List Reach
service_reach s =
    let told : ℤ → List Reach =
      λ fd. if is_fd fd then (fd, s.record_ptr, companions s recordtype_ptr) ∷ [] else [] in
    told s.socks.v6 ++ told s.socks.v4

abbrev pub reach_of : Option Service → List Reach
reach_of none = []
reach_of (some s) = service_reach s

-- All that the service tells was announced and retracted afterwards; or nothing was ever waited for,
-- and it was only retracted, or not even that.
abbrev pub IsTakenBack : Option Service → Trace → Type 0
IsTakenBack service t =
    let told = reach_of service in
    (notices t ≡ retractions told ++ announcements told)
    ⊎ ((waits t ≡ 0) × ((notices t ≡ retractions told) ⊎ (notices t ≡ [])))

-- The same of a run, where it returns.
abbrev pub Farewell : Option Service → Option ℕ × Trace → Type 0
Farewell service (none, t) = Unit
Farewell service (some status, t) = IsTakenBack service t

announce-notices :
    (s : Service) (t : Trace)
    → notices (advertise_announce_service s t).1 ≡ announcements (service_reach s) ++ notices t
unfolding advertise_announce_service advertise_announce build_additional from_case_srv from_case_a
    from_case_txt
announce-notices s t = ground arith

goodbye-notices :
    (s : Service) (t : Trace)
    → notices (advertise_announce_goodbye s t).1 ≡ retractions (service_reach s) ++ notices t
unfolding advertise_announce_goodbye advertise_announce build_additional from_case_srv from_case_a
    from_case_txt
goodbye-notices s t = ground arith

destroy_service-notices : (s : Service) (t : Trace) → notices (destroy_service s t).1 ≡ notices t
unfolding destroy_service close_mdns_socket
destroy_service-notices s t = ground arith

err_free_all-notices :
    (env : Env) (service : Option Service) (state : ClientState) (success : Bool) (t : Trace)
    → notices (err_free_all env service state success t).1
      ≡ retractions (reach_of service) ++ notices t
unfolding err_free_all stop_service err_free_virtual_pointer err_free_registry
err_free_all-notices env none state success t = ground (arith, free_context-held 0 env state t)
err_free_all-notices env (some s) state success t =
    let u = (advertise_announce_goodbye s t).1 in
    let v = (destroy_service s u).1 in
    ground
      (arith, destroy_service-notices s u, goodbye-notices s t, free_context-held 0 env state v)

module _ (env : Env) (fuel : ℕ) where
  -- Where a part of the program returns, it has retracted what the service tells.
  abbrev Retracts : Option Service → Trace → Option ℕ × Trace → Type 0
  Retracts service t (none, t') = Unit
  Retracts service t (some status, t') = notices t' ≡ retractions (reach_of service) ++ notices t

  Retracts-from :
      (service : Option Service) (u t : Trace) (c : Option ℕ × Trace)
      → notices u ≡ notices t
      → Retracts service u c
      → Retracts service t c
  Retracts-from service u t (none, v) e h = tt
  Retracts-from service u t (some status, v) e h =
      h ∙ ap (λ x. retractions (reach_of service) ++ x) e

  after_loop-Retracts :
      (service : Option Service) (step : Step) (t : Trace)
      → Retracts service t (after_loop env service step t)
  unfolding after_loop
  after_loop-Retracts service (go_on state) t = err_free_all-notices env service state true t
  after_loop-Retracts service (failed state) t = err_free_all-notices env service state false t
  after_loop-Retracts service unfinished t = tt

  run_loop-Retracts :
      (ctx : Context) (port : ℕ) (state : ClientState) (t : Trace)
      → Retracts ctx.service t (run_loop env fuel ctx port state t)
  unfolding run_loop
  run_loop-Retracts ctx port state t =
      let u = log (listening port) ∷ t in
      let (step, v) = event_loop env fuel ctx fuel (go_on state) u in
      let kept : IsKept 0 env fuel ctx state.socks u (step, v) =
        event_loop-IsKept 0 env fuel ctx fuel state.socks (go_on state) u u (record {
          objects_kept = refl;
          ledger_kept = refl;
          notices_kept = refl;
          controls_kept = (0, refl);
          socks_kept = refl;
        }) in
      Retracts-from ctx.service v t (after_loop env ctx.service step v) kept.notices_kept
        (after_loop-Retracts ctx.service step v)

  -- What was announced before is taken back.
  Retracts-Farewell :
      (service : Option Service) (t : Trace) (c : Option ℕ × Trace)
      → notices t ≡ announcements (reach_of service)
      → Retracts service t c
      → Farewell service c
  Retracts-Farewell service t (none, u) said h = tt
  Retracts-Farewell service t (some status, u) said h =
      inl (h ∙ ap (λ x. retractions (reach_of service) ++ x) said)

  pub start_service-Farewell :
      (wl_fd epoll_fd : ℤ) (port : ℕ) (state : ClientState) (service : Option Service) (t : Trace)
      → notices t ≡ []
      → waits t ≡ 0
      → Farewell service (start_service env fuel wl_fd epoll_fd port state service t)
  unfolding start_service
  start_service-Farewell wl_fd epoll_fd port state none t e early = Retracts-Farewell none t _ e (
      run_loop-Retracts (record { wl_fd = wl_fd; epoll_fd = epoll_fd; service = none }) port state
        t)
  start_service-Farewell wl_fd epoll_fd port state (some s) t e early =
      let ctx : Context = record { wl_fd = wl_fd; epoll_fd = epoll_fd; service = some s } in
      let (added, u) = advertise_setup_epoll env s epoll_fd t in
      let quiet = advertise_setup_epoll-silent env s epoll_fd t in
      let at_u = ap (λ x. x.3) quiet ∙ e in
      let v = log advertising ∷ (advertise_announce_service s u).1 in
      let told : notices v ≡ announcements (service_reach s) =
        announce-notices s u
        ∙ (ap (λ x. announcements (service_reach s) ++ x) at_u
            ∙ append-nil (announcements (service_reach s))) in
      elim (Bool-cases added) [
        | inl yes' ↦
            rw (yes', start_service)
              (Retracts-Farewell (some s) v _ told (run_loop-Retracts ctx port state v))
        | inr no' ↦
            rw (no', start_service)
              (inr (
                ap (λ x. x.0) (err_free_all-waits env (some s) state false u)
                    ∙ (ap (λ x. x.2) quiet ∙ early),
                inl (
                    err_free_all-notices env (some s) state false u
                    ∙ (ap (λ x. retractions (service_reach s) ++ x) at_u
                        ∙ append-nil (retractions (service_reach s)))),
              ))
      ]
