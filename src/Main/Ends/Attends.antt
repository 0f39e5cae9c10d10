-- ===== src/Main/Ends/Attends.antt =====
-- src/main.c: what a whole run waits for.
use wlr_remote.Base.{
  ℕ, zero, suc, ◌≡◌, refl, ap, sym, subst, ◌∙◌, inl, inr, arith, true, false, Option, none, some,
  Bytes, List, [], ◌∷◌, ◌++◌, All, replicate, Bool-cases, ℤ, is_neg,
}
use wlr_remote.System.Controls.{Control, controls, waits_in, set_made, fd_added, waited}
use wlr_remote.Network.Epoll.{
  watched, watched_by, attended_by, socket_list, net_setup_epoll-watched,
}
use wlr_remote.Advertise.Service.{advertise_setup_epoll, advertise_announce_service}
use wlr_remote.Main.Served.Start.{
  announce-rested, err_free_all-waits, advertise_setup_epoll-silent,
  advertise_create_service-hidden, advertise_create_service-silent,
}
use wlr_remote.Main.Walk.{port_of, handled}
use wlr_remote.Main.Stages.{bound, connection, run_sockets, watching, serviced, main-staged}
use wlr_remote.Main.Cleanup.{err_free_all}
use wlr_remote.Main.Program.{after_loop, run_loop, start_service, main}
use wlr_remote.System.Types.{ClientState, Sockets}
use wlr_remote.System.Event.{Trace, log, listening, advertising}
use wlr_remote.System.Env.{Env}
use wlr_remote.System.Objects.{waits}
use wlr_remote.Advertise.Types.{Service}
use wlr_remote.Advertise.Service.Watched.{advertise_setup_epoll-watched}
use wlr_remote.Main.Loop.{Step, go_on, failed, unfinished, Context, event_loop}
use wlr_remote.Main.Loop.Held.{IsKept, event_loop-IsKept}

-- Each socket that there is, and the connection to the compositor.
abbrev pub base_list : Sockets → ℤ → List ℤ
base_list socks wl_fd = socket_list socks.v6 ++ (socket_list socks.v4 ++ wl_fd ∷ [])

-- The same with those of a service, if there is one.
abbrev pub attended : Option Service → List ℤ → List ℤ
attended none fds = fds
attended (some s) fds = socket_list s.socks.v6 ++ (socket_list s.socks.v4 ++ fds)

-- The waits change nothing about what a set watches.
watched_by-waits :
    (ep : ℤ) (cs : List Control) (k : ℕ)
    → watched_by ep (replicate k (waited ep) ++ cs) ≡ watched_by ep cs
watched_by-waits ep cs zero = refl
watched_by-waits ep cs (suc k) = watched_by-waits ep cs k

never_attended : (cs : List Control) → waits_in cs ≡ 0 → attended_by cs ≡ []
never_attended [] h = refl
never_attended (set_made r ∷ rest) h = never_attended rest h
never_attended (fd_added e fd r ∷ rest) h = never_attended rest h
never_attended (waited e ∷ rest) h = absurd (omega arith)

-- At each wait the set that was waited on watched just these, and there was no other.
abbrev pub AllAttended : List ℤ → List Control → Type 0
AllAttended fds cs = All (λ l. l ≡ fds) (attended_by cs)

AllAttended-waits :
    (ep : ℤ) (cs : List Control) (k : ℕ)
    → waits_in cs ≡ 0
    → AllAttended (watched_by ep cs) (replicate k (waited ep) ++ cs)
AllAttended-waits ep cs zero h = rw (never_attended cs h) tt
AllAttended-waits ep cs (suc k) h = (watched_by-waits ep cs k, AllAttended-waits ep cs k h)

module _ (env : Env) (fuel : ℕ) where
  after_loop-controls :
      (service : Option Service) (step : Step) (t : Trace)
      → controls (after_loop env service step t).1 ≡ controls t
  unfolding after_loop
  after_loop-controls service (go_on state) t =
      ap (λ x. x.1) (err_free_all-waits env service state true t)
  after_loop-controls service (failed state) t =
      ap (λ x. x.1) (err_free_all-waits env service state false t)
  after_loop-controls service unfinished t = refl

  run_loop-AllAttended :
      (ctx : Context) (port : ℕ) (state : ClientState) (t : Trace)
      → waits t ≡ 0
      → AllAttended (watched ctx.epoll_fd t) (controls (run_loop env fuel ctx port state t).1)
  unfolding run_loop
  run_loop-AllAttended ctx port state t early =
      let u = log (listening port) ∷ t in
      let (step, v) = event_loop env fuel ctx fuel (go_on state) u in
      let kept : IsKept 0 env fuel ctx state.socks u (step, v) =
        event_loop-IsKept 0 env fuel ctx fuel state.socks (go_on state) u u (record {
          objects_kept = refl;
          ledger_kept = refl;
          notices_kept = refl;
          controls_kept = (0, refl);
          socks_kept = refl;
        }) in
      let (k, same) = kept.controls_kept in
      subst (AllAttended (watched ctx.epoll_fd t))
        (sym (after_loop-controls ctx.service step v ∙ same))
        (AllAttended-waits ctx.epoll_fd (controls t) k early)

  -- The set was extended by the sockets of the service before the first wait.
  start_service-AllAttended :
      (wl_fd ep : ℤ) (port : ℕ) (state : ClientState) (service : Option Service) (t : Trace)
      → waits t ≡ 0
      → let end = (start_service env fuel wl_fd ep port state service t).1 in
        AllAttended (attended service (watched ep t)) (controls end)
  unfolding start_service
  start_service-AllAttended wl_fd ep port state none t early =
      run_loop-AllAttended (record { wl_fd = wl_fd; epoll_fd = ep; service = none }) port state t
        early
  start_service-AllAttended wl_fd ep port state (some s) t early =
      let ctx : Context = record { wl_fd = wl_fd; epoll_fd = ep; service = some s } in
      let (added, u) = advertise_setup_epoll env s ep t in
      let v = log advertising ∷ (advertise_announce_service s u).1 in
      let at_u : waits u ≡ 0 = ap (λ x. x.2) (advertise_setup_epoll-silent env s ep t) ∙ early in
      let rested = announce-rested s u in
      elim (Bool-cases added) [
        | inl yes' ↦
            rw (yes', start_service)
              (subst (λ x. AllAttended x (controls (run_loop env fuel ctx port state v).1))
                (ap (λ x. watched_by ep x.2) rested ∙ advertise_setup_epoll-watched env s ep t yes')
                (run_loop-AllAttended ctx port state v (ap (λ x. x.1) rested ∙ at_u)))
        | inr no' ↦
            rw (no', start_service)
              (unattended (attended (some s) (watched ep t))
                (err_free_all env (some s) state false u).1
                (ap (λ x. x.0) (err_free_all-waits env (some s) state false u) ∙ at_u))
      ]
    where
      unattended : (fds : List ℤ) (t : Trace) → waits t ≡ 0 → AllAttended fds (controls t)
      unattended fds t h = rw (never_attended (controls t) h) tt

module _ (env : Env) (argv : List Bytes) where
  -- What this run has to wait for.
  abbrev pub run_attends : List ℤ
  run_attends =
      attended (serviced env argv).0 (base_list (run_sockets env argv) (connection env argv))

  abbrev pub IsAttentive : Trace → Type 0
  IsAttentive t = AllAttended run_attends (controls t)

  service_at-watched :
      is_neg (watching env argv).0 ≡ false
      → watched (watching env argv).0 (serviced env argv).1
        ≡ base_list (run_sockets env argv) (connection env argv)
  service_at-watched set_up =
      let (state, t) = bound env argv in
      ap (λ x. watched_by (watching env argv).0 x.1)
        (advertise_create_service-hidden env (port_of argv) (handled (watching env argv).1))
      ∙ net_setup_epoll-watched env state (connection env argv) t set_up

-- In a run of the program, cut off after any number of rounds or complete: whenever `epoll_wait` is
-- called, the epoll set that it is given watches the run's connection to the compositor, each of the
-- sockets that `net_setup_udp_sockets` returned in the run, and each of the sockets of the service
-- that `advertise_create_service` returned in it, if it did, each once and nothing else.
pub main-IsAttentive :
    (env : Env) (fuel : ℕ) (argv : List Bytes) → IsAttentive env argv (main env fuel argv []).1
main-IsAttentive env fuel argv =
    main-staged env fuel argv (λ c. IsAttentive env argv c.1)
      (λ c h. rw (never_attended (controls c.1) (ap (λ x. x.1) h)) tt)
      (λ wl_fd set_up h.
        let (service, u) = serviced env argv in
        let t = handled (watching env argv).1 in
        let ep = (watching env argv).0 in
        let state = (bound env argv).0 in
        let same = advertise_create_service-silent env (port_of argv) t in
        subst
          (λ x.
            AllAttended (attended service x)
              (controls (start_service env fuel wl_fd ep (port_of argv) state service u).1))
          (service_at-watched env argv set_up)
          (start_service-AllAttended env fuel wl_fd ep (port_of argv) state service u
            (ap (λ x. x.2) same ∙ ap (λ x. x.1) h)))
