-- ===== src/Main/Ends/Farewell.antt =====
-- src/main.c: what a whole run announces and retracts over mDNS.
use wlr_remote.Base.{ℕ, ◌≡◌, ap, ◌∙◌, inr, Option, none, some, Bytes, List, []}
use wlr_remote.System.Event.{Trace}
use wlr_remote.System.Env.{Env}
use wlr_remote.Advertise.Types.{Service}
use wlr_remote.Main.Served.Start.{advertise_create_service-silent}
use wlr_remote.Main.Walk.{port_of, handled}
use wlr_remote.Main.Stages.{quiet, all_quiet, bound, watching, serviced, main-staged}
use wlr_remote.Main.Program.{main}
use wlr_remote.Main.Ends.Retracts.{IsTakenBack, Farewell, start_service-Farewell}

never_announced :
    (service : Option Service) (c : Option ℕ × Trace) → quiet c.1 ≡ all_quiet → Farewell service c
never_announced service (none, t) h = tt
never_announced service (some status, t) h = inr (ap (λ x. x.1) h, inr (ap (λ x. x.0) h))

module _ (env : Env) (fuel : ℕ) where
  main-Farewell : (argv : List Bytes) → Farewell (serviced env argv).0 (main env fuel argv [])
  main-Farewell argv =
      main-staged env fuel argv (Farewell (serviced env argv).0)
        (never_announced (serviced env argv).0)
        (λ wl_fd set_up h.
          let t = handled (watching env argv).1 in
          let same = advertise_create_service-silent env (port_of argv) t in
          start_service-Farewell env fuel wl_fd (watching env argv).0 (port_of argv)
            (bound env argv).0 (serviced env argv).0 (serviced env argv).1
            (ap (λ x. x.3) same ∙ ap (λ x. x.0) h) (ap (λ x. x.2) same ∙ ap (λ x. x.1) h))

  Farewell-some :
      (service : Option Service) (c : Option ℕ × Trace) (status : ℕ)
      → Farewell service c
      → c.0 ≡ some status
      → IsTakenBack service c.1
  Farewell-some service (none, t) status h e = cc
  Farewell-some service (some s, t) status h e = h

  -- In a run of the program that returns, by whichever of its exits, the notices are those of the
  -- service that `advertise_create_service` returned in this run, if it did: on each of its sockets,
  -- the one for IPv4 first, the record that points from its type to its instance, with that record's
  -- companions. Each was announced once, and then each was retracted once, in the same order, and
  -- there is no other notice. Only if the run never waited for events, none was announced, and each
  -- was retracted once, or none.
  pub main-notices :
      (argv : List Bytes) (status : ℕ)
      → (main env fuel argv []).0 ≡ some status
      → IsTakenBack (serviced env argv).0 (main env fuel argv []).1
  main-notices argv status e =
      Farewell-some (serviced env argv).0 (main env fuel argv []) status (main-Farewell argv) e
