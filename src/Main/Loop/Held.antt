-- ===== src/Main/Loop/Held.antt =====
-- src/main.c, the event loop: it opens and closes nothing, and keeps the sockets of `state`.
use wlr_remote.Base.{
  replicate, ◌++◌, ℕ, zero, suc, ◌+◌, ◌≡◌, refl, ap, ◌∙◌, arith, Option, none, some, List, [], ◌∷◌,
  Bool-cases, inl, inr, ℤ,
}
use wlr_remote.System.Types.{ClientState, Sockets, Waited, ready, wait_failed}
use wlr_remote.System.Event.{Trace, wl_flush, wl_dispatch_pending, epoll_wait}
use wlr_remote.System.Notices.{notices}
use wlr_remote.System.Env.{Env}
use wlr_remote.System.Signals.{quit_is_set}
use wlr_remote.System.Controls.{Control, waited, controls}
use wlr_remote.System.Signals.{Handler, handlers}
use wlr_remote.Main.Loop.Settings.{deliver_globals-settings}
use wlr_remote.Base.{pos, Bool}
use wlr_remote.System.Notices.{Notice}
use wlr_remote.System.Descriptors.{live}
use wlr_remote.System.Ledger.{heap, epoll_sets, faults}
use wlr_remote.System.Terminal.{echo_on}
use wlr_remote.System.Ledger.{ledger}
use wlr_remote.System.Objects.{objects, waits}
use wlr_remote.Network.Receive.{net_handle_epoll}
use wlr_remote.Network.Receive.Calm.{net_handle_epoll-held}
use wlr_remote.Advertise.Types.{Service}
use wlr_remote.Main.Served.Serving.{deliver_globals-still, advertise_respond_request-still}
use wlr_remote.Main.Loop.{
  max_events, Step, go_on, failed, unfinished, Context, deliver_globals, dispatch_display,
  after_datagrams, serve_mdns, handle_event, handle_events, after_wait, loop_round, event_loop,
}

-- The sockets of the state that a step ends with; where it has none, those it was given.
abbrev pub socks_of : Sockets → Step → Sockets
socks_of socks (go_on state) = state.socks
socks_of socks (failed state) = state.socks
socks_of socks unfinished = socks

pub socks_of-same :
    (a b : Sockets) (step : Step) → a ≡ b → socks_of a step ≡ a → socks_of b step ≡ b
socks_of-same a b (go_on state) e h = h ∙ e
socks_of-same a b (failed state) e h = h ∙ e
socks_of-same a b unfinished e h = refl

-- What the loop leaves alone.
abbrev pub kept :
    ℕ
    → Trace
    → (ℕ × ℕ × ℕ × ℕ × ℕ)
      × ℕ
      × ℕ
      × ℕ
      × ℕ
      × ℕ
      × List Notice
      × Bool
      × List Control
      × List (ℕ × Handler)
kept n t = (
  objects t,
  waits t,
  live (pos n) t,
  heap n t,
  epoll_sets (pos n) t,
  faults n t,
  notices t,
  echo_on t,
  controls t,
  handlers t,
)

module _ (n : ℕ) (env : Env) where
  pub deliver_globals-socks :
      (state : ClientState) (t : Trace) → (deliver_globals env state t).0.socks ≡ state.socks
  deliver_globals-socks state t = ap (λ x. x.2) (deliver_globals-settings env state t)

  pub deliver_globals-held :
      (state : ClientState) (t : Trace) → kept n (deliver_globals env state t).1 ≡ kept n t
  deliver_globals-held state t =
      ap (λ v. (v.0.1, v.0.2, v.1, v.2, v.3, v.4, v.0.3, v.0.0.5, v.5, v.6))
        (deliver_globals-still env n state t)

  -- A step leaves the sockets of the state, and what is held, as they were.
  pub record IsHeld (socks : Sockets) (t : Trace) (c : Step × Trace) : Type 0 where
    pub same_held : kept n c.1 ≡ kept n t
    pub same_socks : socks_of socks c.0 ≡ socks

  dispatch_display-IsHeld :
      (state : ClientState) (t : Trace) → IsHeld state.socks t (dispatch_display env state t)
  unfolding dispatch_display
  dispatch_display-IsHeld state t = record {
    same_held = deliver_globals-held state t;
    same_socks = ground (arith, deliver_globals-socks state t);
  }

  serve_mdns-IsHeld :
      (state : ClientState) (fd : ℤ) (service : Option Service) (t : Trace)
      → IsHeld state.socks t (serve_mdns env state fd service t)
  unfolding serve_mdns
  serve_mdns-IsHeld state fd none t = record { same_held = refl; same_socks = refl }
  serve_mdns-IsHeld state fd (some s) t = record {
    same_held =
        ap (λ v. (v.0.1, v.0.2, v.1, v.2, v.3, v.4, v.0.3, v.0.0.5, v.5, v.6))
          (advertise_respond_request-still env n s fd t);
    same_socks = refl;
  }

  after_datagrams-socks :
      (state : ClientState) (r : Option ℤ)
      → socks_of state.socks (after_datagrams env state r) ≡ state.socks
  unfolding after_datagrams
  after_datagrams-socks state none = refl
  after_datagrams-socks state (some r) = ground arith

  module _ (fuel : ℕ) (ctx : Context) where
    pub handle_event-IsHeld :
        (state : ClientState) (fd : ℤ) (t : Trace)
        → IsHeld state.socks t (handle_event env fuel ctx state fd t)
    unfolding handle_event
    handle_event-IsHeld state fd t =
        let (r, u) = net_handle_epoll env fuel state fd t in
        let received : IsHeld state.socks t (after_datagrams env state r, u) = record {
          same_held =
              ap (λ v. (v.0, v.1, v.2, v.3, v.4, v.5, v.6, v.7, v.9, v.10))
                (net_handle_epoll-held n env state fuel fd t);
          same_socks = after_datagrams-socks state r;
        } in
        ground (
          arith,
          dispatch_display-IsHeld state t,
          received,
          serve_mdns-IsHeld state fd ctx.service t,
        )

    IsHeld-step :
        (state state' : ClientState) (socks : Sockets) (t u : Trace) (c : Step × Trace)
        → IsHeld socks t (go_on state', u)
        → IsHeld state'.socks u c
        → IsHeld socks t c
    IsHeld-step state state' socks t u (go_on s, v) h k = record {
      same_held = k.same_held ∙ h.same_held;
      same_socks = k.same_socks ∙ h.same_socks;
    }
    IsHeld-step state state' socks t u (failed s, v) h k = record {
      same_held = k.same_held ∙ h.same_held;
      same_socks = k.same_socks ∙ h.same_socks;
    }
    IsHeld-step state state' socks t u (unfinished, v) h k = record {
      same_held = k.same_held ∙ h.same_held;
      same_socks = refl;
    }

    handle_events-IsHeld :
        (fds : List ℤ) (socks : Sockets) (step : Step) (t0 t : Trace)
        → IsHeld socks t0 (step, t)
        → IsHeld socks t0 (handle_events env fuel ctx fds step t)
    unfolding handle_events
    handle_events-IsHeld fds socks (failed state) t0 t h = h
    handle_events-IsHeld fds socks unfinished t0 t h = h
    handle_events-IsHeld [] socks (go_on state) t0 t h = h
    handle_events-IsHeld (fd ∷ fds) socks (go_on state) t0 t h =
        let (step, u) = handle_event env fuel ctx state fd t in
        handle_events-IsHeld fds socks step t0 u
          (IsHeld-step state state socks t0 t (step, u) h (handle_event-IsHeld state fd t))

    after_wait-IsHeld :
        (state : ClientState) (w : Waited) (t : Trace)
        → IsHeld state.socks t (after_wait env fuel ctx state w t)
    unfolding after_wait
    after_wait-IsHeld state (ready fds) t =
        handle_events-IsHeld fds state.socks (go_on state) t t
          (record { same_held = refl; same_socks = refl })
    after_wait-IsHeld state (wait_failed e) t = record {
      same_held = ground arith;
      same_socks = ground arith;
    }

    -- A round waits once.
    pub record IsRound (socks : Sockets) (t : Trace) (c : Step × Trace) : Type 0 where
      pub same_objects : objects c.1 ≡ objects t
      pub same_ledger : ledger n c.1 ≡ ledger n t
      pub same_notices : notices c.1 ≡ notices t
      pub same_controls : controls c.1 ≡ waited ctx.epoll_fd ∷ controls t
      pub same_handlers : handlers c.1 ≡ handlers t
      pub waited_once : waits c.1 ≡ waits t + 1
      pub kept_socks : socks_of socks c.0 ≡ socks

    pub loop_round-IsRound :
        (state : ClientState) (t : Trace) → IsRound state.socks t (loop_round env fuel ctx state t)
    unfolding loop_round
    loop_round-IsRound state t =
        let (state', u) = deliver_globals env state (wl_dispatch_pending ∷ t) in
        let w = env.epoll_wait (wl_flush ∷ u) ctx.epoll_fd max_events in
        let v = epoll_wait ctx.epoll_fd max_events w ∷ wl_flush ∷ u in
        let before = deliver_globals-held state (wl_dispatch_pending ∷ t) in
        let after = after_wait-IsHeld state' w v in
        let socks = deliver_globals-socks state (wl_dispatch_pending ∷ t) in
        record {
          same_objects = ap (λ x. x.0) after.same_held ∙ ap (λ x. x.0) before;
          same_ledger =
              ap (λ x. (x.2, x.3, x.4, x.5)) after.same_held
              ∙ ap (λ x. (x.2, x.3, x.4, x.5)) before;
          same_notices = ap (λ x. x.6) after.same_held ∙ ap (λ x. x.6) before;
          same_controls =
              ap (λ x. x.8) after.same_held ∙ ap (◌∷◌ (waited ctx.epoll_fd)) (ap (λ x. x.8) before);
          same_handlers = ap (λ x. x.9) after.same_held ∙ ap (λ x. x.9) before;
          waited_once =
              ap (λ x. x.1) after.same_held ∙ ap (λ (k : ℕ). k + 1) (ap (λ x. x.1) before);
          kept_socks =
              socks_of-same state'.socks state.socks (after_wait env fuel ctx state' w v).0 socks
                after.same_socks;
        }

    -- A step leaves the objects, the ledger, the notices and the sockets of the state as they were, and does no more to the epoll sets than to wait
    -- on the one of the loop.
    pub record IsKept (socks : Sockets) (t : Trace) (c : Step × Trace) : Type 0 where
      pub objects_kept : objects c.1 ≡ objects t
      pub ledger_kept : ledger n c.1 ≡ ledger n t
      pub notices_kept : notices c.1 ≡ notices t
      pub controls_kept : (k : ℕ) × (controls c.1 ≡ replicate k (waited ctx.epoll_fd) ++ controls t)
      pub socks_kept : socks_of socks c.0 ≡ socks

    pub event_loop-IsKept :
        (rounds : ℕ) (socks : Sockets) (step : Step) (t0 t : Trace)
        → IsKept socks t0 (step, t)
        → IsKept socks t0 (event_loop env fuel ctx rounds step t)
    unfolding event_loop
    event_loop-IsKept rounds socks (failed state) t0 t h = h
    event_loop-IsKept rounds socks unfinished t0 t h = h
    event_loop-IsKept zero socks (go_on state) t0 t h = record {
      objects_kept = h.objects_kept;
      ledger_kept = h.ledger_kept;
      notices_kept = h.notices_kept;
      controls_kept = h.controls_kept;
      socks_kept = refl;
    }
    event_loop-IsKept (suc rounds) socks (go_on state) t0 t h =
        let (step, u) = loop_round env fuel ctx state t in
        let once = loop_round-IsRound state t in
        let at_u : IsKept socks t0 (step, u) = record {
          objects_kept = once.same_objects ∙ h.objects_kept;
          ledger_kept = once.same_ledger ∙ h.ledger_kept;
          notices_kept = once.same_notices ∙ h.notices_kept;
          controls_kept = (
            suc h.controls_kept.0,
            once.same_controls ∙ ap (◌∷◌ (waited ctx.epoll_fd)) h.controls_kept.1,
          );
          socks_kept = socks_of-same state.socks socks step h.socks_kept once.kept_socks;
        } in
        elim (Bool-cases (quit_is_set env t)) [
          | inl stop ↦ rw (stop, event_loop) h
          | inr more ↦ rw (more, event_loop) (event_loop-IsKept rounds socks step t0 u at_u)
        ]
