-- ===== src/Main/Served/Rounds.antt =====
-- src/main.c: the event loop, and the end of the program.
use wlr_remote.Base.{
  ap, ℕ, zero, suc, arith, Option, none, some, List, [], ◌∷◌, ℤ, Bool-cases, inl, inr,
}
use wlr_remote.System.Types.{ClientState, Waited, ready, wait_failed}
use wlr_remote.System.Event.{Trace, wl_dispatch, wl_flush, wl_dispatch_pending, epoll_wait}
use wlr_remote.System.Env.{Env}
use wlr_remote.System.Signals.{quit_is_set}
use wlr_remote.Base.{◌≡◌, refl}
use wlr_remote.Main.Served.Silent.{silent}
use wlr_remote.Network.Receive.{net_handle_epoll}
use wlr_remote.Advertise.Types.{Service}
use wlr_remote.Main.Loop.{
  max_events, Step, go_on, failed, unfinished, Context, deliver_globals, dispatch_display,
  serve_mdns, after_datagrams, handle_event, handle_events, after_wait, loop_round, event_loop,
}
use wlr_remote.Main.Served.Laws.{LoopLaws}
use wlr_remote.Main.Served.Serving.{deliver_globals-silent}

module _ (env : Env) (ctx : Context) (laws : LoopLaws env ctx.service) where
  quietly : (t t' : Trace) → silent t' ≡ silent t → laws.Holds t → laws.Holds t'
  quietly t t' same h = laws.by_quiet t t' (ap (λ x. x.0) same) (ap (λ x. x.4) same) h

  -- The state that a step ends with fits.
  abbrev pub Fits : Step → Type 0
  Fits (go_on state) = laws.Fit state
  Fits (failed state) = laws.Fit state
  Fits unfinished = Unit

  dispatch_display-Fits :
      (state : ClientState) (t : Trace) → laws.Fit state → Fits (dispatch_display env state t).0
  unfolding dispatch_display
  dispatch_display-Fits state t fit = ground (arith, laws.by_globals state t fit)

  after_datagrams-Fits :
      (state : ClientState) (r : Option ℤ) → laws.Fit state → Fits (after_datagrams env state r)
  unfolding after_datagrams
  after_datagrams-Fits state none fit = tt
  after_datagrams-Fits state (some r) fit = ground arith

  serve_mdns-Fits :
      (state : ClientState) (fd : ℤ) (service : Option Service) (t : Trace)
      → laws.Fit state
      → Fits (serve_mdns env state fd service t).0
  unfolding serve_mdns
  serve_mdns-Fits state fd none t fit = fit
  serve_mdns-Fits state fd (some s) t fit = fit

  dispatch_display-Holds :
      (state : ClientState) (t : Trace) → laws.Holds t → laws.Holds (dispatch_display env state t).1
  unfolding dispatch_display
  dispatch_display-Holds state t h =
      let u = (deliver_globals env state t).1 in
      quietly t (wl_dispatch (env.wl_dispatch u) ∷ u) (deliver_globals-silent env state t) h

  serve_mdns-Holds :
      (state : ClientState) (fd : ℤ) (service : Option Service) (t : Trace)
      → ctx.service ≡ service
      → laws.Holds t
      → laws.Holds (serve_mdns env state fd service t).1
  unfolding serve_mdns
  serve_mdns-Holds state fd none t e h = h
  serve_mdns-Holds state fd (some s) t e h = laws.by_answers s fd t e h

  module _ (fuel : ℕ) where
    handle_event-Fits :
        (state : ClientState) (fd : ℤ) (t : Trace)
        → laws.Fit state
        → Fits (handle_event env fuel ctx state fd t).0
    unfolding handle_event
    handle_event-Fits state fd t fit = ground (
      arith,
      dispatch_display-Fits state t fit,
      after_datagrams-Fits state (net_handle_epoll env fuel state fd t).0 fit,
      serve_mdns-Fits state fd ctx.service t fit,
    )

    handle_event-Holds :
        (state : ClientState) (fd : ℤ) (t : Trace)
        → laws.Fit state
        → laws.Holds t
        → laws.Holds (handle_event env fuel ctx state fd t).1
    unfolding handle_event
    handle_event-Holds state fd t fit h = ground (
      arith,
      dispatch_display-Holds state t h,
      laws.by_datagrams state fuel fd t fit h,
      serve_mdns-Holds state fd ctx.service t refl h,
    )

    handle_events-Fits :
        (fds : List ℤ) (step : Step) (t : Trace)
        → Fits step
        → Fits (handle_events env fuel ctx fds step t).0
    unfolding handle_events
    handle_events-Fits fds (failed state) t fit = fit
    handle_events-Fits fds unfinished t fit = tt
    handle_events-Fits [] (go_on state) t fit = fit
    handle_events-Fits (fd ∷ fds) (go_on state) t fit =
        let (step, t') = handle_event env fuel ctx state fd t in
        handle_events-Fits fds step t' (handle_event-Fits state fd t fit)

    handle_events-Holds :
        (fds : List ℤ) (step : Step) (t : Trace)
        → Fits step
        → laws.Holds t
        → laws.Holds (handle_events env fuel ctx fds step t).1
    unfolding handle_events
    handle_events-Holds fds (failed state) t fit h = h
    handle_events-Holds fds unfinished t fit h = h
    handle_events-Holds [] (go_on state) t fit h = h
    handle_events-Holds (fd ∷ fds) (go_on state) t fit h =
        let (step, t') = handle_event env fuel ctx state fd t in
        handle_events-Holds fds step t' (handle_event-Fits state fd t fit)
          (handle_event-Holds state fd t fit h)

    after_wait-Fits :
        (state : ClientState) (w : Waited) (t : Trace)
        → laws.Fit state
        → Fits (after_wait env fuel ctx state w t).0
    unfolding after_wait
    after_wait-Fits state (ready fds) t fit = handle_events-Fits fds (go_on state) t fit
    after_wait-Fits state (wait_failed e) t fit = ground arith

    after_wait-Holds :
        (state : ClientState) (w : Waited) (t : Trace)
        → laws.Fit state
        → laws.Holds t
        → laws.Holds (after_wait env fuel ctx state w t).1
    unfolding after_wait
    after_wait-Holds state (ready fds) t fit h = handle_events-Holds fds (go_on state) t fit h
    after_wait-Holds state (wait_failed e) t fit h =
        laws.by_quiet t _ (ground arith) (ground arith) h

    loop_round-Fits :
        (state : ClientState) (t : Trace)
        → laws.Fit state
        → Fits (loop_round env fuel ctx state t).0
    unfolding loop_round
    loop_round-Fits state t fit =
        let (state', u) = deliver_globals env state (wl_dispatch_pending ∷ t) in
        let waited = env.epoll_wait (wl_flush ∷ u) ctx.epoll_fd max_events in
        after_wait-Fits state' waited (epoll_wait ctx.epoll_fd max_events waited ∷ wl_flush ∷ u)
          (laws.by_globals state (wl_dispatch_pending ∷ t) fit)

    loop_round-Holds :
        (state : ClientState) (t : Trace)
        → laws.Fit state
        → laws.Holds t
        → laws.Holds (loop_round env fuel ctx state t).1
    unfolding loop_round
    loop_round-Holds state t fit h =
        let (state', u) = deliver_globals env state (wl_dispatch_pending ∷ t) in
        let waited = env.epoll_wait (wl_flush ∷ u) ctx.epoll_fd max_events in
        let v = epoll_wait ctx.epoll_fd max_events waited ∷ wl_flush ∷ u in
        let same = deliver_globals-silent env state (wl_dispatch_pending ∷ t) in
        after_wait-Holds state' waited v (laws.by_globals state (wl_dispatch_pending ∷ t) fit)
          (laws.by_quiet t v (ap (λ x. x.0) same) (ap (λ x. x.4) same) h)

    pub event_loop-Fits :
        (rounds : ℕ) (step : Step) (t : Trace)
        → Fits step
        → Fits (event_loop env fuel ctx rounds step t).0
    unfolding event_loop
    event_loop-Fits rounds (failed state) t fit = fit
    event_loop-Fits rounds unfinished t fit = tt
    event_loop-Fits zero (go_on state) t fit = tt
    event_loop-Fits (suc rounds) (go_on state) t fit =
        let (step, t') = loop_round env fuel ctx state t in
        elim (Bool-cases (quit_is_set env t)) [
          | inl stop ↦ rw (stop, event_loop) fit
          | inr more ↦
              rw (more, event_loop) (event_loop-Fits rounds step t' (loop_round-Fits state t fit))
        ]

    -- What holds before the loop holds after any number of rounds, however the loop ends.
    pub event_loop-Holds :
        (rounds : ℕ) (step : Step) (t : Trace)
        → Fits step
        → laws.Holds t
        → laws.Holds (event_loop env fuel ctx rounds step t).1
    unfolding event_loop
    event_loop-Holds rounds (failed state) t fit h = h
    event_loop-Holds rounds unfinished t fit h = h
    event_loop-Holds zero (go_on state) t fit h = h
    event_loop-Holds (suc rounds) (go_on state) t fit h =
        let (step, t') = loop_round env fuel ctx state t in
        elim (Bool-cases (quit_is_set env t)) [
          | inl stop ↦ rw (stop, event_loop) h
          | inr more ↦
              rw (more, event_loop)
                (event_loop-Holds rounds step t' (loop_round-Fits state t fit)
                  (loop_round-Holds state t fit h))
        ]
