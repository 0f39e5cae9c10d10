-- ===== src/Main/Loop/Total.antt =====
-- src/main.c, the event loop: it comes to an end once the user asks for it.
use wlr_remote.Base.{
  ◌==◌, ◌||◌, ◌∙◌, ℕ, zero, suc, ◌-◌, ◌≡◌, ◌<◌, ◌≤◌, refl, arith, Bool, true, false, Option, none,
  some, List, [], ◌∷◌, Bool-cases, inl, inr, ℤ,
}
use wlr_remote.System.Types.{ClientState, Waited, ready, wait_failed}
use wlr_remote.System.Event.{Trace}
use wlr_remote.System.Env.{Env}
use wlr_remote.System.Signals.{Handler, handlers, quit_after, quit_is_set}
use wlr_remote.Setup.{sigint, sigterm, handle_signal}
use wlr_remote.System.Objects.{waits}
use wlr_remote.Network.Receive.{net_handle_epoll}
use wlr_remote.Network.Receive.Drained.{ArrivalLaws, net_handle_epoll-total}
use wlr_remote.Main.Loop.{
  Step, go_on, failed, unfinished, Context, dispatch_display, after_datagrams, serve_mdns,
  handle_event, handle_events, after_wait, loop_round, event_loop,
}
use wlr_remote.Advertise.Types.{Service}
use wlr_remote.Main.Loop.Held.{loop_round-IsRound}

-- Whether a signal has come that the program is to end by.
abbrev pub is_asked : List ℕ → Bool
is_asked [] = false
is_asked (signum ∷ earlier) = signum == sigint || signum == sigterm || is_asked earlier

-- By the time that the program has waited `deadline` times, SIGINT or SIGTERM has come.
pub record QuitLaws (env : Env) (deadline : ℕ) : Type 0 where
  pub asked : (t : Trace) → deadline ≤ waits t → is_asked (env.signals t) ≡ true

-- The handlers that `setup_signals` installs, and no others, are installed.
abbrev pub armed : List (ℕ × Handler)
armed = (sigterm, handle_signal) ∷ (sigint, handle_signal) ∷ []

abbrev pub IsArmed : Trace → Type 0
IsArmed t = handlers t ≡ armed

-- The handler sets `quit`, and nothing takes that back.
quit_after-asked : (signals : List ℕ) → is_asked signals ≡ true → quit_after armed signals ≡ true
unfolding handle_signal
quit_after-asked [] e = cc
quit_after-asked (signum ∷ earlier) e = ground (arith, quit_after-asked earlier)

quit_is_set-asked :
    (env : Env) (t : Trace) → IsArmed t → is_asked (env.signals t) ≡ true → quit_is_set env t ≡ true
quit_is_set-asked env t h e = rw h (quit_after-asked (env.signals t) e)

-- Whether a part of the loop came to its end within the bounds.
abbrev pub is_over : Step → Bool
is_over (go_on state) = true
is_over (failed state) = true
is_over unfinished = false

module _ (env : Env) (total fuel : ℕ) (arrivals : ArrivalLaws env total) (enough : total < fuel)
    (ctx : Context) where
  dispatch_display-is_over :
      (state : ClientState) (t : Trace) → is_over (dispatch_display env state t).0 ≡ true
  unfolding dispatch_display
  dispatch_display-is_over state t = ground arith

  serve_mdns-is_over :
      (state : ClientState) (fd : ℤ) (service : Option Service) (t : Trace)
      → is_over (serve_mdns env state fd service t).0 ≡ true
  unfolding serve_mdns
  serve_mdns-is_over state fd none t = refl
  serve_mdns-is_over state fd (some s) t = refl

  after_datagrams-is_over :
      (state : ClientState) (r : Option ℤ) (res : ℤ)
      → r ≡ some res
      → is_over (after_datagrams env state r) ≡ true
  unfolding after_datagrams
  after_datagrams-is_over state none res e = cc
  after_datagrams-is_over state (some r) res e = ground arith

  handle_event-is_over :
      (state : ClientState) (fd : ℤ) (t : Trace)
      → is_over (handle_event env fuel ctx state fd t).0 ≡ true
  unfolding handle_event
  handle_event-is_over state fd t =
      let (res, e) = net_handle_epoll-total env state total fuel fd t arrivals (omega arith) in
      ground (
        arith,
        dispatch_display-is_over state t,
        after_datagrams-is_over state (net_handle_epoll env fuel state fd t).0 res e,
        serve_mdns-is_over state fd ctx.service t,
      )

  handle_events-is_over :
      (fds : List ℤ) (step : Step) (t : Trace)
      → is_over step ≡ true
      → is_over (handle_events env fuel ctx fds step t).0 ≡ true
  unfolding handle_events
  handle_events-is_over fds (failed state) t h = refl
  handle_events-is_over fds unfinished t h = cc
  handle_events-is_over [] (go_on state) t h = refl
  handle_events-is_over (fd ∷ fds) (go_on state) t h =
      let (step, u) = handle_event env fuel ctx state fd t in
      handle_events-is_over fds step u (handle_event-is_over state fd t)

  after_wait-is_over :
      (state : ClientState) (w : Waited) (t : Trace)
      → is_over (after_wait env fuel ctx state w t).0 ≡ true
  unfolding after_wait
  after_wait-is_over state (ready fds) t = handle_events-is_over fds (go_on state) t refl
  after_wait-is_over state (wait_failed e) t = ground arith

  loop_round-is_over :
      (state : ClientState) (t : Trace) → is_over (loop_round env fuel ctx state t).0 ≡ true
  unfolding loop_round
  loop_round-is_over state t = after_wait-is_over _ _ _

  -- Each round waits once, so that `quit` is set in time.
  pub event_loop-is_over :
      (deadline rounds : ℕ) (step : Step) (t : Trace)
      → QuitLaws env deadline
      → IsArmed t
      → deadline - waits t < rounds
      → is_over step ≡ true
      → is_over (event_loop env fuel ctx rounds step t).0 ≡ true
  unfolding event_loop
  event_loop-is_over deadline rounds (failed state) t laws arm h o = refl
  event_loop-is_over deadline rounds unfinished t laws arm h o = cc
  event_loop-is_over deadline zero (go_on state) t laws arm h o = elim h [ ]
  event_loop-is_over deadline (suc rounds) (go_on state) t laws arm h o =
      let (step, u) = loop_round env fuel ctx state t in
      let round = loop_round-IsRound 0 env fuel ctx state t in
      let late : deadline ≤ waits t → quit_is_set env t ≡ true =
        λ h'. quit_is_set-asked env t arm (laws.asked t h') in
      elim (Bool-cases (quit_is_set env t)) [
        | inl stop ↦ rw (stop, event_loop) refl
        | inr more ↦
            rw (more, event_loop)
              (event_loop-is_over deadline rounds step u laws (round.same_handlers ∙ arm)
                (ground (arith, late, round.waited_once)) (loop_round-is_over state t))
      ]
