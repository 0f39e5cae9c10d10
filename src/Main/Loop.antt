-- ===== src/Main/Loop.antt =====
-- src/main.c: the event loop. `quit` is the variable that the signal handler sets.
pub mod Held
pub mod Settings
pub mod Total
use wlr_remote.Base.{
  ℕ, zero, suc, Bool, true, false, ◌||◌, Option, none, some, List, [], ◌∷◌, if◌then◌else◌, ℤ, eq_ℤ,
  is_neg,
}
use wlr_remote.Pointer.{codes, vp_registry_listener}
use wlr_remote.System.Types.{
  ClientState, Errno, eagain, ewouldblock, enobufs, eintr, other_error, Waited, ready, wait_failed,
  RegistryEvent,
}
use wlr_remote.System.Event.{epoll_wait, wl_flush, wl_dispatch_pending, wl_dispatch, perror}
use wlr_remote.System.Env.{Env}
use wlr_remote.System.Signals.{quit_is_set}
use wlr_remote.System.Monad.{M, pure, perform, emit, print, ◌>>=◌, ◌>>◌}
use wlr_remote.Network.Receive.{net_handle_epoll}
use wlr_remote.Advertise.Types.{Service}
use wlr_remote.Advertise.Respond.{advertise_respond_request}

-- How a part of the loop ends: the loop goes on, or leaves by `goto err_free_all`, or a bound on the
-- rounds of a loop was met.
pub data Step : Type 0 where
  go_on : ClientState → Step
  failed : ClientState → Step
  unfinished : Step

-- MAX_EVENTS.
abbrev pub max_events : ℕ
max_events = 5

-- The variables of `main` that the loop reads.
pub record Context : Type 0 where
  pub wl_fd : ℤ
  pub epoll_fd : ℤ
  pub service : Option Service

abbrev pub is_eintr : Errno → Bool
is_eintr eintr = true
is_eintr eagain = false
is_eintr ewouldblock = false
is_eintr enobufs = false
is_eintr (other_error e) = false

module _ (env : Env) where
  -- libwayland calls the registry's listener for each of its events that it reads.
  unfoldable pub announce_globals : List RegistryEvent → ClientState → M ClientState
  announce_globals [] state = pure state
  announce_globals (event ∷ rest) state = do
    state' ← vp_registry_listener env state event
    announce_globals rest state'

  unfoldable pub deliver_globals : ClientState → M ClientState
  deliver_globals state t = announce_globals (env.wl_globals t) state t

  -- `wl_display_dispatch`, and the test of its result.
  unfoldable pub dispatch_display : ClientState → M Step
  dispatch_display state = do
    state' ← deliver_globals state
    r ← perform (λ t. env.wl_dispatch t) wl_dispatch
    pure (if is_neg r then failed state' else go_on state')

  -- On what `net_handle_epoll` returned.
  unfoldable pub after_datagrams : ClientState → Option ℤ → Step
  after_datagrams state none = unfinished
  after_datagrams state (some r) = if is_neg r then failed state else go_on state

  unfoldable pub serve_mdns : ClientState → ℤ → Option Service → M Step
  serve_mdns state event_fd none = pure (go_on state)
  serve_mdns state event_fd (some service) = do
    advertise_respond_request env service event_fd
    pure (go_on state)

  module _ (fuel : ℕ) (ctx : Context) where
    -- The body of the `for` loop.
    unfoldable pub handle_event : ClientState → ℤ → M Step
    handle_event state event_fd =
        if eq_ℤ event_fd ctx.wl_fd
        then dispatch_display state
        else if eq_ℤ event_fd state.socks.v4 || eq_ℤ event_fd state.socks.v6
        then (do r ← net_handle_epoll env fuel state event_fd; pure (after_datagrams state r))
        else serve_mdns state event_fd ctx.service

    -- The rest of the loop, where the last step goes on.
    unfoldable pub handle_events : List ℤ → Step → M Step
    handle_events events (failed state) t = (failed state, t)
    handle_events events unfinished t = (unfinished, t)
    handle_events [] (go_on state) t = (go_on state, t)
    handle_events (event_fd ∷ events) (go_on state) t =
        let (step, t') = handle_event state event_fd t in handle_events events step t'

    -- On what `epoll_wait` reported.
    unfoldable pub after_wait : ClientState → Waited → M Step
    after_wait state (ready events) = handle_events events (go_on state)
    after_wait state (wait_failed e) =
        if is_eintr e
        then pure (go_on state)
        else (do print (perror (codes "epoll_wait")); pure (failed state))

    -- The body of the `while` loop.
    unfoldable pub loop_round : ClientState → M Step
    loop_round state = do
      emit wl_dispatch_pending
      state' ← deliver_globals state
      emit wl_flush
      waited ←
          perform (λ t. env.epoll_wait t ctx.epoll_fd max_events)
            (epoll_wait ctx.epoll_fd max_events)
      after_wait state' waited

    -- `while (!quit)`; `go_on` is the end by `quit`.
    unfoldable pub event_loop : ℕ → Step → M Step
    event_loop rounds (failed state) t = (failed state, t)
    event_loop rounds unfinished t = (unfinished, t)
    event_loop zero (go_on state) t = (unfinished, t)
    event_loop (suc rounds) (go_on state) t = elim (quit_is_set env t) [
      | true ↦ (go_on state, t)
      | false ↦ let (step, t') = loop_round state t in event_loop rounds step t'
    ]
