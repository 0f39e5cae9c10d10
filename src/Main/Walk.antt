-- ===== src/Main/Walk.antt =====
-- src/main.c, `main`: the stages of a run up to the loop, for a statement that each of them keeps.
use wlr_remote.Base.{
  ℕ, ◌≡◌, refl, true, false, ◌||◌, some, Bytes, List, [], ◌∷◌, ◌==◌, Bool-cases, inl, inr, ℤ,
  is_neg,
}
use wlr_remote.System.Types.{ClientState}
use wlr_remote.System.Event.{
  Trace, log, cannot_open_display, no_protocol, no_dtls_context, dtls_init, dtls_new_context,
  dtls_set_handler, wl_connect, wl_get_registry, wl_add_listener, wl_roundtrip,
  create_virtual_pointer,
}
use wlr_remote.System.Env.{Env}
use wlr_remote.System.Monad.{Run, returned, exited}
use wlr_remote.Setup.{setup_parse_port, setup_signals, setup_password, exit_failure}
use wlr_remote.Network.Sockets.{net_setup_udp_sockets}
use wlr_remote.Network.Epoll.{net_setup_epoll}
use wlr_remote.Advertise.Service.{advertise_create_service}
use wlr_remote.Main.Loop.{deliver_globals}
use wlr_remote.Main.Cleanup.{err_free_registry, err_free_virtual_pointer}
use wlr_remote.Main.Program.{
  Status, ends, initial_state, start_service, start_dtls, setup_descriptors, create_pointer,
  open_display, with_password, main,
}

-- The trace in which the globals are awaited.
abbrev pub opened : Env → Trace → Trace
opened env t = wl_roundtrip ∷ wl_add_listener ∷ wl_get_registry ∷ wl_connect (env.wl_connect t) ∷ t

-- The trace in which the service is made.
abbrev pub handled : Trace → Trace
handled t = dtls_set_handler ∷ dtls_new_context true ∷ dtls_init ∷ t

-- The port that the arguments give, and the trace in which the password is asked for.
abbrev pub port_of : List Bytes → ℕ
port_of argv = (setup_parse_port argv []).0

abbrev pub signalled : List Bytes → Trace
signalled argv = (setup_signals (setup_parse_port argv []).1).1

-- What holds at each stage of a run, and at its end: the laws lead from one stage to the next, or
-- through one of the exits to the end. The last law takes the service and the loop in one step.
pub record Walk (env : Env) (fuel : ℕ) (argv : List Bytes) : Type 1 where
  -- Nothing is open.
  pub Started : Trace → Type 0
  -- The connection and the registry are there; then the pointer, the sockets, the epoll set.
  pub Opened : ClientState → Trace → Type 0
  pub Pointed : ClientState → Trace → Type 0
  pub Bound : ClientState → Trace → Type 0
  pub Watching : ℤ → ClientState → Trace → Type 0
  pub Ended : Status × Trace → Type 0
  pub start : Started (setup_password env (signalled argv)).1
  pub no_password :
      (status : ℕ) (t u : Trace)
      → setup_password env t ≡ (exited status, u)
      → Started u
      → Ended (some status, u)
  pub no_display :
      (t : Trace)
      → (env.wl_connect t == 0) ≡ true
      → Started t
      → Ended (some exit_failure, log cannot_open_display ∷ wl_connect (env.wl_connect t) ∷ t)
  pub look_up :
      (key : Bytes) (len : ℕ) (u : Trace)
      → setup_password env (signalled argv) ≡ (returned (key, len), u)
      → (env.wl_connect u == 0) ≡ false
      → Started u
      → let (state, v) = deliver_globals env (initial_state key len) (opened env u) in
        Opened state v
  pub no_globals :
      (state : ClientState) (t : Trace)
      → Opened state t
      → Ended (ends (err_free_registry false) (log no_protocol ∷ t))
  pub point :
      (state : ClientState) (t : Trace)
      → Opened state t
      → let pointer = env.create_virtual_pointer t state.pointer_manager state.seat in
        Pointed (record state { virtual_pointer = pointer }) (create_virtual_pointer pointer ∷ t)
  pub no_display_fd :
      (state : ClientState) (t : Trace)
      → Pointed state t
      → Ended (ends (err_free_virtual_pointer state false) t)
  pub bind :
      (state : ClientState) (t : Trace)
      → Pointed state t
      → let ((made, socks), u) = net_setup_udp_sockets env state.socks (port_of argv) t in
        Bound (record state { socks = socks }) u
  pub no_sockets :
      (state : ClientState) (t : Trace)
      → Bound state t
      → Ended (ends (err_free_virtual_pointer state false) t)
  pub no_epoll_set :
      (wl_fd : ℤ) (state : ClientState) (t : Trace)
      → Bound state t
      → Ended (ends (err_free_virtual_pointer state false) (net_setup_epoll env state wl_fd t).1)
  pub watch :
      (wl_fd : ℤ) (state : ClientState) (t : Trace)
      → ((old : ClientState) × (u : Trace) × Pointed old u × (wl_fd ≡ env.wl_get_fd u))
      → Bound state t
      → let (epoll_fd, u) = net_setup_epoll env state wl_fd t in
        is_neg epoll_fd ≡ false → Watching epoll_fd state u
  pub no_context :
      (epoll_fd : ℤ) (state : ClientState) (t : Trace)
      → Watching epoll_fd state t
      → Ended (
          ends
            (err_free_virtual_pointer state false)
            (log no_dtls_context ∷ dtls_new_context false ∷ dtls_init ∷ t))
  pub serve :
      (wl_fd epoll_fd : ℤ) (state : ClientState) (t : Trace)
      → Watching epoll_fd state t
      → let (service, u) = advertise_create_service env (port_of argv) (handled t) in
        Ended (start_service env fuel wl_fd epoll_fd (port_of argv) state service u)

module _ (env : Env) (fuel : ℕ) (argv : List Bytes) (walk : Walk env fuel argv) where
  start_dtls-Ended :
      (wl_fd epoll_fd : ℤ) (state : ClientState) (t : Trace)
      → walk.Watching epoll_fd state t
      → walk.Ended (start_dtls env fuel wl_fd epoll_fd (port_of argv) state t)
  unfolding start_dtls
  start_dtls-Ended wl_fd epoll_fd state t h =
      elim (Bool-cases (env.dtls_new_context (dtls_init ∷ t))) [
        | inl yes' ↦ rw (yes', start_dtls) (walk.serve wl_fd epoll_fd state t h)
        | inr no' ↦ rw (no', start_dtls) (walk.no_context epoll_fd state t h)
      ]

  setup_descriptors-Ended :
      (state : ClientState) (t : Trace)
      → walk.Pointed state t
      → walk.Ended (setup_descriptors env fuel (port_of argv) state t)
  unfolding setup_descriptors
  setup_descriptors-Ended state t h =
      let wl_fd = env.wl_get_fd t in
      let ((made, socks), u) = net_setup_udp_sockets env state.socks (port_of argv) t in
      let state' : ClientState = record state { socks = socks } in
      let at_u : walk.Bound state' u = walk.bind state t h in
      let (epoll_fd, v) = net_setup_epoll env state' wl_fd u in
      elim (Bool-cases (is_neg wl_fd)) [
        | inl bad ↦ rw (bad, setup_descriptors) (walk.no_display_fd state t h)
        | inr good ↦ elim (Bool-cases (is_neg made)) [
          | inl unmade ↦ rw (good, setup_descriptors, unmade) (walk.no_sockets state' u at_u)
          | inr done ↦ elim (Bool-cases (is_neg epoll_fd)) [
            | inl unset ↦
                rw (good, setup_descriptors, done, unset) (walk.no_epoll_set wl_fd state' u at_u)
            | inr set_up ↦
                rw (good, setup_descriptors, done, set_up)
                  (start_dtls-Ended wl_fd epoll_fd state' v
                    (walk.watch wl_fd state' u (state, t, h, refl) at_u set_up))
          ]
        ]
      ]

  create_pointer-Ended :
      (state : ClientState) (t : Trace)
      → walk.Opened state t
      → walk.Ended (create_pointer env fuel (port_of argv) state t)
  unfolding create_pointer
  create_pointer-Ended state t h =
      let pointer = env.create_virtual_pointer t state.pointer_manager state.seat in
      elim (Bool-cases (state.seat == 0 || state.pointer_manager == 0)) [
        | inl missing ↦ rw (missing, create_pointer) (walk.no_globals state t h)
        | inr there ↦
            rw (there, create_pointer)
              (setup_descriptors-Ended (record state { virtual_pointer = pointer })
                (create_virtual_pointer pointer ∷ t) (walk.point state t h))
      ]

  open_display-Ended :
      (key : Bytes) (len : ℕ) (t : Trace)
      → setup_password env (signalled argv) ≡ (returned (key, len), t)
      → walk.Started t
      → walk.Ended (open_display env fuel (port_of argv) (initial_state key len) t)
  unfolding open_display
  open_display-Ended key len t e h =
      let (state, u) = deliver_globals env (initial_state key len) (opened env t) in
      elim (Bool-cases (env.wl_connect t == 0)) [
        | inl no_display ↦ rw (no_display, open_display) (walk.no_display t no_display h)
        | inr display ↦
            rw (display, open_display)
              (create_pointer-Ended state u (walk.look_up key len t e display h))
      ]

  with_password-Ended :
      (password : Run (Bytes × ℕ)) (u : Trace)
      → setup_password env (signalled argv) ≡ (password, u)
      → walk.Started u
      → walk.Ended (with_password env fuel (port_of argv) password u)
  unfolding with_password
  with_password-Ended (exited status) u e h = walk.no_password status (signalled argv) u e h
  with_password-Ended (returned (key, len)) u e h = open_display-Ended key len u e h

-- What holds at the start and is kept from stage to stage holds at the end of a run.
pub main-Ended :
    (env : Env) (fuel : ℕ) (argv : List Bytes) (walk : Walk env fuel argv)
    → walk.Ended (main env fuel argv [])
unfolding main
main-Ended env fuel argv walk =
    let (password, u) = setup_password env (signalled argv) in
    with_password-Ended env fuel argv walk password u refl walk.start
