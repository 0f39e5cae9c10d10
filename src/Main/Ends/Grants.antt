-- ===== src/Main/Ends/Grants.antt =====
-- src/main.c and src/network.c: what a whole run gives tinydtls of the password.
use wlr_remote.Base.{ℕ, ◌≡◌, refl, ap, ◌∙◌, ◌⊎◌, inl, inr, Bytes, List, []}
use wlr_remote.System.Types.{ClientState}
use wlr_remote.System.Event.{Trace}
use wlr_remote.System.Env.{Env}
use wlr_remote.System.Grants.{grants}
use wlr_remote.System.Monad.{returned}
use wlr_remote.Setup.{setup_password}
use wlr_remote.Network.Callbacks.Grants.{run_callbacks-AllGranted, Keyed, AllGranted}
use wlr_remote.Network.Receive.Grants.{net_handle_epoll-AllGranted}
use wlr_remote.Advertise.Service.{advertise_create_service}
use wlr_remote.Main.Cleanup.{err_free_virtual_pointer, err_free_registry}
use wlr_remote.Main.Loop.Settings.{deliver_globals-settings}
use wlr_remote.Main.Served.Invariant.{Invariant}
use wlr_remote.Main.Served.Parts.{start_service-Holds}
use wlr_remote.Main.Served.Silent.{net_setup_udp_sockets-silent, net_setup_epoll-silent}
use wlr_remote.Main.Served.Serving.{deliver_globals-silent}
use wlr_remote.Main.Served.Start.{start-silent, advertise_create_service-silent}
use wlr_remote.Main.Walk.{Walk, port_of, signalled, opened, handled, main-Ended}
use wlr_remote.Main.Program.{initial_state, main}

-- The credentials are the key's, as long as the state has the key.
abbrev granting : (env : Env) → Bytes → ℕ → Invariant env
granting env key len = record {
  Fit = Keyed key len;
  Holds = AllGranted key len;
  by_globals = λ state t (same_key, same_len).
      let same = deliver_globals-settings env state t in
      (ap (λ x. x.0) same ∙ same_key, ap (λ x. x.1) same ∙ same_len);
  by_view = λ t t' e h. rw (ap (λ x. x.6) e) h;
  by_epoll = λ state fuel fd t fit h. net_handle_epoll-AllGranted env state fit fuel fd t h;
  by_callbacks = λ state rounds t fit h. run_callbacks-AllGranted env state fit rounds t h;
}

module _ (env : Env) (argv : List Bytes) where
  -- Nothing was given; or it was only given the password that was read, where it was to be.
  abbrev pub IsGuarded : Trace → Type 0
  IsGuarded t =
      (grants t ≡ [])
      ⊎ ((key : Bytes) × (len : ℕ) × ((setup_password env (signalled argv)).0 ≡ returned (key, len))
          × AllGranted key len t)

  -- While the program has a key and nothing was given.
  abbrev Ready : ClientState → Trace → Type 0
  Ready state t =
      ((setup_password env (signalled argv)).0 ≡ returned (state.psk_key, state.psk_key_len))
      × (grants t ≡ [])

module _ (env : Env) (fuel : ℕ) (argv : List Bytes) where
  guarded_walk : Walk env fuel argv
  unfolding err_free_virtual_pointer err_free_registry
  guarded_walk = record {
    Started = λ t. grants t ≡ [];
    Opened = Ready env argv;
    Pointed = Ready env argv;
    Bound = Ready env argv;
    Watching = λ epoll_fd. Ready env argv;
    Ended = λ c. IsGuarded env argv c.1;
    start = ap (λ x. x.0.6) (start-silent env argv);
    no_password = λ status t u e h. inl h;
    no_display = λ t e h. inl h;
    look_up = λ key len t read e h.
        let state = initial_state key len in
        let same = deliver_globals-settings env state (opened env t) in
        (
          rw (ap (λ x. x.0) same, ap (λ x. x.1) same) (ap (λ x. x.0) read),
          ap (λ x. x.0.6) (deliver_globals-silent env state (opened env t)) ∙ h,
        );
    no_globals = λ state t h. inl h.1;
    point = λ state t h. h;
    no_display_fd = λ state t h. inl h.1;
    bind = λ state t h. (
      h.0,
      ap (λ x. x.0.6) (net_setup_udp_sockets-silent env state.socks (port_of argv) t) ∙ h.1,
    );
    no_sockets = λ state t h. inl h.1;
    no_epoll_set =
        λ wl_fd state t h. inl (ap (λ x. x.0.6) (net_setup_epoll-silent env state wl_fd t) ∙ h.1);
    watch = λ wl_fd state t display h set_up.
        (h.0, ap (λ x. x.0.6) (net_setup_epoll-silent env state wl_fd t) ∙ h.1);
    no_context = λ epoll_fd state t h. inl h.1;
    serve = λ wl_fd epoll_fd state t h.
        let (service, u) = advertise_create_service env (port_of argv) (handled t) in
        let none_yet : grants u ≡ [] =
          ap (λ x. x.0.6) (advertise_create_service-silent env (port_of argv) (handled t)) ∙ h.1 in
        let key = state.psk_key in
        let len = state.psk_key_len in
        inr (
          key,
          len,
          h.0,
          start_service-Holds env (granting env key len) fuel wl_fd epoll_fd (port_of argv) state
              service u (refl, refl) (rw none_yet tt),
        );
  }

  -- In a run of the program, cut off after any number of rounds or complete: nothing was given to
  -- tinydtls as a credential; or a password was read, and whenever bytes were given, the call asked for
  -- the key under the program's identity, with room for the key, and they are that password.
  pub main-IsGuarded : IsGuarded env argv (main env fuel argv []).1
  unfolding guarded_walk
  main-IsGuarded = main-Ended env fuel argv guarded_walk
