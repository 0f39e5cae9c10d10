-- ===== src/Main/Ends/Balance.antt =====
-- src/main.c: the memory and the descriptors from `dtls_init` on, and those that the setup takes.
use wlr_remote.Base.{
  ℕ, ◌+◌, ◌≡◌, refl, ap, ◌∙◌, arith, false, Option, none, some, Bytes, List, ℤ, pos, is_neg,
}
use wlr_remote.System.Types.{ClientState, Sockets}
use wlr_remote.System.Event.{Trace}
use wlr_remote.Base.{◌⊎◌, ◌<◌}
use wlr_remote.System.Env.{Env}
use wlr_remote.System.Descriptors.{live, holds, mark}
use wlr_remote.System.Objects.{objects, contexts_made}
use wlr_remote.System.Ledger.{heap, epoll_sets, ledger, faults}
use wlr_remote.Setup.{setup_parse_port, setup_password, setup_signals}
use wlr_remote.Network.Epoll.{
  net_setup_epoll, epoll_ctl_add, add_sockets, add_socket, err_close_fds,
}
use wlr_remote.Advertise.Types.{Service}
use wlr_remote.Advertise.Service.{advertise_create_service}
use wlr_remote.Advertise.Service.Blocks.{owned}
use wlr_remote.Advertise.Service.Holder.{advertise_create_service-IsHolder}
use wlr_remote.Advertise.Service.Blocks.{service_holds}
use wlr_remote.Main.Cleanup.{err_free_virtual_pointer, err_free_registry, exit_success}
use wlr_remote.Main.Served.Start.{advertise_create_service-silent}
use wlr_remote.Main.Ends.Closes.{Closes, start_service-Closes}
use wlr_remote.Main.Walk.{handled}
use wlr_remote.Main.Program.{start_service}

module _ (n : ℕ) where
  pub setup_parse_port-ledger :
      (argv : List Bytes) (t : Trace) → ledger n (setup_parse_port argv t).1 ≡ ledger n t
  unfolding setup_parse_port
  setup_parse_port-ledger argv t = ground arith

  pub setup_signals-ledger : (t : Trace) → ledger n (setup_signals t).1 ≡ ledger n t
  unfolding setup_signals
  setup_signals-ledger t = refl

  pub setup_password-ledger :
      (env : Env) (t : Trace) → ledger n (setup_password env t).1 ≡ ledger n t
  unfolding setup_password
  setup_password-ledger env t = ground arith

  pub net_setup_epoll-sets :
      (env : Env) (state : ClientState) (fd : ℤ) (t : Trace)
      → is_neg (net_setup_epoll env state fd t).0 ≡ false
      → let (r, u) = net_setup_epoll env state fd t in
        (epoll_sets (pos n) u ≡ epoll_sets (pos n) t + mark r (pos n))
        × (is_neg (env.epoll_create t) ≡ false)
  unfolding net_setup_epoll epoll_ctl_add add_sockets add_socket err_close_fds
  net_setup_epoll-sets env state fd t h = ground arith

  -- Nothing was given back that was not there. Where the program returns, each block is freed; on
  -- success, and wherever there was a context of tinydtls, each descriptor is open as often as an epoll set was made with it.
  unfoldable pub Settled : Option ℕ × Trace → Type 0
  Settled (none, t) = faults n t ≡ 0
  Settled (some status, t) =
      (heap n t ≡ 0)
      × ((status ≡ exit_success) ⊎ (0 < contexts_made t) → live (pos n) t ≡ epoll_sets (pos n) t)
      × (faults n t ≡ 0)

  module _ (env : Env) (fuel : ℕ) where
    -- A label that is reached by an error alone.
    pub err_free_registry-Settled :
        (t : Trace)
        → heap n t ≡ 0
        → faults n t ≡ 0
        → contexts_made t ≡ 0
        → Settled ((some (err_free_registry false t).0, (err_free_registry false t).1))
    unfolding Settled err_free_registry
    err_free_registry-Settled t h f m = (h, (λ e. absurd (ground (arith, e, m))), f)

    pub err_free_virtual_pointer-Settled :
        (state : ClientState) (t : Trace)
        → heap n t ≡ 0
        → faults n t ≡ 0
        → contexts_made t ≡ 0
        → let (status, u) = err_free_virtual_pointer state false t in Settled (some status, u)
    unfolding Settled err_free_virtual_pointer err_free_registry
    err_free_virtual_pointer-Settled state t h f m = (h, (λ e. absurd (ground (arith, e, m))), f)

    -- The service that was made is all that is allocated, and its sockets, those of the state and the
    -- epoll set are all that is open.
    Closes-Settled :
        (service : Option Service) (socks : Sockets) (t : Trace) (c : Option ℕ × Trace)
        → heap n t ≡ owned n service
        → live (pos n) t
          ≡ epoll_sets (pos n) t + (service_holds (pos n) service + holds (pos n) socks)
        → faults n t ≡ 0
        → Closes n env fuel service socks t c
        → Settled c
    unfolding Settled
    Closes-Settled service socks t (none, u) h l f done = done ∙ f
    Closes-Settled service socks t (some status, u) h l f done =
        (omega (arith, done.2), (λ x. omega (arith, done.1, done.3)), omega (arith, done.4))

    pub start_service-Settled :
        (wl_fd epoll_fd : ℤ) (port : ℕ) (state : ClientState) (t : Trace)
        → objects t ≡ (0, 1, 1, 1, 0)
        → heap n t ≡ 0
        → live (pos n) t ≡ epoll_sets (pos n) t + holds (pos n) state.socks
        → faults n t ≡ 0
        → let (service, u) = advertise_create_service env port (handled t) in
          Settled (start_service env fuel wl_fd epoll_fd port state service u)
    start_service-Settled wl_fd epoll_fd port state t o h l f =
        let (service, u) = advertise_create_service env port (handled t) in
        let at_u : objects u ≡ (1, 1, 1, 1, 0) =
          ap (λ x. x.1) (advertise_create_service-silent env port (handled t)) ∙ ground arith in
        let opened = advertise_create_service-IsHolder n env port (handled t) in
        Closes-Settled service state.socks u _ (omega (arith, opened.taken))
          (omega (arith, opened.opened, opened.same_sets)) (opened.no_fault ∙ f)
          (start_service-Closes n env fuel wl_fd epoll_fd port state service u at_u)
