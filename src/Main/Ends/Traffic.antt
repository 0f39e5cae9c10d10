-- ===== src/Main/Ends/Traffic.antt =====
-- src/main.c and src/network.c: what a whole run sends over UDP.
use wlr_remote.Base.{ℕ, ◌≡◌, refl, sym, ap, ◌∙◌, ◌⊎◌, inl, inr, Bytes, List, []}
use wlr_remote.System.Types.{Sockets}
use wlr_remote.System.Event.{Trace}
use wlr_remote.System.Env.{Env}
use wlr_remote.System.Traffic.{traffic, addressed}
use wlr_remote.Network.Callbacks.Traffic.{run_callbacks-IsSent, IsSent}
use wlr_remote.Network.Receive.Traffic.{net_handle_epoll-IsSent}
use wlr_remote.Main.Loop.Settings.{deliver_globals-settings}
use wlr_remote.Main.Served.Invariant.{Invariant}
use wlr_remote.Main.Served.Start.{advertise_create_service-silent}
use wlr_remote.Main.Stages.{run_sockets, bound, watching, serviced, main-staged}
use wlr_remote.Main.Walk.{port_of, handled}
use wlr_remote.Main.Program.{main}
use wlr_remote.Main.Served.Parts.{start_service-Holds}

-- What goes out is what tinydtls wants to go out, as long as the state has the sockets.
abbrev sending : (env : Env) → Sockets → Invariant env
sending env socks = record {
  Fit = λ state. state.socks ≡ socks;
  Holds = IsSent socks;
  by_globals = λ state t fit. ap (λ x. x.2) (deliver_globals-settings env state t) ∙ fit;
  by_view = λ t t' e h. ap (λ x. x.7.0) e ∙ (h ∙ ap (λ x. addressed socks x.7.1) (sym e));
  by_epoll = λ state fuel fd t fit h. net_handle_epoll-IsSent env state fit fuel fd t h;
  by_callbacks = λ state rounds t fit h. run_callbacks-IsSent env state fit rounds t h;
}

module _ (env : Env) (argv : List Bytes) where
  -- Nothing went out, nor was to; or exactly what tinydtls wanted to, on the sockets of this run.
  abbrev pub IsForwarded : Trace → Type 0
  IsForwarded t = (traffic t ≡ ([], [])) ⊎ IsSent (run_sockets env argv) t

-- In a run of the program, cut off after any number of rounds or complete: tinydtls
-- wanted no datagram to go out, and none did; or the datagrams that were handed to the kernel are
-- exactly those that tinydtls wanted to go out to peers of the families IPv4 and IPv6, also when its
-- context was freed, each once and in order, to its peer, on that socket of the peer's family that
-- `net_setup_udp_sockets` returned in this run.
pub main-IsForwarded :
    (env : Env) (fuel : ℕ) (argv : List Bytes) → IsForwarded env argv (main env fuel argv []).1
main-IsForwarded env fuel argv =
    main-staged env fuel argv (λ c. IsForwarded env argv c.1) (λ c h. inl (ap (λ x. (x.2, x.3)) h))
      (λ wl_fd set_up h.
        let socks = run_sockets env argv in
        let (service, u) = serviced env argv in
        let begin : traffic u ≡ ([], []) =
          ap (λ x. x.0.7)
            (advertise_create_service-silent env (port_of argv) (handled (watching env argv).1))
          ∙ ap (λ x. (x.2, x.3)) h in
        inr (
          start_service-Holds env (sending env socks) fuel wl_fd (watching env argv).0
            (port_of argv) (bound env argv).0 service u refl
            (ap (λ x. x.0) begin ∙ ap (λ x. addressed socks x.1) (sym begin))))
