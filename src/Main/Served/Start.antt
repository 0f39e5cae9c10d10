-- ===== src/Main/Served/Start.antt =====
-- src/setup.c, src/advertise.c and the labels of src/main.c: they leave the receiving side alone.
use wlr_remote.Base.{ℕ, ◌≡◌, refl, arith, Bool, Option, none, some, Bytes, List, ◌∙◌, [], ◌∷◌, ℤ}
use wlr_remote.System.Types.{ClientState, Sockets}
use wlr_remote.System.Event.{Trace, sigaction, log, no_interface, no_mdns_socket, no_mdns_strings}
use wlr_remote.System.Env.{Env}
use wlr_remote.Base.{true, ap}
use wlr_remote.System.Terminal.{echo_on}
use wlr_remote.Setup.{
  sigint, sigterm, handle_signal, setup_parse_port, setup_signals, setup_password,
}
use wlr_remote.Network.Epoll.{add_socket, epoll_ctl_add}
use wlr_remote.Advertise.Types.{Service, InterfaceAddrs, new_service}
use wlr_remote.Advertise.Interfaces.{Found, get_interfaces, create_mdns_sockets, open_v4, open_v6}
use wlr_remote.Advertise.Records.{build_additional, create_mdns_records}
use wlr_remote.Advertise.Strings.{
  allocate, create_qualified_hostname, create_service_instance, with_hostname,
  create_service_strings,
}
use wlr_remote.Advertise.Service.{
  close_mdns_socket, destroy_service, advertise_announce, advertise_announce_service,
  advertise_announce_goodbye, err_free_service, create_buffer, create_strings, create_sockets,
  find_interfaces, advertise_create_service, advertise_setup_epoll,
}
use wlr_remote.System.Objects.{waits}
use wlr_remote.System.Controls.{Control, controls}
use wlr_remote.Network.Callbacks.Calm.{free_context-held}
use wlr_remote.Main.Cleanup.{
  stop_service, err_free_all, err_free_virtual_pointer, err_free_registry,
}
use wlr_remote.Main.Served.Silent.{view, silent, hidden, rested}

pub setup_parse_port-silent :
    (argv : List Bytes) (t : Trace) → silent (setup_parse_port argv t).1 ≡ silent t
unfolding setup_parse_port
setup_parse_port-silent argv t = ground arith

-- The handlers are installed, and nothing else was done.
abbrev pub armed_trace : Trace
armed_trace = sigaction sigterm handle_signal ∷ sigaction sigint handle_signal ∷ []

setup_signals-silent :
    (t : Trace) → silent t ≡ silent [] → silent (setup_signals t).1 ≡ silent armed_trace
unfolding setup_signals
setup_signals-silent t e =
    ap
      (λ x.
        (x.0, x.1, x.2, x.3, x.4, x.5, (sigterm, handle_signal) ∷ (sigint, handle_signal) ∷ x.6))
      e

pub destroy_service-hidden : (s : Service) (t : Trace) → hidden (destroy_service s t).1 ≡ hidden t
unfolding destroy_service close_mdns_socket
destroy_service-hidden s t = ground arith

pub announce-rested :
    (s : Service) (t : Trace) → rested (advertise_announce_service s t).1 ≡ rested t
unfolding advertise_announce_service advertise_announce build_additional
announce-rested s t = ground arith

goodbye-rested : (s : Service) (t : Trace) → rested (advertise_announce_goodbye s t).1 ≡ rested t
unfolding advertise_announce_goodbye advertise_announce build_additional
goodbye-rested s t = ground arith

pub stop_service-rested :
    (service : Option Service) (t : Trace) → rested (stop_service service t).1 ≡ rested t
unfolding stop_service
stop_service-rested none t = refl
stop_service-rested (some s) t =
    let u = (advertise_announce_goodbye s t).1 in
    ground (arith, destroy_service-hidden s u, goodbye-rested s t)

abbrev pub waiting : Trace → ℕ × List Control
waiting t = (waits t, controls t)

-- The cleanup waits for nothing, and leaves the epoll sets alone.
pub err_free_all-waits :
    (env : Env) (service : Option Service) (state : ClientState) (success : Bool) (t : Trace)
    → waiting (err_free_all env service state success t).1 ≡ waiting t
unfolding err_free_all err_free_virtual_pointer err_free_registry
err_free_all-waits env service state success t =
    let u = (stop_service service t).1 in
    ground (arith, stop_service-rested service t, free_context-held 0 env state u)

pub announce-view : (s : Service) (t : Trace) → view (advertise_announce_service s t).1 ≡ view t
announce-view s t = ap (λ x. x.0) (announce-rested s t)

pub destroy_service-silent : (s : Service) (t : Trace) → silent (destroy_service s t).1 ≡ silent t
destroy_service-silent s t = ap (λ x. x.0) (destroy_service-hidden s t)

module _ (env : Env) where
  -- The echo is turned on again.
  setup_password-silent :
      (t : Trace) → echo_on t ≡ true → silent (setup_password env t).1 ≡ silent t
  unfolding setup_password
  setup_password-silent t on = ground arith

  -- When the password has been read nothing is open, nobody was told anything, the echo is on, and the
  -- handlers of signals are installed.
  pub start-silent :
      (argv : List Bytes)
      → silent (setup_password env (setup_signals (setup_parse_port argv []).1).1).1
        ≡ silent armed_trace
  start-silent argv =
      let t = (setup_parse_port argv []).1 in
      let before = setup_signals-silent t (setup_parse_port-silent argv []) in
      setup_password-silent (setup_signals t).1 (ap (λ x. x.0.5) before) ∙ before

  get_interfaces-hidden :
      (addrs : InterfaceAddrs) (t : Trace) → hidden (get_interfaces env addrs t).1 ≡ hidden t
  unfolding get_interfaces
  get_interfaces-hidden addrs t = ground arith

  create_mdns_sockets-hidden :
      (socks : Sockets) (addrs : InterfaceAddrs) (found : Found) (t : Trace)
      → hidden (create_mdns_sockets env socks addrs found t).1 ≡ hidden t
  unfolding create_mdns_sockets open_v4 open_v6
  create_mdns_sockets-hidden socks addrs found t = ground arith

  create_service_strings-hidden :
      (s : Service) (t : Trace) → hidden (create_service_strings env s t).1 ≡ hidden t
  unfolding create_service_strings with_hostname create_service_instance create_qualified_hostname
      allocate
  create_service_strings-hidden s t = ground arith

  create_buffer-hidden : (s : Service) (t : Trace) → hidden (create_buffer env s t).1 ≡ hidden t
  unfolding create_buffer allocate err_free_service destroy_service close_mdns_socket
  create_buffer-hidden s t = ground arith

  create_strings-hidden : (s : Service) (t : Trace) → hidden (create_strings env s t).1 ≡ hidden t
  unfolding create_strings err_free_service
  create_strings-hidden s t =
      let ((made, s'), u) = create_service_strings env s t in
      ground (
        arith,
        create_service_strings-hidden s t,
        create_buffer-hidden (create_mdns_records s') u,
        destroy_service-hidden s' (log no_mdns_strings ∷ u),
      )

  create_sockets-hidden :
      (s : Service) (found : Found) (t : Trace) → hidden (create_sockets env s found t).1 ≡ hidden t
  unfolding create_sockets err_free_service
  create_sockets-hidden s found t =
      let ((made, socks, addrs), u) = create_mdns_sockets env s.socks s.addrs found t in
      let s' : Service = record s { socks = socks; addrs = addrs } in
      ground (
        arith,
        create_mdns_sockets-hidden s.socks s.addrs found t,
        create_strings-hidden s' u,
        destroy_service-hidden s' (log no_mdns_socket ∷ u),
      )

  find_interfaces-hidden : (s : Service) (t : Trace) → hidden (find_interfaces env s t).1 ≡ hidden t
  unfolding find_interfaces err_free_service
  find_interfaces-hidden s t =
      let ((addrs, found), u) = get_interfaces env s.addrs t in
      let s' : Service = record s { addrs = addrs } in
      ground (
        arith,
        get_interfaces-hidden s.addrs t,
        create_sockets-hidden s' found u,
        destroy_service-hidden s' (log no_interface ∷ u),
      )

  pub advertise_create_service-hidden :
      (port : ℕ) (t : Trace) → hidden (advertise_create_service env port t).1 ≡ hidden t
  unfolding advertise_create_service allocate
  advertise_create_service-hidden port t =
      let (self, u) = allocate env env.sizeof_service t in
      ground (arith, find_interfaces-hidden (new_service self port) u)

  pub advertise_create_service-silent :
      (port : ℕ) (t : Trace) → silent (advertise_create_service env port t).1 ≡ silent t
  advertise_create_service-silent port t = ap (λ x. x.0) (advertise_create_service-hidden port t)

  pub advertise_setup_epoll-silent :
      (s : Service) (fd : ℤ) (t : Trace) → silent (advertise_setup_epoll env s fd t).1 ≡ silent t
  unfolding advertise_setup_epoll add_socket epoll_ctl_add
  advertise_setup_epoll-silent s fd t = ground arith
