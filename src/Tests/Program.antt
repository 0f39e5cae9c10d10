-- ===== src/Tests/Program.antt =====
-- A run of the whole program.
use wlr_remote.Base.{
  inl, ◌⊎◌, bytes_eq, ℕ, ◌≡◌, refl, sym, arith, List, Bytes, [], ◌∷◌, ◌++◌, true, none, some, leb,
  pos, if◌then◌else◌,
}
use wlr_remote.Pointer.{codes}
use wlr_remote.Network.Receive.Delivery.{IsServed}
use wlr_remote.Network.Receive.Drained.{ArrivalLaws}
use wlr_remote.Main.Loop.Total.{QuitLaws}
use wlr_remote.Main.Ends.Returns.{main_terminates}
use wlr_remote.Main.Ends.Closes.{Closes, start_service-Closes}
use wlr_remote.Main.Ends.Frees.{main-objects}
use wlr_remote.Main.Ends.Settled.{main-heap, main-live, main-faults}
use wlr_remote.Main.Ends.Retracts.{IsTakenBack}
use wlr_remote.Main.Stages.{serviced}
use wlr_remote.Setup.{sigint, sigterm, handle_signal, exit_failure, default_port}
use wlr_remote.Main.Ends.Status.{IsQuit, main-status}
use wlr_remote.Main.Ends.Farewell.{main-notices}
use wlr_remote.Main.Ends.Grants.{IsGuarded, main-IsGuarded}
use wlr_remote.Network.Callbacks.{psk_id, free_context, run_callbacks, net_dtls_callbacks}
use wlr_remote.Packet.{net_handle_receive, packet_to_host, load_packet}
use wlr_remote.Libc.ByteOrder.{ntohs, ntohl}
use wlr_remote.Pointer.{vp_handle_packet}
use wlr_remote.System.Types.{call_get_psk_info, psk_key}
use wlr_remote.Main.Ends.Traffic.{IsForwarded, main-IsForwarded}
use wlr_remote.System.Types.{call_write}
use wlr_remote.Main.Ends.Attends.{IsAttentive, main-IsAttentive}
use wlr_remote.Main.Ends.Tells.{Tells, main-Tells}
use wlr_remote.Advertise.Strings.Names.{HostnameLaws}
use wlr_remote.Libc.Text.{strlen}
use wlr_remote.System.Descriptors.{live}
use wlr_remote.System.Ledger.{heap, epoll_sets, faults}
use wlr_remote.Main.Program.{
  initial_state, main, start_service, with_password, open_display, create_pointer,
  setup_descriptors, start_dtls, run_loop, after_loop,
}
use wlr_remote.Main.Loop.{deliver_globals, announce_globals, event_loop}
use wlr_remote.Main.Cleanup.{err_free_all, err_free_virtual_pointer, err_free_registry}
use wlr_remote.Advertise.Records.{create_mdns_records, build_additional}
use wlr_remote.Setup.{
  sigint, sigterm, handle_signal, setup_signals, setup_password, setup_parse_port,
}
use wlr_remote.Libc.Text.{fgets, strcspn, line_of}
use wlr_remote.Pointer.{registry_handle_global, vp_registry_listener, registry_handle_global_remove}
use wlr_remote.Network.Sockets.{
  net_setup_udp_sockets, try_addresses, try_address, setup_resolved, port_str,
}
use wlr_remote.Network.Epoll.{net_setup_epoll, epoll_ctl_add, add_sockets, add_socket}
use wlr_remote.Advertise.Service.{
  advertise_create_service, find_interfaces, create_sockets, create_strings, create_buffer,
  advertise_setup_epoll, advertise_announce_service, advertise_announce,
}
use wlr_remote.Advertise.Strings.{
  allocate, create_service_strings, with_hostname, create_service_instance,
  create_qualified_hostname,
}
use wlr_remote.Advertise.Interfaces.{
  get_interfaces, create_mdns_sockets, open_v4, open_v6, visit, visit_all, take_address,
}
use wlr_remote.Main.Served.Whole.{main-IsServed, main-IsPlayed, main-echo_on}
use wlr_remote.System.Types.{ClientState, inet, inet6, ready, global_added, global_removed}
use wlr_remote.System.Event.{
  Trace, dtls_new_context, socket, create_virtual_pointer, wl_get_registry, wl_connect,
}
use wlr_remote.System.Objects.{objects, waits}
use wlr_remote.System.Env.{Env}
use wlr_remote.System.Terminal.{echo_on}
use wlr_remote.Tests.World.{peer, world, move_bytes}
use wlr_remote.Network.Callbacks.Played.{IsPlayed, PlaintextLaws}

-- A compositor with both globals, and a program that nobody quits.
abbrev pub desktop : Env
desktop = record world {
  wl_globals = λ t.
      global_added (record { name = 1; interface = codes "wl_seat"; version = 7 })
      ∷ global_removed 5
      ∷ global_added
          (record { name = 2; interface = codes "zwlr_virtual_pointer_manager_v1"; version = 2 })
      ∷ [];
  signals = λ t. [];
  epoll_wait = λ t ep max. ready (pos 3 ∷ pos 2 ∷ []);
}

main-IsServed_example : IsServed desktop (main desktop 3 (codes "wlr-remote\0" ∷ []) []).1
main-IsServed_example = main-IsServed desktop 3 (codes "wlr-remote\0" ∷ [])

pub desktop-PlaintextLaws : PlaintextLaws desktop
desktop-PlaintextLaws = record {
  plaintext_bytes = λ t s d e. let same : move_bytes ≡ d = cc in rw (sym same) (omega arith);
}

main-IsPlayed_example : IsPlayed desktop (main desktop 3 (codes "wlr-remote\0" ∷ []) []).1
main-IsPlayed_example = main-IsPlayed desktop 3 (codes "wlr-remote\0" ∷ []) desktop-PlaintextLaws

main-echo_on_example : echo_on (main desktop 3 (codes "wlr-remote\0" ∷ []) []).1 ≡ true
main-echo_on_example = main-echo_on desktop 3 (codes "wlr-remote\0" ∷ [])

abbrev pub arguments : List Bytes
arguments = codes "wlr-remote\0" ∷ []

-- The same, where a signal comes while the program waits for the second time.
abbrev leaving : Env
leaving = record desktop { signals = λ t. if leb 2 (waits t) then sigint ∷ [] else [] }

leaving-ArrivalLaws : ArrivalLaws leaving 1
leaving-ArrivalLaws = record { no_more = λ t fd s b e. ground arith }

leaving-QuitLaws : QuitLaws leaving 2
leaving-QuitLaws = record { asked = λ t h. ground arith }

abbrev leaving_status : (status : ℕ) × ((main leaving 3 arguments []).0 ≡ some status)
leaving_status =
    main_terminates leaving 1 2 3 leaving-ArrivalLaws leaving-QuitLaws (omega arith) (omega arith)
      arguments

main-objects_example : objects (main leaving 3 arguments []).1 ≡ (0, 0, 0, 0, 0)
main-objects_example = main-objects leaving 3 arguments leaving_status.0 leaving_status.1

main-heap_example : heap 0 (main leaving 3 arguments []).1 ≡ 0
main-heap_example = main-heap 0 leaving 3 arguments leaving_status.0 leaving_status.1

main-faults_example : faults 0 (main leaving 3 arguments []).1 ≡ 0
main-faults_example = main-faults 0 leaving 3 arguments

main-notices_example : IsTakenBack (serviced leaving arguments).0 (main leaving 3 arguments []).1
main-notices_example = main-notices leaving 3 arguments leaving_status.0 leaving_status.1

-- The same, where the signal comes before the first round.
abbrev leaving_at_once : Env
leaving_at_once = record desktop { signals = λ t. sigterm ∷ [] }

leaves : (main leaving_at_once 1 arguments []).0 ≡ some 0
unfolding main with_password handle_signal setup_password fgets strcspn open_display create_pointer
    deliver_globals announce_globals registry_handle_global vp_registry_listener
    registry_handle_global_remove bytes_eq setup_descriptors net_setup_udp_sockets try_addresses
    try_address net_setup_epoll epoll_ctl_add add_sockets add_socket start_dtls
    advertise_create_service allocate find_interfaces get_interfaces create_sockets
    create_mdns_sockets open_v4 open_v6 create_strings create_service_strings with_hostname
    create_service_instance create_qualified_hostname create_buffer start_service
    advertise_setup_epoll advertise_announce_service advertise_announce run_loop event_loop
    after_loop err_free_all err_free_virtual_pointer err_free_registry setup_parse_port line_of
    setup_resolved port_str free_context run_callbacks net_dtls_callbacks net_handle_receive
    vp_handle_packet packet_to_host ntohs load_packet ntohl visit visit_all take_address
    setup_signals create_mdns_records build_additional
leaves = refl

main-live_example :
    live (pos 4) (main leaving_at_once 1 arguments []).1
    ≡ epoll_sets (pos 4) (main leaving_at_once 1 arguments []).1
main-live_example = main-live 4 leaving_at_once 1 arguments 0 leaves (inl refl)

leaving_at_once-HostnameLaws : HostnameLaws leaving_at_once
unfolding strlen
leaving_at_once-HostnameLaws = record {
  hostname_fits =
      λ t h e. let same : codes "desk" ++ 0 ∷ [] ≡ h = cc in rw (sym same) (omega arith);
}

main-Tells_example : Tells leaving_at_once default_port (main leaving_at_once 1 arguments []).1
unfolding setup_parse_port
main-Tells_example = main-Tells leaving_at_once 1 arguments leaving_at_once-HostnameLaws

-- A tinydtls that asks for the key at each datagram.
abbrev curious : Env
curious = record desktop { dtls_next = λ t. some (call_get_psk_info peer psk_key psk_id 32) }

main-IsGuarded_example : IsGuarded curious arguments (main curious 3 arguments []).1
main-IsGuarded_example = main-IsGuarded curious 3 arguments

-- A tinydtls that answers each datagram with one of its own.
abbrev answering : Env
answering = record desktop { dtls_next = λ t. some (call_write peer (1 ∷ 2 ∷ 3 ∷ [])) }

main-IsForwarded_example : IsForwarded answering arguments (main answering 3 arguments []).1
main-IsForwarded_example = main-IsForwarded answering 3 arguments

main-IsAttentive_example : IsAttentive desktop arguments (main desktop 3 arguments []).1
main-IsAttentive_example = main-IsAttentive desktop 3 arguments

main-status_example :
    (0 ≡ exit_failure) ⊎ IsQuit leaving_at_once 1 0 (main leaving_at_once 1 arguments []).1
main-status_example = main-status leaving_at_once 1 arguments 0 leaves

-- A program with one of each object, and its two sockets.
abbrev set_up : Trace
set_up =
    dtls_new_context true
    ∷ socket inet6 2 17 (pos 5)
    ∷ socket inet 2 17 (pos 4)
    ∷ create_virtual_pointer 9
    ∷ wl_get_registry
    ∷ wl_connect 1
    ∷ []

abbrev running : ClientState
running = record (initial_state (codes "hunter2" ++ 0 ∷ 0 ∷ []) 7) {
  virtual_pointer = 9;
  socks = record { v4 = pos 4; v6 = pos 5 };
}

start_service-Closes_example :
    Closes 4 leaving 3 none running.socks set_up
      (start_service leaving 3 (pos 2) (pos 3) 39076 running none set_up)
start_service-Closes_example =
    start_service-Closes 4 leaving 3 (pos 2) (pos 3) 39076 running none set_up refl
