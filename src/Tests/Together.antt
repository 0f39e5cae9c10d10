-- ===== src/Tests/Together.antt =====
-- A run of the client and a run of the server that hears it.
use mathlib.Core.List.{Memᴰ}
use mathlib.Core.List.Memᴰ.{head}
use wlr_remote.Base.{ℕ, ◌≡◌, ◌<◌, refl, [], ◌∷◌, bytes_eq, length, replicate, All}
use wlr_remote.Pointer.{
  registry_handle_global, vp_registry_listener, registry_handle_global_remove, vp_handle_packet,
}
use wlr_remote.Libc.Text.{fgets, strcspn, line_of}
use wlr_remote.Libc.ByteOrder.{ntohl, ntohs, htonl, htons, load32, load16}
use wlr_remote.Packet.{
  net_handle_receive, load_packet, packet_to_host, store_packet, packet_to_network,
}
use wlr_remote.Setup.{setup_signals, setup_password, setup_parse_port}
use wlr_remote.System.Env.{FixedLaws}
use wlr_remote.Pointer.Commands.{requests}
use wlr_remote.Network.Callbacks.Played.{plaintexts}
use wlr_remote.Network.Sockets.{
  net_setup_udp_sockets, try_addresses, try_address, setup_resolved, port_str,
}
use wlr_remote.Network.Epoll.{net_setup_epoll, epoll_ctl_add, add_sockets, add_socket}
use wlr_remote.Network.Callbacks as ServerCallbacks
use wlr_remote.Network.Receive.{net_handle_epoll, receive_round, handle_received}
use wlr_remote.Advertise.Service.{
  advertise_create_service, find_interfaces, create_sockets, create_strings, create_buffer,
  advertise_setup_epoll, advertise_announce_service, advertise_announce,
}
use wlr_remote.Advertise.Strings.{
  allocate, create_service_strings, with_hostname, create_service_instance,
  create_qualified_hostname,
}
use wlr_remote.Advertise.Interfaces.{
  get_interfaces, create_mdns_sockets, open_v4, open_v6, visit, visit_all, take_address,
}
use wlr_remote.Advertise.Records.{create_mdns_records, build_additional}
use wlr_remote.Main.Loop.{
  deliver_globals, announce_globals, event_loop, loop_round, after_wait, handle_events,
  handle_event, dispatch_display, after_datagrams, serve_mdns,
}
use wlr_remote.Main.Program as Server
use wlr_remote.Main.Program.{
  with_password, open_display, create_pointer, setup_descriptors, start_dtls, start_service,
  run_loop, after_loop,
}
use wlr_remote.TestClient.Callbacks.Calm.{writes}
use wlr_remote.TestClient.Callbacks as Client
use wlr_remote.TestClient.Program.{
  cleanup, send_packet, send_packets, handshake, after_handshake, connect_server, create_context,
  open_client, after_lookup, after_password, main,
}
use wlr_remote.TestClient.Program.Drag.{strokes}
use wlr_remote.TestClient.Program.Passed.{main-strokes}
use wlr_remote.Tests.World.{world-FixedLaws, move_bytes}
use wlr_remote.Tests.Program.{desktop, desktop-PlaintextLaws, arguments}
use wlr_remote.Tests.Client.{welcoming, client_runs}

client_wrote : writes (main welcoming 1 []).1 ≡ replicate 50 move_bytes
unfolding main fgets after_password after_lookup open_client create_context connect_server
    Client.dtls_proceeds after_handshake handshake Client.run_callbacks Client.dtls_callbacks
    Client.net_handle_event cleanup send_packets send_packet store_packet packet_to_network htonl
    htons
client_wrote = refl

server_heard : plaintexts (Server.main desktop 2 arguments []).1 ≡ move_bytes ∷ []
unfolding Server.main with_password setup_password fgets strcspn open_display create_pointer
    deliver_globals announce_globals registry_handle_global vp_registry_listener
    registry_handle_global_remove bytes_eq setup_descriptors net_setup_udp_sockets try_addresses
    try_address net_setup_epoll epoll_ctl_add add_sockets add_socket start_dtls
    advertise_create_service allocate find_interfaces get_interfaces create_sockets
    create_mdns_sockets open_v4 open_v6 create_strings create_service_strings with_hostname
    create_service_instance create_qualified_hostname create_buffer start_service
    advertise_setup_epoll advertise_announce_service advertise_announce run_loop event_loop
    after_loop setup_parse_port line_of setup_resolved port_str visit visit_all take_address
    setup_signals create_mdns_records loop_round after_wait handle_events handle_event
    dispatch_display after_datagrams serve_mdns net_handle_epoll receive_round handle_received
    ServerCallbacks.dtls_handle_message ServerCallbacks.run_callbacks
    ServerCallbacks.net_dtls_callbacks net_handle_receive load_packet packet_to_host ntohl ntohs
    load32 load16 vp_handle_packet build_additional
server_heard = refl

heard :
    All
      (λ d. Memᴰ d (writes (main welcoming 1 []).1))
      (plaintexts (Server.main desktop 2 arguments []).1)
heard = rw (server_heard, client_wrote) (head refl, tt)

desktop-FixedLaws : FixedLaws desktop
desktop-FixedLaws = record {
  fixed_zero = world-FixedLaws.fixed_zero;
  fixed_ne_zero = world-FixedLaws.fixed_ne_zero;
}

main-strokes_example :
    let t = (Server.main desktop 2 arguments []).1 in
    (requests t ≡ strokes desktop (length (plaintexts t)))
    × (0 < length (plaintexts t) → ◌≡◌ {A = ℕ} 0 0)
main-strokes_example =
    main-strokes desktop desktop-FixedLaws desktop-PlaintextLaws welcoming arguments 2 1 0
      client_runs heard
