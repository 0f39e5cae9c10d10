-- ===== src/Tests/Net.antt =====
-- Sockets, the epoll set, and the traffic with tinydtls.
use wlr_remote.Base.{
  ◌+◌, ◌≡◌, ◌≤◌, ◌↔◌, refl, arith, ◌⊎◌, false, true, some, none, [], ◌∷◌, ◌++◌, if◌then◌else◌, ℤ,
  pos, negsuc, minus_one, is_neg,
}
use wlr_remote.Libc.ByteOrder.{ntohs, ntohl}
use wlr_remote.Pointer.{codes, vp_handle_packet}
use wlr_remote.Packet.{net_handle_receive, packet_to_host, load_packet}
use wlr_remote.System.Types.{ClientState, psk_key, inet, inet6, gai_failed}
use wlr_remote.System.Event.{
  Trace, log, socket, getaddrinfo, gai_strerror, received_alert, perror, no_client_address,
}
use wlr_remote.System.Env.{Env}
use wlr_remote.System.Descriptors.{live, holds, mark, no_sockets}
use wlr_remote.Network.Sockets.{setup_resolved, port_str, net_setup_udp_sockets}
use wlr_remote.Network.Sockets.Owned.{net_setup_udp_sockets-holds}
use wlr_remote.Network.Sockets.Ready.{IsReady, net_setup_udp_sockets-IsReady}
use wlr_remote.Network.Epoll.{
  net_setup_epoll, watched, net_setup_epoll-watched, net_setup_epoll-live, epoll_ctl_add,
  add_sockets, add_socket,
}
use wlr_remote.Network.Callbacks.{
  print_event, net_handle_send, net_handle_event, net_get_psk_info, psk_id, dtls_handle_message,
  run_callbacks, net_dtls_callbacks,
}
use wlr_remote.Network.Callbacks.Send.{IsDelivered, net_handle_send-IsDelivered}
use wlr_remote.Network.Callbacks.Credentials.{HasKey, net_get_psk_info_iff}
use wlr_remote.Network.Receive.{net_handle_epoll, receive_round, handle_received}
use wlr_remote.Network.Receive.Delivery.{IsServed, net_handle_epoll-IsServed}
use wlr_remote.Network.Receive.Drained.{net_handle_epoll-total}
use wlr_remote.Tests.World.{
  world, world-SocketLaws, world-ResolvedLaws, world-SendLaws, world-AlertLaws, world-ArrivalLaws,
  peer,
}

abbrev client : ClientState
client = record {
  seat = 1;
  pointer_manager = 2;
  virtual_pointer = 9;
  socks = record { v4 = pos 4; v6 = pos 5 };
  psk_key = codes "hunter2" ++ 0 ∷ 0 ∷ [];
  psk_key_len = 7;
}

client-HasKey : HasKey client
client-HasKey = record { in_buffer = omega arith; fits_int = omega arith }

abbrev offline : Env
offline = record world { getaddrinfo = λ t p. gai_failed (negsuc 2) }

net_setup_udp_sockets-holds_example :
    let ((result, socks), t) = net_setup_udp_sockets world no_sockets 39076 [] in
    live (pos 3) t ≡ 0 + holds (pos 3) socks
net_setup_udp_sockets-holds_example = net_setup_udp_sockets-holds 3 world 39076 []

net_setup_udp_sockets-IsReady_example :
    let ((result, socks), t) = net_setup_udp_sockets world no_sockets 39076 [] in IsReady socks t
net_setup_udp_sockets-IsReady_example =
    net_setup_udp_sockets-IsReady world world-SocketLaws world-ResolvedLaws 39076 []

-- `gai_strerror` is called with 1, whatever the error is.
offline_runs : net_setup_udp_sockets offline no_sockets 39076 [] ≡ (
  (minus_one, no_sockets),
  log (gai_strerror (pos 1)) ∷ getaddrinfo (port_str 39076) (gai_failed (negsuc 2)) ∷ [],
)
unfolding net_setup_udp_sockets setup_resolved port_str
offline_runs = refl

epoll_runs : (net_setup_epoll world client (pos 2) []).0 ≡ pos 3
unfolding net_setup_epoll epoll_ctl_add add_sockets add_socket
epoll_runs = refl

epoll_made : is_neg (net_setup_epoll world client (pos 2) []).0 ≡ false
unfolding net_setup_epoll epoll_ctl_add add_sockets add_socket
epoll_made = refl

epoll_watches :
    watched (net_setup_epoll world client (pos 2) []).0 (net_setup_epoll world client (pos 2) []).1
    ≡ pos 5 ∷ pos 4 ∷ pos 2 ∷ []
epoll_watches = net_setup_epoll-watched world client (pos 2) [] epoll_made

-- A socket that the client holds.
abbrev bound : Trace
bound = socket inet 2 17 (pos 4) ∷ socket inet6 2 17 (pos 5) ∷ []

net_setup_epoll-live_example :
    let (r, t') = net_setup_epoll world client (pos 2) bound in
    live (pos 4) t' ≡ (if is_neg r then 0 else 1 + mark r (pos 4))
net_setup_epoll-live_example = net_setup_epoll-live world client (pos 2) bound 4 (omega arith)

net_handle_send-IsDelivered_example :
    IsDelivered world world-SendLaws client peer
      (1 ∷ 2 ∷ [])
      []
      (some (pos 4))
      (net_handle_send world client peer (1 ∷ 2 ∷ []) [])
net_handle_send-IsDelivered_example =
    net_handle_send-IsDelivered world world-SendLaws client peer (1 ∷ 2 ∷ []) [] (omega arith)

net_get_psk_info_iff_example :
    let (result, written) = net_get_psk_info world client psk_key psk_id 16 in
    ((is_neg result ≡ false) ↔ ((psk_id ≡ psk_id) × (7 ≤ 16)))
    × ((result ≡ pos 7) ⊎ (is_neg result ≡ true))
net_get_psk_info_iff_example =
    net_get_psk_info_iff world client psk_id 16 client-HasKey world-AlertLaws

-- Where the peer's address cannot be converted, the alert is reported with a buffer that nothing was
-- written to.
unwritten_runs : net_handle_event world peer 2 40 [] ≡ (
  pos 0,
  log (received_alert 2 40 none) ∷ log (perror (codes "inet_ntop")) ∷ log no_client_address ∷ [],
)
unfolding net_handle_event print_event
unwritten_runs = refl

empty-IsServed : IsServed world []
empty-IsServed = record { handed = refl; framed = refl }

net_handle_epoll-IsServed_example : IsServed world (net_handle_epoll world 5 client (pos 4) []).1
net_handle_epoll-IsServed_example =
    net_handle_epoll-IsServed world client 5 (pos 4) [] empty-IsServed

net_handle_epoll-total_example :
    (res : ℤ) × ((net_handle_epoll world 2 client (pos 4) []).0 ≡ some res)
net_handle_epoll-total_example =
    net_handle_epoll-total world client 1 2 (pos 4) [] world-ArrivalLaws (omega arith)

-- One datagram is received and handed on, and the next attempt finds the socket empty.
drained_runs : (net_handle_epoll world 5 client (pos 4) []).0 ≡ some (pos 0)
unfolding net_handle_epoll receive_round handle_received dtls_handle_message run_callbacks
    net_dtls_callbacks net_handle_receive vp_handle_packet packet_to_host ntohs load_packet ntohl
drained_runs = refl
