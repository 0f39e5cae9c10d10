-- ===== src/Tests/Input.antt =====
-- Packets, pointer requests, the port and the password.
use wlr_remote.Base.{
  ◌≡◌, refl, arith, ◌≤◌, ◌&&◌, Bytes, List, [], ◌∷◌, ◌++◌, length, ltb, leb, if◌then◌else◌, pos,
  negsuc,
}
use wlr_remote.Libc.ByteOrder.{little, big, htonl, htons}
use wlr_remote.Libc.Text.{decimal, digits_from, strtol, fgets, strcspn}
use wlr_remote.Pointer.{codes, vp_handle_packet}
use wlr_remote.Pointer.Frames.{phase, between, vp_handle_packet-between}
use wlr_remote.Pointer.Requests.{motion_part, button_part, vp_handle_packet-is_accepted}
use wlr_remote.Packet.{
  load_packet, store_packet, packet_to_host, packet_to_network, sizeof_mouse_packet,
  net_handle_receive,
}
use wlr_remote.Packet.Layout.{IsPacket, network_packet, packet_to_host-load_packet}
use wlr_remote.Packet.RoundTrip.{packet_roundtrip}
use wlr_remote.Packet.Receive.{net_handle_receive-store_packet}
use wlr_remote.Setup.{setup_parse_port, setup_password, default_port, uint16_max}
use wlr_remote.Network.Sockets.{port_str, port_str_size}
use wlr_remote.Network.Sockets.Port.{port_str-setup_parse_port}
use wlr_remote.Setup.Port.{setup_parse_port-decimal}
use wlr_remote.Setup.Password.{line_outcome, IsKey, setup_password-line, setup_password-IsKey}
use wlr_remote.System.Types.{ClientState, MousePacket}
use wlr_remote.System.Event.{log, pointer_frame, pointer_motion, pointer_button, invalid_port}
use wlr_remote.System.Monad.{returned}
use wlr_remote.System.Descriptors.{no_sockets}
use wlr_remote.Tests.World.{world, world-FixedLaws, move_bytes}

abbrev client : ClientState
client = record {
  seat = 1;
  pointer_manager = 2;
  virtual_pointer = 9;
  socks = no_sockets;
  psk_key = codes "hunter2";
  psk_key_len = 7;
}

-- A press of the left button while moving up and to the right.
abbrev press : MousePacket
press = record { dx = pos 10; dy = negsuc 4; button = 272; button_state = 1 }

abbrev wrong_state : MousePacket
wrong_state = record press { button_state = 2 }

-- What `main` of src/test-client.c sends, as a little-endian host writes it.
move_runs :
    store_packet little
      (packet_to_network little (record { dx = pos 10; dy = pos 10; button = 0; button_state = 0 }))
    ≡ move_bytes
unfolding store_packet packet_to_network htonl htons
move_runs = refl

press_runs :
    (vp_handle_packet world client press []).1
    ≡ pointer_frame 9 ∷ pointer_motion 9 0 (pos 2560) (negsuc 1279) ∷ pointer_button 9 0 272 1 ∷ []
unfolding vp_handle_packet
press_runs = refl

press-IsPacket : IsPacket press
press-IsPacket = record {
  dx_range = omega arith;
  dy_range = omega arith;
  button_range = omega arith;
  state_range = omega arith;
}

packet_roundtrip_example :
    (length (store_packet big (packet_to_network big press)) ≡ sizeof_mouse_packet)
    × (packet_to_host little (load_packet little (store_packet big (packet_to_network big press)))
        ≡ press)
packet_roundtrip_example = packet_roundtrip press press-IsPacket big little

packet_to_host-load_packet_example :
    packet_to_host big (load_packet big move_bytes) ≡ network_packet move_bytes
packet_to_host-load_packet_example = packet_to_host-load_packet big move_bytes (omega arith)

net_handle_receive-store_packet_example :
    net_handle_receive world client (store_packet big (packet_to_network big press)) []
    ≡ (pos 0, (vp_handle_packet world client press []).1)
net_handle_receive-store_packet_example =
    net_handle_receive-store_packet world client press big [] press-IsPacket

vp_handle_packet-between_example : phase (vp_handle_packet world client press []).1 ≡ between
vp_handle_packet-between_example = vp_handle_packet-between world client press [] refl

vp_handle_packet-is_accepted_example :
    (vp_handle_packet world client press []).1
    ≡ pointer_frame 9 ∷ motion_part world client press ++ (button_part world client press ++ [])
vp_handle_packet-is_accepted_example =
    vp_handle_packet-is_accepted world client press [] world-FixedLaws (omega arith) (omega arith)
      refl

abbrev arguments : List Bytes
arguments = codes "wlr-remote\0" ∷ (decimal 12345 ++ 0 ∷ []) ∷ []

port_runs : setup_parse_port arguments [] ≡ (12345, [])
unfolding setup_parse_port decimal digits_from strtol
port_runs = refl

port_str-setup_parse_port_example :
    let port = (setup_parse_port arguments []).0 in
    (length (port_str port) ≤ port_str_size) × (strtol (port_str port) ≡ pos port)
port_str-setup_parse_port_example = port_str-setup_parse_port arguments []

setup_parse_port-decimal_example : setup_parse_port arguments [] ≡ (
    if ltb 0 12345 && leb 12345 uint16_max
    then (12345, [])
    else (default_port, log (invalid_port (decimal 12345 ++ 0 ∷ [])) ∷ []))
setup_parse_port-decimal_example =
    setup_parse_port-decimal (codes "wlr-remote\0") 12345 [] [] (omega arith)

pub password_runs : (setup_password world []).0 ≡ returned (codes "hunter2" ++ 0 ∷ 0 ∷ [], 7)
unfolding setup_password fgets strcspn
password_runs = refl

setup_password-line_example : (setup_password world []).0 ≡ line_outcome world (codes "hunter2")
setup_password-line_example =
    setup_password-line world (codes "hunter2") [] [] (omega arith) (λ u. refl)

setup_password-IsKey_example : IsKey world (codes "hunter2" ++ 0 ∷ 0 ∷ []) 7
setup_password-IsKey_example =
    setup_password-IsKey world [] (codes "hunter2" ++ 0 ∷ 0 ∷ []) 7 password_runs
