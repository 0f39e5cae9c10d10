-- ===== src/Packet.antt =====
-- src/common.h `struct mouse_packet` in memory, the reading of a received one in src/network.c,
-- `net_handle_receive`, and the writing of one in src/test-client.c, `main`.
pub mod Layout
pub mod Receive
pub mod RoundTrip
use wlr_remote.Base.{ℕ, ◌++◌, Bytes, length, get_or, ◌==◌, if◌then◌else◌, ℤ, pos, to_i32, to_u32}
use wlr_remote.Libc.ByteOrder.{Endian, load32, load16, store32, store16, ntohl, ntohs, htonl, htons}
use wlr_remote.System.Types.{ClientState, MousePacket}
use wlr_remote.System.Event.{unexpected_size}
use wlr_remote.System.Env.{Env}
use wlr_remote.System.Monad.{M, pure, print, ◌>>◌}
use wlr_remote.Pointer.{vp_handle_packet}

-- `sizeof (struct mouse_packet)`: two 32-bit and two 16-bit fields, with no padding.
abbrev pub sizeof_mouse_packet : ℕ
sizeof_mouse_packet = 12

-- `memcpy (&packet, data, sizeof (packet))`: the fields as the host reads them.
unfoldable pub load_packet : Endian → Bytes → MousePacket
unfolding load32 load16
load_packet e d =
    let at = λ (i : ℕ). get_or d i 0 in
    record {
      dx = to_i32 (load32 e (at 0) (at 1) (at 2) (at 3));
      dy = to_i32 (load32 e (at 4) (at 5) (at 6) (at 7));
      button = load16 e (at 8) (at 9);
      button_state = load16 e (at 10) (at 11);
    }

-- The bytes of a packet in the host's memory.
unfoldable pub store_packet : Endian → MousePacket → Bytes
unfolding store32 store16
store_packet e p =
    store32 e (to_u32 p.dx)
    ++ (store32 e (to_u32 p.dy) ++ (store16 e p.button ++ store16 e p.button_state))

-- The four conversions from network order, field by field.
unfoldable pub packet_to_host : Endian → MousePacket → MousePacket
packet_to_host e p = record {
  dx = to_i32 (ntohl e (to_u32 p.dx));
  dy = to_i32 (ntohl e (to_u32 p.dy));
  button = ntohs e p.button;
  button_state = ntohs e p.button_state;
}

-- The four conversions to network order of the sender.
unfoldable pub packet_to_network : Endian → MousePacket → MousePacket
packet_to_network e p = record {
  dx = to_i32 (htonl e (to_u32 p.dx));
  dy = to_i32 (htonl e (to_u32 p.dy));
  button = htons e p.button;
  button_state = htons e p.button_state;
}

module _ (env : Env) where
  unfoldable pub net_handle_receive : ClientState → Bytes → M ℤ
  net_handle_receive state bytes =
      if length bytes == sizeof_mouse_packet
      then (do
        vp_handle_packet env state
            (packet_to_host env.host_order (load_packet env.host_order bytes))
        pure (pos 0))
      else (do print (unexpected_size (length bytes)); pure (pos 0))
