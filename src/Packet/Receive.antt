-- ===== src/Packet/Receive.antt =====
-- src/network.c, `net_handle_receive`: from the bytes of a datagram to the pointer's requests.
use wlr_remote.Base.{◌≡◌, ◌≢◌, Bytes, length, arith, pos, ◌∷◌}
use wlr_remote.Libc.ByteOrder.{Endian}
use wlr_remote.System.Types.{ClientState, MousePacket}
use wlr_remote.System.Event.{Trace, log, unexpected_size}
use wlr_remote.System.Env.{Env}
use wlr_remote.Pointer.{vp_handle_packet}
use wlr_remote.Pointer.Frames.{between, phase, vp_handle_packet-between}
use wlr_remote.Packet.{
  load_packet, store_packet, packet_to_host, packet_to_network, sizeof_mouse_packet,
  net_handle_receive,
}
use wlr_remote.Packet.Layout.{IsPacket}
use wlr_remote.Packet.RoundTrip.{packet_roundtrip}

module _ (env : Env) (state : ClientState) where
  -- If each field of a packet fits its width and a peer of any byte order sends it, the program acts
  -- on what it receives as on that packet, and returns 0.
  pub net_handle_receive-store_packet :
      (p : MousePacket) (sender : Endian) (t : Trace)
      → IsPacket p
      → net_handle_receive env state (store_packet sender (packet_to_network sender p)) t
        ≡ (pos 0, (vp_handle_packet env state p t).1)
  unfolding net_handle_receive
  net_handle_receive-store_packet p sender t range =
      let (size, value) = packet_roundtrip p range sender env.host_order in rw (size, value)

  -- A datagram of any other size than a packet's changes nothing but for a message.
  pub net_handle_receive-unexpected_size :
      (bytes : Bytes) (t : Trace)
      → length bytes ≢ sizeof_mouse_packet
      → net_handle_receive env state bytes t ≡ (pos 0, log (unexpected_size (length bytes)) ∷ t)
  unfolding net_handle_receive
  net_handle_receive-unexpected_size bytes t h = ground arith

  -- Whatever bytes arrive, the requests to the compositor stay whole frames.
  pub net_handle_receive-between :
      (bytes : Bytes) (t : Trace)
      → phase t ≡ between
      → phase (net_handle_receive env state bytes t).1 ≡ between
  unfolding net_handle_receive
  net_handle_receive-between bytes t h = ground (
    arith,
    vp_handle_packet-between env state
        (packet_to_host env.host_order (load_packet env.host_order bytes)) t h,
  )
