-- ===== src/Packet/Layout.antt =====
-- The wire format of a packet: twelve bytes in network order, whatever the byte order of the hosts.
use wlr_remote.Base.{
  ℕ, zero, suc, ◌^◌, ◌<◌, ◌≡◌, ap, [], ◌∷◌, Bytes, IsByte, arith, get_or, All, to_i32, to_u32,
  IsInt32, to_u32-to_i32,
}
use wlr_remote.Libc.ByteOrder.{
  Endian, little, big, load32, ntohl, network32, network16, ntohl-load32, ntohs-load16,
}
use wlr_remote.System.Types.{MousePacket}
use wlr_remote.Packet.{load_packet, packet_to_host}

-- A packet whose fields are in the range of their types.
pub record IsPacket (p : MousePacket) : Type 0 where
  pub dx_range : IsInt32 p.dx
  pub dy_range : IsInt32 p.dy
  pub button_range : p.button < 2 ^ 16
  pub state_range : p.button_state < 2 ^ 16

-- The packet that twelve bytes in network order stand for.
abbrev pub network_packet : Bytes → MousePacket
network_packet d =
    let at = λ (i : ℕ). get_or d i 0 in
    record {
      dx = to_i32 (network32 (at 0) (at 1) (at 2) (at 3));
      dy = to_i32 (network32 (at 4) (at 5) (at 6) (at 7));
      button = network16 (at 8) (at 9);
      button_state = network16 (at 10) (at 11);
    }

load32-lt :
    (e : Endian) (a b c d : ℕ)
    → IsByte a
    → IsByte b
    → IsByte c
    → IsByte d
    → load32 e a b c d < 2 ^ 32
unfolding load32
load32-lt little a b c d ha hb hc hd = omega arith
load32-lt big a b c d ha hb hc hd = omega arith

field32 :
    (e : Endian) (a b c d : ℕ)
    → IsByte a
    → IsByte b
    → IsByte c
    → IsByte d
    → to_i32 (ntohl e (to_u32 (to_i32 (load32 e a b c d)))) ≡ to_i32 (network32 a b c d)
field32 e a b c d ha hb hc hd =
    rw (to_u32-to_i32 (load32 e a b c d) (load32-lt e a b c d ha hb hc hd))
      (ap to_i32 (ntohl-load32 e a b c d ha hb hc hd))

get_or-IsByte : (d : Bytes) (i : ℕ) → All IsByte d → IsByte (get_or d i 0)
get_or-IsByte [] i h = omega arith
get_or-IsByte (x ∷ d) zero h = h.0
get_or-IsByte (x ∷ d) (suc i) h = get_or-IsByte d i h.1

-- If all elements of a datagram are bytes, a little-endian and a big-endian host alike read from it
-- the packet that its bytes stand for in network order.
pub packet_to_host-load_packet :
    (e : Endian) (d : Bytes) → All IsByte d → packet_to_host e (load_packet e d) ≡ network_packet d
unfolding packet_to_host load_packet
packet_to_host-load_packet e d h =
    let at = λ (i : ℕ). get_or-IsByte d i h in
    λ i. record {
      dx = field32 e _ _ _ _ (at 0) (at 1) (at 2) (at 3) i;
      dy = field32 e _ _ _ _ (at 4) (at 5) (at 6) (at 7) i;
      button = ntohs-load16 e _ _ (at 8) (at 9) i;
      button_state = ntohs-load16 e _ _ (at 10) (at 11) i;
    }
