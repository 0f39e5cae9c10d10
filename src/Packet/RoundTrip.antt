-- ===== src/Packet/RoundTrip.antt =====
-- A packet written by one host and read by another, whatever their byte orders.
use wlr_remote.Base.{
  ℕ, ◌/◌, ◌%◌, ◌^◌, ◌<◌, ◌≡◌, refl, ◌∙◌, ap, [], ◌∷◌, ◌++◌, Bytes, IsByte, arith, length, All,
  to_i32, to_u32, ℤ, IsInt32, to_u32-to_i32, to_i32-to_u32, to_u32-lt,
}
use wlr_remote.Libc.ByteOrder.{
  Endian, little, big, store32, store16, htonl, htons, network32, network16,
}
use wlr_remote.System.Types.{MousePacket}
use wlr_remote.Packet.{
  load_packet, store_packet, packet_to_host, packet_to_network, sizeof_mouse_packet,
}
use wlr_remote.Packet.Layout.{IsPacket, network_packet, packet_to_host-load_packet}

abbrev bytes32 : ℕ → Bytes
bytes32 x = x / 2 ^ 24 ∷ x / 2 ^ 16 % 256 ∷ x / 2 ^ 8 % 256 ∷ x % 256 ∷ []

abbrev bytes16 : ℕ → Bytes
bytes16 x = x / 2 ^ 8 ∷ x % 256 ∷ []

htonl-lt : (e : Endian) (x : ℕ) → x < 2 ^ 32 → htonl e x < 2 ^ 32
unfolding htonl
htonl-lt little x h = omega arith
htonl-lt big x h = h

store32-htonl : (e : Endian) (x : ℕ) → x < 2 ^ 32 → store32 e (htonl e x) ≡ bytes32 x
unfolding store32 htonl
store32-htonl little x h = ground arith
store32-htonl big x h = ground arith

store16-htons : (e : Endian) (x : ℕ) → x < 2 ^ 16 → store16 e (htons e x) ≡ bytes16 x
unfolding store16 htons
store16-htons little x h = ground arith
store16-htons big x h = ground arith

-- The twelve bytes of a packet on the wire.
abbrev wire_bytes : MousePacket → Bytes
wire_bytes p =
    bytes32 (to_u32 p.dx) ++ (bytes32 (to_u32 p.dy) ++ (bytes16 p.button ++ bytes16 p.button_state))

field-store32 :
    (e : Endian) (x : ℕ) → x < 2 ^ 32 → store32 e (to_u32 (to_i32 (htonl e x))) ≡ bytes32 x
field-store32 e x h = rw (to_u32-to_i32 (htonl e x) (htonl-lt e x h)) (store32-htonl e x h)

read_back :
    (z : ℤ)
    → IsInt32 z
    → to_i32 (
        network32
          (to_u32 z / 2 ^ 24)
          (to_u32 z / 2 ^ 16 % 256)
          (to_u32 z / 2 ^ 8 % 256)
          (to_u32 z % 256))
      ≡ z
read_back z h =
    let whole : network32 (to_u32 z / 2 ^ 24) (to_u32 z / 2 ^ 16 % 256) (to_u32 z / 2 ^ 8 % 256)
          (to_u32 z % 256)
        ≡ to_u32 z =
      omega arith in
    ap to_i32 whole ∙ to_i32-to_u32 z h

read_back16 : (x : ℕ) → network16 (x / 2 ^ 8) (x % 256) ≡ x
read_back16 x = omega arith

module _ (p : MousePacket) (range : IsPacket p) where
  store_packet-wire_bytes : (e : Endian) → store_packet e (packet_to_network e p) ≡ wire_bytes p
  unfolding store_packet packet_to_network
  store_packet-wire_bytes e = rw (
    field-store32 e (to_u32 p.dx) (to_u32-lt p.dx range.dx_range),
    field-store32 e (to_u32 p.dy) (to_u32-lt p.dy range.dy_range),
    store16-htons e p.button range.button_range,
    store16-htons e p.button_state range.state_range,
  )

  wire_bytes-IsByte : All IsByte (wire_bytes p)
  wire_bytes-IsByte = omega (arith, to_u32-lt p.dx range.dx_range, to_u32-lt p.dy range.dy_range)

  network_packet-wire_bytes : network_packet (wire_bytes p) ≡ p
  network_packet-wire_bytes = λ i. record {
    dx = read_back p.dx range.dx_range i;
    dy = read_back p.dy range.dy_range i;
    button = read_back16 p.button i;
    button_state = read_back16 p.button_state i;
  }

  -- If each field of a packet fits its width, the bytes that a sender of any byte order writes have
  -- the size of a packet, and a receiver of any byte order reads the same packet from them.
  pub packet_roundtrip :
      (sender receiver : Endian)
      → (length (store_packet sender (packet_to_network sender p)) ≡ sizeof_mouse_packet)
        × (packet_to_host receiver
              (load_packet receiver (store_packet sender (packet_to_network sender p)))
            ≡ p)
  packet_roundtrip sender receiver = rw (store_packet-wire_bytes sender) (
    refl,
    packet_to_host-load_packet receiver (wire_bytes p) wire_bytes-IsByte
        ∙ network_packet-wire_bytes,
  )
