-- ===== src/Libc/ByteOrder.antt =====
-- Integers in memory under either byte order of the host, and `ntohl`, `ntohs`, `htonl`, `htons`.
use wlr_remote.Base.{ℕ, ◌+◌, ◌*◌, ◌/◌, ◌%◌, ◌^◌, ◌≡◌, [], ◌∷◌, Bytes, IsByte, arith}

pub data Endian : Type 0 where
  little big : Endian

abbrev swap32 : ℕ → ℕ
swap32 x = x % 256 * 2 ^ 24 + x / 2 ^ 8 % 256 * 2 ^ 16 + x / 2 ^ 16 % 256 * 2 ^ 8 + x / 2 ^ 24

abbrev swap16 : ℕ → ℕ
swap16 x = x % 256 * 2 ^ 8 + x / 2 ^ 8

-- The value of four, or two, bytes in memory.
unfoldable pub load32 : Endian → ℕ → ℕ → ℕ → ℕ → ℕ
load32 little a b c d = a + b * 2 ^ 8 + c * 2 ^ 16 + d * 2 ^ 24
load32 big a b c d = a * 2 ^ 24 + b * 2 ^ 16 + c * 2 ^ 8 + d

unfoldable pub load16 : Endian → ℕ → ℕ → ℕ
load16 little a b = a + b * 2 ^ 8
load16 big a b = a * 2 ^ 8 + b

-- The bytes of a 32-bit, or 16-bit, value in memory.
unfoldable pub store32 : Endian → ℕ → Bytes
store32 little x = x % 256 ∷ x / 2 ^ 8 % 256 ∷ x / 2 ^ 16 % 256 ∷ x / 2 ^ 24 % 256 ∷ []
store32 big x = x / 2 ^ 24 % 256 ∷ x / 2 ^ 16 % 256 ∷ x / 2 ^ 8 % 256 ∷ x % 256 ∷ []

unfoldable pub store16 : Endian → ℕ → Bytes
store16 little x = x % 256 ∷ x / 2 ^ 8 % 256 ∷ []
store16 big x = x / 2 ^ 8 % 256 ∷ x % 256 ∷ []

unfoldable pub ntohl : Endian → ℕ → ℕ
ntohl little x = swap32 x
ntohl big x = x

unfoldable pub ntohs : Endian → ℕ → ℕ
ntohs little x = swap16 x
ntohs big x = x

unfoldable pub htonl : Endian → ℕ → ℕ
htonl little x = swap32 x
htonl big x = x

unfoldable pub htons : Endian → ℕ → ℕ
htons little x = swap16 x
htons big x = x

-- The value in network order of four bytes.
abbrev pub network32 : ℕ → ℕ → ℕ → ℕ → ℕ
network32 a b c d = a * 2 ^ 24 + b * 2 ^ 16 + c * 2 ^ 8 + d

abbrev pub network16 : ℕ → ℕ → ℕ
network16 a b = a * 2 ^ 8 + b

pub ntohl-load32 :
    (e : Endian) (a b c d : ℕ)
    → IsByte a
    → IsByte b
    → IsByte c
    → IsByte d
    → ntohl e (load32 e a b c d) ≡ network32 a b c d
unfolding ntohl load32
ntohl-load32 little a b c d ha hb hc hd = omega arith
ntohl-load32 big a b c d ha hb hc hd = omega arith

pub ntohs-load16 :
    (e : Endian) (a b : ℕ) → IsByte a → IsByte b → ntohs e (load16 e a b) ≡ network16 a b
unfolding ntohs load16
ntohs-load16 little a b ha hb = omega arith
ntohs-load16 big a b ha hb = omega arith
