-- ===== src/Libc/Text.antt =====
-- Byte strings as the C library reads and writes them: `strcspn`, `strlen`, `fgets`, `snprintf`,
-- the conversion `%hu` and `strtol` in base ten. A buffer is the list of its bytes.
use wlr_remote.Base.{
  ℕ, zero, suc, ◌+◌, ◌-◌, ◌*◌, ◌/◌, ◌%◌, ◌^◌, Bool, ◌&&◌, ◌||◌, Option, none, some, [], ◌∷◌, ◌++◌,
  Bytes, leb, ltb, ◌==◌, if◌then◌else◌, take, ℤ, pos, negsuc,
}

-- The length of the first part of `s` with neither the byte `c` nor the terminator in it.
unfoldable pub strcspn : ℕ → Bytes → ℕ
strcspn c [] = 0
strcspn c (b ∷ s) = if b == 0 || b == c then 0 else suc (strcspn c s)

unfoldable pub strlen : Bytes → ℕ
strlen [] = 0
strlen (b ∷ s) = if b == 0 then 0 else suc (strlen s)

-- What `fgets` takes off the input: at most `n` bytes, and none behind a newline.
unfoldable pub line_of : ℕ → Bytes → Bytes
line_of zero input = []
line_of (suc n) [] = []
line_of (suc n) (b ∷ input) = b ∷ (if b == b'\n' then [] else line_of n input)

-- `fgets (s, size, stdin)`: the buffer's bytes with the terminator, or NULL at the end of the input.
unfoldable pub fgets : ℕ → Bytes → Option Bytes
unfolding line_of
fgets size [] = none
fgets size (b ∷ input) = some (line_of (size - 1) (b ∷ input) ++ 0 ∷ [])

-- `snprintf (s, size, …)` of a text that is already converted.
unfoldable pub snprintf : ℕ → Bytes → Bytes
snprintf size text = take (size - 1) text ++ 0 ∷ []

-- The bytes of a C string, up to its terminator.
unfoldable pub c_string : Bytes → Bytes
c_string [] = []
c_string (b ∷ s) = if b == 0 then [] else b ∷ c_string s

unfoldable pub digits_from : ℕ → ℕ → Bytes
digits_from zero n = []
digits_from (suc fuel) n =
    let higher = digits_from fuel (n / 10) in
    if ltb n 10 then (48 + n) ∷ [] else higher ++ (48 + n % 10) ∷ []

-- `%hu`: the decimal digits. A number has fewer digits than its successor counts.
unfoldable pub decimal : ℕ → Bytes
unfolding digits_from
decimal n = digits_from (suc n) n

abbrev pub is_digit : ℕ → Bool
is_digit c = leb b'0' c && leb c b'9'

abbrev pub is_space : ℕ → Bool
is_space c = c == b' ' || leb b'\t' c && leb c b'\r'

unfoldable pub digits_value : ℕ → Bytes → ℕ
digits_value acc [] = acc
digits_value acc (c ∷ s) = if is_digit c then digits_value (acc * 10 + (c - 48)) s else acc

skip_space : Bytes → Bytes
skip_space [] = []
skip_space (c ∷ s) = if is_space c then skip_space s else c ∷ s

-- A result out of the range of a 64-bit `long` is the nearest bound.
abbrev long_max : ℕ
long_max = 2 ^ 63 - 1

clamp_pos : ℕ → ℤ
clamp_pos n = pos (if leb n long_max then n else long_max)

clamp_neg : ℕ → ℤ
clamp_neg zero = pos 0
clamp_neg (suc n) = negsuc (if leb n long_max then n else long_max)

signed_value : Bytes → ℤ
signed_value [] = pos 0
signed_value (c ∷ s) =
    if c == b'-'
    then clamp_neg (digits_value 0 s)
    else clamp_pos (digits_value 0 (if c == b'+' then s else c ∷ s))

-- `strtol (s, NULL, 10)`.
unfoldable pub strtol : Bytes → ℤ
unfolding skip_space signed_value clamp_pos clamp_neg digits_value
strtol s = signed_value (skip_space s)
