-- ===== src/Libc/Decimal.antt =====
-- The decimal digits that `%hu` writes are read back by `strtol`.
use mathlib.Core.List.{append_assoc}
use native.Mathlib.Nat.{pow-suc}
use wlr_remote.Base.{
  ℕ, zero, suc, ◌+◌, ◌/◌, ◌%◌, ◌^◌, ◌≤◌, ◌<◌, ◌≡◌, ap, ◌∙◌, inl, inr, true, [], ◌∷◌, ◌++◌, Bytes,
  arith, ltb, Bool-cases, length, length-append, pos,
}
use wlr_remote.Libc.Text.{digits_from, decimal, is_digit, digits_value, strtol}

abbrev StartsDigit : Bytes → Type 0
StartsDigit [] = ⊥
StartsDigit (c ∷ s) = is_digit c ≡ true

StartsDigit-append : (s t : Bytes) → StartsDigit s → StartsDigit (s ++ t)
StartsDigit-append [] t h = elim h [ ]
StartsDigit-append (c ∷ s) t h = h

digits_from-StartsDigit : (fuel n : ℕ) → n < fuel → StartsDigit (digits_from fuel n)
unfolding digits_from
digits_from-StartsDigit zero n h = elim h [ ]
digits_from-StartsDigit (suc fuel) n h = elim (Bool-cases (ltb n 10)) [
  | inl small ↦ rw small (ground arith)
  | inr large ↦ rw large (
      StartsDigit-append (digits_from fuel (n / 10)) _
        (digits_from-StartsDigit fuel (n / 10) (ground arith)))
]

digits_value-digits_from :
    (fuel n : ℕ) (rest : Bytes)
    → n < fuel
    → digits_value 0 (digits_from fuel n ++ rest) ≡ digits_value n rest
unfolding digits_from digits_value
digits_value-digits_from zero n rest h = elim h [ ]
digits_value-digits_from (suc fuel) n rest h = elim (Bool-cases (ltb n 10)) [
  | inl small ↦ rw small (ground arith)
  | inr large ↦
      rw (large, append_assoc)
        (digits_value-digits_from fuel (n / 10) ((48 + n % 10) ∷ rest) (ground arith)
          ∙ ground arith)
]

strtol-StartsDigit :
    (s : Bytes) → StartsDigit s → digits_value 0 s < 2 ^ 63 → strtol s ≡ pos (digits_value 0 s)
unfolding strtol
strtol-StartsDigit [] d h = elim d [ ]
strtol-StartsDigit (c ∷ s) d h = ground arith

decimal-StartsDigit : (n : ℕ) → StartsDigit (decimal n)
unfolding decimal
decimal-StartsDigit n = digits_from-StartsDigit (suc n) n (omega arith)

digits_value-decimal : (n : ℕ) (rest : Bytes) → digits_value 0 (decimal n ++ 0 ∷ rest) ≡ n
unfolding decimal digits_value
digits_value-decimal n rest = digits_value-digits_from (suc n) n (0 ∷ rest) (omega arith)

-- `strtol` reads a number back from its digits, and stops at the terminator behind them.
pub strtol-decimal : (n : ℕ) (rest : Bytes) → n < 2 ^ 63 → strtol (decimal n ++ 0 ∷ rest) ≡ pos n
strtol-decimal n rest h =
    strtol-StartsDigit (decimal n ++ 0 ∷ rest)
      (StartsDigit-append (decimal n) _ (decimal-StartsDigit n)) (rw digits_value-decimal h)
    ∙ ap pos (digits_value-decimal n rest)

digits_from-length : (fuel n k : ℕ) → n < 10 ^ suc k → length (digits_from fuel n) ≤ suc k
unfolding digits_from
digits_from-length zero n k h = omega arith
digits_from-length (suc fuel) n zero h = ground arith
digits_from-length (suc fuel) n (suc k) h = ground (
  arith,
  pow-suc 10 (suc k),
  digits_from-length fuel (n / 10) k,
  length-append (digits_from fuel (n / 10)) ((48 + n % 10) ∷ []),
)

-- Five digits are enough for a 16-bit number.
pub length-decimal : (n : ℕ) → n < 2 ^ 16 → length (decimal n) ≤ 5
unfolding decimal
length-decimal n h = digits_from-length (suc n) n 4 (omega arith)
