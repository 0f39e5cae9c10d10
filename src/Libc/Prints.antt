-- ===== src/Libc/Prints.antt =====
-- Texts that are printed into a buffer with room for them.
use wlr_remote.Base.{
  ℕ, zero, suc, ◌-◌, ◌≡◌, ◌≤◌, refl, ap, arith, Bytes, [], ◌∷◌, ◌++◌, length, take,
}
use wlr_remote.Libc.Text.{strlen, snprintf, c_string}

pub length-c_string : (h : Bytes) → length (c_string h) ≡ strlen h
unfolding c_string strlen
length-c_string [] = refl
length-c_string (b ∷ h) = ground (arith, length-c_string h)

take-all : (n : ℕ) (s : Bytes) → length s ≤ n → take n s ≡ s
take-all zero [] h = refl
take-all zero (b ∷ s) h = elim h [ ]
take-all (suc n) [] h = refl
take-all (suc n) (b ∷ s) h = ap (◌∷◌ b) (take-all n s (omega arith))

-- A text that fits is printed whole.
pub snprintf-fits : (size : ℕ) (s : Bytes) → length s ≤ size - 1 → snprintf size s ≡ s ++ 0 ∷ []
unfolding snprintf
snprintf-fits size s h = rw (take-all (size - 1) s h) refl
