-- ===== src/Libc/Lines.antt =====
-- Lines of text through `fgets` and `strcspn`.
use mathlib.Core.List.{append_assoc}
use wlr_remote.Base.{
  ℕ, zero, suc, ◌+◌, ◌-◌, ◌≤◌, ◌<◌, ◌≡◌, ◌≢◌, refl, ap, ◌∙◌, arith, [], ◌∷◌, ◌++◌, Bytes, some,
  true, ◌||◌, ◌==◌, length, set, take, All, Bool-cases, inl, inr,
}
use wlr_remote.Libc.Text.{strcspn, line_of, fgets}

-- The bytes of a line of text: neither a terminator nor a newline.
abbrev pub IsText : ℕ → Type 0
IsText b = (b ≢ 0) × (b ≢ b'\n')

pub strcspn-append :
    (p s : Bytes) → All IsText p → strcspn b'\n' (p ++ s) ≡ length p + strcspn b'\n' s
unfolding strcspn
strcspn-append [] s h = omega arith
strcspn-append (b ∷ p) s h = ground (arith, strcspn-append p s h.1)

pub strcspn-IsText : (s : Bytes) → All IsText (take (strcspn b'\n' s) s)
unfolding strcspn
strcspn-IsText [] = tt
strcspn-IsText (b ∷ s) = elim (Bool-cases (b == 0 || b == b'\n')) [
  | inl stop ↦ rw stop tt
  | inr more ↦ rw more (ground arith, strcspn-IsText s)
]

-- The terminator that `fgets` writes bounds what `strcspn` finds.
pub strcspn-terminated : (s : Bytes) → strcspn b'\n' (s ++ 0 ∷ []) ≤ length s
unfolding strcspn
strcspn-terminated [] = omega arith
strcspn-terminated (b ∷ s) = ground (arith, strcspn-terminated s)

pub length-line_of : (n : ℕ) (s : Bytes) → length (line_of n s) ≤ n
unfolding line_of
length-line_of zero s = omega arith
length-line_of (suc n) [] = omega arith
length-line_of (suc n) (b ∷ s) = ground (arith, length-line_of n s)

pub line_of-short :
    (n : ℕ) (p rest : Bytes)
    → All IsText p
    → length p < n
    → line_of n (p ++ b'\n' ∷ rest) ≡ p ++ b'\n' ∷ []
unfolding line_of
line_of-short zero p rest h l = elim l [ ]
line_of-short (suc n) [] rest h l = refl
line_of-short (suc n) (b ∷ p) rest h l = ground (arith, line_of-short n p rest h.1)

pub line_of-long :
    (n : ℕ) (p rest : Bytes)
    → All IsText p
    → n ≤ length p
    → (line_of n (p ++ rest) ≡ take n p) × All IsText (take n p) × (length (take n p) ≡ n)
unfolding line_of
line_of-long zero p rest h l = (refl, tt, refl)
line_of-long (suc n) [] rest h l = elim l [ ]
line_of-long (suc n) (b ∷ p) rest h l = ground (arith, line_of-long n p rest h.1)

pub set-end : (p : Bytes) (c : ℕ) (s : Bytes) → set (p ++ c ∷ s) (length p) 0 ≡ p ++ 0 ∷ s
set-end [] c s = refl
set-end (b ∷ p) c s = ap (◌∷◌ b) (set-end p c s)

fgets-some :
    (size : ℕ) (input : Bytes)
    → input ≢ []
    → fgets size input ≡ some (line_of (size - 1) input ++ 0 ∷ [])
unfolding fgets
fgets-some size [] h = absurd (h refl)
fgets-some size (b ∷ input) h = refl

append-ne-nil : (p : Bytes) (b : ℕ) (s : Bytes) → p ++ b ∷ s ≢ []
append-ne-nil [] b s = cc
append-ne-nil (c ∷ p) b s = cc

-- A line that fits is read whole, with its newline.
pub fgets-short :
    (size : ℕ) (p rest : Bytes)
    → All IsText p
    → length p + 1 < size
    → fgets size (p ++ b'\n' ∷ rest) ≡ some (p ++ b'\n' ∷ 0 ∷ [])
fgets-short size p rest h l =
    fgets-some size (p ++ b'\n' ∷ rest) (append-ne-nil p b'\n' rest)
    ∙ rw (line_of-short (size - 1) p rest h (omega arith), append_assoc)

-- A line that does not fit is cut, and fills the buffer but for the terminator.
pub fgets-long :
    (size : ℕ) (p rest : Bytes)
    → All IsText p
    → 0 < length p
    → size ≤ length p + 1
    → (line : Bytes) × (fgets size (p ++ rest) ≡ some (line ++ 0 ∷ []))
      × All IsText line
      × (length line ≡ size - 1)
fgets-long size [] rest h lo l = elim lo [ ]
fgets-long size (b ∷ p) rest h lo l =
    let (cut, text, len) = line_of-long (size - 1) (b ∷ p) rest h (omega arith) in
    (
      take (size - 1) (b ∷ p),
      fgets-some size (b ∷ (p ++ rest)) (cc) ∙ ap (λ (x : Bytes). some (x ++ 0 ∷ [])) cut,
      text,
      len,
    )

pub strcspn-line :
    (p : Bytes) (b : ℕ) (s : Bytes)
    → All IsText p
    → (b == 0 || b == b'\n') ≡ true
    → strcspn b'\n' (p ++ b ∷ s) ≡ length p
unfolding strcspn
strcspn-line p b s h stop = strcspn-append p (b ∷ s) h ∙ ground arith

-- What a filled buffer looks like, for any input.
pub fgets_bounds :
    (size : ℕ) (input buffer : Bytes)
    → fgets size input ≡ some buffer
    → (line : Bytes) × (buffer ≡ line ++ 0 ∷ []) × (length line ≤ size - 1)
unfolding fgets
fgets_bounds size [] buffer e = cc
fgets_bounds size (b ∷ input) buffer e =
    (line_of (size - 1) (b ∷ input), cc, length-line_of (size - 1) (b ∷ input))
