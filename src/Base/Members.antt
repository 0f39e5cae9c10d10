-- ===== src/Base/Members.antt =====
-- Lists all of whose elements are in a list.
use mathlib.Core.List.{Memᴰ}
use mathlib.Core.List.Memᴰ.{head, tail, not-nil}
use mathlib.Core.List.{List, [], ◌∷◌}
use mathlib.Core.Path.{◌≡◌, refl, ap, ◌∙◌}
use Prim.Native.Nat.{ℕ, zero, suc}
use wlr_remote.Base.Lists.{length, replicate, All}

module _ {ℓ} {A : Type ℓ} where
  Mem-replicate : (n : ℕ) (x y : A) → Memᴰ x (replicate n y) → x ≡ y
  Mem-replicate zero x y h = absurd (not-nil h)
  Mem-replicate (suc n) x y (head e) = e
  Mem-replicate (suc n) x y (tail h) = Mem-replicate n x y h

  -- A list of elements of `replicate n y` is itself a repetition.
  pub All-replicate :
      (n : ℕ) (y : A) (xs : List A)
      → All (λ x. Memᴰ x (replicate n y)) xs
      → xs ≡ replicate (length xs) y
  All-replicate n y [] h = refl
  All-replicate n y (x ∷ xs) (h, hs) =
      ap (λ z. z ∷ xs) (Mem-replicate n x y h) ∙ ap (λ zs. y ∷ zs) (All-replicate n y xs hs)

  pub All-none : (xs : List A) → All (λ x. Memᴰ x []) xs → xs ≡ []
  All-none [] h = refl
  All-none (x ∷ xs) (h, hs) = absurd (not-nil h)
