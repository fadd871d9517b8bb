-- ===== src/Prelude/Segments.antt =====
-- Segments of a list: a part of a part.
use Prim.Native.Nat.{ℕ, zero, suc, ◌+◌}
use mathlib.Core.Path.{◌≡◌, refl, sym, ap, ◌∙◌}
use mathlib.Core.List.{List, [], ◌∷◌, ◌++◌}
use native.Mathlib.Omega.{arith}
use bittorrent_rs.Prelude.Lists.{take, drop}

module _ {ℓ} {A : Type ℓ} where
  take-nil : (k : ℕ) → take {A = A} k [] ≡ []
  take-nil zero = refl
  take-nil (suc k) = refl

  drop-nil : (k : ℕ) → drop {A = A} k [] ≡ []
  drop-nil zero = refl
  drop-nil (suc k) = refl

  pub drop-drop : (n k : ℕ) (buf : List A) → drop k (drop n buf) ≡ drop (n + k) buf
  drop-drop zero k buf = ap (λ i. drop i buf) (let e : k ≡ 0 + k = omega arith in e)
  drop-drop (suc n) k [] = drop-nil k ∙ sym (drop-nil (suc n + k))
  drop-drop (suc n) k (x ∷ buf) =
      let e : suc n + k ≡ suc (n + k) = omega arith in rw e (drop-drop n k buf)

  pub take-split : (n k : ℕ) (buf : List A) → take (n + k) buf ≡ take n buf ++ take k (drop n buf)
  take-split zero k buf = ap (λ i. take i buf) (let e : 0 + k ≡ k = omega arith in e)
  take-split (suc n) k [] = take-nil (suc n + k) ∙ sym (take-nil k)
  take-split (suc n) k (x ∷ buf) =
      let e : suc n + k ≡ suc (n + k) = omega arith in rw e (ap (◌∷◌ x) (take-split n k buf))
