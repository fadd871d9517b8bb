-- ===== src/Prelude/Maps.antt =====
-- A hash map with number keys, as an association list in which an insertion replaces the entry of its key.
use Prim.Native.Nat.{ℕ, suc}
use mathlib.Core.Path.{◌≡◌, refl}
use mathlib.Core.Bool.{false}
use mathlib.Core.List.{List, [], ◌∷◌}
use mathlib.Core.Option.{Option, none, some}
use native.Mathlib.Omega.{arith}
use bittorrent_rs.Prelude.Tests.{◌==◌, if◌then◌else◌}

module _ {ℓ} {V : Type ℓ} where
  abbrev pub lookup : ℕ → List (ℕ × V) → Option V
  lookup k [] = none
  lookup k ((j, v) ∷ m) = if j == k then some v else lookup k m

  abbrev pub insert : ℕ → V → List (ℕ × V) → List (ℕ × V)
  insert k v [] = (k, v) ∷ []
  insert k v ((j, w) ∷ m) = if j == k then (k, v) ∷ m else (j, w) ∷ insert k v m

  abbrev pub remove : ℕ → List (ℕ × V) → List (ℕ × V)
  remove k [] = []
  remove k ((j, v) ∷ m) = if j == k then remove k m else (j, v) ∷ remove k m

  abbrev pub values : List (ℕ × V) → List V
  values [] = []
  values ((j, v) ∷ m) = v ∷ values m

  -- How many entries have the key `k`.
  abbrev pub entries : ℕ → List (ℕ × V) → ℕ
  entries k [] = 0
  entries k ((j, v) ∷ m) = if j == k then suc (entries k m) else entries k m

  pub lookup-insert :
      (k j : ℕ) (v : V) (m : List (ℕ × V))
      → lookup j (insert k v m) ≡ (if k == j then some v else lookup j m)
  lookup-insert k j v [] = refl
  lookup-insert k j v ((i, w) ∷ m) = ground (arith, lookup-insert k j v m)

  pub lookup-remove :
      (k j : ℕ) (m : List (ℕ × V)) → lookup j (remove k m) ≡ (if k == j then none else lookup j m)
  lookup-remove k j [] = ground arith
  lookup-remove k j ((i, w) ∷ m) = ground (arith, lookup-remove k j m)

  pub entries-remove :
      (k j : ℕ) (m : List (ℕ × V)) → entries j (remove k m) ≡ (if k == j then 0 else entries j m)
  entries-remove k j [] = ground arith
  entries-remove k j ((i, w) ∷ m) = ground (arith, entries-remove k j m)

  pub entries-insert_ne :
      (k j : ℕ) (v : V) (m : List (ℕ × V))
      → (k == j) ≡ false
      → entries j (insert k v m) ≡ entries j m
  entries-insert_ne k j v [] h = ground arith
  entries-insert_ne k j v ((i, w) ∷ m) h = ground (arith, entries-insert_ne k j v m)

  pub entries-insert_fresh :
      (k : ℕ) (v : V) (m : List (ℕ × V)) → entries k m ≡ 0 → entries k (insert k v m) ≡ 1
  entries-insert_fresh k v [] h = ground arith
  entries-insert_fresh k v ((i, w) ∷ m) h = ground (arith, entries-insert_fresh k v m)

  pub lookup-none_iff : (k : ℕ) (m : List (ℕ × V)) → entries k m ≡ 0 → lookup k m ≡ none
  lookup-none_iff k [] h = refl
  lookup-none_iff k ((i, w) ∷ m) h = ground (arith, lookup-none_iff k m)
