-- ===== src/Crypto/Merkle/Trees.antt =====
-- src/v2.rs: the loop of `merkle_root` computes the root of a perfect binary tree.
use native.Mathlib.Nat.{pow-suc, sub-zero}
use bittorrent_rs.Prelude.{
  ℕ, zero, suc, ◌*◌, ◌^◌, ◌≤◌, ◌<◌, max, ◌≡◌, refl, ap, ap₂, ◌∙◌, some, List, [], ◌∷◌, ◌++◌, arith,
  lt→ltb, length-append, length-replicate, take_all, ◌-◌, length, take, drop, get_or, length-take,
  length-drop, replicate,
}
use bittorrent_rs.Crypto.Merkle.{
  Hash, parent, pair_up, reduce, merkle_root, zero_subtree, zero_hash, climb,
}

-- The root of the perfect tree of height `k` over 2 ^ k leaves, from its two halves.
pub tree_root : ℕ → List Hash → Hash
tree_root zero leaves = get_or leaves 0 []
tree_root (suc k) leaves =
    parent (tree_root k (take (2 ^ k) leaves)) (tree_root k (drop (2 ^ k) leaves))

-- The level above.
parents : List Hash → List Hash
parents [] = []
parents (x ∷ []) = []
parents (x ∷ y ∷ rest) = parent x y ∷ parents rest

pair_up-even : (n : ℕ) (xs : List Hash) → length xs ≡ 2 * n → pair_up xs ≡ some (parents xs)
unfolding pair_up parents
pair_up-even n [] h = refl
pair_up-even n (x ∷ []) h = absurd (omega arith)
pair_up-even zero (x ∷ y ∷ rest) h = absurd (omega arith)
pair_up-even (suc n) (x ∷ y ∷ rest) h = rw (pair_up-even n rest (omega arith))

length-parents : (n : ℕ) (xs : List Hash) → length xs ≡ 2 * n → length (parents xs) ≡ n
unfolding parents
length-parents n [] h = omega arith
length-parents n (x ∷ []) h = absurd (omega arith)
length-parents zero (x ∷ y ∷ rest) h = absurd (omega arith)
length-parents (suc n) (x ∷ y ∷ rest) h = omega (arith, length-parents n rest (omega arith))

take-parents : (n : ℕ) (xs : List Hash) → take n (parents xs) ≡ parents (take (2 * n) xs)
unfolding parents
take-parents zero xs = refl
take-parents (suc n) [] = let e : 2 * suc n ≡ suc (suc (2 * n)) = omega arith in rw e
take-parents (suc n) (x ∷ []) = let e : 2 * suc n ≡ suc (suc (2 * n)) = omega arith in rw e
take-parents (suc n) (x ∷ y ∷ rest) =
    let e : 2 * suc n ≡ suc (suc (2 * n)) = omega arith in
    rw e (ap (◌∷◌ (parent x y)) (take-parents n rest))

drop-parents : (n : ℕ) (xs : List Hash) → drop n (parents xs) ≡ parents (drop (2 * n) xs)
unfolding parents
drop-parents zero xs = refl
drop-parents (suc n) [] = let e : 2 * suc n ≡ suc (suc (2 * n)) = omega arith in rw e
drop-parents (suc n) (x ∷ []) = let e : 2 * suc n ≡ suc (suc (2 * n)) = omega arith in rw e
drop-parents (suc n) (x ∷ y ∷ rest) =
    let e : 2 * suc n ≡ suc (suc (2 * n)) = omega arith in rw e (drop-parents n rest)

pub doubled : (k : ℕ) → 2 ^ suc k ≡ 2 * 2 ^ k
doubled k = rw pow-suc (omega arith)

pub pow-pos : (k : ℕ) → 0 < 2 ^ k
pow-pos zero = omega arith
pow-pos (suc k) = omega (arith, pow-pos k, doubled k)

tree_root-parents :
    (k : ℕ) (xs : List Hash)
    → length xs ≡ 2 ^ suc k
    → tree_root k (parents xs) ≡ tree_root (suc k) xs
unfolding tree_root parents
tree_root-parents zero [] h = absurd (omega arith)
tree_root-parents zero (x ∷ []) h = absurd (omega arith)
tree_root-parents zero (x ∷ y ∷ rest) h = refl
tree_root-parents (suc k) xs h =
    let e = doubled k in
    let e' = doubled (suc k) in
    rw (take-parents (2 ^ k) xs, drop-parents (2 ^ k) xs, ← e)
      (ap₂ parent
        (tree_root-parents k (take (2 ^ suc k) xs) (omega (arith, length-take (2 ^ suc k) xs)))
        (tree_root-parents k (drop (2 ^ suc k) xs) (omega (arith, length-drop (2 ^ suc k) xs))))

reduce-tree_root :
    (f k : ℕ) (xs : List Hash) → length xs ≡ 2 ^ k → k < f → reduce f xs ≡ some (tree_root k xs)
unfolding reduce
reduce-tree_root zero k xs h lt = absurd (omega arith)
reduce-tree_root (suc f) zero [] h lt = absurd (omega arith)
reduce-tree_root (suc f) zero (x ∷ []) h lt = unfold tree_root in refl
reduce-tree_root (suc f) zero (x ∷ y ∷ rest) h lt = absurd (omega arith)
reduce-tree_root (suc f) (suc k) xs h lt =
    let e = doubled k in
    let pos = pow-pos k in
    let even : length xs ≡ 2 * 2 ^ k = omega arith in
    rw
      (lt→ltb 1 (length xs) (omega arith), pair_up-even (2 ^ k) xs even, ← tree_root-parents k xs h)
      (reduce-tree_root f k (parents xs) (length-parents (2 ^ k) xs even) (omega arith))

lt-pow : (k : ℕ) → k < 2 ^ k
lt-pow zero = omega arith
lt-pow (suc k) = omega (arith, lt-pow k, doubled k)

-- The leaves, padded to a width.
abbrev pub padded : List Hash → ℕ → Hash → List Hash
padded leaves width pad = leaves ++ replicate (width - length leaves) pad

-- The level-by-level loop never panics on a width of 2 ^ k with at most that many leaves, and gives
-- the root of the perfect tree over the leaves padded to that width.
pub merkle_root-tree_root :
    (k : ℕ) (leaves : List Hash) (pad : Hash)
    → length leaves ≤ 2 ^ k
    → merkle_root leaves (2 ^ k) pad ≡ some (tree_root k (padded leaves (2 ^ k) pad))
unfolding merkle_root
merkle_root-tree_root k leaves pad h =
    let lt = lt-pow k in
    let wide : max (2 ^ k) 1 ≡ 2 ^ k = omega arith in
    let size : length (padded leaves (2 ^ k) pad) ≡ 2 ^ k = omega (
      arith,
      length-append leaves (replicate (2 ^ k - length leaves) pad),
      length-replicate (2 ^ k - length leaves) pad,
    ) in
    rw (wide, take_all (2 ^ k) leaves h)
      (reduce-tree_root (length (padded leaves (2 ^ k) pad)) k (padded leaves (2 ^ k) pad) size
        (omega arith))

climb-parent : (n : ℕ) (x : Hash) → climb n (parent x x) ≡ parent (climb n x) (climb n x)
unfolding climb
climb-parent zero x = refl
climb-parent (suc n) x = climb-parent n (parent x x)

take-replicate : {A : Type 0} (m n : ℕ) (a : A) → m ≤ n → take m (replicate n a) ≡ replicate m a
take-replicate zero n a h = refl
take-replicate (suc m) zero a h = absurd (omega arith)
take-replicate (suc m) (suc n) a h = ap (◌∷◌ a) (take-replicate m n a (omega arith))

drop-replicate : {A : Type 0} (m n : ℕ) (a : A) → drop m (replicate n a) ≡ replicate (n - m) a
drop-replicate zero n a = rw sub-zero
drop-replicate (suc m) zero a = let e : 0 - suc m ≡ 0 = omega arith in rw e
drop-replicate (suc m) (suc n) a =
    let e : suc n - suc m ≡ n - m = omega arith in rw e (drop-replicate m n a)

tree_root-replicate : (k : ℕ) (x : Hash) → tree_root k (replicate (2 ^ k) x) ≡ climb k x
unfolding tree_root climb
tree_root-replicate zero x = refl
tree_root-replicate (suc k) x =
    let e = doubled k in
    let half : 2 ^ suc k - 2 ^ k ≡ 2 ^ k = omega arith in
    rw
      (
        take-replicate (2 ^ k) (2 ^ suc k) x (omega arith),
        drop-replicate (2 ^ k) (2 ^ suc k) x,
        half,
        tree_root-replicate k x,
        climb-parent k x,
      )
      refl

-- A tree of height `k` with no leaf but padding has the root that `zero_subtree` computes.
merkle_root-zero_subtree : (k : ℕ) → merkle_root [] (2 ^ k) zero_hash ≡ some (zero_subtree k)
unfolding zero_subtree
merkle_root-zero_subtree k =
    merkle_root-tree_root k [] zero_hash (omega arith)
    ∙ rw (sub-zero, tree_root-replicate k zero_hash)
