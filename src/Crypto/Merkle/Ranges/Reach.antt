-- ===== src/Crypto/Merkle/Ranges/Reach.antt =====
-- src/v2.rs: what `verify_range` accepts reaches the root.
use native.Mathlib.Nat.{mul_left_comm, div-lt_iff_lt-mul}
use bittorrent_rs.Prelude.{
  some, sym, ◌*◌, ℕ, zero, suc, ◌+◌, ◌-◌, ◌/◌, ◌%◌, ◌^◌, ◌≤◌, ◌<◌, ◌≡◌, refl, ap, ◌∙◌, true, false,
  not, List, arith, length, inl, inr, Bool-cases, ltb, leb, ◌==◌, ==→eq, bytes_eq_sound,
  reject-eq_true, or-eq_false, not-eq_false, and-eq_true, ltb_false→le, ◌||◌,
}
use bittorrent_rs.Crypto.Merkle.{Hash, merkle_root, zero_hash, is_power_of_two}
use bittorrent_rs.Crypto.Merkle.Trees.{tree_root, padded, merkle_root-tree_root, doubled, pow-pos}
use bittorrent_rs.Crypto.Merkle.Matches.{is_power_of_two_sound}
use bittorrent_rs.Crypto.Merkle.Ranges.Path.{Tree, root_of, path_to, climb_uncles-path}
use bittorrent_rs.Crypto.Merkle.Ranges.{
  verify_range, is_malformed, trailing_zeros, count_uncles, climb_uncles, reaches,
}

trailing_zeros-pow : (f k : ℕ) → k < f → trailing_zeros f (2 ^ k) ≡ k
trailing_zeros-pow zero k h = absurd (omega arith)
trailing_zeros-pow (suc f) zero h = refl
trailing_zeros-pow (suc f) (suc k) h =
    let e = doubled k in
    let half : 2 ^ suc k / 2 ≡ 2 ^ k = omega arith in
    let even : (2 ^ suc k % 2 == 1) ≡ false = ground arith in
    rw (even, half) (ap suc (trailing_zeros-pow f k (omega arith)))

pow_le : (j k : ℕ) → j ≤ k → 2 ^ j ≤ 2 ^ k
pow_le j zero h = let e : j ≡ 0 = omega arith in rw e (omega arith)
pow_le j (suc k) h = elim (Bool-cases (j == suc k)) [
  | inl same ↦ let e : j ≡ suc k = ==→eq j (suc k) same in rw e (omega arith)
  | inr less ↦ omega (arith, doubled k, pow_le j k (ground arith))
]

pow-below : (k : ℕ) → 2 ^ k < 2 ^ 32 → k < 32
pow-below k h = elim (Bool-cases (ltb k 32)) [
  | inl low ↦ ground arith
  | inr high ↦ absurd (omega (arith, pow_le 32 k (ltb_false→le k 32 high)))
]

reaches_sound :
    (hashes uncles : List Hash) (k n position : ℕ) (root : Hash)
    → length hashes ≡ n
    → n ≡ 2 ^ k
    → reaches (merkle_root hashes n zero_hash) root position uncles ≡ true
    → climb_uncles (tree_root k (padded hashes (2 ^ k) zero_hash)) position uncles ≡ root
reaches_sound hashes uncles k n position root e q h =
    bytes_eq_sound _ _ (rw (q, merkle_root-tree_root k hashes zero_hash (omega arith)) at h)

multiple_of : (index n m : ℕ) → n ≡ m → index % n ≡ 0 → index % m ≡ 0
multiple_of index n m e h = rw e at h

pow_sum : (k m : ℕ) → 2 ^ (k + m) ≡ 2 ^ m * 2 ^ k
pow_sum zero m = let e : zero + m ≡ m = omega arith in rw e (omega arith)
pow_sum (suc k) m =
    let e : suc k + m ≡ suc (k + m) = omega arith in
    rw e (
      doubled (k + m)
      ∙ (ap (λ n. 2 * n) (pow_sum k m)
          ∙ (mul_left_comm 2 (2 ^ m) (2 ^ k) ∙ ap (λ n. 2 ^ m * n) (sym (doubled k)))))

-- The place of a range within its layer.
place_within :
    (index k m depth : ℕ) → k + m ≡ depth → index + 2 ^ k ≤ 2 ^ depth → index / 2 ^ k < 2 ^ m
place_within index k m depth e h =
    let room : 2 ^ depth ≡ 2 ^ m * 2 ^ k = ap (λ n. 2 ^ n) (sym e) ∙ pow_sum k m in
    (div-lt_iff_lt-mul {k = 2 ^ k} {x = index} {y = 2 ^ m} (pow-pos k)).1
      (omega (arith, h, room, pow-pos k))

within_tree :
    (node root : Hash) (position : ℕ) (uncles : List Hash)
    → position < 2 ^ length uncles
    → climb_uncles node position uncles ≡ root
    → (tree : Tree) × (root_of tree ≡ root)
      × (path_to (length uncles) position tree ≡ some (node, uncles))
within_tree node root position uncles h e =
    let (tree, top, path) = climb_uncles-path node position uncles h in (tree, top ∙ e, path)

-- A range that is accepted has 2 ^ k hashes (fewer than 2 ^ 32 were sent), starts at a multiple of
-- that many within its layer, and has as many uncles as there are layers from the range's own tree to
-- the root: there is a tree with the root of the file in which, that many layers below, the root of
-- the tree over the hashes stands at the place of the range, counted from the left, and the uncles
-- stand beside the path to it, from below.
pub verify_range_sound :
    (root : Hash) (layer_number height index : ℕ) (hashes uncles : List Hash) (proof_layers : ℕ)
    → length hashes < 2 ^ 32
    → verify_range root layer_number height index hashes uncles proof_layers ≡ true
    → (k : ℕ) × (length hashes ≡ 2 ^ k)
      × (index % 2 ^ k ≡ 0)
      × (index + 2 ^ k ≤ 2 ^ (height - layer_number))
      × (layer_number + k + length uncles ≡ height)
      × ((tree : Tree) × (root_of tree ≡ root)
          × (path_to (length uncles) (index / 2 ^ k) tree
              ≡ some (tree_root k (padded hashes (2 ^ k) zero_hash), uncles)))
unfolding verify_range
verify_range_sound root layer_number height index hashes uncles proof_layers small h =
    let size : length hashes % 2 ^ 32 ≡ length hashes = omega arith in
    let n = length hashes in
    let zeros = trailing_zeros 32 n in
    let (refused, h₁) =
      reject-eq_true
        (is_malformed layer_number height index n || ltb (2 ^ (height - layer_number)) (index + n))
        (rw size at h) in
    let (_, h₂) =
      reject-eq_true
        (not (length uncles == count_uncles (suc proof_layers - zeros) layer_number height zeros))
        h₁ in
    let (shape, room) = or-eq_false (is_malformed layer_number height index n) refused in
    let (shape₁, whole) =
      or-eq_false (leb height layer_number || ltb n 2 || not (is_power_of_two 31 n)) shape in
    let (_, power) = or-eq_false (leb height layer_number || ltb n 2) shape₁ in
    let (k, e) = is_power_of_two_sound 31 n (not-eq_false (is_power_of_two 31 n) power) in
    let short : k < 32 = pow-below k (omega (arith, e)) in
    let below : zeros ≡ k = ap (trailing_zeros 32) e ∙ trailing_zeros-pow 32 k short in
    let (top, found) = and-eq_true (layer_number + k + length uncles == height) (rw below at h₂) in
    let multiple : index % n ≡ 0 = ==→eq (index % n) 0 (not-eq_false (index % n == 0) whole) in
    let fits : index + 2 ^ k ≤ 2 ^ (height - layer_number) =
      omega (arith, ltb_false→le (2 ^ (height - layer_number)) (index + n) room, e) in
    let levels : layer_number + k + length uncles ≡ height =
      ==→eq (layer_number + k + length uncles) height top in
    (
      k,
      e,
      multiple_of index n (2 ^ k) e multiple,
      fits,
      levels,
      within_tree (tree_root k (padded hashes (2 ^ k) zero_hash)) root (index / 2 ^ k) uncles
          (place_within index k (length uncles) (height - layer_number) (omega (arith, levels))
            (omega (arith, fits)))
          (reaches_sound hashes uncles k n (index / 2 ^ k) root refl e found),
    )
