-- ===== src/Crypto/Merkle/Ranges/Path.antt =====
-- src/v2.rs: what the climb with the uncles shows: a tree in which they lie beside the path to a node.
use native.Mathlib.Nat.{mul-add, mul_assoc, mul_comm}
use bittorrent_rs.Prelude.{
  ℕ, zero, suc, ◌+◌, ◌-◌, ◌*◌, ◌/◌, ◌%◌, ◌^◌, ◌<◌, ◌≡◌, refl, ap, ◌∙◌, Option, none, some, List, [],
  ◌∷◌, ◌++◌, arith, length, ltb, ◌==◌, if◌then◌else◌, inl, inr, Bool-cases, append_assoc,
  append-nil, lt→ltb, ge→ltb_false, sym, ap₂,
}
use bittorrent_rs.Crypto.Merkle.{Hash, parent}
use bittorrent_rs.Crypto.Merkle.Trees.{doubled}
use bittorrent_rs.Crypto.Merkle.Ranges.{climb_uncles}

-- A tree of hashes, of which some nodes are known by their hash alone.
pub data Tree : Type 0 where
  known : (hash : Hash) → Tree
  joined : (left right : Tree) → Tree

abbrev pub root_of : Tree → Hash
root_of (known hash) = hash
root_of (joined left right) = parent (root_of left) (root_of right)

abbrev pub add_last : Hash → Option (Hash × List Hash) → Option (Hash × List Hash)
add_last hash none = none
add_last hash (some (node, beside)) = some (node, beside ++ hash ∷ [])

-- The node at a position in the layer that is so many layers below the root, counted from the left,
-- and the hashes beside the path from it to the root, from below.
abbrev pub path_to : ℕ → ℕ → Tree → Option (Hash × List Hash)
path_to zero position tree = some (root_of tree, [])
path_to (suc depth) position (known hash) = none
path_to (suc depth) position (joined left right) =
    if ltb position (2 ^ depth)
    then add_last (root_of right) (path_to depth position left)
    else add_last (root_of left) (path_to depth (position - 2 ^ depth) right)

-- The path goes on through one more node, with the tree on its left or on its right.
path-left :
    (tree : Tree) (uncle node : Hash) (depth at : ℕ) (beside : List Hash)
    → path_to depth at tree ≡ some (node, beside)
    → at < 2 ^ depth
    → path_to (suc depth) at (joined tree (known uncle)) ≡ some (node, beside ++ uncle ∷ [])
path-left tree uncle node depth at beside e low =
    rw (lt→ltb at (2 ^ depth) low) (ap (add_last uncle) e)

path-right :
    (tree : Tree) (uncle node : Hash) (depth at : ℕ) (beside : List Hash)
    → path_to depth at tree ≡ some (node, beside)
    → path_to (suc depth) (at + 2 ^ depth) (joined (known uncle) tree)
      ≡ some (node, beside ++ uncle ∷ [])
path-right tree uncle node depth at beside e =
    let back : at + 2 ^ depth - 2 ^ depth ≡ at = omega arith in
    rw (ge→ltb_false (at + 2 ^ depth) (2 ^ depth) (omega arith), back) (ap (add_last uncle) e)

half_width :
    (width half bit at : ℕ) → at + width * bit + 2 * width * half ≡ at + width * (2 * half + bit)
half_width width half bit at =
    let split = mul-add width (2 * half) bit in
    let twice : width * (2 * half) ≡ 2 * width * half =
      sym (mul_assoc width 2 half) ∙ ap (λ x. x * half) (mul_comm width 2) in
    omega (arith, split, twice)

-- The same path, with its length and its position written otherwise.
path-same :
    (whole : Tree) (depth depth' at at' : ℕ) (r : Option (Hash × List Hash))
    → depth ≡ depth'
    → at ≡ at'
    → path_to depth at whole ≡ r
    → path_to depth' at' whole ≡ r
path-same whole depth depth' at at' r e f h = ap₂ (λ n m. path_to n m whole) (sym e) (sym f) ∙ h

position_same :
    (depth half bit position at at' : ℕ)
    → position ≡ 2 * half + bit
    → at' ≡ at + 2 ^ depth * bit
    → at' + 2 ^ suc depth * half ≡ at + 2 ^ depth * position
position_same depth half bit position at at' e f =
    rw (doubled depth, e, f) (half_width (2 ^ depth) half bit at)

-- One uncle after another is put beside the tree, which has the path to the node at `at` already.
climb_path :
    (uncles : List Hash) (tree : Tree) (depth at position : ℕ) (node : Hash) (beside : List Hash)
    → path_to depth at tree ≡ some (node, beside)
    → at < 2 ^ depth
    → position < 2 ^ length uncles
    → (whole : Tree) × (root_of whole ≡ climb_uncles (root_of tree) position uncles)
      × (path_to (length uncles + depth) (at + 2 ^ depth * position) whole
          ≡ some (node, beside ++ uncles))
climb_path [] tree depth at position node beside e low h =
    let first : position ≡ 0 = omega (arith, h) in
    let here : at + 2 ^ depth * position ≡ at = rw first (omega arith) in
    (
      tree,
      refl,
      path-same tree depth (0 + depth) at (at + 2 ^ depth * position) _ (omega arith) (sym here)
          (e ∙ ap (λ us. some (node, us)) (sym (append-nil beside))),
    )
climb_path (uncle ∷ uncles) tree depth at position node beside e low h =
    elim (Bool-cases (position % 2 == 0)) [
      | inl left ↦
          let even : position ≡ 2 * (position / 2) + 0 = ground arith in
          let (whole, top, path) =
            climb_path uncles (joined tree (known uncle)) (suc depth) at (position / 2) node
              (beside ++ uncle ∷ []) (path-left tree uncle node depth at beside e low)
              (omega (arith, low, doubled depth)) (omega (arith, h, doubled (length uncles))) in
          (
            whole,
            rw left top,
            path-same whole (length uncles + suc depth) (suc (length uncles) + depth) _ _ _
                (omega arith)
                (position_same depth (position / 2) 0 position at at even (omega arith))
                (path ∙ ap (λ us. some (node, us)) (append_assoc beside (uncle ∷ []) uncles)),
          )
      | inr right ↦
          let odd : position ≡ 2 * (position / 2) + 1 = ground arith in
          let (whole, top, path) =
            climb_path uncles (joined (known uncle) tree) (suc depth) (at + 2 ^ depth)
              (position / 2) node (beside ++ uncle ∷ [])
              (path-right tree uncle node depth at beside e) (omega (arith, low, doubled depth))
              (omega (arith, h, doubled (length uncles))) in
          (
            whole,
            rw right top,
            path-same whole (length uncles + suc depth) (suc (length uncles) + depth) _ _ _
                (omega arith)
                (position_same depth (position / 2) 1 position at (at + 2 ^ depth) odd
                  (omega arith))
                (path ∙ ap (λ us. some (node, us)) (append_assoc beside (uncle ∷ []) uncles)),
          )
    ]

-- The climb from a node with its uncles, seen from above: a tree in which the node lies at its
-- position, counted from the left, and the uncles beside the path to it.
pub climb_uncles-path :
    (node : Hash) (position : ℕ) (uncles : List Hash)
    → position < 2 ^ length uncles
    → (whole : Tree) × (root_of whole ≡ climb_uncles node position uncles)
      × (path_to (length uncles) position whole ≡ some (node, uncles))
climb_uncles-path node position uncles h =
    let (whole, top, path) =
      climb_path uncles (known node) 0 0 position node [] refl (omega arith) h in
    (
      whole,
      top,
      path-same whole (length uncles + 0) (length uncles) (0 + 2 ^ 0 * position) position _
          (omega arith) (omega arith) path,
    )
