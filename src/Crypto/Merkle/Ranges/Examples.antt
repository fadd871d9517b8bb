-- ===== src/Crypto/Merkle/Ranges/Examples.antt =====
-- src/v2.rs: the theorem on hash ranges at a concrete input.
use bittorrent_rs.Prelude.{
  ℕ, ◌+◌, ◌-◌, ◌/◌, ◌%◌, ◌^◌, ◌≤◌, ◌≡◌, true, some, List, [], ◌∷◌, arith, length, replicate,
  bytes_eq_refl,
}
use bittorrent_rs.Crypto.Merkle.{Hash, parent, merkle_root, zero_hash, is_power_of_two}
use bittorrent_rs.Crypto.Merkle.Trees.{tree_root, padded, merkle_root-tree_root}
use bittorrent_rs.Crypto.Merkle.Ranges.{verify_range}
use bittorrent_rs.Crypto.Merkle.Ranges.Path.{Tree, root_of, path_to}
use bittorrent_rs.Crypto.Merkle.Ranges.Reach.{verify_range_sound}

-- The two leaves of a tree of height one.
abbrev leaves : List Hash
leaves = replicate 32 1 ∷ replicate 32 2 ∷ []

abbrev node : Hash
node = tree_root 1 (padded leaves (2 ^ 1) zero_hash)

abbrev uncle : Hash
uncle = replicate 32 3

abbrev root : Hash
root = parent uncle node

leaves-merkle_root : merkle_root leaves 2 zero_hash ≡ some node
leaves-merkle_root = merkle_root-tree_root 1 leaves zero_hash (omega arith)

-- The two leaves are the right half of a layer of four.
leaves-verify_range : verify_range root 0 2 2 leaves (uncle ∷ []) 1 ≡ true
unfolding verify_range is_power_of_two
leaves-verify_range = rw leaves-merkle_root (bytes_eq_refl root)

verify_range_sound_example :
    (k : ℕ) × (length leaves ≡ 2 ^ k)
    × (2 % 2 ^ k ≡ 0)
    × (2 + 2 ^ k ≤ 2 ^ (2 - 0))
    × (0 + k + length (uncle ∷ []) ≡ 2)
    × ((tree : Tree) × (root_of tree ≡ root)
        × (path_to (length (uncle ∷ [])) (2 / 2 ^ k) tree
            ≡ some (tree_root k (padded leaves (2 ^ k) zero_hash), uncle ∷ [])))
verify_range_sound_example =
    verify_range_sound root 0 2 2 leaves (uncle ∷ []) 1 (omega arith) leaves-verify_range
