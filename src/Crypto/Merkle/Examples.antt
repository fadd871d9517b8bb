-- ===== src/Crypto/Merkle/Examples.antt =====
-- src/v2.rs: the theorems at concrete inputs.
use bittorrent_rs.Prelude.{ℕ, ◌^◌, ◌*◌, ◌≤◌, ◌≡◌, true, some, [], ◌∷◌, arith, length, Bytes}
use bittorrent_rs.Crypto.Merkle.{Hash, block, block_hashes, merkle_root, merkle_matches, zero_hash}
use bittorrent_rs.Crypto.Merkle.Trees.{tree_root, padded, merkle_root-tree_root}
use bittorrent_rs.Crypto.Merkle.Matches.{merkle_matches_sound, merkle_matches_complete}

abbrev three_bytes : Bytes
three_bytes = 1 ∷ 2 ∷ 3 ∷ []

-- The root of three bytes, in a tree of two leaves.
abbrev their_root : Hash
their_root = tree_root 1 (padded (block_hashes three_bytes) (2 ^ 1) zero_hash)

merkle_matches_complete_example : merkle_matches three_bytes (2 ^ 1) their_root ≡ true
merkle_matches_complete_example =
    merkle_matches_complete three_bytes 1 (omega arith) (omega arith) (omega arith)

their_root_lem : merkle_matches three_bytes 2 their_root ≡ true
their_root_lem = merkle_matches_complete three_bytes 1 (omega arith) (omega arith) (omega arith)

merkle_matches_sound_example :
    (k : ℕ) × (2 ≡ 2 ^ k)
    × (length three_bytes ≤ 2 * block)
    × (tree_root k (padded (block_hashes three_bytes) 2 zero_hash) ≡ their_root)
merkle_matches_sound_example = merkle_matches_sound three_bytes 2 their_root their_root_lem

merkle_root-tree_root_example :
    merkle_root (three_bytes ∷ []) (2 ^ 1) zero_hash
    ≡ some (tree_root 1 (padded (three_bytes ∷ []) (2 ^ 1) zero_hash))
merkle_root-tree_root_example = merkle_root-tree_root 1 (three_bytes ∷ []) zero_hash (omega arith)
