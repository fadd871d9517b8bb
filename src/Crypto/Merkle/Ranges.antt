-- ===== src/Crypto/Merkle/Ranges.antt =====
-- src/v2.rs, the proofs: a range of hashes and the uncles that carry them to the root (hash requests of
-- BEP 52).
pub mod Path
pub mod Reach
mod Examples
use bittorrent_rs.Prelude.{
  ℕ, zero, suc, ◌+◌, ◌-◌, ◌*◌, ◌/◌, ◌%◌, ◌^◌, Bool, true, false, not, ◌&&◌, ◌||◌, Option, none,
  some, List, [], ◌∷◌, map, ltb, leb, ◌==◌, if◌then◌else◌, length, get_elem?, get_or, take, drop,
  bytes_eq, div_ceil,
}
use bittorrent_rs.Crypto.Merkle.{
  block, Hash, parent, zero_hash, zero_subtree, resize, pair_up, merkle_root, is_power_of_two,
  root_is,
}

pub valid_piece_length : ℕ → Bool
valid_piece_length piece_length = leb block piece_length && is_power_of_two 63 piece_length

-- `trailing_zeros`, of a number below 2 ^ f.
abbrev pub trailing_zeros : ℕ → ℕ → ℕ
trailing_zeros zero n = 0
trailing_zeros (suc f) n = let rest = trailing_zeros f (n / 2) in if n % 2 == 1 then 0 else suc rest

pub piece_layer : ℕ → ℕ
piece_layer piece_length = trailing_zeros 64 (piece_length / block)

abbrev pub expected_piece_hash : Option Hash → Option (List Hash) → ℕ → Option Hash
expected_piece_hash root (some hashes) piece_in_file = get_elem? hashes piece_in_file
expected_piece_hash root none zero = root
expected_piece_hash root none (suc piece_in_file) = none

-- `width` is a power of two wherever it is read, so that the low bits of `index` are its remainder.
abbrev pub is_malformed : ℕ → ℕ → ℕ → ℕ → Bool
is_malformed layer_number height index size =
    leb height layer_number
    || ltb size 2
    || not (is_power_of_two 31 size)
    || not (index % size == 0)

-- How many of the proof layers from `j` on, at most `n`, are below the root.
abbrev pub count_uncles : ℕ → ℕ → ℕ → ℕ → ℕ
count_uncles zero layer_number height j = 0
count_uncles (suc n) layer_number height j =
    let rest = count_uncles n layer_number height (suc j) in
    if ltb (layer_number + j) height then suc rest else 0

-- The node above a node at `position`, with one uncle after another, and the position of the last.
abbrev pub climb_uncles : Hash → ℕ → List Hash → Hash
climb_uncles node position [] = node
climb_uncles node position (uncle ∷ uncles) =
    climb_uncles (if position % 2 == 0 then parent node uncle else parent uncle node) (position / 2)
      uncles

-- The last test of `verify_range`, on the root of the range.
abbrev pub reaches : Option Hash → Hash → ℕ → List Hash → Bool
reaches none root position uncles = false
reaches (some node) root position uncles = bytes_eq (climb_uncles node position uncles) root

pub verify_range : Hash → ℕ → ℕ → ℕ → List Hash → List Hash → ℕ → Bool
verify_range root layer_number height index hashes uncles proof_layers =
    let size = length hashes % 2 ^ 32 in
    let below = trailing_zeros 32 size in
    if is_malformed layer_number height index size
      || ltb (2 ^ (height - layer_number)) (index + size)
    then false
    else if not (length uncles == count_uncles (suc proof_layers - below) layer_number height below)
    then false
    else layer_number + below + length uncles == height
      && reaches (merkle_root hashes size zero_hash) root (index / 2 ^ below) uncles

-- `next_power_of_two`, from the power `p` on.
abbrev pub next_power_from : ℕ → ℕ → ℕ → ℕ
next_power_from zero p n = p
next_power_from (suc f) p n = let next = next_power_from f (2 * p) n in if leb n p then p else next

pub file_height : ℕ → ℕ → ℕ
unfolding piece_layer
file_height size piece_length =
    piece_layer piece_length + trailing_zeros 64 (next_power_from 64 1 (div_ceil size piece_length))

-- The loop of `upper_layers`: a level and every one above it. A level of an odd length panics.
abbrev pub levels_above : ℕ → List Hash → Option (List (List Hash))
levels_above zero level = some (level ∷ [])
levels_above (suc f) level =
    if ltb 1 (length level)
    then (elim (pair_up level) [
      | none ↦ none
      | some next ↦ elim (levels_above f next) [ none ↦ none | some above ↦ some (level ∷ above) ]
    ])
    else some (level ∷ [])

pub upper_layers : List Hash → ℕ → ℕ → Option (List (List Hash))
upper_layers layer layer_number height =
    levels_above (suc (height - layer_number))
      (resize (2 ^ (height - layer_number)) (zero_subtree layer_number) layer)

pub record HashRange : Type 0 where
  pub hashes : List Hash
  pub uncles : List Hash

-- The node beside a position, which has the other lowest bit.
abbrev pub sibling : ℕ → ℕ
sibling position = if position % 2 == 0 then position + 1 else position - 1

-- The uncles in the layers from `j` on, at most `n`, as far as they are below the root.
abbrev pub uncles_of : ℕ → List (List Hash) → ℕ → ℕ → ℕ → ℕ → List Hash
uncles_of zero layers layer_number height index j = []
uncles_of (suc n) layers layer_number height index j =
    let rest = uncles_of n layers layer_number height index (suc j) in
    if ltb (layer_number + j) height
    then get_or (get_or layers j []) (sibling (index / 2 ^ j)) [] ∷ rest
    else []

-- `none` within is a panic, and outside a request that is refused.
pub hash_range : List Hash → ℕ → ℕ → ℕ → ℕ → ℕ → Option (Option HashRange)
unfolding upper_layers
hash_range layer layer_number height index size proof_layers =
    let width = 2 ^ (height - layer_number) in
    let below = trailing_zeros 32 size in
    if is_malformed layer_number height index size
      || ltb width (index + size)
      || ltb width (length layer)
    then none
    else some (elim (upper_layers layer layer_number height) [
      | none ↦ none
      | some layers ↦ some (record {
        hashes = take size (drop index (get_or layers 0 []));
        uncles = uncles_of (suc proof_layers - below) layers layer_number height index below;
      })
    ])
