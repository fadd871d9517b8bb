-- ===== src/Crypto/Merkle.antt =====
-- src/v2.rs, the trees: SHA-256 merkle trees over 16 KiB blocks (BEP 52).
pub mod Trees
pub mod Matches
pub mod Ranges
mod Examples
use bittorrent_rs.Prelude.{
  ℕ, zero, suc, ◌-◌, ◌*◌, ◌/◌, ◌%◌, Bool, true, false, ◌&&◌, ◌||◌, not, Option, none, some, List,
  [], ◌∷◌, ◌++◌, map, min, max, ltb, leb, ◌==◌, if◌then◌else◌, length, take, drop, get_elem?,
  replicate, Bytes, bytes_eq, usize_mod,
}
use bittorrent_rs.Crypto.Sha256
use bittorrent_rs.Crypto.Sha256.{sha256}

abbrev pub block : ℕ
block = 16384

abbrev pub Hash : Type 0
Hash = Bytes

pub parent : Hash → Hash → Hash
parent left right = Sha256.finalize (Sha256.update (Sha256.update Sha256.new left) right)

abbrev pub zero_hash : Hash
zero_hash = replicate 32 0

-- The loop of `zero_subtree`.
climb : ℕ → Hash → Hash
climb zero hash = hash
climb (suc n) hash = climb n (parent hash hash)

pub zero_subtree : ℕ → Hash
unfolding climb
zero_subtree height = climb height zero_hash

-- `Vec::resize`.
abbrev pub resize {ℓ} : {A : Type ℓ} → ℕ → A → List A → List A
resize n v xs = take n xs ++ replicate (n - length xs) v

-- `level.chunks(2).map(|pair| parent(&pair[0], &pair[1]))`; `none` is the panic on a last chunk of one.
pub pair_up : List Hash → Option (List Hash)
pair_up [] = some []
pair_up (x ∷ []) = none
pair_up (x ∷ y ∷ rest) = elim (pair_up rest) [
  | none ↦ none
  | some level ↦ some (parent x y ∷ level)
]

-- The loop of `merkle_root`, a unit of fuel for each level; `none` is a panic, or too little fuel.
reduce : ℕ → List Hash → Option Hash
reduce zero level = none
reduce (suc f) level =
    let above : Option Hash = elim (pair_up level) [ none ↦ none | some next ↦ reduce f next ] in
    if ltb 1 (length level) then above else get_elem? level 0

pub merkle_root : List Hash → ℕ → Hash → Option Hash
merkle_root leaves width pad =
    let level = resize (max width 1) pad leaves in reduce (length level) level

-- `data.chunks(BLOCK)`, a unit of fuel for each chunk.
chunks : ℕ → Bytes → List Bytes
chunks zero bytes = []
chunks (suc f) bytes =
    let more = take block bytes ∷ chunks f (drop block bytes) in
    if length bytes == 0 then [] else more

pub block_hashes : Bytes → List Hash
block_hashes bytes = map sha256 (chunks (length bytes) bytes)

pub piece_hash : Bytes → ℕ → Option Hash
piece_hash bytes piece_length = merkle_root (block_hashes bytes) (piece_length / block) zero_hash

-- `usize::is_power_of_two`: halving an even number 64 times at most comes to one.
pub is_power_of_two : ℕ → ℕ → Bool
is_power_of_two zero n = n == 1
is_power_of_two (suc f) n =
    let rest = is_power_of_two f (n / 2) in
    if n == 1 then true else if n == 0 then false else if n % 2 == 0 then rest else false

saturating_mul : ℕ → ℕ → ℕ
saturating_mul a b = min (a * b) (usize_mod - 1)

-- `root == *expected`. A panic of `merkle_root` counts as no match; the guard rules it out.
abbrev pub root_is : Option Hash → Hash → Bool
root_is none root = false
root_is (some found) root = bytes_eq found root

pub merkle_matches : Bytes → ℕ → Hash → Bool
merkle_matches bytes width root =
    if not (is_power_of_two 63 width) || ltb (saturating_mul width block) (length bytes)
    then false
    else root_is (merkle_root (block_hashes bytes) width zero_hash) root
