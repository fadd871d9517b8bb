-- ===== src/Crypto/Merkle/Matches.antt =====
-- src/v2.rs: what `merkle_matches` accepts.
use bittorrent_rs.Prelude.{
  ℕ, zero, suc, ◌*◌, ◌/◌, ◌%◌, ◌^◌, ◌≤◌, ◌<◌, ◌≡◌, refl, inl, inr, true, arith, ◌==◌, Bool-cases,
  length, drop, length-drop, Bytes, bytes_eq_sound, bytes_eq_refl, ne→==_false, eq→==,
  reject-eq_true, or-eq_false, not-eq_false, ltb_false→le, length-map, usize_mod, ge→ltb_false,
}
use bittorrent_rs.Crypto.Merkle.{
  Hash, block, chunks, block_hashes, merkle_matches, saturating_mul, zero_hash, is_power_of_two,
}
use bittorrent_rs.Crypto.Sha256.{sha256}
use bittorrent_rs.Crypto.Merkle.Trees.{tree_root, padded, merkle_root-tree_root, doubled, pow-pos}

pub is_power_of_two_sound : (f n : ℕ) → is_power_of_two f n ≡ true → (k : ℕ) × (n ≡ 2 ^ k)
unfolding is_power_of_two
is_power_of_two_sound zero n h = (0, ground arith)
is_power_of_two_sound (suc f) n h = elim (Bool-cases (n == 1)) [
  | inl one ↦ (0, ground arith)
  | inr more ↦
      let (k, e) = is_power_of_two_sound f (n / 2) (ground arith) in
      (suc k, ground (arith, doubled k))
]

is_power_of_two_pow : (f k : ℕ) → k ≤ f → is_power_of_two f (2 ^ k) ≡ true
unfolding is_power_of_two
is_power_of_two_pow zero zero h = refl
is_power_of_two_pow zero (suc k) h = absurd (omega arith)
is_power_of_two_pow (suc f) zero h = refl
is_power_of_two_pow (suc f) (suc k) h =
    let e = doubled k in
    let half : 2 ^ suc k / 2 ≡ 2 ^ k = omega arith in
    let pos = pow-pos k in
    rw
      (
        ne→==_false (2 ^ suc k) 1 (omega arith),
        ne→==_false (2 ^ suc k) 0 (omega arith),
        eq→== (2 ^ suc k % 2) 0 (omega arith),
        half,
      )
      (is_power_of_two_pow f k (omega arith))

length-chunks :
    (f : ℕ) (bytes : Bytes) (n : ℕ) → length bytes ≤ n * block → length (chunks f bytes) ≤ n
unfolding chunks
length-chunks zero bytes n h = omega arith
length-chunks (suc f) bytes zero h = ground arith
length-chunks (suc f) bytes (suc n) h = elim (Bool-cases (length bytes == 0)) [
  | inl none_left ↦ rw none_left (omega arith)
  | inr more ↦
      rw more (
        omega
          (arith, length-chunks f (drop block bytes) n (omega (arith, length-drop block bytes))))
]

length-block_hashes :
    (bytes : Bytes) (n : ℕ) → length bytes ≤ n * block → length (block_hashes bytes) ≤ n
unfolding block_hashes
length-block_hashes bytes n h =
    rw (length-map sha256 (chunks (length bytes) bytes)) (length-chunks (length bytes) bytes n h)

-- A piece is accepted only if the width is a power of two, 2 ^ k, the piece has at most that many
-- blocks, and the perfect tree of height `k` over the hashes of its blocks, padded with zero hashes,
-- has the given root.
pub merkle_matches_sound :
    (bytes : Bytes) (width : ℕ) (root : Hash)
    → merkle_matches bytes width root ≡ true
    → (k : ℕ) × (width ≡ 2 ^ k)
      × (length bytes ≤ width * block)
      × (tree_root k (padded (block_hashes bytes) width zero_hash) ≡ root)
unfolding merkle_matches saturating_mul
merkle_matches_sound bytes width root h =
    let (refused, found) = reject-eq_true _ h in
    let (power, room) = or-eq_false _ refused in
    let (k, e) = is_power_of_two_sound 63 width (not-eq_false _ power) in
    let fits : length bytes ≤ width * block = omega (arith, ltb_false→le _ _ room) in
    let few : length (block_hashes bytes) ≤ 2 ^ k =
      rw (← e) (length-block_hashes bytes width fits) in
    (
      k,
      e,
      fits,
      rw e (
          bytes_eq_sound _ _
            (rw (e, merkle_root-tree_root k (block_hashes bytes) zero_hash few) at found)),
    )

-- And such a piece is accepted: `k` is at most 63, as for any power of two in `usize`.
pub merkle_matches_complete :
    (bytes : Bytes) (k : ℕ)
    → k ≤ 63
    → length bytes < usize_mod
    → length bytes ≤ 2 ^ k * block
    → merkle_matches bytes (2 ^ k) (tree_root k (padded (block_hashes bytes) (2 ^ k) zero_hash))
      ≡ true
unfolding merkle_matches saturating_mul
merkle_matches_complete bytes k p q h =
    rw
      (
        is_power_of_two_pow 63 k p,
        ge→ltb_false (saturating_mul (2 ^ k) block) (length bytes) (omega arith),
        merkle_root-tree_root k (block_hashes bytes) zero_hash
            (length-block_hashes bytes (2 ^ k) h),
      )
      (bytes_eq_refl (tree_root k (padded (block_hashes bytes) (2 ^ k) zero_hash)))
