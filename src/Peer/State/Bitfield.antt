-- ===== src/Peer/State/Bitfield.antt =====
-- src/peer/state.rs: the bitfield codec, and what a peer that is sent our bitfield takes us to have.
use bittorrent_rs.Prelude.{
  ℕ, zero, suc, ◌+◌, ◌-◌, ◌*◌, ◌/◌, ◌%◌, ◌≤◌, ◌<◌, ◌≡◌, refl, sym, ◌∙◌, Bool, true, false, ◌||◌,
  List, [], ◌∷◌, arith, length, set, get_or, take, replicate, ◌==◌, test_bit, or_bit,
  test_bit-or_bit, test_bit-zero, length-set, length-replicate, length-take, get_or-replicate,
  get_or-set_self, get_or-set_ne, get_or-take, eq_of_get_or, Bytes, div_ceil, inl, inr, Bool-cases,
  ==→eq, eq→==,
}
use bittorrent_rs.Peer.Message.{bitfield}
use bittorrent_rs.Peer.State.{
  PeerState, bytes_to_bitfield, write_bits, bitfield_to_bytes, apply_message,
}

pub length-bytes_to_bitfield : (bs : Bytes) → length (bytes_to_bitfield bs) ≡ 8 * length bs
length-bytes_to_bitfield [] = refl
length-bytes_to_bitfield (b ∷ bs) = omega (arith, length-bytes_to_bitfield bs)

-- Bit `7 - j % 8` of byte `j / 8` is entry `j` of the bitfield.
bit_of :
    (bs : Bytes) (j : ℕ)
    → get_or (bytes_to_bitfield bs) j false ≡ test_bit (7 - j % 8) (get_or bs (j / 8) 0)
bit_of [] j = sym (test_bit-zero (7 - j % 8))
bit_of (b ∷ bs) zero = refl
bit_of (b ∷ bs) (suc zero) = refl
bit_of (b ∷ bs) (suc (suc zero)) = refl
bit_of (b ∷ bs) (suc (suc (suc zero))) = refl
bit_of (b ∷ bs) (suc (suc (suc (suc zero)))) = refl
bit_of (b ∷ bs) (suc (suc (suc (suc (suc zero))))) = refl
bit_of (b ∷ bs) (suc (suc (suc (suc (suc (suc zero)))))) = refl
bit_of (b ∷ bs) (suc (suc (suc (suc (suc (suc (suc zero))))))) = refl
bit_of (b ∷ bs) (suc (suc (suc (suc (suc (suc (suc (suc j)))))))) =
    eight j (suc (suc (suc (suc (suc (suc (suc (suc j)))))))) bs b (omega arith) (bit_of bs j)
  where
    eight :
        (j m : ℕ) (bs : Bytes) (b : ℕ)
        → m ≡ 8 + j
        → get_or (bytes_to_bitfield bs) j false ≡ test_bit (7 - j % 8) (get_or bs (j / 8) 0)
        → get_or (bytes_to_bitfield bs) j false ≡ test_bit (7 - m % 8) (get_or (b ∷ bs) (m / 8) 0)
    eight j m bs b k h =
        let e : m % 8 ≡ j % 8 = omega arith in
        let q : m / 8 ≡ suc (j / 8) = omega arith in rw (e, q) h

same_bit : (i j : ℕ) → i / 8 ≡ j / 8 → (7 - i % 8 == 7 - j % 8) ≡ (i == j)
same_bit i j h = ground arith

-- Setting the bit of piece `i` sets entry `i` and no other.
bits-set :
    (out : Bytes) (i j : ℕ)
    → i / 8 < length out
    → get_or
        (bytes_to_bitfield (set out (i / 8) (or_bit (7 - i % 8) (get_or out (i / 8) 0))))
        j
        false
      ≡ (i == j || get_or (bytes_to_bitfield out) j false)
bits-set out i j h =
    let v = or_bit (7 - i % 8) (get_or out (i / 8) 0) in
    rw (bit_of (set out (i / 8) v) j, bit_of out j)
      (elim (Bool-cases (i / 8 == j / 8)) [
        | inl e ↦
            let same : i / 8 ≡ j / 8 = ==→eq (i / 8) (j / 8) e in
            rw (
              sym same,
              get_or-set_self out (i / 8) v 0 h,
              test_bit-or_bit (7 - i % 8) (7 - j % 8) (get_or out (i / 8) 0),
              same_bit i j same,
            )
        | inr e ↦
            let other : (i == j) ≡ false = ground arith in
            rw (get_or-set_ne out (i / 8) (j / 8) v 0 (λ q. cc (eq→== (i / 8) (j / 8) q, e)), other)
      ])

-- Whether the loop that starts at piece `i` sets entry `j`.
abbrev sets : ℕ → List Bool → ℕ → Bool
sets i [] j = false
sets i (true ∷ pieces) j = i == j || sets (suc i) pieces j
sets i (false ∷ pieces) j = sets (suc i) pieces j

sets-below : (i : ℕ) (pieces : List Bool) (j : ℕ) → j < i → sets i pieces j ≡ false
sets-below i [] j h = refl
sets-below i (true ∷ pieces) j h =
    let e : (i == j) ≡ false = ground arith in rw e (sets-below (suc i) pieces j (omega arith))
sets-below i (false ∷ pieces) j h = sets-below (suc i) pieces j (omega arith)

sets-get_or :
    (i : ℕ) (pieces : List Bool) (j d : ℕ) → j ≡ i + d → sets i pieces j ≡ get_or pieces d false
sets-get_or i [] j d h = refl
sets-get_or i (true ∷ pieces) j zero h = let e : (i == j) ≡ true = ground arith in rw e
sets-get_or i (false ∷ pieces) j zero h = sets-below (suc i) pieces j (omega arith)
sets-get_or i (true ∷ pieces) j (suc d) h =
    let e : (i == j) ≡ false = ground arith in rw e (sets-get_or (suc i) pieces j d (omega arith))
sets-get_or i (false ∷ pieces) j (suc d) h = sets-get_or (suc i) pieces j d (omega arith)

bits-write_bits :
    (i : ℕ) (pieces : List Bool) (out : Bytes) (j : ℕ)
    → i + length pieces ≤ 8 * length out
    → get_or (bytes_to_bitfield (write_bits i pieces out)) j false
      ≡ (sets i pieces j || get_or (bytes_to_bitfield out) j false)
bits-write_bits i [] out j h = refl
bits-write_bits i (true ∷ pieces) out j h =
    let v = or_bit (7 - i % 8) (get_or out (i / 8) 0) in
    let step =
      bits-write_bits (suc i) pieces (set out (i / 8) v) j
        (omega (arith, length-set out (i / 8) v)) in
    ground (arith, step, bits-set out i j (omega arith))
bits-write_bits i (false ∷ pieces) out j h = bits-write_bits (suc i) pieces out j (omega arith)

length-write_bits :
    (i : ℕ) (pieces : List Bool) (out : Bytes) → length (write_bits i pieces out) ≡ length out
length-write_bits i [] out = refl
length-write_bits i (true ∷ pieces) out =
    let v = or_bit (7 - i % 8) (get_or out (i / 8) 0) in
    length-write_bits (suc i) pieces (set out (i / 8) v) ∙ length-set out (i / 8) v
length-write_bits i (false ∷ pieces) out = length-write_bits (suc i) pieces out

zeros-bits : (n j : ℕ) → get_or (bytes_to_bitfield (replicate n 0)) j false ≡ false
zeros-bits n j =
    rw (bit_of (replicate n 0) j, get_or-replicate {A = ℕ} n 0 (j / 8)) (test_bit-zero (7 - j % 8))

-- The bytes of a bitfield hold its flags, and their padding is zero.
bits-bitfield_to_bytes :
    (pieces : List Bool) (j : ℕ)
    → get_or (bytes_to_bitfield (bitfield_to_bytes pieces)) j false ≡ get_or pieces j false
unfolding bitfield_to_bytes
bits-bitfield_to_bytes pieces j =
    let n = div_ceil (length pieces) 8 in
    let out : Bytes = replicate n 0 in
    let size : 0 + length pieces ≤ 8 * length out = omega (arith, length-replicate {A = ℕ} n 0) in
    ground (
      arith,
      bits-write_bits 0 pieces out j size,
      zeros-bits n j,
      sets-get_or 0 pieces j j (omega arith),
    )

length-bitfield_to_bytes :
    (pieces : List Bool) → length (bitfield_to_bytes pieces) ≡ div_ceil (length pieces) 8
unfolding bitfield_to_bytes
length-bitfield_to_bytes pieces =
    length-write_bits 0 pieces (replicate (div_ceil (length pieces) 8) 0)
    ∙ length-replicate (div_ceil (length pieces) 8) 0

-- A peer that tracks as many pieces as our bitfield has, and is sent that bitfield, takes us to have
-- exactly the pieces of it.
pub apply_message-encode_bitfield :
    (s : PeerState) (pieces : List Bool)
    → s.piece_limit ≡ length pieces
    → (apply_message s (bitfield (bitfield_to_bytes pieces))).0.peer_has_pieces ≡ pieces
unfolding apply_message
apply_message-encode_bitfield s pieces h =
    let bits = bytes_to_bitfield (bitfield_to_bytes pieces) in
    let size : length bits ≡ 8 * length (bitfield_to_bytes pieces) =
      length-bytes_to_bitfield (bitfield_to_bytes pieces) in
    let len : length (take s.piece_limit bits) ≡ length pieces =
      omega (arith, length-take s.piece_limit bits, size, length-bitfield_to_bytes pieces, h) in
    eq_of_get_or (take s.piece_limit bits) pieces false len (λ i lt.
      get_or-take s.piece_limit bits i false (omega (arith, lt, len, h))
      ∙ bits-bitfield_to_bytes pieces i)
