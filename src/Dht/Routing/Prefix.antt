-- ===== src/Dht/Routing/Prefix.antt =====
-- src/dht/routing.rs: `bucket_index` is the length of the common prefix of two ids, bit by bit.
use bittorrent_rs.Prelude.{
  ℕ, zero, suc, ◌+◌, ◌*◌, ◌/◌, ◌%◌, ◌^◌, ◌≤◌, ◌<◌, ◌≡◌, refl, sym, ap, ◌∙◌, Bool, true, false, not,
  Option, none, some, List, [], ◌∷◌, ◌++◌, arith, ◌==◌, if◌then◌else◌, length, test_bit, Bool-cases,
  inl, inr, ==→eq, ne→==_false,
}
use bittorrent_rs.Crypto.Merkle.Trees.{doubled}
use bittorrent_rs.Dht.Routing.{
  NodeId, xor_bits, xor_distance, leading_zeros, first_bit, bucket_index,
}

abbrev pub same : Bool → Bool → Bool
same true b = b
same false b = not b

-- The lowest `n` bits of a number, the highest of them first.
abbrev pub bits_of : ℕ → ℕ → List Bool
bits_of zero b = []
bits_of (suc n) b = test_bit n b ∷ bits_of n b

abbrev pub id_bits : NodeId → List Bool
id_bits [] = []
id_bits (b ∷ id) = bits_of 8 b ++ id_bits id

abbrev pub shift : ℕ → Option ℕ → Option ℕ
shift k none = none
shift k (some n) = some (k + n)

-- How many bits two lists have in common, up to the first in which they differ, if there is one.
abbrev pub common : List Bool → List Bool → Option ℕ
common [] ys = none
common (x ∷ xs) [] = none
common (x ∷ xs) (y ∷ ys) = let rest = common xs ys in if same x y then shift 1 rest else some 0

abbrev pub common_prefix : NodeId → NodeId → Option ℕ
common_prefix a b = common (id_bits a) (id_bits b)

parity : (r a b : ℕ) → (((a + b) % 2 + 2 * r) % 2 == 1) ≡ not (same (a % 2 == 1) (b % 2 == 1))
parity r a b = elim (Bool-cases (a % 2 == 1)) [
  | inl p ↦ elim (Bool-cases (b % 2 == 1)) [
    | inl q ↦ rw (p, q) (ground (arith, p, q))
    | inr q ↦ rw (p, q) (ground (arith, p, q))
  ]
  | inr p ↦ elim (Bool-cases (b % 2 == 1)) [
    | inl q ↦ rw (p, q) (ground (arith, p, q))
    | inr q ↦ rw (p, q) (ground (arith, p, q))
  ]
]

test_bit-xor_bits :
    (n i a b : ℕ) → i < n → test_bit i (xor_bits n a b) ≡ not (same (test_bit i a) (test_bit i b))
test_bit-xor_bits zero i a b h = absurd (omega arith)
test_bit-xor_bits (suc n) zero a b h = parity (xor_bits n (a / 2) (b / 2)) a b
test_bit-xor_bits (suc n) (suc i) a b h =
    let half : ((a + b) % 2 + 2 * xor_bits n (a / 2) (b / 2)) / 2 ≡ xor_bits n (a / 2) (b / 2) =
      omega arith in
    rw half (test_bit-xor_bits n i (a / 2) (b / 2) (omega arith))

-- A number of `n` bits, each 0, is 0.
all_zero : (n z : ℕ) → z < 2 ^ n → ((i : ℕ) → i < n → test_bit i z ≡ false) → z ≡ 0
all_zero zero z h bits = omega (arith, h)
all_zero (suc n) z h bits =
    let half =
      all_zero n (z / 2) (omega (arith, h, doubled n)) (λ i k. bits (suc i) (omega arith)) in
    let even = bits 0 (omega arith) in ground (arith, half, even)

xor_bits-small : (n a b : ℕ) → xor_bits n a b < 2 ^ n
xor_bits-small zero a b = omega arith
xor_bits-small (suc n) a b = omega (arith, xor_bits-small n (a / 2) (b / 2), doubled n)

leading_zeros-le : (n z : ℕ) → leading_zeros n z ≤ n
leading_zeros-le zero z = omega arith
leading_zeros-le (suc n) z = elim (Bool-cases (test_bit n z)) [
  | inl e ↦ rw e (omega arith)
  | inr e ↦ rw e (omega (arith, leading_zeros-le n z))
]

leading_zeros-bits : (n z : ℕ) → leading_zeros n z ≡ n → (i : ℕ) → i < n → test_bit i z ≡ false
leading_zeros-bits zero z h i k = absurd (omega arith)
leading_zeros-bits (suc n) z h i k = elim (Bool-cases (test_bit n z)) [
  | inl e ↦ absurd (let none_zero : 0 ≡ suc n = rw e at h in omega (arith, none_zero))
  | inr e ↦
      let rest : suc (leading_zeros n z) ≡ suc n = rw e at h in
      elim (Bool-cases (i == n)) [
        | inl last ↦ let at : i ≡ n = ==→eq i n last in rw at e
        | inr before ↦ leading_zeros-bits n z (omega (arith, rest)) i (ground (arith, k, before))
      ]
]

byte_zero : (z : ℕ) → z < 2 ^ 8 → (z == 0) ≡ (leading_zeros 8 z == 8)
byte_zero z h = elim (Bool-cases (leading_zeros 8 z == 8)) [
  | inl all ↦
      let e : z ≡ 0 = all_zero 8 z h (leading_zeros-bits 8 z (==→eq (leading_zeros 8 z) 8 all)) in
      rw e refl
  | inr some_bit ↦
      rw some_bit (ne→==_false z 0 (λ e. let bad : true ≡ false = rw e at some_bit in cc bad))
]

shift-shift : (k n : ℕ) (o : Option ℕ) → shift k (shift n o) ≡ shift (k + n) o
shift-shift k n none = refl
shift-shift k n (some m) = ap some (omega arith)

shift-zero : (o : Option ℕ) → shift 0 o ≡ o
shift-zero none = refl
shift-zero (some n) = ap some (omega arith)

shift-if :
    (n k : ℕ) (o : Option ℕ)
    → shift 1 (if k == n then shift n o else some k)
      ≡ (if suc k == suc n then shift (suc n) o else some (suc k))
shift-if n k o = elim (Bool-cases (k == n)) [
  | inl e ↦
      let e' : (suc k == suc n) ≡ true = ground (arith, e) in
      let one_more : 1 + n ≡ suc n = omega arith in
      rw (e, e') (shift-shift 1 n o ∙ ap (λ m. shift m o) one_more)
  | inr e ↦
      let e' : (suc k == suc n) ≡ false = ground (arith, e) in rw (e, e') (ap some (omega arith))
]

-- Where `z` has the bits in which `x` and `y` differ.
common-bits_of :
    (n x y z : ℕ) (xs ys : List Bool)
    → ((i : ℕ) → i < n → test_bit i z ≡ not (same (test_bit i x) (test_bit i y)))
    → common (bits_of n x ++ xs) (bits_of n y ++ ys)
      ≡ (if leading_zeros n z == n then shift n (common xs ys) else some (leading_zeros n z))
common-bits_of zero x y z xs ys h = sym (shift-zero (common xs ys))
common-bits_of (suc n) x y z xs ys h = elim (Bool-cases (same (test_bit n x) (test_bit n y))) [
  | inl e ↦
      let bit : test_bit n z ≡ false = h n (omega arith) ∙ ap not e in
      rw (e, bit)
        (ap (shift 1) (common-bits_of n x y z xs ys (λ i k. h i (omega arith)))
          ∙ shift-if n (leading_zeros n z) (common xs ys))
  | inr e ↦
      let bit : test_bit n z ≡ true = h n (omega arith) ∙ ap not e in
      let first : (0 == suc n) ≡ false = ground arith in rw (e, bit) (rw first refl)
]

byte_step :
    (idx lz : ℕ) (is_zero : Bool) (rest c : Option ℕ)
    → is_zero ≡ (lz == 8)
    → rest ≡ shift (suc idx * 8) c
    → (if is_zero then rest else some (idx * 8 + lz))
      ≡ shift (idx * 8) (if lz == 8 then shift 8 c else some lz)
byte_step idx lz is_zero rest c e f = elim (Bool-cases (lz == 8)) [
  | inl all ↦
      let next : suc idx * 8 ≡ idx * 8 + 8 = omega arith in
      rw (e, all) (f ∙ (ap (λ k. shift k c) next ∙ sym (shift-shift (idx * 8) 8 c)))
  | inr here ↦ rw (e, here) refl
]

first_bit-common_prefix :
    (idx : ℕ) (a b : NodeId)
    → first_bit idx (xor_distance a b) ≡ shift (idx * 8) (common_prefix a b)
first_bit-common_prefix idx [] b = refl
first_bit-common_prefix idx (x ∷ a) [] = refl
first_bit-common_prefix idx (x ∷ a) (y ∷ b) =
    let z = xor_bits 8 x y in
    let bits =
      common-bits_of 8 x y z (id_bits a) (id_bits b) (λ i k. test_bit-xor_bits 8 i x y k) in
    let zero_byte = byte_zero z (xor_bits-small 8 x y) in
    byte_step idx (leading_zeros 8 z) (z == 0) (first_bit (suc idx) (xor_distance a b))
      (common_prefix a b) zero_byte (first_bit-common_prefix (suc idx) a b)
    ∙ ap (shift (idx * 8)) (sym bits)

-- The bucket of an id is the number of bits before the first in which it differs from the table's.
pub bucket_index-common_prefix : (a b : NodeId) → bucket_index a b ≡ common_prefix a b
unfolding bucket_index
bucket_index-common_prefix a b = first_bit-common_prefix 0 a b ∙ shift-zero (common_prefix a b)

pub common-within : (xs ys : List Bool) (n : ℕ) → common xs ys ≡ some n → n < length ys
common-within [] ys n e = absurd (cc e)
common-within (x ∷ xs) [] n e = absurd (cc e)
common-within (x ∷ xs) (y ∷ ys) n e = elim (Bool-cases (same x y)) [
  | inl agree ↦ shifted (common xs ys) n (common-within xs ys) (rw agree at e)
  | inr differ ↦
      let first : some 0 ≡ some n = rw differ at e in
      let zero_n : 0 ≡ n = cc first in omega (arith, zero_n)
]
  where
    shifted :
        {m : ℕ} (o : Option ℕ) (n : ℕ)
        → ((k : ℕ) → o ≡ some k → k < m)
        → shift 1 o ≡ some n
        → n < suc m
    shifted none n within e = absurd (cc e)
    shifted (some k) n within e = let next : 1 + k ≡ n = cc e in omega (arith, next, within k refl)

pub length-id_bits : (id : NodeId) → length (id_bits id) ≡ 8 * length id
length-id_bits [] = refl
length-id_bits (b ∷ id) = omega (arith, length-id_bits id)
