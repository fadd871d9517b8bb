-- ===== src/Crypto/Sha256.antt =====
-- src/sha256.rs: SHA-256 with its incremental interface.
pub mod Streaming
mod Examples
use Prim.Native.Nat.{bit_and, bit_or, bit_xor}
use bittorrent_rs.Prelude.{
  ℕ, zero, suc, ◌+◌, ◌-◌, ◌*◌, ◌/◌, ◌%◌, ◌^◌, min, List, [], ◌∷◌, ◌++◌, ltb, if◌then◌else◌, length,
  take, drop, get_or, replicate, Bytes, be32, from_be, add_u32, u64_mod,
}

abbrev round_constants : List ℕ
round_constants =
    0x428a2f98 ∷ 0x71374491 ∷ 0xb5c0fbcf ∷ 0xe9b5dba5 ∷ 0x3956c25b ∷ 0x59f111f1 ∷ 0x923f82a4
    ∷ 0xab1c5ed5 ∷ 0xd807aa98 ∷ 0x12835b01 ∷ 0x243185be ∷ 0x550c7dc3 ∷ 0x72be5d74 ∷ 0x80deb1fe
    ∷ 0x9bdc06a7 ∷ 0xc19bf174 ∷ 0xe49b69c1 ∷ 0xefbe4786 ∷ 0x0fc19dc6 ∷ 0x240ca1cc ∷ 0x2de92c6f
    ∷ 0x4a7484aa ∷ 0x5cb0a9dc ∷ 0x76f988da ∷ 0x983e5152 ∷ 0xa831c66d ∷ 0xb00327c8 ∷ 0xbf597fc7
    ∷ 0xc6e00bf3 ∷ 0xd5a79147 ∷ 0x06ca6351 ∷ 0x14292967 ∷ 0x27b70a85 ∷ 0x2e1b2138 ∷ 0x4d2c6dfc
    ∷ 0x53380d13 ∷ 0x650a7354 ∷ 0x766a0abb ∷ 0x81c2c92e ∷ 0x92722c85 ∷ 0xa2bfe8a1 ∷ 0xa81a664b
    ∷ 0xc24b8b70 ∷ 0xc76c51a3 ∷ 0xd192e819 ∷ 0xd6990624 ∷ 0xf40e3585 ∷ 0x106aa070 ∷ 0x19a4c116
    ∷ 0x1e376c08 ∷ 0x2748774c ∷ 0x34b0bcb5 ∷ 0x391c0cb3 ∷ 0x4ed8aa4a ∷ 0x5b9cca4f ∷ 0x682e6ff3
    ∷ 0x748f82ee ∷ 0x78a5636f ∷ 0x84c87814 ∷ 0x8cc70208 ∷ 0x90befffa ∷ 0xa4506ceb ∷ 0xbef9a3f7
    ∷ 0xc67178f2 ∷ []

abbrev initial_state : List ℕ
initial_state =
    0x6a09e667 ∷ 0xbb67ae85 ∷ 0x3c6ef372 ∷ 0xa54ff53a ∷ 0x510e527f ∷ 0x9b05688c ∷ 0x1f83d9ab
    ∷ 0x5be0cd19 ∷ []

rotate_right : ℕ → ℕ → ℕ
rotate_right x n = bit_or (x / 2 ^ n) (x * 2 ^ (32 - n) % 2 ^ 32)

not_u32 : ℕ → ℕ
not_u32 x = 2 ^ 32 - 1 - x

-- The first `n` words of a block.
block_words : ℕ → Bytes → List ℕ
block_words zero bs = []
block_words (suc n) bs = from_be 0 (take 4 bs) ∷ block_words n (drop 4 bs)

-- The message schedule: `n` more words, the next of them `w[i]`.
schedule : ℕ → ℕ → List ℕ → List ℕ
unfolding rotate_right
schedule zero i w = w
schedule (suc n) i w =
    let a = get_or w (i - 15) 0 in
    let b = get_or w (i - 2) 0 in
    let s0 = bit_xor (bit_xor (rotate_right a 7) (rotate_right a 18)) (a / 2 ^ 3) in
    let s1 = bit_xor (bit_xor (rotate_right b 17) (rotate_right b 19)) (b / 2 ^ 10) in
    let next = add_u32 (add_u32 (add_u32 (get_or w (i - 16) 0) s0) (get_or w (i - 7) 0)) s1 in
    schedule n (i + 1) (w ++ next ∷ [])

-- The eight working variables.
record Working : Type 0 where
  a : ℕ
  b : ℕ
  c : ℕ
  d : ℕ
  e : ℕ
  f : ℕ
  g : ℕ
  h : ℕ

round : Working → ℕ → ℕ → Working
unfolding rotate_right not_u32
round v k w =
    let s1 = bit_xor (bit_xor (rotate_right v.e 6) (rotate_right v.e 11)) (rotate_right v.e 25) in
    let ch = bit_xor (bit_and v.e v.f) (bit_and (not_u32 v.e) v.g) in
    let t1 = add_u32 (add_u32 (add_u32 (add_u32 v.h s1) ch) k) w in
    let s0 = bit_xor (bit_xor (rotate_right v.a 2) (rotate_right v.a 13)) (rotate_right v.a 22) in
    let maj = bit_xor (bit_xor (bit_and v.a v.b) (bit_and v.a v.c)) (bit_and v.b v.c) in
    let t2 = add_u32 s0 maj in
    record {
      a = add_u32 t1 t2;
      b = v.a;
      c = v.b;
      d = v.c;
      e = add_u32 v.d t1;
      f = v.e;
      g = v.f;
      h = v.g;
    }

rounds : Working → List ℕ → List ℕ → Working
unfolding round
rounds v [] ws = v
rounds v (k ∷ ks) [] = v
rounds v (k ∷ ks) (w ∷ ws) = rounds (round v k w) ks ws

load : List ℕ → Working
load s = record {
  a = get_or s 0 0;
  b = get_or s 1 0;
  c = get_or s 2 0;
  d = get_or s 3 0;
  e = get_or s 4 0;
  f = get_or s 5 0;
  g = get_or s 6 0;
  h = get_or s 7 0;
}

add_words : List ℕ → List ℕ → List ℕ
add_words [] ys = []
add_words (x ∷ xs) [] = x ∷ xs
add_words (x ∷ xs) (y ∷ ys) = add_u32 x y ∷ add_words xs ys

pub compress : List ℕ → Bytes → List ℕ
unfolding block_words schedule rounds load add_words
compress state block =
    let w = schedule 48 16 (block_words 16 block) in
    let v = rounds (load state) round_constants w in
    add_words state (v.a ∷ v.b ∷ v.c ∷ v.d ∷ v.e ∷ v.f ∷ v.g ∷ v.h ∷ [])

-- `buffer` has 64 bytes, of which the first `buffered` wait for a whole block.
pub record Sha256 : Type 0 where
  pub state : List ℕ
  pub buffer : Bytes
  pub buffered : ℕ
  pub length_hashed : ℕ

pub new : Sha256
new = record { state = initial_state; buffer = replicate 64 0; buffered = 0; length_hashed = 0 }

-- `buffer[at..at + src.len()].copy_from_slice(src)`
pub copy_into : Bytes → ℕ → Bytes → Bytes
copy_into buf at src = take at buf ++ (src ++ drop (at + length src) buf)

-- The whole blocks of the data are compressed; the state and what is left of the data come back. A
-- block takes a unit of fuel.
pub compress_blocks : ℕ → List ℕ → Bytes → List ℕ × Bytes
compress_blocks zero state rest = (state, rest)
compress_blocks (suc n) state rest =
    let more = compress_blocks n (compress state (take 64 rest)) (drop 64 rest) in
    if ltb (length rest) 64 then (state, rest) else more

-- The second half of `update`: nothing waits in the buffer.
pub update_blocks : Sha256 → Bytes → Sha256
unfolding compress_blocks copy_into
update_blocks s rest =
    let (state, left) = compress_blocks (length rest) s.state rest in
    record s { state = state; buffer = copy_into s.buffer 0 left; buffered = length left }

pub update : Sha256 → Bytes → Sha256
update s bytes =
    let counted = record s { length_hashed = (s.length_hashed + length bytes) % u64_mod } in
    let n = min (64 - s.buffered) (length bytes) in
    let filled = copy_into s.buffer s.buffered (take n bytes) in
    if ltb 0 s.buffered
    then (if ltb (s.buffered + n) 64
        then record counted { buffer = filled; buffered = s.buffered + n }
        else update_blocks
            (record counted { state = compress s.state filled; buffer = filled; buffered = 0 })
            (drop n bytes))
    else update_blocks counted bytes

-- Eight bytes of a 64-bit length.
be64 : ℕ → Bytes
be64 n = be32 (n / 2 ^ 32) ++ be32 n

words_bytes : List ℕ → Bytes
words_bytes [] = []
words_bytes (w ∷ ws) = be32 w ++ words_bytes ws

-- The padding that `finalize` feeds to `update`.
pub tail_of : ℕ → ℕ → Bytes
tail_of buffered hashed =
    (0x80 ∷ replicate ((119 - buffered) % 64) 0) ++ be64 (hashed * 8 % u64_mod)

pub finalize : Sha256 → Bytes
finalize s = words_bytes (update s (tail_of s.buffered s.length_hashed)).state

unfoldable pub sha256 : Bytes → Bytes
sha256 bytes = finalize (update new bytes)
