-- ===== src/Peer/Message/Fields.antt =====
-- src/peer/message.rs and src/bytes.rs: a number written big-endian is read back at its offset.
use bittorrent_rs.Prelude.{
  ℕ, ◌+◌, ◌≤◌, ◌<◌, ◌≡◌, refl, ap, some, ◌++◌, append_assoc, arith, length, length-append, take,
  take-append, drop-append, Bytes, be16, be32, from_be, array_at, be_u32, u32_mod, usize_mod,
  gt→leb_false, le→leb, ge→ltb_false,
}
use bittorrent_rs.Peer.Message.{
  HashRequest, ok, read_u32, read_hash_request, write_hash_request, hash_request_len,
}

pub from_be-be32 : (n : ℕ) → n < u32_mod → from_be 0 (be32 n) ≡ n
from_be-be32 n h = omega arith

pub from_be-be16 : (n : ℕ) → n < 65536 → from_be 0 (be16 n) ≡ n
from_be-be16 n h = omega arith

-- The bytes at an offset, where the buffer has them.
pub array_at-append :
    (before xs after : Bytes)
    → length before + length xs < usize_mod
    → array_at (length xs) (before ++ (xs ++ after)) (length before) ≡ some xs
unfolding array_at
array_at-append before xs after h = rw (
  gt→leb_false usize_mod (length before + length xs) h,
  le→leb (length before + length xs) (length (before ++ (xs ++ after)))
      (omega (arith, length-append before (xs ++ after), length-append xs after)),
  drop-append before (xs ++ after) (length before) refl,
  take-append xs after (length xs) refl,
)

pub be_u32-append :
    (before after : Bytes) (n : ℕ)
    → n < u32_mod
    → length before + 4 < usize_mod
    → be_u32 (before ++ (be32 n ++ after)) (length before) ≡ some n
unfolding be_u32
be_u32-append before after n h k =
    rw (array_at-append before (be32 n) after k, be_u32) (ap some (from_be-be32 n h))

pub read_u32-append :
    (before after : Bytes) (n at : ℕ)
    → at ≡ length before
    → n < u32_mod
    → at + 4 < usize_mod
    → read_u32 (before ++ (be32 n ++ after)) at ≡ ok n
unfolding read_u32
read_u32-append before after n at e h k =
    rw (e, be_u32-append before after n h (omega arith), read_u32)

-- The fields of a hash request that fit the wire.
pub record IsWireRequest (r : HashRequest) : Type 0 where
  pub root : length r.root ≡ 32
  pub base_layer : r.base_layer < u32_mod
  pub index : r.index < u32_mod
  pub hashes_length : r.hashes_length < u32_mod
  pub proof_layers : r.proof_layers < u32_mod

pub length-write_hash_request :
    (r : HashRequest) → length r.root ≡ 32 → length (write_hash_request r) ≡ hash_request_len
unfolding write_hash_request
length-write_hash_request r h = omega (arith, length-append r.root _)

-- A number behind two runs of bytes.
read_u32-skip :
    (before xs after : Bytes) (n at : ℕ)
    → at ≡ length before + length xs
    → n < u32_mod
    → at + 4 < usize_mod
    → read_u32 (before ++ (xs ++ (be32 n ++ after))) at ≡ ok n
read_u32-skip before xs after n at e h k =
    rw (← append_assoc before xs (be32 n ++ after))
      (read_u32-append (before ++ xs) after n at (omega (arith, length-append before xs)) h k)

read_hash_request-fields :
    (payload : Bytes) (r : HashRequest)
    → hash_request_len ≤ length payload
    → take 32 payload ≡ r.root
    → read_u32 payload 32 ≡ ok r.base_layer
    → read_u32 payload 36 ≡ ok r.index
    → read_u32 payload 40 ≡ ok r.hashes_length
    → read_u32 payload 44 ≡ ok r.proof_layers
    → read_hash_request payload ≡ ok r
unfolding read_hash_request
read_hash_request-fields payload r size root a b c d =
    rw (ge→ltb_false (length payload) hash_request_len size, a, b, c, d, root)

pub read_hash_request-append :
    (r : HashRequest) (after : Bytes)
    → IsWireRequest r
    → read_hash_request (write_hash_request r ++ after) ≡ ok r
unfolding write_hash_request
read_hash_request-append r after v =
    let a = be32 r.base_layer in
    let b = be32 r.index in
    let c = be32 r.hashes_length in
    let d = be32 r.proof_layers in
    let split : write_hash_request r ++ after ≡ r.root ++ (a ++ (b ++ (c ++ (d ++ after)))) =
      append_assoc r.root _ after in
    rw split (
      read_hash_request-fields _ r
        (omega (arith, v.root, length-append r.root (a ++ (b ++ (c ++ (d ++ after))))))
        (take-append r.root _ 32 (omega (arith, v.root)))
        (read_u32-append r.root _ r.base_layer 32 (omega (arith, v.root)) v.base_layer
          (omega arith))
        (read_u32-skip r.root a _ r.index 36 (omega (arith, v.root)) v.index (omega arith))
        (read_u32-skip r.root (a ++ b) _ r.hashes_length 40 (omega (arith, v.root)) v.hashes_length
          (omega arith))
        (read_u32-skip r.root (a ++ (b ++ c)) _ r.proof_layers 44 (omega (arith, v.root))
          v.proof_layers (omega arith)))
