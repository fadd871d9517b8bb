-- ===== src/Peer/Message/RoundTrip.antt =====
-- src/peer/message.rs: a message that is written is read back.
use bittorrent_rs.Prelude.{
  ℕ, suc, ◌+◌, ◌*◌, ◌/◌, ◌%◌, ◌≤◌, ◌<◌, ◌≡◌, refl, sym, ap, ◌∙◌, none, some, Option, List, [], ◌∷◌,
  ◌++◌, append-nil, arith, length, length-append, take-append, drop-append, Bytes, be32, from_be,
  u32_mod, ge→ltb_false, ne→==_false, All,
}
use bittorrent_rs.Peer.Message.{
  Message, HashRequest, ok, keep_alive, choke, unchoke, interested, not_interested, have, bitfield,
  request, piece, cancel, port, suggest, have_all, have_none, reject_request, allowed_fast,
  extended, hash_request, hashes, hash_reject, read_u32, read_hash_request, write_hash_request,
  hash_request_len, concat, chunks_32, read_piece, read_hashes, read_body, read_from, to_bytes,
  frame, id_of, payload_of, max_message_len,
}
use bittorrent_rs.Peer.Message.Fields.{
  from_be-be32, from_be-be16, read_u32-append, IsWireRequest, read_hash_request-append,
  length-write_hash_request,
}

-- The fields of a message that fit the wire.
abbrev pub FieldsFit : Message → Type 0
FieldsFit (have i) = i < u32_mod
FieldsFit (suggest i) = i < u32_mod
FieldsFit (allowed_fast i) = i < u32_mod
FieldsFit (request i b l) = (i < u32_mod) × (b < u32_mod) × (l < u32_mod)
FieldsFit (cancel i b l) = (i < u32_mod) × (b < u32_mod) × (l < u32_mod)
FieldsFit (reject_request i b l) = (i < u32_mod) × (b < u32_mod) × (l < u32_mod)
FieldsFit (piece i b block) = (i < u32_mod) × (b < u32_mod)
FieldsFit (port p) = p < 65536
FieldsFit (hash_request r) = IsWireRequest r
FieldsFit (hash_reject r) = IsWireRequest r
FieldsFit (hashes r hs) = IsWireRequest r × All (λ h. length h ≡ 32) hs
FieldsFit _ = Unit

read_index-be32 : (i : ℕ) → i < u32_mod → read_u32 (be32 i) 0 ≡ ok i
read_index-be32 i h = read_u32-append [] [] i 0 refl h (omega arith)

module _ (i b : ℕ) (after : Bytes) where
  read_first : i < u32_mod → read_u32 (be32 i ++ (be32 b ++ after)) 0 ≡ ok i
  read_first h = read_u32-append [] (be32 b ++ after) i 0 refl h (omega arith)

  read_second : b < u32_mod → read_u32 (be32 i ++ (be32 b ++ after)) 4 ≡ ok b
  read_second h = read_u32-append (be32 i) after b 4 refl h (omega arith)

read_third : (i b l : ℕ) → l < u32_mod → read_u32 (be32 i ++ (be32 b ++ be32 l)) 8 ≡ ok l
read_third i b l h = read_u32-append (be32 i ++ be32 b) [] l 8 refl h (omega arith)

length-concat :
    (hs : List Bytes) → All (λ h. length h ≡ 32) hs → length (concat hs) ≡ 32 * length hs
length-concat [] h = refl
length-concat (x ∷ hs) h = omega (arith, length-append x (concat hs), h.0, length-concat hs h.1)

chunks_32-concat :
    (hs : List Bytes) → All (λ h. length h ≡ 32) hs → chunks_32 (length hs) (concat hs) ≡ hs
chunks_32-concat [] h = refl
chunks_32-concat (x ∷ hs) h = rw (
  take-append x (concat hs) 32 (omega (arith, h.0)),
  drop-append x (concat hs) 32 (omega (arith, h.0)),
  chunks_32-concat hs h.1,
)

read_piece-payload :
    (i b : ℕ) (block : Bytes)
    → i < u32_mod
    → b < u32_mod
    → read_piece (be32 i ++ (be32 b ++ block)) ≡ ok (piece i b block)
unfolding read_piece
read_piece-payload i b block h k = rw (
  ge→ltb_false (length (be32 i ++ (be32 b ++ block))) 8 (omega arith),
  read_first i b block h,
  read_second i b block k,
)

read_hashes-payload :
    (r : HashRequest) (hs : List Bytes)
    → IsWireRequest r
    → All (λ h. length h ≡ 32) hs
    → read_hashes (write_hash_request r ++ concat hs) ≡ ok (hashes r hs)
unfolding read_hashes
read_hashes-payload r hs v h =
    let size = length-concat hs h in
    let whole : length (concat hs) % 32 ≡ 0 = omega arith in
    let count : length (concat hs) / 32 ≡ length hs = omega arith in
    rw (
      read_hash_request-append r (concat hs) v,
      drop-append (write_hash_request r) (concat hs) hash_request_len
          (sym (length-write_hash_request r v.root)),
      whole,
      count,
      chunks_32-concat hs h,
    )

read_hash_request-written :
    (r : HashRequest) → IsWireRequest r → read_hash_request (write_hash_request r) ≡ ok r
read_hash_request-written r v = rw append-nil at (read_hash_request-append r [] v)

-- The body of each message with an id is read back by that id.
abbrev ReadsBack : Message → Option ℕ → Type 0
ReadsBack m none = m ≡ keep_alive
ReadsBack m (some id) = read_body id (payload_of m) ≡ ok m

read_body-payload_of : (m : Message) → FieldsFit m → ReadsBack m (id_of m)
unfolding read_body id_of payload_of
read_body-payload_of keep_alive h = refl
read_body-payload_of choke h = refl
read_body-payload_of unchoke h = refl
read_body-payload_of interested h = refl
read_body-payload_of not_interested h = refl
read_body-payload_of have_all h = refl
read_body-payload_of have_none h = refl
read_body-payload_of (have i) h = rw (read_index-be32 i h)
read_body-payload_of (suggest i) h = rw (read_index-be32 i h)
read_body-payload_of (allowed_fast i) h = rw (read_index-be32 i h)
read_body-payload_of (bitfield bits) h = refl
read_body-payload_of (request i b l) h =
    rw (read_first i b (be32 l) h.0, read_second i b (be32 l) h.1, read_third i b l h.2)
read_body-payload_of (cancel i b l) h =
    rw (read_first i b (be32 l) h.0, read_second i b (be32 l) h.1, read_third i b l h.2)
read_body-payload_of (reject_request i b l) h =
    rw (read_first i b (be32 l) h.0, read_second i b (be32 l) h.1, read_third i b l h.2)
read_body-payload_of (piece i b block) h = read_piece-payload i b block h.0 h.1
read_body-payload_of (port p) h = ap (λ (x : ℕ). ok (port x)) (from_be-be16 p h)
read_body-payload_of (extended id payload) h = refl
read_body-payload_of (hash_request r) h = rw (read_hash_request-written r h)
read_body-payload_of (hash_reject r) h = rw (read_hash_request-written r h)
read_body-payload_of (hashes r hs) h = read_hashes-payload r hs h.0 h.1

-- A frame that is written is taken off the reader, and nothing behind it.
read_from-frame :
    (id : ℕ) (payload rest : Bytes) (m : Message)
    → 1 + length payload ≤ max_message_len
    → read_body id payload ≡ ok m
    → read_from (frame (some id) payload ++ rest) ≡ ok (m, rest)
unfolding read_from frame
read_from-frame id payload rest m small body =
    let len : ℕ = (1 + length payload) % u32_mod in
    let wrapped : len ≡ suc (length payload) = omega arith in
    let front : from_be 0 (be32 len) ≡ suc (length payload) =
      from_be-be32 len (omega arith) ∙ wrapped in
    let whole : suc (length payload) ≤ suc (length (payload ++ rest)) =
      omega (arith, length-append payload rest) in
    rw (
      ge→ltb_false (length (be32 len ++ id ∷ (payload ++ rest))) 4 (omega arith),
      front,
      ne→==_false (suc (length payload)) 0 (omega arith),
      ge→ltb_false max_message_len (suc (length payload)) (omega arith),
      ge→ltb_false (suc (length (payload ++ rest))) (suc (length payload)) whole,
      take-append payload rest (length payload) refl,
      drop-append payload rest (length payload) refl,
      body,
    )

read_from-keep_alive : (rest : Bytes) → read_from (be32 0 ++ rest) ≡ ok (keep_alive, rest)
unfolding read_from
read_from-keep_alive rest = rw (ge→ltb_false (length (be32 0 ++ rest)) 4 (omega arith))

-- A message whose fields fit the wire and whose frame is within the cap is read back from what it is
-- written as, and what follows it is left on the reader.
pub read_from-to_bytes :
    (m : Message) (rest : Bytes)
    → FieldsFit m
    → 1 + length (payload_of m) ≤ max_message_len
    → read_from (to_bytes m ++ rest) ≡ ok (m, rest)
unfolding to_bytes frame
read_from-to_bytes m rest fit small = go (id_of m) (read_body-payload_of m fit)
  where
    go :
        (id : Option ℕ)
        → ReadsBack m id
        → read_from (frame id (payload_of m) ++ rest) ≡ ok (m, rest)
    go none e = rw e (read_from-keep_alive rest)
    go (some id) e = read_from-frame id (payload_of m) rest m small e
