-- ===== src/Peer/Message.antt =====
-- src/peer/message.rs: length-prefixed peer wire messages (BEP 3, 6, 10, 52). A reader is the list of
-- the bytes that are still to come.
pub mod Fields
pub mod RoundTrip
mod Examples
use bittorrent_rs.Prelude.{
  ℕ, zero, suc, ◌+◌, ◌-◌, ◌/◌, ◌%◌, ◌*◌, ◌^◌, Bool, Option, none, some, List, [], ◌∷◌, ◌++◌, ltb,
  ◌==◌, if◌then◌else◌, not, length, take, drop, get_or, Bytes, be16, be32, from_be, be_u32, u32_mod,
  div_ceil,
}

abbrev pub max_message_len : ℕ
max_message_len = 1048576

-- Which hashes of a file's merkle tree.
pub record HashRequest : Type 0 where
  pub root : Bytes
  pub base_layer : ℕ
  pub index : ℕ
  pub hashes_length : ℕ
  pub proof_layers : ℕ

abbrev pub hash_request_len : ℕ
hash_request_len = 48

pub data Message : Type 0 where
  keep_alive choke unchoke interested not_interested : Message
  have : (piece_index : ℕ) → Message
  bitfield : Bytes → Message
  request : (index begin len : ℕ) → Message
  piece : (index begin : ℕ) → (block : Bytes) → Message
  cancel : (index begin len : ℕ) → Message
  port : ℕ → Message
  suggest : (piece_index : ℕ) → Message
  have_all have_none : Message
  reject_request : (index begin len : ℕ) → Message
  allowed_fast : (piece_index : ℕ) → Message
  extended : (id : ℕ) → (payload : Bytes) → Message
  hash_request : HashRequest → Message
  hashes : HashRequest → List Bytes → Message
  hash_reject : HashRequest → Message

-- `io_eof` is the error of `read_exact` on a reader that ends.
pub data WireError : Type 0 where
  io_eof : WireError
  message_too_large : ℕ → WireError
  unknown_message_id : ℕ → WireError
  truncated : (expected got : ℕ) → WireError

pub data Result {ℓ} (A : Type ℓ) : Type ℓ where
  err : (failure : WireError) → Result A
  ok : (value : A) → Result A

-- The `?` of the source.
infixl 5 ◌>>=◌ ◌>>◌
abbrev pub ◌>>=◌ {ℓ} : {A B : Type ℓ} → Result A → (A → Result B) → Result B
err failure >>= next = err failure
ok value >>= next = next value

abbrev pub ◌>>◌ {ℓ} : {A B : Type ℓ} → Result A → Result B → Result B
err failure >> next = err failure
ok value >> next = next

-- An early `return Err`.
abbrev pub require : Bool → WireError → Result (Unit {0})
require passed failure = if passed then ok tt else err failure

-- `HashRequest::write`.
pub write_hash_request : HashRequest → Bytes
write_hash_request r =
    r.root ++ (be32 r.base_layer ++ (be32 r.index ++ (be32 r.hashes_length ++ be32 r.proof_layers)))

pub id_of : Message → Option ℕ
id_of keep_alive = none
id_of choke = some 0
id_of unchoke = some 1
id_of interested = some 2
id_of not_interested = some 3
id_of (have i) = some 4
id_of (bitfield bits) = some 5
id_of (request i b l) = some 6
id_of (piece i b block) = some 7
id_of (cancel i b l) = some 8
id_of (port p) = some 9
id_of (suggest i) = some 13
id_of have_all = some 14
id_of have_none = some 15
id_of (reject_request i b l) = some 16
id_of (allowed_fast i) = some 17
id_of (extended id payload) = some 20
id_of (hash_request r) = some 21
id_of (hashes r hs) = some 22
id_of (hash_reject r) = some 23

abbrev pub concat : List Bytes → Bytes
concat [] = []
concat (h ∷ hs) = h ++ concat hs

pub payload_of : Message → Bytes
unfolding write_hash_request
payload_of (have i) = be32 i
payload_of (suggest i) = be32 i
payload_of (allowed_fast i) = be32 i
payload_of (bitfield bits) = bits
payload_of (request i b l) = be32 i ++ (be32 b ++ be32 l)
payload_of (cancel i b l) = be32 i ++ (be32 b ++ be32 l)
payload_of (reject_request i b l) = be32 i ++ (be32 b ++ be32 l)
payload_of (piece i b block) = be32 i ++ (be32 b ++ block)
payload_of (port p) = be16 p
payload_of (extended id payload) = id ∷ payload
payload_of (hash_request r) = write_hash_request r
payload_of (hash_reject r) = write_hash_request r
payload_of (hashes r hs) = write_hash_request r ++ concat hs
payload_of _ = []

frame : Option ℕ → Bytes → Bytes
frame none payload = be32 0
frame (some id) payload = be32 ((1 + length payload) % u32_mod) ++ id ∷ payload

pub to_bytes : Message → Bytes
unfolding id_of payload_of frame
to_bytes m = frame (id_of m) (payload_of m)

pub read_u32 : Bytes → ℕ → Result ℕ
read_u32 payload offset = elim (be_u32 payload offset) [
  | none ↦ err (truncated (offset + 4) (length payload))
  | some n ↦ ok n
]

-- `HashRequest::read`.
pub read_hash_request : Bytes → Result HashRequest
unfolding read_u32
read_hash_request payload = do
  require (not (ltb (length payload) hash_request_len))
      (truncated hash_request_len (length payload))
  base_layer ← read_u32 payload 32
  index ← read_u32 payload 36
  hashes_length ← read_u32 payload 40
  proof_layers ← read_u32 payload 44
  ok (record {
    root = take 32 payload;
    base_layer = base_layer;
    index = index;
    hashes_length = hashes_length;
    proof_layers = proof_layers;
  })

-- A message with one number, and one with three.
abbrev pub read_index : (ℕ → Message) → Bytes → Result Message
read_index make payload = do i ← read_u32 payload 0; ok (make i)

abbrev pub read_block : (ℕ → ℕ → ℕ → Message) → Bytes → Result Message
read_block make payload = do
  i ← read_u32 payload 0
  b ← read_u32 payload 4
  l ← read_u32 payload 8
  ok (make i b l)

pub read_piece : Bytes → Result Message
unfolding read_u32
read_piece payload = do
  require (not (ltb (length payload) 8)) (truncated 8 (length payload))
  i ← read_u32 payload 0
  b ← read_u32 payload 4
  ok (piece i b (drop 8 payload))

pub read_port : Bytes → Result Message
read_port payload = do
  require (not (ltb (length payload) 2)) (truncated 2 (length payload))
  ok (port (from_be 0 (take 2 payload)))

-- `as_chunks::<32>().0`: `n` chunks of 32 bytes.
abbrev pub chunks_32 : ℕ → Bytes → List Bytes
chunks_32 zero bytes = []
chunks_32 (suc n) bytes = take 32 bytes ∷ chunks_32 n (drop 32 bytes)

pub read_hashes : Bytes → Result Message
unfolding read_hash_request
read_hashes payload = do
  r ← read_hash_request payload
  let rest = drop hash_request_len payload
  require (length rest % 32 == 0)
      (truncated (hash_request_len + div_ceil (length rest) 32 * 32) (length payload))
  ok (hashes r (chunks_32 (length rest / 32) rest))

pub read_extended : Bytes → Result Message
read_extended [] = err (truncated 1 0)
read_extended (id ∷ payload) = ok (extended id payload)

-- The body of a message, by its id.
pub read_body : ℕ → Bytes → Result Message
unfolding read_piece read_port read_hashes read_extended
read_body id payload =
    if id == 0
    then ok choke
    else if id == 1
    then ok unchoke
    else if id == 2
    then ok interested
    else if id == 3
    then ok not_interested
    else if id == 4
    then read_index have payload
    else if id == 5
    then ok (bitfield payload)
    else if id == 6
    then read_block request payload
    else if id == 7
    then read_piece payload
    else if id == 8
    then read_block cancel payload
    else if id == 13
    then read_index suggest payload
    else if id == 14
    then ok have_all
    else if id == 15
    then ok have_none
    else if id == 16
    then read_block reject_request payload
    else if id == 17
    then read_index allowed_fast payload
    else if id == 9
    then read_port payload
    else if id == 21
    then (read_hash_request payload >>= λ r. ok (hash_request r))
    else if id == 23
    then (read_hash_request payload >>= λ r. ok (hash_reject r))
    else if id == 22
    then read_hashes payload
    else if id == 20
    then read_extended payload
    else err (unknown_message_id id)

-- `read_exact` of `n` bytes: the bytes, and the reader after them.
abbrev pub read_exact : ℕ → Bytes → Result (Bytes × Bytes)
read_exact n reader =
    if ltb (length reader) n then err io_eof else ok (take n reader, drop n reader)

pub read_from : Bytes → Result (Message × Bytes)
unfolding read_body
read_from reader = do
  (len_buf, reader₁) ← read_exact 4 reader
  let len = from_be 0 len_buf
  if len == 0
      then ok (keep_alive, reader₁)
      else if ltb max_message_len len
      then err (message_too_large len)
      else do
        (body, reader₂) ← read_exact len reader₁
        m ← read_body (get_or body 0 0) (drop 1 body)
        ok (m, reader₂)
