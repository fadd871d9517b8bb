-- ===== src/Downloader/PieceAssembler.antt =====
-- src/downloader/piece_assembler.rs: the blocks of one piece, requested and received.
pub mod Invariant
pub mod Requests
pub mod Once
pub mod Missing
pub mod Blocks
pub mod Assembly
pub mod Delivery
pub mod Reach
mod Examples
use bittorrent_rs.Prelude.{
  ℕ, zero, suc, ◌+◌, ◌-◌, ◌*◌, ◌/◌, ◌%◌, ◌^◌, min, Bool, true, false, not, ◌&&◌, ◌||◌, Option, none,
  some, List, [], ◌∷◌, ◌++◌, ltb, leb, ◌==◌, if◌then◌else◌, length, get_or, set, take, drop,
  replicate, ◌≡◌, refl, any, count_set, all_set, contains, Bytes, bytes_eq, u32_mod, div_ceil,
  mul_u32, sub_u32,
}
use bittorrent_rs.Crypto.Merkle.{merkle_matches}

abbrev pub block_size : ℕ
block_size = 16 * 1024

pub record Merkle : Type 0 where
  pub root : Bytes
  pub width : ℕ

pub record PieceWork : Type 0 where
  pub index : ℕ
  pub hash : Bytes
  pub length : ℕ
  pub merkle : Option Merkle

-- `Sha1::digest` is of the crate sha1.
unfoldable pub matches : (Bytes → Bytes) → PieceWork → Bytes → Bool
matches sha1 work bytes = elim work.merkle [
  | some merkle ↦ merkle_matches bytes merkle.width merkle.root
  | none ↦ bytes_eq (sha1 bytes) work.hash
]

pub data AssemblerError : Type 0 where
  already_complete : AssemblerError
  block_out_of_range : (begin len piece_length : ℕ) → AssemblerError
  unexpected_block_size : (begin expected got : ℕ) → AssemblerError
  hash_mismatch : AssemblerError

-- `panicked` is an index or a slice out of range.
pub data Result {ℓ} (A : Type ℓ) : Type ℓ where
  ok : A → Result A
  err : AssemblerError → Result A
  panicked : Result A

-- A guard that refuses did not, where there is a result.
pub refuse-ok {ℓ} :
    {A : Type ℓ} (c : Bool) (e : AssemblerError) {r : Result A} {a : A}
    → (if c then err e else r) ≡ ok a
    → (c ≡ false) × (r ≡ ok a)
refuse-ok true e h = cc
refuse-ok false e h = (refl, h)

pub panic-ok {ℓ} :
    {A : Type ℓ} (c : Bool) {r : Result A} {a : A}
    → (if c then panicked else r) ≡ ok a
    → (c ≡ false) × (r ≡ ok a)
panic-ok true h = cc
panic-ok false h = (refl, h)

-- A piece's index, the offset of a block in it and the block's length.
abbrev pub BlockRequest : Type 0
BlockRequest = ℕ × ℕ × ℕ

pub record PartialPiece : Type 0 where
  pub bytes : Bytes
  pub received : List Bool

unfoldable pub blocks_held : PartialPiece → ℕ
blocks_held p = count_set p.received

unfoldable pub size : PartialPiece → ℕ
size p = length p.bytes

pub from_parts : Bytes → List Bool → Option PartialPiece
from_parts bytes received =
    let blocks = div_ceil (length bytes) block_size in
    if length received == blocks && any (λ r. r) received
    then some (record { bytes = bytes; received = received })
    else none

-- The head of `refused` is the back of the vector.
pub record PieceAssembler : Type 0 where
  pub work : PieceWork
  pub buf : Bytes
  pub received : List Bool
  pub next_unrequested_block : ℕ
  pub refused : List ℕ

pub new : PieceWork → PieceAssembler
new work = record {
  work = work;
  buf = replicate work.length 0;
  received = replicate (div_ceil work.length block_size) false;
  next_unrequested_block = 0;
  refused = [];
}

pub resume : PieceWork → PartialPiece → PieceAssembler
unfolding new
resume work partial =
    let fresh = new work in
    if length partial.bytes == length fresh.buf && length partial.received == length fresh.received
    then record fresh { buf = partial.bytes; received = partial.received }
    else fresh

pub into_partial : PieceAssembler → Option PartialPiece
unfolding blocks_held
into_partial a =
    let partial : PartialPiece = record { bytes = a.buf; received = a.received } in
    if ltb 0 (blocks_held partial) then some partial else none

abbrev pub num_blocks : PieceAssembler → ℕ
num_blocks a = length a.received % u32_mod

abbrev pub block_len : PieceAssembler → ℕ → ℕ
block_len a block_idx = min (sub_u32 a.work.length (mul_u32 block_idx block_size)) block_size

abbrev pub request : PieceAssembler → ℕ → BlockRequest
request a block_idx = (a.work.index, mul_u32 block_idx block_size, block_len a block_idx)

-- Whether a block has arrived; its index is in range wherever the program reads it.
abbrev pub has_arrived : PieceAssembler → ℕ → Bool
has_arrived a block_idx = get_or a.received block_idx false

-- The first loop of `next_requests`: at most `room` requests for blocks popped from `refused`, and
-- what is left of it.
pub ask_refused : PieceAssembler → ℕ → List ℕ → List BlockRequest × List ℕ
ask_refused a room [] = ([], [])
ask_refused a zero (b ∷ rest) = ([], b ∷ rest)
ask_refused a (suc room) (b ∷ rest) =
    let skipped = ask_refused a (suc room) rest in
    let asked = ask_refused a room rest in
    if has_arrived a b then skipped else (request a b ∷ asked.0, asked.1)

-- The second loop: at most `room` requests for the `left` blocks from `next` on, and the new cursor.
pub ask_fresh : PieceAssembler → ℕ → ℕ → ℕ → List BlockRequest × ℕ
ask_fresh a room zero next = ([], next)
ask_fresh a zero (suc left) next = ([], next)
ask_fresh a (suc room) (suc left) next =
    let skipped = ask_fresh a (suc room) left (next + 1) in
    let asked = ask_fresh a room left (next + 1) in
    if has_arrived a next then skipped else (request a next ∷ asked.0, asked.1)

pub next_requests : PieceAssembler → ℕ → List BlockRequest × PieceAssembler
next_requests a max_new =
    let (again, refused) = ask_refused a max_new a.refused in
    let next = a.next_unrequested_block in
    let (fresh, next') = ask_fresh a (max_new - length again) (num_blocks a - next) next in
    (again ++ fresh, record a { next_unrequested_block = next'; refused = refused })

pub forget_requests : PieceAssembler → PieceAssembler
forget_requests a = record a { next_unrequested_block = 0; refused = [] }

pub refuse_request : PieceAssembler → ℕ → PieceAssembler
refuse_request a begin =
    let block_idx = begin / block_size in
    let asked = ltb block_idx a.next_unrequested_block in
    let on_a_boundary = mul_u32 block_idx block_size == begin in
    if asked && on_a_boundary && not (has_arrived a block_idx) && not (contains a.refused block_idx)
    then record a { refused = block_idx ∷ a.refused }
    else a

pub is_complete : PieceAssembler → Bool
is_complete a = all_set a.received

pub missing_block_count : PieceAssembler → ℕ
missing_block_count a = length a.received - count_set a.received

-- `buf[begin..begin + bytes.len()].copy_from_slice(bytes)`, in range.
abbrev pub write_at : Bytes → ℕ → Bytes → Bytes
write_at buf begin bytes = take begin buf ++ (bytes ++ drop (begin + length bytes) buf)

-- The two writes of `record_block`: the slices must have one length and lie in the buffer, and the
-- flag must exist.
pub store_block : PieceAssembler → ℕ → Bytes → Result PieceAssembler
store_block a begin bytes =
    let block_idx = begin / block_size in
    if not (length bytes == length bytes % u32_mod) || ltb (length a.buf) (begin + length bytes)
    then panicked
    else if leb (length a.received) block_idx
    then panicked
    else ok
        (record a { buf = write_at a.buf begin bytes; received = set a.received block_idx true })

pub record_block : PieceAssembler → ℕ → Bytes → Result PieceAssembler
unfolding is_complete store_block
record_block a begin bytes =
    let len = length bytes % u32_mod in
    let out_of_range = block_out_of_range begin len a.work.length in
    let expected = block_len a (begin / block_size) in
    if is_complete a
    then err already_complete
    else if leb u32_mod (begin + len)
    then err out_of_range
    else if ltb a.work.length (begin + len)
    then err out_of_range
    else if not (len == expected)
    then err (unexpected_block_size begin expected len)
    else store_block a begin bytes

pub finish : (Bytes → Bytes) → PieceAssembler → Result Bytes
finish sha1 a =
    if not (is_complete a)
    then err already_complete
    else if not (matches sha1 a.work a.buf)
    then err hash_mismatch
    else ok a.buf
