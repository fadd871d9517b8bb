-- ===== src/Peer/State.antt =====
-- src/peer/state.rs: the choke and interest flags of one peer, the pieces it has, and the bitfield codec.
pub mod Bitfield
pub mod Bounds
mod Examples
use bittorrent_rs.Prelude.{
  ℕ, zero, suc, ◌+◌, ◌-◌, ◌/◌, ◌%◌, min, Bool, true, false, not, ◌&&◌, ◌||◌, Option, none, List, [],
  ◌∷◌, ◌++◌, ltb, leb, if◌then◌else◌, length, set, get_or, take, replicate, contains, Bytes,
  div_ceil, test_bit, or_bit,
}
use bittorrent_rs.Peer.Message.{
  Message, choke, unchoke, interested, not_interested, have, bitfield, have_all, have_none,
  allowed_fast,
}

-- `allowed` is the set of allowed-fast pieces.
pub record PeerState : Type 0 where
  pub am_choking : Bool
  pub am_interested : Bool
  pub peer_choking : Bool
  pub peer_interested : Bool
  pub peer_has_pieces : List Bool
  pub supports_extensions : Bool
  pub peer_request_limit : Option ℕ
  pub fast : Bool
  pub allowed : List ℕ
  pub piece_limit : ℕ

abbrev pub max_allowed_fast : ℕ
max_allowed_fast = 64

abbrev pub max_tracked_pieces : ℕ
max_tracked_pieces = 16777216

abbrev pub default_state : PeerState
default_state = record {
  am_choking = true;
  am_interested = false;
  peer_choking = true;
  peer_interested = false;
  peer_has_pieces = [];
  supports_extensions = false;
  peer_request_limit = none;
  fast = false;
  allowed = [];
  piece_limit = max_tracked_pieces;
}

abbrev pub for_torrent : ℕ → PeerState
for_torrent piece_count = record default_state { piece_limit = min piece_count max_tracked_pieces }

abbrev pub may_request : PeerState → ℕ → Bool
may_request s piece = not s.peer_choking || (s.fast && contains s.allowed piece)

abbrev pub has_allowed_pieces : PeerState → Bool
has_allowed_pieces s = s.fast && not (leb (length s.allowed) 0)

abbrev pub ensure_capacity : ℕ → List Bool → List Bool
ensure_capacity index pieces =
    if leb (length pieces) index
    then pieces ++ replicate (index + 1 - length pieces) false
    else pieces

-- The bits of a byte, the most significant one first.
abbrev pub byte_bits : ℕ → List Bool
byte_bits b =
    test_bit 7 b
    ∷ test_bit 6 b
    ∷ test_bit 5 b
    ∷ test_bit 4 b
    ∷ test_bit 3 b
    ∷ test_bit 2 b
    ∷ test_bit 1 b
    ∷ test_bit 0 b
    ∷ []

abbrev pub bytes_to_bitfield : Bytes → List Bool
bytes_to_bitfield [] = []
bytes_to_bitfield (b ∷ bs) = byte_bits b ++ bytes_to_bitfield bs

-- The loop over the pieces from `i` on, which sets the bits of `out`.
abbrev pub write_bits : ℕ → List Bool → Bytes → Bytes
write_bits i [] out = out
write_bits i (true ∷ pieces) out =
    write_bits (suc i) pieces (set out (i / 8) (or_bit (7 - i % 8) (get_or out (i / 8) 0)))
write_bits i (false ∷ pieces) out = write_bits (suc i) pieces out

pub bitfield_to_bytes : List Bool → Bytes
bitfield_to_bytes pieces = write_bits 0 pieces (replicate (div_ceil (length pieces) 8) 0)

abbrev pub encode_bitfield : List Bool → Bytes
encode_bitfield = bitfield_to_bytes

-- A set insertion.
abbrev pub insert_allowed : ℕ → List ℕ → List ℕ
insert_allowed i xs = if contains xs i then xs else i ∷ xs

pub apply_message : PeerState → Message → PeerState × Bool
apply_message s choke = (record s { peer_choking = true }, true)
apply_message s unchoke = (record s { peer_choking = false }, true)
apply_message s interested = (record s { peer_interested = true }, true)
apply_message s not_interested = (record s { peer_interested = false }, true)
apply_message s (have index) = if leb s.piece_limit index then (s, false) else (
  record s { peer_has_pieces = set (ensure_capacity index s.peer_has_pieces) index true },
  true,
)
apply_message s (bitfield bits) =
    (record s { peer_has_pieces = take s.piece_limit (bytes_to_bitfield bits) }, true)
apply_message s have_all = (record s { peer_has_pieces = replicate s.piece_limit true }, true)
apply_message s have_none = (record s { peer_has_pieces = [] }, true)
apply_message s (allowed_fast index) =
    if ltb index s.piece_limit && ltb (length s.allowed) max_allowed_fast
    then (record s { allowed = insert_allowed index s.allowed }, true)
    else (s, true)
apply_message s _ = (s, false)
