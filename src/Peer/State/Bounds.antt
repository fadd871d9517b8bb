-- ===== src/Peer/State/Bounds.antt =====
-- src/peer/state.rs: what a peer can make us remember about it, whatever it sends.
use bittorrent_rs.Prelude.{
  ℕ, ◌+◌, ◌-◌, ◌≤◌, ◌<◌, ◌≡◌, refl, min, Bool, true, false, ◌&&◌, List, [], ◌∷◌, arith, ltb, leb,
  ltb→lt, leb→le, leb_false→lt, length, replicate, contains, length-append, length-set, length-take,
  length-replicate, All, Bool-cases, and-eq_true, inl, inr,
}
use bittorrent_rs.Peer.Message.{
  Message, keep_alive, choke, unchoke, interested, not_interested, have, bitfield, request, piece,
  cancel, port, suggest, have_all, have_none, reject_request, allowed_fast, extended, hash_request,
  hashes, hash_reject,
}
use bittorrent_rs.Peer.State.{
  PeerState, for_torrent, ensure_capacity, bytes_to_bitfield, insert_allowed, apply_message,
  max_allowed_fast, max_tracked_pieces,
}

-- What is remembered of a peer stays within the torrent of `limit` pieces.
abbrev pub Bounded : ℕ → PeerState → Type 0
Bounded limit s =
    (s.piece_limit ≡ limit)
    × (length s.peer_has_pieces ≤ limit)
    × (length s.allowed ≤ max_allowed_fast)
    × All (λ i. i < limit) s.allowed

length-ensure_capacity :
    (limit index : ℕ) (pieces : List Bool)
    → index < limit
    → length pieces ≤ limit
    → length (ensure_capacity index pieces) ≤ limit
length-ensure_capacity limit index pieces h k = elim (Bool-cases (leb (length pieces) index)) [
  | inl low ↦
      let le : length pieces ≤ index = leb→le (length pieces) index low in
      let grow : List Bool = replicate (index + 1 - length pieces) false in
      rw low (
        omega
          (arith, length-append pieces grow, length-replicate (index + 1 - length pieces) false))
  | inr high ↦ rw high k
]

insert_allowed-Bounded :
    (limit i : ℕ) (xs : List ℕ)
    → i < limit
    → length xs < max_allowed_fast
    → All (λ i. i < limit) xs
    → (length (insert_allowed i xs) ≤ max_allowed_fast) × All (λ i. i < limit) (insert_allowed i xs)
insert_allowed-Bounded limit i xs h k v = elim (Bool-cases (contains xs i)) [
  | inl e ↦ rw e (omega arith, v)
  | inr e ↦ rw e (omega arith, (h, v))
]

apply_message-Bounded :
    (limit : ℕ) (s : PeerState) (m : Message)
    → Bounded limit s
    → Bounded limit (apply_message s m).0
unfolding apply_message
apply_message-Bounded limit s (have index) b = elim (Bool-cases (leb s.piece_limit index)) [
  | inl out ↦ rw out b
  | inr in_range ↦
      let lt : index < s.piece_limit = leb_false→lt s.piece_limit index in_range in
      let grown = length-ensure_capacity limit index s.peer_has_pieces (omega (arith, b.0)) b.1 in
      rw in_range (
        b.0,
        omega (arith, grown, length-set (ensure_capacity index s.peer_has_pieces) index true),
        b.2,
        b.3,
      )
]
apply_message-Bounded limit s (bitfield bits) b =
    (b.0, omega (arith, length-take s.piece_limit (bytes_to_bitfield bits), b.0), b.2, b.3)
apply_message-Bounded limit s have_all b =
    (b.0, omega (arith, length-replicate s.piece_limit true, b.0), b.2, b.3)
apply_message-Bounded limit s have_none b = (b.0, omega arith, b.2, b.3)
apply_message-Bounded limit s (allowed_fast index) b =
    elim (Bool-cases (ltb index s.piece_limit && ltb (length s.allowed) max_allowed_fast)) [
      | inl room ↦
          let (low, few) = and-eq_true (ltb index s.piece_limit) room in
          let lt : index < limit = omega (arith, ltb→lt index s.piece_limit low, b.0) in
          let kept =
            insert_allowed-Bounded limit index s.allowed lt
              (ltb→lt (length s.allowed) max_allowed_fast few) b.3 in
          rw room (b.0, b.1, kept.0, kept.1)
      | inr full ↦ rw full b
    ]
apply_message-Bounded limit s keep_alive b = b
apply_message-Bounded limit s choke b = b
apply_message-Bounded limit s unchoke b = b
apply_message-Bounded limit s interested b = b
apply_message-Bounded limit s not_interested b = b
apply_message-Bounded limit s (request i o l) b = b
apply_message-Bounded limit s (piece i o block) b = b
apply_message-Bounded limit s (cancel i o l) b = b
apply_message-Bounded limit s (port p) b = b
apply_message-Bounded limit s (suggest i) b = b
apply_message-Bounded limit s (reject_request i o l) b = b
apply_message-Bounded limit s (extended id payload) b = b
apply_message-Bounded limit s (hash_request r) b = b
apply_message-Bounded limit s (hashes r hs) b = b
apply_message-Bounded limit s (hash_reject r) b = b

-- A connection's messages, in the order they come.
abbrev pub apply_messages : PeerState → List Message → PeerState
apply_messages s [] = s
apply_messages s (m ∷ ms) = apply_messages (apply_message s m).0 ms

apply_messages-kept :
    (limit : ℕ) (s : PeerState) (ms : List Message)
    → Bounded limit s
    → Bounded limit (apply_messages s ms)
apply_messages-kept limit s [] b = b
apply_messages-kept limit s (m ∷ ms) b =
    apply_messages-kept limit (apply_message s m).0 ms (apply_message-Bounded limit s m b)

-- Whatever messages a peer of a torrent of `n` pieces sends, in whatever order, the state that is kept
-- of it describes at most `n` pieces (2^24 if that is less) and at most 64 allowed-fast pieces, all of
-- them pieces of the torrent.
pub apply_messages-Bounded :
    (n : ℕ) (ms : List Message)
    → Bounded (min n max_tracked_pieces) (apply_messages (for_torrent n) ms)
apply_messages-Bounded n ms =
    apply_messages-kept (min n max_tracked_pieces) (for_torrent n) ms
      (refl, omega arith, omega arith, tt)
