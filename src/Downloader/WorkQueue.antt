-- ===== src/Downloader/WorkQueue.antt =====
-- src/downloader/queue.rs: the pieces still to be fetched, shared by the connections of a torrent. Each
-- function is one critical section of the queue's mutex.
pub mod Choice
pub mod Counts
pub mod Status
pub mod Endgame
pub mod Completion
pub mod Stash
pub mod Partials
mod Examples
use bittorrent_rs.Prelude.{
  ℕ, zero, suc, ◌+◌, ◌-◌, ◌%◌, ◌≡◌, refl, Bool, true, false, not, ◌&&◌, ◌||◌, Option, none, some,
  List, [], ◌∷◌, ◌++◌, map, ltb, leb, ◌==◌, if◌then◌else◌, length, get_or, get_elem?, set, take,
  replicate, any, filterb, contains, u32_mod, lookup, insert, remove, values,
}
use bittorrent_rs.Downloader.PieceAssembler.{PieceWork, PartialPiece, size, blocks_held}

pub data Order : Type 0 where
  rarest_first sequential : Order

-- What `take_for` found for a peer.
pub data Take : Type 0 where
  piece : PieceWork → Take
  nothing_for_this_peer : Take
  all_done : Take

pub record Inner : Type 0 where
  pub pending : List PieceWork
  pub claimed : List (ℕ × PieceWork)
  pub done : List ℕ
  pub partials_held : List (ℕ × PartialPiece)

-- 64 << 20.
abbrev pub max_stashed_bytes : ℕ
max_stashed_bytes = 67108864

pub record WorkQueue : Type 0 where
  pub inner : Inner
  pub open inner use *
  pub availability : List ℕ
  pub order : Order
  pub preferred : List ℕ

pub new : List PieceWork → ℕ → WorkQueue
new pieces total_pieces = record {
  inner = record { pending = pieces; claimed = []; done = []; partials_held = [] };
  availability = replicate total_pieces 0;
  order = rarest_first;
  preferred = [];
}

pub with_preferred : WorkQueue → List ℕ → WorkQueue
with_preferred q preferred = record q { preferred = preferred }

pub with_order : WorkQueue → Order → WorkQueue
with_order q order = record q { order = order }

-- Lower comes first: (not preferred, availability, index).
abbrev pub Rank : Type 0
Rank = ℕ × ℕ × ℕ

rank_in : Order → WorkQueue → PieceWork → Rank
rank_in rarest_first q w =
    (if contains q.preferred w.index then 0 else 1, get_or q.availability w.index 0, w.index)
rank_in sequential q w = (if contains q.preferred w.index then 0 else 1, 0, w.index)

pub rank : WorkQueue → PieceWork → Rank
unfolding rank_in
rank q w = rank_in q.order q w

abbrev pub rank_lt : Rank → Rank → Bool
rank_lt (a, b, c) (d, e, f) = ltb a d || (a == d && (ltb b e || (b == e && ltb c f)))

-- `filter(has).min_by_key(rank)` with positions counted from `n`: the first of the least.
pub pick_from : (PieceWork → Rank) → (ℕ → Bool) → ℕ → List PieceWork → Option (ℕ × PieceWork)
pick_from key has n [] = none
pick_from key has n (w ∷ ws) =
    let rest = pick_from key has (n + 1) ws in
    if has w.index
    then (elim rest [
      | none ↦ some (n, w)
      | some (m, v) ↦ if rank_lt (key v) (key w) then some (m, v) else some (n, w)
    ])
    else rest

pub last? {ℓ} : {A : Type ℓ} → List A → Option A
last? [] = none
last? (x ∷ []) = some x
last? (x ∷ y ∷ xs) = last? (y ∷ xs)

-- `Vec::swap_remove`: the last entry takes the place of the one removed.
pub swap_remove {ℓ} : {A : Type ℓ} → List A → ℕ → List A
unfolding last?
swap_remove xs i = elim (last? xs) [ none ↦ xs | some l ↦ set (take (length xs - 1) xs) i l ]

abbrev pub is_nil {ℓ} : {A : Type ℓ} → List A → Bool
is_nil [] = true
is_nil (x ∷ xs) = false

pub claim : WorkQueue → ℕ → PieceWork → WorkQueue
unfolding swap_remove
claim q i work = record q {
  inner = record q.inner {
    pending = swap_remove q.pending i;
    claimed = insert work.index work q.claimed;
  };
}

nothing_left : WorkQueue → Take
nothing_left q = if is_nil q.pending && is_nil q.claimed then all_done else nothing_for_this_peer

abbrev pub or_piece : Option (ℕ × PieceWork) → Take → Take
or_piece none taken = taken
or_piece (some (i, work)) taken = piece work

-- The end of `take`, when nothing pending is on offer.
pub take_claimed : WorkQueue → (ℕ → Bool) → Bool → Take
take_claimed q has endgame_duplicates =
    if endgame_duplicates && is_nil q.pending
    then or_piece (pick_from (rank q) has 0 (values q.claimed)) (nothing_left q)
    else nothing_left q

pub take_with : WorkQueue → (ℕ → Bool) → Bool → Take × WorkQueue
take_with q has endgame_duplicates = elim (pick_from (rank q) has 0 q.pending) [
  | some (i, work) ↦ (piece work, claim q i work)
  | none ↦ (take_claimed q has endgame_duplicates, q)
]

pub take_for : WorkQueue → (ℕ → Bool) → Take × WorkQueue
unfolding take_with
take_for q has = take_with q has true

abbrev pub piece_of : Take → Option PieceWork
piece_of (piece work) = some work
piece_of nothing_for_this_peer = none
piece_of all_done = none

pub take_pending_for : WorkQueue → (ℕ → Bool) → Option PieceWork × WorkQueue
take_pending_for q has = let (taken, q') = take_with q has false in (piece_of taken, q')

pub pop : WorkQueue → Option PieceWork × WorkQueue
pop q = let (taken, q') = take_for q (λ _. true) in (piece_of taken, q')

-- Whether a pending piece has the index.
abbrev pub is_pending : WorkQueue → ℕ → Bool
is_pending q index = any (λ w. w.index == index) q.pending

pub push_back : WorkQueue → PieceWork → WorkQueue
push_back q work = if contains q.done work.index then q else record q {
  inner = record q.inner {
    claimed = remove work.index q.claimed;
    pending = if is_pending q work.index then q.pending else q.pending ++ work ∷ [];
  };
}

abbrev pub stash_size : List (ℕ × PartialPiece) → ℕ
stash_size [] = 0
stash_size ((i, p) ∷ m) = size p + stash_size m

-- Whether a stash is there with as many blocks.
abbrev pub is_kept : Option PartialPiece → PartialPiece → Bool
is_kept none p = false
is_kept (some existing) p = leb (blocks_held p) (blocks_held existing)

pub stash_partial : WorkQueue → ℕ → PartialPiece → WorkQueue
stash_partial q index p =
    if contains q.done index
    then q
    else if ltb max_stashed_bytes (stash_size (remove index q.partials_held) + size p)
    then q
    else if is_kept (lookup index q.partials_held) p
    then q
    else record q { inner = record q.inner { partials_held = insert index p q.partials_held } }

pub take_partial : WorkQueue → ℕ → Option PartialPiece × WorkQueue
take_partial q index = (
  lookup index q.partials_held,
  record q { inner = record q.inner { partials_held = remove index q.partials_held } },
)

is_some {ℓ} : {A : Type ℓ} → Option A → Bool
is_some none = false
is_some (some a) = true

pub is_wanted : WorkQueue → ℕ → Bool
unfolding is_some
is_wanted q index =
    not (contains q.done index) && (is_some (lookup index q.claimed) || is_pending q index)

pub any_wanted_in : WorkQueue → List Bool → Bool
any_wanted_in q has =
    any (λ w. get_or has w.index false) q.pending
    || any (λ (index, w). not (contains q.done index) && get_or has index false) q.claimed

pub mark_done : WorkQueue → ℕ → Bool × WorkQueue
mark_done q index = (
  not (contains q.done index),
  record q {
    inner = record {
      done = if contains q.done index then q.done else index ∷ q.done;
      claimed = remove index q.claimed;
      pending = filterb (λ w. not (w.index == index)) q.pending;
      partials_held = remove index q.partials_held;
    };
  },
)

pub is_done : WorkQueue → ℕ → Bool
is_done q index = contains q.done index

pub is_empty : WorkQueue → Bool
is_empty q = is_nil q.pending && is_nil q.claimed

pub len : WorkQueue → ℕ
len q = length q.pending + length q.claimed

pub in_endgame : WorkQueue → Bool
in_endgame q = is_nil q.pending && not (is_nil q.claimed)

abbrev pub bump : ℕ → ℕ
bump count = (count + 1) % u32_mod

pub note_have : WorkQueue → ℕ → WorkQueue
note_have q piece_index = record q {
  availability = elim (get_elem? q.availability piece_index) [
    | none ↦ q.availability
    | some count ↦ set q.availability piece_index (bump count)
  ];
}

-- `availability.iter_mut().zip(have)`.
abbrev pub bump_each : List ℕ → List Bool → List ℕ
bump_each [] have = []
bump_each (c ∷ cs) [] = c ∷ cs
bump_each (c ∷ cs) (h ∷ hs) = (if h then bump c else c) ∷ bump_each cs hs

pub note_bitfield : WorkQueue → List Bool → WorkQueue
note_bitfield q have = record q { availability = bump_each q.availability have }

pub total_pieces : WorkQueue → ℕ
total_pieces q = length q.availability
