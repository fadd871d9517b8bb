-- ===== src/Choker.antt =====
-- src/choker.rs: who is unchoked. The lock is held for the whole of each operation, so that one
-- operation is one step of the state.
pub mod Choose
pub mod Slots
pub mod Rounds
mod Examples
use bittorrent_rs.Prelude.{
  ℕ, zero, suc, ◌+◌, ◌-◌, ◌%◌, Bool, true, false, not, ◌&&◌, ◌||◌, Option, none, some, List, [],
  ◌∷◌, map, ltb, leb, ◌==◌, if◌then◌else◌, length, take, filterb, any, contains, u64_mod, lookup,
  insert, remove,
}

abbrev pub default_slots : ℕ
default_slots = 4

abbrev pub optimistic_every : ℕ
optimistic_every = 3

pub record Candidate : Type 0 where
  pub id : ℕ
  pub interested : Bool
  pub uploaded : ℕ
  pub downloaded : ℕ

-- Whether the order of `choose` puts `a` strictly before `b`.
abbrev pub before : Candidate → Candidate → Bool
before a b =
    if ltb b.downloaded a.downloaded
    then true
    else if ltb a.downloaded b.downloaded
    then false
    else if ltb b.uploaded a.uploaded
    then true
    else if ltb a.uploaded b.uploaded
    then false
    else ltb a.id b.id

-- `sort_by`, which is stable.
abbrev pub place : Candidate → List Candidate → List Candidate
place c [] = c ∷ []
place c (d ∷ ds) = if before d c then d ∷ place c ds else c ∷ d ∷ ds

abbrev pub sort : List Candidate → List Candidate
sort [] = []
sort (c ∷ cs) = place c (sort cs)

-- A set of ids, as a list without repetition.
abbrev pub insert_id : ℕ → List ℕ → List ℕ
insert_id id ids = if contains ids id then ids else id ∷ ids

abbrev pub collect_ids : List Candidate → List ℕ
collect_ids [] = []
collect_ids (c ∷ cs) = insert_id c.id (collect_ids cs)

abbrev pub is_interested : Candidate → Bool
is_interested c = c.interested

-- The interested candidates, the best first.
abbrev pub ranked : List Candidate → List Candidate
ranked peers = sort (filterb is_interested peers)

abbrev pub first_not_in : List ℕ → List Candidate → Option Candidate
first_not_in chosen [] = none
first_not_in chosen (c ∷ cs) = if contains chosen c.id then first_not_in chosen cs else some c

-- `optimistic.filter(...)`.
abbrev pub admissible : Option ℕ → List Candidate → List ℕ → Option ℕ
admissible none ranking chosen = none
admissible (some id) ranking chosen =
    if any (λ c. c.id == id) ranking && not (contains chosen id) then some id else none

abbrev pub add_next : Option Candidate → List ℕ → List ℕ
add_next none chosen = chosen
add_next (some next) chosen = insert_id next.id chosen

-- The last slot: the optimistic peer, or the next best.
abbrev pub fill_last : Option ℕ → List Candidate → List ℕ → List ℕ
fill_last (some id) ranking chosen = insert_id id chosen
fill_last none ranking chosen = add_next (first_not_in chosen ranking) chosen

pub choose : List Candidate → ℕ → Option ℕ → List ℕ
choose peers slots optimistic =
    if slots == 0
    then []
    else let ranking = ranked peers in
      let regular = if slots == 1 then 1 else slots - 1 in
      let chosen = collect_ids (take regular ranking) in
      if ltb 1 slots
      then fill_last (admissible optimistic ranking chosen) ranking chosen
      else chosen

pub record Slot : Type 0 where
  pub interested : Bool
  pub unchoked : Bool
  pub uploaded : ℕ
  pub downloaded : ℕ

-- The peers stand in the order of their ids, as in the ordered map of the source: an id that is given
-- out is larger than the ones before it.
pub record State : Type 0 where
  pub peers : List (ℕ × Slot)
  pub next_id : ℕ
  pub optimistic : Option ℕ
  pub round : ℕ

pub record Choker : Type 0 where
  pub slots : ℕ
  pub state : State

abbrev pub new : ℕ → Choker
new slots = record {
  slots = slots;
  state = record { peers = []; next_id = 0; optimistic = none; round = 0 };
}

abbrev pub fresh_slot : Slot
fresh_slot = record { interested = false; unchoked = false; uploaded = 0; downloaded = 0 }

-- A change of one peer's slot: `get_mut`.
abbrev pub modify : ℕ → (Slot → Slot) → List (ℕ × Slot) → List (ℕ × Slot)
modify k f [] = []
modify k f ((j, slot) ∷ peers) =
    if j == k then (j, f slot) ∷ peers else (j, slot) ∷ modify k f peers

abbrev pub modify_peer : Choker → ℕ → (Slot → Slot) → Choker
modify_peer c id f = record c { state = record c.state { peers = modify id f c.state.peers } }

abbrev pub count_unchoked : List (ℕ × Slot) → ℕ
count_unchoked [] = 0
count_unchoked ((j, slot) ∷ peers) =
    if slot.unchoked then suc (count_unchoked peers) else count_unchoked peers

pub register : Choker → Choker × ℕ
register c =
    let id = c.state.next_id in
    (
      record c {
        state = record c.state { next_id = suc id; peers = insert id fresh_slot c.state.peers };
      },
      id,
    )

abbrev pub is_optimistic : Option ℕ → ℕ → Bool
is_optimistic none id = false
is_optimistic (some o) id = o == id

pub unregister : Choker → ℕ → Choker
unregister c id = record c {
  state = record c.state {
    peers = remove id c.state.peers;
    optimistic = if is_optimistic c.state.optimistic id then none else c.state.optimistic;
  };
}

abbrev pub want : Bool → Slot → Slot
want interested slot = record slot {
  interested = interested;
  unchoked = slot.unchoked && interested;
}

pub set_interested : Choker → ℕ → Bool → Choker
set_interested c id interested = modify_peer c id (want interested)

pub grant_if_free : Choker → ℕ → Choker × Bool
grant_if_free c id = elim (lookup id c.state.peers) [
  | none ↦ (c, false)
  | some slot ↦
      if slot.unchoked
      then (c, true)
      else if slot.interested && ltb (count_unchoked c.state.peers) c.slots
      then (modify_peer c id (λ s. record s { unchoked = true }), true)
      else (c, false)
]

pub record_upload : Choker → ℕ → ℕ → Choker
record_upload c id bytes =
    modify_peer c id (λ s. record s { uploaded = (s.uploaded + bytes) % u64_mod })

pub record_download : Choker → ℕ → ℕ → Choker
record_download c id bytes =
    modify_peer c id (λ s. record s { downloaded = (s.downloaded + bytes) % u64_mod })

abbrev pub is_unchoked : Choker → ℕ → Bool
is_unchoked c id = elim (lookup id c.state.peers) [ none ↦ false | some slot ↦ slot.unchoked ]

abbrev pub unchoked_count : Choker → ℕ
unchoked_count c = count_unchoked c.state.peers

abbrev pub interested_ids : List (ℕ × Slot) → List ℕ
interested_ids [] = []
interested_ids ((id, slot) ∷ peers) =
    if slot.interested then id ∷ interested_ids peers else interested_ids peers

abbrev pub first_after : Option ℕ → List ℕ → Option ℕ
first_after after [] = none
first_after none (id ∷ ids) = some id
first_after (some a) (id ∷ ids) = if ltb a id then some id else first_after (some a) ids

abbrev pub next_optimistic : Option ℕ → List ℕ → Option ℕ
next_optimistic after ids = elim (first_after after ids) [
  | some id ↦ some id
  | none ↦ elim ids [ [] ↦ none | first ∷ _ ↦ some first ]
]

-- Whether the optimistic peer is there and interested.
abbrev pub still_optimistic : Option ℕ → List (ℕ × Slot) → Bool
still_optimistic none peers = false
still_optimistic (some id) peers = elim (lookup id peers) [
  | none ↦ false
  | some slot ↦ slot.interested
]

abbrev pub candidate_of : ℕ × Slot → Candidate
candidate_of (id, slot) = record {
  id = id;
  interested = slot.interested;
  uploaded = slot.uploaded;
  downloaded = slot.downloaded;
}

abbrev pub next_window : List ℕ → ℕ × Slot → ℕ × Slot
next_window chosen (id, slot) =
    (id, record slot { unchoked = contains chosen id; uploaded = 0; downloaded = 0 })

pub rechoke : Choker → Choker
unfolding choose
rechoke c =
    let s = c.state in
    let round = suc s.round in
    let optimistic =
      if ltb 1 c.slots
        && (round % optimistic_every == 1 || not (still_optimistic s.optimistic s.peers))
      then next_optimistic s.optimistic (interested_ids s.peers)
      else s.optimistic in
    let chosen = choose (map candidate_of s.peers) c.slots optimistic in
    record c {
      state = record s {
        peers = map (next_window chosen) s.peers;
        optimistic = optimistic;
        round = round;
      };
    }
