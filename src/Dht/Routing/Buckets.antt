-- ===== src/Dht/Routing/Buckets.antt =====
-- src/dht/routing.rs: every node lies in its bucket, and no bucket holds more than eight.
use bittorrent_rs.Prelude.{
  ℕ, zero, suc, ◌+◌, ◌≤◌, ◌≡◌, refl, ap, Option, none, some, List, [], ◌∷◌, ◌++◌, map, arith, ltb,
  ltb→lt, length, get_or, set, length-set, if◌then◌else◌, length-append, All, All-append,
  Bool-cases, Option-cases, inl, inr, bytes_eq, replicate, sym, ◌∙◌,
}
use bittorrent_rs.Dht.Routing.Prefix.{common_prefix, bucket_index-common_prefix}
use bittorrent_rs.Dht.Routing.{
  NodeId, Entry, RoutingTable, new, refresh, oldest, evict, insert_in, insert, insert_all, flatten,
  recentre, bucket_index, k_bucket,
}

-- The buckets from the one of index `n` on: each has room, and holds nodes of that index.
abbrev pub Sorted : NodeId → ℕ → List (List Entry) → Type 0
Sorted self_id n [] = Unit
Sorted self_id n (b ∷ bs) =
    (length b ≤ k_bucket)
    × All (λ e. common_prefix self_id e.id ≡ some n) b
    × Sorted self_id (suc n) bs

-- What a bucket that was refreshed keeps.
abbrev Kept : (Entry → Type 0) → ℕ → Option (List Entry) → Type 0
Kept P n none = Unit
Kept P n (some es) = (length es ≡ n) × All P es

Kept-cons :
    (P : Entry → Type 0) (e : Entry) (n : ℕ) (rest : Option (List Entry))
    → P e
    → Kept P n rest
    → Kept P (suc n) (elim rest [ none ↦ none | some es ↦ some (e ∷ es) ])
Kept-cons P e n none h k = tt
Kept-cons P e n (some es) h k = (ap suc k.0, (h, k.1))

module _ (P : NodeId → Type 0) where
  abbrev Here : Entry → Type 0
  Here e = P e.id

  refresh-Kept :
      (id : NodeId) (addr now : ℕ) (bucket : List Entry)
      → All Here bucket
      → Kept Here (length bucket) (refresh id addr now bucket)
  refresh-Kept id addr now [] v = tt
  refresh-Kept id addr now (e ∷ es) v = elim (Bool-cases (bytes_eq e.id id)) [
    | inl same ↦ rw same (refl, (v.0, v.1))
    | inr other ↦ rw other (
        Kept-cons Here e (length es) (refresh id addr now es) v.0 (refresh-Kept id addr now es v.1))
  ]

  set-Here :
      (bucket : List Entry) (i : ℕ) (entry : Entry)
      → P entry.id
      → All Here bucket
      → All Here (set bucket i entry)
  set-Here [] i entry h v = tt
  set-Here (e ∷ es) zero entry h v = (h, v.1)
  set-Here (e ∷ es) (suc i) entry h v = (v.0, set-Here es i entry h v.1)

  evict-Here :
      (entry : Entry) (bucket : List Entry)
      → P entry.id
      → All Here bucket
      → (length (evict entry bucket) ≡ length bucket) × All Here (evict entry bucket)
  evict-Here entry [] h v = (refl, tt)
  evict-Here entry (e ∷ es) h v =
      let at = oldest 0 e.last_seen 1 es in
      (length-set (e ∷ es) at entry, set-Here (e ∷ es) at entry h v)

  insert_in-Here :
      (id : NodeId) (addr now : ℕ) (bucket : List Entry)
      → P id
      → length bucket ≤ k_bucket
      → All Here bucket
      → (length (insert_in id addr now bucket) ≤ k_bucket) × All Here (insert_in id addr now bucket)
  unfolding insert_in
  insert_in-Here id addr now bucket h small v =
      let entry : Entry = record { id = id; addr = addr; last_seen = now } in
      go (refresh id addr now bucket) (refresh-Kept id addr now bucket v) entry h
    where
      go :
          (r : Option (List Entry))
          → Kept Here (length bucket) r
          → (entry : Entry) → P entry.id
          → let after : List Entry = elim r [
            | some refreshed ↦ refreshed
            | none ↦
                if ltb (length bucket) k_bucket then bucket ++ entry ∷ [] else evict entry bucket
          ] in
            (length after ≤ k_bucket) × All Here after
      go (some es) k entry h = (omega (arith, k.0), k.1)
      go none k entry h = elim (Bool-cases (ltb (length bucket) k_bucket)) [
        | inl room ↦ rw room (
          omega (arith, ltb→lt (length bucket) k_bucket room, length-append bucket (entry ∷ [])),
          All-append Here bucket (entry ∷ []) v (h, tt),
        )
        | inr full ↦
            let kept = evict-Here entry bucket h v in rw full (omega (arith, kept.0), kept.1)
      ]

-- One bucket changed, for one that is in order as well.
set-Sorted :
    (self_id : NodeId) (n i : ℕ) (bs : List (List Entry)) (b : List Entry)
    → (length b ≤ k_bucket) × All (λ e. common_prefix self_id e.id ≡ some (n + i)) b
    → Sorted self_id n bs
    → Sorted self_id n (set bs i b)
set-Sorted self_id n i [] b h v = tt
set-Sorted self_id n zero (c ∷ bs) b h v =
    let e : n + 0 ≡ n = omega arith in (h.0, (rw e at h.1), v.2)
set-Sorted self_id n (suc i) (c ∷ bs) b h v =
    let e : n + suc i ≡ suc n + i = omega arith in
    (v.0, v.1, set-Sorted self_id (suc n) i bs b (h.0, rw e at h.1) v.2)

get_or-Sorted :
    (self_id : NodeId) (n i : ℕ) (bs : List (List Entry))
    → Sorted self_id n bs
    → (length (get_or bs i []) ≤ k_bucket)
      × All (λ e. common_prefix self_id e.id ≡ some (n + i)) (get_or bs i [])
get_or-Sorted self_id n i [] v = (omega arith, tt)
get_or-Sorted self_id n zero (c ∷ bs) v = let e : n + 0 ≡ n = omega arith in (v.0, rw e v.1)
get_or-Sorted self_id n (suc i) (c ∷ bs) v =
    let e : n + suc i ≡ suc n + i = omega arith in rw e (get_or-Sorted self_id (suc n) i bs v.2)

abbrev pub InOrder : RoutingTable → Type 0
InOrder t = Sorted t.self_id 0 t.buckets

insert-InOrder :
    (t : RoutingTable) (id : NodeId) (addr now : ℕ) → InOrder t → InOrder (insert t id addr now)
unfolding insert
insert-InOrder t id addr now v = elim (Option-cases (bucket_index t.self_id id)) [
  | inl e ↦ rw (e, insert) v
  | inr (idx, e) ↦
      let zero_idx : 0 + idx ≡ idx = omega arith in
      let found = get_or-Sorted t.self_id 0 idx t.buckets v in
      let b = get_or t.buckets idx [] in
      let h : common_prefix t.self_id id ≡ some (0 + idx) =
        rw zero_idx (sym (bucket_index-common_prefix t.self_id id) ∙ e) in
      rw (e, insert)
        (set-Sorted t.self_id 0 idx t.buckets (insert_in id addr now b)
          (insert_in-Here (λ x. common_prefix t.self_id x ≡ some (0 + idx)) id addr now b h found.0
            found.1)
          v)
]

insert_all-InOrder :
    (t : RoutingTable) (now : ℕ) (es : List Entry) → InOrder t → InOrder (insert_all t now es)
insert_all-InOrder t now [] v = v
insert_all-InOrder t now (e ∷ es) v =
    insert_all-InOrder (insert t e.id e.addr now) now es (insert-InOrder t e.id e.addr now v)

emptied-Sorted :
    (self_id : NodeId) (n : ℕ) (bs : List (List Entry)) → Sorted self_id n (map (λ _. []) bs)
emptied-Sorted self_id n [] = tt
emptied-Sorted self_id n (b ∷ bs) = (omega arith, tt, emptied-Sorted self_id (suc n) bs)

fresh-Sorted : (self_id : NodeId) (n count : ℕ) → Sorted self_id n (replicate count [])
fresh-Sorted self_id n zero = tt
fresh-Sorted self_id n (suc count) = (omega arith, tt, fresh-Sorted self_id (suc n) count)

-- The operations that change a table.
pub data Call : Type 0 where
  insert_call : (id : NodeId) → (addr now : ℕ) → Call
  recentre_call : (new_id : NodeId) → (now : ℕ) → Call

abbrev pub call : RoutingTable → Call → RoutingTable
call t (insert_call id addr now) = insert t id addr now
call t (recentre_call new_id now) = recentre t new_id now

abbrev pub run : RoutingTable → List Call → RoutingTable
run t [] = t
run t (c ∷ cs) = run (call t c) cs

call-InOrder : (t : RoutingTable) (c : Call) → InOrder t → InOrder (call t c)
unfolding recentre
call-InOrder t (insert_call id addr now) v = insert-InOrder t id addr now v
call-InOrder t (recentre_call new_id now) v =
    insert_all-InOrder (record { self_id = new_id; buckets = map (λ _. []) t.buckets }) now
      (flatten t.buckets) (emptied-Sorted new_id 0 t.buckets)

run-kept : (t : RoutingTable) (cs : List Call) → InOrder t → InOrder (run t cs)
run-kept t [] v = v
run-kept t (c ∷ cs) v = run-kept (call t c) cs (call-InOrder t c v)

-- Whatever nodes are put into a new table, and whatever ids it is centred on in between, every node
-- lies in the bucket whose number is the length of the common prefix of its id and the table's, and no
-- bucket holds more than 8.
pub run-InOrder : (self_id : NodeId) (cs : List Call) → InOrder (run (new self_id) cs)
run-InOrder self_id cs = run-kept (new self_id) cs (fresh-Sorted self_id 0 160)
