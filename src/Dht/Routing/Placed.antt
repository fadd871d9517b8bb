-- ===== src/Dht/Routing/Placed.antt =====
-- src/dht/routing.rs: a node that is inserted is in the table.
use bittorrent_rs.Prelude.{
  ℕ, zero, suc, ◌+◌, ◌<◌, ◌≡◌, refl, ap, ◌∙◌, Option, none, some, List, [], ◌∷◌, ◌++◌, map, arith,
  ltb, length, get_elem?, get_or, set, length-set, length-map, get_or-set_self, if◌then◌else◌,
  Bool-cases, Option-cases, inl, inr, bytes_eq, bytes_eq_sound, length-replicate, ltb_false→le,
}
use bittorrent_rs.Dht.Routing.{
  NodeId, Entry, RoutingTable, new, refresh, oldest, evict, insert_in, insert, insert_all, flatten,
  recentre, bucket_index, k_bucket,
}
use bittorrent_rs.Dht.Routing.Prefix.{
  common_prefix, id_bits, bucket_index-common_prefix, common-within, length-id_bits,
}
use bittorrent_rs.Dht.Routing.Buckets.{InOrder, Call, insert_call, recentre_call, run, run-InOrder}

-- A table has 160 buckets.
abbrev IsWhole : RoutingTable → Type 0
IsWhole t = length t.buckets ≡ 160

insert-IsWhole :
    (t : RoutingTable) (id : NodeId) (addr now : ℕ) → IsWhole t → IsWhole (insert t id addr now)
unfolding insert
insert-IsWhole t id addr now h = elim (Option-cases (bucket_index t.self_id id)) [
  | inl e ↦ rw (e, insert) h
  | inr (n, e) ↦ rw (e, insert) (length-set t.buckets n _ ∙ h)
]

insert_all-IsWhole :
    (t : RoutingTable) (now : ℕ) (es : List Entry) → IsWhole t → IsWhole (insert_all t now es)
insert_all-IsWhole t now [] h = h
insert_all-IsWhole t now (e ∷ es) h =
    insert_all-IsWhole (insert t e.id e.addr now) now es (insert-IsWhole t e.id e.addr now h)

run-IsWhole : (t : RoutingTable) (cs : List Call) → IsWhole t → IsWhole (run t cs)
unfolding recentre
run-IsWhole t [] h = h
run-IsWhole t (insert_call id addr now ∷ cs) h =
    run-IsWhole (insert t id addr now) cs (insert-IsWhole t id addr now h)
run-IsWhole t (recentre_call new_id now ∷ cs) h = run-IsWhole (recentre t new_id now) cs (
    insert_all-IsWhole (record { self_id = new_id; buckets = map (λ _. []) t.buckets }) now
      (flatten t.buckets) (length-map (λ _. []) t.buckets ∙ h))

-- An entry stands somewhere in a bucket.
abbrev pub Holds : List Entry → Entry → Type 0
Holds bucket e = (i : ℕ) × (get_elem? bucket i ≡ some e)

-- What is left of a table by an insertion, by the common prefix of the ids: a table is not changed by
-- its own id, and otherwise the bucket of the prefix holds the node, with its address and the time.
abbrev pub Placed : RoutingTable → NodeId → ℕ → ℕ → Option ℕ → Type 0
Placed t id addr now none = insert t id addr now ≡ t
Placed t id addr now (some n) =
    Holds (get_or (insert t id addr now).buckets n [])
      (record { id = id; addr = addr; last_seen = now })

abbrev HoldsIn : Entry → Option (List Entry) → Type 0
HoldsIn e none = Unit
HoldsIn e (some bucket) = Holds bucket e

module _ (id : NodeId) (addr now : ℕ) where
  abbrev entry : Entry
  entry = record { id = id; addr = addr; last_seen = now }

  later :
      (e : Entry) (rest : Option (List Entry))
      → HoldsIn entry rest
      → HoldsIn entry (elim rest [ none ↦ none | some es ↦ some (e ∷ es) ])
  later e none h = tt
  later e (some es) h = (suc h.0, h.1)

  refresh-HoldsIn : (bucket : List Entry) → HoldsIn entry (refresh id addr now bucket)
  refresh-HoldsIn [] = tt
  refresh-HoldsIn (e ∷ es) = elim (Bool-cases (bytes_eq e.id id)) [
    | inl same ↦ rw same (
      0,
      ap (λ x. some (record { id = x; addr = addr; last_seen = now }))
          (bytes_eq_sound e.id id same),
    )
    | inr other ↦ rw other (later e (refresh id addr now es) (refresh-HoldsIn es))
  ]

  append-Holds : (bucket : List Entry) → Holds (bucket ++ entry ∷ []) entry
  append-Holds [] = (0, refl)
  append-Holds (e ∷ es) = let h = append-Holds es in (suc h.0, h.1)

  set-elem :
      (bucket : List Entry) (i : ℕ)
      → i < length bucket
      → get_elem? (set bucket i entry) i ≡ some entry
  set-elem [] i h = absurd (omega (arith, h))
  set-elem (e ∷ es) zero h = refl
  set-elem (e ∷ es) (suc i) h = set-elem es i (omega (arith, h))

  oldest-within :
      (best seen n : ℕ) (es : List Entry) → best < n → oldest best seen n es < n + length es
  oldest-within best seen n [] h = omega (arith, h)
  oldest-within best seen n (e ∷ es) h = elim (Bool-cases (ltb e.last_seen seen)) [
    | inl older ↦ rw older (omega (arith, oldest-within n e.last_seen (suc n) es (omega arith)))
    | inr not_older ↦
        rw not_older (omega (arith, oldest-within best seen (suc n) es (omega (arith, h))))
  ]

  evict-Holds : (bucket : List Entry) → 0 < length bucket → Holds (evict entry bucket) entry
  evict-Holds [] h = absurd (omega (arith, h))
  evict-Holds (e ∷ es) h =
      let at = oldest 0 e.last_seen 1 es in
      (at, set-elem (e ∷ es) at (omega (arith, oldest-within 0 e.last_seen 1 es (omega arith))))

  insert_in-Holds : (bucket : List Entry) → Holds (insert_in id addr now bucket) entry
  unfolding insert_in
  insert_in-Holds bucket = go (refresh id addr now bucket) (refresh-HoldsIn bucket)
    where
      go :
          (r : Option (List Entry))
          → HoldsIn entry r
          → Holds
              (elim r [
                | some refreshed ↦ refreshed
                | none ↦
                    if ltb (length bucket) k_bucket
                    then bucket ++ entry ∷ []
                    else evict entry bucket
              ])
              entry
      go (some es) h = h
      go none h = elim (Bool-cases (ltb (length bucket) k_bucket)) [
        | inl room ↦ rw room (append-Holds bucket)
        | inr full ↦
            rw full (evict-Holds bucket (omega (arith, ltb_false→le (length bucket) k_bucket full)))
      ]

  insert-Placed :
      (t : RoutingTable)
      → length t.buckets ≡ 160
      → length id ≡ 20
      → Placed t id addr now (common_prefix t.self_id id)
  unfolding insert
  insert-Placed t size long = elim (Option-cases (common_prefix t.self_id id)) [
    | inl e ↦ let f = bucket_index-common_prefix t.self_id id ∙ e in rw e (rw (f, insert) refl)
    | inr (n, e) ↦
        let f = bucket_index-common_prefix t.self_id id ∙ e in
        let low = common-within (id_bits t.self_id) (id_bits id) n e in
        let b = insert_in id addr now (get_or t.buckets n []) in
        let there : get_or (set t.buckets n b) n [] ≡ b =
          get_or-set_self t.buckets n b [] (omega (arith, size, low, long, length-id_bits id)) in
        rw e (rw (f, insert) (rw there (insert_in-Holds (get_or t.buckets n []))))
  ]

-- Whatever nodes are put into a new table, and whatever ids it is centred on in between, every node
-- lies in the bucket whose number is the length of the common prefix of its id and the table's, bit by
-- bit, and no bucket holds more than 8. A further node with an id of 20 bytes is then in that bucket,
-- with its address and the time, and the table is as it was if the id agrees with the table's.
pub run-Placed :
    (self_id : NodeId) (cs : List Call) (id : NodeId) (addr now : ℕ)
    → length id ≡ 20
    → (let t = run (new self_id) cs in
        InOrder t × Placed t id addr now (common_prefix t.self_id id))
run-Placed self_id cs id addr now long = (
  run-InOrder self_id cs,
  insert-Placed id addr now (run (new self_id) cs)
      (run-IsWhole (new self_id) cs (length-replicate {A = List Entry} 160 [])) long,
)
