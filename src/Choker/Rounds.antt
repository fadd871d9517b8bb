-- ===== src/Choker/Rounds.antt =====
-- src/choker.rs: the slots that are held over any sequence of operations.
use bittorrent_rs.Prelude.{
  ℕ, suc, ◌+◌, ◌≤◌, ◌≡◌, refl, Bool, true, false, ◌&&◌, ◌||◌, Option, List, [], ◌∷◌, map, arith,
  ltb, ltb→lt, ◌==◌, if◌then◌else◌, length, contains, All, Bool-cases, Option-cases, inl, inr,
  and-eq_true, lookup, entries, ◌∙◌, contains-All, u64_mod, ◌%◌,
}
use bittorrent_rs.Choker.{
  Slot, Choker, new, count_unchoked, register, unregister, want, set_interested, grant_if_free,
  record_upload, record_download, modify_peer, unchoked_count, candidate_of, next_window, choose,
  rechoke,
}
use bittorrent_rs.Choker.Choose.{wants, length-choose, choose-wants}
use bittorrent_rs.Choker.Slots.{
  Peers, Fair, Numbered, Inv, modify-Numbered, count-modify_le, count-modify-suc, modify-Fair,
  modify_found-Fair, remove-Fair, count-remove, remove-Numbered, insert-Fair, count-insert,
  insert-Numbered,
}

-- How many peers are in a set of ids.
abbrev in_set : List ℕ → Peers → ℕ
in_set ids [] = 0
in_set ids ((j, s) ∷ peers) = if contains ids j then suc (in_set ids peers) else in_set ids peers

in_set-cons :
    (id : ℕ) (ids : List ℕ) (peers : Peers)
    → in_set (id ∷ ids) peers ≤ entries id peers + in_set ids peers
in_set-cons id ids [] = omega arith
in_set-cons id ids ((j, s) ∷ peers) = ground (arith, in_set-cons id ids peers)

in_set-nil : (peers : Peers) → in_set [] peers ≡ 0
in_set-nil [] = refl
in_set-nil ((j, s) ∷ peers) = in_set-nil peers

-- A set of ids holds no more peers than it has ids, if no two peers have the same id.
in_set-length :
    (ids : List ℕ) (peers : Peers) → ((k : ℕ) → entries k peers ≤ 1) → in_set ids peers ≤ length ids
in_set-length [] peers h = omega (arith, in_set-nil peers)
in_set-length (id ∷ ids) peers h =
    omega (arith, in_set-cons id ids peers, h id, in_set-length ids peers h)

count-next_window :
    (chosen : List ℕ) (peers : Peers)
    → count_unchoked (map (next_window chosen) peers) ≡ in_set chosen peers
count-next_window chosen [] = refl
count-next_window chosen ((j, s) ∷ peers) = ground (arith, count-next_window chosen peers)

entries-next_window :
    (chosen : List ℕ) (k : ℕ) (peers : Peers)
    → entries k (map (next_window chosen) peers) ≡ entries k peers
entries-next_window chosen k [] = refl
entries-next_window chosen k ((j, s) ∷ peers) = ground (arith, entries-next_window chosen k peers)

-- With one slot for each id, what `wants` finds of an id is that slot.
wants-none :
    (k : ℕ) (peers : Peers) → entries k peers ≡ 0 → wants (map candidate_of peers) k ≡ false
wants-none k [] h = refl
wants-none k ((j, s) ∷ peers) h = ground (arith, wants-none k peers)

Honest : (ℕ → Bool) → ℕ × Slot → Type 0
Honest w (id, slot) = w id ≡ true → slot.interested ≡ true

Honest-tail :
    (j : ℕ) (s : Slot) (w : ℕ → Bool) (peers : Peers)
    → entries j peers ≡ 0
    → All (Honest w) peers
    → All (Honest (λ id. j == id && s.interested || w id)) peers
unfolding Honest
Honest-tail j s w [] h v = tt
Honest-tail j s w ((i, t) ∷ peers) h v =
    ((λ q. ground (arith, v.0, h, q)), Honest-tail j s w peers (ground (arith, h)) v.1)

wants-Honest :
    (peers : Peers)
    → ((k : ℕ) → entries k peers ≤ 1)
    → All (Honest (wants (map candidate_of peers))) peers
unfolding Honest
wants-Honest [] h = tt
wants-Honest ((j, s) ∷ peers) h =
    let none_left : entries j peers ≡ 0 = ground (arith, h j) in
    (
      (λ q. ground (arith, wants-none j peers none_left, q)),
      Honest-tail j s (wants (map candidate_of peers)) peers none_left
          (wants-Honest peers (λ k. ground (arith, h k))),
    )

next_window-Fair :
    (chosen : List ℕ) (w : ℕ → Bool) (peers : Peers)
    → All (λ id. w id ≡ true) chosen
    → All (Honest w) peers
    → All Fair (map (next_window chosen) peers)
unfolding Honest
next_window-Fair chosen w [] h v = tt
next_window-Fair chosen w ((j, s) ∷ peers) h v = (
  (λ q. v.0 (contains-All (λ id. w id ≡ true) chosen j h q)),
  next_window-Fair chosen w peers h v.1,
)

next_window-Numbered :
    (chosen : List ℕ) (next : ℕ) (peers : Peers)
    → Numbered next peers
    → Numbered next (map (next_window chosen) peers)
next_window-Numbered chosen next peers h = (
  (λ k. rw (entries-next_window chosen k peers) (h.0 k)),
  (λ k le. rw (entries-next_window chosen k peers) (h.1 k le)),
)

-- One round, whichever peer is the optimistic one.
round-Inv :
    (slots next : ℕ) (optimistic : Option ℕ) (peers : Peers)
    → Numbered next peers
    → let chosen = choose (map candidate_of peers) slots optimistic in
      (count_unchoked (map (next_window chosen) peers) ≤ slots)
      × All Fair (map (next_window chosen) peers)
      × Numbered next (map (next_window chosen) peers)
round-Inv slots next optimistic peers h =
    let chosen = choose (map candidate_of peers) slots optimistic in
    (
      omega (
        arith,
        count-next_window chosen peers,
        in_set-length chosen peers h.0,
        length-choose (map candidate_of peers) slots optimistic,
      ),
      next_window-Fair chosen (wants (map candidate_of peers)) peers
          (choose-wants (map candidate_of peers) slots optimistic) (wants-Honest peers h.0),
      next_window-Numbered chosen next peers h,
    )

rechoke-Inv : (c : Choker) → Inv c → Inv (rechoke c)
unfolding rechoke
rechoke-Inv c v = round-Inv c.slots c.state.next_id _ c.state.peers v.2

grant_if_free-Inv : (c : Choker) (id : ℕ) → Inv c → Inv (grant_if_free c id).0
unfolding grant_if_free
grant_if_free-Inv c id v = elim (Option-cases (lookup id c.state.peers)) [
  | inl e ↦ rw (e, grant_if_free) v
  | inr (slot, e) ↦ elim (Bool-cases slot.unchoked) [
    | inl held ↦ rw (e, held, grant_if_free) v
    | inr choked ↦
        elim (Bool-cases (slot.interested && ltb (count_unchoked c.state.peers) c.slots)) [
          | inr refused ↦ rw (e, choked, refused, grant_if_free) v
          | inl granted ↦
              let (keen, room) = and-eq_true slot.interested granted in
              let set_unchoked : Slot → Slot = λ s. record s { unchoked = true } in
              let lt = ltb→lt (count_unchoked c.state.peers) c.slots room in
              rw (e, choked, granted, grant_if_free)
                (
                  omega (arith, lt, count-modify-suc id set_unchoked c.state.peers),
                  modify_found-Fair id set_unchoked slot (λ q. keen) c.state.peers e v.1,
                  modify-Numbered id set_unchoked c.state.next_id c.state.peers v.2,
                )
        ]
  ]
]

-- The operations, as their callers choose them.
pub data Call : Type 0 where
  register_call rechoke_call : Call
  unregister_call grant_call : (id : ℕ) → Call
  interested_call : (id : ℕ) → (interested : Bool) → Call
  upload_call download_call : (id bytes : ℕ) → Call

abbrev pub call : Choker → Call → Choker
call c register_call = (register c).0
call c rechoke_call = rechoke c
call c (unregister_call id) = unregister c id
call c (grant_call id) = (grant_if_free c id).0
call c (interested_call id interested) = set_interested c id interested
call c (upload_call id bytes) = record_upload c id bytes
call c (download_call id bytes) = record_download c id bytes

abbrev pub run : Choker → List Call → Choker
run c [] = c
run c (k ∷ ks) = run (call c k) ks

-- A change of a slot that grants nothing.
quiet-Inv :
    (c : Choker) (id : ℕ) (f : Slot → Slot)
    → ((s : Slot) → (f s).unchoked ≡ true → s.unchoked ≡ true)
    → ((s : Slot) → Fair (id, s) → Fair (id, f s))
    → Inv c
    → Inv (modify_peer c id f)
quiet-Inv c id f quiet fair v = (
  omega (arith, v.0, count-modify_le id f quiet c.state.peers),
  modify-Fair id f fair c.state.peers v.1,
  modify-Numbered id f c.state.next_id c.state.peers v.2,
)

call-Inv : (c : Choker) (k : Call) → Inv c → Inv (call c k)
unfolding register unregister set_interested record_upload record_download
call-Inv c register_call v = (
  omega (arith, v.0, count-insert c.state.next_id c.state.peers),
  insert-Fair c.state.next_id c.state.peers v.1,
  insert-Numbered c.state.next_id c.state.peers v.2,
)
call-Inv c rechoke_call v = rechoke-Inv c v
call-Inv c (unregister_call id) v = (
  omega (arith, v.0, count-remove id c.state.peers),
  remove-Fair id c.state.peers v.1,
  remove-Numbered id c.state.next_id c.state.peers v.2,
)
call-Inv c (grant_call id) v = grant_if_free-Inv c id v
call-Inv c (interested_call id interested) v =
    quiet-Inv c id (want interested) (λ s q. (and-eq_true s.unchoked q).0)
      (λ s h q. (and-eq_true s.unchoked q).1) v
call-Inv c (upload_call id bytes) v =
    quiet-Inv c id (λ s. record s { uploaded = (s.uploaded + bytes) % u64_mod }) (λ s q. q)
      (λ s h. h) v
call-Inv c (download_call id bytes) v =
    quiet-Inv c id (λ s. record s { downloaded = (s.downloaded + bytes) % u64_mod }) (λ s q. q)
      (λ s h. h) v

run-kept : (c : Choker) (ks : List Call) → Inv c → Inv (run c ks)
run-kept c [] v = v
run-kept c (k ∷ ks) v = run-kept (call c k) ks (call-Inv c k v)

grant_if_free-slots : (c : Choker) (id : ℕ) → (grant_if_free c id).0.slots ≡ c.slots
unfolding grant_if_free
grant_if_free-slots c id = elim (Option-cases (lookup id c.state.peers)) [
  | inl e ↦ rw (e, grant_if_free) refl
  | inr (slot, e) ↦ elim (Bool-cases slot.unchoked) [
    | inl held ↦ rw (e, held, grant_if_free) refl
    | inr choked ↦
        elim (Bool-cases (slot.interested && ltb (count_unchoked c.state.peers) c.slots)) [
          | inr refused ↦ rw (e, choked, refused, grant_if_free) refl
          | inl granted ↦ rw (e, choked, granted, grant_if_free) refl
        ]
  ]
]

call-slots : (c : Choker) (k : Call) → (call c k).slots ≡ c.slots
unfolding register unregister set_interested record_upload record_download rechoke
call-slots c register_call = refl
call-slots c rechoke_call = refl
call-slots c (unregister_call id) = refl
call-slots c (grant_call id) = grant_if_free-slots c id
call-slots c (interested_call id interested) = refl
call-slots c (upload_call id bytes) = refl
call-slots c (download_call id bytes) = refl

run-slots : (c : Choker) (ks : List Call) → (run c ks).slots ≡ c.slots
run-slots c [] = refl
run-slots c (k ∷ ks) = run-slots (call c k) ks ∙ call-slots c k

-- Whatever operations are called on a new choker, in whatever order, no more peers are unchoked than
-- it has slots, and every peer that is unchoked is interested.
pub run-Fair :
    (slots : ℕ) (ks : List Call)
    → (unchoked_count (run (new slots) ks) ≤ slots) × All Fair (run (new slots) ks).state.peers
run-Fair slots ks =
    let v = run-kept (new slots) ks (omega arith, tt, ((λ k. omega arith), (λ k le. refl))) in
    (omega (arith, v.0, run-slots (new slots) ks), v.1)
