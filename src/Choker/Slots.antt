-- ===== src/Choker/Slots.antt =====
-- src/choker.rs: how one change of the peers bears on the slots that are held.
use bittorrent_rs.Prelude.{
  ℕ, suc, ◌≤◌, ◌≡◌, refl, true, some, List, [], ◌∷◌, arith, ◌==◌, All, Bool-cases, inl, inr, lookup,
  insert, remove, entries, entries-remove, entries-insert_ne, entries-insert_fresh, subst,
}
use bittorrent_rs.Choker.{Slot, Choker, fresh_slot, modify, count_unchoked, unchoked_count}

abbrev pub Peers : Type 0
Peers = List (ℕ × Slot)

-- A peer that is unchoked is interested.
abbrev pub Fair : ℕ × Slot → Type 0
Fair (id, slot) = slot.unchoked ≡ true → slot.interested ≡ true

-- Every id is given to one peer, and only ids below `next`.
abbrev pub Numbered : ℕ → Peers → Type 0
Numbered next peers = ((k : ℕ) → entries k peers ≤ 1) × ((k : ℕ) → next ≤ k → entries k peers ≡ 0)

abbrev pub Inv : Choker → Type 0
Inv c =
    (unchoked_count c ≤ c.slots) × All Fair c.state.peers × Numbered c.state.next_id c.state.peers

-- The changes of one slot.
module _ (k : ℕ) (f : Slot → Slot) where
  pub entries-modify : (j : ℕ) (peers : Peers) → entries j (modify k f peers) ≡ entries j peers
  entries-modify j [] = refl
  entries-modify j ((i, s) ∷ peers) = ground (arith, entries-modify j peers)

  pub modify-Numbered :
      (next : ℕ) (peers : Peers) → Numbered next peers → Numbered next (modify k f peers)
  modify-Numbered next peers h =
      ((λ j. rw (entries-modify j peers) (h.0 j)), (λ j le. rw (entries-modify j peers) (h.1 j le)))

  pub count-modify_le :
      ((s : Slot) → (f s).unchoked ≡ true → s.unchoked ≡ true)
      → (peers : Peers) → count_unchoked (modify k f peers) ≤ count_unchoked peers
  count-modify_le h [] = omega arith
  count-modify_le h ((i, s) ∷ peers) = ground (arith, h s, count-modify_le h peers)

  pub count-modify-suc :
      (peers : Peers) → count_unchoked (modify k f peers) ≤ suc (count_unchoked peers)
  count-modify-suc [] = omega arith
  count-modify-suc ((i, s) ∷ peers) = ground (arith, count-modify-suc peers)

  pub modify-Fair :
      ((s : Slot) → Fair (k, s) → Fair (k, f s))
      → (peers : Peers) → All Fair peers
      → All Fair (modify k f peers)
  modify-Fair h [] v = tt
  modify-Fair h ((i, s) ∷ peers) v = elim (Bool-cases (i == k)) [
    | inl e ↦ rw e (h s v.0, v.1)
    | inr e ↦ rw e (v.0, modify-Fair h peers v.1)
  ]

  -- The slot of the peer itself may be looked at.
  pub modify_found-Fair :
      (slot : Slot)
      → Fair (k, f slot)
      → (peers : Peers) → lookup k peers ≡ some slot
      → All Fair peers
      → All Fair (modify k f peers)
  modify_found-Fair slot h [] e v = tt
  modify_found-Fair slot h ((i, s) ∷ peers) e v = elim (Bool-cases (i == k)) [
    | inl same ↦
        let found : some s ≡ some slot = rw same at e in
        let eq : slot ≡ s = cc found in rw same (subst (λ (x : Slot). Fair (k, f x)) eq h, v.1)
    | inr other ↦ rw other (v.0, modify_found-Fair slot h peers (rw other at e) v.1)
  ]

pub remove-Fair : (k : ℕ) (peers : Peers) → All Fair peers → All Fair (remove k peers)
remove-Fair k [] v = tt
remove-Fair k ((i, s) ∷ peers) v = elim (Bool-cases (i == k)) [
  | inl e ↦ rw e (remove-Fair k peers v.1)
  | inr e ↦ rw e (v.0, remove-Fair k peers v.1)
]

pub count-remove : (k : ℕ) (peers : Peers) → count_unchoked (remove k peers) ≤ count_unchoked peers
count-remove k [] = omega arith
count-remove k ((i, s) ∷ peers) = ground (arith, count-remove k peers)

pub remove-Numbered :
    (k next : ℕ) (peers : Peers) → Numbered next peers → Numbered next (remove k peers)
remove-Numbered k next peers h = (
  (λ j. ground (arith, entries-remove k j peers, h.0 j)),
  (λ j le. ground (arith, entries-remove k j peers, h.1 j le)),
)

-- A new peer.
pub insert-Fair : (k : ℕ) (peers : Peers) → All Fair peers → All Fair (insert k fresh_slot peers)
insert-Fair k [] v = ((λ e. cc e), tt)
insert-Fair k ((i, s) ∷ peers) v = elim (Bool-cases (i == k)) [
  | inl e ↦ rw e ((λ q. cc q), v.1)
  | inr e ↦ rw e (v.0, insert-Fair k peers v.1)
]

pub count-insert :
    (k : ℕ) (peers : Peers) → count_unchoked (insert k fresh_slot peers) ≤ count_unchoked peers
count-insert k [] = omega arith
count-insert k ((i, s) ∷ peers) = ground (arith, count-insert k peers)

pub insert-Numbered :
    (next : ℕ) (peers : Peers)
    → Numbered next peers
    → Numbered (suc next) (insert next fresh_slot peers)
insert-Numbered next peers h = (
  (λ j. elim (Bool-cases (next == j)) [
    | inl e ↦ ground (arith, entries-insert_fresh next fresh_slot peers, h.1 next)
    | inr e ↦ rw (entries-insert_ne next j fresh_slot peers e) (h.0 j)
  ]),
  (λ j le. rw (entries-insert_ne next j fresh_slot peers (ground arith)) (h.1 j (omega arith))),
)
