-- ===== src/Choker/Choose.antt =====
-- src/choker.rs: what `choose` picks.
use bittorrent_rs.Prelude.{
  ℕ, zero, suc, ◌-◌, ◌≤◌, ◌≡◌, refl, Bool, true, false, not, ◌&&◌, Option, none, some, List, [],
  ◌∷◌, arith, ltb, ◌==◌, if◌then◌else◌, length, take, length-take, filterb, any, contains, All,
  All-weaken, Bool-cases, inl, inr, and-eq_true, ==→eq, subst,
}
use bittorrent_rs.Choker.{
  Candidate, before, place, sort, insert_id, collect_ids, is_interested, ranked, first_not_in,
  admissible, add_next, fill_last, choose,
}

-- Whether a candidate of the id is interested.
abbrev pub wants : List Candidate → ℕ → Bool
wants peers id = any (λ c. c.id == id && c.interested) peers

length-insert_id : (id : ℕ) (ids : List ℕ) → length (insert_id id ids) ≤ suc (length ids)
length-insert_id id ids = ground arith

length-collect_ids : (cs : List Candidate) → length (collect_ids cs) ≤ length cs
length-collect_ids [] = omega arith
length-collect_ids (c ∷ cs) =
    omega (arith, length-insert_id c.id (collect_ids cs), length-collect_ids cs)

length-fill_last :
    (optimistic : Option ℕ) (ranking : List Candidate) (chosen : List ℕ)
    → length (fill_last optimistic ranking chosen) ≤ suc (length chosen)
length-fill_last (some id) ranking chosen = length-insert_id id chosen
length-fill_last none ranking chosen = go (first_not_in chosen ranking)
  where
    go : (next : Option Candidate) → length (add_next next chosen) ≤ suc (length chosen)
    go none = omega arith
    go (some next) = length-insert_id next.id chosen

-- No more peers are chosen than there are slots.
pub length-choose :
    (peers : List Candidate) (slots : ℕ) (optimistic : Option ℕ)
    → length (choose peers slots optimistic) ≤ slots
unfolding choose
length-choose peers slots optimistic = elim (Bool-cases (slots == 0)) [
  | inl e ↦ rw e (omega arith)
  | inr some_slot ↦
      let regular = if slots == 1 then 1 else slots - 1 in
      let ranking = ranked peers in
      let chosen = collect_ids (take regular ranking) in
      let few : length chosen ≤ regular =
        omega (arith, length-collect_ids (take regular ranking), length-take regular ranking) in
      elim (Bool-cases (ltb 1 slots)) [
        | inl many ↦
            let r : suc regular ≤ slots = ground arith in
            rw (some_slot, many)
              (omega (
                arith,
                few,
                r,
                length-fill_last (admissible optimistic ranking chosen) ranking chosen,
              ))
        | inr one ↦
            let r : regular ≤ slots = ground arith in rw (some_slot, one) (omega (arith, few, r))
      ]
]

module _ (P : Candidate → Type 0) where
  place-All : (c : Candidate) (ds : List Candidate) → P c → All P ds → All P (place c ds)
  place-All c [] h k = (h, tt)
  place-All c (d ∷ ds) h k = elim (Bool-cases (before d c)) [
    | inl e ↦ rw e (k.0, place-All c ds h k.1)
    | inr e ↦ rw e (h, k)
  ]

  sort-All : (cs : List Candidate) → All P cs → All P (sort cs)
  sort-All [] h = tt
  sort-All (c ∷ cs) h = place-All c (sort cs) h.0 (sort-All cs h.1)

  take-All : (n : ℕ) (cs : List Candidate) → All P cs → All P (take n cs)
  take-All zero cs h = tt
  take-All (suc n) [] h = tt
  take-All (suc n) (c ∷ cs) h = (h.0, take-All n cs h.1)

module _ (Q : ℕ → Type 0) where
  insert_id-All : (id : ℕ) (ids : List ℕ) → Q id → All Q ids → All Q (insert_id id ids)
  insert_id-All id ids h k = elim (Bool-cases (contains ids id)) [
    | inl e ↦ rw e k
    | inr e ↦ rw e (h, k)
  ]

  collect_ids-All : (cs : List Candidate) → All (λ c. Q c.id) cs → All Q (collect_ids cs)
  collect_ids-All [] h = tt
  collect_ids-All (c ∷ cs) h = insert_id-All c.id (collect_ids cs) h.0 (collect_ids-All cs h.1)

  any-All :
      (ranking : List Candidate) (id : ℕ)
      → All (λ c. Q c.id) ranking
      → any (λ c. c.id == id) ranking ≡ true
      → Q id
  any-All [] id h e = cc
  any-All (c ∷ ranking) id h e = elim (Bool-cases (c.id == id)) [
    | inl same ↦ subst Q (==→eq c.id id same) h.0
    | inr other ↦ any-All ranking id h.1 (rw other at e)
  ]

  first_not_in-All :
      (chosen : List ℕ) (ranking : List Candidate)
      → All (λ c. Q c.id) ranking
      → All Q chosen
      → All Q (add_next (first_not_in chosen ranking) chosen)
  first_not_in-All chosen [] h k = k
  first_not_in-All chosen (d ∷ ds) h k = elim (Bool-cases (contains chosen d.id)) [
    | inl old ↦ rw old (first_not_in-All chosen ds h.1 k)
    | inr fresh ↦ rw fresh (insert_id-All d.id chosen h.0 k)
  ]

  fill_last-All :
      (optimistic : Option ℕ) (ranking : List Candidate) (chosen : List ℕ)
      → All (λ c. Q c.id) ranking
      → All Q chosen
      → All Q (fill_last (admissible optimistic ranking chosen) ranking chosen)
  fill_last-All none ranking chosen h k = first_not_in-All chosen ranking h k
  fill_last-All (some o) ranking chosen h k =
      elim (Bool-cases (any (λ c. c.id == o) ranking && not (contains chosen o))) [
        | inl e ↦
            let (known, _) = and-eq_true (any (λ c. c.id == o) ranking) e in
            rw e (insert_id-All o chosen (any-All ranking o h known) k)
        | inr e ↦ rw e (first_not_in-All chosen ranking h k)
      ]

keep-All :
    (P : Candidate → Type 0) (c : Candidate) (rest : List Candidate) (b : Bool)
    → (b ≡ true → P c)
    → All P rest
    → All P (if b then c ∷ rest else rest)
keep-All P c rest true h k = (h refl, k)
keep-All P c rest false h k = k

filterb-wants :
    (peers : List Candidate) → All (λ c. wants peers c.id ≡ true) (filterb is_interested peers)
filterb-wants [] = tt
filterb-wants (c ∷ cs) =
    let later : All (λ d. wants (c ∷ cs) d.id ≡ true) (filterb is_interested cs) =
      All-weaken _ _ (filterb is_interested cs) (λ d h. ground (arith, h)) (filterb-wants cs) in
    keep-All (λ d. wants (c ∷ cs) d.id ≡ true) c (filterb is_interested cs) c.interested
      (λ e. ground (arith, e)) later

-- Every chosen peer is one of the candidates, and interested.
pub choose-wants :
    (peers : List Candidate) (slots : ℕ) (optimistic : Option ℕ)
    → All (λ id. wants peers id ≡ true) (choose peers slots optimistic)
unfolding choose
choose-wants peers slots optimistic =
    let Q : ℕ → Type 0 = λ id. wants peers id ≡ true in
    let ranking = ranked peers in
    let known = sort-All (λ c. Q c.id) (filterb is_interested peers) (filterb-wants peers) in
    let regular = if slots == 1 then 1 else slots - 1 in
    let chosen = collect_ids (take regular ranking) in
    let first =
      collect_ids-All Q (take regular ranking) (take-All (λ c. Q c.id) regular ranking known) in
    elim (Bool-cases (slots == 0)) [
      | inl e ↦ rw e tt
      | inr some_slot ↦ elim (Bool-cases (ltb 1 slots)) [
        | inl many ↦ rw (some_slot, many) (fill_last-All Q optimistic ranking chosen known first)
        | inr one ↦ rw (some_slot, one) first
      ]
    ]
