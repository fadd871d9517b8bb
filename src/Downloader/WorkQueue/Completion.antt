-- ===== src/Downloader/WorkQueue/Completion.antt =====
-- src/downloader/queue.rs: the queue is empty when every piece is done, and not before.
use bittorrent_rs.Prelude.{
  ℕ, ◌≡◌, ◌↔◌, refl, ap, subst, inl, inr, Bool, true, false, none, some, List, [], ◌∷◌, map, arith,
  ◌==◌, Bool-cases, Option-cases, contains, All, Distinct, and-eq_true, values, entries,
}
use bittorrent_rs.Downloader.PieceAssembler.{PieceWork}
use bittorrent_rs.Downloader.WorkQueue.{
  WorkQueue, Rank, new, rank, pick_from, nothing_left, piece_of, take_claimed, take_for, pop,
  is_nil, is_empty,
}
use bittorrent_rs.Downloader.WorkQueue.Choice.{Picks, pick_from-Picks}
use bittorrent_rs.Downloader.WorkQueue.Counts.{countb}
use bittorrent_rs.Downloader.WorkQueue.Status.{
  Call, run, times, take_with_found, take_with-none, count_done_zero, run-times_one,
}
use bittorrent_rs.Downloader.WorkQueue.Endgame.{is_nil→eq}

-- A peer that has everything is offered something, if there is anything.
pick_from_nothing :
    (key : PieceWork → Rank) (ws : List PieceWork) → pick_from key (λ _. true) 0 ws ≡ none → ws ≡ []
pick_from_nothing key ws h =
    go ws (subst (Picks key (λ _. true) 0 ws) h (pick_from-Picks key (λ _. true) 0 ws))
  where
    go : (ws : List PieceWork) → All (λ v. true ≡ false) ws → ws ≡ []
    go [] p = refl
    go (w ∷ ws) p = cc

pick_from_nil :
    (key : PieceWork → Rank) (has : ℕ → Bool) (ws : List PieceWork)
    → ws ≡ []
    → pick_from key has 0 ws ≡ none
unfolding pick_from
pick_from_nil key has [] h = refl
pick_from_nil key has (w ∷ ws) h = cc

values_nil : (m : List (ℕ × PieceWork)) → values m ≡ [] → m ≡ []
values_nil [] h = refl
values_nil ((j, v) ∷ m) h = cc

eq→is_nil {ℓ} : {A : Type ℓ} (xs : List A) → xs ≡ [] → is_nil xs ≡ true
eq→is_nil [] h = refl
eq→is_nil (x ∷ xs) h = cc

take_claimed_nothing :
    (q : WorkQueue)
    → q.pending ≡ []
    → piece_of (take_claimed q (λ _. true) true) ≡ none
    → q.claimed ≡ []
unfolding take_claimed
take_claimed_nothing q e h =
    elim (Option-cases (pick_from (rank q) (λ _. true) 0 (values q.claimed))) [
      | inl nothing ↦ values_nil q.claimed (pick_from_nothing (rank q) (values q.claimed) nothing)
      | inr ((n, w), found) ↦ let h' : some w ≡ none = rw (eq→is_nil q.pending e, found) at h in cc
    ]

empty_of_pop : (q : WorkQueue) → (pop q).0 ≡ none → is_empty q ≡ true
unfolding pop take_for is_empty
empty_of_pop q h = elim (Option-cases (pick_from (rank q) (λ _. true) 0 q.pending)) [
  | inl e ↦
      let empty = pick_from_nothing (rank q) q.pending e in
      let h' : piece_of (take_claimed q (λ _. true) true) ≡ none =
        rw (take_with-none q (λ _. true) true e) at h in
      rw (eq→is_nil q.pending empty, eq→is_nil q.claimed (take_claimed_nothing q empty h'))
  | inr ((n, w), e) ↦
      let h' : some w ≡ none = rw (take_with_found q (λ _. true) true n w e) at h in cc
]

pop_of_empty : (q : WorkQueue) → is_empty q ≡ true → (pop q).0 ≡ none
unfolding pop take_for is_empty take_claimed nothing_left
pop_of_empty q h =
    let (p, c) = and-eq_true (is_nil q.pending) h in
    let nothing = pick_from_nil (rank q) (λ _. true) q.pending (is_nil→eq q.pending p) in
    let no_claim = ap values (is_nil→eq q.claimed c) in
    let nothing' = pick_from_nil (rank q) (λ _. true) (values q.claimed) no_claim in
    rw (take_with-none q (λ _. true) true nothing, p, nothing', c)

-- `pop` finds nothing exactly when no piece is pending and none is claimed.
pop-none_iff : (q : WorkQueue) → ((pop q).0 ≡ none) ↔ (is_empty q ≡ true)
pop-none_iff q = (empty_of_pop q, pop_of_empty q)

times-new :
    (pieces : List PieceWork) (total i : ℕ)
    → Distinct (map (λ w. w.index) pieces)
    → contains (map (λ w. w.index) pieces) i ≡ true
    → times (new pieces total) i ≡ 1
unfolding new
times-new pieces total i d h = omega (arith, once i pieces d h)
  where
    never :
        (i : ℕ) (ws : List PieceWork)
        → contains (map (λ w. w.index) ws) i ≡ false
        → countb (λ w. w.index == i) ws ≡ 0
    never i [] h = refl
    never i (w ∷ ws) h = ground (arith, never i ws)

    once :
        (i : ℕ) (ws : List PieceWork)
        → Distinct (map (λ w. w.index) ws)
        → contains (map (λ w. w.index) ws) i ≡ true
        → countb (λ w. w.index == i) ws ≡ 1
    once i [] d h = cc
    once i (w ∷ ws) d h = ground (arith, never i ws, once i ws d.1)

countb_nil : (i : ℕ) (ws : List PieceWork) → is_nil ws ≡ true → countb (λ w. w.index == i) ws ≡ 0
countb_nil i [] h = refl
countb_nil i (w ∷ ws) h = cc

entries_nil : (i : ℕ) (m : List (ℕ × PieceWork)) → is_nil m ≡ true → entries i m ≡ 0
entries_nil i [] h = refl
entries_nil i (e ∷ m) h = cc

-- A queue is made of pieces with indices that differ, and any calls are made on it. If `pop` then finds
-- nothing, every one of the pieces is done.
pub pop-all_done :
    (pieces : List PieceWork) (total : ℕ) (calls : List Call) (i : ℕ)
    → Distinct (map (λ w. w.index) pieces)
    → (pop (run (new pieces total) calls)).0 ≡ none
    → contains (map (λ w. w.index) pieces) i ≡ true
    → contains (run (new pieces total) calls).done i ≡ true
unfolding is_empty
pop-all_done pieces total calls i d h there =
    let q : WorkQueue = run (new pieces total) calls in
    let one = run-times_one (new pieces total) calls i (times-new pieces total i d there) in
    let (no_pending, no_claimed) = and-eq_true (is_nil q.pending) (empty_of_pop q h) in
    elim (Bool-cases (contains q.done i)) [
      | inl done ↦ done
      | inr not_done ↦ absurd (
          omega (
            arith,
            one,
            count_done_zero i q.done not_done,
            countb_nil i q.pending no_pending,
            entries_nil i q.claimed no_claimed,
          ))
    ]
