-- ===== src/Downloader/WorkQueue/Endgame.antt =====
-- src/downloader/queue.rs: what a connection is handed, to the end of the download.
use mathlib.Core.Bool.{false≢true}
use native.Mathlib.Nat.{sub-zero as nat_sub-zero}
use bittorrent_rs.Prelude.{
  ℕ, zero, suc, ◌+◌, ◌≤◌, ◌<◌, ◌≡◌, ◌≢◌, refl, sym, subst, ◌∙◌, ◌⊎◌, inl, inr, Bool, true, false,
  ◌&&◌, some, List, [], ◌∷◌, arith, ◌==◌, Bool-cases, Option-cases, get_elem?, contains, All,
  ==_refl, and-eq_true, insert, remove, values, entries, entries-insert_fresh,
}
use bittorrent_rs.Downloader.PieceAssembler.{PieceWork, PartialPiece}
use bittorrent_rs.Downloader.WorkQueue.{
  WorkQueue, piece, nothing_left, rank, pick_from, claim, take_claimed, take_with, push_back,
  stash_partial, take_partial, mark_done, note_have, note_bitfield, is_nil,
}
use bittorrent_rs.Downloader.WorkQueue.Choice.{IsFirst, Picks, pick_from-Picks}
use bittorrent_rs.Downloader.WorkQueue.Counts.{countb-get_elem?}
use bittorrent_rs.Downloader.WorkQueue.Status.{
  Call, takes, pushes_back, stashes, takes_partial, marks_done, notes_have, notes_bitfield, call,
  run, times, times_pending, times_claimed, take_with_found, take_with-none, call-Keeps,
  count_done_pos,
}

abbrev pub IsKeyed : List (ℕ × PieceWork) → Type 0
IsKeyed = All (λ e. e.1.index ≡ e.0)

-- No piece is in two places, and the claims are filed under their pieces' indices.
pub record Inv (q : WorkQueue) : Type 0 where
  pub once : (i : ℕ) → times q i ≤ 1
  pub keyed : IsKeyed q.claimed

insert-IsKeyed :
    (w : PieceWork) (m : List (ℕ × PieceWork)) → IsKeyed m → IsKeyed (insert w.index w m)
insert-IsKeyed w [] h = (refl, tt)
insert-IsKeyed w ((j, v) ∷ m) h = elim (Bool-cases (j == w.index)) [
  | inl same ↦ rw same (refl, h.1)
  | inr other ↦ rw other (h.0, insert-IsKeyed w m h.1)
]

remove-IsKeyed : (k : ℕ) (m : List (ℕ × PieceWork)) → IsKeyed m → IsKeyed (remove k m)
remove-IsKeyed k [] h = tt
remove-IsKeyed k ((j, v) ∷ m) h = elim (Bool-cases (j == k)) [
  | inl same ↦ rw same (remove-IsKeyed k m h.1)
  | inr other ↦ rw other (h.0, remove-IsKeyed k m h.1)
]

take_with-IsKeyed :
    (q : WorkQueue) (has : ℕ → Bool) (d : Bool)
    → IsKeyed q.claimed
    → IsKeyed (take_with q has d).1.claimed
unfolding claim
take_with-IsKeyed q has d h = elim (Option-cases (pick_from (rank q) has 0 q.pending)) [
  | inl e ↦ rw (take_with-none q has d e) h
  | inr ((n, work), e) ↦ rw (take_with_found q has d n work e) (insert-IsKeyed work q.claimed h)
]

push_back-IsKeyed :
    (q : WorkQueue) (work : PieceWork) → IsKeyed q.claimed → IsKeyed (push_back q work).claimed
unfolding push_back
push_back-IsKeyed q work h = elim (Bool-cases (contains q.done work.index)) [
  | inl done ↦ rw done h
  | inr not_done ↦ rw not_done (remove-IsKeyed work.index q.claimed h)
]

stash_partial-claimed :
    (q : WorkQueue) (index : ℕ) (p : PartialPiece) → (stash_partial q index p).claimed ≡ q.claimed
unfolding stash_partial
stash_partial-claimed q index p = ground arith

call-IsKeyed : (q : WorkQueue) (c : Call) → IsKeyed q.claimed → IsKeyed (call q c).claimed
unfolding call take_partial mark_done note_have note_bitfield
call-IsKeyed q (takes has duplicates) h = take_with-IsKeyed q has duplicates h
call-IsKeyed q (pushes_back work) h = push_back-IsKeyed q work h
call-IsKeyed q (stashes index p) h = rw (stash_partial-claimed q index p) h
call-IsKeyed q (takes_partial index) h = h
call-IsKeyed q (marks_done index) h = remove-IsKeyed index q.claimed h
call-IsKeyed q (notes_have index) h = h
call-IsKeyed q (notes_bitfield have) h = h

pub run-Inv : (q : WorkQueue) (cs : List Call) → Inv q → Inv (run q cs)
unfolding run
run-Inv q [] v = v
run-Inv q (c ∷ cs) v =
    run-Inv (call q c) cs
      (record { once = λ i. (call-Keeps q c i (v.once i)).1; keyed = call-IsKeyed q c v.keyed })

values-entries :
    (m : List (ℕ × PieceWork)) (n : ℕ) (w : PieceWork)
    → IsKeyed m
    → get_elem? (values m) n ≡ some w
    → 0 < entries w.index m
values-entries [] n w h e = cc
values-entries ((j, v) ∷ m) zero w h e =
    let same : v ≡ w = cc in let key : j ≡ w.index = cc in ground arith
values-entries ((j, v) ∷ m) (suc n) w h e = ground (arith, values-entries m n w h.1 e)

-- What a piece that was handed out to a peer is.
pub record Handed (q : WorkQueue) (has : ℕ → Bool) (r : WorkQueue) (w : PieceWork) : Type 0 where
  pub offered : has w.index ≡ true
  pub not_done : contains q.done w.index ≡ false
  pub now_claimed : 0 < times_claimed r w.index
  pub choice :
      ((n : ℕ) × IsFirst (rank q) has 0 q.pending n w)
      ⊎ ((q.pending ≡ []) × (r ≡ q) × ((n : ℕ) × IsFirst (rank q) has 0 (values q.claimed) n w))

not_done_of :
    (q : WorkQueue) (i : ℕ)
    → Inv q
    → 0 < times_pending q i + times_claimed q i
    → contains q.done i ≡ false
not_done_of q i v h = elim (Bool-cases (contains q.done i)) [
  | inl done ↦ absurd (omega (arith, v.once i, count_done_pos i q.done done))
  | inr not_done ↦ not_done
]

nothing_left-ne-piece : (q : WorkQueue) (w : PieceWork) → nothing_left q ≢ piece w
unfolding nothing_left
nothing_left-ne-piece q w h = ground arith

pub is_nil→eq {ℓ} : {A : Type ℓ} (xs : List A) → is_nil xs ≡ true → xs ≡ []
is_nil→eq [] h = refl
is_nil→eq (x ∷ xs) h = cc

take_claimed-piece :
    (q : WorkQueue) (has : ℕ → Bool) (d : Bool) (w : PieceWork)
    → take_claimed q has d ≡ piece w
    → (q.pending ≡ []) × ((n : ℕ) × (pick_from (rank q) has 0 (values q.claimed) ≡ some (n, w)))
unfolding take_claimed
take_claimed-piece q has d w h = elim (Bool-cases (d && is_nil q.pending)) [
  | inr no_endgame ↦ absurd (nothing_left-ne-piece q w (rw no_endgame at h))
  | inl endgame ↦ elim (Option-cases (pick_from (rank q) has 0 (values q.claimed))) [
    | inl e ↦ absurd (nothing_left-ne-piece q w (rw (endgame, e) at h))
    | inr ((n, u), e) ↦
        let chosen : piece u ≡ piece w = rw (endgame, e) at h in
        let same : u ≡ w = cc in (is_nil→eq q.pending (and-eq_true d endgame).1, (n, rw (← same) e))
  ]
]

claimed-Handed :
    (q : WorkQueue) (has : ℕ → Bool) (w : PieceWork) (n : ℕ)
    → Inv q
    → q.pending ≡ []
    → IsFirst (rank q) has 0 (values q.claimed) n w
    → Handed q has q w
claimed-Handed q has w n v e first =
    let there = values-entries q.claimed n w v.keyed (rw (nat_sub-zero n) at first.found) in
    record {
      offered = first.offered;
      not_done = not_done_of q w.index v (omega arith);
      now_claimed = there;
      choice = inr (e, refl, (n, first));
    }

pending-Handed :
    (q : WorkQueue) (has : ℕ → Bool) (w : PieceWork) (n : ℕ)
    → Inv q
    → IsFirst (rank q) has 0 q.pending n w
    → Handed q has (claim q n w) w
unfolding claim
pending-Handed q has w n v first =
    let there =
      countb-get_elem? (λ (x : PieceWork). x.index == w.index) q.pending n w
        (rw (nat_sub-zero n) at first.found) (==_refl w.index) in
    record {
      offered = first.offered;
      not_done = not_done_of q w.index v (omega arith);
      now_claimed =
          omega (arith, entries-insert_fresh w.index w q.claimed (omega (arith, v.once w.index)));
      choice = inl (n, first);
    }

-- The piece that `take` hands out, on a well-formed queue, is one that the peer has, is not done, and
-- is claimed from then on. It is the first in rank of the pending pieces that the peer has; or nothing
-- is pending, the queue is left as it is, and it is the first of the claimed pieces that the peer has.
pub take_with-Handed :
    (q : WorkQueue) (has : ℕ → Bool) (endgame_duplicates : Bool) (w : PieceWork)
    → Inv q
    → (take_with q has endgame_duplicates).0 ≡ piece w
    → Handed q has (take_with q has endgame_duplicates).1 w
take_with-Handed q has d w v h = elim (Option-cases (pick_from (rank q) has 0 q.pending)) [
  | inl e ↦
      let taken = take_with-none q has d e in
      let (empty, (n, chosen)) = take_claimed-piece q has d w (rw taken at h) in
      rw taken (
        claimed-Handed q has w n v empty (
          subst (Picks (rank q) has 0 (values q.claimed)) chosen
            (pick_from-Picks (rank q) has 0 (values q.claimed))))
  | inr ((n, u), e) ↦
      let taken = take_with_found q has d n u e in
      let chosen : piece u ≡ piece w = rw taken at h in
      let same : u ≡ w = cc in
      let found : pick_from (rank q) has 0 q.pending ≡ some (n, w) = rw (← same) e in
      rw (take_with_found q has d n w found) (
        pending-Handed q has w n v
          (subst (Picks (rank q) has 0 q.pending) found (pick_from-Picks (rank q) has 0 q.pending)))
]

-- What is done stays done.
call-done :
    (q : WorkQueue) (c : Call) (i : ℕ)
    → contains q.done i ≡ true
    → contains (call q c).done i ≡ true
unfolding call take_partial mark_done note_have note_bitfield push_back stash_partial take_with
    claim
call-done q (takes has duplicates) i h = ground arith
call-done q (pushes_back work) i h = ground arith
call-done q (stashes index p) i h = ground arith
call-done q (takes_partial index) i h = h
call-done q (marks_done index) i h = ground arith
call-done q (notes_have index) i h = h
call-done q (notes_bitfield have) i h = h

run-done :
    (q : WorkQueue) (cs : List Call) (i : ℕ)
    → contains q.done i ≡ true
    → contains (run q cs).done i ≡ true
unfolding run
run-done q [] i h = h
run-done q (c ∷ cs) i h = run-done (call q c) cs i (call-done q c i h)

mark_done-done : (q : WorkQueue) (i : ℕ) → contains (mark_done q i).1.done i ≡ true
unfolding mark_done
mark_done-done q i = ground (arith, ==_refl i)

-- Once a piece is marked done in a well-formed queue, no later call of `take`, whatever was called in
-- between, hands it out again.
pub mark_done-never_again :
    (q : WorkQueue) (i : ℕ) (calls : List Call) (has : ℕ → Bool) (endgame_duplicates : Bool)
    (w : PieceWork)
    → Inv q
    → (take_with (run (mark_done q i).1 calls) has endgame_duplicates).0 ≡ piece w
    → w.index ≢ i
mark_done-never_again q i cs has d w v h same =
    let later : WorkQueue = run (mark_done q i).1 cs in
    let valid = run-Inv q (marks_done i ∷ cs) v in
    let given = take_with-Handed later has d w (unfold run call in valid) h in
    let finished = run-done (mark_done q i).1 cs i (mark_done-done q i) in
    absurd (false≢true (sym given.not_done ∙ rw same finished))
