-- ===== src/Downloader/WorkQueue/Status.antt =====
-- src/downloader/queue.rs: each piece is pending, claimed or done, and stays one of these.
use native.Mathlib.Decide.{ℕ_discrete}
use native.Mathlib.Nat.{sub-zero as nat_sub-zero}
use bittorrent_rs.Prelude.{
  ℕ, ◌+◌, ◌≤◌, ◌<◌, ◌≡◌, refl, subst, inl, inr, Bool, true, false, not, none, some, List, [], ◌∷◌,
  ◌++◌, arith, ◌==◌, ==_refl, ne→==_false, if◌then◌else◌, Bool-cases, Option-cases, get_elem?,
  contains, remove, entries, entries-remove, entries-insert_ne, entries-insert_fresh,
}
use bittorrent_rs.Downloader.PieceAssembler.{PieceWork, PartialPiece}
use bittorrent_rs.Downloader.WorkQueue.{
  WorkQueue, piece, rank, pick_from, claim, take_claimed, take_with, push_back, stash_partial,
  take_partial, mark_done, note_have, note_bitfield, is_pending,
}
use bittorrent_rs.Downloader.WorkQueue.Choice.{Picks, pick_from-Picks}
use bittorrent_rs.Downloader.WorkQueue.Counts.{
  bit, countb, countb-append, countb-swap_remove, countb_zero_any, countb_pos_any, countb-filterb,
  countb-filterb_none, countb-get_elem?,
}

-- How often piece `i` is pending, claimed and done.
abbrev pub times_pending : WorkQueue → ℕ → ℕ
times_pending q i = countb (λ w. w.index == i) q.pending

abbrev pub times_claimed : WorkQueue → ℕ → ℕ
times_claimed q i = entries i q.claimed

abbrev pub times_done : WorkQueue → ℕ → ℕ
times_done q i = countb (λ x. x == i) q.done

abbrev pub times : WorkQueue → ℕ → ℕ
times q i = times_pending q i + times_claimed q i + times_done q i

-- A call of the queue's interface.
pub data Call : Type 0 where
  takes : (has : ℕ → Bool) (endgame_duplicates : Bool) → Call
  pushes_back : PieceWork → Call
  stashes : ℕ → PartialPiece → Call
  takes_partial : ℕ → Call
  marks_done : ℕ → Call
  notes_have : ℕ → Call
  notes_bitfield : List Bool → Call

unfoldable pub call : WorkQueue → Call → WorkQueue
call q (takes has duplicates) = (take_with q has duplicates).1
call q (pushes_back work) = push_back q work
call q (stashes i p) = stash_partial q i p
call q (takes_partial i) = (take_partial q i).1
call q (marks_done i) = (mark_done q i).1
call q (notes_have i) = note_have q i
call q (notes_bitfield have) = note_bitfield q have

unfoldable pub run : WorkQueue → List Call → WorkQueue
run q [] = q
run q (c ∷ cs) = run (call q c) cs

-- A piece that is somewhere once stays so, and none comes to be in two places.
abbrev pub Keeps : WorkQueue → WorkQueue → ℕ → Type 0
Keeps q r i = times q i ≤ 1 → (times q i ≤ times r i) × (times r i ≤ 1)

-- What holds of the piece that a call names, and of every other, holds of every piece.
each {ℓ} : (P : ℕ → Type ℓ) (k : ℕ) → P k → ((i : ℕ) → (k == i) ≡ false → P i) → (i : ℕ) → P i
each P k self others i = elim (ℕ_discrete k i) [
  | yes same ↦ subst P same self
  | no other ↦ others i (ne→==_false k i other)
]

claim-Keeps :
    (q : WorkQueue) (n : ℕ) (work : PieceWork) (i : ℕ)
    → get_elem? q.pending n ≡ some work
    → Keeps q (claim q n work) i
unfolding claim
claim-Keeps q n work i h =
    each (Keeps q (claim q n work)) work.index
      (λ once.
        let moved =
          countb-swap_remove (λ (w : PieceWork). w.index == work.index) q.pending n work h in
        let itself = ==_refl work.index in
        let there =
          countb-get_elem? (λ (w : PieceWork). w.index == work.index) q.pending n work h itself in
        let fresh = entries-insert_fresh work.index work q.claimed (omega arith) in
        let b : bit (work.index == work.index) ≡ 1 = rw itself in omega arith)
      (λ i other once.
        let moved = countb-swap_remove (λ (w : PieceWork). w.index == i) q.pending n work h in
        let kept = entries-insert_ne work.index i work q.claimed other in
        let b : bit (work.index == i) ≡ 0 = rw other in omega arith)
      i

pub take_with_found :
    (q : WorkQueue) (has : ℕ → Bool) (duplicates : Bool) (n : ℕ) (work : PieceWork)
    → pick_from (rank q) has 0 q.pending ≡ some (n, work)
    → take_with q has duplicates ≡ (piece work, claim q n work)
unfolding take_with
take_with_found q has duplicates n work e = rw (e, take_with)

pub take_with-none :
    (q : WorkQueue) (has : ℕ → Bool) (duplicates : Bool)
    → pick_from (rank q) has 0 q.pending ≡ none
    → take_with q has duplicates ≡ (take_claimed q has duplicates, q)
unfolding take_with
take_with-none q has duplicates e = rw (e, take_with)

take_with-Keeps :
    (q : WorkQueue) (has : ℕ → Bool) (duplicates : Bool) (i : ℕ)
    → Keeps q (take_with q has duplicates).1 i
take_with-Keeps q has duplicates i = elim (Option-cases (pick_from (rank q) has 0 q.pending)) [
  | inl e ↦ rw (take_with-none q has duplicates e) (λ once. omega arith)
  | inr ((n, work), e) ↦
      let first =
        subst (Picks (rank q) has 0 q.pending) e (pick_from-Picks (rank q) has 0 q.pending) in
      rw (take_with_found q has duplicates n work e)
        (claim-Keeps q n work i (rw (nat_sub-zero n) at first.found))
]

pub count_done_zero : (i : ℕ) (xs : List ℕ) → contains xs i ≡ false → countb (λ x. x == i) xs ≡ 0
count_done_zero i [] h = refl
count_done_zero i (x ∷ xs) h = ground (arith, count_done_zero i xs)

pub count_done_pos : (i : ℕ) (xs : List ℕ) → contains xs i ≡ true → 0 < countb (λ x. x == i) xs
count_done_pos i [] h = cc
count_done_pos i (x ∷ xs) h = ground (arith, count_done_pos i xs)

-- What `push_back` makes of a queue where the piece is not done.
abbrev returned : WorkQueue → PieceWork → WorkQueue
returned q work = record q {
  inner = record q.inner {
    claimed = remove work.index q.claimed;
    pending = if is_pending q work.index then q.pending else q.pending ++ work ∷ [];
  };
}

returned-Keeps :
    (q : WorkQueue) (work : PieceWork) (i : ℕ)
    → contains q.done work.index ≡ false
    → Keeps q (returned q work) i
returned-Keeps q work i not_done =
    each (Keeps q (returned q work)) work.index
      (λ once.
        let gone = entries-remove work.index work.index q.claimed in
        let itself = ==_refl work.index in
        let gone' : entries work.index (remove work.index q.claimed) ≡ 0 = rw itself at gone in
        let free = count_done_zero work.index q.done not_done in
        elim (Bool-cases (is_pending q work.index)) [
          | inl there ↦ let some_there = countb_pos_any _ q.pending there in rw there (omega arith)
          | inr absent ↦
              let none_there = countb_zero_any _ q.pending absent in
              let added =
                countb-append (λ (w : PieceWork). w.index == work.index) q.pending (work ∷ []) in
              let b : bit (work.index == work.index) ≡ 1 = rw itself in rw absent (omega arith)
        ])
      (λ i other once.
        let kept = entries-remove work.index i q.claimed in
        let kept' : entries i (remove work.index q.claimed) ≡ entries i q.claimed =
          rw other at kept in
        let added = countb-append (λ (w : PieceWork). w.index == i) q.pending (work ∷ []) in
        let b : bit (work.index == i) ≡ 0 = rw other in
        elim (Bool-cases (is_pending q work.index)) [
          | inl there ↦ rw there (omega arith)
          | inr absent ↦ rw absent (omega arith)
        ])
      i

push_back-Keeps : (q : WorkQueue) (work : PieceWork) (i : ℕ) → Keeps q (push_back q work) i
unfolding push_back
push_back-Keeps q work i = elim (Bool-cases (contains q.done work.index)) [
  | inl done ↦ rw done (λ once. omega arith)
  | inr not_done ↦ rw not_done (returned-Keeps q work i not_done)
]

mark_done-Keeps : (q : WorkQueue) (index i : ℕ) → Keeps q (mark_done q index).1 i
unfolding mark_done
mark_done-Keeps q index i =
    each (Keeps q (mark_done q index).1) index
      (λ once.
        let itself = ==_refl index in
        let gone : entries index (remove index q.claimed) ≡ 0 =
          rw itself at (entries-remove index index q.claimed) in
        let cleared =
          countb-filterb_none (λ (w : PieceWork). w.index == index) (λ w. not (w.index == index))
            q.pending (λ w h. rw h) in
        let b : bit (index == index) ≡ 1 = rw itself in
        elim (Bool-cases (contains q.done index)) [
          | inl done ↦ let some_there = count_done_pos index q.done done in rw done (omega arith)
          | inr not_done ↦
              let none_there = count_done_zero index q.done not_done in rw not_done (omega arith)
        ])
      (λ i other once.
        let kept : entries i (remove index q.claimed) ≡ entries i q.claimed =
          rw other at (entries-remove index i q.claimed) in
        let left =
          countb-filterb (λ (w : PieceWork). w.index == i) (λ w. not (w.index == index)) q.pending
            (λ w h. ground arith) in
        let b : bit (index == i) ≡ 0 = rw other in
        elim (Bool-cases (contains q.done index)) [
          | inl done ↦ rw done (omega arith)
          | inr not_done ↦ rw not_done (omega arith)
        ])
      i

stash_partial-same :
    (q : WorkQueue) (index i : ℕ) (p : PartialPiece) → times (stash_partial q index p) i ≡ times q i
unfolding stash_partial
stash_partial-same q index i p = ground arith

pub call-Keeps : (q : WorkQueue) (c : Call) (i : ℕ) → Keeps q (call q c) i
unfolding call take_partial note_have note_bitfield
call-Keeps q (takes has duplicates) i = take_with-Keeps q has duplicates i
call-Keeps q (pushes_back work) i = push_back-Keeps q work i
call-Keeps q (stashes index p) i = λ once. omega (arith, stash_partial-same q index i p)
call-Keeps q (takes_partial index) i = λ once. omega arith
call-Keeps q (marks_done index) i = mark_done-Keeps q index i
call-Keeps q (notes_have index) i = λ once. omega arith
call-Keeps q (notes_bitfield have) i = λ once. omega arith

-- A piece that is in exactly one of the three states (pending, claimed by a connection, done) is in
-- exactly one of them after any calls, whatever their arguments: none is lost and none is duplicated.
pub run-times_one :
    (q : WorkQueue) (calls : List Call) (i : ℕ) → times q i ≡ 1 → times (run q calls) i ≡ 1
unfolding run
run-times_one q [] i h = h
run-times_one q (c ∷ cs) i h =
    let kept = call-Keeps q c i (omega arith) in run-times_one (call q c) cs i (omega arith)
