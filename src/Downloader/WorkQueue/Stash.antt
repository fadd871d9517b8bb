-- ===== src/Downloader/WorkQueue/Stash.antt =====
-- src/downloader/queue.rs: the blocks kept of pieces whose connection failed.
use mathlib.Core.Bool.{false≢true}
use bittorrent_rs.Prelude.{
  ℕ, ◌+◌, ◌≤◌, ◌≡◌, refl, sym, subst, ◌∙◌, inl, inr, true, none, List, [], ◌∷◌, arith, ltb, ◌==◌,
  ==→eq, ne→==_false, if◌then◌else◌, Bool-cases, contains, entries, insert, remove, lookup,
  entries-remove, entries-insert_ne, lookup-remove, ltb_false→le,
}
use bittorrent_rs.Downloader.PieceAssembler.{PieceWork, PartialPiece, size}
use bittorrent_rs.Downloader.WorkQueue.{
  WorkQueue, new, take_with, claim, push_back, stash_partial, take_partial, mark_done, note_have,
  note_bitfield, stash_size, max_stashed_bytes, is_kept,
}
use bittorrent_rs.Downloader.WorkQueue.Status.{
  Call, takes, pushes_back, stashes, takes_partial, marks_done, notes_have, notes_bitfield, call,
  run,
}

-- The stashes fit the bound, a piece has one at most, and a piece that is done has none.
pub record Bounded (q : WorkQueue) : Type 0 where
  pub fits : stash_size q.partials_held ≤ max_stashed_bytes
  pub single : (i : ℕ) → entries i q.partials_held ≤ 1
  pub live : (i : ℕ) → contains q.done i ≡ true → entries i q.partials_held ≡ 0

stash_size-remove : (k : ℕ) (m : List (ℕ × PartialPiece)) → stash_size (remove k m) ≤ stash_size m
stash_size-remove k [] = omega arith
stash_size-remove k ((j, p) ∷ m) = ground (arith, stash_size-remove k m)

remove-fresh :
    (k : ℕ) (m : List (ℕ × PartialPiece)) → entries k m ≡ 0 → stash_size (remove k m) ≡ stash_size m
remove-fresh k [] h = refl
remove-fresh k ((j, p) ∷ m) h = ground (arith, remove-fresh k m)

stash_size-insert :
    (k : ℕ) (p : PartialPiece) (m : List (ℕ × PartialPiece))
    → entries k m ≤ 1
    → stash_size (insert k p m) ≡ stash_size (remove k m) + size p
stash_size-insert k p [] h = omega arith
stash_size-insert k p ((j, r) ∷ m) h = ground (arith, stash_size-insert k p m, remove-fresh k m)

entries-insert_self :
    (k : ℕ) (p : PartialPiece) (m : List (ℕ × PartialPiece))
    → entries k m ≤ 1
    → entries k (insert k p m) ≤ 1
entries-insert_self k p [] h = ground arith
entries-insert_self k p ((j, r) ∷ m) h = ground (arith, entries-insert_self k p m)

entries-insert_le :
    (k i : ℕ) (p : PartialPiece) (m : List (ℕ × PartialPiece))
    → entries i m ≤ 1
    → entries i (insert k p m) ≤ 1
entries-insert_le k i p m h = elim (Bool-cases (k == i)) [
  | inl same ↦
      subst (λ (j : ℕ). entries j m ≤ 1 → entries j (insert k p m) ≤ 1) (==→eq k i same)
        (entries-insert_self k p m) h
  | inr other ↦ rw (entries-insert_ne k i p m other) h
]

-- A queue with other claims, and the same stashes and done pieces.
Bounded-same :
    (q r : WorkQueue) → r.partials_held ≡ q.partials_held → r.done ≡ q.done → Bounded q → Bounded r
Bounded-same q r e d v = record {
  fits = rw e v.fits;
  single = λ i. rw e (v.single i);
  live = λ i h. rw e (v.live i (rw d at h));
}

stash_partial-Bounded :
    (q : WorkQueue) (index : ℕ) (p : PartialPiece) → Bounded q → Bounded (stash_partial q index p)
unfolding stash_partial
stash_partial-Bounded q index p v = elim (Bool-cases (contains q.done index)) [
  | inl done ↦ rw done v
  | inr not_done ↦
      elim (Bool-cases
        (ltb max_stashed_bytes (stash_size (remove index q.partials_held) + size p))) [
          | inl over ↦ rw (not_done, over) v
          | inr fits ↦ elim (Bool-cases (is_kept (lookup index q.partials_held) p)) [
            | inl kept ↦ rw (not_done, fits, kept) v
            | inr replaced ↦
                rw (not_done, fits, replaced)
                  (record {
                    fits = omega (
                      arith,
                      stash_size-insert index p q.partials_held (v.single index),
                      ltb_false→le _ _ fits,
                    );
                    single = λ i. entries-insert_le index i p q.partials_held (v.single i);
                    live = λ i h.
                        entries-insert_ne index i p q.partials_held
                          (ne→==_false index i (λ e. absurd (false≢true (sym not_done ∙ rw e h))))
                        ∙ v.live i h;
                  })
          ]
        ]
]

removed-Bounded :
    (q : WorkQueue) (index i : ℕ) → Bounded q → entries i (remove index q.partials_held) ≤ 1
removed-Bounded q index i v = ground (arith, entries-remove index i q.partials_held, v.single i)

take_partial-Bounded : (q : WorkQueue) (index : ℕ) → Bounded q → Bounded (take_partial q index).1
unfolding take_partial
take_partial-Bounded q index v = record {
  fits = omega (arith, stash_size-remove index q.partials_held, v.fits);
  single = λ i. removed-Bounded q index i v;
  live = λ i h. ground (arith, entries-remove index i q.partials_held, v.live i h);
}

mark_done-Bounded : (q : WorkQueue) (index : ℕ) → Bounded q → Bounded (mark_done q index).1
unfolding mark_done
mark_done-Bounded q index v = record {
  fits = omega (arith, stash_size-remove index q.partials_held, v.fits);
  single = λ i. removed-Bounded q index i v;
  live = λ i h. elim (Bool-cases (index == i)) [
    | inl same ↦ entries-remove index i q.partials_held ∙ rw same
    | inr other ↦
        entries-remove index i q.partials_held
        ∙ rw other (
            v.live i (elim (Bool-cases (contains q.done index)) [
              | inl done ↦ rw done at h
              | inr not_done ↦ rw (not_done, other) at h
            ]))
  ];
}

call-Bounded : (q : WorkQueue) (c : Call) → Bounded q → Bounded (call q c)
unfolding call take_with claim push_back note_have note_bitfield
call-Bounded q (takes has duplicates) v = Bounded-same q _ (ground arith) (ground arith) v
call-Bounded q (pushes_back work) v = Bounded-same q _ (ground arith) (ground arith) v
call-Bounded q (stashes index p) v = stash_partial-Bounded q index p v
call-Bounded q (takes_partial index) v = take_partial-Bounded q index v
call-Bounded q (marks_done index) v = mark_done-Bounded q index v
call-Bounded q (notes_have index) v = Bounded-same q _ refl refl v
call-Bounded q (notes_bitfield have) v = Bounded-same q _ refl refl v

run-Bounded : (q : WorkQueue) (cs : List Call) → Bounded q → Bounded (run q cs)
unfolding run
run-Bounded q [] v = v
run-Bounded q (c ∷ cs) v = run-Bounded (call q c) cs (call-Bounded q c v)

-- Whatever calls are made on a new queue, the stashes never take more than `max_stashed_bytes`, a piece
-- has one stash at most, and a piece that is done has none.
pub run-new-Bounded :
    (pieces : List PieceWork) (total : ℕ) (calls : List Call)
    → Bounded (run (new pieces total) calls)
run-new-Bounded pieces total calls =
    run-Bounded (new pieces total) calls
      (unfold new in record { fits = omega arith; single = λ i. omega arith; live = λ i h. refl })

-- A stash that is taken is gone: a second caller finds nothing, and the others are left as they are.
take_partial-once :
    (q : WorkQueue) (index i : ℕ)
    → (take_partial (take_partial q index).1 i).0
      ≡ (if index == i then none else lookup i q.partials_held)
unfolding take_partial
take_partial-once q index i = lookup-remove index i q.partials_held
