-- ===== src/Downloader/WorkQueue/Examples.antt =====
-- src/downloader/queue.rs: the theorems at concrete inputs.
use bittorrent_rs.Prelude.{ℕ, ◌≡◌, ◌≢◌, refl, Bool, true, none, List, [], ◌∷◌, arith, contains}
use bittorrent_rs.Downloader.PieceAssembler.{PieceWork}
use bittorrent_rs.Downloader.WorkQueue.{
  WorkQueue, piece, new, rank, pick_from, take_with, pop, mark_done, take_for, claim, rank_in,
  swap_remove, last?, take_claimed, nothing_left, push_back,
}
use bittorrent_rs.Downloader.WorkQueue.Status.{
  Call, takes, pushes_back, marks_done, call, run, times, run-times_one,
}
use bittorrent_rs.Downloader.WorkQueue.Endgame.{
  Inv, Handed, take_with-Handed, mark_done-never_again,
}
use bittorrent_rs.Downloader.WorkQueue.Completion.{pop-all_done}
use bittorrent_rs.Downloader.WorkQueue.Stash.{Bounded, run-new-Bounded}

abbrev piece_at : ℕ → PieceWork
piece_at i = record { index = i; hash = []; length = 16384; merkle = none }

-- Two pieces, the first of them with two peers and the second with one.
abbrev two_pieces : List PieceWork
two_pieces = piece_at 0 ∷ piece_at 1 ∷ []

abbrev two_queue : WorkQueue
two_queue = record (new two_pieces 2) { availability = 2 ∷ 1 ∷ [] }

abbrev every : ℕ → Bool
every i = true

two_queue-Inv : Inv two_queue
unfolding new
two_queue-Inv = record { once = λ i. ground arith; keyed = tt }

two_queue-times : times two_queue 1 ≡ 1
unfolding new
two_queue-times = refl

abbrev calls : List Call
calls = takes every true ∷ pushes_back (piece_at 1) ∷ takes every true ∷ marks_done 1 ∷ []

run-times_one_example : times (run two_queue calls) 1 ≡ 1
run-times_one_example = run-times_one two_queue calls 1 two_queue-times

two_queue-take : (take_with two_queue every true).0 ≡ piece (piece_at 1)
unfolding new take_with pick_from rank rank_in
two_queue-take = refl

take_with-Handed_example : Handed two_queue every (take_with two_queue every true).1 (piece_at 1)
take_with-Handed_example =
    take_with-Handed two_queue every true (piece_at 1) two_queue-Inv two_queue-take

after_done :
    (take_with (run (mark_done two_queue 1).1 (pushes_back (piece_at 1) ∷ [])) every true).0
    ≡ piece (piece_at 0)
unfolding new take_with pick_from rank rank_in mark_done run call push_back
after_done = refl

mark_done-never_again_example : (piece_at 0).index ≢ 1
mark_done-never_again_example =
    mark_done-never_again two_queue 1 (pushes_back (piece_at 1) ∷ []) every true (piece_at 0)
      two_queue-Inv after_done

abbrev all_calls : List Call
all_calls = takes every true ∷ takes every true ∷ marks_done 0 ∷ marks_done 1 ∷ []

nothing_to_pop : (pop (run (new two_pieces 2) all_calls)).0 ≡ none
unfolding new take_with pick_from rank rank_in mark_done run call pop take_for take_claimed
    nothing_left claim swap_remove last?
nothing_to_pop = refl

pop-all_done_example : contains (run (new two_pieces 2) all_calls).done 1 ≡ true
pop-all_done_example = pop-all_done two_pieces 2 all_calls 1 (refl, (refl, tt)) nothing_to_pop refl

run-new-Bounded_example : Bounded (run (new two_pieces 2) calls)
run-new-Bounded_example = run-new-Bounded two_pieces 2 calls
