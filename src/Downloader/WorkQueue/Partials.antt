-- ===== src/Downloader/WorkQueue/Partials.antt =====
-- src/downloader/queue.rs: the stashes that are kept across a stop, and the message of a piece that is
-- finished.
use bittorrent_rs.Prelude.{
  ℕ, ◌≤◌, ◌≡◌, refl, List, [], ◌∷◌, arith, leb, ◌==◌, if◌then◌else◌, lookup, Bytes, some,
  Bool-cases, inl, inr, leb→le, leb_false→lt,
}
use bittorrent_rs.Downloader.PieceAssembler.{PartialPiece}
use bittorrent_rs.Downloader.WorkQueue.{WorkQueue}

pub record PieceResult : Type 0 where
  pub index : ℕ
  pub bytes : Bytes

-- `sort_by_key` on the index.
abbrev pub place_partial : ℕ × PartialPiece → List (ℕ × PartialPiece) → List (ℕ × PartialPiece)
place_partial (i, p) [] = (i, p) ∷ []
place_partial (i, p) ((j, r) ∷ all) =
    if leb i j then (i, p) ∷ (j, r) ∷ all else (j, r) ∷ place_partial (i, p) all

abbrev pub sort_partials : List (ℕ × PartialPiece) → List (ℕ × PartialPiece)
sort_partials [] = []
sort_partials (stash ∷ all) = place_partial stash (sort_partials all)

pub partials : WorkQueue → List (ℕ × PartialPiece)
partials q = sort_partials q.partials_held

-- The indices increase, from at least `low`.
abbrev Ascending : ℕ → List (ℕ × PartialPiece) → Type 0
Ascending low [] = Unit
Ascending low ((i, p) ∷ stashes) = (low ≤ i) × Ascending i stashes

place-Ascending :
    (low i : ℕ) (p : PartialPiece) (all : List (ℕ × PartialPiece))
    → low ≤ i
    → Ascending low all
    → Ascending low (place_partial (i, p) all)
place-Ascending low i p [] le h = (le, tt)
place-Ascending low i p ((j, r) ∷ all) le h = elim (Bool-cases (leb i j)) [
  | inl e ↦ rw e (le, (leb→le i j e, h.1))
  | inr e ↦ rw e (h.0, place-Ascending j i p all (omega (arith, leb_false→lt i j e)) h.1)
]

sort-Ascending : (all : List (ℕ × PartialPiece)) → Ascending 0 (sort_partials all)
sort-Ascending [] = tt
sort-Ascending ((i, p) ∷ all) =
    place-Ascending 0 i p (sort_partials all) (omega arith) (sort-Ascending all)

lookup-place :
    (k i : ℕ) (p : PartialPiece) (all : List (ℕ × PartialPiece))
    → lookup k (place_partial (i, p) all) ≡ (if i == k then some p else lookup k all)
lookup-place k i p [] = refl
lookup-place k i p ((j, r) ∷ all) = ground (arith, lookup-place k i p all)

lookup-sort : (k : ℕ) (all : List (ℕ × PartialPiece)) → lookup k (sort_partials all) ≡ lookup k all
lookup-sort k [] = refl
lookup-sort k ((i, p) ∷ all) = rw (lookup-place k i p (sort_partials all), lookup-sort k all) refl

-- The stashes come in the order of their indices, each piece with its stash.
partials-Ascending :
    (q : WorkQueue)
    → Ascending 0 (partials q) × ((k : ℕ) → lookup k (partials q) ≡ lookup k q.partials_held)
unfolding partials
partials-Ascending q = (sort-Ascending q.partials_held, λ k. lookup-sort k q.partials_held)
