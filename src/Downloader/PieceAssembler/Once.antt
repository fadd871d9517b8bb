-- ===== src/Downloader/PieceAssembler/Once.antt =====
-- src/downloader/piece_assembler.rs: no block is handed out twice, and none that is missing is left out.
use mathlib.Core.List.{map-append}
use bittorrent_rs.Prelude.{
  ℕ, zero, suc, ◌+◌, ◌-◌, ◌≤◌, ◌<◌, ◌≡◌, refl, sym, ap, ◌∙◌, inl, inr, false, List, [], ◌∷◌, ◌++◌,
  map, arith, ◌==◌, Bool-cases, length, All, All-append, All-weaken, Distinct, Distinct-append,
  Disjoint, below-Disjoint, or-eq_false, length-map, contains, ne→==_false,
}
use bittorrent_rs.Downloader.PieceAssembler.{
  PieceAssembler, BlockRequest, num_blocks, request, has_arrived, ask_refused, next_requests,
}
use bittorrent_rs.Downloader.PieceAssembler.Invariant.{
  Inv, next_requests-Inv, ask_refused-All, ask_fresh_cursor,
}
use bittorrent_rs.Downloader.PieceAssembler.Requests.{
  All-both, ask_refused-popped, popped, swept, popped-All, swept-All, request_lem, asked_blocks,
  next_requests-blocks, asked_blocks-missing,
}

-- The requests of several calls, one after another.
pub requests_of : PieceAssembler → List ℕ → List BlockRequest
requests_of a [] = []
requests_of a (m ∷ ms) = (next_requests a m).0 ++ requests_of (next_requests a m).1 ms

blocks_of : PieceAssembler → List ℕ → List ℕ
blocks_of a [] = []
blocks_of a (m ∷ ms) = asked_blocks a m ++ blocks_of (next_requests a m).1 ms

request-next_requests : (a : PieceAssembler) (m : ℕ) → request (next_requests a m).1 ≡ request a
unfolding next_requests
request-next_requests a m = refl

requests_of-blocks :
    (ms : List ℕ) (a : PieceAssembler) → requests_of a ms ≡ map (request a) (blocks_of a ms)
unfolding requests_of blocks_of
requests_of-blocks [] a = refl
requests_of-blocks (m ∷ ms) a =
    rw
      (
        next_requests-blocks a m,
        requests_of-blocks ms (next_requests a m).1,
        request-next_requests a m,
      )
      (sym (map-append (request a) (asked_blocks a m) _))

-- What is asked for was refused, or lies from the cursor on.
asked_blocks-All :
    (P : ℕ → Type 0) (a : PieceAssembler) (m : ℕ)
    → All P a.refused
    → ((b : ℕ) → a.next_unrequested_block ≤ b → P b)
    → All P (asked_blocks a m)
unfolding asked_blocks
asked_blocks-All P a m h f =
    All-append P (popped a m a.refused) _ (popped-All P a m a.refused h)
      (swept-All P a _ _ a.next_unrequested_block (λ b lo hi missing. f b lo))

blocks_of-All :
    (P : ℕ → Type 0) (ms : List ℕ) (a : PieceAssembler)
    → All P a.refused
    → ((b : ℕ) → a.next_unrequested_block ≤ b → P b)
    → All P (blocks_of a ms)
unfolding blocks_of next_requests
blocks_of-All P [] a h f = tt
blocks_of-All P (m ∷ ms) a h f = All-append P (asked_blocks a m) _ (asked_blocks-All P a m h f) (
    blocks_of-All P ms (next_requests a m).1 (ask_refused-All P a m a.refused h) (λ b lo. f b (
      omega (
        arith,
        ask_fresh_cursor a (m - length (ask_refused a m a.refused).0)
            (num_blocks a - a.next_unrequested_block) a.next_unrequested_block,
      ))))

-- `x` is not in a list of others.
absent : (x : ℕ) (ys : List ℕ) → All (λ b. (b == x) ≡ false) ys → contains ys x ≡ false
absent x [] h = refl
absent x (y ∷ ys) h = rw (h.0, absent x ys h.1)

others : (x : ℕ) (ys : List ℕ) → contains ys x ≡ false → All (λ b. (b == x) ≡ false) ys
others x [] h = tt
others x (y ∷ ys) h = (ground arith, others x ys (ground arith))

-- The blocks popped and what stays in `refused` share nothing.
popped-Distinct :
    (a : PieceAssembler) (room : ℕ) (bs : List ℕ)
    → Distinct bs
    → Distinct (popped a room bs) × Disjoint (popped a room bs) (ask_refused a room bs).1
unfolding popped ask_refused
popped-Distinct a room [] h = (tt, tt)
popped-Distinct a zero (b ∷ rest) h = (tt, tt)
popped-Distinct a (suc room) (b ∷ rest) h = elim (Bool-cases (has_arrived a b)) [
  | inl arrived ↦ rw arrived (popped-Distinct a (suc room) rest h.1)
  | inr missing ↦
      let apart = others b rest h.0 in
      let later = popped-Distinct a room rest h.1 in
      rw missing (
        (absent b _ (popped-All _ a room rest apart), later.0),
        (absent b _ (ask_refused-All _ a room rest apart), later.1),
      )
]

swept-Distinct : (a : PieceAssembler) (room left next : ℕ) → Distinct (swept a room left next)
unfolding swept
swept-Distinct a room zero next = tt
swept-Distinct a zero (suc left) next = tt
swept-Distinct a (suc room) (suc left) next = elim (Bool-cases (has_arrived a next)) [
  | inl arrived ↦ rw arrived (swept-Distinct a (suc room) left (next + 1))
  | inr missing ↦ rw missing (
    absent next _ (
        swept-All _ a room left (next + 1)
          (λ b lo hi m. ne→==_false b next (λ e. absurd (omega arith)))),
    swept-Distinct a room left (next + 1),
  )
]

Disjoint-All : (xs ys : List ℕ) → All (λ x. contains ys x ≡ false) xs → Disjoint xs ys
Disjoint-All [] ys h = tt
Disjoint-All (x ∷ xs) ys h = (h.0, Disjoint-All xs ys h.1)

All-Disjoint : (xs ys : List ℕ) → Disjoint xs ys → All (λ x. contains ys x ≡ false) xs
All-Disjoint [] ys h = tt
All-Disjoint (x ∷ xs) ys h = (h.0, All-Disjoint xs ys h.1)

asked_blocks-Distinct : (a : PieceAssembler) (m : ℕ) → Inv a → Distinct (asked_blocks a m)
unfolding asked_blocks
asked_blocks-Distinct a m v =
    let next : ℕ = a.next_unrequested_block in
    let ahead : List ℕ = swept a (m - length (popped a m a.refused)) (num_blocks a - next) next in
    Distinct-append (popped a m a.refused) ahead (popped-Distinct a m a.refused v.once).0
      (swept-Distinct a _ _ next)
      (below-Disjoint next (popped a m a.refused) ahead (popped-All _ a m a.refused v.asked)
        (swept-All _ a _ _ next (λ b lo hi missing. lo)))

-- A block below the new cursor that is no longer in `refused` is not asked for again.
later-absent :
    (a : PieceAssembler) (ms : List ℕ) (x : ℕ)
    → contains a.refused x ≡ false
    → x < a.next_unrequested_block
    → contains (blocks_of a ms) x ≡ false
later-absent a ms x h lt = absent x (blocks_of a ms) (
    blocks_of-All _ ms a (others x a.refused h)
      (λ b lo. ne→==_false b x (λ e. absurd (omega arith))))

asked-apart :
    (a : PieceAssembler) (m : ℕ) (ms : List ℕ)
    → Inv a
    → Disjoint (asked_blocks a m) (blocks_of (next_requests a m).1 ms)
unfolding asked_blocks next_requests
asked-apart a m ms v =
    let next : ℕ = a.next_unrequested_block in
    let again : List ℕ = popped a m a.refused in
    let left : List ℕ = (ask_refused a m a.refused).1 in
    let room : ℕ = m - length (ask_refused a m a.refused).0 in
    let same : room ≡ m - length again =
      ap (λ (n : ℕ). m - n)
        (ap length (ask_refused-popped a m a.refused) ∙ length-map (request a) again) in
    let moved = ask_fresh_cursor a room (num_blocks a - next) next in
    Disjoint-All (asked_blocks a m) (blocks_of (next_requests a m).1 ms) (
      All-append _ again _
        (All-weaken _ _ again (λ x p. later-absent (next_requests a m).1 ms x p.1 (omega arith))
          (All-both _ _ again (popped-All _ a m a.refused v.asked)
            (All-Disjoint again left (popped-Distinct a m a.refused v.once).1)))
        (rw (← same) (
          swept-All _ a room (num_blocks a - next) next (λ x lo hi missing.
            later-absent (next_requests a m).1 ms x
              (absent x left (
                All-weaken _ _ left (λ b lt. ne→==_false b x (λ e. absurd (omega arith)))
                  (ask_refused-All _ a m a.refused v.asked)))
              hi))))

blocks_of-Distinct : (ms : List ℕ) (a : PieceAssembler) → Inv a → Distinct (blocks_of a ms)
unfolding blocks_of
blocks_of-Distinct [] a v = tt
blocks_of-Distinct (m ∷ ms) a v =
    Distinct-append (asked_blocks a m) (blocks_of (next_requests a m).1 ms)
      (asked_blocks-Distinct a m v)
      (blocks_of-Distinct ms (next_requests a m).1 (next_requests-Inv a m v)) (asked-apart a m ms v)

blocks_of-in_range :
    (ms : List ℕ) (a : PieceAssembler) → Inv a → All (λ b. b < length a.received) (blocks_of a ms)
unfolding blocks_of next_requests
blocks_of-in_range [] a v = tt
blocks_of-in_range (m ∷ ms) a v =
    All-append _ (asked_blocks a m) _
      (All-weaken _ _ (asked_blocks a m) (λ b p. p.0) (asked_blocks-missing a m v))
      (blocks_of-in_range ms (next_requests a m).1 (next_requests-Inv a m v))

-- Blocks that differ begin at offsets that differ.
begins-absent :
    (a : PieceAssembler) (x : ℕ) (bs : List ℕ)
    → Inv a
    → x < length a.received
    → All (λ b. b < length a.received) bs
    → contains bs x ≡ false
    → contains (map (λ r. r.1) (map (request a) bs)) (request a x).1 ≡ false
begins-absent a x [] v lt h k = refl
begins-absent a x (b ∷ bs) v lt h k =
    let begin = ap (λ (r : BlockRequest). r.1) (request_lem a x v lt) in
    let other = ap (λ (r : BlockRequest). r.1) (request_lem a b v h.0) in
    let (differ, rest) = or-eq_false (b == x) k in
    rw (ne→==_false (request a b).1 (request a x).1 (λ e. absurd (ground (arith, begin, other))))
      (begins-absent a x bs v lt h.1 rest)

begins-Distinct :
    (a : PieceAssembler) (bs : List ℕ)
    → Inv a
    → All (λ b. b < length a.received) bs
    → Distinct bs
    → Distinct (map (λ r. r.1) (map (request a) bs))
begins-Distinct a [] v h d = tt
begins-Distinct a (b ∷ bs) v h d =
    (begins-absent a b bs v h.0 h.1 d.0, begins-Distinct a bs v h.1 d.1)

-- However often `next_requests` is called on a well-formed assembler, with whatever limits, no two of
-- the requests handed out begin at the same offset.
pub requests_of-Distinct :
    (a : PieceAssembler) (limits : List ℕ)
    → Inv a
    → Distinct (map (λ r. r.1) (requests_of a limits))
requests_of-Distinct a ms v =
    rw (requests_of-blocks ms a)
      (begins-Distinct a (blocks_of a ms) v (blocks_of-in_range ms a v) (blocks_of-Distinct ms a v))
