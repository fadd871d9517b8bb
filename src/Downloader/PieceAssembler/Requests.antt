-- ===== src/Downloader/PieceAssembler/Requests.antt =====
-- src/downloader/piece_assembler.rs: what `next_requests` hands out.
use mathlib.Core.List.{map-append}
use bittorrent_rs.Prelude.{
  ℕ, zero, suc, ◌+◌, ◌-◌, ◌*◌, ◌/◌, ◌%◌, ◌≤◌, ◌<◌, ◌≡◌, refl, sym, ap, ◌⊎◌, inl, inr, false, List,
  [], ◌∷◌, ◌++◌, map, arith, Bool-cases, length, length-append, All, All-append, All-weaken,
  u32_mod, min, length-map, if◌then◌else◌,
}
use bittorrent_rs.Downloader.PieceAssembler.{
  PieceAssembler, BlockRequest, block_size, num_blocks, request, has_arrived, ask_refused,
  ask_fresh, next_requests,
}
use bittorrent_rs.Downloader.PieceAssembler.Invariant.{Inv, num_blocks_lem, ask_fresh_cursor}

-- The blocks that the first loop asks for.
unfoldable pub popped : PieceAssembler → ℕ → List ℕ → List ℕ
popped a room [] = []
popped a zero (b ∷ rest) = []
popped a (suc room) (b ∷ rest) =
    if has_arrived a b then popped a (suc room) rest else b ∷ popped a room rest

-- The blocks that the second loop asks for.
unfoldable pub swept : PieceAssembler → ℕ → ℕ → ℕ → List ℕ
swept a room zero next = []
swept a zero (suc left) next = []
swept a (suc room) (suc left) next =
    if has_arrived a next
    then swept a (suc room) left (next + 1)
    else next ∷ swept a room left (next + 1)

pub ask_refused-popped :
    (a : PieceAssembler) (room : ℕ) (bs : List ℕ)
    → (ask_refused a room bs).0 ≡ map (request a) (popped a room bs)
unfolding ask_refused popped
ask_refused-popped a room [] = refl
ask_refused-popped a zero (b ∷ rest) = refl
ask_refused-popped a (suc room) (b ∷ rest) = elim (Bool-cases (has_arrived a b)) [
  | inl arrived ↦ rw arrived (ask_refused-popped a (suc room) rest)
  | inr missing ↦ rw missing (ap (◌∷◌ (request a b)) (ask_refused-popped a room rest))
]

ask_fresh-swept :
    (a : PieceAssembler) (room left next : ℕ)
    → (ask_fresh a room left next).0 ≡ map (request a) (swept a room left next)
unfolding ask_fresh swept
ask_fresh-swept a room zero next = refl
ask_fresh-swept a zero (suc left) next = refl
ask_fresh-swept a (suc room) (suc left) next = elim (Bool-cases (has_arrived a next)) [
  | inl arrived ↦ rw arrived (ask_fresh-swept a (suc room) left (next + 1))
  | inr missing ↦ rw missing (ap (◌∷◌ (request a next)) (ask_fresh-swept a room left (next + 1)))
]

pub popped-All :
    (P : ℕ → Type 0) (a : PieceAssembler) (room : ℕ) (bs : List ℕ)
    → All P bs
    → All P (popped a room bs)
unfolding popped
popped-All P a room [] h = tt
popped-All P a zero (b ∷ rest) h = tt
popped-All P a (suc room) (b ∷ rest) h = elim (Bool-cases (has_arrived a b)) [
  | inl arrived ↦ rw arrived (popped-All P a (suc room) rest h.1)
  | inr missing ↦ rw missing (h.0, popped-All P a room rest h.1)
]

-- Only blocks that have not arrived.
popped-missing :
    (a : PieceAssembler) (room : ℕ) (bs : List ℕ)
    → All (λ b. has_arrived a b ≡ false) (popped a room bs)
unfolding popped
popped-missing a room [] = tt
popped-missing a zero (b ∷ rest) = tt
popped-missing a (suc room) (b ∷ rest) = elim (Bool-cases (has_arrived a b)) [
  | inl arrived ↦ rw arrived (popped-missing a (suc room) rest)
  | inr missing ↦ rw missing (missing, popped-missing a room rest)
]

length-popped : (a : PieceAssembler) (room : ℕ) (bs : List ℕ) → length (popped a room bs) ≤ room
unfolding popped
length-popped a room [] = omega arith
length-popped a zero (b ∷ rest) = omega arith
length-popped a (suc room) (b ∷ rest) =
    ground (arith, length-popped a (suc room) rest, length-popped a room rest)

-- What the second loop asks for lies between the old cursor and the new one, has not arrived, and
-- grows.
pub swept-All :
    (P : ℕ → Type 0) (a : PieceAssembler) (room left next : ℕ)
    → ((b : ℕ) → next ≤ b → b < (ask_fresh a room left next).1 → has_arrived a b ≡ false → P b)
    → All P (swept a room left next)
unfolding ask_fresh swept
swept-All P a room zero next f = tt
swept-All P a zero (suc left) next f = tt
swept-All P a (suc room) (suc left) next f = elim (Bool-cases (has_arrived a next)) [
  | inl arrived ↦
      rw arrived (
        swept-All P a (suc room) left (next + 1) (λ b lo hi m. f b (omega arith) (rw arrived hi) m))
  | inr missing ↦ rw missing (
    f next (omega arith) (rw missing (omega (arith, ask_fresh_cursor a room left (next + 1))))
        missing,
    swept-All P a room left (next + 1) (λ b lo hi m. f b (omega arith) (rw missing hi) m),
  )
]

length-swept : (a : PieceAssembler) (room left next : ℕ) → length (swept a room left next) ≤ room
unfolding swept
length-swept a room zero next = omega arith
length-swept a zero (suc left) next = omega arith
length-swept a (suc room) (suc left) next =
    ground (arith, length-swept a (suc room) left (next + 1), length-swept a room left (next + 1))

-- A request for a whole block of the piece that has not arrived.
pub record WantsBlock (a : PieceAssembler) (r : BlockRequest) : Type 0 where
  pub of_piece : r.0 ≡ a.work.index
  pub aligned : r.1 % block_size ≡ 0
  pub nonempty : 0 < r.2
  pub in_piece : r.1 + r.2 ≤ a.work.length
  pub whole : (r.2 ≡ block_size) ⊎ (r.1 + r.2 ≡ a.work.length)
  pub missing : has_arrived a (r.1 / block_size) ≡ false

-- The request for a block of the piece, with nothing wrapped.
pub request_lem :
    (a : PieceAssembler) (b : ℕ)
    → Inv a
    → b < length a.received
    → request a b ≡ (a.work.index, b * block_size, min (a.work.length - b * block_size) block_size)
request_lem a b v h =
    let small : b * block_size < a.work.length = omega (arith, v.flags) in
    let begin : b * block_size % u32_mod ≡ b * block_size = omega (arith, v.in_u32) in
    let rest : (a.work.length + u32_mod - b * block_size) % u32_mod
        ≡ a.work.length - b * block_size =
      omega (arith, v.in_u32) in
    rw (begin, rest)

request-WantsBlock :
    (a : PieceAssembler) (b : ℕ)
    → Inv a
    → b < length a.received
    → has_arrived a b ≡ false
    → WantsBlock a (request a b)
request-WantsBlock a b v h m =
    let small : b * block_size < a.work.length = omega (arith, v.flags) in
    let block : b * block_size / block_size ≡ b = omega arith in
    rw (request_lem a b v h) (record {
      of_piece = refl;
      aligned = omega arith;
      nonempty = omega arith;
      in_piece = omega arith;
      whole = omega arith;
      missing = rw block m;
    })

map-WantsBlock :
    (a : PieceAssembler) (bs : List ℕ)
    → Inv a
    → All (λ b. (b < length a.received) × (has_arrived a b ≡ false)) bs
    → All (WantsBlock a) (map (request a) bs)
map-WantsBlock a [] v h = tt
map-WantsBlock a (b ∷ bs) v h = (request-WantsBlock a b v h.0.0 h.0.1, map-WantsBlock a bs v h.1)

-- The blocks that a call of `next_requests` asks for.
unfoldable pub asked_blocks : PieceAssembler → ℕ → List ℕ
asked_blocks a m =
    let again = popped a m a.refused in
    let next = a.next_unrequested_block in
    again ++ swept a (m - length again) (num_blocks a - next) next

pub next_requests-blocks :
    (a : PieceAssembler) (m : ℕ) → (next_requests a m).0 ≡ map (request a) (asked_blocks a m)
unfolding next_requests asked_blocks
next_requests-blocks a m =
    rw
      (ask_refused-popped a m a.refused, ask_fresh-swept a _ _ a.next_unrequested_block, length-map)
      (sym (map-append _ (popped a m a.refused) _))

pub All-both : (P Q : ℕ → Type 0) (xs : List ℕ) → All P xs → All Q xs → All (λ b. P b × Q b) xs
All-both P Q [] h k = tt
All-both P Q (x ∷ xs) h k = ((h.0, k.0), All-both P Q xs h.1 k.1)

pub asked_blocks-missing :
    (a : PieceAssembler) (m : ℕ)
    → Inv a
    → All (λ b. (b < length a.received) × (has_arrived a b ≡ false)) (asked_blocks a m)
unfolding asked_blocks
asked_blocks-missing a m v =
    let next : ℕ = a.next_unrequested_block in
    let room : ℕ = m - length (popped a m a.refused) in
    let blocks = num_blocks_lem a v in
    All-append _ (popped a m a.refused) _
      (All-both _ _ (popped a m a.refused)
        (All-weaken _ _ _ (λ b lt. omega (arith, v.cursor)) (popped-All _ a m a.refused v.asked))
        (popped-missing a m a.refused))
      (swept-All _ a room (num_blocks a - next) next (λ b lo hi missing.
        (omega (arith, ask_fresh_cursor a room (num_blocks a - next) next, v.cursor), missing)))

length-asked_blocks : (a : PieceAssembler) (m : ℕ) → length (asked_blocks a m) ≤ m
unfolding asked_blocks
length-asked_blocks a m =
    let next : ℕ = a.next_unrequested_block in
    let room : ℕ = m - length (popped a m a.refused) in
    omega (
      arith,
      length-append (popped a m a.refused) (swept a room (num_blocks a - next) next),
      length-popped a m a.refused,
      length-swept a room (num_blocks a - next) next,
    )

-- On a well-formed assembler every request that a call of `next_requests` hands out is for a whole
-- block of the piece, inside it, that has not arrived; and there are at most as many as were asked for.
pub next_requests-WantsBlock :
    (a : PieceAssembler) (max_new : ℕ)
    → Inv a
    → All (WantsBlock a) (next_requests a max_new).0
      × (length (next_requests a max_new).0 ≤ max_new)
next_requests-WantsBlock a m v =
    rw (next_requests-blocks a m, length-map (request a) (asked_blocks a m))
      (map-WantsBlock a _ v (asked_blocks-missing a m v), length-asked_blocks a m)
