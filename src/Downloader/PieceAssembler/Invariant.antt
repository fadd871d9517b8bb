-- ===== src/Downloader/PieceAssembler/Invariant.antt =====
-- src/downloader/piece_assembler.rs: what holds of every assembler that the program can build.
use bittorrent_rs.Prelude.{
  ℕ, zero, suc, ◌+◌, ◌-◌, ◌/◌, ◌≤◌, ◌<◌, ◌≡◌, ◌∙◌, inl, inr, Bool, true, false, not, ◌&&◌, List, [],
  ◌∷◌, arith, ltb, ◌==◌, Bool-cases, length, length-append, length-replicate, length-set,
  length-take, length-drop, set, take, drop, All, All-weaken, Distinct, and-eq_true, not-eq_true,
  not-eq_false, or-eq_false, ==→eq, ltb_false→le, leb_false→lt, ltb→lt, ◌%◌, ◌++◌, mul_u32,
  contains, Bytes, u32_mod, div_ceil,
}
use bittorrent_rs.Downloader.PieceAssembler.{
  PieceAssembler, PieceWork, PartialPiece, refuse-ok, panic-ok, ok, block_size, block_len,
  num_blocks, has_arrived, new, resume, ask_refused, ask_fresh, next_requests, forget_requests,
  refuse_request, record_block, store_block, is_complete, write_at,
}

pub length-write_at :
    (buf : Bytes) (begin : ℕ) (bytes : Bytes)
    → begin + length bytes ≤ length buf
    → length (write_at buf begin bytes) ≡ length buf
length-write_at buf begin bytes h = omega (
  arith,
  length-append (take begin buf) (bytes ++ drop (begin + length bytes) buf),
  length-append bytes (drop (begin + length bytes) buf),
  length-take begin buf,
  length-drop (begin + length bytes) buf,
)

-- The buffers fit the piece, the cursor is within it, and the blocks refused were asked for and are
-- listed once.
pub record Inv (a : PieceAssembler) : Type 0 where
  pub in_u32 : a.work.length < u32_mod
  pub flags : length a.received ≡ div_ceil a.work.length block_size
  pub room : length a.buf ≡ a.work.length
  pub cursor : a.next_unrequested_block ≤ length a.received
  pub asked : All (λ b. b < a.next_unrequested_block) a.refused
  pub once : Distinct a.refused

pub new-Inv : (work : PieceWork) → work.length < u32_mod → Inv (new work)
unfolding new
new-Inv work h = record {
  in_u32 = h;
  flags = length-replicate _ false;
  room = length-replicate _ 0;
  cursor = omega arith;
  asked = tt;
  once = tt;
}

pub resume-Inv :
    (work : PieceWork) (partial : PartialPiece) → work.length < u32_mod → Inv (resume work partial)
unfolding resume
resume-Inv work partial h = ground (
  arith,
  length-replicate {0} {A = ℕ} work.length 0,
  length-replicate (div_ceil work.length block_size) false,
)

pub ask_refused-All :
    (P : ℕ → Type 0) (a : PieceAssembler) (room : ℕ) (bs : List ℕ)
    → All P bs
    → All P (ask_refused a room bs).1
unfolding ask_refused
ask_refused-All P a room [] h = tt
ask_refused-All P a zero (b ∷ rest) h = h
ask_refused-All P a (suc room) (b ∷ rest) h = elim (Bool-cases (has_arrived a b)) [
  | inl arrived ↦ rw arrived (ask_refused-All P a (suc room) rest h.1)
  | inr missing ↦ rw missing (ask_refused-All P a room rest h.1)
]

pub ask_refused-Distinct :
    (a : PieceAssembler) (room : ℕ) (bs : List ℕ) → Distinct bs → Distinct (ask_refused a room bs).1
unfolding ask_refused
ask_refused-Distinct a room [] h = tt
ask_refused-Distinct a zero (b ∷ rest) h = h
ask_refused-Distinct a (suc room) (b ∷ rest) h = elim (Bool-cases (has_arrived a b)) [
  | inl arrived ↦ rw arrived (ask_refused-Distinct a (suc room) rest h.1)
  | inr missing ↦ rw missing (ask_refused-Distinct a room rest h.1)
]

pub ask_fresh_cursor :
    (a : PieceAssembler) (room left next : ℕ)
    → (next ≤ (ask_fresh a room left next).1) × ((ask_fresh a room left next).1 ≤ next + left)
unfolding ask_fresh
ask_fresh_cursor a room zero next = omega arith
ask_fresh_cursor a zero (suc left) next = omega arith
ask_fresh_cursor a (suc room) (suc left) next =
    ground (
      arith,
      ask_fresh_cursor a (suc room) left (next + 1),
      ask_fresh_cursor a room left (next + 1),
    )

pub num_blocks_lem : (a : PieceAssembler) → Inv a → num_blocks a ≡ length a.received
num_blocks_lem a v = omega arith

pub next_requests-Inv : (a : PieceAssembler) (m : ℕ) → Inv a → Inv (next_requests a m).1
unfolding next_requests
next_requests-Inv a m v =
    let next : ℕ = a.next_unrequested_block in
    let room : ℕ = m - length (ask_refused a m a.refused).0 in
    let moved = ask_fresh_cursor a room (num_blocks a - next) next in
    let blocks = num_blocks_lem a v in
    record {
      in_u32 = v.in_u32;
      flags = v.flags;
      room = v.room;
      cursor = omega (arith, v.cursor);
      asked = All-weaken _ _ _ (λ b lt. omega arith) (ask_refused-All _ a m a.refused v.asked);
      once = ask_refused-Distinct a m a.refused v.once;
    }

pub forget_requests-Inv : (a : PieceAssembler) → Inv a → Inv (forget_requests a)
unfolding forget_requests
forget_requests-Inv a v = ground arith

pub refuse_request-Inv : (a : PieceAssembler) (begin : ℕ) → Inv a → Inv (refuse_request a begin)
unfolding refuse_request
refuse_request-Inv a begin v = elim (Bool-cases asked) [
  | inl e ↦
      let in_range = ltb (begin / block_size) a.next_unrequested_block in
      let aligned = mul_u32 (begin / block_size) block_size == begin in
      let missing = not (has_arrived a (begin / block_size)) in
      let (first, fresh) = and-eq_true (in_range && aligned && missing) e in
      let (lt, _) = and-eq_true in_range (and-eq_true (in_range && aligned) first).0 in
      rw e (record {
        in_u32 = v.in_u32;
        flags = v.flags;
        room = v.room;
        cursor = v.cursor;
        asked = (ltb→lt (begin / block_size) a.next_unrequested_block lt, v.asked);
        once = (not-eq_true (contains a.refused (begin / block_size)) fresh, v.once);
      })
  | inr e ↦ rw e v
]
  where
    asked : Bool
    asked =
        ltb (begin / block_size) a.next_unrequested_block
        && mul_u32 (begin / block_size) block_size == begin
        && not (has_arrived a (begin / block_size))
        && not (contains a.refused (begin / block_size))

-- What is known of a block that was recorded, and of the assembler after it.
pub record Recorded (a b : PieceAssembler) (begin : ℕ) (bytes : Bytes) : Type 0 where
  pub incomplete : is_complete a ≡ false
  pub in_piece : begin + length bytes ≤ a.work.length
  pub in_u32 : begin + length bytes < u32_mod
  pub whole_block : length bytes ≡ block_len a (begin / block_size)
  pub in_buf : begin + length bytes ≤ length a.buf
  pub in_flags : begin / block_size < length a.received
  pub result : b ≡ record a {
    buf = write_at a.buf begin bytes;
    received = set a.received (begin / block_size) true;
  }

store_block-ok :
    (a b : PieceAssembler) (begin : ℕ) (bytes : Bytes)
    → store_block a begin bytes ≡ ok b
    → (length bytes ≡ length bytes % u32_mod)
      × (begin + length bytes ≤ length a.buf)
      × (begin / block_size < length a.received)
      × (b ≡ record a {
        buf = write_at a.buf begin bytes;
        received = set a.received (begin / block_size) true;
      })
unfolding store_block
store_block-ok a b begin bytes h =
    let (slices, h₁) = panic-ok _ h in
    let (flag, h₂) = panic-ok _ h₁ in
    let (whole, within) = or-eq_false _ slices in
    (==→eq _ _ (not-eq_false _ whole), ltb_false→le _ _ within, leb_false→lt _ _ flag, cc)

pub record_block-Recorded :
    (a b : PieceAssembler) (begin : ℕ) (bytes : Bytes)
    → record_block a begin bytes ≡ ok b
    → Recorded a b begin bytes
unfolding record_block
record_block-Recorded a b begin bytes h =
    let (open', h₁) = refuse-ok _ _ h in
    let (small, h₂) = refuse-ok _ _ h₁ in
    let (inside, h₃) = refuse-ok _ _ h₂ in
    let (sized, h₄) = refuse-ok _ _ h₃ in
    let (whole, in_buf, in_flags, e) = store_block-ok a b begin bytes h₄ in
    let small' = leb_false→lt u32_mod (begin + length bytes % u32_mod) small in
    let inside' = ltb_false→le a.work.length (begin + length bytes % u32_mod) inside in
    record {
      incomplete = open';
      in_piece = omega arith;
      in_u32 = omega arith;
      whole_block = whole ∙ ==→eq _ _ (not-eq_false _ sized);
      in_buf = in_buf;
      in_flags = in_flags;
      result = e;
    }

pub record_block-Inv :
    (a b : PieceAssembler) (begin : ℕ) (bytes : Bytes)
    → Inv a
    → record_block a begin bytes ≡ ok b
    → Inv b
record_block-Inv a b begin bytes v h =
    let r = record_block-Recorded a b begin bytes h in
    rw r.result (record {
      in_u32 = v.in_u32;
      flags = length-set a.received (begin / block_size) true ∙ v.flags;
      room = length-write_at a.buf begin bytes r.in_buf ∙ v.room;
      cursor = omega (arith, v.cursor, length-set a.received (begin / block_size) true);
      asked = v.asked;
      once = v.once;
    })
