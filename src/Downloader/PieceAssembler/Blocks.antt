-- ===== src/Downloader/PieceAssembler/Blocks.antt =====
-- src/downloader/piece_assembler.rs: what `record_block` accepts, and when it panics.
use bittorrent_rs.Prelude.{
  ℕ, ◌+◌, ◌-◌, ◌*◌, ◌/◌, ◌%◌, ◌≤◌, ◌<◌, min, ◌≡◌, refl, ◌∙◌, ◌↔◌, inl, inr, Bool, true, false, not,
  ◌||◌, arith, ltb, leb, ◌==◌, Bool-cases, length, set, get_or, get_or-set_self, get_or-append_lt,
  get_or-take, length-take, take, Bytes, u32_mod, if◌then◌else◌, leb→le, ge→ltb_false, gt→leb_false,
  le→leb, eq→==, ltb_false→le,
}
use bittorrent_rs.Downloader.PieceAssembler.{
  PieceAssembler, Result, AssemblerError, ok, err, panicked, block_size, block_len, has_arrived,
  is_complete, store_block, record_block, write_at,
}
use bittorrent_rs.Downloader.PieceAssembler.Invariant.{Inv}

refuse-panicked {ℓ} :
    {A : Type ℓ} (c : Bool) (e : AssemblerError) {r : Result A}
    → (if c then err e else r) ≡ panicked
    → (c ≡ false) × (r ≡ panicked)
refuse-panicked true e h = cc
refuse-panicked false e h = (refl, h)

-- The length of block `b` of a well-formed assembler: what is left of the piece, or a whole block.
pub block_len_lem :
    (a : PieceAssembler) (b : ℕ)
    → Inv a
    → b * block_size ≤ a.work.length
    → block_len a b ≡ min (a.work.length - b * block_size) block_size
block_len_lem a b v h =
    let begin : b * block_size % u32_mod ≡ b * block_size = omega (arith, v.in_u32) in
    let rest : (a.work.length + u32_mod - b * block_size) % u32_mod
        ≡ a.work.length - b * block_size =
      omega (arith, v.in_u32) in
    rw (begin, rest)

-- The slices that `record_block` copies between have one length and are in range.
slices_lem :
    (a : PieceAssembler) (begin : ℕ) (bytes : Bytes)
    → Inv a
    → length bytes < u32_mod
    → begin + length bytes ≤ a.work.length
    → (not (length bytes == length bytes % u32_mod) || ltb (length a.buf) (begin + length bytes))
      ≡ false
slices_lem a begin bytes v small inside = rw (
  eq→== (length bytes) (length bytes % u32_mod) (omega arith),
  ge→ltb_false (length a.buf) (begin + length bytes) (omega (arith, v.room)),
)

store_block-panicked :
    (a : PieceAssembler) (begin : ℕ) (bytes : Bytes)
    → Inv a
    → length bytes < u32_mod
    → begin + length bytes ≤ a.work.length
    → store_block a begin bytes ≡ panicked
    → (begin ≡ a.work.length) × (length bytes ≡ 0) × (a.work.length % block_size ≡ 0)
unfolding store_block
store_block-panicked a begin bytes v small inside h =
    elim (Bool-cases (leb (length a.received) (begin / block_size))) [
      | inl out ↦ omega (arith, v.flags, leb→le _ _ out)
      | inr within ↦ absurd (never (rw (slices_lem a begin bytes v small inside, within) at h))
    ]
  where
    never : {x : PieceAssembler} → ok x ≡ panicked → ⊥
    never e = cc

only_at_end :
    (a : PieceAssembler) (begin : ℕ) (bytes : Bytes)
    → Inv a
    → length bytes < u32_mod
    → record_block a begin bytes ≡ panicked
    → (is_complete a ≡ false)
      × (begin ≡ a.work.length)
      × (length bytes ≡ 0)
      × (a.work.length % block_size ≡ 0)
unfolding record_block
only_at_end a begin bytes v small h =
    let (open', h₁) = refuse-panicked _ _ h in
    let (_, h₂) = refuse-panicked _ _ h₁ in
    let (inside, h₃) = refuse-panicked _ _ h₂ in
    let (_, h₄) = refuse-panicked _ _ h₃ in
    let inside' = ltb_false→le a.work.length (begin + length bytes % u32_mod) inside in
    let (at_end, empty, whole) = store_block-panicked a begin bytes v small (omega arith) h₄ in
    (open', at_end, empty, whole)

at_end_panics :
    (a : PieceAssembler) (begin : ℕ) (bytes : Bytes)
    → Inv a
    → is_complete a ≡ false
    → begin ≡ a.work.length
    → length bytes ≡ 0
    → a.work.length % block_size ≡ 0
    → record_block a begin bytes ≡ panicked
unfolding record_block store_block
at_end_panics a begin bytes v open' at_end empty whole =
    let expected = block_len_lem a (begin / block_size) v (omega arith) in
    let none_left : min (a.work.length - begin / block_size * block_size) block_size ≡ 0 =
      omega arith in
    rw (
      open',
      slices_lem a begin bytes v (omega arith) (omega arith),
      empty,
      gt→leb_false u32_mod (begin + 0) (omega (arith, v.in_u32)),
      ge→ltb_false a.work.length (begin + 0) (omega arith),
      expected,
      none_left,
      le→leb (length a.received) (begin / block_size) (omega (arith, v.flags)),
    )

-- On a well-formed assembler and fewer than 2 ^ 32 bytes, `record_block` panics exactly when an
-- incomplete piece whose length is a multiple of the block size is sent an empty block at its very end.
pub record_block-panicked_iff :
    (a : PieceAssembler) (begin : ℕ) (bytes : Bytes)
    → Inv a
    → length bytes < u32_mod
    → (record_block a begin bytes ≡ panicked) ↔ (
        (is_complete a ≡ false)
        × (begin ≡ a.work.length)
        × (length bytes ≡ 0)
        × (a.work.length % block_size ≡ 0))
record_block-panicked_iff a begin bytes v small = (
  only_at_end a begin bytes v small,
  λ (c, at_end, empty, whole). at_end_panics a begin bytes v c at_end empty whole,
)

-- A block of a well-formed and incomplete assembler, whole and at its place, is recorded.
pub record_block-ok :
    (a : PieceAssembler) (b : ℕ) (bytes : Bytes)
    → Inv a
    → is_complete a ≡ false
    → b < length a.received
    → length bytes ≡ min (a.work.length - b * block_size) block_size
    → record_block a (b * block_size) bytes
      ≡ ok (record a {
        buf = write_at a.buf (b * block_size) bytes;
        received = set a.received b true;
      })
unfolding record_block store_block
record_block-ok a b bytes v open' lt len =
    let small : length bytes % u32_mod ≡ length bytes = omega arith in
    let idx : b * block_size / block_size ≡ b = omega arith in
    let start : b * block_size < a.work.length = omega (arith, v.flags) in
    let expected = block_len_lem a b v (omega arith) in
    rw (
      open',
      slices_lem a (b * block_size) bytes v (omega arith) (omega arith),
      small,
      gt→leb_false u32_mod (b * block_size + length bytes) (omega (arith, v.in_u32)),
      ge→ltb_false a.work.length (b * block_size + length bytes) (omega arith),
      idx,
      expected,
      eq→== (length bytes) (min (a.work.length - b * block_size) block_size) len,
      gt→leb_false (length a.received) b lt,
    )

-- A block that starts `k` bytes into block `b` is recorded too, though not at a block's place, if the
-- piece has room for it: block `b` then counts as received, and its first `k` bytes are as before.
pub record_block_unaligned :
    (a : PieceAssembler) (b k : ℕ) (bytes : Bytes)
    → Inv a
    → is_complete a ≡ false
    → 0 < k
    → k < block_size
    → length bytes ≡ block_size
    → b * block_size + k + block_size ≤ a.work.length
    → (c : PieceAssembler) × (record_block a (b * block_size + k) bytes ≡ ok c)
      × (has_arrived c b ≡ true)
      × ((i : ℕ) → i < b * block_size + k → get_or c.buf i 0 ≡ get_or a.buf i 0)
unfolding record_block store_block
record_block_unaligned a b k bytes v open' pos lt len room =
    let begin : ℕ = b * block_size + k in
    let small : length bytes % u32_mod ≡ length bytes = omega arith in
    let idx : begin / block_size ≡ b = omega arith in
    let expected = block_len_lem a b v (omega arith) in
    let whole : min (a.work.length - b * block_size) block_size ≡ length bytes = omega arith in
    (
      record a { buf = write_at a.buf begin bytes; received = set a.received b true },
      rw (
        open',
        slices_lem a begin bytes v (omega arith) (omega arith),
        small,
        gt→leb_false u32_mod (begin + length bytes) (omega (arith, v.in_u32)),
        ge→ltb_false a.work.length (begin + length bytes) (omega arith),
        idx,
        expected,
        whole,
        eq→== (length bytes) (length bytes) refl,
        gt→leb_false (length a.received) b (omega (arith, v.flags)),
      ),
      get_or-set_self a.received b true false (omega (arith, v.flags)),
      λ i before.
          get_or-append_lt (take begin a.buf) _ i 0 (omega (arith, length-take begin a.buf, v.room))
          ∙ get_or-take begin a.buf i 0 before,
    )
