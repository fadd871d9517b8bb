-- ===== src/Downloader/PieceAssembler/Assembly.antt =====
-- src/downloader/piece_assembler.rs: from the blocks of a piece, in any order, to the piece.
use native.Mathlib.Decide.{dec_lt}
use bittorrent_rs.Prelude.{
  ℕ, ◌+◌, ◌-◌, ◌*◌, ◌/◌, ◌≤◌, ◌<◌, min, ◌≡◌, sym, ◌∙◌, true, false, List, [], ◌∷◌, arith, length,
  length-take, length-drop, set, get_or, take, drop, get_or-append_lt, get_or-append_ge,
  get_or-take, get_or-drop, get_or-set_ne, Bytes,
}
use bittorrent_rs.Downloader.PieceAssembler.{
  PieceAssembler, Result, ok, err, panicked, block_size, has_arrived, record_block, write_at,
}
use bittorrent_rs.Downloader.PieceAssembler.Invariant.{Inv}

module _ (buf : Bytes) (begin : ℕ) (bytes : Bytes) (fits : begin + length bytes ≤ length buf) where
  pub get_or-write_at_before :
      (i : ℕ) → i < begin → get_or (write_at buf begin bytes) i 0 ≡ get_or buf i 0
  get_or-write_at_before i h =
      get_or-append_lt (take begin buf) _ i 0 (omega (arith, length-take begin buf))
      ∙ get_or-take begin buf i 0 h

  pub get_or-write_at_inside :
      (i : ℕ)
      → begin ≤ i
      → i < begin + length bytes
      → get_or (write_at buf begin bytes) i 0 ≡ get_or bytes (i - begin) 0
  get_or-write_at_inside i h k =
      let size : length (take begin buf) ≡ begin = omega (arith, length-take begin buf) in
      get_or-append_ge (take begin buf) _ i 0 (omega arith)
      ∙ rw size (get_or-append_lt bytes _ (i - begin) 0 (omega arith))

  pub get_or-write_at_after :
      (i : ℕ) → begin + length bytes ≤ i → get_or (write_at buf begin bytes) i 0 ≡ get_or buf i 0
  get_or-write_at_after i h =
      let size : length (take begin buf) ≡ begin = omega (arith, length-take begin buf) in
      let back : begin + length bytes + (i - begin - length bytes) ≡ i = omega arith in
      get_or-append_ge (take begin buf) _ i 0 (omega arith)
      ∙ rw size (
          get_or-append_ge bytes _ (i - begin) 0 (omega arith)
          ∙ get_or-drop (begin + length bytes) buf (i - begin - length bytes) 0
          ∙ rw back)

-- What lies in the blocks that have arrived is what lies there in the whole piece.
abbrev pub Agrees : PieceAssembler → Bytes → Type 0
Agrees a whole =
    (i : ℕ)
    → i < a.work.length
    → has_arrived a (i / block_size) ≡ true
    → get_or a.buf i 0 ≡ get_or whole i 0

-- Block `b` of the whole piece.
abbrev pub block_of : Bytes → ℕ → Bytes
block_of whole b = take block_size (drop (b * block_size) whole)

-- A block that arrives; the caller drops the errors of `record_block`.
abbrev pub after : PieceAssembler → Result PieceAssembler → PieceAssembler
after a (ok b) = b
after a (err e) = a
after a panicked = a

unfoldable pub deliver : PieceAssembler → Bytes → List ℕ → PieceAssembler
deliver a whole [] = a
deliver a whole (b ∷ bs) =
    deliver (after a (record_block a (b * block_size) (block_of whole b))) whole bs

module _ (whole : Bytes) where
  pub length-block_of :
      (b : ℕ) → length (block_of whole b) ≡ min (length whole - b * block_size) block_size
  length-block_of b = omega (
    arith,
    length-take block_size (drop (b * block_size) whole),
    length-drop (b * block_size) whole,
  )

  get_or-block_of :
      (b i : ℕ)
      → b * block_size ≤ i
      → i < b * block_size + block_size
      → get_or (block_of whole b) (i - b * block_size) 0 ≡ get_or whole i 0
  get_or-block_of b i h k =
      let back : b * block_size + (i - b * block_size) ≡ i = omega arith in
      get_or-take block_size (drop (b * block_size) whole) (i - b * block_size) 0 (omega arith)
      ∙ get_or-drop (b * block_size) whole (i - b * block_size) 0
      ∙ rw back

  -- One block of the piece, recorded: what arrived before still agrees, and so does the block.
  pub recorded-Agrees :
      (a : PieceAssembler) (b : ℕ)
      → Inv a
      → length whole ≡ a.work.length
      → b < length a.received
      → Agrees a whole
      → Agrees
          (record a {
            buf = write_at a.buf (b * block_size) (block_of whole b);
            received = set a.received b true;
          })
          whole
  recorded-Agrees a b v size lt agrees i in_piece arrived =
      let len = length-block_of b in
      let fits : b * block_size + length (block_of whole b) ≤ length a.buf =
        omega (arith, v.room, v.flags) in
      elim (dec_lt i (b * block_size)) [
        | yes before ↦
            get_or-write_at_before a.buf (b * block_size) (block_of whole b) fits i before
            ∙ agrees i in_piece (
                sym (
                  get_or-set_ne a.received b (i / block_size) true false
                    (λ e. absurd (omega arith)))
                ∙ arrived)
        | no start ↦ elim (dec_lt i (b * block_size + block_size)) [
          | yes inside ↦
              get_or-write_at_inside a.buf (b * block_size) (block_of whole b) fits i (omega arith)
                (omega arith)
              ∙ get_or-block_of b i (omega arith) inside
          | no beyond ↦
              get_or-write_at_after a.buf (b * block_size) (block_of whole b) fits i (omega arith)
              ∙ agrees i in_piece (
                  sym (
                    get_or-set_ne a.received b (i / block_size) true false
                      (λ e. absurd (omega arith)))
                  ∙ arrived)
        ]
      ]
