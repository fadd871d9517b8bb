-- ===== src/Downloader/PieceAssembler/Delivery.antt =====
-- src/downloader/piece_assembler.rs: when every block has been delivered, `finish` gives the piece.
use native.Mathlib.Decide.{ℕ_discrete}
use mathlib.Core.Bool.{false≢true}
use bittorrent_rs.Prelude.{
  ℕ, zero, suc, ◌*◌, ◌/◌, ◌<◌, ◌≡◌, refl, sym, ap, ◌∙◌, ◌⊎◌, inl, inr, Bool, true, false, List, [],
  ◌∷◌, arith, ◌==◌, Bool-cases, length, set, get_or, get_or-replicate, get_or-set_self,
  get_or-set_ne, eq_of_get_or, All, all_set, contains, Bytes, u32_mod, div_ceil, ==→eq,
}
use bittorrent_rs.Downloader.PieceAssembler.{
  PieceAssembler, PieceWork, ok, err, already_complete, block_size, has_arrived, is_complete,
  record_block, write_at, finish, matches, new,
}
use bittorrent_rs.Downloader.PieceAssembler.Invariant.{Inv, record_block-Inv, new-Inv}
use bittorrent_rs.Downloader.PieceAssembler.Blocks.{record_block-ok}
use bittorrent_rs.Downloader.PieceAssembler.Assembly.{
  Agrees, block_of, after, deliver, recorded-Agrees, length-block_of,
}

all_set-get_or :
    (bs : List Bool) (i : ℕ) → all_set bs ≡ true → i < length bs → get_or bs i false ≡ true
all_set-get_or [] i h lt = absurd (omega arith)
all_set-get_or (b ∷ bs) zero h lt = ground arith
all_set-get_or (b ∷ bs) (suc i) h lt = all_set-get_or bs i (ground arith) (omega arith)

all_set_of :
    (bs : List Bool) → ((i : ℕ) → i < length bs → get_or bs i false ≡ true) → all_set bs ≡ true
all_set_of [] h = refl
all_set_of (b ∷ bs) h = rw (h 0 (omega arith), all_set_of bs (λ i lt. h (suc i) (omega arith)))

-- A well-formed assembler of `work` that agrees with the piece, and has one flag for each block.
record Good (work : PieceWork) (whole : Bytes) (a : PieceAssembler) : Type 0 where
  is_work : a.work ≡ work
  inv : Inv a
  agrees : Agrees a whole

recorded_already :
    (a : PieceAssembler) (begin : ℕ) (bytes : Bytes)
    → is_complete a ≡ true
    → record_block a begin bytes ≡ err already_complete
unfolding record_block
recorded_already a begin bytes h = rw h

module _ (work : PieceWork) (whole : Bytes) (size : length whole ≡ work.length) where
  abbrev step : PieceAssembler → ℕ → PieceAssembler
  step a b = after a (record_block a (b * block_size) (block_of whole b))

  abbrev recorded : PieceAssembler → ℕ → PieceAssembler
  recorded a b = record a {
    buf = write_at a.buf (b * block_size) (block_of whole b);
    received = set a.received b true;
  }

  blocks_lem :
      {a : PieceAssembler} → Good work whole a → length a.received ≡ div_ceil work.length block_size
  blocks_lem {a} g = rw (← g.is_work) g.inv.flags

  step-cases :
      (a : PieceAssembler) (b : ℕ)
      → Good work whole a
      → b < div_ceil work.length block_size
      → ((is_complete a ≡ true) × (step a b ≡ a))
        ⊎ ((record_block a (b * block_size) (block_of whole b) ≡ ok (recorded a b))
            × (step a b ≡ recorded a b))
  step-cases a b g lt = elim (Bool-cases (is_complete a)) [
    | inl done ↦ inl (done, rw (recorded_already a (b * block_size) (block_of whole b) done))
    | inr more ↦
        let fit : length whole ≡ a.work.length = rw g.is_work size in
        let stored =
          record_block-ok a b (block_of whole b) g.inv more (omega (arith, blocks_lem g))
            (length-block_of whole b ∙ rw fit) in
        inr (stored, rw stored)
  ]

  step-Good :
      (a : PieceAssembler) (b : ℕ)
      → Good work whole a
      → b < div_ceil work.length block_size
      → Good work whole (step a b)
  step-Good a b g lt = elim (step-cases a b g lt) [
    | inl (done, e) ↦ rw e g
    | inr (stored, e) ↦ rw e (record {
      is_work = g.is_work;
      inv = record_block-Inv a (recorded a b) (b * block_size) (block_of whole b) g.inv stored;
      agrees =
          recorded-Agrees whole a b g.inv (size ∙ ap (λ (w : PieceWork). w.length) (sym g.is_work))
            (omega (arith, blocks_lem g)) g.agrees;
    })
  ]

  -- What has arrived stays, and the block that is recorded has arrived.
  step-keeps :
      (a : PieceAssembler) (b i : ℕ)
      → Good work whole a
      → b < div_ceil work.length block_size
      → (has_arrived a i ≡ true) ⊎ (b ≡ i)
      → has_arrived (step a b) i ≡ true
  step-keeps a b i g lt h = elim (step-cases a b g lt) [
    | inl (done, e) ↦ rw e (elim h [
      | inl old ↦ old
      | inr same ↦
          all_set-get_or a.received i (unfold is_complete in done) (omega (arith, blocks_lem g))
    ])
    | inr (stored, e) ↦ rw e (elim (ℕ_discrete b i) [
      | yes same ↦ rw same (get_or-set_self a.received i true false (omega (arith, blocks_lem g)))
      | no other ↦
          get_or-set_ne a.received b i true false other
          ∙ elim h [ inl old ↦ old | inr same ↦ absurd (other same) ]
    ])
  ]

  deliver-Good :
      (bs : List ℕ) (a : PieceAssembler)
      → Good work whole a
      → All (λ b. b < div_ceil work.length block_size) bs
      → Good work whole (deliver a whole bs)
  unfolding deliver
  deliver-Good [] a g h = g
  deliver-Good (b ∷ bs) a g h = deliver-Good bs (step a b) (step-Good a b g h.0) h.1

  deliver-arrived :
      (bs : List ℕ) (a : PieceAssembler) (i : ℕ)
      → Good work whole a
      → All (λ b. b < div_ceil work.length block_size) bs
      → (has_arrived a i ≡ true) ⊎ (contains bs i ≡ true)
      → has_arrived (deliver a whole bs) i ≡ true
  unfolding deliver
  deliver-arrived [] a i g h k = elim k [ inl old ↦ old | inr none_left ↦ absurd (cc) ]
  deliver-arrived (b ∷ bs) a i g h k =
      deliver-arrived bs (step a b) i (step-Good a b g h.0) h.1 (elim k [
        | inl old ↦ inl (step-keeps a b i g h.0 (inl old))
        | inr found ↦ elim (Bool-cases (b == i)) [
          | inl same ↦ inl (step-keeps a b i g h.0 (inr (==→eq b i same)))
          | inr other ↦ inr (rw other at found)
        ]
      ])

new-Good : (work : PieceWork) (whole : Bytes) → work.length < u32_mod → Good work whole (new work)
unfolding new
new-Good work whole h = record {
  is_work = refl;
  inv = new-Inv work h;
  agrees = λ i lt arrived.
      absurd (false≢true (sym (get_or-replicate _ false (i / block_size)) ∙ arrived));
}

-- An assembler that agrees with the piece and is complete holds the piece.
complete-buf :
    (work : PieceWork) (whole : Bytes) (a : PieceAssembler)
    → length whole ≡ work.length
    → Good work whole a
    → is_complete a ≡ true
    → a.buf ≡ whole
unfolding is_complete
complete-buf work whole a size g done =
    let fit : a.work.length ≡ work.length = ap (λ (w : PieceWork). w.length) g.is_work in
    eq_of_get_or a.buf whole 0 (omega (arith, g.inv.room)) (λ i lt.
      g.agrees i (omega (arith, g.inv.room))
        (all_set-get_or a.received (i / block_size) done (omega (arith, g.inv.room, g.inv.flags))))

-- A new assembler is given the blocks of a piece, in any order and however often each. If every block
-- is among them, and the piece passes its check, `finish` returns the piece.
pub finish-deliver :
    (sha1 : Bytes → Bytes) (work : PieceWork) (whole : Bytes) (blocks : List ℕ)
    → work.length < u32_mod
    → length whole ≡ work.length
    → matches sha1 work whole ≡ true
    → All (λ b. b < div_ceil work.length block_size) blocks
    → ((i : ℕ) → i < div_ceil work.length block_size → contains blocks i ≡ true)
    → finish sha1 (deliver (new work) whole blocks) ≡ ok whole
unfolding finish
finish-deliver sha1 work whole blocks small size good in_range covers =
    let g = deliver-Good work whole size blocks (new work) (new-Good work whole small) in_range in
    let final : PieceAssembler = deliver (new work) whole blocks in
    let done : is_complete final ≡ true =
      unfold is_complete in
      all_set_of final.received (λ i lt.
        deliver-arrived work whole size blocks (new work) i (new-Good work whole small) in_range
          (inr (covers i (omega (arith, blocks_lem work whole size g))))) in
    rw (done, complete-buf work whole final size g done, g.is_work, good)
