-- ===== src/Downloader/PieceAssembler/Reach.antt =====
-- src/downloader/piece_assembler.rs: every assembler that the calls of its interface can lead to.
use bittorrent_rs.Prelude.{
  ℕ, ◌<◌, ◌≡◌, refl, ap, ◌∙◌, true, not, arith, length, Bytes, u32_mod, not-eq_false,
}
use bittorrent_rs.Downloader.PieceAssembler.{
  PieceAssembler, PieceWork, PartialPiece, ok, new, resume, next_requests, forget_requests,
  refuse_request, record_block, is_complete, finish, matches, refuse-ok,
}
use bittorrent_rs.Downloader.PieceAssembler.Invariant.{
  Inv, new-Inv, resume-Inv, next_requests-Inv, forget_requests-Inv, refuse_request-Inv,
  record_block-Inv, record_block-Recorded,
}

-- An assembler for `work`, after any calls. A block that is refused by an error changes nothing.
pub data Built (work : PieceWork) : PieceAssembler → Type 0 where
  is_new : Built work (new work)
  is_resumed : (partial : PartialPiece) → Built work (resume work partial)
  asks :
      {a : PieceAssembler} → Built work a → (max_new : ℕ) → Built work (next_requests a max_new).1
  forgets : {a : PieceAssembler} → Built work a → Built work (forget_requests a)
  refuses : {a : PieceAssembler} → Built work a → (begin : ℕ) → Built work (refuse_request a begin)
  records :
      {a b : PieceAssembler}
      → Built work a
      → (begin : ℕ) (bytes : Bytes) → record_block a begin bytes ≡ ok b
      → Built work b

-- Whatever calls are made on an assembler of a piece shorter than 2 ^ 32 bytes, it stays well formed.
pub Built-Inv :
    {work : PieceWork} {a : PieceAssembler} → work.length < u32_mod → Built work a → Inv a
Built-Inv {work} h is_new = new-Inv work h
Built-Inv {work} h (is_resumed partial) = resume-Inv work partial h
Built-Inv h (asks {a} r m) = next_requests-Inv a m (Built-Inv h r)
Built-Inv h (forgets {a} r) = forget_requests-Inv a (Built-Inv h r)
Built-Inv h (refuses {a} r begin) = refuse_request-Inv a begin (Built-Inv h r)
Built-Inv h (records {a} {b} r begin bytes e) = record_block-Inv a b begin bytes (Built-Inv h r) e

resume-work : (work : PieceWork) (partial : PartialPiece) → (resume work partial).work ≡ work
unfolding resume
resume-work work partial = ground arith

refuse_request-work : (a : PieceAssembler) (begin : ℕ) → (refuse_request a begin).work ≡ a.work
unfolding refuse_request
refuse_request-work a begin = ground arith

Built-work : {work : PieceWork} {a : PieceAssembler} → Built work a → a.work ≡ work
unfolding new next_requests forget_requests
Built-work is_new = refl
Built-work {work} (is_resumed partial) = resume-work work partial
Built-work (asks r m) = Built-work r
Built-work (forgets r) = Built-work r
Built-work (refuses {a} r begin) = refuse_request-work a begin ∙ Built-work r
Built-work (records {a} {b} r begin bytes e) =
    ap (λ (x : PieceAssembler). x.work) (record_block-Recorded a b begin bytes e).result
    ∙ Built-work r

-- Whatever calls were made on an assembler of a piece shorter than 2 ^ 32 bytes, the bytes that
-- `finish` returns have the piece's length and pass its check.
pub Built-finish :
    (sha1 : Bytes → Bytes) {work : PieceWork} {a : PieceAssembler} (bytes : Bytes)
    → work.length < u32_mod
    → Built work a
    → finish sha1 a ≡ ok bytes
    → (length bytes ≡ work.length) × (matches sha1 work bytes ≡ true)
unfolding finish
Built-finish sha1 {work} {a} bytes small r h =
    let v = Built-Inv small r in
    let same = Built-work r in
    let (_, h₁) = refuse-ok (not (is_complete a)) _ h in
    let (checked, h₂) = refuse-ok (not (matches sha1 a.work a.buf)) _ h₁ in
    let e : a.buf ≡ bytes = cc in
    (rw (← e, ← same) v.room, rw (← e, ← same) (not-eq_false _ checked))
