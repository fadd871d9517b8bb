-- ===== src/Downloader/PieceAssembler/Examples.antt =====
-- src/downloader/piece_assembler.rs: the theorems at concrete inputs.
use bittorrent_rs.Prelude.{
  ℕ, zero, suc, ◌+◌, ◌-◌, ◌*◌, ◌%◌, ◌≤◌, ◌<◌, min, ◌≡◌, ◌↔◌, refl, true, false, none, [], ◌∷◌, map,
  arith, length, length-replicate, get_or, set, replicate, contains, All, Distinct, Bytes,
}
use bittorrent_rs.Downloader.PieceAssembler.{
  PieceAssembler, PieceWork, ok, panicked, block_size, new, next_requests, forget_requests, request,
  record_block, is_complete, finish, matches, has_arrived, store_block, write_at, num_blocks,
}
use bittorrent_rs.Downloader.PieceAssembler.Invariant.{Inv, new-Inv}
use bittorrent_rs.Downloader.PieceAssembler.Requests.{WantsBlock, next_requests-WantsBlock}
use bittorrent_rs.Downloader.PieceAssembler.Once.{requests_of, requests_of-Distinct}
use bittorrent_rs.Downloader.PieceAssembler.Missing.{unset_from, next_requests-forget_requests}
use bittorrent_rs.Downloader.PieceAssembler.Blocks.{
  record_block-panicked_iff, record_block-ok, record_block_unaligned,
}
use bittorrent_rs.Downloader.PieceAssembler.Assembly.{deliver}
use bittorrent_rs.Downloader.PieceAssembler.Delivery.{finish-deliver}
use bittorrent_rs.Downloader.PieceAssembler.Reach.{Built, is_new, records, Built-finish}

-- Three blocks, the last one of 7232 bytes.
abbrev work : PieceWork
work = record { index = 5; hash = []; length = 40000; merkle = none }

abbrev fresh : PieceAssembler
fresh = new work

fresh-Inv : Inv fresh
fresh-Inv = new-Inv work (omega arith)

next_requests-WantsBlock_example :
    All (WantsBlock fresh) (next_requests fresh 2).0 × (length (next_requests fresh 2).0 ≤ 2)
next_requests-WantsBlock_example = next_requests-WantsBlock fresh 2 fresh-Inv

requests_of-Distinct_example : Distinct (map (λ r. r.1) (requests_of fresh (2 ∷ 0 ∷ 5 ∷ [])))
requests_of-Distinct_example = requests_of-Distinct fresh (2 ∷ 0 ∷ 5 ∷ []) fresh-Inv

fresh-num_blocks : num_blocks fresh ≤ 8
unfolding new
fresh-num_blocks = omega arith

next_requests-forget_requests_example :
    (next_requests (forget_requests fresh) 8).0 ≡ map (request fresh) (unset_from 0 fresh.received)
next_requests-forget_requests_example =
    next_requests-forget_requests fresh 8 fresh-Inv fresh-num_blocks

-- A piece of one whole block: an empty block at its end is not refused.
abbrev one_block : PieceWork
one_block = record { index = 0; hash = []; length = 16384; merkle = none }

record_block-panicked_iff_example : (record_block (new one_block) 16384 [] ≡ panicked) ↔ (
    (is_complete (new one_block) ≡ false)
    × (16384 ≡ (new one_block).work.length)
    × (length {A = ℕ} [] ≡ 0)
    × ((new one_block).work.length % block_size ≡ 0))
record_block-panicked_iff_example =
    record_block-panicked_iff (new one_block) 16384 [] (new-Inv one_block (omega arith))
      (omega arith)

fresh-is_complete : is_complete fresh ≡ false
unfolding new is_complete
fresh-is_complete = refl

abbrev ones : ℕ → Bytes
ones n = replicate n 1

fresh-length : length fresh.received ≡ 3
unfolding new
fresh-length = refl

last_block : length (ones 7232) ≡ min (fresh.work.length - 2 * block_size) block_size
unfolding new
last_block = length-replicate {A = ℕ} 7232 1

last_in_range : 2 < length fresh.received
last_in_range = omega (arith, fresh-length)

record_block-ok_example :
    record_block fresh (2 * block_size) (ones 7232)
    ≡ ok (record fresh {
      buf = write_at fresh.buf (2 * block_size) (ones 7232);
      received = set fresh.received 2 true;
    })
record_block-ok_example =
    record_block-ok fresh 2 (ones 7232) fresh-Inv fresh-is_complete last_in_range last_block

unaligned_room : 1 * block_size + 10 + block_size ≤ fresh.work.length
unfolding new
unaligned_room = omega arith

whole_block : length (ones 16384) ≡ block_size
whole_block = length-replicate {A = ℕ} 16384 1

record_block_unaligned_example :
    (c : PieceAssembler) × (record_block fresh (1 * block_size + 10) (ones 16384) ≡ ok c)
    × (has_arrived c 1 ≡ true)
    × ((i : ℕ) → i < 1 * block_size + 10 → get_or c.buf i 0 ≡ get_or fresh.buf i 0)
record_block_unaligned_example =
    record_block_unaligned fresh 1 10 (ones 16384) fresh-Inv fresh-is_complete (omega arith)
      (omega arith) whole_block unaligned_room

-- A piece of two bytes, and a hash that is the data itself.
abbrev no_hash : Bytes → Bytes
no_hash bytes = bytes

abbrev small_work : PieceWork
small_work = record { index = 0; hash = 7 ∷ 8 ∷ []; length = 2; merkle = none }

abbrev whole : Bytes
whole = 7 ∷ 8 ∷ []

whole-matches : matches no_hash small_work whole ≡ true
unfolding matches
whole-matches = refl

covered : (i : ℕ) → i < 1 → contains (0 ∷ 0 ∷ []) i ≡ true
covered zero h = refl
covered (suc i) h = absurd (omega arith)

finish-deliver_example : finish no_hash (deliver (new small_work) whole (0 ∷ 0 ∷ [])) ≡ ok whole
finish-deliver_example =
    finish-deliver no_hash small_work whole (0 ∷ 0 ∷ []) (omega arith) refl whole-matches
      (omega arith, (omega arith, tt)) covered

abbrev filled : PieceAssembler
filled = record (new small_work) { buf = whole; received = true ∷ [] }

filled-recorded : record_block (new small_work) 0 whole ≡ ok filled
unfolding new record_block is_complete store_block
filled-recorded = refl

filled-Built : Built small_work filled
filled-Built = records is_new 0 whole filled-recorded

filled-finish : finish no_hash filled ≡ ok whole
unfolding finish is_complete matches new
filled-finish = refl

Built-finish_example : (length whole ≡ 2) × (matches no_hash small_work whole ≡ true)
Built-finish_example = Built-finish no_hash whole (omega arith) filled-Built filled-finish
