-- ===== src/Downloader/PieceAssembler/Missing.antt =====
-- src/downloader/piece_assembler.rs: after `forget_requests` every missing block is handed out again.
use bittorrent_rs.Prelude.{
  ℕ, zero, suc, ◌+◌, ◌-◌, ◌≤◌, ◌≡◌, ap, ◌∙◌, inl, inr, Bool, List, [], ◌∷◌, map, arith, Bool-cases,
  false, length, drop, drop_all, drop-get_or, if◌then◌else◌,
}
use bittorrent_rs.Downloader.PieceAssembler.{
  PieceAssembler, num_blocks, request, has_arrived, next_requests, forget_requests,
}
use bittorrent_rs.Downloader.PieceAssembler.Invariant.{Inv, num_blocks_lem}
use bittorrent_rs.Downloader.PieceAssembler.Requests.{
  swept, popped, asked_blocks, next_requests-blocks,
}

-- The positions of the flags that are not set, counted from `n`.
abbrev pub unset_from : ℕ → List Bool → List ℕ
unset_from n [] = []
unset_from n (b ∷ bs) = if b then unset_from (n + 1) bs else n ∷ unset_from (n + 1) bs

swept-unset_from :
    (a : PieceAssembler) (room left next : ℕ)
    → left ≤ room
    → next + left ≡ length a.received
    → swept a room left next ≡ unset_from next (drop next a.received)
unfolding swept
swept-unset_from a room zero next h e = rw (drop_all next a.received (omega arith))
swept-unset_from a zero (suc left) next h e = absurd (omega arith)
swept-unset_from a (suc room) (suc left) next h e =
    let cut = drop-get_or next a.received false (omega arith) in
    let one : next + 1 ≡ suc next = omega arith in
    elim (Bool-cases (has_arrived a next)) [
      | inl arrived ↦
          rw (cut, arrived)
            (swept-unset_from a (suc room) left (next + 1) (omega arith) (omega arith) ∙ rw one)
      | inr missing ↦
          rw (cut, missing)
            (ap (◌∷◌ next)
              (swept-unset_from a room left (next + 1) (omega arith) (omega arith) ∙ rw one))
    ]

-- Once the requests are forgotten, a call of `next_requests` with room for every block of the piece
-- asks for exactly the blocks that have not arrived, in order.
pub next_requests-forget_requests :
    (a : PieceAssembler) (max_new : ℕ)
    → Inv a
    → num_blocks a ≤ max_new
    → (next_requests (forget_requests a) max_new).0 ≡ map (request a) (unset_from 0 a.received)
unfolding forget_requests asked_blocks popped
next_requests-forget_requests a m v h =
    let blocks = num_blocks_lem a v in
    next_requests-blocks (forget_requests a) m
    ∙ ap (map (request a)) (
        swept-unset_from (forget_requests a) (m - 0) (num_blocks a - 0) 0 (omega arith)
          (omega arith))
