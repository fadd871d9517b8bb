-- ===== src/Downloader/WorkQueue/Choice.antt =====
-- src/downloader/queue.rs: which piece `take` chooses.
use bittorrent_rs.Prelude.{
  ℕ, suc, ◌+◌, ◌-◌, ◌≤◌, ◌≡◌, subst, ◌⊎◌, inl, inr, Bool, true, false, Option, none, some, List, [],
  ◌∷◌, arith, Bool-cases, Option-cases, get_elem?, take, All, All-weaken,
}
use bittorrent_rs.Downloader.PieceAssembler.{PieceWork}
use bittorrent_rs.Downloader.WorkQueue.{Rank, rank_lt, pick_from}

rank_lt_asym : (r s : Rank) → rank_lt r s ≡ true → rank_lt s r ≡ false
rank_lt_asym (a, b, c) (d, e, f) h = ground arith

rank_lt_refl : (r : Rank) → rank_lt r r ≡ false
rank_lt_refl (a, b, c) = ground arith

rank_ge_trans : (r s t : Rank) → rank_lt r s ≡ false → rank_lt s t ≡ false → rank_lt r t ≡ false
rank_ge_trans (a, b, c) (d, e, f) (x, y, z) h k = ground arith

-- `w` is on offer, at position `i` counted from `n`; nothing on offer ranks before it, and what is on
-- offer at an earlier position ranks behind it.
pub record IsFirst (key : PieceWork → Rank) (has : ℕ → Bool) (n : ℕ) (ws : List PieceWork) (i : ℕ)
    (w : PieceWork) : Type 0 where
  pub position : n ≤ i
  pub found : get_elem? ws (i - n) ≡ some w
  pub offered : has w.index ≡ true
  pub least : All (λ v. (has v.index ≡ false) ⊎ (rank_lt (key v) (key w) ≡ false)) ws
  pub earlier :
      All (λ v. (has v.index ≡ false) ⊎ (rank_lt (key w) (key v) ≡ true)) (take (i - n) ws)

abbrev pub Picks :
    (PieceWork → Rank) → (ℕ → Bool) → ℕ → List PieceWork → Option (ℕ × PieceWork) → Type 0
Picks key has n ws none = All (λ v. has v.index ≡ false) ws
Picks key has n ws (some (i, w)) = IsFirst key has n ws i w

-- A piece before `w` gives way to one that comes before it in rank.
module _ (key : PieceWork → Rank) (has : ℕ → Bool) (n : ℕ) (w : PieceWork) (ws : List PieceWork)
    (m : ℕ) (v : PieceWork) (first : IsFirst key has (n + 1) ws m v) where
  one_later : m - n ≡ suc (m - (n + 1))
  one_later = omega (arith, first.position)

  keep_later :
      (has w.index ≡ false) ⊎ (rank_lt (key v) (key w) ≡ true) → IsFirst key has n (w ∷ ws) m v
  keep_later h = record {
    position = omega (arith, first.position);
    found = rw one_later first.found;
    offered = first.offered;
    least = (
      elim h [ inl absent ↦ inl absent | inr before ↦ inr (rank_lt_asym (key v) (key w) before) ],
      first.least,
    );
    earlier = rw one_later (h, first.earlier);
  }

  keep-IsFirst :
      has w.index ≡ true → rank_lt (key v) (key w) ≡ false → IsFirst key has n (w ∷ ws) n w
  keep-IsFirst offered h = record {
    position = omega arith;
    found = let e : n - n ≡ 0 = omega arith in rw e;
    earlier = let e : n - n ≡ 0 = omega arith in rw e tt;
    offered = offered;
    least = (
      inr (rank_lt_refl (key w)),
      All-weaken _ _ ws
          (λ u p. elim p [
            | inl absent ↦ inl absent
            | inr after ↦ inr (rank_ge_trans (key u) (key v) (key w) after h)
          ])
          first.least,
    );
  }

-- The scan finds the first of the pieces on offer of the least rank, if any is on offer.
pub pick_from-Picks :
    (key : PieceWork → Rank) (has : ℕ → Bool) (n : ℕ) (ws : List PieceWork)
    → Picks key has n ws (pick_from key has n ws)
unfolding pick_from
pick_from-Picks key has n [] = tt
pick_from-Picks key has n (w ∷ ws) = elim (Bool-cases (has w.index)) [
  | inr not_offered ↦ elim (Option-cases (pick_from key has (n + 1) ws)) [
    | inl e ↦
        rw (not_offered, e)
          (not_offered, subst (Picks key has (n + 1) ws) e (pick_from-Picks key has (n + 1) ws))
    | inr ((m, v), e) ↦
        rw (not_offered, e)
          (keep_later key has n w ws m v
            (subst (Picks key has (n + 1) ws) e (pick_from-Picks key has (n + 1) ws))
            (inl not_offered))
  ]
  | inl offered ↦ elim (Option-cases (pick_from key has (n + 1) ws)) [
    | inl e ↦
        let none_else = subst (Picks key has (n + 1) ws) e (pick_from-Picks key has (n + 1) ws) in
        let at : n - n ≡ 0 = omega arith in
        rw (offered, e)
          (record {
            position = omega arith;
            found = rw at;
            earlier = rw at tt;
            offered = offered;
            least = (inr (rank_lt_refl (key w)), All-weaken _ _ ws (λ v h. inl h) none_else);
          })
    | inr ((m, v), e) ↦
        let first = subst (Picks key has (n + 1) ws) e (pick_from-Picks key has (n + 1) ws) in
        elim (Bool-cases (rank_lt (key v) (key w))) [
          | inl before ↦ rw (offered, e, before) (keep_later key has n w ws m v first (inr before))
          | inr not_before ↦
              rw (offered, e, not_before) (keep-IsFirst key has n w ws m v first offered not_before)
        ]
  ]
]
