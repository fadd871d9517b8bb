-- ===== src/Downloader/WorkQueue/Counts.antt =====
-- src/downloader/queue.rs: how often a piece is pending, claimed and done, after each list operation.
use bittorrent_rs.Prelude.{
  ℕ, zero, suc, ◌+◌, ◌-◌, ◌≤◌, ◌<◌, ◌≡◌, refl, ap, subst, ◌∙◌, ◌⊎◌, inl, inr, Bool, true, false,
  none, some, List, [], ◌∷◌, ◌++◌, arith, Option-cases, length, get_elem?, set, take, any, filterb,
}
use bittorrent_rs.Downloader.WorkQueue.{last?, swap_remove}

abbrev pub bit : Bool → ℕ
bit true = 1
bit false = 0

module _ {ℓ} {A : Type ℓ} where
  -- How many entries pass a test.
  abbrev pub countb : (A → Bool) → List A → ℕ
  countb p [] = 0
  countb p (x ∷ xs) = bit (p x) + countb p xs

module _ {ℓ} {A : Type ℓ} (p : A → Bool) where
  pub countb-append : (xs ys : List A) → countb p (xs ++ ys) ≡ countb p xs + countb p ys
  countb-append [] ys = omega arith
  countb-append (x ∷ xs) ys = omega (arith, countb-append xs ys)

  countb-set :
      (xs : List A) (i : ℕ) (v w : A)
      → get_elem? xs i ≡ some w
      → countb p (set xs i v) + bit (p w) ≡ countb p xs + bit (p v)
  countb-set [] i v w h = cc
  countb-set (x ∷ xs) zero v w h = let e : x ≡ w = cc in rw e (omega arith)
  countb-set (x ∷ xs) (suc i) v w h = omega (arith, countb-set xs i v w h)

  pub countb_pos_any : (xs : List A) → any p xs ≡ true → 0 < countb p xs
  countb_pos_any [] h = cc
  countb_pos_any (x ∷ xs) h = ground (arith, countb_pos_any xs)

  pub countb_zero_any : (xs : List A) → any p xs ≡ false → countb p xs ≡ 0
  countb_zero_any [] h = refl
  countb_zero_any (x ∷ xs) h = ground (arith, countb_zero_any xs)

  pub countb-get_elem? :
      (xs : List A) (i : ℕ) (w : A) → get_elem? xs i ≡ some w → p w ≡ true → 0 < countb p xs
  countb-get_elem? [] i w h t = cc
  countb-get_elem? (x ∷ xs) zero w h t = let e : x ≡ w = cc in rw (e, t) (omega arith)
  countb-get_elem? (x ∷ xs) (suc i) w h t = omega (arith, countb-get_elem? xs i w h t)

  last?-append : (xs : List A) (l : A) → last? xs ≡ some l → xs ≡ take (length xs - 1) xs ++ l ∷ []
  unfolding last?
  last?-append [] l h = cc
  last?-append (x ∷ []) l h = let e : x ≡ l = cc in rw e
  last?-append (x ∷ y ∷ xs) l h =
      let e : suc (suc (length xs)) - 1 ≡ suc (length xs) = omega arith in
      let e' : suc (length xs) - 1 ≡ length xs = omega arith in
      rw e (ap (◌∷◌ x) (rw e' at (last?-append (y ∷ xs) l h)))

  last?-some : (xs : List A) (i : ℕ) (w : A) → get_elem? xs i ≡ some w → last? xs ≡ none → ⊥
  unfolding last?
  last?-some [] i w h k = cc
  last?-some (x ∷ []) i w h k = cc
  last?-some (x ∷ y ∷ xs) i w h k = last?-some (y ∷ xs) 0 y refl k

  get_elem?-append_lt :
      (xs : List A) (l : A) (i : ℕ) (w : A)
      → get_elem? (xs ++ l ∷ []) i ≡ some w
      → (get_elem? xs i ≡ some w) ⊎ ((l ≡ w) × (length xs ≤ i))
  get_elem?-append_lt [] l zero w h = inr (cc, omega arith)
  get_elem?-append_lt [] l (suc i) w h = cc
  get_elem?-append_lt (x ∷ xs) l zero w h = inl h
  get_elem?-append_lt (x ∷ xs) l (suc i) w h = elim (get_elem?-append_lt xs l i w h) [
    | inl e ↦ inl e
    | inr (e, le) ↦ inr (e, omega arith)
  ]

  set_beyond : (xs : List A) (i : ℕ) (v : A) → length xs ≤ i → set xs i v ≡ xs
  set_beyond [] i v h = refl
  set_beyond (x ∷ xs) zero v h = absurd (omega arith)
  set_beyond (x ∷ xs) (suc i) v h = ap (◌∷◌ x) (set_beyond xs i v (omega arith))

  swap_remove_lem :
      (xs : List A) (i : ℕ) (l : A)
      → last? xs ≡ some l
      → swap_remove xs i ≡ set (take (length xs - 1) xs) i l
  unfolding swap_remove
  swap_remove_lem xs i l e = rw (e, swap_remove)

  -- `swap_remove` takes out the entry at the index, and no other.
  pub countb-swap_remove :
      (xs : List A) (i : ℕ) (w : A)
      → get_elem? xs i ≡ some w
      → countb p (swap_remove xs i) + bit (p w) ≡ countb p xs
  countb-swap_remove xs i w h = elim (Option-cases (last? xs)) [
    | inl e ↦ absurd (last?-some xs i w h e)
    | inr (l, e) ↦
        let front : List A = take (length xs - 1) xs in
        let split = last?-append xs l e in
        let total : countb p xs ≡ countb p front + (bit (p l) + 0) =
          ap (countb p) split ∙ countb-append front (l ∷ []) in
        rw (swap_remove_lem xs i l e)
          (elim (get_elem?-append_lt front l i w (subst (λ ys. get_elem? ys i ≡ some w) split h)) [
            | inl inside ↦ omega (arith, countb-set front i l w inside)
            | inr (same, beyond) ↦
                let size : countb p (set front i l) ≡ countb p front =
                  ap (countb p) (set_beyond front i l beyond) in
                let bits : bit (p l) ≡ bit (p w) = ap (λ x. bit (p x)) same in omega arith
          ])
  ]

-- Taking out what passes a test.
pub countb-filterb {ℓ} :
    {A : Type ℓ} (p q : A → Bool) (xs : List A)
    → ((x : A) → p x ≡ true → q x ≡ true)
    → countb p (filterb q xs) ≡ countb p xs
countb-filterb p q [] h = refl
countb-filterb p q (x ∷ xs) h = ground (arith, h x, countb-filterb p q xs h)

pub countb-filterb_none {ℓ} :
    {A : Type ℓ} (p q : A → Bool) (xs : List A)
    → ((x : A) → p x ≡ true → q x ≡ false)
    → countb p (filterb q xs) ≡ 0
countb-filterb_none p q [] h = refl
countb-filterb_none p q (x ∷ xs) h = ground (arith, h x, countb-filterb_none p q xs h)
