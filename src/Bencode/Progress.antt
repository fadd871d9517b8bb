-- ===== src/Bencode/Progress.antt =====
-- src/bencode.rs: each step of the decoder moves on within the input.
use bittorrent_rs.Prelude.{
  ℕ, zero, suc, ◌+◌, ◌≤◌, ◌<◌, ◌≡◌, ◌≢◌, refl, ap, ◌∙◌, Bool, true, false, some, List, [], ◌∷◌,
  arith, ltb, leb, ◌==◌, if◌then◌else◌, length, get_elem?, drop, length-drop, Bool-cases,
  Option-cases, inl, inr, Bytes, ltb_false→le, usize_mod,
}
use bittorrent_rs.Bencode.{
  ℤ, pos, negsuc, out_of_fuel, Result, ok, err, Decoder, max_depth, peek, skip, advance,
  is_ascii_digit, scan_digits, digits_value, to_i64, has_leading_zero, checked_value,
  parse_signed_until, bytes_of_len, decode_bytes, ◌>>=◌,
}

-- A decoder that is later in the same input, at the same depth.
pub record Later (d e : Decoder) : Type 0 where
  pub moved : d.pos < e.pos
  pub within : e.pos ≤ length d.input
  pub same_input : e.input ≡ d.input
  pub same_depth : e.depth ≡ d.depth

-- A result is later in the input and no deeper than the limit, or an error that the source has.
abbrev pub Advances {ℓ} : {A : Type ℓ} → (A → ℕ) → Decoder → Result (A × Decoder) → Type 0
Advances h d (ok (a, e)) = Later d e × (h a + d.depth ≤ max_depth)
Advances h d (err failure) = failure ≢ out_of_fuel

abbrev pub flat {ℓ} : {A : Type ℓ} → A → ℕ
flat a = 0

pub Later-trans : (d e f : Decoder) → Later d e → Later e f → Later d f
Later-trans d e f p q = record {
  moved = omega (arith, p.moved, q.moved);
  within = omega (arith, q.within, ap (λ (x : Bytes). length x) p.same_input);
  same_input = q.same_input ∙ p.same_input;
  same_depth = q.same_depth ∙ p.same_depth;
}

-- What follows a step that advances, advances.
pub bind-Advances {ℓ} :
    {A : Type ℓ} {B : Type ℓ} (h : A → ℕ) (k : B → ℕ) (d : Decoder) (r : Result (A × Decoder))
    (next : A × Decoder → Result (B × Decoder))
    → Advances h d r
    → ((a : A) (e : Decoder) → Later d e → h a + d.depth ≤ max_depth → Advances k d (next (a, e)))
    → Advances k d (r >>= next)
bind-Advances h k d (err failure) next v f = v
bind-Advances h k d (ok (a, e')) next v f = f a e' v.0 v.1

-- A peek finds a byte within the input.
Peeked : Decoder → Result ℕ → Type 0
Peeked d (ok b) = d.pos < length d.input
Peeked d (err failure) = failure ≢ out_of_fuel

get_elem?-lt : {A : Type 0} (xs : List A) (i : ℕ) (a : A) → get_elem? xs i ≡ some a → i < length xs
get_elem?-lt [] i a h = cc h
get_elem?-lt (x ∷ xs) zero a h = omega arith
get_elem?-lt (x ∷ xs) (suc i) a h = omega (arith, get_elem?-lt xs i a h)

peek-Peeked : (d : Decoder) → Peeked d (peek d)
unfolding Peeked
peek-Peeked d = elim (Option-cases (get_elem? d.input d.pos)) [
  | inl e ↦ rw (e, Peeked) (λ q. cc q)
  | inr (b, e) ↦ rw (e, Peeked) (get_elem?-lt d.input d.pos b e)
]

-- The digits found lie before the end of the input.
Scanned : ℕ → Result Bytes → Type 0
Scanned n (ok digits) = length digits < n
Scanned n (err failure) = failure ≢ out_of_fuel

Scanned-cons :
    (n b : ℕ) (r : Result Bytes) → Scanned n r → Scanned (suc n) (r >>= λ ds. ok (b ∷ ds))
unfolding Scanned
Scanned-cons n b (ok ds) h = omega arith
Scanned-cons n b (err failure) h = h

scan_digits-Scanned :
    (terminator : ℕ) (bs : Bytes) → Scanned (length bs) (scan_digits terminator bs)
unfolding scan_digits Scanned
scan_digits-Scanned t [] = λ q. cc q
scan_digits-Scanned t (b ∷ bs) = elim (Bool-cases (b == t)) [
  | inl e ↦ rw e (omega arith)
  | inr e ↦ elim (Bool-cases (is_ascii_digit b)) [
    | inl digit ↦
        rw (e, digit) (Scanned-cons (length bs) b (scan_digits t bs) (scan_digits-Scanned t bs))
    | inr other ↦ rw (e, other) (λ q. cc q)
  ]
]

pub after_peek :
    {B : Type 0} (k : B → ℕ) (d : Decoder) (next : ℕ → Result (B × Decoder))
    → ((b : ℕ) → d.pos < length d.input → Advances k d (next b))
    → Advances k d (peek d >>= next)
unfolding Peeked
after_peek k d next f = go (peek d) (peek-Peeked d)
  where
    go : (r : Result ℕ) → Peeked d r → Advances k d (r >>= next)
    go (err failure) v = v
    go (ok b) v = f b v

after_scan :
    {B : Type 0} (k : B → ℕ) (d : Decoder) (n : ℕ) (r : Result Bytes)
    (next : Bytes → Result (B × Decoder))
    → Scanned n r
    → ((ds : Bytes) → length ds < n → Advances k d (next ds))
    → Advances k d (r >>= next)
unfolding Scanned
after_scan k d n (err failure) next v f = v
after_scan k d n (ok ds) next v f = f ds v

checked_value-Advances :
    (t : ℕ) (d e : Decoder) (negative : Bool) (digits : Bytes)
    → d.pos ≤ e.pos
    → e.input ≡ d.input
    → e.depth ≡ d.depth
    → length digits + e.pos < length d.input
    → d.depth ≤ max_depth
    → Advances flat d (checked_value t e negative digits)
checked_value-Advances t d e negative digits le same level room low =
    elim (Bool-cases (leb (length digits) 0)) [
      | inl e₁ ↦ rw e₁ (λ q. cc q)
      | inr e₁ ↦ elim (Bool-cases (has_leading_zero negative digits)) [
        | inl e₂ ↦ rw (e₁, e₂) (λ q. cc q)
        | inr e₂ ↦ elim (Option-cases (to_i64 negative (digits_value 0 digits))) [
          | inl e₃ ↦ rw (e₁, e₂, e₃) (λ q. cc q)
          | inr (i, e₃) ↦
              rw (e₁, e₂, e₃)
                (
                  record {
                    moved = omega arith;
                    within = omega arith;
                    same_input = same;
                    same_depth = level;
                  },
                  omega arith,
                )
        ]
      ]
    ]

pub parse_signed_until-Advances :
    (t : ℕ) (d : Decoder) → d.depth ≤ max_depth → Advances flat d (parse_signed_until t d)
unfolding parse_signed_until
parse_signed_until-Advances t d low =
    after_peek flat d _ (λ first in_range. go first (first == b'-') in_range)
  where
    go :
        (first : ℕ) (negative : Bool)
        → d.pos < length d.input
        → let e : Decoder = if negative then skip 1 d else d in
          Advances flat d
            (scan_digits t (drop e.pos e.input) >>= λ digits. checked_value t e negative digits)
    go first true in_range =
        after_scan flat d (length (drop (d.pos + 1) d.input)) _ _
          (scan_digits-Scanned t (drop (d.pos + 1) d.input))
          (λ ds short.
            checked_value-Advances t d (skip 1 d) true ds (omega arith) refl refl
              (omega (arith, length-drop (d.pos + 1) d.input)) low)
    go first false in_range =
        after_scan flat d (length (drop d.pos d.input)) _ _
          (scan_digits-Scanned t (drop d.pos d.input))
          (λ ds short.
            checked_value-Advances t d d false ds (omega arith) refl refl
              (omega (arith, length-drop d.pos d.input)) low)

-- An advance moves on by what is asked for, perhaps by nothing.
advance-Advances :
    (d e : Decoder) (n : ℕ) → Later d e → d.depth ≤ max_depth → Advances flat d (advance e n)
unfolding advance
advance-Advances d e n later low = elim (Bool-cases (leb usize_mod (e.pos + n))) [
  | inl e₁ ↦ rw e₁ (λ q. cc q)
  | inr e₁ ↦ elim (Bool-cases (ltb (length e.input) (e.pos + n))) [
    | inl e₂ ↦ rw (e₁, e₂) (λ q. cc q)
    | inr e₂ ↦
        let le = ltb_false→le (length e.input) (e.pos + n) e₂ in
        let len : length e.input ≡ length d.input = ap (λ (x : Bytes). length x) later.same_input in
        rw (e₁, e₂)
          (
            record {
              moved = omega (arith, later.moved);
              within = omega (arith, le, len);
              same_input = later.same_input;
              same_depth = later.same_depth;
            },
            omega arith,
          )
  ]
]

pub decode_bytes-Advances : (d : Decoder) → d.depth ≤ max_depth → Advances flat d (decode_bytes d)
unfolding decode_bytes
decode_bytes-Advances d low =
    bind-Advances flat flat d (parse_signed_until b':' d) bytes_of_len
      (parse_signed_until-Advances b':' d low) (λ i e later h. go i e later)
  where
    go : (i : ℤ) (e : Decoder) → Later d e → Advances flat d (bytes_of_len (i, e))
    go (pos n) e later = advance-Advances d e n later low
    go (negsuc n) e later = λ q. cc q
