-- ===== src/Bencode/Numbers.antt =====
-- src/bencode.rs: a number is read back from its decimal digits.
use bittorrent_rs.Prelude.{
  ℕ, zero, suc, ◌+◌, ◌-◌, ◌*◌, ◌/◌, ◌%◌, ◌^◌, ◌<◌, ◌≡◌, refl, sym, ap, ◌∙◌, Bool, true, false, some,
  [], ◌∷◌, ◌++◌, arith, ltb, leb, ◌==◌, if◌then◌else◌, length, get_elem?, get_or, drop, drop-drop,
  drop-append, length-append, All, All-append, Bool-cases, inl, inr, Bytes, ltb_false→le,
  get_or-append_lt, ==_refl, gt→leb_false,
}
use bittorrent_rs.Bencode.{
  ℤ, pos, negsuc, ok, Decoder, peek, skip, is_ascii_digit, scan_digits, digits_value, to_i64,
  has_leading_zero, checked_value, parse_signed_until, decimal, int_text,
}

-- The decoder is before these bytes.
abbrev pub At : Decoder → Bytes → Type 0
At d bs = drop d.pos d.input ≡ bs

abbrev IsDigit : ℕ → Type 0
IsDigit b = is_ascii_digit b ≡ true

-- One more than the greatest number that `decimal` writes with this fuel.
abbrev capacity : ℕ → ℕ
capacity zero = 10
capacity (suc fuel) = 10 * capacity fuel

decimal-IsDigit : (fuel n : ℕ) → All IsDigit (decimal fuel n)
decimal-IsDigit zero n = (ground arith, tt)
decimal-IsDigit (suc fuel) n = elim (Bool-cases (ltb n 10)) [
  | inl e ↦ rw e (ground arith, tt)
  | inr e ↦ rw e (
      All-append IsDigit (decimal fuel (n / 10)) ((b'0' + n % 10) ∷ [])
        (decimal-IsDigit fuel (n / 10)) (ground arith, tt))
]

digits_value-append :
    (a : ℕ) (ds : Bytes) (b : ℕ)
    → digits_value a (ds ++ b ∷ []) ≡ digits_value a ds * 10 + (b - b'0')
digits_value-append a [] b = refl
digits_value-append a (d ∷ ds) b = digits_value-append (a * 10 + (d - b'0')) ds b

digits_value-decimal : (fuel n : ℕ) → n < capacity fuel → digits_value 0 (decimal fuel n) ≡ n
digits_value-decimal zero n h = omega (arith, h)
digits_value-decimal (suc fuel) n h = elim (Bool-cases (ltb n 10)) [
  | inl e ↦ rw e (omega arith)
  | inr e ↦
      let value = digits_value-decimal fuel (n / 10) (omega (arith, h)) in
      let last = digits_value-append 0 (decimal fuel (n / 10)) (b'0' + n % 10) in
      rw e (omega (arith, value, last))
]

length-decimal_pos : (fuel n : ℕ) → 0 < length (decimal fuel n)
length-decimal_pos zero n = omega arith
length-decimal_pos (suc fuel) n =
    let longer = length-append (decimal fuel (n / 10)) ((b'0' + n % 10) ∷ []) in
    ground (arith, longer)

-- The first digit of a number that is not 0 is not 0.
first_digit :
    (fuel n : ℕ) → 0 < n → n < capacity fuel → (get_or (decimal fuel n) 0 0 == b'0') ≡ false
first_digit zero n p h = ground arith
first_digit (suc fuel) n p h = elim (Bool-cases (ltb n 10)) [
  | inl e ↦ rw e (ground arith)
  | inr e ↦
      let big = ltb_false→le n 10 e in
      let same =
        get_or-append_lt (decimal fuel (n / 10)) ((b'0' + n % 10) ∷ []) 0 0
          (length-decimal_pos fuel (n / 10)) in
      rw (e, same) (first_digit fuel (n / 10) (omega (arith, big)) (omega (arith, h)))
]

scan_digits-decimal :
    (terminator : ℕ) (ds bs : Bytes)
    → is_ascii_digit terminator ≡ false
    → All IsDigit ds
    → scan_digits terminator (ds ++ terminator ∷ bs) ≡ ok ds
unfolding scan_digits
scan_digits-decimal t [] bs h a = rw (==_refl t) refl
scan_digits-decimal t (d ∷ ds) bs h a =
    let other : (d == t) ≡ false = ground (arith, h, a.0) in
    rw (other, a.0, scan_digits-decimal t ds bs h a.1) refl

-- The digits that a number is written with.
pub record Canonical (ds : Bytes) (n : ℕ) : Type 0 where
  pub digits : All IsDigit ds
  pub value : digits_value 0 ds ≡ n
  pub some_digits : 0 < length ds
  pub no_zero_first : 0 < n → (get_or ds 0 0 == b'0') ≡ false
  pub one_zero : n ≡ 0 → length ds ≡ 1

pub decimal-Canonical : (fuel n : ℕ) → n < capacity (suc fuel) → Canonical (decimal (suc fuel) n) n
decimal-Canonical fuel n h = record {
  digits = decimal-IsDigit (suc fuel) n;
  value = digits_value-decimal (suc fuel) n h;
  some_digits = length-decimal_pos (suc fuel) n;
  no_zero_first = λ p. first_digit (suc fuel) n p h;
  one_zero = λ z. rw z refl;
}

no_leading_zero :
    (negative : Bool) (ds : Bytes) (n : ℕ)
    → Canonical ds n
    → (negative ≡ true → 0 < n)
    → has_leading_zero negative ds ≡ false
no_leading_zero negative [] n c p = absurd (omega (arith, c.some_digits))
no_leading_zero negative (d ∷ []) n c p = ground (arith, c.no_zero_first, p)
no_leading_zero negative (d ∷ e ∷ ds) n c p = ground (arith, c.no_zero_first, c.one_zero)

checked_value-Canonical :
    (terminator : ℕ) (d : Decoder) (negative : Bool) (ds : Bytes) (n : ℕ) (i : ℤ)
    → Canonical ds n
    → (negative ≡ true → 0 < n)
    → to_i64 negative n ≡ some i
    → checked_value terminator d negative ds ≡ ok (i, skip (length ds + 1) d)
checked_value-Canonical t d negative ds n i c p e =
    let some_digits : leb (length ds) 0 ≡ false = gt→leb_false (length ds) 0 c.some_digits in
    rw (some_digits, no_leading_zero negative ds n c p, c.value, e) refl

to_pos : (n : ℕ) → n < 2 ^ 63 → to_i64 false n ≡ some (pos n)
to_pos zero h = refl
to_pos (suc n) h = rw (gt→leb_false (2 ^ 63) (suc n) h) refl

to_neg : (n : ℕ) → n < 2 ^ 63 → to_i64 true (suc n) ≡ some (negsuc n)
to_neg n h = rw (gt→leb_false (2 ^ 63) n h) refl

abbrev pub InRange : ℤ → Type 0
InRange (pos n) = n < 2 ^ 63
InRange (negsuc n) = n < 2 ^ 63

get_elem?-drop : (xs : Bytes) (i b : ℕ) (bs : Bytes) → drop i xs ≡ b ∷ bs → get_elem? xs i ≡ some b
get_elem?-drop [] zero b bs e = cc e
get_elem?-drop [] (suc i) b bs e = cc e
get_elem?-drop (x ∷ xs) zero b bs e = ap (λ ys. get_elem? ys 0) e
get_elem?-drop (x ∷ xs) (suc i) b bs e = get_elem?-drop xs i b bs e

pub peek-At : (d : Decoder) (b : ℕ) (bs : Bytes) → At d (b ∷ bs) → peek d ≡ ok b
peek-At d b bs e = rw (get_elem?-drop d.input d.pos b bs e, peek) refl

pub skip-At : (d : Decoder) (xs bs : Bytes) → At d (xs ++ bs) → At (skip (length xs) d) bs
skip-At d xs bs e =
    sym (drop-drop d.pos (length xs) d.input)
    ∙ (ap (drop (length xs)) e ∙ drop-append xs bs (length xs) refl)

pub skip-skip : (n m k : ℕ) (d : Decoder) → n + m ≡ k → skip m (skip n d) ≡ skip k d
skip-skip n m k d e = let at : d.pos + n + m ≡ d.pos + k = omega (arith, e) in rw at refl

-- A number without a sign, and one with it.
pub parse_pos :
    (terminator : ℕ) (d : Decoder) (ds : Bytes) (n : ℕ) (bs : Bytes)
    → is_ascii_digit terminator ≡ false
    → n < 2 ^ 63
    → Canonical ds n
    → At d (ds ++ terminator ∷ bs)
    → parse_signed_until terminator d ≡ ok (pos n, skip (length ds + 1) d)
unfolding parse_signed_until
parse_pos t d [] n bs h r c e = absurd (omega (arith, c.some_digits))
parse_pos t d (b ∷ ds) n bs h r c e =
    let peeked = peek-At d b (ds ++ t ∷ bs) e in
    let unsigned : (b == b'-') ≡ false = ground (arith, c.digits.0) in
    let scanned = scan_digits-decimal t (b ∷ ds) bs h c.digits in
    let d₁ = if b == b'-' then skip 1 d else d in
    let same : d₁ ≡ d = rw unsigned refl in
    let checked =
      checked_value-Canonical t d₁ false (b ∷ ds) n (pos n) c (λ q. cc q) (to_pos n r) in
    simp (peeked, unsigned, e, scanned)
      (checked ∙ ap (λ f. ok (pos n, skip (length (b ∷ ds) + 1) f)) same)

parse_neg :
    (terminator : ℕ) (d : Decoder) (ds : Bytes) (n : ℕ) (bs : Bytes)
    → is_ascii_digit terminator ≡ false
    → n < 2 ^ 63
    → Canonical ds (suc n)
    → At d (b'-' ∷ ds ++ terminator ∷ bs)
    → parse_signed_until terminator d ≡ ok (negsuc n, skip (suc (length ds) + 1) d)
unfolding parse_signed_until
parse_neg t d ds n bs h r c e =
    let peeked = peek-At d b'-' (ds ++ t ∷ bs) e in
    let inner = skip-At d (b'-' ∷ []) (ds ++ t ∷ bs) e in
    let scanned = scan_digits-decimal t ds bs h c.digits in
    let moved = skip-skip 1 (length ds + 1) (suc (length ds) + 1) d (omega arith) in
    let checked =
      checked_value-Canonical t (skip 1 d) true ds (suc n) (negsuc n) c (λ q. omega arith)
        (to_neg n r) in
    rw (peeked, inner, scanned) (checked ∙ ap (λ f. ok (negsuc n, f)) moved)

pub parse_signed_until-int_text :
    (terminator : ℕ) (d : Decoder) (i : ℤ) (bs : Bytes)
    → is_ascii_digit terminator ≡ false
    → InRange i
    → At d (int_text i ++ terminator ∷ bs)
    → parse_signed_until terminator d ≡ ok (i, skip (length (int_text i) + 1) d)
parse_signed_until-int_text t d (negsuc n) bs h r e =
    parse_neg t d (decimal 19 (suc n)) n bs h r (decimal-Canonical 18 (suc n) (omega (arith, r))) e
parse_signed_until-int_text t d (pos n) bs h r e =
    parse_pos t d (decimal 19 n) n bs h r (decimal-Canonical 18 n (omega (arith, r))) e

-- Bytes that begin with a digit.
pub record DigitFirst (ds : Bytes) : Type 0 where
  pub first : ℕ
  pub rest : Bytes
  pub shape : ds ≡ first ∷ rest
  pub is_digit : is_ascii_digit first ≡ true

digit_first : (ds : Bytes) → All IsDigit ds → 0 < length ds → DigitFirst ds
digit_first [] a h = absurd (omega (arith, h))
digit_first (d ∷ ds) a h = record { first = d; rest = ds; shape = refl; is_digit = a.0 }

pub decimal-DigitFirst : (fuel n : ℕ) → DigitFirst (decimal fuel n)
decimal-DigitFirst fuel n =
    digit_first (decimal fuel n) (decimal-IsDigit fuel n) (length-decimal_pos fuel n)
