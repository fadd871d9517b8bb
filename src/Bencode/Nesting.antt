-- ===== src/Bencode/Nesting.antt =====
-- src/bencode.rs: the depth is tested before a list or a dictionary is entered.
use bittorrent_rs.Prelude.{
  ℕ, zero, suc, ◌+◌, ◌*◌, ◌≤◌, ◌<◌, ◌^◌, ◌≡◌, refl, ap, ◌∙◌, ◌||◌, true, false, Option, none, some,
  List, [], ◌∷◌, ◌++◌, arith, length, length-append, append_assoc, leb, ◌==◌, Bool-cases, inl, inr,
  Bytes, leb_false→lt,
}
use bittorrent_rs.Bencode.{
  Decoder, no_entries, ok, err, too_deep, max_depth, new, new_lenient, skip, peek, decode_bytes,
  deeper, decode_value_on, decode_items, decode_entries, decode_value, decode_top_level, decode,
  decode_lenient, encode_bytes, ◌>>=◌,
}
use bittorrent_rs.Bencode.Numbers.{At, peek-At, skip-At, decimal-DigitFirst}
use bittorrent_rs.Bencode.RoundTrip.{decode_bytes-encode_bytes}

-- How lists begin, and dictionaries with a key.
abbrev pub openings : List (Option Bytes) → Bytes
openings [] = []
openings (none ∷ os) = b'l' ∷ openings os
openings (some key ∷ os) = b'd' ∷ (encode_bytes key ++ openings os)

length-openings : (os : List (Option Bytes)) → length os ≤ length (openings os)
length-openings [] = omega arith
length-openings (none ∷ os) = omega (arith, length-openings os)
length-openings (some key ∷ os) =
    omega (arith, length-openings os, length-append (encode_bytes key) (openings os))

module _ (fuel : ℕ) (d : Decoder) where
  refused :
      (tag : ℕ)
      → peek d ≡ ok tag
      → (tag == b'l' || tag == b'd') ≡ true
      → leb max_depth d.depth ≡ true
      → decode_value_on (suc fuel) d ≡ err too_deep
  unfolding decode_value_on
  refused tag e h deep = rw e (rw (h, ◌>>=◌) (rw deep refl))

  list_refused :
      peek d ≡ ok b'l'
      → leb max_depth d.depth ≡ false
      → decode_items fuel (deeper d) ≡ err too_deep
      → decode_value_on (suc fuel) d ≡ err too_deep
  unfolding decode_value_on decode_items
  list_refused e low h = rw e (rw (low, ◌>>=◌) (rw h refl))

  dict_refused :
      peek d ≡ ok b'd'
      → leb max_depth d.depth ≡ false
      → decode_entries fuel (deeper d) none no_entries ≡ err too_deep
      → decode_value_on (suc fuel) d ≡ err too_deep
  unfolding decode_value_on decode_entries
  dict_refused e low h = rw e (rw (low, ◌>>=◌) (rw h refl))

  item_refused :
      (tag : ℕ)
      → peek d ≡ ok tag
      → (tag == b'e') ≡ false
      → decode_value_on fuel d ≡ err too_deep
      → decode_items (suc fuel) d ≡ err too_deep
  unfolding decode_items decode_value_on
  item_refused tag e more h = rw e (rw (more, ◌>>=◌) (rw h refl))

  entry_refused :
      (tag : ℕ) (key : Bytes) (d₁ : Decoder)
      → peek d ≡ ok tag
      → (tag == b'e') ≡ false
      → decode_bytes d ≡ ok (key, d₁)
      → decode_value_on fuel d₁ ≡ err too_deep
      → decode_entries (suc fuel) d none no_entries ≡ err too_deep
  unfolding decode_entries decode_value_on
  entry_refused tag key d₁ e more h k = rw e (rw (more, ◌>>=◌) (rw h (rw (k, ◌>>=◌) refl)))

-- What begins a list or a dictionary is not its end.
opening_tag :
    (os : List (Option Bytes)) (d : Decoder) (bs : Bytes)
    → 0 < length os
    → At d (openings os ++ bs)
    → (tag : ℕ) × (peek d ≡ ok tag) × ((tag == b'e') ≡ false)
opening_tag [] d bs h e = absurd (omega (arith, h))
opening_tag (none ∷ os) d bs h e = (b'l', peek-At d b'l' (openings os ++ bs) e, refl)
opening_tag (some key ∷ os) d bs h e =
    (b'd', peek-At d b'd' ((encode_bytes key ++ openings os) ++ bs) e, refl)

-- The key of a dictionary is read, and the decoder is behind it.
key_read :
    (key : Bytes) (d : Decoder) (bs : Bytes)
    → length d.input < 2 ^ 63
    → At d (encode_bytes key ++ bs)
    → (tag : ℕ) × (peek d ≡ ok tag)
      × ((tag == b'e') ≡ false)
      × (decode_bytes d ≡ ok (key, skip (length (encode_bytes key)) d))
      × At (skip (length (encode_bytes key)) d) bs
key_read key d bs small e =
    let digit = decimal-DigitFirst 19 (length key) in
    let begins : At d (digit.first ∷ ((digit.rest ++ b':' ∷ key) ++ bs)) =
      e ∙ ap (λ ds. (ds ++ b':' ∷ key) ++ bs) digit.shape in
    (
      digit.first,
      peek-At d digit.first ((digit.rest ++ b':' ∷ key) ++ bs) begins,
      ground (arith, digit.is_digit),
      decode_bytes-encode_bytes d key bs small e,
      skip-At d (encode_bytes key) bs e,
    )

value_too_deep :
    (os : List (Option Bytes)) (fuel : ℕ) (d : Decoder) (bs : Bytes)
    → max_depth < d.depth + length os
    → d.depth ≤ max_depth
    → 2 * length os ≤ fuel
    → length d.input < 2 ^ 63
    → At d (openings os ++ bs)
    → decode_value_on fuel d ≡ err too_deep
value_too_deep [] fuel d bs deep low f small e = absurd (omega (arith, deep, low))
value_too_deep (o ∷ os) zero d bs deep low f small e = absurd (omega (arith, f))
value_too_deep (o ∷ os) (suc zero) d bs deep low f small e = absurd (omega (arith, f))
value_too_deep (none ∷ os) (suc (suc fuel)) d bs deep low f small e =
    let peeked = peek-At d b'l' (openings os ++ bs) e in
    elim (Bool-cases (leb max_depth d.depth)) [
      | inl full ↦ refused (suc fuel) d b'l' peeked refl full
      | inr room ↦
          let lt = leb_false→lt max_depth d.depth room in
          let inner : At (deeper d) (openings os ++ bs) =
            skip-At d (b'l' ∷ []) (openings os ++ bs) e in
          let below =
            value_too_deep os fuel (deeper d) bs (omega (arith, deep)) (omega (arith, lt))
              (omega (arith, f)) small inner in
          let (tag, next, more) = opening_tag os (deeper d) bs (omega (arith, deep, lt)) inner in
          list_refused (suc fuel) d peeked room (item_refused fuel (deeper d) tag next more below)
    ]
value_too_deep (some key ∷ os) (suc (suc fuel)) d bs deep low f small e =
    let after = encode_bytes key ++ openings os in
    let peeked = peek-At d b'd' (after ++ bs) e in
    elim (Bool-cases (leb max_depth d.depth)) [
      | inl full ↦ refused (suc fuel) d b'd' peeked refl full
      | inr room ↦
          let lt = leb_false→lt max_depth d.depth room in
          let inner : At (deeper d) (encode_bytes key ++ (openings os ++ bs)) =
            skip-At d (b'd' ∷ []) (after ++ bs) e
            ∙ append_assoc (encode_bytes key) (openings os) bs in
          let (tag, next, more, read, behind) =
            key_read key (deeper d) (openings os ++ bs) small inner in
          let below =
            value_too_deep os fuel (skip (length (encode_bytes key)) (deeper d)) bs
              (omega (arith, deep)) (omega (arith, lt)) (omega (arith, f)) small behind in
          dict_refused (suc fuel) d peeked room (
            entry_refused fuel (deeper d) tag key (skip (length (encode_bytes key)) (deeper d)) next
              more read below)
    ]

top_level_too_deep :
    (d : Decoder) (os : List (Option Bytes)) (bs : Bytes)
    → d.depth ≡ 0
    → d.pos ≡ 0
    → d.input ≡ openings os ++ bs
    → max_depth < length os
    → length d.input < 2 ^ 63
    → decode_top_level d ≡ err too_deep
unfolding decode_top_level decode_value
top_level_too_deep d os bs depth start input deep small =
    let size = ap (λ (xs : Bytes). length xs) input in
    let enough = length-openings os in
    let joined = length-append (openings os) bs in
    let refused =
      value_too_deep os (2 * length d.input + 1) d bs (omega (arith, deep, depth))
        (omega (arith, depth)) (omega (arith, size, enough, joined)) small (rw start input) in
    rw refused refl

-- An input of fewer than 2^63 bytes that begins with more than 100 lists and dictionaries, each within
-- the one before and each dictionary with a key, is refused as too deep, strictly and leniently,
-- whatever follows: the depth is tested before a list or a dictionary is entered, so that nothing
-- behind the 101st is read.
pub decode-openings :
    (os : List (Option Bytes)) (bs : Bytes)
    → max_depth < length os
    → length (openings os ++ bs) < 2 ^ 63
    → (decode (openings os ++ bs) ≡ err too_deep)
      × (decode_lenient (openings os ++ bs) ≡ err too_deep)
decode-openings os bs deep small = (
  top_level_too_deep (new (openings os ++ bs)) os bs refl refl refl deep small,
  top_level_too_deep (new_lenient (openings os ++ bs)) os bs refl refl refl deep small,
)
