-- ===== src/Bencode/RoundTrip/Values.antt =====
-- src/bencode.rs: a value of any shape is decoded from what it is encoded as.
use bittorrent_rs.Prelude.{
  ℕ, zero, suc, ◌+◌, ◌-◌, ◌^◌, ◌≤◌, ◌<◌, ◌≡◌, refl, sym, ap, ◌∙◌, Bool, true, false, Option, some,
  none, [], ◌∷◌, ◌++◌, arith, leb, ◌==◌, length, append_assoc, length-append, Bytes, gt→leb_false,
}
use bittorrent_rs.Bencode.{
  ℤ, Bencode, Items, Entries, int, bytes, list, dict, no_items, item, no_entries, entry, ok,
  Decoder, max_depth, peek, skip, decode_int, deeper, shallower, out_of_order, decode_value_on,
  decode_items, decode_entries, int_text, encode_bytes, encode, encode_items, encode_entries,
  bytes_lt,
}
use bittorrent_rs.Bencode.Depth.{height, items_height, entries_height}
use bittorrent_rs.Bencode.Numbers.{
  At, InRange, peek-At, skip-At, skip-skip, parse_signed_until-int_text, decimal-DigitFirst,
}
use bittorrent_rs.Bencode.RoundTrip.{decode_bytes-encode_bytes}
use bittorrent_rs.Bencode.RoundTrip.Steps.{
  digit_step, list_step, dict_step, end_items, item_step, end_entries, entry_step,
}
use bittorrent_rs.Bencode.RoundTrip.Keys.{
  Below, join, join-none, join_assoc, or_insert-Below, Below-join,
}

-- Whether a key is after the last one.
abbrev Follows : Option Bytes → Bytes → Type 0
Follows none key = Unit
Follows (some last) key = bytes_lt last key ≡ true

-- What the program makes: integers of 64 bits, and dictionaries in the order of their keys.
unfoldable mutual
  pub IsEncodable : Bencode → Type 0
  IsEncodable (int i) = InRange i
  IsEncodable (bytes b) = Unit
  IsEncodable (list items) = AreEncodable items
  IsEncodable (dict pairs) = InKeyOrder none pairs

  pub AreEncodable : Items → Type 0
  AreEncodable no_items = Unit
  AreEncodable (item value items) = IsEncodable value × AreEncodable items

  pub InKeyOrder : Option Bytes → Entries → Type 0
  InKeyOrder last no_entries = Unit
  InKeyOrder last (entry key value pairs) =
      Follows last key × IsEncodable value × InKeyOrder (some key) pairs

-- Bytes that do not begin with the end of a list.
record Begins (xs : Bytes) : Type 0 where
  first : ℕ
  rest : Bytes
  shape : xs ≡ first ∷ rest
  goes_on : (first == b'e') ≡ false

encode_bytes-Begins : (b : Bytes) → Begins (encode_bytes b)
encode_bytes-Begins b =
    let d = decimal-DigitFirst 19 (length b) in
    record {
      first = d.first;
      rest = d.rest ++ b':' ∷ b;
      shape = ap (λ ds. ds ++ b':' ∷ b) d.shape;
      goes_on = ground (arith, d.is_digit);
    }

encode-Begins : (value : Bencode) → Begins (encode value)
unfolding encode
encode-Begins (int i) = record {
  first = b'i';
  rest = int_text i ++ b'e' ∷ [];
  shape = refl;
  goes_on = refl;
}
encode-Begins (bytes b) = encode_bytes-Begins b
encode-Begins (list items) = record {
  first = b'l';
  rest = encode_items items ++ b'e' ∷ [];
  shape = refl;
  goes_on = refl;
}
encode-Begins (dict pairs) = record {
  first = b'd';
  rest = encode_entries pairs ++ b'e' ∷ [];
  shape = refl;
  goes_on = refl;
}

Begins-length : (xs : Bytes) → Begins xs → 0 < length xs
Begins-length xs b = rw b.shape (omega arith)

Begins-peek : (d : Decoder) (xs bs : Bytes) (b : Begins xs) → At d (xs ++ bs) → peek d ≡ ok b.first
Begins-peek d xs bs b e = peek-At d b.first (b.rest ++ bs) (e ∙ ap (λ ys. ys ++ bs) b.shape)

decode_int-encode :
    (i : ℤ) (d : Decoder) (bs : Bytes)
    → InRange i
    → At d ((b'i' ∷ (int_text i ++ b'e' ∷ [])) ++ bs)
    → decode_int d ≡ ok (i, skip (length (int_text i ++ b'e' ∷ []) + 1) d)
unfolding decode_int
decode_int-encode i d bs r e =
    let inner = skip-At d (b'i' ∷ []) ((int_text i ++ b'e' ∷ []) ++ bs) e in
    let parsed =
      parse_signed_until-int_text b'e' (skip 1 d) i bs refl r
        (inner ∙ append_assoc (int_text i) (b'e' ∷ []) bs) in
    let len : 1 + (length (int_text i) + 1) ≡ length (int_text i ++ b'e' ∷ []) + 1 =
      omega (arith, length-append (int_text i) (b'e' ∷ [])) in
    parsed ∙ ap (λ f. ok (i, f)) (skip-skip 1 (length (int_text i) + 1) _ d len)

-- The value at the decoder is read, and no more.
abbrev Reads : ℕ → Decoder → Bencode → Type 0
Reads fuel d value = decode_value_on fuel d ≡ ok (value, skip (length (encode value)) d)

int-Reads :
    (i : ℤ) (fuel : ℕ) (d : Decoder) (bs : Bytes)
    → InRange i
    → At d (encode (int i) ++ bs)
    → Reads (suc fuel) d (int i)
unfolding decode_value_on encode
int-Reads i fuel d bs r e =
    let peeked = peek-At d b'i' ((int_text i ++ b'e' ∷ []) ++ bs) e in
    let read = decode_int-encode i d bs r e in
    let len : length (int_text i ++ b'e' ∷ []) + 1 ≡ suc (length (int_text i ++ b'e' ∷ [])) =
      omega arith in
    rw (peeked, read) (ap (λ n. ok (int i, skip n d)) len)

bytes-Reads :
    (b : Bytes) (fuel : ℕ) (d : Decoder) (bs : Bytes)
    → length d.input < 2 ^ 63
    → At d (encode (bytes b) ++ bs)
    → Reads (suc fuel) d (bytes b)
unfolding decode_value_on encode
bytes-Reads b fuel d bs small e =
    let digit = decimal-DigitFirst 19 (length b) in
    let begins : At d (digit.first ∷ ((digit.rest ++ b':' ∷ b) ++ bs)) =
      e ∙ ap (λ ds. (ds ++ b':' ∷ b) ++ bs) digit.shape in
    let peeked = peek-At d digit.first ((digit.rest ++ b':' ∷ b) ++ bs) begins in
    let read = decode_bytes-encode_bytes d b bs small e in
    digit_step fuel d digit.first digit.is_digit peeked ∙ rw read refl

shallower-skip : (n : ℕ) (d : Decoder) → shallower (skip n (deeper d)) ≡ skip (suc n) d
shallower-skip n d =
    let at : d.pos + 1 + n ≡ d.pos + suc n = omega arith in
    let up : suc d.depth - 1 ≡ d.depth = omega arith in rw (at, up) refl

-- A key may follow those that are in the map.
abbrev Fits : Option Bytes → Entries → Entries → Type 0
Fits last map no_entries = Unit
Fits last map (entry key value pairs) = Below key map

in_order :
    (strict : Bool) (last : Option Bytes) (key : Bytes)
    → Follows last key
    → out_of_order strict last key ≡ false
in_order strict none key h = refl
in_order strict (some last) key h = ground (arith, h)

three_skips : (d : Decoder) (a b c n : ℕ) → a + b + c ≡ n → skip c (skip b (skip a d)) ≡ skip n d
three_skips d a b c n e = ap (skip c) (skip-skip a b (a + b) d refl) ∙ skip-skip (a + b) c n d e

nothing_below : (pairs : Entries) → Fits none no_entries pairs
nothing_below no_entries = tt
nothing_below (entry key value pairs) = tt

Fits-next :
    (key : Bytes) (value : Bencode) (map pairs : Entries)
    → Below key map
    → InKeyOrder (some key) pairs
    → Fits (some key) (join map (entry key value no_entries)) pairs
unfolding InKeyOrder
Fits-next key value map no_entries below h = tt
Fits-next key value map (entry next v pairs) below h = Below-join key next value map h.0 below

mutual
  unfolding encode height IsEncodable

  pub value-Reads :
      (value : Bencode) (fuel : ℕ) (d : Decoder) (bs : Bytes)
      → IsEncodable value
      → length (encode value) ≤ fuel
      → height value + d.depth ≤ max_depth
      → length d.input < 2 ^ 63
      → At d (encode value ++ bs)
      → Reads fuel d value
  value-Reads value zero d bs v f low small e =
      absurd (omega (arith, f, Begins-length (encode value) (encode-Begins value)))
  value-Reads (int i) (suc fuel) d bs v f low small e = int-Reads i fuel d bs v e
  value-Reads (bytes b) (suc fuel) d bs v f low small e = bytes-Reads b fuel d bs small e
  value-Reads (list items) (suc fuel) d bs v f low small e =
      let peeked = peek-At d b'l' ((encode_items items ++ b'e' ∷ []) ++ bs) e in
      let inner = skip-At d (b'l' ∷ []) ((encode_items items ++ b'e' ∷ []) ++ bs) e in
      let len = length-append (encode_items items) (b'e' ∷ []) in
      let read =
        items-Reads items fuel (deeper d) bs v (omega (arith, f, len)) (omega (arith, low)) small
          (inner ∙ append_assoc (encode_items items) (b'e' ∷ []) bs) in
      let shallow : leb max_depth d.depth ≡ false =
        gt→leb_false max_depth d.depth (omega (arith, low)) in
      list_step fuel d items _ peeked shallow read
      ∙ ap (λ f. ok (list items, f)) (shallower-skip (length (encode_items items) + 1) d)
      ∙ ap (λ n. ok (list items, skip (suc n) d)) (sym len)
  value-Reads (dict pairs) (suc fuel) d bs v f low small e =
      let peeked = peek-At d b'd' ((encode_entries pairs ++ b'e' ∷ []) ++ bs) e in
      let inner = skip-At d (b'd' ∷ []) ((encode_entries pairs ++ b'e' ∷ []) ++ bs) e in
      let len = length-append (encode_entries pairs) (b'e' ∷ []) in
      let read =
        entries-Reads pairs fuel (deeper d) none no_entries bs v (nothing_below pairs)
          (omega (arith, f, len)) (omega (arith, low)) small
          (inner ∙ append_assoc (encode_entries pairs) (b'e' ∷ []) bs) in
      let shallow : leb max_depth d.depth ≡ false =
        gt→leb_false max_depth d.depth (omega (arith, low)) in
      dict_step fuel d pairs _ peeked shallow read
      ∙ ap (λ f. ok (dict pairs, f)) (shallower-skip (length (encode_entries pairs) + 1) d)
      ∙ ap (λ n. ok (dict pairs, skip (suc n) d)) (sym len)

  pub items-Reads :
      (items : Items) (fuel : ℕ) (d : Decoder) (bs : Bytes)
      → AreEncodable items
      → length (encode_items items) < fuel
      → items_height items + d.depth ≤ max_depth
      → length d.input < 2 ^ 63
      → At d (encode_items items ++ b'e' ∷ bs)
      → decode_items fuel d ≡ ok (items, skip (length (encode_items items) + 1) d)
  items-Reads items zero d bs v f low small e = absurd (omega (arith, f))
  items-Reads no_items (suc fuel) d bs v f low small e = end_items fuel d (peek-At d b'e' bs e)
  items-Reads (item value items) (suc fuel) d bs v f low small e =
      let begins = encode-Begins value in
      let whole = length-append (encode value) (encode_items items) in
      let e' : At d (encode value ++ (encode_items items ++ b'e' ∷ bs)) =
        e ∙ append_assoc (encode value) (encode_items items) (b'e' ∷ bs) in
      let d₁ = skip (length (encode value)) d in
      let first =
        value-Reads value fuel d (encode_items items ++ b'e' ∷ bs) v.0 (omega (arith, f, whole))
          (omega (arith, low)) small e' in
      let rest =
        items-Reads items fuel d₁ bs v.1
          (omega (arith, f, whole, Begins-length (encode value) begins)) (omega (arith, low)) small
          (skip-At d (encode value) (encode_items items ++ b'e' ∷ bs) e') in
      let moved =
        skip-skip (length (encode value)) (length (encode_items items) + 1)
          (length (encode value ++ encode_items items) + 1) d (omega (arith, whole)) in
      item_step fuel d begins.first value items d₁ _
        (Begins-peek d (encode value) (encode_items items ++ b'e' ∷ bs) begins e') begins.goes_on
        first rest
      ∙ ap (λ f. ok (item value items, f)) moved

  -- The entries are added to those that are in the map.
  pub entries-Reads :
      (pairs : Entries) (fuel : ℕ) (d : Decoder) (last : Option Bytes) (map : Entries) (bs : Bytes)
      → InKeyOrder last pairs
      → Fits last map pairs
      → length (encode_entries pairs) < fuel
      → entries_height pairs + d.depth ≤ max_depth
      → length d.input < 2 ^ 63
      → At d (encode_entries pairs ++ b'e' ∷ bs)
      → decode_entries fuel d last map
        ≡ ok (join map pairs, skip (length (encode_entries pairs) + 1) d)
  entries-Reads pairs zero d last map bs v fit f low small e = absurd (omega (arith, f))
  entries-Reads no_entries (suc fuel) d last map bs v fit f low small e =
      end_entries fuel d last map (peek-At d b'e' bs e)
      ∙ ap (λ m. ok (m, skip 1 d)) (sym (join-none map))
  entries-Reads (entry key value pairs) (suc fuel) d last map bs v fit f low small e =
      let begins = encode_bytes-Begins key in
      let tail = encode_entries pairs ++ b'e' ∷ bs in
      let keyed = length-append (encode_bytes key) (encode value ++ encode_entries pairs) in
      let valued = length-append (encode value) (encode_entries pairs) in
      let e₁ : At d (encode_bytes key ++ (encode value ++ tail)) =
        e
        ∙ (append_assoc (encode_bytes key) (encode value ++ encode_entries pairs) (b'e' ∷ bs)
            ∙ ap (◌++◌ (encode_bytes key))
                (append_assoc (encode value) (encode_entries pairs) (b'e' ∷ bs))) in
      let d₁ = skip (length (encode_bytes key)) d in
      let e₂ : At d₁ (encode value ++ tail) =
        skip-At d (encode_bytes key) (encode value ++ tail) e₁ in
      let d₂ = skip (length (encode value)) d₁ in
      let d₃ = skip (length (encode_entries pairs) + 1) d₂ in
      let read_key = decode_bytes-encode_bytes d key (encode value ++ tail) small e₁ in
      let read_value =
        value-Reads value fuel d₁ tail v.1 (omega (arith, f, keyed, valued)) (omega (arith, low))
          small e₂ in
      let rest =
        entries-Reads pairs fuel d₂ (some key) (join map (entry key value no_entries)) bs v.2
          (Fits-next key value map pairs fit v.2)
          (omega (arith, f, keyed, valued, Begins-length (encode_bytes key) begins))
          (omega (arith, low)) small (skip-At d₁ (encode value) tail e₂) in
      entry_step fuel d last map begins.first key value d₁ d₂
        (Begins-peek d (encode_bytes key) (encode value ++ tail) begins e₁) begins.goes_on read_key
        (in_order d.strict last key v.0) read_value
      ∙ (ap (decode_entries fuel d₂ (some key)) (or_insert-Below key value map fit)
          ∙ (rest
              ∙ (ap (λ m. ok (m, d₃)) (join_assoc map (entry key value no_entries) pairs)
                  ∙ ap (λ f. ok (join map (entry key value pairs), f))
                      (three_skips d (length (encode_bytes key)) (length (encode value))
                        (length (encode_entries pairs) + 1)
                        (length (encode_bytes key ++ (encode value ++ encode_entries pairs)) + 1)
                        (omega (arith, keyed, valued))))))
