-- ===== src/Bencode.antt =====
-- src/bencode.rs: the bencode decoder (BEP 3), with its depth limit, and the encoder. A decoder that
-- fails is not used again, so that an error carries no decoder.
pub mod Progress
pub mod Depth
pub mod Nesting
pub mod Numbers
pub mod RoundTrip
mod Examples
use bittorrent_rs.Prelude.{
  ℕ, zero, suc, ◌+◌, ◌-◌, ◌*◌, ◌/◌, ◌%◌, ◌^◌, Bool, true, false, not, ◌&&◌, ◌||◌, Option, none,
  some, List, [], ◌∷◌, ◌++◌, ltb, leb, ◌==◌, if◌then◌else◌, length, get_elem?, get_or, take, drop,
  Bytes, bytes_eq, usize_mod,
}

-- An i64: `negsuc n` is -(n + 1).
pub data ℤ : Type 0 where
  pos negsuc : ℕ → ℤ

-- A dictionary has its entries in the order of their keys.
mutual
  pub data Bencode : Type 0 where
    int : ℤ → Bencode
    bytes : Bytes → Bencode
    list : Items → Bencode
    dict : Entries → Bencode

  pub data Items : Type 0 where
    no_items : Items
    item : Bencode → Items → Items

  pub data Entries : Type 0 where
    no_entries : Entries
    entry : Bytes → Bencode → Entries → Entries

pub data DecodeError : Type 0 where
  too_deep unexpected_eof leading_zero unsorted_or_duplicate_key out_of_fuel : DecodeError
  invalid_digit invalid_tag trailing_garbage : ℕ → DecodeError
  length_mismatch : (expected remaining : ℕ) → DecodeError

pub data Result {ℓ} (A : Type ℓ) : Type ℓ where
  err : (failure : DecodeError) → Result A
  ok : (value : A) → Result A

infixl 5 ◌>>=◌
abbrev pub ◌>>=◌ {ℓ} : {A B : Type ℓ} → Result A → (A → Result B) → Result B
err failure >>= next = err failure
ok value >>= next = next value

pub record Decoder : Type 0 where
  pub input : Bytes
  pub pos : ℕ
  pub strict : Bool
  pub depth : ℕ

abbrev pub max_depth : ℕ
max_depth = 100

abbrev pub new : Bytes → Decoder
new input = record { input = input; pos = 0; strict = true; depth = 0 }

abbrev pub new_lenient : Bytes → Decoder
new_lenient input = record { input = input; pos = 0; strict = false; depth = 0 }

abbrev pub as_bytes : Bencode → Option Bytes
as_bytes (bytes b) = some b
as_bytes _ = none

abbrev pub as_int : Bencode → Option ℤ
as_int (int i) = some i
as_int _ = none

abbrev pub as_list : Bencode → Option Items
as_list (list l) = some l
as_list _ = none

abbrev pub as_dict : Bencode → Option Entries
as_dict (dict d) = some d
as_dict _ = none

abbrev pub lookup_entry : Bytes → Entries → Option Bencode
lookup_entry key no_entries = none
lookup_entry key (entry k v rest) = if bytes_eq k key then some v else lookup_entry key rest

abbrev pub get : Bencode → Bytes → Option Bencode
get (dict d) key = lookup_entry key d
get _ key = none

abbrev pub peek : Decoder → Result ℕ
peek d = elim (get_elem? d.input d.pos) [ none ↦ err unexpected_eof | some b ↦ ok b ]

abbrev pub skip : ℕ → Decoder → Decoder
skip n d = record d { pos = d.pos + n }

pub advance : Decoder → ℕ → Result (Bytes × Decoder)
advance d n =
    if leb usize_mod (d.pos + n)
    then err unexpected_eof
    else if ltb (length d.input) (d.pos + n)
    then err (length_mismatch n (length d.input - d.pos))
    else ok (take n (drop d.pos d.input), skip n d)

abbrev pub is_ascii_digit : ℕ → Bool
is_ascii_digit b = leb b'0' b && leb b b'9'

-- The digits up to the terminator.
pub scan_digits : ℕ → Bytes → Result Bytes
scan_digits terminator [] = err unexpected_eof
scan_digits terminator (b ∷ rest) =
    if b == terminator
    then ok []
    else if is_ascii_digit b
    then (scan_digits terminator rest >>= λ ds. ok (b ∷ ds))
    else err (invalid_digit b)

abbrev pub digits_value : ℕ → Bytes → ℕ
digits_value n [] = n
digits_value n (b ∷ bs) = digits_value (n * 10 + (b - b'0')) bs

-- `parse::<i64>`.
abbrev pub to_i64 : Bool → ℕ → Option ℤ
to_i64 negative zero = some (pos zero)
to_i64 true (suc n) = if leb (2 ^ 63) n then none else some (negsuc n)
to_i64 false (suc n) = if leb (2 ^ 63) (suc n) then none else some (pos (suc n))

-- Whether the digits are not canonical.
abbrev pub has_leading_zero : Bool → Bytes → Bool
has_leading_zero negative digits =
    (ltb 1 (length digits) && get_or digits 0 0 == b'0')
    || (bytes_eq digits (b'0' ∷ []) && negative)

abbrev pub checked_value : ℕ → Decoder → Bool → Bytes → Result (ℤ × Decoder)
checked_value terminator d negative digits =
    if leb (length digits) 0
    then err (invalid_digit terminator)
    else if has_leading_zero negative digits
    then err leading_zero
    else elim (to_i64 negative (digits_value 0 digits)) [
      | none ↦ err (invalid_digit terminator)
      | some i ↦ ok (i, skip (length digits + 1) d)
    ]

pub parse_signed_until : ℕ → Decoder → Result (ℤ × Decoder)
unfolding scan_digits
parse_signed_until terminator d = do
  first ← peek d
  let negative = first == b'-'
  let d₁ = if negative then skip 1 d else d
  digits ← scan_digits terminator (drop d₁.pos d₁.input)
  checked_value terminator d₁ negative digits

pub decode_int : Decoder → Result (ℤ × Decoder)
unfolding parse_signed_until
decode_int d = parse_signed_until b'e' (skip 1 d)

abbrev pub bytes_of_len : ℤ × Decoder → Result (Bytes × Decoder)
bytes_of_len (pos n, d) = advance d n
bytes_of_len (negsuc n, d) = err (invalid_digit b':')

pub decode_bytes : Decoder → Result (Bytes × Decoder)
unfolding parse_signed_until advance
decode_bytes d = parse_signed_until b':' d >>= bytes_of_len

-- The order of byte strings: whether the first is less.
abbrev pub bytes_lt : Bytes → Bytes → Bool
bytes_lt [] [] = false
bytes_lt [] (y ∷ ys) = true
bytes_lt (x ∷ xs) [] = false
bytes_lt (x ∷ xs) (y ∷ ys) = ltb x y || (x == y && bytes_lt xs ys)

-- `entry(key).or_insert(value)` of the ordered map.
abbrev pub or_insert : Bytes → Bencode → Entries → Entries
or_insert key value no_entries = entry key value no_entries
or_insert key value (entry k v rest) =
    if bytes_eq k key
    then entry k v rest
    else if bytes_lt key k
    then entry key value (entry k v rest)
    else entry k v (or_insert key value rest)

-- Whether strict mode refuses the key after the last one.
abbrev pub out_of_order : Bool → Option Bytes → Bytes → Bool
out_of_order strict none key = false
out_of_order strict (some prev) key = strict && not (bytes_lt prev key)

abbrev pub scalar : ℕ → Decoder → Result (Bencode × Decoder)
scalar tag d =
    if tag == b'i'
    then (decode_int d >>= λ (i, d'). ok (int i, d'))
    else if is_ascii_digit tag
    then (decode_bytes d >>= λ (b, d'). ok (bytes b, d'))
    else err (invalid_tag tag)

abbrev pub deeper : Decoder → Decoder
deeper d = record d { pos = d.pos + 1; depth = suc d.depth }

abbrev pub shallower : Decoder → Decoder
shallower d = record d { depth = d.depth - 1 }

-- The recursion and the two loops, on fuel.
mutual
  pub decode_value_on : ℕ → Decoder → Result (Bencode × Decoder)
  decode_value_on zero d = err out_of_fuel
  decode_value_on (suc fuel) d = peek d >>= λ tag. elim (tag == b'l' || tag == b'd') [
    | false ↦ scalar tag d
    | true ↦ elim (leb max_depth d.depth) [
      | true ↦ err too_deep
      | false ↦ elim (tag == b'l') [
        | true ↦ decode_items fuel (deeper d) >>= λ (items, d'). ok (list items, shallower d')
        | false ↦ decode_entries fuel (deeper d) none no_entries >>= λ (entries, d').
            ok (dict entries, shallower d')
      ]
    ]
  ]

  pub decode_items : ℕ → Decoder → Result (Items × Decoder)
  decode_items zero d = err out_of_fuel
  decode_items (suc fuel) d = peek d >>= λ tag. elim (tag == b'e') [
    | true ↦ ok (no_items, skip 1 d)
    | false ↦ decode_value_on fuel d >>= λ (value, d₁).
        decode_items fuel d₁ >>= λ (items, d₂). ok (item value items, d₂)
  ]

  pub decode_entries : ℕ → Decoder → Option Bytes → Entries → Result (Entries × Decoder)
  decode_entries zero d last_key map = err out_of_fuel
  decode_entries (suc fuel) d last_key map = peek d >>= λ tag. elim (tag == b'e') [
    | true ↦ ok (map, skip 1 d)
    | false ↦ decode_bytes d >>= λ (key, d₁). elim (out_of_order d.strict last_key key) [
      | true ↦ err unsorted_or_duplicate_key
      | false ↦ decode_value_on fuel d₁ >>= λ (value, d₂).
          decode_entries fuel d₂ (some key) (or_insert key value map)
    ]
  ]

-- Each byte is met by at most two turns of the recursion and its loops, so this fuel is enough.
pub decode_value : Decoder → Result (Bencode × Decoder)
unfolding decode_value_on
decode_value d = decode_value_on (2 * length d.input + 1) d

abbrev pub at_end : Bencode × Decoder → Result Bencode
at_end (value, d) = if d.pos == length d.input then ok value else err (trailing_garbage d.pos)

pub decode_top_level : Decoder → Result Bencode
unfolding decode_value
decode_top_level d = decode_value d >>= at_end

-- The value, the span of its bytes, and the decoder after it.
pub decode_value_with_span : Decoder → Result ((Bencode × (ℕ × ℕ)) × Decoder)
unfolding decode_value
decode_value_with_span d = decode_value d >>= λ (value, d'). ok ((value, (d.pos, d'.pos)), d')

abbrev pub decode : Bytes → Result Bencode
decode input = decode_top_level (new input)

abbrev pub decode_lenient : Bytes → Result Bencode
decode_lenient input = decode_top_level (new_lenient input)

-- `to_string` of a number below 2 ^ 64, which has at most 20 digits.
abbrev pub decimal : ℕ → ℕ → Bytes
decimal zero n = (b'0' + n % 10) ∷ []
decimal (suc fuel) n =
    let rest = decimal fuel (n / 10) in
    if ltb n 10 then (b'0' + n) ∷ [] else rest ++ (b'0' + n % 10) ∷ []

abbrev pub int_text : ℤ → Bytes
int_text (pos n) = decimal 19 n
int_text (negsuc n) = b'-' ∷ decimal 19 (suc n)

abbrev pub encode_bytes : Bytes → Bytes
encode_bytes b = decimal 19 (length b) ++ b':' ∷ b

unfoldable mutual
  pub encode : Bencode → Bytes
  encode (int i) = b'i' ∷ (int_text i ++ b'e' ∷ [])
  encode (bytes b) = encode_bytes b
  encode (list items) = b'l' ∷ (encode_items items ++ b'e' ∷ [])
  encode (dict entries) = b'd' ∷ (encode_entries entries ++ b'e' ∷ [])

  pub encode_items : Items → Bytes
  encode_items no_items = []
  encode_items (item value items) = encode value ++ encode_items items

  pub encode_entries : Entries → Bytes
  encode_entries no_entries = []
  encode_entries (entry key value entries) =
      encode_bytes key ++ (encode value ++ encode_entries entries)
