-- ===== src/Bencode/RoundTrip.antt =====
-- src/bencode.rs: what is encoded is decoded to the same value.
pub mod Keys
pub mod Steps
pub mod Values
pub mod Decode
use bittorrent_rs.Prelude.{
  ℕ, zero, suc, ◌+◌, ◌-◌, ◌*◌, ◌^◌, ◌≤◌, ◌<◌, ◌≡◌, refl, sym, ap, ◌∙◌, Bool, true, false, not, ◌&&◌,
  ◌||◌, Option, some, none, List, [], ◌∷◌, ◌++◌, arith, ltb, leb, ◌==◌, if◌then◌else◌, length, drop,
  take, drop-drop, drop-append, take-append, length-append, length-drop, append_assoc, append-nil,
  Bool-cases, inl, inr, Bytes, usize_mod, max, ge→ltb_false, gt→leb_false, ==_refl,
}
use bittorrent_rs.Bencode.{
  ℤ, pos, negsuc, Bencode, Items, Entries, int, bytes, list, dict, no_items, item, no_entries,
  entry, Result, ok, err, Decoder, new, new_lenient, max_depth, peek, skip, advance, is_ascii_digit,
  parse_signed_until, decode_int, bytes_of_len, decode_bytes, scalar, deeper, shallower,
  out_of_order, or_insert, decode_value_on, decode_items, decode_entries, decode_value, at_end,
  decode_top_level, decode, decode_lenient, decimal, int_text, encode_bytes, encode, encode_items,
  encode_entries, ◌>>=◌,
}
use bittorrent_rs.Bencode.Depth.{height, items_height, entries_height}
use bittorrent_rs.Bencode.Numbers.{
  At, Canonical, decimal-Canonical, InRange, peek-At, skip-At, skip-skip, parse_pos,
  parse_signed_until-int_text,
}

-- What is left of the input is as long as it is.
pub At-length : (d : Decoder) (xs : Bytes) → At d xs → length d.input - d.pos ≡ length xs
At-length d xs e = sym (length-drop d.pos d.input) ∙ ap (λ (ys : Bytes). length ys) e

advance-At :
    (d : Decoder) (b bs : Bytes)
    → d.pos ≤ length d.input
    → length d.input < 2 ^ 63
    → At d (b ++ bs)
    → advance d (length b) ≡ ok (b, skip (length b) d)
unfolding advance
advance-At d b bs le small e =
    let left = At-length d (b ++ bs) e in
    let joined = length-append b bs in
    let end : d.pos + length b ≤ length d.input = omega (arith, left, joined, le) in
    let no_wrap : leb usize_mod (d.pos + length b) ≡ false =
      gt→leb_false usize_mod (d.pos + length b) (omega (arith, end, small)) in
    let enough : ltb (length d.input) (d.pos + length b) ≡ false =
      ge→ltb_false (length d.input) (d.pos + length b) end in
    rw (no_wrap, enough, e, take-append b bs (length b) refl) refl

decode_bytes-Canonical :
    (d : Decoder) (ds b bs : Bytes)
    → length d.input < 2 ^ 63
    → Canonical ds (length b)
    → At d (ds ++ b':' ∷ (b ++ bs))
    → decode_bytes d ≡ ok (b, skip (length ds + 1 + length b) d)
unfolding decode_bytes
decode_bytes-Canonical d ds b bs small c e =
    let left = At-length d (ds ++ b':' ∷ (b ++ bs)) e in
    let joined = length-append ds (b':' ∷ (b ++ bs)) in
    let joined' = length-append b bs in
    let whole : length b ≤ length d.input = omega (arith, left, joined, joined') in
    let short : length b < 2 ^ 63 = omega (arith, whole, small) in
    let parsed = parse_pos b':' d ds (length b) (b ++ bs) refl short c e in
    let e' : At d ((ds ++ b':' ∷ []) ++ (b ++ bs)) =
      e ∙ sym (append_assoc ds (b':' ∷ []) (b ++ bs)) in
    let len : length (ds ++ b':' ∷ []) ≡ length ds + 1 = length-append ds (b':' ∷ []) in
    let at' = skip-At d (ds ++ b':' ∷ []) (b ++ bs) e' in
    let d' = skip (length ds + 1) d in
    let after : At d' (b ++ bs) = rw⁻¹ len at' in
    let taken = advance-At d' b bs (omega (arith, left, joined, joined')) small after in
    rw (parsed, taken) (ap (λ f. ok (b, f)) (skip-skip (length ds + 1) (length b) _ d refl))

pub decode_bytes-encode_bytes :
    (d : Decoder) (b bs : Bytes)
    → length d.input < 2 ^ 63
    → At d (encode_bytes b ++ bs)
    → decode_bytes d ≡ ok (b, skip (length (encode_bytes b)) d)
decode_bytes-encode_bytes d b bs small e =
    let ds = decimal 19 (length b) in
    let e' : At d (ds ++ b':' ∷ (b ++ bs)) = e ∙ append_assoc ds (b':' ∷ b) bs in
    let left = At-length d (ds ++ b':' ∷ (b ++ bs)) e' in
    let joined = length-append ds (b':' ∷ (b ++ bs)) in
    let joined' = length-append b bs in
    let whole : length b ≤ length d.input = omega (arith, left, joined, joined') in
    let c = decimal-Canonical 18 (length b) (omega (arith, whole, small)) in
    let len : length ds + 1 + length b ≡ length (encode_bytes b) =
      omega (arith, length-append ds (b':' ∷ b)) in
    decode_bytes-Canonical d ds b bs small c e' ∙ ap (λ n. ok (b, skip n d)) len
