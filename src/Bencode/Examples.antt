-- ===== src/Bencode/Examples.antt =====
-- src/bencode.rs: the theorem at a concrete input, and the decoder on it.
use bittorrent_rs.Prelude.{◌≡◌, refl, [], ◌∷◌, ◌++◌, Bytes, none, replicate, arith}
use bittorrent_rs.Bencode.{
  Bencode, pos, negsuc, int, bytes, list, dict, no_items, item, no_entries, entry, ok, err,
  too_deep, decode, decode_lenient, encode, decode_top_level, decode_value, decode_value_on,
  decode_items, decode_entries, decode_bytes, decode_int, parse_signed_until, scan_digits, advance,
}
use bittorrent_rs.Bencode.Nesting.{openings, decode-openings}
use bittorrent_rs.Bencode.Depth.{Shallow, decode-Shallow, height}
use bittorrent_rs.Bencode.RoundTrip.Values.{IsEncodable}
use bittorrent_rs.Bencode.RoundTrip.Decode.{decode-encode_value}

-- `d1:ali7eee`: a dictionary with a list of one number.
abbrev input : Bytes
input = b'd' ∷ b'1' ∷ b':' ∷ b'a' ∷ b'l' ∷ b'i' ∷ b'7' ∷ b'e' ∷ b'e' ∷ b'e' ∷ []

decode_input :
    decode input ≡ ok (dict (entry (b'a' ∷ []) (list (item (int (pos 7)) no_items)) no_entries))
unfolding decode_top_level decode_value decode_value_on decode_items decode_entries decode_bytes
    decode_int parse_signed_until scan_digits advance
decode_input = refl

encode_back :
    encode (dict (entry (b'a' ∷ []) (list (item (int (pos 7)) no_items)) no_entries)) ≡ input
unfolding encode
encode_back = refl

decode-Shallow_example : Shallow (decode input) × Shallow (decode_lenient input)
decode-Shallow_example = decode-Shallow input

-- 101 lists, each within the one before, and nothing more.
decode-openings_example :
    (decode (openings (replicate 101 none) ++ []) ≡ err too_deep)
    × (decode_lenient (openings (replicate 101 none) ++ []) ≡ err too_deep)
decode-openings_example = decode-openings (replicate 101 none) [] (omega arith) (omega arith)

-- `d1:ali-7ei0ee2:abli9223372036854775807eee` with a string under `b`.
abbrev nested : Bencode
nested = dict (
    entry (b'a' ∷ []) (list (item (int (negsuc 6)) (item (int (pos 0)) no_items))) (
      entry (b'a' ∷ b'b' ∷ []) (list (item (int (pos 9223372036854775807)) no_items))
        (entry (b'b' ∷ []) (bytes (b'x' ∷ b'y' ∷ [])) no_entries)))

decode-encode_value_example :
    (decode (encode nested) ≡ ok nested) × (decode_lenient (encode nested) ≡ ok nested)
unfolding IsEncodable height encode
decode-encode_value_example =
    decode-encode_value nested
      ((tt, (omega arith, (omega arith, tt)), (refl, (omega arith, tt), (refl, tt, tt))))
      (omega arith) (omega arith)
