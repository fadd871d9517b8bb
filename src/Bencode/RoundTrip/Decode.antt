-- ===== src/Bencode/RoundTrip/Decode.antt =====
-- src/bencode.rs: decoding what was encoded gives the value back, in both modes.
use bittorrent_rs.Prelude.{
  ◌+◌, ◌*◌, ◌^◌, ◌≤◌, ◌<◌, ◌≡◌, refl, sym, true, [], arith, length, append-nil, eq→==, ◌==◌, ap,
  Bytes,
}
use bittorrent_rs.Bencode.{
  Bencode, ok, Decoder, new, new_lenient, max_depth, decode_value, decode_top_level, decode,
  decode_lenient, encode,
}
use bittorrent_rs.Bencode.Depth.{height}
use bittorrent_rs.Bencode.RoundTrip.Values.{IsEncodable, value-Reads}

whole-Reads :
    (value : Bencode) (d : Decoder)
    → d.input ≡ encode value
    → d.pos ≡ 0
    → d.depth ≡ 0
    → IsEncodable value
    → height value ≤ max_depth
    → length (encode value) < 2 ^ 63
    → decode_top_level d ≡ ok value
unfolding decode_top_level decode_value
whole-Reads value d input start top v low small =
    let len = ap (λ (xs : Bytes). length xs) input in
    let read =
      value-Reads value (2 * length d.input + 1) d [] v (omega (arith, len))
        (omega (arith, low, top)) (omega (arith, len, small))
        (rw (start, input) (sym (append-nil (encode value)))) in
    let end : (d.pos + length (encode value) == length d.input) ≡ true =
      eq→== (d.pos + length (encode value)) (length d.input) (omega (arith, start, len)) in
    rw (read, end) refl

-- A value with integers of 64 bits and dictionaries whose keys are in order, nested no deeper than
-- the decoder's limit, whose encoding is shorter than 2^63 bytes, is decoded from its encoding, by
-- the strict decoder and by the lenient one.
pub decode-encode_value :
    (value : Bencode)
    → IsEncodable value
    → height value ≤ max_depth
    → length (encode value) < 2 ^ 63
    → (decode (encode value) ≡ ok value) × (decode_lenient (encode value) ≡ ok value)
decode-encode_value value v low small = (
  whole-Reads value (new (encode value)) refl refl refl v low small,
  whole-Reads value (new_lenient (encode value)) refl refl refl v low small,
)
