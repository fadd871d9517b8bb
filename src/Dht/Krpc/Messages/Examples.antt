-- ===== src/Dht/Krpc/Messages/Examples.antt =====
-- src/dht/krpc.rs: the theorem at a concrete input.
use bittorrent_rs.Prelude.{◌≡◌, refl, true, some, [], ◌∷◌, arith, replicate}
use bittorrent_rs.Bencode.{pos, negsuc, bytes, encode}
use bittorrent_rs.Bencode.Depth.{height}
use bittorrent_rs.Bencode.RoundTrip.Values.{IsEncodable}
use bittorrent_rs.Dht.Krpc.Messages.{Query, put_item, encode_query}
use bittorrent_rs.Dht.Krpc.Messages.Reading.{decode_query}
use bittorrent_rs.Dht.Krpc.Messages.RoundTrip.{decode_query-encode_query}

-- A put of a mutable item with a salt, and with a condition on the sequence number.
abbrev put_mutable_item : Query
put_mutable_item = put_item (replicate 20 7) (1 ∷ 2 ∷ []) record {
  v = bytes (b'h' ∷ b'i' ∷ []);
  mutable = some record {
    k = replicate 32 8;
    salt = some (b's' ∷ []);
    seq = pos 4;
    sig = replicate 64 9;
    cas = some (negsuc 0);
  };
}

decode_query-encode_query_example :
    decode_query (encode_query true (b'a' ∷ b'a' ∷ []) put_mutable_item)
    ≡ some ((b'a' ∷ b'a' ∷ []), put_mutable_item)
unfolding IsEncodable height encode
decode_query-encode_query_example =
    decode_query-encode_query true (b'a' ∷ b'a' ∷ []) put_mutable_item (refl, (refl, refl))
      (
        tt,
        (
          tt,
          omega arith,
          (
            refl,
            tt,
            (refl, tt, (refl, tt, (refl, omega arith, (refl, tt, (refl, tt, (refl, tt, tt)))))),
          ),
        ),
        (refl, tt, (refl, omega arith, (refl, tt, (refl, tt, tt)))),
      )
      (omega arith) (omega arith)
