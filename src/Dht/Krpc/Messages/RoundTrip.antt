-- ===== src/Dht/Krpc/Messages/RoundTrip.antt =====
-- src/dht/krpc.rs: a query is read back from its message.
use bittorrent_rs.Prelude.{
  ℕ, ◌<◌, ◌≤◌, ◌^◌, ◌%◌, ◌≡◌, refl, Bool, true, false, Option, none, some, Bytes, length, eq→==,
  arith,
}
use bittorrent_rs.Bencode.{ℤ, Bencode, dict, Entries, bytes, max_depth, lookup_entry, no_entries}
use bittorrent_rs.Bencode.Depth.{height}
use bittorrent_rs.Bencode.RoundTrip.Values.{IsEncodable}
use bittorrent_rs.Bencode.RoundTrip.Decode.{decode-encode_value}
use bittorrent_rs.Dht.Krpc.{bytes_of, bytes20}
use bittorrent_rs.Dht.Krpc.Messages.{
  Query, ping, find_node, get_peers, announce_peer, get_item, put_item, MutableFields, sender_id,
  query_dict, encode_query, arguments, put, k_id, name,
}
use bittorrent_rs.Dht.Krpc.Messages.Reading.{read_query, read_arguments, decode_query, valid}

abbrev pub IsMutable : Option MutableFields → Type 0
IsMutable none = Unit
IsMutable (some m) = (length m.k ≡ 32) × (length m.sig ≡ 64)

-- The fixed-width fields have their widths: what the types of the source's fields say.
abbrev pub IsQuery : Query → Type 0
IsQuery (ping id) = length id ≡ 20
IsQuery (find_node id target) = (length id ≡ 20) × (length target ≡ 20)
IsQuery (get_peers id info_hash) = (length id ≡ 20) × (length info_hash ≡ 20)
IsQuery (announce_peer id info_hash port token implied_port) =
    (length id ≡ 20) × ((length info_hash ≡ 20) × (port < 2 ^ 16))
IsQuery (get_item id target seq) = (length id ≡ 20) × (length target ≡ 20)
IsQuery (put_item id token what) = (length id ≡ 20) × IsMutable what.mutable

valid-bytes_of : (n : ℕ) (b : Bytes) → length b ≡ n → valid (bytes_of n (some (bytes b))) ≡ some b
valid-bytes_of n b e = rw (eq→== (length b) n e) refl

port_mod : (n : ℕ) → n < 2 ^ 16 → n % 2 ^ 16 ≡ n
port_mod n small = omega (arith, small)

abbrev arguments_of : Query → Entries
arguments_of query = arguments query (put k_id (bytes (sender_id query)) no_entries)

-- The query is read from its name and its arguments.
abbrev Reads : Query → Type 0
Reads query =
    (valid (bytes20 (lookup_entry k_id (arguments_of query))) ≡ some (sender_id query))
    × (read_arguments (name query) (sender_id query) (arguments_of query) ≡ some query)

mutable-Reads :
    (id token : Bytes) (x : Bencode) (k sig : Bytes) (salt : Option Bytes) (seq : ℤ)
    (cas : Option ℤ)
    → length id ≡ 20
    → length k ≡ 32
    → length sig ≡ 64
    → Reads (
        put_item id token record {
          v = x;
          mutable = some record { k = k; salt = salt; seq = seq; sig = sig; cas = cas };
        })
mutable-Reads id token x k sig none seq none v wk ws =
    (valid-bytes_of 20 id v, rw (valid-bytes_of 32 k wk, valid-bytes_of 64 sig ws) refl)
mutable-Reads id token x k sig none seq (some c) v wk ws =
    (valid-bytes_of 20 id v, rw (valid-bytes_of 32 k wk, valid-bytes_of 64 sig ws) refl)
mutable-Reads id token x k sig (some b) seq none v wk ws =
    (valid-bytes_of 20 id v, rw (valid-bytes_of 32 k wk, valid-bytes_of 64 sig ws) refl)
mutable-Reads id token x k sig (some b) seq (some c) v wk ws =
    (valid-bytes_of 20 id v, rw (valid-bytes_of 32 k wk, valid-bytes_of 64 sig ws) refl)

put-Reads :
    (id token : Bytes) (x : Bencode) (m : Option MutableFields)
    → length id ≡ 20
    → IsMutable m
    → Reads (put_item id token record { v = x; mutable = m })
put-Reads id token x none v w = (valid-bytes_of 20 id v, refl)
put-Reads id token x (some m) v (wk, ws) =
    mutable-Reads id token x m.k m.sig m.salt m.seq m.cas v wk ws

query-Reads : (query : Query) → IsQuery query → Reads query
query-Reads (ping id) v = (valid-bytes_of 20 id v, refl)
query-Reads (find_node id target) (v, w) =
    (valid-bytes_of 20 id v, rw (valid-bytes_of 20 target w) refl)
query-Reads (get_peers id hash) (v, w) =
    (valid-bytes_of 20 id v, rw (valid-bytes_of 20 hash w) refl)
query-Reads (announce_peer id hash port token true) (v, (w, p)) =
    (valid-bytes_of 20 id v, rw (valid-bytes_of 20 hash w, port_mod port p) refl)
query-Reads (announce_peer id hash port token false) (v, (w, p)) =
    (valid-bytes_of 20 id v, rw (valid-bytes_of 20 hash w, port_mod port p) refl)
query-Reads (get_item id target none) (v, w) =
    (valid-bytes_of 20 id v, rw (valid-bytes_of 20 target w) refl)
query-Reads (get_item id target (some seq)) (v, w) =
    (valid-bytes_of 20 id v, rw (valid-bytes_of 20 target w) refl)
query-Reads (put_item id token what) (v, w) = put-Reads id token what.v what.mutable v w

-- A query with its fields of their widths is read back, with its transaction, from the dictionary
-- of its message, whether or not the sender is read-only.
pub read_query-query_dict :
    (ro : Bool) (t : Bytes) (query : Query)
    → IsQuery query
    → read_query (query_dict ro t query) ≡ some (t, query)
read_query-query_dict true t query v = rw ((query-Reads query v).0, (query-Reads query v).1) refl
read_query-query_dict false t query v = rw ((query-Reads query v).0, (query-Reads query v).1) refl

-- A query with its fields of their widths, whose dictionary is one that bencode can carry, nested
-- no deeper than the decoder's limit and shorter than 2^63 bytes, is read back, with its
-- transaction, from the bytes of its message.
pub decode_query-encode_query :
    (ro : Bool) (t : Bytes) (query : Query)
    → IsQuery query
    → IsEncodable (dict (query_dict ro t query))
    → height (dict (query_dict ro t query)) ≤ max_depth
    → length (encode_query ro t query) < 2 ^ 63
    → decode_query (encode_query ro t query) ≡ some (t, query)
decode_query-encode_query ro t query v encodable low small =
    rw (decode_query, (decode-encode_value (dict (query_dict ro t query)) encodable low small).1)
      (read_query-query_dict ro t query v)
