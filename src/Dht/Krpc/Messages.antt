-- ===== src/Dht/Krpc/Messages.antt =====
-- src/dht/krpc.rs: the queries of the DHT as bencoded dictionaries, written and read.
mod Examples
pub mod Reading
pub mod RoundTrip
use bittorrent_rs.Prelude.{
  ℕ, zero, suc, ◌-◌, ◌%◌, ◌^◌, Bool, true, false, not, ◌&&◌, ◌||◌, Option, none, some, [], ◌∷◌, ltb,
  leb, ◌==◌, if◌then◌else◌, length, Bytes, bytes_eq,
}
use bittorrent_rs.Bencode.{
  ℤ, pos, negsuc, Bencode, Items, Entries, int, bytes, list, dict, no_items, item, no_entries,
  entry, as_bytes, as_int, as_list, as_dict, lookup_entry, bytes_lt, decode_lenient, encode, Result,
  ok, err,
}
use bittorrent_rs.Dht.Krpc.{Field, field, fault, is_one, bytes20, bytes32, bytes64}

pub record MutableFields : Type 0 where
  pub k : Bytes
  pub salt : Option Bytes
  pub seq : ℤ
  pub sig : Bytes
  pub cas : Option ℤ

pub record PutItem : Type 0 where
  pub v : Bencode
  pub mutable : Option MutableFields

pub data Query : Type 0 where
  ping : (id : Bytes) → Query
  find_node : (id target : Bytes) → Query
  get_peers : (id info_hash : Bytes) → Query
  announce_peer : (id info_hash : Bytes) (port : ℕ) (token : Bytes) (implied_port : Bool) → Query
  get_item : (id target : Bytes) (seq : Option ℤ) → Query
  put_item : (id token : Bytes) (item : PutItem) → Query

abbrev pub n_ping : Bytes
n_ping = b'p' ∷ b'i' ∷ b'n' ∷ b'g' ∷ []

abbrev pub n_find_node : Bytes
n_find_node = b'f' ∷ b'i' ∷ b'n' ∷ b'd' ∷ b'_' ∷ b'n' ∷ b'o' ∷ b'd' ∷ b'e' ∷ []

abbrev pub n_get_peers : Bytes
n_get_peers = b'g' ∷ b'e' ∷ b't' ∷ b'_' ∷ b'p' ∷ b'e' ∷ b'e' ∷ b'r' ∷ b's' ∷ []

abbrev pub n_announce_peer : Bytes
n_announce_peer =
    b'a' ∷ b'n' ∷ b'n' ∷ b'o' ∷ b'u' ∷ b'n' ∷ b'c' ∷ b'e' ∷ b'_' ∷ b'p' ∷ b'e' ∷ b'e' ∷ b'r' ∷ []

abbrev pub n_get : Bytes
n_get = b'g' ∷ b'e' ∷ b't' ∷ []

abbrev pub n_put : Bytes
n_put = b'p' ∷ b'u' ∷ b't' ∷ []

abbrev pub k_a : Bytes
k_a = b'a' ∷ []

abbrev pub k_k : Bytes
k_k = b'k' ∷ []

abbrev pub k_q : Bytes
k_q = b'q' ∷ []

abbrev pub k_t : Bytes
k_t = b't' ∷ []

abbrev pub k_v : Bytes
k_v = b'v' ∷ []

abbrev pub k_y : Bytes
k_y = b'y' ∷ []

abbrev pub k_cas : Bytes
k_cas = b'c' ∷ b'a' ∷ b's' ∷ []

abbrev pub k_sig : Bytes
k_sig = b's' ∷ b'i' ∷ b'g' ∷ []

abbrev pub k_salt : Bytes
k_salt = b's' ∷ b'a' ∷ b'l' ∷ b't' ∷ []

abbrev pub k_ro : Bytes
k_ro = b'r' ∷ b'o' ∷ []

abbrev pub name : Query → Bytes
name (ping id) = n_ping
name (find_node id target) = n_find_node
name (get_peers id info_hash) = n_get_peers
name (announce_peer id info_hash port token implied_port) = n_announce_peer
name (get_item id target seq) = n_get
name (put_item id token what) = n_put

abbrev pub sender_id : Query → Bytes
sender_id (ping id) = id
sender_id (find_node id target) = id
sender_id (get_peers id info_hash) = id
sender_id (announce_peer id info_hash port token implied_port) = id
sender_id (get_item id target seq) = id
sender_id (put_item id token what) = id

-- `insert` of the ordered map.
abbrev pub put : Bytes → Bencode → Entries → Entries
put key value no_entries = entry key value no_entries
put key value (entry k v rest) =
    if bytes_eq k key
    then entry key value rest
    else if bytes_lt key k
    then entry key value (entry k v rest)
    else entry k v (put key value rest)

abbrev pub put_int : Bytes → Option ℤ → Entries → Entries
put_int key none d = d
put_int key (some i) d = put key (int i) d

abbrev pub put_bytes : Bytes → Option Bytes → Entries → Entries
put_bytes key none d = d
put_bytes key (some b) d = put key (bytes b) d

abbrev pub k_id : Bytes
k_id = b'i' ∷ b'd' ∷ []

abbrev pub k_target : Bytes
k_target = b't' ∷ b'a' ∷ b'r' ∷ b'g' ∷ b'e' ∷ b't' ∷ []

abbrev pub k_info_hash : Bytes
k_info_hash = b'i' ∷ b'n' ∷ b'f' ∷ b'o' ∷ b'_' ∷ b'h' ∷ b'a' ∷ b's' ∷ b'h' ∷ []

abbrev pub k_implied_port : Bytes
k_implied_port =
    b'i' ∷ b'm' ∷ b'p' ∷ b'l' ∷ b'i' ∷ b'e' ∷ b'd' ∷ b'_' ∷ b'p' ∷ b'o' ∷ b'r' ∷ b't' ∷ []

abbrev pub k_port : Bytes
k_port = b'p' ∷ b'o' ∷ b'r' ∷ b't' ∷ []

abbrev pub k_token : Bytes
k_token = b't' ∷ b'o' ∷ b'k' ∷ b'e' ∷ b'n' ∷ []

abbrev pub k_seq : Bytes
k_seq = b's' ∷ b'e' ∷ b'q' ∷ []

abbrev pub put_mutable : Option MutableFields → Entries → Entries
put_mutable none a = a
put_mutable (some m) a = put_int k_cas m.cas (
    put k_sig (bytes m.sig)
      (put k_seq (int m.seq) (put_bytes k_salt m.salt (put k_k (bytes m.k) a))))

-- The arguments of a query, with those of all queries.
abbrev pub arguments : Query → Entries → Entries
arguments (ping id) a = a
arguments (find_node id target) a = put k_target (bytes target) a
arguments (get_peers id info_hash) a = put k_info_hash (bytes info_hash) a
arguments (announce_peer id info_hash port token implied_port) a = put k_token (bytes token) (
    put k_port (int (pos port)) (
      put k_info_hash (bytes info_hash)
        (put k_implied_port (int (pos (if implied_port then 1 else 0))) a)))
arguments (get_item id target seq) a = put_int k_seq seq (put k_target (bytes target) a)
arguments (put_item id token what) a =
    put_mutable what.mutable (put k_v what.v (put k_token (bytes token) a))

-- The top-level dictionary of a query, marked read-only or not.
abbrev pub query_dict : Bool → Bytes → Query → Entries
query_dict read_only t query =
    let a = arguments query (put k_id (bytes (sender_id query)) no_entries) in
    let top = put k_a (dict a) no_entries in
    let marked = if read_only then put k_ro (int (pos 1)) top else top in
    put k_y (bytes k_q) (put k_t (bytes t) (put k_q (bytes (name query)) marked))

abbrev pub encode_query : Bool → Bytes → Query → Bytes
encode_query read_only t query = encode (dict (query_dict read_only t query))
