-- ===== src/Dht/Krpc/Messages/Reading.antt =====
-- src/dht/krpc.rs: how a query is read from the dictionary of its message.
use bittorrent_rs.Prelude.{ℕ, ◌-◌, ◌%◌, ◌^◌, Option, none, some, [], if◌then◌else◌, Bytes, bytes_eq}
use bittorrent_rs.Bencode.{
  ℤ, pos, negsuc, Entries, as_bytes, as_int, as_dict, lookup_entry, decode_lenient, ok, err,
}
use bittorrent_rs.Dht.Krpc.{Field, field, fault, is_one, bytes20, bytes32, bytes64}
use bittorrent_rs.Dht.Krpc.Messages.{
  Query, ping, find_node, get_peers, announce_peer, get_item, put_item, MutableFields, n_ping,
  n_find_node, n_get_peers, n_announce_peer, n_get, n_put, k_a, k_k, k_q, k_t, k_v, k_y, k_cas,
  k_sig, k_salt, k_id, k_target, k_info_hash, k_implied_port, k_port, k_token, k_seq,
}

abbrev pub and_then {ℓ ℓ'} : {A : Type ℓ} → {B : Type ℓ'} → Option A → (A → Option B) → Option B
and_then none f = none
and_then (some x) f = f x

-- A field's value; which fault it had is forgotten.
abbrev pub valid {ℓ} : {A : Type ℓ} → Field A → Option A
valid (field x) = some x
valid (fault e) = none

abbrev pub bytes_at : Bytes → Entries → Option Bytes
bytes_at key d = and_then (lookup_entry key d) as_bytes

abbrev pub int_at : Bytes → Entries → Option ℤ
int_at key d = and_then (lookup_entry key d) as_int

-- `as u16` of an i64 that may be missing.
abbrev pub to_port : Option ℤ → ℕ
to_port none = 0
to_port (some (pos n)) = n % 2 ^ 16
to_port (some (negsuc n)) = 2 ^ 16 - 1 - n % 2 ^ 16

abbrev pub bytes_or_empty : Option Bytes → Bytes
bytes_or_empty none = []
bytes_or_empty (some b) = b

abbrev pub read_mutable : Entries → Option (Option MutableFields)
read_mutable a = elim (lookup_entry k_k a) [
  | none ↦ some none
  | some v ↦ and_then (valid (bytes32 (some v))) (λ k. and_then (int_at k_seq a) (λ seq.
      and_then (valid (bytes64 (lookup_entry k_sig a))) (λ sig. some (
        some
          record { k = k; salt = bytes_at k_salt a; seq = seq; sig = sig; cas = int_at k_cas a }))))
]

-- The query of a name and a dictionary of arguments whose `id` is read; none for each error.
abbrev pub read_arguments : Bytes → Bytes → Entries → Option Query
read_arguments q id a =
    if bytes_eq q n_ping
    then some (ping id)
    else if bytes_eq q n_find_node
    then and_then (valid (bytes20 (lookup_entry k_target a))) (λ target. some (find_node id target))
    else if bytes_eq q n_get_peers
    then and_then (valid (bytes20 (lookup_entry k_info_hash a))) (λ hash. some (get_peers id hash))
    else if bytes_eq q n_announce_peer
    then and_then (valid (bytes20 (lookup_entry k_info_hash a))) (λ hash. some (
        announce_peer id hash (to_port (int_at k_port a)) (bytes_or_empty (bytes_at k_token a))
          (is_one (int_at k_implied_port a))))
    else if bytes_eq q n_get
    then and_then (valid (bytes20 (lookup_entry k_target a)))
        (λ target. some (get_item id target (int_at k_seq a)))
    else if bytes_eq q n_put
    then and_then (lookup_entry k_v a) (λ v. and_then (read_mutable a) (λ mutable.
      some (put_item id (bytes_or_empty (bytes_at k_token a)) record { v = v; mutable = mutable })))
    else none

-- The query of a message's dictionary, with its transaction; none for each error, and for a
-- message that is no query.
abbrev pub read_query : Entries → Option (Bytes × Query)
read_query d = and_then (bytes_at k_t d) (λ t. and_then (bytes_at k_y d) (λ y.
    if bytes_eq y k_q
    then and_then (bytes_at k_q d) (λ q. and_then (and_then (lookup_entry k_a d) as_dict) (λ a.
      and_then (valid (bytes20 (lookup_entry k_id a)))
        (λ id. and_then (read_arguments q id a) (λ query. some (t, query)))))
    else none))

abbrev pub decode_query : Bytes → Option (Bytes × Query)
decode_query input = elim (decode_lenient input) [
  | ok value ↦ and_then (as_dict value) read_query
  | err e ↦ none
]
