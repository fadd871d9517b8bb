-- ===== src/Dht/Krpc.antt =====
-- src/dht/krpc.rs: the compact forms in which DHT messages carry nodes and peers, of both families.
pub mod Compact
mod Examples
pub mod Messages
use bittorrent_rs.Prelude.{
  ℕ, zero, suc, ◌+◌, ◌*◌, ◌/◌, ◌%◌, Bool, true, false, not, Option, none, some, List, [], ◌∷◌, ◌++◌,
  ◌==◌, if◌then◌else◌, length, take, drop, get_or, Bytes, be16, from_be,
}
use bittorrent_rs.Bencode.{
  ℤ, pos, negsuc, Bencode, Items, no_items, item, as_bytes, as_int, get, decode_lenient, Result, ok,
  err,
}

-- An address: its octets, four or sixteen, and the port. One of IPv6 has a flow label and a scope id
-- as well, which the compact forms do not carry.
pub data SocketAddr : Type 0 where
  v4 : (octets : Bytes) (port : ℕ) → SocketAddr
  v6 : (octets : Bytes) (port flowinfo scope_id : ℕ) → SocketAddr

pub record CompactNode : Type 0 where
  pub id : Bytes
  pub addr : SocketAddr

-- The errors of `KrpcError` that a field's form has.
pub data KrpcError : Type 0 where
  missing_field malformed_compact : KrpcError

pub data Field {ℓ} (A : Type ℓ) : Type ℓ where
  field : (value : A) → Field A
  fault : (error : KrpcError) → Field A

abbrev pub port_of : SocketAddr → ℕ
port_of (v4 octets port) = port
port_of (v6 octets port flowinfo scope_id) = port

-- The bytes of a value, if there is one and they are `n`.
abbrev pub bytes_of : ℕ → Option Bencode → Field Bytes
bytes_of n none = fault missing_field
bytes_of n (some value) = elim (as_bytes value) [
  | none ↦ fault missing_field
  | some b ↦ if length b == n then field b else fault malformed_compact
]

abbrev pub bytes20 : Option Bencode → Field Bytes
bytes20 value = bytes_of 20 value

abbrev pub bytes32 : Option Bencode → Field Bytes
bytes32 value = bytes_of 32 value

abbrev pub bytes64 : Option Bencode → Field Bytes
bytes64 value = bytes_of 64 value

abbrev pub node4_len : ℕ
node4_len = 26

abbrev pub node6_len : ℕ
node6_len = 38

-- The two bytes at `at`, as a number.
abbrev pub port_at : ℕ → Bytes → ℕ
port_at at c = from_be 0 (take 2 (drop at c))

abbrev pub node4_of : Bytes → CompactNode
node4_of c = record { id = take 20 c; addr = v4 (take 4 (drop 20 c)) (port_at 24 c) }

abbrev pub node6_of : Bytes → CompactNode
node6_of c = record { id = take 20 c; addr = v6 (take 16 (drop 20 c)) (port_at 36 c) 0 0 }

-- The chunks of `n` bytes, `count` of them.
abbrev pub nodes_of : ℕ → (Bytes → CompactNode) → ℕ → Bytes → List CompactNode
nodes_of n read zero bytes = []
nodes_of n read (suc count) bytes = read (take n bytes) ∷ nodes_of n read count (drop n bytes)

pub parse_compact_nodes : Bytes → Field (List CompactNode)
parse_compact_nodes bytes =
    if not (length bytes % node4_len == 0)
    then fault malformed_compact
    else field (nodes_of node4_len node4_of (length bytes / node4_len) bytes)

pub parse_compact_nodes6 : Bytes → Field (List CompactNode)
parse_compact_nodes6 bytes =
    if not (length bytes % node6_len == 0)
    then fault malformed_compact
    else field (nodes_of node6_len node6_of (length bytes / node6_len) bytes)

abbrev pub encode_node4 : CompactNode → Bytes
encode_node4 n = elim n.addr [
  | v4 octets port ↦ n.id ++ (octets ++ be16 port)
  | v6 octets port flowinfo scope_id ↦ []
]

abbrev pub encode_node6 : CompactNode → Bytes
encode_node6 n = elim n.addr [
  | v4 octets port ↦ []
  | v6 octets port flowinfo scope_id ↦ n.id ++ (octets ++ be16 port)
]

pub encode_compact_nodes : List CompactNode → Bytes
encode_compact_nodes [] = []
encode_compact_nodes (n ∷ nodes) = encode_node4 n ++ encode_compact_nodes nodes

pub encode_compact_nodes6 : List CompactNode → Bytes
encode_compact_nodes6 [] = []
encode_compact_nodes6 (n ∷ nodes) = encode_node6 n ++ encode_compact_nodes6 nodes

abbrev pub encode_peer : SocketAddr → Bytes
encode_peer (v4 octets port) = octets ++ be16 port
encode_peer (v6 octets port flowinfo scope_id) = octets ++ be16 port

abbrev pub parse_compact_addr : Bytes → Option SocketAddr
parse_compact_addr b =
    if length b == 6
    then some (v4 (take 4 b) (port_at 4 b))
    else if length b == 18
    then some (v6 (take 16 b) (port_at 16 b) 0 0)
    else none

abbrev pub is_one : Option ℤ → Bool
is_one (some (pos n)) = n == 1
is_one _ = false

abbrev pub int_in : Bencode → Bytes → Option ℤ
int_in value key = elim (get value key) [ none ↦ none | some v ↦ as_int v ]

pub is_read_only : Bytes → Bool
is_read_only datagram = elim (decode_lenient datagram) [
  | err failure ↦ false
  | ok value ↦ is_one (int_in value (b'r' ∷ b'o' ∷ []))
]

-- The peer of an entry, if it is one and has a port.
abbrev pub peer_of : Bencode → Option SocketAddr
peer_of value = elim (as_bytes value) [
  | none ↦ none
  | some b ↦ elim (parse_compact_addr b) [
    | none ↦ none
    | some peer ↦ if not (port_of peer == 0) then some peer else none
  ]
]

abbrev pub parse_values : Items → List SocketAddr
parse_values no_items = []
parse_values (item value values) = elim (peer_of value) [
  | none ↦ parse_values values
  | some peer ↦ peer ∷ parse_values values
]
