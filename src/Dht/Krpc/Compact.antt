-- ===== src/Dht/Krpc/Compact.antt =====
-- src/dht/krpc.rs: the compact forms are read back, each family from its own.
use bittorrent_rs.Prelude.{
  ℕ, ◌+◌, ◌*◌, ◌/◌, ◌%◌, ◌<◌, ◌≡◌, refl, sym, ap, ap₂, ◌∙◌, true, false, some, List, [], ◌∷◌, ◌++◌,
  arith, ◌==◌, length, take, drop, take-append, drop-append, length-append, append_assoc, All,
  Bytes, be16, from_be, eq→==, ne→==_false, false,
}
use bittorrent_rs.Peer.Message.Fields.{from_be-be16}
use bittorrent_rs.Dht.Krpc.{
  SocketAddr, v4, v6, CompactNode, field, port_at, node4_of, node6_of, nodes_of,
  parse_compact_nodes, parse_compact_nodes6, encode_node4, encode_node6, encode_compact_nodes,
  encode_compact_nodes6, encode_peer, parse_compact_addr,
}

-- The octets of its family, and a port of 16 bits.
abbrev pub IsAddr : SocketAddr → Type 0
IsAddr (v4 octets port) = (length octets ≡ 4) × (port < 65536)
IsAddr (v6 octets port flowinfo scope_id) = (length octets ≡ 16) × (port < 65536)

abbrev pub IsNode : CompactNode → Type 0
IsNode n = (length n.id ≡ 20) × IsAddr n.addr

abbrev pub only_v4 : List CompactNode → List CompactNode
only_v4 [] = []
only_v4 (n ∷ nodes) = elim n.addr [
  | v4 octets port ↦ n ∷ only_v4 nodes
  | v6 octets port flowinfo scope_id ↦ only_v4 nodes
]

-- Those of IPv6, with a flow label and a scope id of 0.
abbrev pub only_v6 : List CompactNode → List CompactNode
only_v6 [] = []
only_v6 (n ∷ nodes) = elim n.addr [
  | v4 octets port ↦ only_v6 nodes
  | v6 octets port flowinfo scope_id ↦ record n { addr = v6 octets port 0 0 } ∷ only_v6 nodes
]

-- The parts of a node with `k` octets.
module _ (k : ℕ) (id octets : Bytes) (port : ℕ) (h : length id ≡ 20) (a : length octets ≡ k)
    (p : port < 65536) where
  abbrev whole : Bytes
  whole = id ++ (octets ++ be16 port)

  id_part : take 20 whole ≡ id
  id_part = take-append id (octets ++ be16 port) 20 (sym h)

  octets_part : take k (drop 20 whole) ≡ octets
  octets_part =
      ap (take k) (drop-append id (octets ++ be16 port) 20 (sym h))
      ∙ take-append octets (be16 port) k (sym a)

  port_part : port_at (20 + k) whole ≡ port
  port_part =
      let len : 20 + k ≡ length (id ++ octets) = omega (arith, length-append id octets, h, a) in
      ap (λ bs. from_be 0 (take 2 bs))
        (ap (drop (20 + k)) (sym (append_assoc id octets (be16 port)))
          ∙ drop-append (id ++ octets) (be16 port) (20 + k) len)
      ∙ from_be-be16 port p

  length-whole : length whole ≡ 22 + k
  length-whole =
      omega (arith, length-append id (octets ++ be16 port), length-append octets (be16 port), h, a)

-- What is encoded of a list: as many chunks of `size` as there are nodes, and these nodes.
record Chunks (size : ℕ) (read : Bytes → CompactNode) (bytes : Bytes) (nodes : List CompactNode)
    : Type 0 where
  sized : length bytes ≡ size * length nodes
  nodes_read : nodes_of size read (length nodes) bytes ≡ nodes

push-Chunks :
    (size : ℕ) (read : Bytes → CompactNode) (one rest : Bytes) (n : CompactNode)
    (nodes : List CompactNode)
    → length one ≡ size
    → read one ≡ n
    → Chunks size read rest nodes
    → Chunks size read (one ++ rest) (n ∷ nodes)
push-Chunks size read one rest n nodes len e h = record {
  sized = grind (arith, length-append one rest, len, h.sized);
  nodes_read =
      ap₂ ◌∷◌ (ap read (take-append one rest size (sym len)) ∙ e) (
        ap (nodes_of size read (length nodes)) (drop-append one rest size (sym len))
        ∙ h.nodes_read);
}

v4-next :
    (id : Bytes) (a : SocketAddr) (rest : Bytes) (nodes : List CompactNode)
    → length id ≡ 20
    → IsAddr a
    → Chunks 26 node4_of rest (only_v4 nodes)
    → Chunks 26 node4_of
        (encode_node4 (record { id = id; addr = a }) ++ rest)
        (only_v4 (record { id = id; addr = a } ∷ nodes))
v4-next id (v6 octets port flowinfo scope_id) rest nodes h a c = c
v4-next id (v4 octets port) rest nodes h a c =
    push-Chunks 26 node4_of (id ++ (octets ++ be16 port)) rest _ (only_v4 nodes)
      (length-whole 4 id octets port h a.0 a.1)
      (let ids = id_part 4 id octets port h a.0 a.1 in
        let octs = octets_part 4 id octets port h a.0 a.1 in
        let ports = port_part 4 id octets port h a.0 a.1 in rw (ids, octs, ports) refl)
      c

v6-next :
    (id : Bytes) (a : SocketAddr) (rest : Bytes) (nodes : List CompactNode)
    → length id ≡ 20
    → IsAddr a
    → Chunks 38 node6_of rest (only_v6 nodes)
    → Chunks 38 node6_of
        (encode_node6 (record { id = id; addr = a }) ++ rest)
        (only_v6 (record { id = id; addr = a } ∷ nodes))
v6-next id (v4 octets port) rest nodes h a c = c
v6-next id (v6 octets port flowinfo scope_id) rest nodes h a c =
    push-Chunks 38 node6_of (id ++ (octets ++ be16 port)) rest _ (only_v6 nodes)
      (length-whole 16 id octets port h a.0 a.1)
      (let ids = id_part 16 id octets port h a.0 a.1 in
        let octs = octets_part 16 id octets port h a.0 a.1 in
        let ports = port_part 16 id octets port h a.0 a.1 in rw (ids, octs, ports) refl)
      c

v4-Chunks :
    (nodes : List CompactNode)
    → All IsNode nodes
    → Chunks 26 node4_of (encode_compact_nodes nodes) (only_v4 nodes)
unfolding encode_compact_nodes
v4-Chunks [] h = record { sized = refl; nodes_read = refl }
v4-Chunks (n ∷ nodes) h =
    v4-next n.id n.addr (encode_compact_nodes nodes) nodes h.0.0 h.0.1 (v4-Chunks nodes h.1)

v6-Chunks :
    (nodes : List CompactNode)
    → All IsNode nodes
    → Chunks 38 node6_of (encode_compact_nodes6 nodes) (only_v6 nodes)
unfolding encode_compact_nodes6
v6-Chunks [] h = record { sized = refl; nodes_read = refl }
v6-Chunks (n ∷ nodes) h =
    v6-next n.id n.addr (encode_compact_nodes6 nodes) nodes h.0.0 h.0.1 (v6-Chunks nodes h.1)

-- The nodes of a list, with ids of 20 bytes and addresses that are addresses, are read back from the
-- two compact forms: each form gives those of its family, in their order, those of IPv6 with a flow
-- label and a scope id of 0, whatever these were.
pub parse_compact_nodes-encode_compact_nodes :
    (nodes : List CompactNode)
    → All IsNode nodes
    → (parse_compact_nodes (encode_compact_nodes nodes) ≡ field (only_v4 nodes))
      × (parse_compact_nodes6 (encode_compact_nodes6 nodes) ≡ field (only_v6 nodes))
unfolding parse_compact_nodes parse_compact_nodes6
parse_compact_nodes-encode_compact_nodes nodes h =
    let c = v4-Chunks nodes h in
    let d = v6-Chunks nodes h in
    let even : (length (encode_compact_nodes nodes) % 26 == 0) ≡ true =
      eq→== (length (encode_compact_nodes nodes) % 26) 0 (omega (arith, c.sized)) in
    let even6 : (length (encode_compact_nodes6 nodes) % 38 == 0) ≡ true =
      eq→== (length (encode_compact_nodes6 nodes) % 38) 0 (omega (arith, d.sized)) in
    let count : length (encode_compact_nodes nodes) / 26 ≡ length (only_v4 nodes) =
      omega (arith, c.sized) in
    let count6 : length (encode_compact_nodes6 nodes) / 38 ≡ length (only_v6 nodes) =
      omega (arith, d.sized) in
    (rw even (rw count (ap field c.nodes_read)), rw even6 (rw count6 (ap field d.nodes_read)))

port_behind :
    (octets : Bytes) (port k : ℕ)
    → length octets ≡ k
    → port < 65536
    → port_at k (octets ++ be16 port) ≡ port
port_behind octets port k h p =
    ap (λ bs. from_be 0 (take 2 bs)) (drop-append octets (be16 port) k (sym h))
    ∙ from_be-be16 port p

-- The address with a flow label and a scope id of 0.
abbrev carried : SocketAddr → SocketAddr
carried (v4 octets port) = v4 octets port
carried (v6 octets port flowinfo scope_id) = v6 octets port 0 0

-- A peer's address is read back from its compact form, of either family, without its flow label and
-- scope id.
pub parse_compact_addr-encode_peer :
    (a : SocketAddr) → IsAddr a → parse_compact_addr (encode_peer a) ≡ some (carried a)
parse_compact_addr-encode_peer (v4 octets port) h =
    let len : length (octets ++ be16 port) ≡ 6 =
      omega (arith, length-append octets (be16 port), h.0) in
    let six : (length (octets ++ be16 port) == 6) ≡ true =
      eq→== (length (octets ++ be16 port)) 6 len in
    rw six (rw (take-append octets (be16 port) 4 (sym h.0), port_behind octets port 4 h.0 h.1) refl)
parse_compact_addr-encode_peer (v6 octets port flowinfo scope_id) h =
    let len : length (octets ++ be16 port) ≡ 18 =
      omega (arith, length-append octets (be16 port), h.0) in
    let not_six : (length (octets ++ be16 port) == 6) ≡ false =
      ne→==_false (length (octets ++ be16 port)) 6 (λ e. absurd (omega (arith, e, len))) in
    let eighteen : (length (octets ++ be16 port) == 18) ≡ true =
      eq→== (length (octets ++ be16 port)) 18 len in
    rw not_six (
      rw eighteen
        (rw (take-append octets (be16 port) 16 (sym h.0), port_behind octets port 16 h.0 h.1) refl))
