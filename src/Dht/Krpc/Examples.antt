-- ===== src/Dht/Krpc/Examples.antt =====
-- src/dht/krpc.rs: the theorem at a concrete input.
use bittorrent_rs.Prelude.{◌≡◌, refl, List, [], ◌∷◌, arith, replicate}
use bittorrent_rs.Dht.Krpc.{
  CompactNode, v4, v6, field, parse_compact_nodes, parse_compact_nodes6, encode_compact_nodes,
  encode_compact_nodes6,
}
use bittorrent_rs.Dht.Krpc.Compact.{only_v4, only_v6, parse_compact_nodes-encode_compact_nodes}

abbrev both_families : List CompactNode
both_families =
    record { id = replicate 20 7; addr = v4 (127 ∷ 0 ∷ 0 ∷ 1 ∷ []) 6881 }
    ∷ record { id = replicate 20 8; addr = v6 (replicate 16 254) 51413 9 2 }
    ∷ record { id = replicate 20 9; addr = v4 (10 ∷ 1 ∷ 2 ∷ 3 ∷ []) 443 }
    ∷ []

parse_compact_nodes-encode_compact_nodes_example :
    (parse_compact_nodes (encode_compact_nodes both_families) ≡ field (only_v4 both_families))
    × (parse_compact_nodes6 (encode_compact_nodes6 both_families) ≡ field (only_v6 both_families))
parse_compact_nodes-encode_compact_nodes_example =
    parse_compact_nodes-encode_compact_nodes both_families (
      (refl, (refl, omega arith)),
      ((refl, (refl, omega arith)), ((refl, (refl, omega arith)), tt)),
    )
