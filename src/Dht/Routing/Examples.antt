-- ===== src/Dht/Routing/Examples.antt =====
-- src/dht/routing.rs: the theorem at a concrete input.
use bittorrent_rs.Prelude.{refl, List, [], ◌∷◌, replicate}
use bittorrent_rs.Dht.Routing.{new}
use bittorrent_rs.Dht.Routing.Buckets.{InOrder, Call, insert_call, recentre_call, run}
use bittorrent_rs.Dht.Routing.Placed.{Placed, run-Placed}
use bittorrent_rs.Dht.Routing.Prefix.{common_prefix}

abbrev calls : List Call
calls =
    insert_call (replicate 20 7) 1 10
    ∷ insert_call (replicate 20 0) 2 20
    ∷ recentre_call (replicate 20 9) 30
    ∷ []

run-Placed_example :
    (let t = run (new (replicate 20 0)) calls in
      InOrder t × Placed t (replicate 20 5) 3 40 (common_prefix t.self_id (replicate 20 5)))
run-Placed_example = run-Placed (replicate 20 0) calls (replicate 20 5) 3 40 refl
