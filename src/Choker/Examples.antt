-- ===== src/Choker/Examples.antt =====
-- src/choker.rs: the theorems at a concrete input.
use bittorrent_rs.Prelude.{◌≤◌, true, List, [], ◌∷◌, All}
use bittorrent_rs.Choker.{new, unchoked_count}
use bittorrent_rs.Choker.Slots.{Fair}
use bittorrent_rs.Choker.Rounds.{
  Call, register_call, rechoke_call, unregister_call, grant_call, interested_call, download_call,
  run, run-Fair,
}

abbrev calls : List Call
calls =
    register_call
    ∷ register_call
    ∷ interested_call 0 true
    ∷ interested_call 1 true
    ∷ grant_call 0
    ∷ grant_call 1
    ∷ download_call 1 100
    ∷ rechoke_call
    ∷ unregister_call 1
    ∷ []

run-Fair_example :
    (unchoked_count (run (new 1) calls) ≤ 1) × All Fair (run (new 1) calls).state.peers
run-Fair_example = run-Fair 1 calls
