-- ===== src/Peer/State/Examples.antt =====
-- src/peer/state.rs: the theorems at concrete inputs.
use bittorrent_rs.Prelude.{List, Bool, true, false, [], ◌∷◌, ◌≡◌, refl, min}
use bittorrent_rs.Peer.Message.{bitfield, choke, have, allowed_fast, have_all}
use bittorrent_rs.Peer.State.{for_torrent, bitfield_to_bytes, apply_message, max_tracked_pieces}
use bittorrent_rs.Peer.State.Bitfield.{apply_message-encode_bitfield}
use bittorrent_rs.Peer.State.Bounds.{Bounded, apply_messages, apply_messages-Bounded}

abbrev pieces : List Bool
pieces = true ∷ false ∷ false ∷ true ∷ true ∷ false ∷ true ∷ true ∷ false ∷ true ∷ []

apply_message-encode_bitfield_example :
    (apply_message (for_torrent 10) (bitfield (bitfield_to_bytes pieces))).0.peer_has_pieces
    ≡ pieces
apply_message-encode_bitfield_example = apply_message-encode_bitfield (for_torrent 10) pieces refl

apply_messages-Bounded_example :
    Bounded
      (min 3 max_tracked_pieces)
      (apply_messages (for_torrent 3) (have 2 ∷ have 7 ∷ allowed_fast 1 ∷ have_all ∷ choke ∷ []))
apply_messages-Bounded_example =
    apply_messages-Bounded 3 (have 2 ∷ have 7 ∷ allowed_fast 1 ∷ have_all ∷ choke ∷ [])
