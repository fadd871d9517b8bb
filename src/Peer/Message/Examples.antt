-- ===== src/Peer/Message/Examples.antt =====
-- src/peer/message.rs: the theorems at concrete inputs.
use bittorrent_rs.Prelude.{◌≡◌, ◌+◌, ◌≤◌, [], ◌∷◌, ◌++◌, arith, length}
use bittorrent_rs.Peer.Message.{
  Message, piece, ok, to_bytes, read_from, payload_of, max_message_len,
}
use bittorrent_rs.Peer.Message.RoundTrip.{read_from-to_bytes}

abbrev sent : Message
sent = piece 7 16384 (1 ∷ 2 ∷ [])

sent_small : 1 + length (payload_of sent) ≤ max_message_len
unfolding payload_of
sent_small = omega arith

read_from-to_bytes_example : read_from (to_bytes sent ++ (9 ∷ [])) ≡ ok (sent, 9 ∷ [])
read_from-to_bytes_example = read_from-to_bytes sent (9 ∷ []) (omega arith, omega arith) sent_small
