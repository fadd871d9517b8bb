-- ===== src/Peer/Handshake/Examples.antt =====
-- src/peer/handshake.rs: the theorems at concrete inputs.
use bittorrent_rs.Prelude.{◌≡◌, refl, true, [], ◌∷◌, ◌++◌, replicate, take}
use bittorrent_rs.Peer.Handshake.{Handshake, ok, new, to_bytes, from_bytes}
use bittorrent_rs.Peer.Handshake.RoundTrip.{from_bytes-to_bytes, to_bytes-from_bytes}

abbrev ours : Handshake
ours = new (replicate 20 1) (replicate 20 2) true

from_bytes-to_bytes_example : from_bytes (to_bytes ours ++ (9 ∷ [])) ≡ ok ours
from_bytes-to_bytes_example = from_bytes-to_bytes ours (9 ∷ []) (refl, refl, refl)

ours_read : from_bytes (to_bytes ours) ≡ ok ours
unfolding from_bytes
ours_read = refl

to_bytes-from_bytes_example : take 68 (to_bytes ours) ≡ to_bytes ours
to_bytes-from_bytes_example = to_bytes-from_bytes (to_bytes ours) ours ours_read
