-- ===== src/Crypto/Sha256/Examples.antt =====
-- src/sha256.rs: the theorems at a concrete input.
use bittorrent_rs.Prelude.{◌≡◌, [], ◌∷◌}
use bittorrent_rs.Crypto.Sha256.{new, finalize, sha256}
use bittorrent_rs.Crypto.Sha256.Streaming.{feed, finalize-feed}

-- "abc", in three parts.
finalize-feed_example :
    finalize (feed new ((97 ∷ []) ∷ [] ∷ (98 ∷ 99 ∷ []) ∷ [])) ≡ sha256 (97 ∷ 98 ∷ 99 ∷ [])
finalize-feed_example = finalize-feed ((97 ∷ []) ∷ [] ∷ (98 ∷ 99 ∷ []) ∷ [])
