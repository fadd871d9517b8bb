-- ===== src/Dht/Token/Examples.antt =====
-- src/dht/token.rs: the theorem at a concrete input.
use bittorrent_rs.Prelude.{◌≡◌, true, ℕ, List, [], ◌∷◌, arith, Bytes}
use bittorrent_rs.Dht.Token.{TokenSecrets, new, issue, accepts}
use bittorrent_rs.Dht.Token.Validity.{ticks, accepts-issue}

abbrev same : Bytes → Bytes
same bytes = bytes

abbrev secrets : TokenSecrets
secrets = new (1 ∷ 2 ∷ []) 0

-- A rotation is due at the first look.
abbrev steps : List (ℕ × Bytes)
steps = (400000000000, 3 ∷ 4 ∷ []) ∷ (500000000000, 5 ∷ 6 ∷ []) ∷ []

accepts-issue_example :
    accepts same (ticks secrets steps) (127 ∷ []) (issue same secrets (127 ∷ [])) ≡ true
accepts-issue_example =
    accepts-issue same secrets (127 ∷ []) 350000000000 steps
      ((omega arith, omega arith), ((omega arith, omega arith), tt))
