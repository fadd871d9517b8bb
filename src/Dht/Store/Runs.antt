-- ===== src/Dht/Store/Runs.antt =====
-- src/dht/store.rs: the puts that a node is asked for, one after another.
use bittorrent_rs.Prelude.{ℕ, Bool, Option, List, [], ◌∷◌, Bytes}
use bittorrent_rs.Bencode.{ℤ, Bencode}
use bittorrent_rs.Dht.Store.{Store, put_immutable, put_mutable}

pub data Put : Type 0 where
  puts_immutable : Bencode → ℕ → Put
  puts_mutable : (k : Bytes) → Option Bytes → ℤ → (sig : Bytes) → Bencode → Option ℤ → ℕ → Put

module _ {Public : Type 0} (parse_key : Bytes → Option Public)
    (verifies : Public → Bytes → Bytes → Bool) (sha1 : Bytes → Bytes) where
  abbrev pub after : Put → Store → Store
  after (puts_immutable v now) s = (put_immutable sha1 v now s).1
  after (puts_mutable k salt seq sig v cas now) s =
      (put_mutable parse_key verifies sha1 k salt seq sig v cas now s).1

  abbrev pub run : List Put → Store → Store
  run [] s = s
  run (put ∷ puts) s = run puts (after put s)
