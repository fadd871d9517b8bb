-- ===== src/Dht/Store/Examples.antt =====
-- src/dht/store.rs: the theorems at concrete inputs.
use bittorrent_rs.Prelude.{
  ℕ, ◌≤◌, ◌≡◌, refl, Option, none, some, List, [], ◌∷◌, ◌++◌, arith, length, zero, suc, Bytes,
  bytes_eq, Bool,
}
use bittorrent_rs.Bencode.{pos, Bencode, bytes, int, encode}
use bittorrent_rs.Dht.Store.{
  Store, Item, StoredItem, refused, store_full, or_empty, signing_buffer, verify_mutable,
  put_immutable, put_mutable, max_value_len,
}
use bittorrent_rs.Dht.Store.Runs.{Put, puts_immutable, puts_mutable, run}
use bittorrent_rs.Dht.Store.Buffer.{signing_buffer_injective}
use bittorrent_rs.Dht.Store.Authentic.{OfTarget, run-OfTarget}
use bittorrent_rs.Dht.Store.Full.{put_immutable-full_forever}

abbrev x : Bytes
x = b'x' ∷ []

signing_buffer_injective_example : (or_empty none ≡ or_empty (some [])) × (pos 3 ≡ pos 3) × (x ≡ x)
signing_buffer_injective_example =
    signing_buffer_injective none (some []) (pos 3) (pos 3) x x (omega arith) (omega arith)
      (omega arith) (omega arith) refl

-- A hash that forgets nothing, and a signature that is the key and the message.
abbrev hash : Bytes → Bytes
hash bs = bs

abbrev key_of : Bytes → Option Bytes
key_of k = some k

abbrev checks : Bytes → Bytes → Bytes → Bool
checks k message sig = bytes_eq sig (k ++ message)

abbrev value : Bencode
value = int (pos 5)

abbrev puts : List Put
puts =
    puts_mutable (7 ∷ []) (some (8 ∷ [])) (pos 1)
      ((7 ∷ []) ++ signing_buffer (some (8 ∷ [])) (pos 1) (b'i' ∷ b'5' ∷ b'e' ∷ [])) value none 10
    ∷ puts_immutable (bytes []) 20
    ∷ []

abbrev served : StoredItem
served = record {
  v = value;
  mutable =
      some (
        7 ∷ [],
        pos 1,
        (7 ∷ []) ++ signing_buffer (some (8 ∷ [])) (pos 1) (b'i' ∷ b'5' ∷ b'e' ∷ []),
      );
}

run-OfTarget_example :
    (length (encode served.v) ≤ max_value_len)
    × OfTarget key_of checks hash (7 ∷ 8 ∷ []) served.v served.mutable
unfolding put_immutable put_mutable verify_mutable encode
run-OfTarget_example = run-OfTarget key_of checks hash puts (7 ∷ 8 ∷ []) 30 served refl

abbrev numbered : ℕ → List (Bytes × Item)
numbered zero = []
numbered (suc n) = (n ∷ [], record { v = value; mutable = none; stored_at = 0 }) ∷ numbered n

-- A thousand items that were stored at time 0.
abbrev crowded : Store
crowded = record { items = numbered 1000 }

put_immutable-full_forever_example :
    let later = run key_of checks hash puts crowded in
    put_immutable hash (bytes x) 1000000000000000 later ≡ (refused store_full, later)
unfolding encode
put_immutable-full_forever_example =
    put_immutable-full_forever key_of checks hash puts crowded (bytes x) 1000000000000000 refl refl
      (omega arith)
