-- ===== src/Dht/Routing.antt =====
-- src/dht/routing.rs: the routing table, in which a node lies in the bucket of its common prefix with
-- ours. `now` is the clock where an entry is made.
pub mod Buckets
pub mod Prefix
pub mod Placed
mod Examples
use bittorrent_rs.Prelude.{
  ℕ, zero, suc, ◌+◌, ◌-◌, ◌*◌, ◌/◌, ◌%◌, Bool, true, false, not, ◌&&◌, Option, none, some, List, [],
  ◌∷◌, ◌++◌, map, ltb, leb, ◌==◌, if◌then◌else◌, length, get_or, set, take, replicate, Bytes,
  bytes_eq, test_bit,
}

abbrev pub k_bucket : ℕ
k_bucket = 8

-- The exclusive or of two bytes, bit by bit.
abbrev pub xor_bits : ℕ → ℕ → ℕ → ℕ
xor_bits zero a b = 0
xor_bits (suc n) a b = let rest = xor_bits n (a / 2) (b / 2) in (a + b) % 2 + 2 * rest

abbrev pub NodeId : Type 0
NodeId = Bytes

abbrev pub xor_distance : NodeId → NodeId → Bytes
xor_distance [] b = []
xor_distance (x ∷ a) [] = []
xor_distance (x ∷ a) (y ∷ b) = xor_bits 8 x y ∷ xor_distance a b

-- `leading_zeros` of a byte: the zero bits from bit `n - 1` down.
abbrev pub leading_zeros : ℕ → ℕ → ℕ
leading_zeros zero b = 0
leading_zeros (suc n) b = let rest = leading_zeros n b in if test_bit n b then 0 else suc rest

abbrev pub first_bit : ℕ → Bytes → Option ℕ
first_bit byte_idx [] = none
first_bit byte_idx (b ∷ d) =
    let rest = first_bit (suc byte_idx) d in
    if b == 0 then rest else some (byte_idx * 8 + leading_zeros 8 b)

pub bucket_index : NodeId → NodeId → Option ℕ
bucket_index self_id other = first_bit 0 (xor_distance self_id other)

-- An address is a number here.
pub record Entry : Type 0 where
  pub id : NodeId
  pub addr : ℕ
  pub last_seen : ℕ

pub record RoutingTable : Type 0 where
  pub self_id : NodeId
  pub buckets : List (List Entry)

abbrev pub new : NodeId → RoutingTable
new self_id = record { self_id = self_id; buckets = replicate 160 [] }

abbrev pub sum_lengths : List (List Entry) → ℕ
sum_lengths [] = 0
sum_lengths (b ∷ bs) = length b + sum_lengths bs

abbrev pub len : RoutingTable → ℕ
len t = sum_lengths t.buckets

abbrev pub is_empty : RoutingTable → Bool
is_empty t = len t == 0

-- The bucket with the entry of the id refreshed, if it is there.
abbrev pub refresh : NodeId → ℕ → ℕ → List Entry → Option (List Entry)
refresh id addr now [] = none
refresh id addr now (e ∷ es) =
    let rest = refresh id addr now es in
    if bytes_eq e.id id
    then some (record e { addr = addr; last_seen = now } ∷ es)
    else elim rest [ none ↦ none | some es' ↦ some (e ∷ es') ]

-- `min_by_key(last_seen)`: the position of the first of the least.
abbrev pub oldest : ℕ → ℕ → ℕ → List Entry → ℕ
oldest best seen n [] = best
oldest best seen n (e ∷ es) =
    if ltb e.last_seen seen then oldest n e.last_seen (suc n) es else oldest best seen (suc n) es

abbrev pub evict : Entry → List Entry → List Entry
evict entry [] = []
evict entry (e ∷ es) = set (e ∷ es) (oldest 0 e.last_seen 1 es) entry

pub insert_in : NodeId → ℕ → ℕ → List Entry → List Entry
insert_in id addr now bucket = elim (refresh id addr now bucket) [
  | some refreshed ↦ refreshed
  | none ↦
      let entry : Entry = record { id = id; addr = addr; last_seen = now } in
      if ltb (length bucket) k_bucket then bucket ++ entry ∷ [] else evict entry bucket
]

pub insert : RoutingTable → NodeId → ℕ → ℕ → RoutingTable
unfolding bucket_index insert_in
insert t id addr now = elim (bucket_index t.self_id id) [
  | none ↦ t
  | some idx ↦ record t {
    buckets = set t.buckets idx (insert_in id addr now (get_or t.buckets idx []));
  }
]

abbrev pub flatten : List (List Entry) → List Entry
flatten [] = []
flatten (b ∷ bs) = b ++ flatten bs

abbrev pub insert_all : RoutingTable → ℕ → List Entry → RoutingTable
insert_all t now [] = t
insert_all t now (e ∷ es) = insert_all (insert t e.id e.addr now) now es

pub recentre : RoutingTable → NodeId → ℕ → RoutingTable
unfolding insert
recentre t new_id now =
    insert_all (record { self_id = new_id; buckets = map (λ _. []) t.buckets }) now
      (flatten t.buckets)

abbrev pub distance_lt : Bytes → Bytes → Bool
distance_lt [] [] = false
distance_lt [] (y ∷ ys) = true
distance_lt (x ∷ xs) [] = false
distance_lt (x ∷ xs) (y ∷ ys) = if ltb x y then true else x == y && distance_lt xs ys

-- `sort_by_key` of the distance to the target, which is stable.
abbrev pub place_nearer : NodeId → Entry → List Entry → List Entry
place_nearer target e [] = e ∷ []
place_nearer target e (f ∷ fs) =
    if distance_lt (xor_distance f.id target) (xor_distance e.id target)
    then f ∷ place_nearer target e fs
    else e ∷ f ∷ fs

abbrev pub sort_nearer : NodeId → List Entry → List Entry
sort_nearer target [] = []
sort_nearer target (e ∷ es) = place_nearer target e (sort_nearer target es)

pub closest : RoutingTable → NodeId → ℕ → List (NodeId × ℕ)
closest t target n = map (λ e. (e.id, e.addr)) (take n (sort_nearer target (flatten t.buckets)))
