-- ===== src/Dht/Store.antt =====
-- src/dht/store.rs: the items that a DHT node stores for others (BEP 44).
--
-- SHA-1 and ed25519 are of other crates: their functions are parameters. A key that is not a point of
-- the curve is none of `parse_key`. A time is a number of nanoseconds.
pub mod Runs
pub mod Buffer
pub mod Authentic
pub mod Full
mod Examples
use bittorrent_rs.Prelude.{
  ℕ, zero, suc, ◌+◌, ◌-◌, ◌*◌, ◌^◌, Bool, true, false, not, ◌&&◌, ◌||◌, Option, none, some, List,
  [], ◌∷◌, ◌++◌, ltb, leb, ◌==◌, if◌then◌else◌, length, Bytes, bytes_eq,
}
use bittorrent_rs.Bencode.{ℤ, pos, negsuc, Bencode, encode, decimal, int_text}

abbrev pub max_value_len : ℕ
max_value_len = 1000

abbrev pub max_salt_len : ℕ
max_salt_len = 64

abbrev pub item_lifetime : ℕ
item_lifetime = 2 * 60 * 60 * 1000000000

abbrev pub max_stored_items : ℕ
max_stored_items = 1000

abbrev pub or_empty : Option Bytes → Bytes
or_empty none = []
or_empty (some salt) = salt

-- `4:salt`, the length and the salt, if there is one that is not empty.
abbrev pub salt_part : Option Bytes → Bytes
salt_part none = []
salt_part (some []) = []
salt_part (some (b ∷ bs)) =
    (b'4' ∷ b':' ∷ b's' ∷ b'a' ∷ b'l' ∷ b't' ∷ [])
    ++ (decimal 19 (length (b ∷ bs)) ++ (b':' ∷ (b ∷ bs)))

abbrev pub signing_buffer : Option Bytes → ℤ → Bytes → Bytes
signing_buffer salt seq bencoded_v =
    salt_part salt
    ++ ((b'3' ∷ b':' ∷ b's' ∷ b'e' ∷ b'q' ∷ b'i' ∷ [])
        ++ (int_text seq ++ ((b'e' ∷ b'1' ∷ b':' ∷ b'v' ∷ []) ++ bencoded_v)))

pub data PutError : Type 0 where
  value_too_large salt_too_large bad_signature cas_mismatch sequence_too_low store_full : PutError

pub record MutableMeta : Type 0 where
  pub k : Bytes
  pub seq : ℤ
  pub sig : Bytes

pub record Item : Type 0 where
  pub v : Bencode
  pub mutable : Option MutableMeta
  pub stored_at : ℕ

pub record StoredItem : Type 0 where
  pub v : Bencode
  pub mutable : Option (Bytes × ℤ × Bytes)

pub record Store : Type 0 where
  pub items : List (Bytes × Item)

pub data Result {ℓ} (A : Type ℓ) : Type ℓ where
  refused : (reason : PutError) → Result A
  stored : (target : A) → Result A

abbrev pub new : Store
new = record { items = [] }

abbrev pub find_item : Bytes → List (Bytes × Item) → Option Item
find_item target [] = none
find_item target ((k, i) ∷ items) = if bytes_eq k target then some i else find_item target items

abbrev pub put_item : Bytes → Item → List (Bytes × Item) → List (Bytes × Item)
put_item target item [] = (target, item) ∷ []
put_item target item ((k, i) ∷ items) =
    if bytes_eq k target then (k, item) ∷ items else (k, i) ∷ put_item target item items

-- The order of `i64`.
abbrev pub int_lt : ℤ → ℤ → Bool
int_lt (pos m) (pos n) = ltb m n
int_lt (pos m) (negsuc n) = false
int_lt (negsuc m) (pos n) = true
int_lt (negsuc m) (negsuc n) = ltb n m

abbrev pub int_eq : ℤ → ℤ → Bool
int_eq (pos m) (pos n) = m == n
int_eq (pos m) (negsuc n) = false
int_eq (negsuc m) (pos n) = false
int_eq (negsuc m) (negsuc n) = m == n

abbrev pub i64_min : ℤ
i64_min = negsuc (2 ^ 63 - 1)

abbrev pub is_expired : Item → ℕ → Bool
is_expired item now = leb item_lifetime (now - item.stored_at)

abbrev pub meta_of : Option MutableMeta → Option (Bytes × ℤ × Bytes)
meta_of none = none
meta_of (some m) = some (m.k, m.seq, m.sig)

abbrev pub seq_of : Option MutableMeta → ℤ
seq_of none = i64_min
seq_of (some m) = m.seq

abbrev pub get : Store → Bytes → ℕ → Option StoredItem
get s target now = elim (find_item target s.items) [
  | none ↦ none
  | some item ↦
      if is_expired item now
      then none
      else some (record { v = item.v; mutable = meta_of item.mutable })
]

-- The item under the target that is not expired.
abbrev pub current : Store → Bytes → ℕ → Option Item
current s target now = elim (find_item target s.items) [
  | none ↦ none
  | some item ↦ if is_expired item now then none else some item
]

abbrev pub contains_key : Store → Bytes → Bool
contains_key s target = elim (find_item target s.items) [ none ↦ false | some item ↦ true ]

abbrev pub len : Store → ℕ
len s = length s.items

abbrev pub is_full : Store → Bool
is_full s = leb max_stored_items (len s)

abbrev pub keep : Store → Bytes → Item → Result Bytes × Store
keep s target item = (stored target, record { items = put_item target item s.items })

abbrev pub is_long : Option Bytes → Bool
is_long none = false
is_long (some salt) = ltb max_salt_len (length salt)

-- What the current item has against a new one.
abbrev pub objection : Item → ℤ → Option ℤ → Option PutError
objection held seq none = if int_lt seq (seq_of held.mutable) then some sequence_too_low else none
objection held seq (some cas) =
    if not (int_eq cas (seq_of held.mutable))
    then some cas_mismatch
    else if int_lt seq (seq_of held.mutable)
    then some sequence_too_low
    else none

module _ (sha1 : Bytes → Bytes) where
  abbrev pub immutable_target : Bytes → Bytes
  immutable_target bencoded_value = sha1 bencoded_value

  abbrev pub mutable_target : Bytes → Option Bytes → Bytes
  mutable_target k salt = sha1 (k ++ or_empty salt)

  pub put_immutable : Bencode → ℕ → Store → Result Bytes × Store
  put_immutable v now s =
      let bencoded = encode v in
      let target = immutable_target bencoded in
      if ltb max_value_len (length bencoded)
      then (refused value_too_large, s)
      else if not (contains_key s target) && is_full s
      then (refused store_full, s)
      else keep s target (record { v = v; mutable = none; stored_at = now })

abbrev pub sign_mutable :
    {Secret : Type 0} → (Secret → Bytes → Bytes) → Secret → Option Bytes → ℤ → Bytes → Bytes
sign_mutable signs signing_key salt seq bencoded_v =
    signs signing_key (signing_buffer salt seq bencoded_v)

module _ {Public : Type 0} (parse_key : Bytes → Option Public)
    (verifies : Public → Bytes → Bytes → Bool) where
  pub verify_mutable : Bytes → Option Bytes → ℤ → Bytes → Bytes → Bool
  verify_mutable k salt seq bencoded_v sig = elim (parse_key k) [
    | none ↦ false
    | some verifying_key ↦ verifies verifying_key (signing_buffer salt seq bencoded_v) sig
  ]

  pub put_mutable :
      (Bytes → Bytes)
      → Bytes
      → Option Bytes
      → ℤ
      → Bytes
      → Bencode
      → Option ℤ
      → ℕ
      → Store
      → Result Bytes × Store
  put_mutable sha1 k salt seq sig v cas now s =
      let bencoded = encode v in
      let target = mutable_target sha1 k salt in
      let item : Item = record {
        v = v;
        mutable = some (record { k = k; seq = seq; sig = sig });
        stored_at = now;
      } in
      if is_long salt
      then (refused salt_too_large, s)
      else if ltb max_value_len (length bencoded)
      then (refused value_too_large, s)
      else if not (verify_mutable k salt seq bencoded sig)
      then (refused bad_signature, s)
      else elim (current s target now) [
        | none ↦ if is_full s then (refused store_full, s) else keep s target item
        | some held ↦ elim (objection held seq cas) [
          | some reason ↦ (refused reason, s)
          | none ↦ keep s target item
        ]
      ]
