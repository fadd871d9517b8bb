-- ===== src/Dht/Store/Authentic.antt =====
-- src/dht/store.rs: what a store serves was signed, or is what its target is the hash of.
use bittorrent_rs.Prelude.{
  ℕ, ◌≤◌, ◌≡◌, refl, sym, subst, Bool, true, not, Option, none, some, List, [], ◌∷◌, arith, ltb,
  length, Bytes, bytes_eq, bytes_eq_sound, All, Bool-cases, inl, inr, if-keeps, if-keeps_by,
  option-keeps, option-keeps_by, ltb_false→le, not-eq_false, ◌&&◌,
}
use bittorrent_rs.Bencode.{ℤ, Bencode, encode}
use bittorrent_rs.Dht.Store.{
  Store, Item, StoredItem, Result, find_item, put_item, get, meta_of, is_full, is_long, current,
  objection, is_expired, contains_key, verify_mutable, mutable_target, immutable_target,
  put_immutable, put_mutable, max_value_len, new,
}
use bittorrent_rs.Dht.Store.Runs.{Put, puts_immutable, puts_mutable, run}

module _ {Public : Type 0} (parse_key : Bytes → Option Public)
    (verifies : Public → Bytes → Bytes → Bool) (sha1 : Bytes → Bytes) where
  -- The value and what makes it mutable are of the target: an immutable value hashes to it; of a
  -- mutable one the key and some salt do, and the signature is the key's, for that salt.
  abbrev pub OfTarget : Bytes → Bencode → Option (Bytes × ℤ × Bytes) → Type 0
  OfTarget target v none = target ≡ sha1 (encode v)
  OfTarget target v (some (k, seq, sig)) =
      (salt : Option Bytes) × (target ≡ mutable_target sha1 k salt)
      × (verify_mutable parse_key verifies k salt seq (encode v) sig ≡ true)

  abbrev IsAuthentic : Bytes × Item → Type 0
  IsAuthentic (target, item) =
      (length (encode item.v) ≤ max_value_len) × OfTarget target item.v (meta_of item.mutable)

  abbrev ServedAs : Bytes → Option StoredItem → Type 0
  ServedAs target none = Unit
  ServedAs target (some r) = (length (encode r.v) ≤ max_value_len) × OfTarget target r.v r.mutable

  abbrev AllAuthentic : Store → Type 0
  AllAuthentic s = All IsAuthentic s.items

  abbrev After : Result Bytes × Store → Type 0
  After r = AllAuthentic r.1

  keep-AllAuthentic :
      (target : Bytes) (item : Item) (items : List (Bytes × Item))
      → IsAuthentic (target, item)
      → All IsAuthentic items
      → All IsAuthentic (put_item target item items)
  keep-AllAuthentic target item [] i h = (i, tt)
  keep-AllAuthentic target item ((k, old) ∷ items) i h =
      if-keeps_by (All IsAuthentic) (bytes_eq k target)
        (λ same. (subst (λ t. IsAuthentic (t, item)) (sym (bytes_eq_sound k target same)) i, h.1))
        (λ other. (h.0, keep-AllAuthentic target item items i h.1))

  put_immutable-AllAuthentic :
      (v : Bencode) (now : ℕ) (s : Store) → AllAuthentic s → After (put_immutable sha1 v now s)
  unfolding put_immutable
  put_immutable-AllAuthentic v now s h =
      let target = immutable_target sha1 (encode v) in
      if-keeps_by After (ltb max_value_len (length (encode v))) (λ e. h)
        (λ short.
          let fits = ltb_false→le max_value_len (length (encode v)) short in
          if-keeps After (not (contains_key s target) && is_full s) h
            (keep-AllAuthentic target _ s.items (fits, refl) h))

  put_mutable-AllAuthentic :
      (k : Bytes) (salt : Option Bytes) (seq : ℤ) (sig : Bytes) (v : Bencode) (cas : Option ℤ)
      (now : ℕ) (s : Store)
      → AllAuthentic s
      → After (put_mutable parse_key verifies sha1 k salt seq sig v cas now s)
  unfolding put_mutable
  put_mutable-AllAuthentic k salt seq sig v cas now s h =
      let target = mutable_target sha1 k salt in
      let verified = verify_mutable parse_key verifies k salt seq (encode v) sig in
      if-keeps After (is_long salt) h (
        if-keeps_by After (ltb max_value_len (length (encode v))) (λ e. h)
          (λ short.
            if-keeps_by After (not verified) (λ e. h)
              (λ e.
                let fits = ltb_false→le max_value_len (length (encode v)) short in
                let kept =
                  keep-AllAuthentic target _ s.items (fits, (salt, refl, not-eq_false verified e))
                    h in
                option-keeps After (current s target now) (if-keeps After (is_full s) h kept)
                  (λ held. option-keeps After (objection held seq cas) kept (λ reason. h)))))

  run-AllAuthentic :
      (puts : List Put) (s : Store)
      → AllAuthentic s
      → AllAuthentic (run parse_key verifies sha1 puts s)
  run-AllAuthentic [] s h = h
  run-AllAuthentic (puts_immutable v now ∷ puts) s h =
      run-AllAuthentic puts _ (put_immutable-AllAuthentic v now s h)
  run-AllAuthentic (puts_mutable k salt seq sig v cas now ∷ puts) s h =
      run-AllAuthentic puts _ (put_mutable-AllAuthentic k salt seq sig v cas now s h)

  find-IsAuthentic :
      (target : Bytes) (item : Item) (items : List (Bytes × Item))
      → All IsAuthentic items
      → find_item target items ≡ some item
      → IsAuthentic (target, item)
  find-IsAuthentic target item [] h e = cc e
  find-IsAuthentic target item ((k, i) ∷ items) h e = elim (Bool-cases (bytes_eq k target)) [
    | inl same ↦
        let found : i ≡ item = ground (arith, e, same) in
        subst (λ t. IsAuthentic (t, item)) (bytes_eq_sound k target same)
          (subst (λ x. IsAuthentic (k, x)) found h.0)
    | inr other ↦ find-IsAuthentic target item items h.1 (ground (arith, e, other))
  ]

  served_item :
      (target : Bytes) (item : Item) (r : StoredItem)
      → IsAuthentic (target, item)
      → some (record { v = item.v; mutable = meta_of item.mutable }) ≡ some r
      → (length (encode r.v) ≤ max_value_len) × OfTarget target r.v r.mutable
  served_item target item r h e = subst (λ (o : Option StoredItem). ServedAs target o) e h

  -- Whatever puts a new store is asked for, what it serves under a target is no longer than the
  -- limit; an immutable value's encoding hashes to the target; and a mutable value's key and some
  -- salt hash to the target, and its signature, over that salt, its sequence number and its
  -- encoding, is the key's.
  pub run-OfTarget :
      (puts : List Put) (target : Bytes) (now : ℕ) (r : StoredItem)
      → get (run parse_key verifies sha1 puts new) target now ≡ some r
      → (length (encode r.v) ≤ max_value_len) × OfTarget target r.v r.mutable
  run-OfTarget puts target now r e =
      let s = run parse_key verifies sha1 puts new in
      let h = run-AllAuthentic puts new tt in
      option-keeps_by Served (find_item target s.items) (λ none_held r e. cc e)
        (λ item found.
          if-keeps Served (is_expired item now) (λ r e. cc e)
            (λ r e. served_item target item r (find-IsAuthentic target item s.items h found) e))
        r e
    where
      Served : Option StoredItem → Type 0
      Served o =
          (r : StoredItem)
          → o ≡ some r
          → (length (encode r.v) ≤ max_value_len) × OfTarget target r.v r.mutable
