-- ===== src/Dht/Store/Full.antt =====
-- src/dht/store.rs: a store that is full takes no other items again.
use bittorrent_rs.Prelude.{
  if-keeps, if-keeps_by, option-keeps, option-keeps_by, ℕ, ◌≤◌, ◌≡◌, refl, Bool, true, false, not,
  ◌&&◌, Option, none, some, List, [], ◌∷◌, arith, ltb, length, Bytes, Option-cases, inl, inr,
  ge→ltb_false,
}
use bittorrent_rs.Bencode.{ℤ, Bencode, encode}
use bittorrent_rs.Dht.Store.{
  Store, Item, Result, refused, store_full, find_item, put_item, contains_key, is_full, keep,
  is_long, current, objection, verify_mutable, mutable_target, immutable_target, put_immutable,
  put_mutable, max_value_len,
}
use bittorrent_rs.Dht.Store.Runs.{Put, puts_immutable, puts_mutable, run}

-- The store is full, and has nothing under `other`.
record Closed (other : Bytes) (s : Store) : Type 0 where
  full : is_full s ≡ true
  without : find_item other s.items ≡ none

put-held-length :
    (target : Bytes) (item held : Item) (items : List (Bytes × Item))
    → find_item target items ≡ some held
    → length (put_item target item items) ≡ length items
put-held-length target item held [] e = cc e
put-held-length target item held ((k, i) ∷ items) e =
    ground (arith, put-held-length target item held items)

put-other :
    (target other : Bytes) (item held : Item) (items : List (Bytes × Item))
    → find_item target items ≡ some held
    → find_item other items ≡ none
    → find_item other (put_item target item items) ≡ none
put-other target other item held [] e h = cc e
put-other target other item held ((k, i) ∷ items) e h =
    ground (arith, put-other target other item held items)

keep-Closed :
    (target other : Bytes) (item held : Item) (s : Store)
    → find_item target s.items ≡ some held
    → Closed other s
    → Closed other (keep s target item).1
keep-Closed target other item held s e h = record {
  full = rw (put-held-length target item held s.items e) h.full;
  without = put-other target other item held s.items e h.without;
}

current-held :
    (s : Store) (target : Bytes) (now : ℕ) (held : Item)
    → current s target now ≡ some held
    → (i : Item) × (find_item target s.items ≡ some i)
current-held s target now held e = elim (Option-cases (find_item target s.items)) [
  | inl none_held ↦ absurd (ground (arith, e, none_held))
  | inr (i, e') ↦ (i, e')
]

module _ (other : Bytes) where
  abbrev ClosedAfter : Result Bytes × Store → Type 0
  ClosedAfter r = Closed other r.1

  put_immutable-Closed :
      (sha1 : Bytes → Bytes) (v : Bencode) (now : ℕ) (s : Store)
      → Closed other s
      → ClosedAfter (put_immutable sha1 v now s)
  unfolding put_immutable
  put_immutable-Closed sha1 v now s h =
      let target = immutable_target sha1 (encode v) in
      if-keeps ClosedAfter (ltb max_value_len (length (encode v))) h (
        if-keeps_by ClosedAfter (not (contains_key s target) && is_full s) (λ e. h)
          (λ e. elim (Option-cases (find_item target s.items)) [
            | inl none_held ↦ absurd (ground (arith, e, none_held, h.full))
            | inr (held, e') ↦ keep-Closed target other _ held s e' h
          ]))

  module _ {Public : Type 0} (parse_key : Bytes → Option Public)
      (verifies : Public → Bytes → Bytes → Bool) where
    put_mutable-Closed :
        (sha1 : Bytes → Bytes) (k : Bytes) (salt : Option Bytes) (seq : ℤ) (sig : Bytes)
        (v : Bencode) (cas : Option ℤ) (now : ℕ) (s : Store)
        → Closed other s
        → ClosedAfter (put_mutable parse_key verifies sha1 k salt seq sig v cas now s)
    unfolding put_mutable
    put_mutable-Closed sha1 k salt seq sig v cas now s h =
        let target = mutable_target sha1 k salt in
        if-keeps ClosedAfter (is_long salt) h (
          if-keeps ClosedAfter (ltb max_value_len (length (encode v))) h (
            if-keeps ClosedAfter (not (verify_mutable parse_key verifies k salt seq (encode v) sig))
              h
              (option-keeps_by ClosedAfter (current s target now)
                (λ e.
                  if-keeps_by ClosedAfter (is_full s) (λ full. h)
                    (λ room. absurd (ground (arith, room, h.full))))
                (λ held e.
                  let i = current-held s target now held e in
                  option-keeps ClosedAfter (objection held seq cas)
                    (keep-Closed target other _ i.0 s i.1 h) (λ reason. h)))))

    run-Closed :
        (sha1 : Bytes → Bytes) (puts : List Put) (s : Store)
        → Closed other s
        → Closed other (run parse_key verifies sha1 puts s)
    run-Closed sha1 [] s h = h
    run-Closed sha1 (puts_immutable v now ∷ puts) s h =
        run-Closed sha1 puts _ (put_immutable-Closed sha1 v now s h)
    run-Closed sha1 (puts_mutable k salt seq sig v cas now ∷ puts) s h =
        run-Closed sha1 puts _ (put_mutable-Closed sha1 k salt seq sig v cas now s h)

contains-none :
    (s : Store) (target : Bytes) → find_item target s.items ≡ none → contains_key s target ≡ false
contains-none s target e = rw (e, contains_key) refl

-- A store that is full refuses an immutable item that it does not hold, however many puts and
-- however much time go by, though all that it holds may have expired.
pub put_immutable-full_forever :
    {Public : Type 0} (parse_key : Bytes → Option Public) (verifies : Public → Bytes → Bytes → Bool)
    (sha1 : Bytes → Bytes) (puts : List Put) (s : Store) (v : Bencode) (now : ℕ)
    → is_full s ≡ true
    → find_item (sha1 (encode v)) s.items ≡ none
    → length (encode v) ≤ max_value_len
    → (let later = run parse_key verifies sha1 puts s in
        put_immutable sha1 v now later ≡ (refused store_full, later))
unfolding put_immutable
put_immutable-full_forever parse_key verifies sha1 puts s v now full without short =
    let h =
      run-Closed (sha1 (encode v)) parse_key verifies sha1 puts s
        (record { full = full; without = without }) in
    let fits : ltb max_value_len (length (encode v)) ≡ false =
      ge→ltb_false max_value_len (length (encode v)) short in
    let later = run parse_key verifies sha1 puts s in
    let refusing : (not (contains_key later (sha1 (encode v))) && is_full later) ≡ true =
      rw (contains-none later (sha1 (encode v)) h.without, h.full) refl in
    rw fits (rw refusing refl)
