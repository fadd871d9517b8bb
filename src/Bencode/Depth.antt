-- ===== src/Bencode/Depth.antt =====
-- src/bencode.rs: the decoder always ends, and what it returns is nested no deeper than its limit.
use bittorrent_rs.Prelude.{
  ℕ, zero, suc, ◌+◌, ◌-◌, ◌*◌, ◌≤◌, ◌<◌, ◌≡◌, ◌≢◌, refl, ap, max, ◌||◌, Option, none, some, arith,
  leb, ◌==◌, length, Bool-cases, inl, inr, Bytes, bytes_eq, leb_false→lt,
}
use bittorrent_rs.Bencode.{
  ℤ, Bencode, Items, Entries, int, bytes, list, dict, no_items, item, no_entries, entry,
  out_of_fuel, Result, ok, err, Decoder, new, new_lenient, max_depth, skip, is_ascii_digit,
  parse_signed_until, decode_int, decode_bytes, bytes_lt, or_insert, out_of_order, scalar, deeper,
  shallower, decode_value_on, decode_items, decode_entries, decode_value, at_end, decode_top_level,
  decode, decode_lenient, ◌>>=◌,
}
use bittorrent_rs.Bencode.Progress.{
  Later, Advances, flat, Later-trans, bind-Advances, after_peek, parse_signed_until-Advances,
  decode_bytes-Advances,
}

-- How deep lists and dictionaries are nested.
unfoldable mutual
  pub height : Bencode → ℕ
  height (int i) = 0
  height (bytes b) = 0
  height (list items) = suc (items_height items)
  height (dict entries) = suc (entries_height entries)

  pub items_height : Items → ℕ
  items_height no_items = 0
  items_height (item value items) = max (height value) (items_height items)

  pub entries_height : Entries → ℕ
  entries_height no_entries = 0
  entries_height (entry key value entries) = max (height value) (entries_height entries)

-- What advances from a later decoder advances from an earlier one.
Advances-Later :
    {A : Type 0} (h : A → ℕ) (d e : Decoder) (r : Result (A × Decoder))
    → Later d e
    → Advances h e r
    → Advances h d r
Advances-Later h d e (err failure) l v = v
Advances-Later h d e (ok (a, f)) l v = (Later-trans d e f l v.0, omega (arith, v.1, l.same_depth))

scalar-Advances :
    (tag : ℕ) (d : Decoder)
    → d.pos < length d.input
    → d.depth ≤ max_depth
    → Advances height d (scalar tag d)
unfolding decode_int height
scalar-Advances tag d in_range low = elim (Bool-cases (tag == b'i')) [
  | inl e ↦ rw e (
      bind-Advances flat height d (decode_int d) (λ (i, d'). ok (int i, d'))
        (int_step d in_range low) (λ i f later h. (later, omega arith)))
  | inr e ↦ elim (Bool-cases (is_ascii_digit tag)) [
    | inl digit ↦
        rw (e, digit)
          (bind-Advances flat height d (decode_bytes d) (λ (b, d'). ok (bytes b, d'))
            (decode_bytes-Advances d low) (λ b f later h. (later, omega arith)))
    | inr other ↦ rw (e, other) (λ q. cc q)
  ]
]
  where
    int_step :
        (d : Decoder)
        → d.pos < length d.input
        → d.depth ≤ max_depth
        → Advances flat d (decode_int d)
    int_step d in_range low =
        go (parse_signed_until b'e' (skip 1 d)) (parse_signed_until-Advances b'e' (skip 1 d) low)
      where
        go : (r : Result (ℤ × Decoder)) → Advances flat (skip 1 d) r → Advances flat d r
        go (err failure) v = v
        go (ok (a, f)) v = (
          record {
            moved = omega (arith, v.0.moved);
            within = v.0.within;
            same_input = v.0.same_input;
            same_depth = v.0.same_depth;
          },
          omega arith,
        )

-- The value that is made of what a list or a dictionary holds, one level up.
nested-Advances :
    {A : Type 0} (h : A → ℕ) (make : A → Bencode) (d : Decoder) (r : Result (A × Decoder))
    → ((a : A) → height (make a) ≡ suc (h a))
    → Advances h (deeper d) r
    → Advances height d (r >>= λ (a, e). ok (make a, shallower e))
nested-Advances h make d (err failure) f v = v
nested-Advances h make d (ok (a, e)) f v = (
  record {
    moved = omega (arith, v.0.moved);
    within = v.0.within;
    same_input = v.0.same_input;
    same_depth = omega (arith, v.0.same_depth);
  },
  omega (arith, v.1, f a),
)

item-Advances :
    (value : Bencode) (d e : Decoder) (r : Result (Items × Decoder))
    → Later d e
    → height value + d.depth ≤ max_depth
    → Advances items_height e r
    → Advances items_height d (r >>= λ (items, f). ok (item value items, f))
unfolding items_height
item-Advances value d e (err failure) l h v = v
item-Advances value d e (ok (items, f)) l h v =
    (Later-trans d e f l v.0, omega (arith, v.1, l.same_depth))

or_insert-height :
    (key : Bytes) (value : Bencode) (map : Entries)
    → entries_height (or_insert key value map) ≤ max (height value) (entries_height map)
unfolding entries_height
or_insert-height key value no_entries = omega arith
or_insert-height key value (entry k v rest) = elim (Bool-cases (bytes_eq k key)) [
  | inl e ↦ rw e (omega arith)
  | inr e ↦ elim (Bool-cases (bytes_lt key k)) [
    | inl less ↦ rw (e, less) (omega arith)
    | inr more ↦ rw (e, more) (omega (arith, or_insert-height key value rest))
  ]
]

skip-Later : (d : Decoder) → d.pos < length d.input → Later d (skip 1 d)
skip-Later d h = record {
  moved = omega arith;
  within = omega arith;
  same_input = refl;
  same_depth = refl;
}

-- How much input is left.
abbrev left : Decoder → ℕ
left d = length d.input - d.pos

left-Later : (d e : Decoder) → Later d e → d.pos < length d.input → left e < left d
left-Later d e l h = omega (arith, l.moved, l.within, ap (λ (x : Bytes). length x) l.same_input)

mutual
  unfolding decode_value_on decode_items decode_entries height items_height entries_height

  value-Advances :
      (fuel : ℕ) (d : Decoder)
      → 2 * left d < fuel
      → d.depth ≤ max_depth
      → Advances height d (decode_value_on fuel d)
  value-Advances zero d h low = absurd (omega arith)
  value-Advances (suc fuel) d h low = after_peek height d _ (λ tag in_range.
      elim (Bool-cases (tag == b'l' || tag == b'd')) [
        | inr e ↦ rw e (scalar-Advances tag d in_range low)
        | inl e ↦ elim (Bool-cases (leb max_depth d.depth)) [
          | inl deep ↦ rw (e, deep) (λ q. cc q)
          | inr shallow ↦
              let room = leb_false→lt max_depth d.depth shallow in
              elim (Bool-cases (tag == b'l')) [
                | inl is_list ↦
                    rw (e, shallow, is_list)
                      (nested-Advances items_height list d (decode_items fuel (deeper d))
                        (λ a. refl) (items-Advances fuel (deeper d) (omega arith) (omega arith)))
                | inr is_dict ↦
                    rw (e, shallow, is_dict)
                      (nested-Advances entries_height dict d
                        (decode_entries fuel (deeper d) none no_entries) (λ a. refl)
                        (entries-Advances fuel (deeper d) none no_entries (omega arith)
                          (omega arith)))
              ]
        ]
      ])

  items-Advances :
      (fuel : ℕ) (d : Decoder)
      → 2 * left d + 1 < fuel
      → d.depth ≤ max_depth
      → Advances items_height d (decode_items fuel d)
  items-Advances zero d h low = absurd (omega arith)
  items-Advances (suc fuel) d h low = after_peek items_height d _ (λ tag in_range.
      elim (Bool-cases (tag == b'e')) [
        | inl e ↦ rw e (skip-Later d in_range, omega arith)
        | inr e ↦ rw e (
            bind-Advances height items_height d (decode_value_on fuel d)
              (λ (value, d₁). decode_items fuel d₁ >>= λ (items, d₂). ok (item value items, d₂))
              (value-Advances fuel d (omega arith) low)
              (λ value d₁ later k. item-Advances value d d₁ (decode_items fuel d₁) later k (
                items-Advances fuel d₁ (omega (arith, left-Later d d₁ later in_range))
                  (omega (arith, later.same_depth)))))
      ])

  entries-Advances :
      (fuel : ℕ) (d : Decoder) (last_key : Option Bytes) (map : Entries)
      → 2 * left d + 1 < fuel
      → entries_height map + d.depth ≤ max_depth
      → Advances entries_height d (decode_entries fuel d last_key map)
  entries-Advances zero d last_key map h low = absurd (omega arith)
  entries-Advances (suc fuel) d last_key map h low = after_peek entries_height d _ (λ tag in_range.
      elim (Bool-cases (tag == b'e')) [
        | inl e ↦ rw e (skip-Later d in_range, omega arith)
        | inr e ↦ rw e (
            bind-Advances flat entries_height d (decode_bytes d) _
              (decode_bytes-Advances d (omega arith))
              (λ key d₁ later k. elim (Bool-cases (out_of_order d.strict last_key key)) [
                | inl bad ↦ rw bad (λ q. cc q)
                | inr good ↦ rw good (
                    Advances-Later entries_height d d₁ _ later (
                      bind-Advances height entries_height d₁ (decode_value_on fuel d₁)
                        (λ (value, d₂). decode_entries fuel d₂ (some key) (or_insert key value map))
                        (value-Advances fuel d₁ (omega (arith, left-Later d d₁ later in_range))
                          (omega (arith, later.same_depth, k)))
                        (λ value d₂ later₂ k₂. Advances-Later entries_height d₁ d₂ _ later₂ (
                          entries-Advances fuel d₂ (some key) (or_insert key value map)
                            (omega
                              (arith, left-Later d d₂ (Later-trans d d₁ d₂ later later₂) in_range))
                            (omega (
                              arith,
                              or_insert-height key value map,
                              later.same_depth,
                              later₂.same_depth,
                              k₂,
                              low,
                            ))))))
              ]))
      ])

-- What the decoder makes of a whole input: a value that is nested at most 100 deep, or one of the
-- errors of the source.
abbrev pub Shallow : Result Bencode → Type 0
Shallow (ok value) = height value ≤ max_depth
Shallow (err failure) = failure ≢ out_of_fuel

decode_top_level-Shallow : (d : Decoder) → d.depth ≡ 0 → Shallow (decode_top_level d)
unfolding decode_top_level decode_value
decode_top_level-Shallow d h =
    go (decode_value d) (value-Advances (2 * length d.input + 1) d (omega arith) (omega arith))
  where
    go : (r : Result (Bencode × Decoder)) → Advances height d r → Shallow (r >>= at_end)
    go (err failure) v = v
    go (ok (value, e)) v = elim (Bool-cases (e.pos == length e.input)) [
      | inl whole ↦ rw whole (omega (arith, v.1))
      | inr more ↦ rw more (λ q. cc q)
    ]

-- Every input is decoded, strictly or leniently, to a value that is nested at most 100 deep or to an
-- error of the source: twice the length of the input and one are enough fuel, so the decoder always
-- ends.
pub decode-Shallow : (input : Bytes) → Shallow (decode input) × Shallow (decode_lenient input)
decode-Shallow input =
    (decode_top_level-Shallow (new input) refl, decode_top_level-Shallow (new_lenient input) refl)
