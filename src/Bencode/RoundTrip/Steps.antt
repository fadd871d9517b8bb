-- ===== src/Bencode/RoundTrip/Steps.antt =====
-- src/bencode.rs: the turns of the decoder's recursion and loops, each with what its parts give.
use bittorrent_rs.Prelude.{
  ℕ, suc, ◌≡◌, refl, true, false, ◌||◌, Option, none, some, arith, leb, ◌==◌, Bytes,
}
use bittorrent_rs.Bencode.{
  Bencode, Items, Entries, list, dict, bytes, no_items, item, no_entries, ok, Decoder, max_depth,
  peek, skip, is_ascii_digit, decode_bytes, deeper, shallower, out_of_order, or_insert,
  decode_value_on, decode_items, decode_entries, ◌>>=◌,
}

module _ (fuel : ℕ) (d : Decoder) where
  -- A digit is the tag of a byte string.
  pub digit_step :
      (tag : ℕ)
      → is_ascii_digit tag ≡ true
      → peek d ≡ ok tag
      → decode_value_on (suc fuel) d ≡ (decode_bytes d >>= λ (b, d'). ok (bytes b, d'))
  unfolding decode_value_on
  digit_step tag h e =
      let scalar_tag : (tag == b'l' || tag == b'd') ≡ false = ground (arith, h) in
      let no_int : (tag == b'i') ≡ false = ground (arith, h) in
      rw e (rw (scalar_tag, ◌>>=◌) (rw (no_int, h) refl))

  pub list_step :
      (items : Items) (d' : Decoder)
      → peek d ≡ ok b'l'
      → leb max_depth d.depth ≡ false
      → decode_items fuel (deeper d) ≡ ok (items, d')
      → decode_value_on (suc fuel) d ≡ ok (list items, shallower d')
  unfolding decode_value_on decode_items
  list_step items d' e low h = rw e (rw (low, ◌>>=◌) (rw h refl))

  pub dict_step :
      (pairs : Entries) (d' : Decoder)
      → peek d ≡ ok b'd'
      → leb max_depth d.depth ≡ false
      → decode_entries fuel (deeper d) none no_entries ≡ ok (pairs, d')
      → decode_value_on (suc fuel) d ≡ ok (dict pairs, shallower d')
  unfolding decode_value_on decode_entries
  dict_step pairs d' e low h = rw e (rw (low, ◌>>=◌) (rw h refl))

  pub end_items : peek d ≡ ok b'e' → decode_items (suc fuel) d ≡ ok (no_items, skip 1 d)
  unfolding decode_items
  end_items e = rw e refl

  pub item_step :
      (tag : ℕ) (value : Bencode) (items : Items) (d₁ d₂ : Decoder)
      → peek d ≡ ok tag
      → (tag == b'e') ≡ false
      → decode_value_on fuel d ≡ ok (value, d₁)
      → decode_items fuel d₁ ≡ ok (items, d₂)
      → decode_items (suc fuel) d ≡ ok (item value items, d₂)
  unfolding decode_items decode_value_on
  item_step tag value items d₁ d₂ e more h k = rw e (rw (more, ◌>>=◌) (rw h (rw k refl)))

  module _ (last_key : Option Bytes) (map : Entries) where
    pub end_entries :
        peek d ≡ ok b'e' → decode_entries (suc fuel) d last_key map ≡ ok (map, skip 1 d)
    unfolding decode_entries
    end_entries e = rw e refl

    pub entry_step :
        (tag : ℕ) (key : Bytes) (value : Bencode) (d₁ d₂ : Decoder)
        → peek d ≡ ok tag
        → (tag == b'e') ≡ false
        → decode_bytes d ≡ ok (key, d₁)
        → out_of_order d.strict last_key key ≡ false
        → decode_value_on fuel d₁ ≡ ok (value, d₂)
        → decode_entries (suc fuel) d last_key map
          ≡ decode_entries fuel d₂ (some key) (or_insert key value map)
    unfolding decode_entries decode_value_on
    entry_step tag key value d₁ d₂ e more h after k =
        rw e (rw (more, ◌>>=◌) (rw h (rw (after, ◌>>=◌) (rw k refl))))
