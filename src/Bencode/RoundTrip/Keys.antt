-- ===== src/Bencode/RoundTrip/Keys.antt =====
-- src/bencode.rs: keys that come in order are inserted at the end.
use bittorrent_rs.Prelude.{◌≡◌, refl, ap, true, false, [], ◌∷◌, arith, Bytes, bytes_eq}
use bittorrent_rs.Bencode.{Bencode, Entries, no_entries, entry, bytes_lt, or_insert}

pub bytes_lt_trans :
    (xs ys zs : Bytes) → bytes_lt xs ys ≡ true → bytes_lt ys zs ≡ true → bytes_lt xs zs ≡ true
bytes_lt_trans [] [] zs h k = ground arith
bytes_lt_trans [] (y ∷ ys) [] h k = ground arith
bytes_lt_trans [] (y ∷ ys) (z ∷ zs) h k = refl
bytes_lt_trans (x ∷ xs) [] zs h k = ground arith
bytes_lt_trans (x ∷ xs) (y ∷ ys) [] h k = ground arith
bytes_lt_trans (x ∷ xs) (y ∷ ys) (z ∷ zs) h k = ground (arith, bytes_lt_trans xs ys zs)

bytes_lt-eq_false : (xs ys : Bytes) → bytes_lt xs ys ≡ true → bytes_eq xs ys ≡ false
bytes_lt-eq_false [] [] h = ground arith
bytes_lt-eq_false [] (y ∷ ys) h = refl
bytes_lt-eq_false (x ∷ xs) [] h = ground arith
bytes_lt-eq_false (x ∷ xs) (y ∷ ys) h = ground (arith, bytes_lt-eq_false xs ys)

bytes_lt-asym : (xs ys : Bytes) → bytes_lt xs ys ≡ true → bytes_lt ys xs ≡ false
bytes_lt-asym [] [] h = ground arith
bytes_lt-asym [] (y ∷ ys) h = refl
bytes_lt-asym (x ∷ xs) [] h = ground arith
bytes_lt-asym (x ∷ xs) (y ∷ ys) h = ground (arith, bytes_lt-asym xs ys)

-- Every key of the map is before this one.
abbrev pub Below : Bytes → Entries → Type 0
Below key no_entries = Unit
Below key (entry k v rest) = (bytes_lt k key ≡ true) × Below key rest

abbrev pub join : Entries → Entries → Entries
join no_entries others = others
join (entry k v rest) others = entry k v (join rest others)

pub join_assoc : (a b c : Entries) → join (join a b) c ≡ join a (join b c)
join_assoc no_entries b c = refl
join_assoc (entry k v a) b c = ap (entry k v) (join_assoc a b c)

pub join-none : (a : Entries) → join a no_entries ≡ a
join-none no_entries = refl
join-none (entry k v a) = ap (entry k v) (join-none a)

pub or_insert-Below :
    (key : Bytes) (value : Bencode) (map : Entries)
    → Below key map
    → or_insert key value map ≡ join map (entry key value no_entries)
or_insert-Below key value no_entries h = refl
or_insert-Below key value (entry k v rest) h =
    rw (bytes_lt-eq_false k key h.0, bytes_lt-asym k key h.0)
      (ap (entry k v) (or_insert-Below key value rest h.1))

Below-trans :
    (key next : Bytes) (map : Entries) → bytes_lt key next ≡ true → Below key map → Below next map
Below-trans key next no_entries e h = tt
Below-trans key next (entry k v rest) e h =
    (bytes_lt_trans k key next h.0 e, Below-trans key next rest e h.1)

pub Below-join :
    (key next : Bytes) (value : Bencode) (map : Entries)
    → bytes_lt key next ≡ true
    → Below key map
    → Below next (join map (entry key value no_entries))
Below-join key next value no_entries e h = (e, tt)
Below-join key next value (entry k v rest) e h =
    (bytes_lt_trans k key next h.0 e, Below-join key next value rest e h.1)
