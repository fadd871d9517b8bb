-- ===== src/Dht/Store/Buffer.antt =====
-- src/dht/store.rs: the buffer that is signed tells the salt, the sequence number and the value apart.
use bittorrent_rs.Prelude.{
  ℕ, ◌^◌, ◌<◌, ◌≡◌, refl, sym, ap, ◌∙◌, false, Option, none, some, [], ◌∷◌, ◌++◌, arith, length,
  get_or, take, drop, take-append, drop-append, append_assoc, Bytes,
}
use bittorrent_rs.Bencode.{
  ℤ, pos, negsuc, Result, ok, err, Decoder, new, is_ascii_digit, parse_signed_until, int_text,
}
use bittorrent_rs.Bencode.Numbers.{InRange, parse_signed_until-int_text}
use bittorrent_rs.Dht.Store.{or_empty, salt_part, signing_buffer}

value_or : ℤ → Result (ℤ × Decoder) → ℤ
value_or i (ok (j, d)) = j
value_or i (err failure) = i

value_of : ℕ → ℤ → ℕ
value_of n (pos m) = m
value_of n (negsuc m) = n

-- A number that is ended by a byte other than a digit, and what is behind it, are told by the bytes.
number_first :
    (terminator : ℕ) (i j : ℤ) (xs ys : Bytes)
    → is_ascii_digit terminator ≡ false
    → InRange i
    → InRange j
    → int_text i ++ (terminator ∷ xs) ≡ int_text j ++ (terminator ∷ ys)
    → (i ≡ j) × (xs ≡ ys)
unfolding value_or
number_first t i j xs ys h r q e =
    let left = parse_signed_until-int_text t (new (int_text i ++ (t ∷ xs))) i xs h r refl in
    let right = parse_signed_until-int_text t (new (int_text j ++ (t ∷ ys))) j ys h q refl in
    let input = ap (λ bs. parse_signed_until t (new bs)) e in
    let same : i ≡ j = ap (value_or i) (sym left ∙ (input ∙ right)) in
    let len : length (int_text i) ≡ length (int_text j) = ap (λ k. length (int_text k)) same in
    let rest : t ∷ xs ≡ t ∷ ys =
      sym (drop-append (int_text i) (t ∷ xs) (length (int_text i)) refl)
      ∙ (ap (drop (length (int_text i))) e
          ∙ drop-append (int_text j) (t ∷ ys) (length (int_text i)) len) in
    (same, ap (drop 1) rest)

-- What is signed with a salt that is empty if there is none.
abbrev salted : Bytes → Bytes
salted salt = salt_part (some salt)

salt_part-salted : (salt : Option Bytes) → salt_part salt ≡ salted (or_empty salt)
salt_part-salted none = refl
salt_part-salted (some salt) = refl

abbrev tail : ℤ → Bytes → Bytes
tail seq v =
    (b'3' ∷ b':' ∷ b's' ∷ b'e' ∷ b'q' ∷ b'i' ∷ [])
    ++ (int_text seq ++ ((b'e' ∷ b'1' ∷ b':' ∷ b'v' ∷ []) ++ v))

tail_injective :
    (i j : ℤ) (v w : Bytes) → InRange i → InRange j → tail i v ≡ tail j w → (i ≡ j) × (v ≡ w)
tail_injective i j v w r q e =
    let parts =
      number_first b'e' i j ((b'1' ∷ b':' ∷ b'v' ∷ []) ++ v) ((b'1' ∷ b':' ∷ b'v' ∷ []) ++ w) refl r
        q (ap (drop 6) e) in
    (parts.0, ap (drop 3) parts.1)

-- The length tells where the salt ends.
salt_first :
    (s u : Bytes) (i j : ℤ) (v w : Bytes)
    → length s < 2 ^ 63
    → length u < 2 ^ 63
    → InRange i
    → InRange j
    → int_text (pos (length s)) ++ (b':' ∷ (s ++ tail i v))
      ≡ int_text (pos (length u)) ++ (b':' ∷ (u ++ tail j w))
    → (s ≡ u) × (i ≡ j) × (v ≡ w)
unfolding value_of
salt_first s u i j v w a b r q e =
    let parts =
      number_first b':' (pos (length s)) (pos (length u)) (s ++ tail i v) (u ++ tail j w) refl a b
        e in
    let len : length s ≡ length u = ap (value_of 0) parts.0 in
    let same : s ≡ u =
      sym (take-append s (tail i v) (length s) refl)
      ∙ (ap (take (length s)) parts.1 ∙ take-append u (tail j w) (length s) len) in
    let rest : tail i v ≡ tail j w =
      sym (drop-append s (tail i v) (length s) refl)
      ∙ (ap (drop (length s)) parts.1 ∙ drop-append u (tail j w) (length s) len) in
    let parts' = tail_injective i j v w r q rest in (same, parts'.0, parts'.1)

salted_injective :
    (s u : Bytes) (i j : ℤ) (v w : Bytes)
    → length s < 2 ^ 63
    → length u < 2 ^ 63
    → InRange i
    → InRange j
    → salted s ++ tail i v ≡ salted u ++ tail j w
    → (s ≡ u) × (i ≡ j) × (v ≡ w)
salted_injective [] [] i j v w a b r q e =
    let parts = tail_injective i j v w r q e in (refl, parts.0, parts.1)
salted_injective [] (c ∷ u) i j v w a b r q e =
    absurd (let first : 51 ≡ 52 = ap (λ bs. get_or bs 0 0) e in omega (arith, first))
salted_injective (c ∷ s) [] i j v w a b r q e =
    absurd (let first : 52 ≡ 51 = ap (λ bs. get_or bs 0 0) e in omega (arith, first))
salted_injective (c ∷ s) (d ∷ u) i j v w a b r q e =
    let salt = c ∷ s in
    let salt' = d ∷ u in
    let digits = int_text (pos (length salt)) in
    let digits' = int_text (pos (length salt')) in
    let numbered : digits ++ (b':' ∷ (salt ++ tail i v)) ≡ digits' ++ (b':' ∷ (salt' ++ tail j w)) =
      sym (append_assoc digits (b':' ∷ salt) (tail i v))
      ∙ (ap (drop 6) e ∙ append_assoc digits' (b':' ∷ salt') (tail j w)) in
    salt_first salt salt' i j v w a b r q numbered

-- Two signed buffers that are equal are of equal salts, none counting as an empty one, of equal
-- sequence numbers and of equal values, for salts shorter than 2^63 bytes and 64-bit numbers.
pub signing_buffer_injective :
    (salt salt' : Option Bytes) (seq seq' : ℤ) (v v' : Bytes)
    → length (or_empty salt) < 2 ^ 63
    → length (or_empty salt') < 2 ^ 63
    → InRange seq
    → InRange seq'
    → signing_buffer salt seq v ≡ signing_buffer salt' seq' v'
    → (or_empty salt ≡ or_empty salt') × (seq ≡ seq') × (v ≡ v')
signing_buffer_injective salt salt' seq seq' v v' a b r q e =
    salted_injective (or_empty salt) (or_empty salt') seq seq' v v' a b r q (
      sym (ap (λ bs. bs ++ tail seq v) (salt_part-salted salt))
      ∙ (e ∙ ap (λ bs. bs ++ tail seq' v') (salt_part-salted salt')))
