-- ===== src/Crypto/Sha256/Streaming.antt =====
-- src/sha256.rs: feeding the hash in parts gives what feeding it at once gives.
use bittorrent_rs.Prelude.{
  ℕ, zero, suc, ◌+◌, ◌-◌, ◌*◌, ◌%◌, ◌≤◌, ◌<◌, min, ◌≡◌, refl, sym, ap, ◌∙◌, inl, inr, List, [], ◌∷◌,
  ◌++◌, append-nil, append_assoc, arith, ltb, Bool-cases, ge→ltb_false, length, take, drop,
  length-append, length-take, length-drop, take-append, take-append_le, drop-append_le,
  take-append_ge, drop-append_ge, take_all, drop_all, Bytes, u64_mod,
}
use bittorrent_rs.Crypto.Sha256.{
  Sha256, new, update, update_blocks, compress, compress_blocks, copy_into, tail_of, words_bytes,
  finalize, sha256,
}

-- The whole blocks of `xs` go into the state, and what is left comes back.
abbrev absorb : List ℕ → Bytes → List ℕ × Bytes
absorb state xs = compress_blocks (length xs) state xs

compress_blocks-fuel :
    (f g : ℕ) (state : List ℕ) (xs : Bytes)
    → length xs < 64 * f + 64
    → length xs < 64 * g + 64
    → compress_blocks f state xs ≡ compress_blocks g state xs
unfolding compress_blocks
compress_blocks-fuel zero zero state xs p q = refl
compress_blocks-fuel zero (suc g) state xs p q = ground arith
compress_blocks-fuel (suc f) zero state xs p q = ground arith
compress_blocks-fuel (suc f) (suc g) state xs p q = elim (Bool-cases (ltb (length xs) 64)) [
  | inl few ↦ rw few
  | inr many ↦ rw many (
      compress_blocks-fuel f g (compress state (take 64 xs)) (drop 64 xs)
        (ground (arith, length-drop 64 xs)) (ground (arith, length-drop 64 xs)))
]

absorb-few : (state : List ℕ) (xs : Bytes) → length xs < 64 → absorb state xs ≡ (state, xs)
unfolding compress_blocks
absorb-few state xs h = compress_blocks-fuel (length xs) 0 state xs (omega arith) (omega arith)

absorb-block :
    (state : List ℕ) (xs : Bytes)
    → 64 ≤ length xs
    → absorb state xs ≡ absorb (compress state (take 64 xs)) (drop 64 xs)
unfolding compress_blocks
absorb-block state xs h =
    compress_blocks-fuel (length xs) (suc (length (drop 64 xs))) state xs (omega arith)
      (omega (arith, length-drop 64 xs))
    ∙ rw (ge→ltb_false (length xs) 64 h) refl

compress_blocks-append :
    (f : ℕ) (state : List ℕ) (xs ys : Bytes)
    → length xs < 64 * f + 64
    → absorb state (xs ++ ys)
      ≡ absorb (compress_blocks f state xs).0 ((compress_blocks f state xs).1 ++ ys)
unfolding compress_blocks
compress_blocks-append zero state xs ys h = refl
compress_blocks-append (suc f) state xs ys h = elim (Bool-cases (ltb (length xs) 64)) [
  | inl few ↦ rw few refl
  | inr many ↦ rw many (
      absorb-block state (xs ++ ys) (ground (arith, length-append xs ys))
      ∙ rw (take-append_le 64 xs ys (ground arith), drop-append_le 64 xs ys (ground arith))
          (compress_blocks-append f (compress state (take 64 xs)) (drop 64 xs) ys
            (ground (arith, length-drop 64 xs))))
]

compress_blocks-lt :
    (f : ℕ) (state : List ℕ) (xs : Bytes)
    → length xs < 64 * f + 64
    → length (compress_blocks f state xs).1 < 64
unfolding compress_blocks
compress_blocks-lt zero state xs h = omega arith
compress_blocks-lt (suc f) state xs h = elim (Bool-cases (ltb (length xs) 64)) [
  | inl few ↦ rw few (ground arith)
  | inr many ↦ rw many (
      compress_blocks-lt f (compress state (take 64 xs)) (drop 64 xs)
        (ground (arith, length-drop 64 xs)))
]

-- What a hasher stands for: the state after the whole blocks, the bytes that wait for a block, and
-- the number of bytes hashed.
record Represents (s : Sha256) (state : List ℕ) (waiting : Bytes) : Type 0 where
  is_state : s.state ≡ state
  is_waiting : take s.buffered s.buffer ≡ waiting
  has_buffered : s.buffered ≡ length waiting
  has_buffer : length s.buffer ≡ 64
  is_short : length waiting < 64

Represents-new : Represents new new.state []
unfolding new
Represents-new = record {
  is_state = refl;
  is_waiting = refl;
  has_buffered = refl;
  has_buffer = refl;
  is_short = omega arith;
}

copy_into-length :
    (buf : Bytes) (at : ℕ) (xs : Bytes)
    → at + length xs ≤ length buf
    → length (copy_into buf at xs) ≡ length buf
unfolding copy_into
copy_into-length buf at xs h = omega (
  arith,
  length-append (take at buf) (xs ++ drop (at + length xs) buf),
  length-append xs (drop (at + length xs) buf),
  length-take at buf,
  length-drop (at + length xs) buf,
)

take-copy_into :
    (buf : Bytes) (at : ℕ) (xs : Bytes) (n : ℕ)
    → n ≡ at + length xs
    → n ≤ length buf
    → take n (copy_into buf at xs) ≡ take at buf ++ xs
unfolding copy_into
take-copy_into buf at xs n e h =
    ap (take n) (sym (append_assoc (take at buf) xs (drop (at + length xs) buf)))
    ∙ take-append (take at buf ++ xs) (drop (at + length xs) buf) n
        (omega (arith, length-append (take at buf) xs, length-take at buf))

update_blocks-Represents :
    (s : Sha256) (xs : Bytes)
    → length s.buffer ≡ 64
    → Represents (update_blocks s xs) (absorb s.state xs).0 (absorb s.state xs).1
unfolding update_blocks
update_blocks-Represents s xs h =
    let short = compress_blocks-lt (length xs) s.state xs (omega arith) in
    let left : Bytes = (absorb s.state xs).1 in
    record {
      is_state = refl;
      is_waiting = take-copy_into s.buffer 0 left (length left) (omega arith) (omega arith);
      has_buffered = refl;
      has_buffer = copy_into-length s.buffer 0 left (omega arith) ∙ h;
      is_short = short;
    }

-- The buffer is filled up by the first bytes of the data.
copy_into-fills :
    (buf waiting xs : Bytes)
    → length buf ≡ 64
    → take (length waiting) buf ≡ waiting
    → length waiting < 64
    → 64 ≤ length (waiting ++ xs)
    → copy_into buf (length waiting) (take (64 - length waiting) xs) ≡ take 64 (waiting ++ xs)
unfolding copy_into
copy_into-fills buf waiting xs full w short many =
    let n : ℕ = 64 - length waiting in
    let fit : length (take n xs) ≡ n = omega (arith, length-take n xs, length-append waiting xs) in
    rw (
      w,
      drop_all (length waiting + length (take n xs)) buf (omega arith),
      append-nil,
      take-append_ge 64 waiting xs (omega arith),
    )

length-zero_nil {ℓ} : {A : Type ℓ} (xs : List A) → length xs ≡ 0 → xs ≡ []
length-zero_nil [] h = refl
length-zero_nil (x ∷ xs) h = absurd (omega arith)

-- A buffer that is not filled up: the bytes join those that wait.
update-few :
    (s : Sha256) (state : List ℕ) (waiting xs : Bytes) (hashed : ℕ)
    → Represents s state waiting
    → length waiting + length xs < 64
    → Represents
        (record s {
          buffer = copy_into s.buffer s.buffered xs;
          buffered = s.buffered + length xs;
          length_hashed = hashed;
        })
        (absorb state (waiting ++ xs)).0
        (absorb state (waiting ++ xs)).1
update-few s state waiting xs hashed r h =
    let short : length (waiting ++ xs) < 64 = omega (arith, length-append waiting xs) in
    rw (absorb-few state (waiting ++ xs) short) (record {
      is_state = r.is_state;
      is_waiting =
          take-copy_into s.buffer s.buffered xs (s.buffered + length xs) refl (omega arith)
          ∙ ap (λ (ys : Bytes). ys ++ xs) r.is_waiting;
      has_buffered = omega (arith, length-append waiting xs);
      has_buffer = copy_into-length s.buffer s.buffered xs (omega arith) ∙ r.has_buffer;
      is_short = short;
    })

-- A buffer that is filled up is compressed, and the rest of the bytes follow.
update-many :
    (s : Sha256) (state : List ℕ) (waiting xs : Bytes) (hashed : ℕ)
    → Represents s state waiting
    → 64 ≤ length waiting + length xs
    → let filled = copy_into s.buffer (length waiting) (take (64 - length waiting) xs) in
      Represents
        (update_blocks
          (record {
            state = compress s.state filled;
            buffer = filled;
            buffered = 0;
            length_hashed = hashed;
          })
          (drop (64 - length waiting) xs))
        (absorb state (waiting ++ xs)).0
        (absorb state (waiting ++ xs)).1
update-many s state waiting xs hashed r h =
    let n : ℕ = 64 - length waiting in
    let long : 64 ≤ length (waiting ++ xs) = omega (arith, length-append waiting xs) in
    let filled : Bytes = copy_into s.buffer (length waiting) (take n xs) in
    let fills : filled ≡ take 64 (waiting ++ xs) =
      copy_into-fills s.buffer waiting xs r.has_buffer (rw r.has_buffered at r.is_waiting)
        r.is_short long in
    let rest : drop 64 (waiting ++ xs) ≡ drop n xs = drop-append_ge 64 waiting xs (omega arith) in
    let size : length filled ≡ 64 =
      copy_into-length s.buffer (length waiting) (take n xs) (omega (arith, length-take n xs))
      ∙ r.has_buffer in
    rw (absorb-block state (waiting ++ xs) long, ← fills, rest, ← r.is_state)
      (update_blocks-Represents
        (record {
          state = compress s.state filled;
          buffer = filled;
          buffered = 0;
          length_hashed = hashed;
        })
        (drop n xs) size)

update-Represents :
    (s : Sha256) (state : List ℕ) (waiting xs : Bytes)
    → Represents s state waiting
    → Represents (update s xs) (absorb state (waiting ++ xs)).0 (absorb state (waiting ++ xs)).1
unfolding update
update-Represents s state waiting xs r = elim (Bool-cases (ltb 0 s.buffered)) [
  | inl some_waiting ↦ elim (Bool-cases (ltb (s.buffered + n) 64)) [
    | inl few ↦
        let e : n ≡ length xs = ground (arith, r.has_buffered, r.is_short) in
        let all : take (length xs) xs ≡ xs = take_all (length xs) xs (omega arith) in
        rw (some_waiting, few, e, all)
          (update-few s state waiting xs _ r (ground (arith, r.has_buffered, r.is_short)))
    | inr many ↦
        let e : n ≡ 64 - length waiting = ground (arith, r.has_buffered, r.is_short) in
        rw (some_waiting, many, e, r.has_buffered)
          (update-many s state waiting xs _ r (ground (arith, r.has_buffered, r.is_short)))
  ]
  | inr none_waiting ↦
      let e : waiting ≡ [] = length-zero_nil waiting (ground (arith, r.has_buffered)) in
      rw (none_waiting, e, ← r.is_state) (update_blocks-Represents _ xs r.has_buffer)
]
  where
    n : ℕ
    n = min (64 - s.buffered) (length xs)

update-length_hashed :
    (s : Sha256) (xs : Bytes)
    → (update s xs).length_hashed ≡ (s.length_hashed + length xs) % u64_mod
unfolding update update_blocks
update-length_hashed s xs = ground arith

-- Hashers that stand for the same state, waiting bytes and length have one digest.
finalize-eq :
    (s t : Sha256) (state : List ℕ) (waiting : Bytes)
    → Represents s state waiting
    → Represents t state waiting
    → s.length_hashed ≡ t.length_hashed
    → finalize s ≡ finalize t
unfolding finalize
finalize-eq s t state waiting r q h =
    let same : s.buffered ≡ t.buffered = omega (arith, r.has_buffered, q.has_buffered) in
    let ts : Bytes = tail_of s.buffered s.length_hashed in
    let tail : Bytes = tail_of t.buffered t.length_hashed in
    let tails : ts ≡ tail = cc in
    ap words_bytes (
      (update-Represents s state waiting ts r).is_state
      ∙ ap (λ (b : Bytes). (absorb state (waiting ++ b)).0) tails
      ∙ sym (update-Represents t state waiting tail q).is_state)

new-length_hashed : new.length_hashed < u64_mod
unfolding new
new-length_hashed = omega arith

-- A hasher that is fed one part after another.
pub feed : Sha256 → List Bytes → Sha256
feed s [] = s
feed s (xs ∷ parts) = feed (update s xs) parts

abbrev pub concat : List Bytes → Bytes
concat [] = []
concat (xs ∷ parts) = xs ++ concat parts

feed-Represents :
    (parts : List Bytes) (s : Sha256) (state : List ℕ) (waiting : Bytes)
    → Represents s state waiting
    → Represents
        (feed s parts)
        (absorb state (waiting ++ concat parts)).0
        (absorb state (waiting ++ concat parts)).1
unfolding feed
feed-Represents [] s state waiting r =
    rw (append-nil waiting, absorb-few state waiting r.is_short) r
feed-Represents (xs ∷ parts) s state waiting r =
    let joined =
      compress_blocks-append (length (waiting ++ xs)) state (waiting ++ xs) (concat parts)
        (omega arith) in
    rw (← append_assoc waiting xs (concat parts), joined)
      (feed-Represents parts (update s xs) _ _ (update-Represents s state waiting xs r))

feed-length_hashed :
    (parts : List Bytes) (s : Sha256)
    → s.length_hashed < u64_mod
    → (feed s parts).length_hashed ≡ (s.length_hashed + length (concat parts)) % u64_mod
unfolding feed
feed-length_hashed [] s h = omega arith
feed-length_hashed (xs ∷ parts) s h = omega (
  arith,
  feed-length_hashed parts (update s xs) (omega (arith, update-length_hashed s xs)),
  update-length_hashed s xs,
  length-append xs (concat parts),
)

-- However the data is cut into parts, feeding the parts one after another to a new hasher gives the
-- digest of the whole.
pub finalize-feed : (parts : List Bytes) → finalize (feed new parts) ≡ sha256 (concat parts)
unfolding sha256
finalize-feed parts =
    let fed = feed-Represents parts new new.state [] Represents-new in
    let whole = update-Represents new new.state [] (concat parts) Represents-new in
    finalize-eq (feed new parts) (update new (concat parts)) _ _ fed whole (
      omega (
        arith,
        feed-length_hashed parts new new-length_hashed,
        update-length_hashed new (concat parts),
      ))
