-- ===== src/Utp/Packet/Chain.antt =====
-- src/utp/packet.rs: the loop over the extension chain ends.
use bittorrent_rs.Prelude.{
  ℕ, zero, suc, ◌+◌, ◌≤◌, ◌<◌, ◌≡◌, ◌≢◌, refl, [], arith, ltb, leb, ◌==◌, length, take, drop,
  get_elem?, get_or, Bytes, Bool-cases, Option-cases, inl, inr, leb→le, ltb_false→le, min,
  length-take, length-drop, ◌/◌, ◌%◌, List, ◌∷◌, ◌++◌, some, sym, ap, ◌∙◌, not, ◌&&◌, if◌then◌else◌,
  All, ==→eq, drop-drop, take-append-drop, append_assoc, ap₂, false,
}
use bittorrent_rs.Utp.Packet.{
  Packet, PacketType, out_of_fuel, bad_extension, Result, ok, err, chain, decode, note_sack,
  from_code, packet_of, max_sack_bytes, ext_selective_ack, is_empty, version, header_len,
}

-- An extension is its kind and its body. In the bytes, its kind stands in the byte before it that
-- says what follows, and then come what follows it, the length of its body and the body.
abbrev pub Extension : Type 0
Extension = ℕ × Bytes

abbrev pub first_kind : List Extension → ℕ
first_kind [] = 0
first_kind ((kind, body) ∷ extensions) = kind

abbrev pub extension_bytes : List Extension → Bytes
extension_bytes [] = []
extension_bytes ((kind, body) ∷ extensions) =
    first_kind extensions ∷ length body ∷ (body ++ extension_bytes extensions)

-- The first eight bytes of the first selective ACK that is not empty.
abbrev pub first_sack : List Extension → Bytes
first_sack [] = []
first_sack ((kind, body) ∷ extensions) =
    if kind == ext_selective_ack && not (is_empty body)
    then take max_sack_bytes body
    else first_sack extensions

abbrev or_later : Bytes → List Extension → Bytes
or_later sack extensions = if is_empty sack then first_sack extensions else sack

-- What the loop has read when it ends: the extensions, the first of the kind it began with.
record Read (datagram : Bytes) (next at : ℕ) (sack : Bytes) (end : ℕ × Bytes) : Type 0 where
  extensions : List Extension
  kind_before : next ≡ first_kind extensions
  are_kinds : All (λ e. (e.0 == 0) ≡ false) extensions
  bytes : drop at datagram ≡ extension_bytes extensions ++ drop end.0 datagram
  noted : end.1 ≡ or_later sack extensions

abbrev Ends : Bytes → ℕ → ℕ → Bytes → Result (ℕ × Bytes) → Type 0
Ends datagram next at sack (ok end) = Read datagram next at sack end
Ends datagram next at sack (err e) = e ≡ bad_extension

drop-get_elem? :
    (n : ℕ) (xs : Bytes) (x : ℕ) → get_elem? xs n ≡ some x → drop n xs ≡ x ∷ drop (n + 1) xs
drop-get_elem? n [] x e = absurd (cc e)
drop-get_elem? zero (y ∷ xs) x e = cc e
drop-get_elem? (suc n) (y ∷ xs) x e =
    let next : suc n + 1 ≡ suc (n + 1) = omega arith in rw next (drop-get_elem? n xs x e)

take-min : (n : ℕ) (xs : Bytes) → take (min (length xs) n) xs ≡ take n xs
take-min zero xs = let e : min (length xs) 0 ≡ 0 = omega arith in rw e refl
take-min (suc n) [] = let e : min 0 (suc n) ≡ 0 = omega arith in rw e refl
take-min (suc n) (x ∷ xs) =
    let e : min (suc (length xs)) (suc n) ≡ suc (min (length xs) n) = omega arith in
    rw e (ap (◌∷◌ x) (take-min n xs))

note_sack-or_later :
    (next : ℕ) (body sack : Bytes) (extensions : List Extension)
    → or_later (note_sack next body sack) extensions ≡ or_later sack ((next, body) ∷ extensions)
note_sack-or_later next body (b ∷ sack) extensions = elim (Bool-cases (next == ext_selective_ack)) [
  | inl e ↦ rw e refl
  | inr e ↦ rw e refl
]
note_sack-or_later next [] [] extensions = elim (Bool-cases (next == ext_selective_ack)) [
  | inl e ↦ rw e refl
  | inr e ↦ rw e refl
]
note_sack-or_later next (b ∷ body) [] extensions = elim (Bool-cases (next == ext_selective_ack)) [
  | inl e ↦ rw (e, take-min max_sack_bytes (b ∷ body)) refl
  | inr e ↦ rw e refl
]

two_bytes :
    (datagram : Bytes) (at a b : ℕ)
    → get_elem? datagram at ≡ some a
    → get_elem? datagram (at + 1) ≡ some b
    → drop at datagram ≡ a ∷ b ∷ drop (at + 2) datagram
two_bytes datagram at a b e e₁ =
    let next : at + 1 + 1 ≡ at + 2 = omega arith in
    drop-get_elem? at datagram a e
    ∙ ap (◌∷◌ a) (drop-get_elem? (at + 1) datagram b e₁ ∙ ap (λ n. b ∷ drop n datagram) next)

-- A body and what is behind it.
behind_body :
    (datagram rest : Bytes) (at len : ℕ)
    → drop (at + (2 + len)) datagram ≡ rest
    → drop (at + 2) datagram ≡ take len (drop (at + 2) datagram) ++ rest
behind_body datagram rest at len e =
    let there : at + 2 + len ≡ at + (2 + len) = omega arith in
    sym (take-append-drop len (drop (at + 2) datagram))
    ∙ ap (λ bs. take len (drop (at + 2) datagram) ++ bs)
        (drop-drop (at + 2) len datagram ∙ (ap (λ n. drop n datagram) there ∙ e))

-- One extension more, in front.
Read-cons :
    (datagram : Bytes) (next following len at : ℕ) (sack : Bytes) (end : ℕ × Bytes)
    → (next == 0) ≡ false
    → get_elem? datagram at ≡ some following
    → get_elem? datagram (at + 1) ≡ some len
    → at + (2 + len) ≤ length datagram
    → Read datagram following
        (at + (2 + len))
        (note_sack next (take len (drop (at + 2) datagram)) sack)
        end
    → Read datagram next at sack end
Read-cons datagram next following len at sack end more e e₁ within r =
    let body = take len (drop (at + 2) datagram) in
    let size : length body ≡ len =
      omega
        (arith, length-take len (drop (at + 2) datagram), length-drop (at + 2) datagram, within) in
    let after : drop (at + 2) datagram
        ≡ (body ++ extension_bytes r.extensions) ++ drop end.0 datagram =
      behind_body datagram (extension_bytes r.extensions ++ drop end.0 datagram) at len r.bytes
      ∙ sym (append_assoc body (extension_bytes r.extensions) (drop end.0 datagram)) in
    record {
      extensions = (next, body) ∷ r.extensions;
      kind_before = refl;
      are_kinds = (more, r.are_kinds);
      bytes =
          two_bytes datagram at following len e e₁
          ∙ ap₂ (λ k m. k ∷ m) r.kind_before (ap₂ (λ k m. k ∷ m) (sym size) after);
      noted = r.noted ∙ note_sack-or_later next body sack r.extensions;
    }

Ends-cons :
    (datagram : Bytes) (next following len at : ℕ) (sack : Bytes) (r : Result (ℕ × Bytes))
    → (next == 0) ≡ false
    → get_elem? datagram at ≡ some following
    → get_elem? datagram (at + 1) ≡ some len
    → at + (2 + len) ≤ length datagram
    → Ends datagram following
        (at + (2 + len))
        (note_sack next (take len (drop (at + 2) datagram)) sack)
        r
    → Ends datagram next at sack r
Ends-cons datagram next following len at sack (ok end) more e e₁ within r =
    Read-cons datagram next following len at sack end more e e₁ within r
Ends-cons datagram next following len at sack (err x) more e e₁ within r = r

nothing_later : (sack : Bytes) → sack ≡ or_later sack []
nothing_later [] = refl
nothing_later (b ∷ sack) = refl

chain-Ends :
    (fuel : ℕ) (datagram : Bytes) (next at : ℕ) (sack : Bytes)
    → length datagram < fuel + at
    → at ≤ length datagram
    → Ends datagram next at sack (chain fuel datagram next at sack)
unfolding chain
chain-Ends zero datagram next at sack h k = absurd (omega arith)
chain-Ends (suc fuel) datagram next at sack h k = elim (Bool-cases (next == 0)) [
  | inl last ↦ rw last (record {
    extensions = [];
    kind_before = ==→eq next 0 last;
    are_kinds = tt;
    bytes = refl;
    noted = nothing_later sack;
  })
  | inr more ↦ elim (Option-cases (get_elem? datagram at)) [
    | inl e ↦ rw (more, e) refl
    | inr (following, e) ↦ elim (Option-cases (get_elem? datagram (at + 1))) [
      | inl e₁ ↦ rw (more, e, e₁) refl
      | inr (len, e₁) ↦ elim (Bool-cases (leb (at + (2 + len)) (length datagram))) [
        | inr past ↦ rw (more, e, e₁, past) refl
        | inl within ↦
            let le : at + (2 + len) ≤ length datagram =
              leb→le (at + (2 + len)) (length datagram) within in
            let body = take len (drop (at + 2) datagram) in
            let rest =
              chain-Ends fuel datagram following (at + (2 + len)) (note_sack next body sack)
                (omega (arith, h)) le in
            rw (more, e, e₁, within)
              (Ends-cons datagram next following len at sack _ more e e₁ le rest)
      ]
    ]
  ]
]

-- What a datagram is decoded to: behind the header are extensions, the first of the kind that the
-- header says, and then the payload; the selective ACK is the first that is not empty, of which eight
-- bytes count. The fuel is never used up.
abbrev pub Decoded : Bytes → Result Packet → Type 0
Decoded datagram (ok p) =
    (extensions : List Extension) × (get_or datagram 1 0 ≡ first_kind extensions)
    × All (λ e. (e.0 == 0) ≡ false) extensions
    × (drop header_len datagram ≡ extension_bytes extensions ++ p.payload)
    × (p.sack ≡ first_sack extensions)
Decoded datagram (err e) = e ≢ out_of_fuel

abbrev finish : PacketType → Bytes → Result (ℕ × Bytes) → Result Packet
finish kind datagram r = elim r [ err e ↦ err e | ok end ↦ ok (packet_of kind datagram end) ]

finish-Decoded :
    (kind : PacketType) (datagram : Bytes) (r : Result (ℕ × Bytes))
    → Ends datagram (get_or datagram 1 0) header_len [] r
    → Decoded datagram (finish kind datagram r)
finish-Decoded kind datagram (ok end) h =
    (h.extensions, h.kind_before, h.are_kinds, h.bytes, h.noted)
finish-Decoded kind datagram (err e) h = λ q. cc (h, q)

-- Every datagram is decoded, to a packet or to an error of the source: the loop over the extensions
-- ends. Of a packet, the bytes behind the header are extensions, none of kind 0 and the first of the
-- kind in the header, and then the payload, which is all that is left; its selective ACK is the first
-- eight bytes at most of the first extension of that kind whose body is not empty, if there is one.
pub decode-Decoded : (datagram : Bytes) → Decoded datagram (decode datagram)
unfolding decode
decode-Decoded datagram = elim (Bool-cases (ltb (length datagram) header_len)) [
  | inl short ↦ rw short (λ q. cc q)
  | inr long ↦ elim (Bool-cases (get_or datagram 0 0 % 16 == version)) [
    | inr other ↦ rw (long, other) (λ q. cc q)
    | inl same ↦ elim (Option-cases (from_code (get_or datagram 0 0 / 16))) [
      | inl e ↦ rw (long, same, e) (λ q. cc q)
      | inr (kind, e) ↦
          let size : header_len ≤ length datagram =
            ltb_false→le (length datagram) header_len long in
          rw (long, same, e)
            (finish-Decoded kind datagram
              (chain (length datagram) datagram (get_or datagram 1 0) header_len [])
              (chain-Ends (length datagram) datagram (get_or datagram 1 0) header_len []
                (omega arith) size))
    ]
  ]
]
