-- ===== src/Peer/Handshake/RoundTrip.antt =====
-- src/peer/handshake.rs: what is written is read back, and only that is accepted.
use bittorrent_rs.Prelude.{
  ◌+◌, ◌≤◌, ◌≡◌, refl, sym, ap, ◌∙◌, Bool, true, false, not, [], ◌∷◌, ◌++◌, append_assoc, arith,
  ltb, ◌==◌, if◌then◌else◌, length, take, drop, get_or, take-append, drop-append, drop-drop,
  take-split, length-append, Bytes, bytes_eq, bytes_eq_sound, ge→ltb_false, ltb_false→le, ==→eq,
  not-eq_false, get_or-set_self, get_or-set_ne, or_bit, clear_bit, test_bit-or_bit,
  test_bit-clear_bit,
}
use bittorrent_rs.Peer.Handshake.{
  Handshake, HandshakeError, Parsed, ok, err, too_short, bad_pstr_len, bad_pstr, pstr, to_bytes,
  from_bytes, with_fast, supports_fast, supports_extensions,
}

-- The sizes of the fields, which are arrays in the source.
abbrev pub HasSizes : Handshake → Type 0
HasSizes h = (length h.reserved ≡ 8) × (length h.info_hash ≡ 20) × (length h.peer_id ≡ 20)

drop_two : (xs ys zs : Bytes) → 28 ≡ length xs + length ys → drop 28 (xs ++ (ys ++ zs)) ≡ zs
drop_two xs ys zs h =
    sym (ap (drop 28) (append_assoc xs ys zs))
    ∙ drop-append (xs ++ ys) zs 28 (omega (arith, h, length-append xs ys))

-- A handshake is read back from what it is written as, whatever follows it.
pub from_bytes-to_bytes :
    (h : Handshake) (rest : Bytes) → HasSizes h → from_bytes (to_bytes h ++ rest) ≡ ok h
unfolding from_bytes
from_bytes-to_bytes h rest v =
    let tail : Bytes = h.info_hash ++ h.peer_id in
    let body : Bytes = h.reserved ++ tail in
    let after_id : Bytes = h.peer_id ++ rest in
    let assoc : body ++ rest ≡ h.reserved ++ (h.info_hash ++ after_id) =
      append_assoc h.reserved tail rest
      ∙ ap (λ x. h.reserved ++ x) (append_assoc h.info_hash h.peer_id rest) in
    let whole : length (to_bytes h ++ rest) ≡ 68 + length rest = omega (
      arith,
      length-append h.reserved tail,
      length-append h.info_hash h.peer_id,
      length-append body rest,
      v.0,
      v.1,
      v.2,
    ) in
    rw (
      ge→ltb_false (length (to_bytes h ++ rest)) 68 (omega (arith, whole)),
      assoc,
      take-append h.reserved (h.info_hash ++ after_id) 8 (sym v.0),
      drop-append h.reserved (h.info_hash ++ after_id) 8 (sym v.0),
      drop_two h.reserved h.info_hash after_id (omega (arith, v.0, v.1)),
      take-append h.info_hash after_id 20 (sym v.1),
      take-append h.peer_id rest 20 (sym v.2),
    )

reject-ok :
    (b : Bool) (e : HandshakeError) {p : Parsed} {h : Handshake}
    → (if b then err e else p) ≡ ok h
    → (b ≡ false) × (p ≡ ok h)
reject-ok true e h = cc
reject-ok false e h = (refl, h)

ok-injective : {h k : Handshake} → ok h ≡ ok k → h ≡ k
ok-injective e = cc

fields :
    (buf : Bytes)
    → take 68 buf
      ≡ take 1 buf
        ++ (take 19 (drop 1 buf)
            ++ (take 8 (drop 20 buf) ++ (take 20 (drop 28 buf) ++ take 20 (drop 48 buf))))
fields buf = rw (
  take-split 1 67 buf,
  take-split 19 48 (drop 1 buf),
  drop-drop 1 19 buf,
  take-split 8 40 (drop 20 buf),
  drop-drop 20 8 buf,
  take-split 20 20 (drop 28 buf),
  drop-drop 28 20 buf,
)

first_byte : (buf : Bytes) → 1 ≤ length buf → take 1 buf ≡ get_or buf 0 0 ∷ []
first_byte [] h = absurd (omega arith)
first_byte (b ∷ buf) h = refl

-- A buffer that is accepted starts with the 68 bytes that the handshake it is read as is written as.
pub to_bytes-from_bytes :
    (buf : Bytes) (h : Handshake) → from_bytes buf ≡ ok h → take 68 buf ≡ to_bytes h
unfolding from_bytes
to_bytes-from_bytes buf h e =
    let (long, e₁) = reject-ok (ltb (length buf) 68) too_short e in
    let (len, e₂) = reject-ok (not (get_or buf 0 0 == 19)) (bad_pstr_len (get_or buf 0 0)) e₁ in
    let (text, e₃) = reject-ok (not (bytes_eq (take 19 (drop 1 buf)) pstr)) bad_pstr e₂ in
    let size : 68 ≤ length buf = ltb_false→le (length buf) 68 long in
    let nineteen : get_or buf 0 0 ≡ 19 =
      ==→eq (get_or buf 0 0) 19 (not-eq_false (get_or buf 0 0 == 19) len) in
    let same : take 19 (drop 1 buf) ≡ pstr =
      bytes_eq_sound (take 19 (drop 1 buf)) pstr
        (not-eq_false (bytes_eq (take 19 (drop 1 buf)) pstr) text) in
    rw (fields buf, first_byte buf (omega (arith, size)), nineteen, same)
      (ap to_bytes (ok-injective e₃))

-- The Fast Extension bit is what it was last set to, and setting it leaves the Extension Protocol bit
-- as it was.
pub with_fast-bits :
    (h : Handshake) (fast : Bool)
    → HasSizes h
    → (supports_fast (with_fast h fast) ≡ fast)
      × (supports_extensions (with_fast h fast) ≡ supports_extensions h)
with_fast-bits h true v =
    let b = get_or h.reserved 7 0 in
    (
      rw (get_or-set_self h.reserved 7 (or_bit 2 b) 0 (omega (arith, v.0))) (test_bit-or_bit 2 2 b),
      rw (get_or-set_ne h.reserved 7 5 (or_bit 2 b) 0 (λ e. absurd (omega (arith, e)))),
    )
with_fast-bits h false v =
    let b = get_or h.reserved 7 0 in
    (
      rw (get_or-set_self h.reserved 7 (clear_bit 2 b) 0 (omega (arith, v.0)))
          (test_bit-clear_bit 2 2 b),
      rw (get_or-set_ne h.reserved 7 5 (clear_bit 2 b) 0 (λ e. absurd (omega (arith, e)))),
    )
