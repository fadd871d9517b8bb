-- ===== src/Utp/Packet/RoundTrip.antt =====
-- src/utp/packet.rs: a packet that is encoded is decoded to itself.
use bittorrent_rs.Prelude.{
  ℕ, suc, ◌+◌, ◌*◌, ◌/◌, ◌%◌, ◌≤◌, ◌<◌, ◌≡◌, refl, sym, ap, ◌∙◌, true, some, [], ◌∷◌, if◌then◌else◌,
  ◌++◌, arith, leb, ◌==◌, length, take, drop, get_elem?, Bytes, be16, be32, u32_mod, le→leb, min,
  ge→ltb_false, drop-drop, length-append, take-append, drop-append, take_all,
}
use bittorrent_rs.Peer.Message.Fields.{from_be-be32, from_be-be16}
use bittorrent_rs.Utp.Packet.{
  Packet, PacketType, data_packet, fin, state, reset, syn, ok, chain, encode, decode, code,
  from_code, is_empty, sack_extension, note_sack, header_len, version,
}

-- The fields of a packet that fit their machine words, and a selective ACK that is not cut.
abbrev pub Fits : Packet → Type 0
Fits p =
    (p.connection_id < 65536)
    × (p.timestamp < u32_mod)
    × (p.timestamp_diff < u32_mod)
    × (p.wnd_size < u32_mod)
    × (p.seq_nr < 65536)
    × (p.ack_nr < 65536)
    × (length p.sack ≤ 8)

kind_read : (kind : PacketType) → from_code ((code kind * 16 % 256 + version) / 16) ≡ some kind
kind_read data_packet = refl
kind_read fin = refl
kind_read state = refl
kind_read reset = refl
kind_read syn = refl

version_read : (kind : PacketType) → ((code kind * 16 % 256 + version) % 16 == version) ≡ true
version_read data_packet = refl
version_read fin = refl
version_read state = refl
version_read reset = refl
version_read syn = refl

note_sack-first : (body sack : Bytes) → body ≡ sack → length sack ≤ 8 → note_sack 1 body [] ≡ sack
note_sack-first body sack e short = rw e (
    let few : length sack ≤ min (length sack) 8 = omega arith in
    take_all (min (length sack) 8) sack few)

-- The chain of a packet with a selective ACK.
chain-sack :
    (fuel : ℕ) (datagram payload : Bytes) (b : ℕ) (bs : Bytes)
    → length (b ∷ bs) ≤ 8
    → get_elem? datagram 20 ≡ some 0
    → get_elem? datagram 21 ≡ some (length (b ∷ bs) % 256)
    → drop 22 datagram ≡ (b ∷ bs) ++ payload
    → length datagram ≡ 22 + length ((b ∷ bs) ++ payload)
    → chain (suc (suc fuel)) datagram 1 header_len [] ≡ ok (22 + length (b ∷ bs), b ∷ bs)
unfolding chain
chain-sack fuel datagram payload b bs short e₀ e₁ body size =
    let len : length (b ∷ bs) % 256 ≡ length (b ∷ bs) = omega arith in
    let sack : Bytes = b ∷ bs in
    let within : leb (22 + length sack) (length datagram) ≡ true =
      le→leb (22 + length sack) (length datagram)
        (omega (arith, size, length-append sack payload)) in
    let whole : 20 + (2 + length sack) ≡ 22 + length sack = omega arith in
    rw (e₀, e₁, len, whole, within, body)
      (ap (λ (s : Bytes). ok (22 + length sack, s))
        (note_sack-first (take (length sack) (sack ++ payload)) sack
          (take-append sack payload (length sack) refl) short))

-- A datagram with the header of `p`, the extension byte `ext`, and `tail` behind the header.
abbrev headed : Packet → ℕ → Bytes → Bytes
headed p ext tail =
    (code p.kind * 16 % 256 + version)
    ∷ ext
    ∷ (be16 p.connection_id
        ++ (be32 p.timestamp
            ++ (be32 p.timestamp_diff
                ++ (be32 p.wnd_size ++ (be16 p.seq_nr ++ (be16 p.ack_nr ++ tail))))))

decode-headed :
    (p : Packet) (ext : ℕ) (tail : Bytes) (end : ℕ × Bytes)
    → Fits p
    → chain (length (headed p ext tail)) (headed p ext tail) ext header_len [] ≡ ok end
    → decode (headed p ext tail)
      ≡ ok (record p { sack = end.1; payload = drop end.0 (headed p ext tail) })
unfolding decode
decode-headed p ext tail end v h = rw (
  ge→ltb_false (length (headed p ext tail)) header_len (omega arith),
  version_read p.kind,
  kind_read p.kind,
  h,
  from_be-be16 p.connection_id v.0,
  from_be-be32 p.timestamp v.1,
  from_be-be32 p.timestamp_diff v.2,
  from_be-be32 p.wnd_size v.3,
  from_be-be16 p.seq_nr v.4,
  from_be-be16 p.ack_nr v.5,
)

-- A packet with `sack` in place of its own, as it is sent.
abbrev sent : Packet → Bytes → Bytes
sent p sack = headed p (if is_empty sack then 0 else 1) (sack_extension sack ++ p.payload)

decode-sent :
    (p : Packet) (sack : Bytes)
    → Fits p
    → length sack ≤ 8
    → decode (sent p sack) ≡ ok (record p { sack = sack })
unfolding chain
decode-sent p [] v short = decode-headed p 0 p.payload (header_len, []) v refl
decode-sent p (b ∷ bs) v short =
    let tail : Bytes = sack_extension (b ∷ bs) ++ p.payload in
    let end : ℕ × Bytes = (22 + length (b ∷ bs), b ∷ bs) in
    decode-headed p 1 tail end v (
      chain-sack (length (drop 2 (headed p 1 tail))) (headed p 1 tail) p.payload b bs short refl
        refl refl (omega arith))
    ∙ ap (λ (x : Bytes). ok (record p { sack = b ∷ bs; payload = x }))
        (sym (drop-drop 22 (length (b ∷ bs)) (headed p 1 tail))
          ∙ drop-append (b ∷ bs) p.payload (length (b ∷ bs)) refl)

-- A packet whose fields fit their machine words, and whose selective ACK is not longer than what is
-- sent of one, is decoded to itself.
pub decode-encode : (p : Packet) → Fits p → decode (encode p) ≡ ok p
unfolding encode
decode-encode p v = rw (take_all 8 p.sack v.6) (decode-sent p p.sack v v.6)
