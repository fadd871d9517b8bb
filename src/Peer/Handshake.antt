-- ===== src/Peer/Handshake.antt =====
-- src/peer/handshake.rs: the 68-byte handshake (BEP 3), with the bits of BEP 10 and BEP 6.
pub mod RoundTrip
mod Examples
use bittorrent_rs.Prelude.{
  ℕ, ◌+◌, Bool, true, false, not, List, [], ◌∷◌, ◌++◌, ltb, ◌==◌, if◌then◌else◌, length, set,
  get_or, take, drop, replicate, Bytes, bytes_eq, test_bit, or_bit, clear_bit,
}

-- `b"BitTorrent protocol"`.
abbrev pub pstr : Bytes
pstr =
    66 ∷ 105 ∷ 116 ∷ 84 ∷ 111 ∷ 114 ∷ 114 ∷ 101 ∷ 110 ∷ 116 ∷ 32 ∷ 112 ∷ 114 ∷ 111 ∷ 116 ∷ 111 ∷ 99
    ∷ 111 ∷ 108 ∷ []

abbrev pub handshake_len : ℕ
handshake_len = 68

-- The mask `0x10` is bit 4, and `0x04` is bit 2.
abbrev pub extension_protocol_bit_byte : ℕ
extension_protocol_bit_byte = 5

abbrev pub fast_extension_bit_byte : ℕ
fast_extension_bit_byte = 7

pub record Handshake : Type 0 where
  pub reserved : Bytes
  pub info_hash : Bytes
  pub peer_id : Bytes

pub data HandshakeError : Type 0 where
  too_short : HandshakeError
  bad_pstr_len : ℕ → HandshakeError
  bad_pstr : HandshakeError

pub data Parsed : Type 0 where
  ok : Handshake → Parsed
  err : HandshakeError → Parsed

-- `|=` of one bit of a byte of the reserved field, `&= !` of it, and the test of it.
abbrev pub set_reserved : ℕ → ℕ → Bytes → Bytes
set_reserved byte bit reserved = set reserved byte (or_bit bit (get_or reserved byte 0))

abbrev pub clear_reserved : ℕ → ℕ → Bytes → Bytes
clear_reserved byte bit reserved = set reserved byte (clear_bit bit (get_or reserved byte 0))

abbrev pub new : Bytes → Bytes → Bool → Handshake
new info_hash peer_id support_extensions = record {
  reserved =
      if support_extensions
      then set_reserved extension_protocol_bit_byte 4 (replicate 8 0)
      else replicate 8 0;
  info_hash = info_hash;
  peer_id = peer_id;
}

abbrev pub with_fast : Handshake → Bool → Handshake
with_fast h fast = record h {
  reserved =
      if fast
      then set_reserved fast_extension_bit_byte 2 h.reserved
      else clear_reserved fast_extension_bit_byte 2 h.reserved;
}

abbrev pub supports_fast : Handshake → Bool
supports_fast h = test_bit 2 (get_or h.reserved fast_extension_bit_byte 0)

abbrev pub supports_extensions : Handshake → Bool
supports_extensions h = test_bit 4 (get_or h.reserved extension_protocol_bit_byte 0)

-- The fields of a `Handshake` are arrays of 8, 20 and 20 bytes.
abbrev pub to_bytes : Handshake → Bytes
to_bytes h = 19 ∷ (pstr ++ (h.reserved ++ (h.info_hash ++ h.peer_id)))

pub from_bytes : Bytes → Parsed
from_bytes buf =
    if ltb (length buf) handshake_len
    then err too_short
    else if not (get_or buf 0 0 == 19)
    then err (bad_pstr_len (get_or buf 0 0))
    else if not (bytes_eq (take 19 (drop 1 buf)) pstr)
    then err bad_pstr
    else ok (record {
      reserved = take 8 (drop 20 buf);
      info_hash = take 20 (drop 28 buf);
      peer_id = take 20 (drop 48 buf);
    })
