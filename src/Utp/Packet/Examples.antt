-- ===== src/Utp/Packet/Examples.antt =====
-- src/utp/packet.rs: the theorems at concrete inputs.
use bittorrent_rs.Prelude.{◌≡◌, refl, [], ◌∷◌, replicate, arith, ◌++◌, Bytes}
use bittorrent_rs.Utp.Packet.{Packet, data_packet, bad_extension, encode, decode, chain, ok, err}
use bittorrent_rs.Utp.Packet.RoundTrip.{decode-encode}
use bittorrent_rs.Utp.Packet.Chain.{Decoded, decode-Decoded}

abbrev sample : Packet
sample = record {
  kind = data_packet;
  connection_id = 4660;
  timestamp = 2864434397;
  timestamp_diff = 16909060;
  wnd_size = 327680;
  seq_nr = 32769;
  ack_nr = 32767;
  sack = 5 ∷ 0 ∷ 0 ∷ 128 ∷ [];
  payload = 104 ∷ 105 ∷ [];
}

decode-encode_example : decode (encode sample) ≡ ok sample
decode-encode_example =
    decode-encode sample
      (omega arith, omega arith, omega arith, omega arith, omega arith, omega arith, omega arith)

-- An extension that says it is longer than what is left.
abbrev runs_past : Bytes
runs_past = 1 ∷ 1 ∷ (replicate 18 0 ++ (0 ∷ 9 ∷ 1 ∷ []))

-- Two extensions, of which the second is a selective ACK of four bytes, and a payload of one byte.
abbrev with_sack : Bytes
with_sack = 1 ∷ 2 ∷ (replicate 18 0 ++ (1 ∷ 1 ∷ 7 ∷ 0 ∷ 4 ∷ 5 ∷ 0 ∷ 0 ∷ 128 ∷ 104 ∷ []))

decode-Decoded_example : Decoded with_sack (decode with_sack)
decode-Decoded_example = decode-Decoded with_sack

runs_past_refused : decode runs_past ≡ err bad_extension
unfolding decode chain
runs_past_refused = refl
