-- ===== src/Utp/Packet.antt =====
-- src/utp/packet.rs: the uTP packet format: a header of 20 bytes, a chain of extensions, the payload.
pub mod RoundTrip
mod Examples
pub mod Chain
use bittorrent_rs.Prelude.{
  ℕ, zero, suc, ◌+◌, ◌*◌, ◌/◌, ◌%◌, min, Bool, true, false, not, ◌&&◌, Option, none, some, List, [],
  ◌∷◌, ◌++◌, ltb, leb, ◌==◌, if◌then◌else◌, length, get_elem?, get_or, take, drop, Bytes, be16,
  be32, from_be,
}

abbrev pub header_len : ℕ
header_len = 20

abbrev pub version : ℕ
version = 1

abbrev pub ext_selective_ack : ℕ
ext_selective_ack = 1

abbrev pub max_sack_bytes : ℕ
max_sack_bytes = 8

pub data PacketType : Type 0 where
  data_packet fin state reset syn : PacketType

abbrev pub code : PacketType → ℕ
code data_packet = 0
code fin = 1
code state = 2
code reset = 3
code syn = 4

abbrev pub from_code : ℕ → Option PacketType
from_code c =
    if c == 0
    then some data_packet
    else if c == 1
    then some fin
    else if c == 2
    then some state
    else if c == 3
    then some reset
    else if c == 4
    then some syn
    else none

pub record Packet : Type 0 where
  pub kind : PacketType
  pub connection_id : ℕ
  pub timestamp : ℕ
  pub timestamp_diff : ℕ
  pub wnd_size : ℕ
  pub seq_nr : ℕ
  pub ack_nr : ℕ
  pub sack : Bytes
  pub payload : Bytes

-- `out_of_fuel` is of the model alone.
pub data PacketError : Type 0 where
  too_short not_utp bad_extension out_of_fuel : PacketError

pub data Result {ℓ} (A : Type ℓ) : Type ℓ where
  ok : A → Result A
  err : PacketError → Result A

abbrev pub is_empty : Bytes → Bool
is_empty [] = true
is_empty (b ∷ bs) = false

-- The selective ACK in the extension chain, if there is one.
abbrev pub sack_extension : Bytes → Bytes
sack_extension [] = []
sack_extension (b ∷ bs) = 0 ∷ (length (b ∷ bs) % 256) ∷ (b ∷ bs)

pub encode : Packet → Bytes
encode p =
    let sack = take max_sack_bytes p.sack in
    (code p.kind * 16 % 256 + version)
    ∷ (if is_empty sack then 0 else ext_selective_ack)
    ∷ (be16 p.connection_id
        ++ (be32 p.timestamp
            ++ (be32 p.timestamp_diff
                ++ (be32 p.wnd_size
                    ++ (be16 p.seq_nr ++ (be16 p.ack_nr ++ (sack_extension sack ++ p.payload)))))))

-- The number of `n` bytes at `at`.
abbrev pub number_at : ℕ → ℕ → Bytes → ℕ
number_at n at datagram = from_be 0 (take n (drop at datagram))

-- What an extension leaves of the selective ACK: the first one counts.
abbrev pub note_sack : ℕ → Bytes → Bytes → Bytes
note_sack next body sack =
    if next == ext_selective_ack && is_empty sack
    then take (min (length body) max_sack_bytes) body
    else sack

-- The loop over the extension chain, with the position and the selective ACK so far. It ends in both.
pub chain : ℕ → Bytes → ℕ → ℕ → Bytes → Result (ℕ × Bytes)
chain zero datagram next at sack = if next == 0 then ok (at, sack) else err out_of_fuel
chain (suc fuel) datagram next at sack =
    if next == 0 then ok (at, sack) else elim (get_elem? datagram at) [
      | none ↦ err bad_extension
      | some following ↦ elim (get_elem? datagram (at + 1)) [
        | none ↦ err bad_extension
        | some len ↦
            let rest =
              chain fuel datagram following (at + (2 + len))
                (note_sack next (take len (drop (at + 2) datagram)) sack) in
            if leb (at + (2 + len)) (length datagram) then rest else err bad_extension
      ]
    ]

-- The packet of a header that is right, from the end of the chain.
abbrev pub packet_of : PacketType → Bytes → ℕ × Bytes → Packet
packet_of kind datagram end = record {
  kind = kind;
  connection_id = number_at 2 2 datagram;
  timestamp = number_at 4 4 datagram;
  timestamp_diff = number_at 4 8 datagram;
  wnd_size = number_at 4 12 datagram;
  seq_nr = number_at 2 16 datagram;
  ack_nr = number_at 2 18 datagram;
  sack = end.1;
  payload = drop end.0 datagram;
}

pub decode : Bytes → Result Packet
unfolding chain
decode datagram =
    if ltb (length datagram) header_len
    then err too_short
    else if not (get_or datagram 0 0 % 16 == version)
    then err not_utp
    else elim (from_code (get_or datagram 0 0 / 16)) [
      | none ↦ err not_utp
      | some kind ↦ elim (chain (length datagram) datagram (get_or datagram 1 0) header_len []) [
        | err e ↦ err e
        | ok end ↦ ok (packet_of kind datagram end)
      ]
    ]
