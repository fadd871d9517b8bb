-- ===== src/Utp/Conn/Ack.antt =====
-- src/utp/conn.rs: what an acknowledgement does: the packets that are gone, the times, the window.
use bittorrent_rs.Prelude.{
  ℕ, zero, suc, ◌+◌, ◌-◌, ◌*◌, ◌/◌, min, max, Bool, true, false, not, ◌&&◌, Option, none, some,
  List, [], ◌∷◌, ltb, ◌==◌, if◌then◌else◌, length, Bytes, test_bit,
}
use bittorrent_rs.Utp.Packet.{fin}
use bittorrent_rs.Utp.Conn.{
  Connection, Sent, add_u16, seq_le, same_kind, in_network, duration_since, min_rto, max_rto,
}

-- A connection with the bytes acknowledged so far and the last sample of the round trip.
pub record Tally (F : Type 0) : Type 0 where
  pub conn : Connection F
  pub acked_bytes : ℕ
  pub rtt_sample : Option ℕ

-- The window without the bytes of `p`, if they are in the network.
abbrev pub leave : Sent → ℕ → ℕ
leave p cur = if in_network p then cur - length p.payload else cur

module _ {F : Type 0} where
  -- The packet `gone`, at the front, is acknowledged; `rest` is behind it.
  abbrev pub note_gone : ℕ → Sent → List Sent → Tally F → Tally F
  note_gone now gone rest t = record {
    conn = record t.conn {
      in_flight = rest;
      cur_window = leave gone t.conn.cur_window;
      fin_acked = if same_kind gone.kind fin then true else t.conn.fin_acked;
    };
    acked_bytes = if gone.sacked then t.acked_bytes else t.acked_bytes + length gone.payload;
    rtt_sample =
        if gone.transmissions == 1 && not gone.sacked
        then some (duration_since now gone.sent_at)
        else t.rtt_sample;
  }

  -- The packets in flight, which are the list, acknowledged from the front up to `ack`.
  unfoldable pub pop_acked : ℕ → ℕ → List Sent → Tally F → Tally F
  pop_acked now ack [] t = t
  pop_acked now ack (front ∷ rest) t =
      let popped = pop_acked now ack rest (note_gone now front rest t) in
      if seq_le front.seq ack then popped else t

-- The first packet that passes the test.
abbrev pub find_sent : (Sent → Bool) → List Sent → Option Sent
find_sent test [] = none
find_sent test (p ∷ ps) = if test p then some p else find_sent test ps

-- The packets with the first that passes the test changed.
abbrev pub change_sent : (Sent → Bool) → (Sent → Sent) → List Sent → List Sent
change_sent test f [] = []
change_sent test f (p ∷ ps) = if test p then f p ∷ ps else p ∷ change_sent test f ps

abbrev pub has_seq : ℕ → Sent → Bool
has_seq seq p = p.seq == seq

abbrev pub is_unsacked : Sent → Bool
is_unsacked p = not p.sacked

abbrev pub mark_sacked : Sent → Sent
mark_sacked p = record p { sacked = true; lost = false }

abbrev pub mark_lost : Sent → Sent
mark_lost p = record p { lost = true }

abbrev pub sacked_count : List Sent → ℕ
sacked_count [] = 0
sacked_count (p ∷ ps) = if p.sacked then suc (sacked_count ps) else sacked_count ps

abbrev pub abs_diff : ℕ → ℕ → ℕ
abs_diff a b = if ltb a b then b - a else a - b

abbrev pub clamp_rto : ℕ → ℕ
clamp_rto d = min (max d min_rto) max_rto

module _ {F : Type 0} where
  -- A selective acknowledgement of the packet `seq`.
  unfoldable pub sack_seq : ℕ → ℕ → Tally F → Tally F
  sack_seq now seq t = elim (find_sent (has_seq seq) t.conn.in_flight) [
    | none ↦ t
    | some p ↦ if p.sacked then t else record {
      conn = record t.conn {
        in_flight = change_sent (has_seq seq) mark_sacked t.conn.in_flight;
        cur_window = leave p t.conn.cur_window;
      };
      acked_bytes = t.acked_bytes + length p.payload;
      rtt_sample =
          if p.transmissions == 1 then some (duration_since now p.sent_at) else t.rtt_sample;
    }
  ]

  -- The bits `bit`, `bit + 1`, … of the byte `i`, `left` of them.
  abbrev pub sack_bits : ℕ → ℕ → ℕ → ℕ → ℕ → ℕ → Tally F → Tally F
  sack_bits zero now ack i byte bit t = t
  sack_bits (suc left) now ack i byte bit t =
      sack_bits left now ack i byte (bit + 1)
        (if test_bit bit byte then sack_seq now (add_u16 (add_u16 ack 2) (i * 8 + bit)) t else t)

  -- The bytes of the mask from the byte `i` on.
  abbrev pub sack_bytes : ℕ → ℕ → ℕ → Bytes → Tally F → Tally F
  sack_bytes now ack i [] t = t
  sack_bytes now ack i (byte ∷ mask) t =
      sack_bytes now ack (i + 1) mask (sack_bits 8 now ack i byte 0 t)

  unfoldable pub update_rtt : ℕ → Connection F → Connection F
  update_rtt sample c = elim c.rtt [
    | none ↦ record c {
      rtt = some sample;
      rtt_var = sample / 2;
      rto = clamp_rto (sample + sample / 2 * 4);
    }
    | some rtt ↦
        let rtt_var = c.rtt_var * 3 / 4 + abs_diff rtt sample / 4 in
        let smoothed = rtt * 7 / 8 + sample / 8 in
        record c {
          rtt = some smoothed;
          rtt_var = rtt_var;
          rto = clamp_rto (smoothed + rtt_var * 4);
        }
  ]
