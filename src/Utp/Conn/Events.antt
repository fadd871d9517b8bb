-- ===== src/Utp/Conn/Events.antt =====
-- src/utp/conn.rs: a connection's events: packets, the clock, and what the owner asks of it.
use bittorrent_rs.Prelude.{
  ℕ, ◌+◌, ◌-◌, ◌*◌, min, Bool, true, not, ◌&&◌, ◌||◌, Option, none, some, List, [], ◌∷◌, ◌++◌, ltb,
  leb, ◌==◌, if◌then◌else◌, length, take, Bytes, sub_u32,
}
use bittorrent_rs.Utp.Packet.{PacketType, data_packet, fin, state, reset, syn, Packet, is_empty}
use bittorrent_rs.Utp.Conn.{
  Floats, Connection, Sent, connecting, opened, timed_out, connection_refused, connection_reset,
  connection_aborted, is_connecting, is_open, is_ended, add_u16, sub_u16, seq_le, same_kind,
  in_network, micros, duration_since, fail, new, max_rto, max_timeouts, max_syn_attempts, keepalive,
  dead_after, dup_ack_threshold, send_buffer,
}
use bittorrent_rs.Utp.Conn.Send.{none_in_flight, queue, send_syn, send_syn_again, send_state, flush}
use bittorrent_rs.Utp.Conn.Receive.{receive}
use bittorrent_rs.Utp.Conn.Ack.{
  Tally, pop_acked, sack_bytes, find_sent, change_sent, is_unsacked, mark_lost, sacked_count,
  update_rtt,
}
use bittorrent_rs.Utp.Conn.Ledbat.{min_window, update_window, cut_window}

module _ {F : Type 0} where
  abbrev pub open_from : Packet → Connection F → Connection F
  open_from packet c = record c {
    phase = opened;
    ack_nr = sub_u16 packet.seq_nr 1;
    peer_window = packet.wnd_size;
  }

  abbrev pub note_dup : Packet → Connection F → Connection F
  note_dup packet c =
      if same_kind packet.kind state
        && (packet.ack_nr == c.last_ack_nr && not (none_in_flight c.in_flight))
      then record c { dup_acks = c.dup_acks + 1 }
      else c

  abbrev pub note_last_ack : ℕ → Connection F → Connection F
  note_last_ack ack c = if seq_le c.last_ack_nr ack then record c { last_ack_nr = ack } else c

  abbrev pub sample_rtt : Option ℕ → Connection F → Connection F
  sample_rtt none c = c
  sample_rtt (some sample) c = update_rtt sample c

  abbrev pub set_timer : ℕ → Connection F → Connection F
  set_timer now c = record c {
    rto_deadline = if none_in_flight c.in_flight then none else some (now + c.rto);
  }

  -- The front of what is not acknowledged, lost: its bytes are out of the network.
  abbrev pub lose : Sent → Connection F → Connection F
  lose front c = record c {
    in_flight = change_sent is_unsacked mark_lost c.in_flight;
    cur_window = c.cur_window - length front.payload;
  }

-- All that is in the network is lost, with the bytes that are then left in it.
unfoldable pub lose_all : List Sent → ℕ → List Sent × ℕ
lose_all [] cur = ([], cur)
lose_all (p ∷ ps) cur =
    let without = lose_all ps (cur - length p.payload) in
    let kept = lose_all ps cur in
    if in_network p then (mark_lost p ∷ without.0, without.1) else (p ∷ kept.0, kept.1)

-- The front of the packets in flight, noted as sent again.
abbrev pub resend_front : ℕ → List Sent → List Sent
resend_front now [] = []
resend_front now (p ∷ ps) = record p { transmissions = p.transmissions + 1; sent_at = now } ∷ ps

abbrev pub back_off : ℕ → ℕ
back_off rto = min (rto * 2) max_rto

module _ {F : Type 0} where
  abbrev pub tally : ℕ → Packet → Connection F → Tally F
  tally now packet c =
      let start : Tally F = record { conn = c; acked_bytes = 0; rtt_sample = none } in
      sack_bytes now packet.ack_nr 0 packet.sack (pop_acked now packet.ack_nr c.in_flight start)

  abbrev pub syn_timeout : ℕ → Connection F → Connection F
  syn_timeout now c =
      if leb max_syn_attempts c.syn_attempts
      then fail timed_out c
      else send_syn_again now
          (record c { rto = back_off c.rto; in_flight = resend_front now c.in_flight })

  abbrev pub keep_alive : ℕ → Connection F → Connection F
  keep_alive now c =
      if is_open c.phase && leb keepalive (duration_since now c.last_sent)
      then send_state now c
      else c

  -- Both sides have said goodbye: a peer that sends is answered.
  abbrev pub answer_late : ℕ → Packet → Connection F → Connection F
  answer_late now packet c = elim c.error [
    | some e ↦ c
    | none ↦
        if same_kind packet.kind fin || same_kind packet.kind data_packet
        then send_state now c
        else c
  ]

  abbrev pub hear : ℕ → Packet → Connection F → Connection F
  hear now packet c = record c {
    last_heard = now;
    reply_micro = sub_u32 (micros now c) packet.timestamp;
  }

  abbrev pub be_reset : Connection F → Connection F
  be_reset c =
      fail (if is_connecting c.phase then connection_refused else connection_reset)
        (record c { in_flight = []; cur_window = 0 })

  -- What each kind of packet brings, once its acknowledgement is processed.
  abbrev pub take_kind : PacketType → Packet → Connection F → Connection F
  take_kind data_packet packet c = receive packet c
  take_kind fin packet c = receive packet c
  take_kind state packet c = c
  take_kind reset packet c = c
  take_kind syn packet c = record c { ack_pending = true }

module _ {F : Type 0} (fl : Floats F) where
  abbrev pub lose_front : ℕ → ℕ → Connection F → Connection F
  lose_front now sacked_after_front c =
      if c.dup_acks == dup_ack_threshold || leb dup_ack_threshold sacked_after_front
      then elim (find_sent is_unsacked c.in_flight) [
        | none ↦ c
        | some front ↦
            if front.transmissions == 1 && not front.lost
            then cut_window fl now (lose front c)
            else c
      ]
      else c

  abbrev pub note_acked : ℕ → Packet → ℕ → Connection F → Connection F
  note_acked now packet acked_bytes c =
      if ltb 0 acked_bytes
      then update_window fl now acked_bytes packet.timestamp_diff
          (record c { timeouts = 0; dup_acks = 0 })
      else note_dup packet c

  unfoldable pub process_ack : ℕ → Packet → Connection F → Connection F
  process_ack now packet c =
      let t = tally now packet c in
      let sampled = note_acked now packet t.acked_bytes (sample_rtt t.rtt_sample t.conn) in
      if not (none_in_flight c.in_flight) && not (seq_le packet.ack_nr (sub_u16 c.seq_nr 1))
      then c
      else set_timer now
          (lose_front now (sacked_count t.conn.in_flight) (note_last_ack packet.ack_nr sampled))

  abbrev pub data_timeout : ℕ → Connection F → Connection F
  data_timeout now c =
      let left = lose_all c.in_flight c.cur_window in
      let counted = record c { timeouts = c.timeouts + 1 } in
      if ltb max_timeouts (c.timeouts + 1) then fail timed_out counted else record counted {
        in_flight = left.0;
        cur_window = left.1;
        ssthresh =
            fl.larger (fl.over c.max_window (fl.float 2)) (fl.times (fl.float 2) (min_window fl));
        max_window = min_window fl;
        slow_start = true;
        rto = back_off c.rto;
        rto_deadline = some (now + back_off c.rto);
      }

  unfoldable pub on_timeout : ℕ → Connection F → Connection F
  on_timeout now c = if is_connecting c.phase then syn_timeout now c else data_timeout now c

  abbrev pub if_due : ℕ → Connection F → Connection F
  if_due now c = elim c.rto_deadline [
    | none ↦ c
    | some deadline ↦ if leb deadline now then on_timeout now c else c
  ]

  unfoldable pub on_tick : ℕ → Connection F → Connection F
  on_tick now c =
      if is_ended c.phase
      then c
      else if leb dead_after (duration_since now c.last_heard)
      then fail timed_out c
      else flush fl now (keep_alive now (if_due now c))

  -- A packet for a connection that has not ended, which does not reset it.
  abbrev pub take_packet : ℕ → Packet → Connection F → Connection F
  take_packet now packet c =
      let answered = process_ack now packet (open_from packet c) in
      let acked = process_ack now packet (record c { peer_window = packet.wnd_size }) in
      if is_connecting c.phase
      then (if same_kind packet.kind state then answered else c)
      else take_kind packet.kind packet acked

  unfoldable pub on_packet : ℕ → Packet → Connection F → Connection F
  on_packet now packet c =
      let heard = hear now packet c in
      if is_ended c.phase
      then answer_late now packet c
      else if same_kind packet.kind reset
      then be_reset heard
      else flush fl now (take_packet now packet heard)

  unfoldable pub connect_from : ℕ → ℕ → ℕ → Connection F
  connect_from now recv_id initial_seq =
      send_syn now (new fl now connecting (add_u16 recv_id 1) recv_id initial_seq)

  pub connect : ℕ → ℕ → Connection F
  connect now recv_id = connect_from now recv_id 1

  unfoldable pub accept : ℕ → Packet → ℕ → Connection F
  accept now request initial_seq =
      let id = request.connection_id in
      let c = new fl now opened id (add_u16 id 1) initial_seq in
      send_state now (record c {
        ack_nr = request.seq_nr;
        peer_window = request.wnd_size;
        reply_micro = sub_u32 (micros now c) request.timestamp;
      })

abbrev pub payload_bytes : List Sent → ℕ
payload_bytes [] = 0
payload_bytes (p ∷ ps) = length p.payload + payload_bytes ps

abbrev pub no_data : List Sent → Bool
no_data [] = true
no_data (p ∷ ps) = not (same_kind p.kind data_packet) && no_data ps

module _ {F : Type 0} where
  -- How many bytes `write` would take now.
  pub writable : Connection F → ℕ
  writable c =
      if is_ended c.phase || c.fin_pending
      then 0
      else send_buffer - (length c.outbox + payload_bytes c.in_flight)

  -- The bytes queued and the connection.
  unfoldable pub write : Bytes → Connection F → ℕ × Connection F
  write bytes c =
      let queued = length c.outbox + payload_bytes c.in_flight in
      let n = min (length bytes) (send_buffer - queued) in
      if is_ended c.phase || c.fin_pending
      then (0, c)
      else (n, record c { outbox = c.outbox ++ take n bytes })

  abbrev pub take_outgoing : Connection F → List Bytes × Connection F
  take_outgoing c = (c.outgoing, record c { outgoing = [] })

  abbrev pub is_flushed : Connection F → Bool
  is_flushed c = is_empty c.outbox && no_data c.in_flight

  abbrev pub close : Connection F → Connection F
  close c = record c { fin_pending = true }

  abbrev pub abort : ℕ → Connection F → Connection F
  abort now c =
      fail connection_aborted (if not (is_ended c.phase) then queue now reset c.seq_nr [] c else c)

  abbrev pub next_timeout : Connection F → Option ℕ
  next_timeout c =
      let alive = min (c.last_sent + keepalive) (c.last_heard + dead_after) in
      if is_ended c.phase
      then none
      else some (elim c.rto_deadline [ none ↦ alive | some deadline ↦ min deadline alive ])
