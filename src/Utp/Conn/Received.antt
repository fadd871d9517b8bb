-- ===== src/Utp/Conn/Received.antt =====
-- src/utp/conn.rs: what has been received is left alone by acknowledgements, timers and sending.
use bittorrent_rs.Prelude.{
  if-keeps, if-keeps_by, option-keeps, ℕ, zero, suc, ◌+◌, ◌≡◌, refl, Bool, true, not, ◌&&◌, ◌||◌,
  Option, none, some, List, [], ◌∷◌, ltb, leb, ◌==◌, if◌then◌else◌, length, Bytes, min, test_bit,
  ◌*◌,
}
use bittorrent_rs.Utp.Packet.{Packet, PacketType, data_packet, fin, state, reset, syn, is_empty}
use bittorrent_rs.Utp.Conn.{
  Floats, Connection, Sent, seq_le, add_u16, same_kind, is_open, is_ended, is_connecting,
  duration_since, max_timeouts, max_syn_attempts, keepalive, dead_after, dup_ack_threshold,
}
use bittorrent_rs.Utp.Conn.Send.{
  queue, queue_all, send_lost, send_packet, is_blocked, send_new, send_fin, none_in_flight,
  send_pending, ack_if_pending, flush, resend_lost,
}
use bittorrent_rs.Utp.Conn.Receive.{receive}
use bittorrent_rs.Utp.Conn.Ack.{
  Tally, pop_acked, note_gone, sack_seq, sack_bits, sack_bytes, find_sent, has_seq, is_unsacked,
  update_rtt, sacked_count,
}
use bittorrent_rs.Utp.Conn.Ledbat.{update_window, cut_window, was_cut}
use bittorrent_rs.Utp.Conn.Events

-- The fields of the receiving side.
pub record Received : Type 0 where
  pub inbox : Bytes
  pub reorder : List (ℕ × Bytes)
  pub reorder_bytes : ℕ
  pub ack_nr : ℕ
  pub fin_seq : Option ℕ
  pub peer_closed : Bool

abbrev pub received : {F : Type 0} → Connection F → Received
received c = record {
  inbox = c.inbox;
  reorder = c.reorder;
  reorder_bytes = c.reorder_bytes;
  ack_nr = c.ack_nr;
  fin_seq = c.fin_seq;
  peer_closed = c.peer_closed;
}

module _ {F : Type 0} (r : Received) where
  abbrev Has : Connection F → Type 0
  Has c = received c ≡ r

  abbrev TallyHas : Tally F → Type 0
  TallyHas t = Has t.conn

  pop_acked-Has :
      (now ack : ℕ) (ps : List Sent) (t : Tally F) → TallyHas t → TallyHas (pop_acked now ack ps t)
  unfolding pop_acked
  pop_acked-Has now ack [] t h = h
  pop_acked-Has now ack (p ∷ ps) t h =
      if-keeps TallyHas (seq_le p.seq ack) (pop_acked-Has now ack ps (note_gone now p ps t) h) h

  sack_seq-Has : (now seq : ℕ) (t : Tally F) → TallyHas t → TallyHas (sack_seq now seq t)
  unfolding sack_seq
  sack_seq-Has now seq t h =
      option-keeps TallyHas (find_sent (has_seq seq) t.conn.in_flight) h
        (λ p. if-keeps TallyHas p.sacked h h)

  sack_bits-Has :
      (left now ack i byte bit : ℕ) (t : Tally F)
      → TallyHas t
      → TallyHas (sack_bits left now ack i byte bit t)
  sack_bits-Has zero now ack i byte bit t h = h
  sack_bits-Has (suc left) now ack i byte bit t h =
      let seq = add_u16 (add_u16 ack 2) (i * 8 + bit) in
      sack_bits-Has left now ack i byte (bit + 1) _
        (if-keeps TallyHas (test_bit bit byte) (sack_seq-Has now seq t h) h)

  sack_bytes-Has :
      (now ack i : ℕ) (mask : Bytes) (t : Tally F)
      → TallyHas t
      → TallyHas (sack_bytes now ack i mask t)
  sack_bytes-Has now ack i [] t h = h
  sack_bytes-Has now ack i (byte ∷ mask) t h =
      sack_bytes-Has now ack (i + 1) mask _ (sack_bits-Has 8 now ack i byte 0 t h)

  sample_rtt-Has : (sample : Option ℕ) (c : Connection F) → Has c → Has (Events.sample_rtt sample c)
  unfolding update_rtt
  sample_rtt-Has none c h = h
  sample_rtt-Has (some sample) c h = option-keeps Has c.rtt h (λ rtt. h)

  queue_all-Has : (now : ℕ) (ps : List Sent) (c : Connection F) → Has c → Has (queue_all now ps c)
  unfolding queue_all
  queue_all-Has now [] c h = h
  queue_all-Has now (p ∷ ps) c h = queue_all-Has now ps (queue now p.kind p.seq p.payload c) h

  send_new-Has : (fuel now window : ℕ) (c : Connection F) → Has c → Has (send_new fuel now window c)
  unfolding send_new
  send_new-Has zero now window c h = h
  send_new-Has (suc fuel) now window c h =
      if-keeps Has (is_empty c.outbox || is_blocked now window c) h
        (send_new-Has fuel now window (send_packet now c) h)

  module _ (fl : Floats F) (now : ℕ) (c : Connection F) (h : Has c) where
    send_pending-Has : Has (send_pending fl now c)
    unfolding send_pending
    send_pending-Has =
        let window = min (fl.truncate c.max_window) c.peer_window in
        let lost = send_lost now window c in
        let fresh = send_new (length lost.outbox) now window lost in
        let r = resend_lost now window c.cur_window c.in_flight in
        let lost_has : Has lost =
          queue_all-Has now r.resend
            (record c { in_flight = r.in_flight; cur_window = r.cur_window }) h in
        let fresh_has = send_new-Has (length lost.outbox) now window lost lost_has in
        let closed = send_fin now fresh in
        let closed_has : Has closed =
          if-keeps Has (fresh.fin_pending && (not fresh.fin_sent && is_empty fresh.outbox))
            fresh_has fresh_has in
        option-keeps Has closed.rto_deadline
          (if-keeps Has (none_in_flight closed.in_flight) closed_has closed_has) (λ at. closed_has)

    flush-Has : Has (flush fl now c)
    unfolding flush
    flush-Has =
        let sent = if is_open c.phase then send_pending fl now c else c in
        let acked = ack_if_pending fl now sent in
        let sent_has : Has sent = if-keeps Has (is_open c.phase) send_pending-Has h in
        let acked_has : Has acked =
          if-keeps Has (sent.ack_pending && not (is_ended sent.phase)) sent_has sent_has in
        if-keeps Has (acked.fin_acked && (acked.peer_closed && is_open acked.phase)) acked_has
          acked_has

    cut_window-Has : Has (cut_window fl now c)
    unfolding cut_window
    cut_window-Has = if-keeps Has (was_cut fl now c) h h

    update_window-Has : (acked delay : ℕ) → Has (update_window fl now acked delay c)
    unfolding update_window
    update_window-Has acked delay = if-keeps Has c.slow_start (if-keeps Has _ h h) h

    on_timeout-Has : Has (Events.on_timeout fl now c)
    unfolding Events.on_timeout
    on_timeout-Has =
        if-keeps Has (is_connecting c.phase)
          (if-keeps Has (leb max_syn_attempts c.syn_attempts) h h)
          (if-keeps Has (ltb max_timeouts (c.timeouts + 1)) h h)

  lose_front-Has :
      (fl : Floats F) (now sacked : ℕ) (c : Connection F)
      → Has c
      → Has (Events.lose_front fl now sacked c)
  lose_front-Has fl now sacked c h =
      if-keeps Has (c.dup_acks == dup_ack_threshold || leb dup_ack_threshold sacked)
        (option-keeps Has (find_sent is_unsacked c.in_flight) h (λ front.
          if-keeps Has (front.transmissions == 1 && not front.lost)
            (cut_window-Has fl now (Events.lose front c) h) h))
        h

  process_ack-Has :
      (fl : Floats F) (now : ℕ) (packet : Packet) (c : Connection F)
      → Has c
      → Has (Events.process_ack fl now packet c)
  unfolding Events.process_ack
  process_ack-Has fl now packet c h =
      let start : Tally F = record { conn = c; acked_bytes = 0; rtt_sample = none } in
      let popped = pop_acked now packet.ack_nr c.in_flight start in
      let t = Events.tally now packet c in
      let t_has : Has t.conn =
        sack_bytes-Has now packet.ack_nr 0 packet.sack popped
          (pop_acked-Has now packet.ack_nr c.in_flight start h) in
      let sampled = Events.sample_rtt t.rtt_sample t.conn in
      let sampled_has = sample_rtt-Has t.rtt_sample t.conn t_has in
      let acked = Events.note_acked fl now packet t.acked_bytes sampled in
      let acked_has : Has acked =
        if-keeps Has (ltb 0 t.acked_bytes)
          (update_window-Has fl now (record sampled { timeouts = 0; dup_acks = 0 }) sampled_has
            t.acked_bytes packet.timestamp_diff)
          (if-keeps Has _ sampled_has sampled_has) in
      let noted = Events.note_last_ack packet.ack_nr acked in
      let noted_has : Has noted =
        if-keeps Has (seq_le acked.last_ack_nr packet.ack_nr) acked_has acked_has in
      if-keeps Has _ h (lose_front-Has fl now (sacked_count t.conn.in_flight) noted noted_has)

  on_tick-Has : (fl : Floats F) (now : ℕ) (c : Connection F) → Has c → Has (Events.on_tick fl now c)
  unfolding Events.on_tick
  on_tick-Has fl now c h =
      let due = Events.if_due fl now c in
      let due_has : Has due =
        option-keeps Has c.rto_deadline h
          (λ at. if-keeps Has (leb at now) (on_timeout-Has fl now c h) h) in
      if-keeps Has (is_ended c.phase) h (
        if-keeps Has (leb dead_after (duration_since now c.last_heard)) h (
          flush-Has fl now (Events.keep_alive now due) (
            if-keeps Has (is_open due.phase && leb keepalive (duration_since now due.last_sent))
              due_has due_has)))

module _ {F : Type 0} (fl : Floats F) (now : ℕ) (c : Connection F) where
  pub flush-received : received (flush fl now c) ≡ received c
  flush-received = flush-Has (received c) fl now c refl

  pub process_ack-received :
      (packet : Packet) → received (Events.process_ack fl now packet c) ≡ received c
  process_ack-received packet = process_ack-Has (received c) fl now packet c refl

  pub on_tick-received : received (Events.on_tick fl now c) ≡ received c
  on_tick-received = on_tick-Has (received c) fl now c refl

  pub abort-received : received (Events.abort now c) ≡ received c
  abort-received = if-keeps (Has (received c)) (not (is_ended c.phase)) refl refl

  pub write-received : (bytes : Bytes) → received (Events.write bytes c).1 ≡ received c
  unfolding Events.write
  write-received bytes =
      if-keeps (λ (p : ℕ × Connection F). Has (received c) p.1) (is_ended c.phase || c.fin_pending)
        refl refl

abbrev pub bears_data : PacketType → Bool
bears_data kind = same_kind kind data_packet || same_kind kind fin

-- What `receive` makes of the receiving side, a packet does, in every state; a packet that opens
-- the connection also sets the number of the last packet received.
module _ {F : Type 0} (fl : Floats F) (P Q : Received → Type 0)
    (weaken : (r : Received) → P r → Q r) where
  abbrev Before : Connection F → Type 0
  Before c = P (received c)

  abbrev After : Connection F → Type 0
  After c = Q (received c)

  take_kind-takes :
      (kind : PacketType) (packet : Packet) (d : Connection F)
      → (bears_data kind ≡ true → (c : Connection F) → Before c → After (receive packet c))
      → Before d
      → After (Events.take_kind kind packet d)
  take_kind-takes data_packet packet d takes h = takes refl d h
  take_kind-takes fin packet d takes h = takes refl d h
  take_kind-takes state packet d takes h = weaken (received d) h
  take_kind-takes reset packet d takes h = weaken (received d) h
  take_kind-takes syn packet d takes h = weaken (received d) h

  pub on_packet-takes :
      (packet : Packet)
      → (bears_data packet.kind ≡ true → (c : Connection F) → Before c → After (receive packet c))
      → (now : ℕ) (c : Connection F)
      → (is_connecting c.phase ≡ true → After (Events.open_from packet c))
      → Before c
      → After (Events.on_packet fl now packet c)
  unfolding Events.on_packet
  on_packet-takes packet takes now c opens h =
      let heard = Events.hear now packet c in
      let told = record heard { peer_window = packet.wnd_size } in
      let acked = Events.process_ack fl now packet told in
      let acked_before : Before acked = rw (process_ack-received fl now told packet) h in
      let same : After c = weaken (received c) h in
      if-keeps After (is_ended c.phase)
        (option-keeps After c.error
          (if-keeps After (same_kind packet.kind fin || same_kind packet.kind data_packet) same
            same)
          (λ e. same))
        (if-keeps After (same_kind packet.kind reset) same (
          rw (flush-received fl now (Events.take_packet fl now packet heard)) (
            if-keeps_by After (is_connecting c.phase)
              (λ e.
                if-keeps After (same_kind packet.kind state)
                  (rw (process_ack-received fl now (Events.open_from packet heard) packet)
                    (opens e))
                  same)
              (λ e. take_kind-takes packet.kind packet acked takes acked_before))))
