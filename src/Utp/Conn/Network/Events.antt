-- ===== src/Utp/Conn/Network/Events.antt =====
-- src/utp/conn.rs: every event of a connection keeps the count of the bytes in the network.
use bittorrent_rs.Prelude.{
  if-keeps, if-keeps_by, option-keeps, ℕ, zero, suc, ◌+◌, ◌-◌, ◌≡◌, refl, sym, ◌∙◌, true, false,
  not, ◌&&◌, ◌||◌, Option-cases, List, [], ◌∷◌, none, some, Option, arith, and-eq_true, not-eq_true,
  ltb, leb, ◌==◌, length, All, inl, inr, Bytes, lookup, zero, suc,
}
use bittorrent_rs.Utp.Packet.{PacketType, data_packet, fin, state, reset, syn, Packet}
use bittorrent_rs.Utp.Conn.{
  Floats, Connection, Sent, in_network, is_open, is_ended, is_connecting, same_kind, sub_u16,
  seq_le, add_u16, keepalive, duration_since, dead_after, max_timeouts, max_syn_attempts,
  dup_ack_threshold, reorder_window, receive_window,
}
use bittorrent_rs.Utp.Conn.Receive.{
  deliver, take_held, drain_held, hold, note_fin, note_closed, take_in, receive, read,
}
use bittorrent_rs.Utp.Conn.Ack.{
  Tally, find_sent, is_unsacked, mark_lost, update_rtt, sacked_count, pop_acked,
}
use bittorrent_rs.Utp.Conn.Ledbat.{update_window, cut_window, was_cut}
use bittorrent_rs.Utp.Conn.Events
use bittorrent_rs.Utp.Conn.Network.{
  WindowInv, weight, network_bytes, Tidy, change-network, change-Tidy, find-test,
  pop_acked-WindowInv, sack_bytes-WindowInv,
}
use bittorrent_rs.Utp.Conn.Network.Sending.{flush-WindowInv}

-- `before` bytes are in the network with the packets before those of the result.
abbrev LostInv : ℕ → List Sent × ℕ → Type 0
LostInv before r = (r.1 ≡ before + network_bytes r.0) × All Tidy r.0

lose_all-Inv :
    (before cur : ℕ) (ps : List Sent)
    → cur ≡ before + network_bytes ps
    → All Tidy ps
    → LostInv before (Events.lose_all ps cur)
unfolding Events.lose_all
lose_all-Inv before cur [] e t = (e, t)
lose_all-Inv before cur (p ∷ ps) e t =
    if-keeps_by (LostInv before) (in_network p)
      (λ inside.
        let heavy : weight p ≡ length p.payload = ground arith in
        let light : weight (mark_lost p) ≡ 0 = ground arith in
        let tidy : Tidy (mark_lost p) = ground arith in
        let left : cur - length p.payload ≡ before + network_bytes ps = omega (arith, e, heavy) in
        let rest = lose_all-Inv before (cur - length p.payload) ps left t.1 in
        (omega (arith, rest.0, light), (tidy, rest.1)))
      (λ outside.
        let light : weight p ≡ 0 = ground arith in
        let rest = lose_all-Inv before cur ps (omega (arith, e, light)) t.1 in
        (omega (arith, rest.0, light), (t.0, rest.1)))

module _ {F : Type 0} where
  sample_rtt-WindowInv :
      (sample : Option ℕ) (c : Connection F) → WindowInv c → WindowInv (Events.sample_rtt sample c)
  unfolding update_rtt
  sample_rtt-WindowInv none c h = h
  sample_rtt-WindowInv (some sample) c h = elim (Option-cases c.rtt) [
    | inl e ↦ rw e h
    | inr (rtt, e) ↦ rw e h
  ]

  note_dup-WindowInv :
      (packet : Packet) (c : Connection F) → WindowInv c → WindowInv (Events.note_dup packet c)
  note_dup-WindowInv packet c h = if-keeps WindowInv _ h h

  lose-WindowInv :
      (front : Sent) (c : Connection F)
      → find_sent is_unsacked c.in_flight ≡ some front
      → front.lost ≡ false
      → WindowInv c
      → WindowInv (Events.lose front c)
  lose-WindowInv front c e kept h =
      let unsacked = find-test is_unsacked c.in_flight front e in
      let left = change-network is_unsacked mark_lost (λ q. ground arith) c.in_flight front e in
      let full : weight front ≡ length front.payload = ground arith in
      record {
        counted = omega (arith, left, full, h.counted);
        tidy = change-Tidy is_unsacked mark_lost (λ q t k. ground arith) c.in_flight h.tidy;
      }

  drain_held-WindowInv : (fuel : ℕ) (c : Connection F) → WindowInv c → WindowInv (drain_held fuel c)
  unfolding drain_held
  drain_held-WindowInv zero c h = h
  drain_held-WindowInv (suc fuel) c h =
      elim (Option-cases (lookup (add_u16 c.ack_nr 1) c.reorder)) [
        | inl e ↦ rw (e, drain_held) h
        | inr (payload, e) ↦
            rw (e, drain_held)
              (drain_held-WindowInv fuel (take_held (add_u16 c.ack_nr 1) payload c) h)
      ]

  hold-WindowInv :
      (seq : ℕ) (payload : Bytes) (c : Connection F) → WindowInv c → WindowInv (hold seq payload c)
  hold-WindowInv seq payload c h = elim (Option-cases (lookup seq c.reorder)) [
    | inl e ↦ rw (e, hold) h
    | inr (old, e) ↦ rw (e, hold) h
  ]

  note_closed-WindowInv : (c : Connection F) → WindowInv c → WindowInv (note_closed c)
  note_closed-WindowInv c h = elim (Option-cases c.fin_seq) [
    | inl e ↦ rw e h
    | inr (seq, e) ↦ rw e (if-keeps WindowInv (seq == c.ack_nr) h h)
  ]

  receive-WindowInv :
      (packet : Packet) (c : Connection F) → WindowInv c → WindowInv (receive packet c)
  unfolding receive
  receive-WindowInv packet c h =
      let ahead = sub_u16 packet.seq_nr c.ack_nr in
      let asked = record c { ack_pending = true } in
      let noted = note_fin packet asked in
      let noted_inv : WindowInv noted = if-keeps WindowInv (same_kind packet.kind fin) h h in
      let delivered = deliver packet.seq_nr packet.payload noted in
      if-keeps WindowInv (ahead == 0 || ltb reorder_window ahead) h (
        if-keeps WindowInv (ltb (receive_window asked) (length packet.payload)) h (
          note_closed-WindowInv (take_in ahead packet noted) (
            if-keeps WindowInv (ahead == 1)
              (drain_held-WindowInv (length delivered.reorder) delivered noted_inv)
              (hold-WindowInv packet.seq_nr packet.payload noted noted_inv))))

  pub read-WindowInv : (room : ℕ) (c : Connection F) → WindowInv c → WindowInv (read room c).1
  unfolding read
  read-WindowInv room c h = if-keeps WindowInv _ h h

  pub write-WindowInv :
      (bytes : Bytes) (c : Connection F) → WindowInv c → WindowInv (Events.write bytes c).1
  unfolding Events.write
  write-WindowInv bytes c h =
      if-keeps (λ (r : ℕ × Connection F). WindowInv r.1) (is_ended c.phase || c.fin_pending) h h

  pub abort-WindowInv : (now : ℕ) (c : Connection F) → WindowInv c → WindowInv (Events.abort now c)
  abort-WindowInv now c h = if-keeps WindowInv (not (is_ended c.phase)) h h

  take_kind-WindowInv :
      (kind : PacketType) (packet : Packet) (c : Connection F)
      → WindowInv c
      → WindowInv (Events.take_kind kind packet c)
  take_kind-WindowInv data_packet packet c h = receive-WindowInv packet c h
  take_kind-WindowInv fin packet c h = receive-WindowInv packet c h
  take_kind-WindowInv state packet c h = h
  take_kind-WindowInv reset packet c h = h
  take_kind-WindowInv syn packet c h = h

module _ {F : Type 0} (fl : Floats F) (now : ℕ) where
  update_window-WindowInv :
      (acked delay : ℕ) (c : Connection F)
      → WindowInv c
      → WindowInv (update_window fl now acked delay c)
  unfolding update_window
  update_window-WindowInv acked delay c h =
      if-keeps WindowInv c.slow_start (if-keeps WindowInv _ h h) h

  cut_window-WindowInv : (c : Connection F) → WindowInv c → WindowInv (cut_window fl now c)
  unfolding cut_window
  cut_window-WindowInv c h = if-keeps WindowInv (was_cut fl now c) h h

  lose_front-WindowInv :
      (sacked : ℕ) (c : Connection F) → WindowInv c → WindowInv (Events.lose_front fl now sacked c)
  lose_front-WindowInv sacked c h =
      if-keeps WindowInv (c.dup_acks == dup_ack_threshold || leb dup_ack_threshold sacked)
        (elim (Option-cases (find_sent is_unsacked c.in_flight)) [
          | inl e ↦ rw e h
          | inr (front, e) ↦ rw e (
              if-keeps_by WindowInv (front.transmissions == 1 && not front.lost)
                (λ first.
                  let kept : front.lost ≡ false =
                    not-eq_true front.lost (and-eq_true (front.transmissions == 1) first).1 in
                  cut_window-WindowInv (Events.lose front c) (lose-WindowInv front c e kept h))
                (λ other. h))
        ])
        h

  process_ack-WindowInv :
      (packet : Packet) (c : Connection F)
      → WindowInv c
      → WindowInv (Events.process_ack fl now packet c)
  unfolding Events.process_ack
  process_ack-WindowInv packet c h =
      let start : Tally F = record { conn = c; acked_bytes = 0; rtt_sample = none } in
      let popped = pop_acked now packet.ack_nr c.in_flight start in
      let t = Events.tally now packet c in
      let t_inv : WindowInv t.conn =
        sack_bytes-WindowInv now packet.ack_nr 0 packet.sack popped
          (pop_acked-WindowInv now packet.ack_nr c.in_flight start refl h) in
      let sampled = Events.sample_rtt t.rtt_sample t.conn in
      let sampled_inv = sample_rtt-WindowInv t.rtt_sample t.conn t_inv in
      let acked = Events.note_acked fl now packet t.acked_bytes sampled in
      let acked_inv : WindowInv acked =
        if-keeps WindowInv (ltb 0 t.acked_bytes)
          (update_window-WindowInv t.acked_bytes packet.timestamp_diff
            (record sampled { timeouts = 0; dup_acks = 0 }) sampled_inv)
          (note_dup-WindowInv packet sampled sampled_inv) in
      let noted = Events.note_last_ack packet.ack_nr acked in
      let noted_inv : WindowInv noted =
        if-keeps WindowInv (seq_le acked.last_ack_nr packet.ack_nr) acked_inv acked_inv in
      if-keeps WindowInv _ h (lose_front-WindowInv (sacked_count t.conn.in_flight) noted noted_inv)

  resend_front-network :
      (ps : List Sent) → network_bytes (Events.resend_front now ps) ≡ network_bytes ps
  resend_front-network [] = refl
  resend_front-network (p ∷ ps) = refl

  resend_front-Tidy : (ps : List Sent) → All Tidy ps → All Tidy (Events.resend_front now ps)
  resend_front-Tidy [] h = h
  resend_front-Tidy (p ∷ ps) h = h

  on_timeout-WindowInv : (c : Connection F) → WindowInv c → WindowInv (Events.on_timeout fl now c)
  unfolding Events.on_timeout
  on_timeout-WindowInv c h =
      let left = lose_all-Inv 0 c.cur_window c.in_flight (omega (arith, h.counted)) h.tidy in
      if-keeps WindowInv (is_connecting c.phase)
        (if-keeps WindowInv (leb max_syn_attempts c.syn_attempts) h record {
          counted = h.counted ∙ sym (resend_front-network c.in_flight);
          tidy = resend_front-Tidy c.in_flight h.tidy;
        })
        (if-keeps WindowInv (ltb max_timeouts (c.timeouts + 1)) h
          record { counted = omega (arith, left.0); tidy = left.1 })

  pub on_tick-WindowInv : (c : Connection F) → WindowInv c → WindowInv (Events.on_tick fl now c)
  unfolding Events.on_tick
  on_tick-WindowInv c h =
      let due = Events.if_due fl now c in
      let due_inv : WindowInv due =
        option-keeps WindowInv c.rto_deadline h
          (λ at. if-keeps WindowInv (leb at now) (on_timeout-WindowInv c h) h) in
      if-keeps WindowInv (is_ended c.phase) h (
        if-keeps WindowInv (leb dead_after (duration_since now c.last_heard)) h (
          flush-WindowInv fl now (Events.keep_alive now due) (
            if-keeps WindowInv
              (is_open due.phase && leb keepalive (duration_since now due.last_sent)) due_inv
              due_inv)))

  take_packet-WindowInv :
      (packet : Packet) (c : Connection F)
      → WindowInv c
      → WindowInv (Events.take_packet fl now packet c)
  take_packet-WindowInv packet c h =
      let told = record c { peer_window = packet.wnd_size } in
      let acked_inv = process_ack-WindowInv packet told h in
      if-keeps WindowInv (is_connecting c.phase)
        (if-keeps WindowInv (same_kind packet.kind state)
          (process_ack-WindowInv packet (Events.open_from packet c) h) h)
        (take_kind-WindowInv packet.kind packet (Events.process_ack fl now packet told) acked_inv)

  pub on_packet-WindowInv :
      (packet : Packet) (c : Connection F)
      → WindowInv c
      → WindowInv (Events.on_packet fl now packet c)
  unfolding Events.on_packet
  on_packet-WindowInv packet c h =
      let heard = Events.hear now packet c in
      if-keeps WindowInv (is_ended c.phase)
        (option-keeps WindowInv c.error
          (if-keeps WindowInv (same_kind packet.kind fin || same_kind packet.kind data_packet) h h)
          (λ e. h))
        (if-keeps WindowInv (same_kind packet.kind reset) record { counted = refl; tidy = tt }
          (flush-WindowInv fl now (Events.take_packet fl now packet heard)
            (take_packet-WindowInv packet heard h)))
