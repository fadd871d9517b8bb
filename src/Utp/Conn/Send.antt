-- ===== src/Utp/Conn/Send.antt =====
-- src/utp/conn.rs: what a connection sends: headers, acknowledgements, what was lost, what is new.
use bittorrent_rs.Prelude.{
  ℕ, zero, suc, ◌+◌, ◌-◌, ◌*◌, ◌/◌, ◌%◌, min, max, Bool, true, false, not, ◌&&◌, ◌||◌, none, some,
  List, [], ◌∷◌, ◌++◌, ltb, leb, ◌==◌, if◌then◌else◌, length, take, drop, replicate, get_or, set,
  Bytes, div_ceil, or_bit,
}
use bittorrent_rs.Utp.Packet.{
  PacketType, data_packet, fin, state, syn, Packet, encode, is_empty, max_sack_bytes,
}
use bittorrent_rs.Utp.Conn.{
  Floats, Connection, Sent, micros, receive_window, add_u16, sub_u16, same_kind, is_open, is_ended,
  ended, duration_since, max_payload,
}

-- How far ahead of `ack` the furthest of the packets that are held is.
abbrev pub furthest : ℕ → List (ℕ × Bytes) → ℕ
furthest ack [] = 0
furthest ack ((seq, payload) ∷ held) = max (sub_u16 seq ack) (furthest ack held)

-- The mask with the bit of one packet that is held: it is two or more ahead.
abbrev pub mark_held : ℕ → Bytes → Bytes
mark_held ahead mask =
    let bit = ahead - 2 in
    if leb 2 ahead && ltb (bit / 8) (length mask)
    then set mask (bit / 8) (or_bit (bit % 8) (get_or mask (bit / 8) 0))
    else mask

abbrev pub mark_all : ℕ → List (ℕ × Bytes) → Bytes → Bytes
mark_all ack [] mask = mask
mark_all ack ((seq, payload) ∷ held) mask = mark_all ack held (mark_held (sub_u16 seq ack) mask)

module _ {F : Type 0} where
  unfoldable pub selective_ack : Connection F → Bytes
  selective_ack c = elim c.reorder [
    | [] ↦ []
    | kv ∷ held ↦
        let span = furthest c.ack_nr (kv ∷ held) in
        let bytes = max (div_ceil (span - 1) 32) 1 * 4 in
        mark_all c.ack_nr (kv ∷ held) (replicate (min bytes max_sack_bytes) 0)
  ]

  abbrev pub header : ℕ → PacketType → ℕ → Connection F → Packet
  header now kind seq_nr c = record {
    kind = kind;
    connection_id = if same_kind kind syn then c.recv_id else c.send_id;
    timestamp = micros now c;
    timestamp_diff = c.reply_micro;
    wnd_size = receive_window c;
    seq_nr = seq_nr;
    ack_nr = c.ack_nr;
    sack = [];
    payload = [];
  }

  -- The packet that `queue` encodes.
  abbrev pub queued_packet : ℕ → PacketType → ℕ → Bytes → Connection F → Packet
  queued_packet now kind seq_nr payload c = record (header now kind seq_nr c) {
    payload = payload;
    sack = if same_kind kind state then selective_ack c else [];
  }

  abbrev pub queue : ℕ → PacketType → ℕ → Bytes → Connection F → Connection F
  queue now kind seq_nr payload c = record c {
    outgoing = c.outgoing ++ (encode (queued_packet now kind seq_nr payload c) ∷ []);
    last_sent = now;
    ack_pending =
        if same_kind kind data_packet || (same_kind kind fin || same_kind kind state)
        then false
        else c.ack_pending;
  }

  abbrev pub sent_first : ℕ → PacketType → Bytes → Connection F → Sent
  sent_first now kind payload c = record {
    seq = c.seq_nr;
    kind = kind;
    payload = payload;
    sent_at = now;
    transmissions = 1;
    sacked = false;
    lost = false;
  }

  abbrev pub send_syn : ℕ → Connection F → Connection F
  send_syn now c =
      let noted = record c {
        syn_attempts = 1;
        in_flight = c.in_flight ++ (sent_first now syn [] c ∷ []);
      } in
      let queued = queue now syn c.seq_nr [] noted in
      record queued { seq_nr = add_u16 c.seq_nr 1; rto_deadline = some (now + c.rto) }

  abbrev pub send_syn_again : ℕ → Connection F → Connection F
  send_syn_again now c =
      let queued =
        queue now syn (sub_u16 c.seq_nr 1) [] (record c { syn_attempts = c.syn_attempts + 1 }) in
      record queued { rto_deadline = some (now + c.rto) }

  abbrev pub send_state : ℕ → Connection F → Connection F
  send_state now c = queue now state c.seq_nr [] c

-- What is in flight once the lost packets that the window allows are marked as sent again, the
-- bytes then in the network, and the packets to send.
pub record Resent : Type 0 where
  pub in_flight : List Sent
  pub cur_window : ℕ
  pub resend : List Sent

abbrev pub keep : Sent → Resent → Resent
keep p r = record r { in_flight = p ∷ r.in_flight }

abbrev pub again : ℕ → Sent → Sent
again now p = record p { lost = false; transmissions = p.transmissions + 1; sent_at = now }

unfoldable pub resend_lost : ℕ → ℕ → ℕ → List Sent → Resent
resend_lost now window cur [] = record { in_flight = []; cur_window = cur; resend = [] }
resend_lost now window cur (p ∷ ps) =
    let kept = resend_lost now window cur ps in
    let rest = resend_lost now window (cur + length p.payload) ps in
    if not p.lost
    then keep p kept
    else if ltb window (cur + length p.payload) && ltb 0 cur
    then record { in_flight = p ∷ ps; cur_window = cur; resend = [] }
    else record {
      in_flight = again now p ∷ rest.in_flight;
      cur_window = rest.cur_window;
      resend = again now p ∷ rest.resend;
    }

abbrev pub none_in_flight : List Sent → Bool
none_in_flight [] = true
none_in_flight (p ∷ ps) = false

module _ {F : Type 0} where
  unfoldable pub queue_all : ℕ → List Sent → Connection F → Connection F
  queue_all now [] c = c
  queue_all now (p ∷ ps) c = queue_all now ps (queue now p.kind p.seq p.payload c)

  abbrev pub send_lost : ℕ → ℕ → Connection F → Connection F
  send_lost now window c =
      let r = resend_lost now window c.cur_window c.in_flight in
      queue_all now r.resend (record c { in_flight = r.in_flight; cur_window = r.cur_window })

  -- Whether a peer whose window has closed is to be asked again.
  abbrev pub probe : ℕ → Connection F → Bool
  probe now c =
      c.cur_window == 0
      && elim c.last_data_sent [ none ↦ true | some at ↦ leb c.rto (duration_since now at) ]

  -- The next packet of new data may not go.
  abbrev pub is_blocked : ℕ → ℕ → Connection F → Bool
  is_blocked now window c =
      ltb window (c.cur_window + min (length c.outbox) max_payload) && not (probe now c)

  abbrev pub send_packet : ℕ → Connection F → Connection F
  send_packet now c =
      let n = min (length c.outbox) max_payload in
      let payload = take n c.outbox in
      queue now data_packet c.seq_nr payload (record c {
        outbox = drop n c.outbox;
        seq_nr = add_u16 c.seq_nr 1;
        cur_window = c.cur_window + n;
        in_flight = c.in_flight ++ (sent_first now data_packet payload c ∷ []);
        last_data_sent = some now;
      })

  -- The loop over new data. A packet takes a byte of the outbox at least: its length is fuel enough.
  unfoldable pub send_new : ℕ → ℕ → ℕ → Connection F → Connection F
  send_new zero now window c = c
  send_new (suc fuel) now window c =
      let rest = send_new fuel now window (send_packet now c) in
      if is_empty c.outbox || is_blocked now window c then c else rest

  abbrev pub send_fin : ℕ → Connection F → Connection F
  send_fin now c =
      if c.fin_pending && (not c.fin_sent && is_empty c.outbox)
      then queue now fin c.seq_nr [] (record c {
        seq_nr = add_u16 c.seq_nr 1;
        fin_sent = true;
        in_flight = c.in_flight ++ (sent_first now fin [] c ∷ []);
      })
      else c

  abbrev pub start_timer : ℕ → Connection F → Connection F
  start_timer now c = elim c.rto_deadline [
    | some at ↦ c
    | none ↦
        if none_in_flight c.in_flight then c else record c { rto_deadline = some (now + c.rto) }
  ]

  abbrev pub finish_if_done : Connection F → Connection F
  finish_if_done c =
      if c.fin_acked && (c.peer_closed && is_open c.phase) then record c { phase = ended } else c

module _ {F : Type 0} (fl : Floats F) where
  unfoldable pub send_pending : ℕ → Connection F → Connection F
  send_pending now c =
      let window = min (fl.truncate c.max_window) c.peer_window in
      let sent = send_lost now window c in
      start_timer now (send_fin now (send_new (length sent.outbox) now window sent))

  abbrev pub ack_if_pending : ℕ → Connection F → Connection F
  ack_if_pending now c = if c.ack_pending && not (is_ended c.phase) then send_state now c else c

  unfoldable pub flush : ℕ → Connection F → Connection F
  flush now c =
      let sent = send_pending now c in
      finish_if_done (ack_if_pending now (if is_open c.phase then sent else c))
