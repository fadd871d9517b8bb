-- ===== src/Utp/Conn/Buffer.antt =====
-- src/utp/conn.rs: what is held for the application is counted and bounded.
use bittorrent_rs.Prelude.{
  if-keeps, if-keeps_by, option-keeps, ℕ, zero, suc, ◌+◌, ◌≤◌, ◌≡◌, refl, sym, subst, true, ◌||◌,
  none, some, List, [], ◌∷◌, arith, ltb, ◌==◌, length, drop, min, Bytes, lookup, insert, remove,
  entries, entries-remove, entries-insert_ne, entries-insert_fresh, Option-cases, Bool-cases, inl,
  inr, ltb_false→le, ==→eq, length-append, length-drop,
}
use bittorrent_rs.Utp.Packet.{Packet, fin}
use bittorrent_rs.Utp.Conn.{
  Floats, Connection, receive_buffer, receive_window, reorder_window, sub_u16, add_u16, same_kind,
}
use bittorrent_rs.Utp.Conn.Receive.{
  deliver, take_held, drain_held, hold, note_fin, note_closed, take_in, receive, read,
}
use bittorrent_rs.Utp.Conn.Events.{connect_from, accept}
use bittorrent_rs.Utp.Conn.Runs.{
  Event, packet_comes, clock_ticks, flushes, aborts, writes, reads, takes_outgoing, closes, after,
  Reachable, connects, accepts, goes_on,
}
use bittorrent_rs.Utp.Conn.Received.{
  Received, flush-received, on_tick-received, abort-received, write-received, on_packet-takes,
}

-- The bytes of the packets held out of order.
abbrev pub held_bytes : List (ℕ × Bytes) → ℕ
held_bytes [] = 0
held_bytes ((seq, payload) ∷ held) = length payload + held_bytes held

held-remove_fresh :
    (k : ℕ) (m : List (ℕ × Bytes)) → entries k m ≡ 0 → held_bytes (remove k m) ≡ held_bytes m
held-remove_fresh k [] h = refl
held-remove_fresh k ((j, v) ∷ m) h = ground (arith, held-remove_fresh k m)

held-remove :
    (k : ℕ) (v : Bytes) (m : List (ℕ × Bytes))
    → entries k m ≤ 1
    → lookup k m ≡ some v
    → length v + held_bytes (remove k m) ≡ held_bytes m
held-remove k v [] h e = ground arith
held-remove k v ((j, w) ∷ m) h e = ground (arith, held-remove k v m, held-remove_fresh k m)

held-insert :
    (k : ℕ) (v : Bytes) (m : List (ℕ × Bytes))
    → lookup k m ≡ none
    → held_bytes (insert k v m) ≡ length v + held_bytes m
held-insert k v [] e = omega arith
held-insert k v ((j, w) ∷ m) e = ground (arith, held-insert k v m)

pub lookup-entries : (k : ℕ) (m : List (ℕ × Bytes)) → lookup k m ≡ none → entries k m ≡ 0
lookup-entries k [] e = refl
lookup-entries k ((j, w) ∷ m) e = ground (arith, lookup-entries k m)

pub record BufferInv (inbox : Bytes) (bytes : ℕ) (reorder : List (ℕ × Bytes)) : Type 0 where
  pub bounded : length inbox + bytes ≤ receive_buffer
  pub held : bytes ≡ held_bytes reorder
  pub single : (k : ℕ) → entries k reorder ≤ 1

abbrev HoldsReceived : Received → Type 0
HoldsReceived r = BufferInv r.inbox r.reorder_bytes r.reorder

module _ {F : Type 0} where
  abbrev Fits : Connection F → Type 0
  Fits c = BufferInv c.inbox c.reorder_bytes c.reorder

  take_held-Fits :
      (seq : ℕ) (payload : Bytes) (c : Connection F)
      → lookup seq c.reorder ≡ some payload
      → Fits c
      → Fits (take_held seq payload c)
  take_held-Fits seq payload c e h =
      let freed = held-remove seq payload c.reorder (h.single seq) e in
      let longer = length-append c.inbox payload in
      record {
        bounded = omega (arith, freed, longer, h.bounded, h.held);
        held = omega (arith, freed, h.held);
        single = λ k.
            rw (entries-remove seq k c.reorder)
              (if-keeps (λ n. n ≤ 1) (seq == k) (omega arith) (h.single k));
      }

  drain_held-Fits : (fuel : ℕ) (c : Connection F) → Fits c → Fits (drain_held fuel c)
  unfolding drain_held
  drain_held-Fits zero c h = h
  drain_held-Fits (suc fuel) c h =
      let seq = add_u16 c.ack_nr 1 in
      elim (Option-cases (lookup seq c.reorder)) [
        | inl e ↦ rw (e, drain_held) h
        | inr (payload, e) ↦
            rw (e, drain_held)
              (drain_held-Fits fuel (take_held seq payload c) (take_held-Fits seq payload c e h))
      ]

  hold-Fits :
      (seq : ℕ) (payload : Bytes) (c : Connection F)
      → length payload ≤ receive_window c
      → Fits c
      → Fits (hold seq payload c)
  hold-Fits seq payload c fits h = elim (Option-cases (lookup seq c.reorder)) [
    | inr (old, e) ↦ rw (e, hold) h
    | inl e ↦
        let more = held-insert seq payload c.reorder e in
        let fresh = lookup-entries seq c.reorder e in
        let once = entries-insert_fresh seq payload c.reorder fresh in
        let noted : Fits (record c {
          reorder = insert seq payload c.reorder;
          reorder_bytes = c.reorder_bytes + length payload;
        }) =
          record {
            bounded = omega (arith, h.bounded, fits);
            held = omega (arith, more, h.held);
            single = λ k. elim (Bool-cases (seq == k)) [
              | inl same ↦ rw⁻¹ (==→eq seq k same) (omega (arith, once))
              | inr other ↦ rw (entries-insert_ne seq k payload c.reorder other) (h.single k)
            ];
          } in
        rw (e, hold) noted
  ]

  take_in-Fits :
      (ahead : ℕ) (packet : Packet) (c : Connection F)
      → length packet.payload ≤ receive_window c
      → Fits c
      → Fits (take_in ahead packet c)
  take_in-Fits ahead packet c room h =
      let delivered = deliver packet.seq_nr packet.payload c in
      let longer = length-append c.inbox packet.payload in
      let delivered_fits : Fits delivered = record {
        bounded = omega (arith, h.bounded, room, longer);
        held = h.held;
        single = h.single;
      } in
      if-keeps Fits (ahead == 1)
        (drain_held-Fits (length delivered.reorder) delivered delivered_fits)
        (hold-Fits packet.seq_nr packet.payload c room h)

  note_closed-Fits : (c : Connection F) → Fits c → Fits (note_closed c)
  note_closed-Fits c h = option-keeps Fits c.fin_seq h (λ seq. if-keeps Fits (seq == c.ack_nr) h h)

  receive-Fits : (packet : Packet) (c : Connection F) → Fits c → Fits (receive packet c)
  unfolding receive
  receive-Fits packet c h =
      let ahead = sub_u16 packet.seq_nr c.ack_nr in
      let asked = record c { ack_pending = true } in
      let noted = record asked { fin_seq = some packet.seq_nr } in
      if-keeps Fits (ahead == 0 || ltb reorder_window ahead) h (
        if-keeps_by Fits (ltb (receive_window asked) (length packet.payload)) (λ e. h)
          (λ e.
            let room = ltb_false→le (receive_window asked) (length packet.payload) e in
            note_closed-Fits (take_in ahead packet (note_fin packet asked)) (
              if-keeps (λ d. Fits (take_in ahead packet d)) (same_kind packet.kind fin) {x = noted}
                {y = asked} (take_in-Fits ahead packet noted room h)
                (take_in-Fits ahead packet asked room h))))

  read-Fits : (room : ℕ) (c : Connection F) → Fits c → Fits (read room c).1
  unfolding read
  read-Fits room c h =
      let n = min room (length c.inbox) in
      let rest = record c { inbox = drop n c.inbox } in
      let shorter = length-drop n c.inbox in
      let rest_h : Fits rest = record {
        bounded = omega (arith, shorter, h.bounded);
        held = h.held;
        single = h.single;
      } in
      if-keeps Fits _ rest_h rest_h

module _ {F : Type 0} (fl : Floats F) where
  after-Fits : (event : Event) (c : Connection F) → Fits c → Fits (after fl event c)
  after-Fits (packet_comes now packet) c h =
      on_packet-takes fl HoldsReceived HoldsReceived (λ r k. k) packet (λ e. receive-Fits packet)
        now c (λ e. h) h
  after-Fits (clock_ticks now) c h = subst HoldsReceived (sym (on_tick-received fl now c)) h
  after-Fits (flushes now) c h = subst HoldsReceived (sym (flush-received fl now c)) h
  after-Fits (aborts now) c h = subst HoldsReceived (sym (abort-received fl now c)) h
  after-Fits (writes bytes) c h = subst HoldsReceived (sym (write-received fl 0 c bytes)) h
  after-Fits (reads room) c h = read-Fits room c h
  after-Fits takes_outgoing c h = h
  after-Fits closes c h = h

  reachable-Fits : (c : Connection F) → Reachable fl c → Fits c
  unfolding connect_from accept
  reachable-Fits c (connects now recv_id initial_seq) = record {
    bounded = omega arith;
    held = refl;
    single = λ k. omega arith;
  }
  reachable-Fits c (accepts now request initial_seq) = record {
    bounded = omega arith;
    held = refl;
    single = λ k. omega arith;
  }
  reachable-Fits c (goes_on event d r) = after-Fits event d (reachable-Fits d r)

  -- In every state that a connection can reach, what it holds for its owner, in order and out of
  -- order, is no more than its receive buffer, and `reorder_bytes` is the number of the latter.
  pub Reachable-receive_buffer :
      (c : Connection F)
      → Reachable fl c
      → (length c.inbox + c.reorder_bytes ≤ receive_buffer)
        × (c.reorder_bytes ≡ held_bytes c.reorder)
  Reachable-receive_buffer c r = let fits = reachable-Fits c r in (fits.bounded, fits.held)
