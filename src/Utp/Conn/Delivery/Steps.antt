-- ===== src/Utp/Conn/Delivery/Steps.antt =====
-- src/utp/conn.rs: a packet of the stream delivers what it completes, and nothing else.
use bittorrent_rs.Prelude.{
  if-keeps, if-keeps_by, option-keeps, ℕ, suc, ◌+◌, ◌-◌, ◌%◌, ◌≤◌, ◌<◌, ◌≡◌, sym, subst, ◌∙◌, ap₂,
  true, false, ◌||◌, none, some, List, ◌++◌, arith, ltb, ◌==◌, length, Bytes, lookup, insert,
  Option-cases, inl, inr, append_assoc, or-eq_false, ltb_false→le, ne→==_false, ==→eq,
  lookup-insert,
}
use bittorrent_rs.Utp.Packet.{Packet, fin}
use bittorrent_rs.Utp.Conn.{Connection, receive_window, reorder_window, sub_u16, same_kind}
use bittorrent_rs.Utp.Conn.Receive.{
  deliver, drain_held, hold, note_fin, note_closed, take_in, receive,
}
use bittorrent_rs.Utp.Conn.Received.{Received, received}
use bittorrent_rs.Utp.Conn.Delivery.{
  seq_of, Early, HeldEarly, insert-All, widen-Early, InOrder, Delivered, drain_held-Further,
  missing-Early, drain_held_complete, next_number,
}

-- The packet is the one numbered `j` of the stream.
pub record Carries (stream : ℕ → Bytes) (base j : ℕ) (packet : Packet) : Type 0 where
  pub numbered : packet.seq_nr ≡ seq_of base j
  pub carried : packet.payload ≡ stream j

-- The packets before `k` are delivered and the packet `k` has not come.
pub record Waits (stream : ℕ → Bytes) (base : ℕ) (given : Bytes) (k : ℕ) (inbox : Bytes)
    (ack_nr : ℕ) (reorder : List (ℕ × Bytes)) : Type 0 where
  pub delivered : InOrder stream base (k + 64) given k inbox ack_nr reorder
  pub missing : lookup (seq_of base k) reorder ≡ none

abbrev pub Settled : (ℕ → Bytes) → ℕ → Bytes → ℕ → Received → Type 0
Settled stream base given k r = Waits stream base given k r.inbox r.ack_nr r.reorder

module _ (stream : ℕ → Bytes) (base : ℕ) (given : Bytes) where
  -- Some more packets than `k` are delivered, if any.
  abbrev pub Goes : ℕ → Received → Type 0
  Goes k r = (k' : ℕ) × (k ≤ k') × (k' ≤ k + 64) × Settled stream base given k' r

module _ {F : Type 0} (stream : ℕ → Bytes) (base : ℕ) (given : Bytes) where
  deliver-Delivered :
      (k : ℕ) (packet : Packet) (c : Connection F)
      → Carries stream base k packet
      → Settled stream base given k (received c)
      → Delivered stream base
          (k + 64)
          given
          (suc k)
          (received (deliver packet.seq_nr packet.payload c))
  deliver-Delivered k packet c p h = record {
    in_order =
        sym (append_assoc given c.inbox packet.payload) ∙ ap₂ ◌++◌ h.delivered.in_order p.carried;
    last_number = p.numbered ∙ omega arith;
    early = missing-Early stream base k (k + 64) c.reorder h.missing h.delivered.early;
    within = omega arith;
  }

  -- The next packet, and all those held that follow it.
  next-Goes :
      (k : ℕ) (packet : Packet) (c : Connection F)
      → Carries stream base k packet
      → Settled stream base given k (received c)
      → (let delivered = deliver packet.seq_nr packet.payload c in
          (k' : ℕ) × (k < k')
          × (k' ≤ k + 64)
          × Settled stream base given k'
              (received (drain_held (length delivered.reorder) delivered)))
  next-Goes k packet c p h =
      let delivered = deliver packet.seq_nr packet.payload c in
      let drained = drain_held (length delivered.reorder) delivered in
      let more =
        drain_held-Further stream base (k + 64) given (length delivered.reorder) (suc k) delivered
          (omega arith) (deliver-Delivered k packet c p h) in
      let result = more.2 in
      let settled : Settled stream base given more.0 (received drained) = record {
        delivered = record {
          in_order = result.in_order;
          last_number = result.last_number;
          early =
              widen-Early stream base more.0 (k + 64) (more.0 + 64) drained.reorder
                (omega (arith, more.1)) result.early;
          within = omega arith;
        };
        missing =
            subst (λ i. lookup i drained.reorder ≡ none)
              (next_number stream base (k + 64) given more.0 drained result.last_number)
              (drain_held_complete (length delivered.reorder) delivered (omega arith));
      } in
      (more.0, omega (arith, more.1), result.within, settled)

  hold-Settled :
      (k j : ℕ) (packet : Packet) (c : Connection F)
      → Carries stream base j packet
      → suc k ≤ j
      → j < k + 64
      → Settled stream base given k (received c)
      → Settled stream base given k (received (hold packet.seq_nr packet.payload c))
  hold-Settled k j packet c p above below h =
      let mine : Early stream base k (k + 64) packet.seq_nr packet.payload = record {
        index = j;
        from = omega (arith, above);
        before = below;
        numbered = p.numbered;
        carried = p.carried;
      } in
      let apart : (packet.seq_nr == seq_of base k) ≡ false =
        ne→==_false packet.seq_nr (seq_of base k)
          (λ e. absurd (omega (arith, e, p.numbered, above, below))) in
      let held : Settled stream base given k (
          received (record c {
            reorder = insert packet.seq_nr packet.payload c.reorder;
            reorder_bytes = c.reorder_bytes + length packet.payload;
          })) =
        record {
          delivered = record {
            in_order = h.delivered.in_order;
            last_number = h.delivered.last_number;
            early =
                insert-All (HeldEarly stream base k (k + 64)) packet.seq_nr packet.payload c.reorder
                  h.delivered.early mine;
            within = h.delivered.within;
          };
          missing =
              rw (lookup-insert packet.seq_nr (seq_of base k) packet.payload c.reorder, apart)
                h.missing;
        } in
      elim (Option-cases (lookup packet.seq_nr c.reorder)) [
        | inl e ↦ rw (e, hold) held
        | inr (old, e) ↦ rw (e, hold) h
      ]

  take_in-Goes :
      (k j : ℕ) (packet : Packet) (c : Connection F)
      → Carries stream base j packet
      → k ≤ j
      → j < k + 64
      → Settled stream base given k (received c)
      → Goes stream base given k (received (take_in (suc (j - k)) packet c))
  take_in-Goes k j packet c p above below h =
      if-keeps_by (λ (d : Connection F). Goes stream base given k (received d)) (suc (j - k) == 1)
        (λ first.
          let here : j ≡ k = omega (arith, above, ==→eq (suc (j - k)) 1 first) in
          let mine : Carries stream base k packet =
            subst (λ i. Carries stream base i packet) here p in
          let next = next-Goes k packet c mine h in (next.0, omega (arith, next.1), next.2, next.3))
        (λ later.
          let above' : suc k ≤ j = ground arith in
          (k, omega arith, omega arith, hold-Settled k j packet c p above' below h))

  -- What is neither had nor far off is one of the next 64 packets.
  in_window :
      (k j : ℕ) (packet : Packet) (c : Connection F)
      → Carries stream base j packet
      → k ≤ j + 65472
      → j ≤ k + 65535
      → c.ack_nr ≡ (base + k) % 65536
      → (sub_u16 packet.seq_nr c.ack_nr == 0 || ltb reorder_window (sub_u16 packet.seq_nr c.ack_nr))
        ≡ false
      → (sub_u16 packet.seq_nr c.ack_nr ≡ suc (j - k)) × (k ≤ j) × (j < k + 64)
  in_window k j packet c p recent near e wanted =
      let apart = or-eq_false (sub_u16 packet.seq_nr c.ack_nr == 0) wanted in
      let some_ahead : 0 < sub_u16 packet.seq_nr c.ack_nr = ground (arith, apart.0) in
      let not_far = ltb_false→le reorder_window (sub_u16 packet.seq_nr c.ack_nr) apart.1 in
      (
        omega (arith, p.numbered, e, some_ahead, not_far, recent, near),
        omega (arith, p.numbered, e, some_ahead, not_far, recent, near),
        omega (arith, p.numbered, e, some_ahead, not_far, recent, near),
      )

  abbrev Went : ℕ → Connection F → Type 0
  Went k c = Goes stream base given k (received c)

  note_closed-Went : (k : ℕ) (c : Connection F) → Went k c → Went k (note_closed c)
  note_closed-Went k c h =
      option-keeps (Went k) c.fin_seq h (λ seq. if-keeps (Went k) (seq == c.ack_nr) h h)

  -- A packet that is not older than the numbers can tell, nor too far ahead of them.
  pub receive-Goes :
      (k j : ℕ) (packet : Packet) (c : Connection F)
      → Carries stream base j packet
      → k ≤ j + 65472
      → j ≤ k + 65535
      → Settled stream base given k (received c)
      → Goes stream base given k (received (receive packet c))
  unfolding receive
  receive-Goes k j packet c p recent near h =
      let ahead = sub_u16 packet.seq_nr c.ack_nr in
      let asked = record c { ack_pending = true } in
      let noted = record asked { fin_seq = some packet.seq_nr } in
      let still : Goes stream base given k (received c) = (k, omega arith, omega arith, h) in
      if-keeps_by (Went k) (ahead == 0 || ltb reorder_window ahead) (λ off. still)
        (λ wanted. if-keeps (Went k) (ltb (receive_window asked) (length packet.payload)) still (
          let span = in_window k j packet c p recent near h.delivered.last_number wanted in
          note_closed-Went k (take_in ahead packet (note_fin packet asked)) (
            if-keeps (λ d. Went k (take_in ahead packet d)) (same_kind packet.kind fin) {x = noted}
              {y = asked} (rw span.0 (take_in-Goes k j packet noted p span.1 span.2 h))
              (rw span.0 (take_in-Goes k j packet asked p span.1 span.2 h)))))
