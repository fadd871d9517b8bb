-- ===== src/Utp/Conn/Delivery/Refinement.antt =====
-- src/utp/conn.rs: a connection delivers a stream as a queue does, over any run of its events.
use bittorrent_rs.Prelude.{
  if-keeps, ℕ, ◌+◌, ◌%◌, ◌≤◌, ◌≡◌, refl, sym, subst, ◌∙◌, ap, true, false, List, [], ◌∷◌, ◌++◌,
  arith, length, Bytes, min, take, drop, take-append-drop, append-nil, append_assoc, lookup, none,
}
use bittorrent_rs.Utp.Packet.{Packet}
use bittorrent_rs.Utp.Conn.{Floats, Connection, is_connecting, sub_u16}
use bittorrent_rs.Utp.Conn.Receive.{read}
use bittorrent_rs.Utp.Conn.Runs.{
  Event, packet_comes, clock_ticks, flushes, aborts, writes, reads, takes_outgoing, closes, after,
}
use bittorrent_rs.Utp.Conn.Received.{
  received, flush-received, on_tick-received, abort-received, write-received, bears_data,
  on_packet-takes,
}
use bittorrent_rs.Utp.Conn.Delivery.{upto, seq_of}
use bittorrent_rs.Utp.Conn.Delivery.Steps.{Carries, Settled, Goes, receive-Goes}

-- A queue's view of a connection: the packets of the stream that went in, and the bytes that its
-- owner took out.
pub record View (F : Type 0) : Type 0 where
  pub delivered : ℕ
  pub given : Bytes
  pub conn : Connection F

module _ {F : Type 0} where
  abbrev pub fresh_view : Connection F → View F
  fresh_view c = record { delivered = 0; given = []; conn = c }

  -- What the owner takes in an event.
  abbrev pub given_by : Event → Connection F → Bytes
  given_by (packet_comes now packet) c = []
  given_by (clock_ticks now) c = []
  given_by (flushes now) c = []
  given_by (aborts now) c = []
  given_by (writes bytes) c = []
  given_by (reads room) c = (read room c).0
  given_by takes_outgoing c = []
  given_by closes c = []

  -- The packets delivered are counted by how far `ack_nr` goes.
  abbrev pub follow : Floats F → Event → View F → View F
  follow fl event v = record {
    delivered = v.delivered + sub_u16 (after fl event v.conn).ack_nr v.conn.ack_nr;
    given = v.given ++ given_by event v.conn;
    conn = after fl event v.conn;
  }

  abbrev pub follow_all : Floats F → List Event → View F → View F
  follow_all fl [] v = v
  follow_all fl (event ∷ events) v = follow_all fl events (follow fl event v)

module _ {F : Type 0} (stream : ℕ → Bytes) (base : ℕ) where
  -- A packet of the stream that is not so far from the next that 16 bits cannot tell.
  abbrev pub IsNear : Packet → View F → Type 0
  IsNear packet v =
      (j : ℕ) × Carries stream base j packet × (v.delivered ≤ j + 65472) × (j ≤ v.delivered + 65535)

  -- A packet comes to a connection that is not connecting; one with data is of the stream.
  abbrev pub Timely : Event → View F → Type 0
  Timely (packet_comes now packet) v =
      (is_connecting v.conn.phase ≡ false) × (bears_data packet.kind ≡ true → IsNear packet v)
  Timely (clock_ticks now) v = Unit
  Timely (flushes now) v = Unit
  Timely (aborts now) v = Unit
  Timely (writes bytes) v = Unit
  Timely (reads room) v = Unit
  Timely takes_outgoing v = Unit
  Timely closes v = Unit

  abbrev pub AllTimely : Floats F → List Event → View F → Type 0
  AllTimely fl [] v = Unit
  AllTimely fl (event ∷ events) v = Timely event v × AllTimely fl events (follow fl event v)

  abbrev Sound : View F → Type 0
  Sound v = Settled stream base v.given v.delivered (received v.conn)

  same-Sound :
      (v : View F) (c : Connection F)
      → received c ≡ received v.conn
      → Sound v
      → Sound (record {
        delivered = v.delivered + sub_u16 c.ack_nr v.conn.ack_nr;
        given = v.given ++ [];
        conn = c;
      })
  same-Sound v c e h =
      let number : c.ack_nr ≡ v.conn.ack_nr = ap (λ r. r.ack_nr) e in
      let count : v.delivered ≡ v.delivered + sub_u16 c.ack_nr v.conn.ack_nr =
        omega (arith, number) in
      subst (λ g. Settled stream base g (v.delivered + sub_u16 c.ack_nr v.conn.ack_nr) (received c))
        (sym (append-nil v.given))
        (subst (λ k. Settled stream base v.given k (received c)) count
          (subst (Settled stream base v.given v.delivered) (sym e) h))

  Goes-Sound :
      (v : View F) (c : Connection F)
      → Goes stream base v.given v.delivered (received c)
      → Sound v
      → Sound (record {
        delivered = v.delivered + sub_u16 c.ack_nr v.conn.ack_nr;
        given = v.given ++ [];
        conn = c;
      })
  Goes-Sound v c g h =
      let result = g.3 in
      let count : g.0 ≡ v.delivered + sub_u16 c.ack_nr v.conn.ack_nr =
        omega (arith, result.delivered.last_number, h.delivered.last_number, g.1, g.2) in
      subst (λ i. Settled stream base i (v.delivered + sub_u16 c.ack_nr v.conn.ack_nr) (received c))
        (sym (append-nil v.given))
        (subst (λ k. Settled stream base v.given k (received c)) count result)

  read-Sound : (fl : Floats F) (room : ℕ) (v : View F) → Sound v → Sound (follow fl (reads room) v)
  unfolding read
  read-Sound fl room v h =
      let n = min room (length v.conn.inbox) in
      let rest = record v.conn { inbox = drop n v.conn.inbox } in
      let joined : (v.given ++ take n v.conn.inbox) ++ rest.inbox ≡ upto stream v.delivered =
        append_assoc v.given (take n v.conn.inbox) rest.inbox
        ∙ (ap (◌++◌ v.given) (take-append-drop n v.conn.inbox) ∙ h.delivered.in_order) in
      let count : v.delivered ≡ v.delivered + sub_u16 v.conn.ack_nr v.conn.ack_nr = omega arith in
      let Reads : Connection F → Type 0 = λ c.
        Settled stream base (v.given ++ take n v.conn.inbox)
          (v.delivered + sub_u16 c.ack_nr v.conn.ack_nr) (received c) in
      let taken : Settled stream base (v.given ++ take n v.conn.inbox) v.delivered (received rest) =
        record {
          delivered = record {
            in_order = joined;
            last_number = h.delivered.last_number;
            early = h.delivered.early;
            within = h.delivered.within;
          };
          missing = h.missing;
        } in
      let rest_h : Reads rest =
        subst (λ k. Settled stream base (v.given ++ take n v.conn.inbox) k (received rest)) count
          taken in
      if-keeps Reads _ {x = record rest { ack_pending = true }} {y = rest} rest_h rest_h

  module _ (fl : Floats F) where
    follow-Sound :
        (event : Event) (v : View F) → Timely event v → Sound v → Sound (follow fl event v)
    follow-Sound (packet_comes now packet) v t h =
        Goes-Sound v (after fl (packet_comes now packet) v.conn)
          (on_packet-takes fl (Settled stream base v.given v.delivered)
            (Goes stream base v.given v.delivered)
            (λ r k. (v.delivered, omega arith, omega arith, k)) packet
            (λ bears c k.
              let near = t.1 bears in
              receive-Goes stream base v.given v.delivered near.0 packet c near.1 near.2 near.3 k)
            now v.conn (λ e. ground (arith, e, t.0)) h)
          h
    follow-Sound (clock_ticks now) v t h =
        same-Sound v (after fl (clock_ticks now) v.conn) (on_tick-received fl now v.conn) h
    follow-Sound (flushes now) v t h =
        same-Sound v (after fl (flushes now) v.conn) (flush-received fl now v.conn) h
    follow-Sound (aborts now) v t h =
        same-Sound v (after fl (aborts now) v.conn) (abort-received fl now v.conn) h
    follow-Sound (writes bytes) v t h =
        same-Sound v (after fl (writes bytes) v.conn) (write-received fl 0 v.conn bytes) h
    follow-Sound (reads room) v t h = read-Sound fl room v h
    follow-Sound takes_outgoing v t h = same-Sound v (after fl takes_outgoing v.conn) refl h
    follow-Sound closes v t h = same-Sound v (after fl closes v.conn) refl h

    follow_all-Sound :
        (events : List Event) (v : View F)
        → AllTimely fl events v
        → Sound v
        → Sound (follow_all fl events v)
    follow_all-Sound [] v t h = h
    follow_all-Sound (event ∷ events) v t h =
        follow_all-Sound events (follow fl event v) t.1 (follow-Sound event v t.0 h)

    -- A connection that has received nothing and expects the packet after `base`, after any events in
    -- which no packet comes while it is still connecting, and the data packets are of the stream,
    -- lost, repeated or in any order, but each within 65472 packets before and 65535 after the next:
    -- what was read and what can be read are together the first packets of the stream,
    -- and the packet after these is not held.
    pub follow_all-refines :
        (events : List Event) (c : Connection F)
        → c.inbox ≡ []
        → c.reorder ≡ []
        → c.ack_nr ≡ base % 65536
        → AllTimely fl events (fresh_view c)
        → (let v = follow_all fl events (fresh_view c) in
            (v.given ++ v.conn.inbox ≡ upto stream v.delivered)
            × (v.conn.ack_nr ≡ (base + v.delivered) % 65536)
            × (lookup (seq_of base v.delivered) v.conn.reorder ≡ none))
    follow_all-refines events c empty none_held number t =
        let start : Sound (fresh_view c) = record {
          delivered = record {
            in_order = empty;
            last_number = number ∙ omega arith;
            early = rw none_held tt;
            within = omega arith;
          };
          missing = rw none_held refl;
        } in
        let h = follow_all-Sound events (fresh_view c) t start in
        (h.delivered.in_order, h.delivered.last_number, h.missing)
