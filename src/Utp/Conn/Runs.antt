-- ===== src/Utp/Conn/Runs.antt =====
-- src/utp/conn.rs: the states a connection can be in: its beginnings, and an event after another.
use bittorrent_rs.Prelude.{ℕ, Bytes}
use bittorrent_rs.Utp.Packet.{Packet}
use bittorrent_rs.Utp.Conn.{Floats, Connection}
use bittorrent_rs.Utp.Conn.Send.{flush}
use bittorrent_rs.Utp.Conn.Receive.{read}
use bittorrent_rs.Utp.Conn.Events.{
  on_tick, on_packet, connect_from, accept, write, take_outgoing, close, abort,
}

-- What may happen to a connection; an event of the network or of the clock has its time.
pub data Event : Type 0 where
  packet_comes : ℕ → Packet → Event
  clock_ticks flushes aborts : ℕ → Event
  writes : Bytes → Event
  reads : ℕ → Event
  takes_outgoing closes : Event

module _ {F : Type 0} (fl : Floats F) where
  abbrev pub after : Event → Connection F → Connection F
  after (packet_comes now packet) c = on_packet fl now packet c
  after (clock_ticks now) c = on_tick fl now c
  after (flushes now) c = flush fl now c
  after (aborts now) c = abort now c
  after (writes bytes) c = (write bytes c).1
  after (reads room) c = (read room c).1
  after takes_outgoing c = (take_outgoing c).1
  after closes c = close c

  pub data Reachable : Connection F → Type 0 where
    connects : (now recv_id initial_seq : ℕ) → Reachable (connect_from fl now recv_id initial_seq)
    accepts :
        (now : ℕ) (request : Packet) (initial_seq : ℕ)
        → Reachable (accept fl now request initial_seq)
    goes_on : (event : Event) (c : Connection F) → Reachable c → Reachable (after event c)
