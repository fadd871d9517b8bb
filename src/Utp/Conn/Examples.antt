-- ===== src/Utp/Conn/Examples.antt =====
-- src/utp/conn.rs: the theorems at concrete inputs.
use bittorrent_rs.Prelude.{
  ℕ, ◌+◌, ◌-◌, ◌*◌, ◌/◌, ◌≤◌, ◌≡◌, refl, ◌%◌, min, max, ltb, leb, List, [], ◌∷◌, arith, Bytes, ◌++◌,
  lookup, none, length,
}
use bittorrent_rs.Utp.Packet.{Packet, PacketType, syn, data_packet, state}
use bittorrent_rs.Utp.Conn.{Floats, Connection, receive_buffer, add_u16}
use bittorrent_rs.Utp.Conn.Events.{accept, connect_from}
use bittorrent_rs.Utp.Conn.Events.{on_packet, process_ack}
use bittorrent_rs.Utp.Conn.Send.{
  flush, send_pending, send_new, queue_all, resend_lost, selective_ack,
}
use bittorrent_rs.Utp.Conn.Receive.{receive, drain_held, read}
use bittorrent_rs.Utp.Conn.Ack.{pop_acked, sack_seq}
use bittorrent_rs.Utp.Conn.Runs.{
  Event, packet_comes, clock_ticks, writes, reads, after, connects, accepts, goes_on,
}
use bittorrent_rs.Utp.Conn.Network.{network_bytes}
use bittorrent_rs.Utp.Conn.Network.Always.{Reachable-network_bytes}
use bittorrent_rs.Utp.Conn.Buffer.{held_bytes, Reachable-receive_buffer}
use bittorrent_rs.Utp.Conn.Delivery.{upto, seq_of, drain_held_complete}
use bittorrent_rs.Utp.Conn.Delivery.Refinement.{
  AllTimely, fresh_view, follow_all, follow_all-refines,
}

-- Whole numbers in place of the floating-point ones.
abbrev whole : Floats ℕ
whole = record {
  float = λ n. n;
  tenths = λ n. n / 10;
  from_i32 = λ n. n;
  plus = λ a b. a + b;
  minus = λ a b. a - b;
  times = λ a b. a * b;
  over = λ a b. a / b;
  smaller = min;
  larger = max;
  clamp = λ a low high. min (max a low) high;
  greater = λ a b. ltb b a;
  at_least = λ a b. leb b a;
  max_value = 1000000000;
  truncate = λ a. a;
}

abbrev packet_of : PacketType → ℕ → ℕ → Bytes → Packet
packet_of kind seq ack payload = record {
  kind = kind;
  connection_id = 7;
  timestamp = 0;
  timestamp_diff = 0;
  wnd_size = 100000;
  seq_nr = seq;
  ack_nr = ack;
  sack = [];
  payload = payload;
}

-- The numbers go round: the peer's packets are 65535, 0, 1.
abbrev accepted : Connection ℕ
accepted = accept whole 0 (packet_of syn 65534 0 []) 100

abbrev letters : ℕ → Bytes
letters j = (97 + j) ∷ []

abbrev out_of_order : List Event
out_of_order =
    packet_comes 1 (packet_of data_packet 0 99 (98 ∷ []))
    ∷ packet_comes 2 (packet_of data_packet 65535 99 (97 ∷ []))
    ∷ packet_comes 3 (packet_of data_packet 0 99 (98 ∷ []))
    ∷ reads 1
    ∷ packet_comes 4 (packet_of data_packet 1 99 (99 ∷ []))
    ∷ []

timely : AllTimely letters 65534 whole out_of_order (fresh_view accepted)
unfolding accept on_packet flush send_pending send_new queue_all resend_lost selective_ack receive
    drain_held process_ack pop_acked sack_seq read
timely =
    ((
      (refl, λ e. (1, record { numbered = refl; carried = refl }, omega arith, omega arith)),
      (
        (refl, λ e. (0, record { numbered = refl; carried = refl }, omega arith, omega arith)),
        (
          (refl, λ e. (1, record { numbered = refl; carried = refl }, omega arith, omega arith)),
          (
            tt,
            (
              (
                refl,
                λ e. (2, record { numbered = refl; carried = refl }, omega arith, omega arith),
              ),
              tt,
            ),
          ),
        ),
      ),
    ))

follow_all-refines_example :
    let v = follow_all whole out_of_order (fresh_view accepted) in
    (v.given ++ v.conn.inbox ≡ upto letters v.delivered)
    × (v.conn.ack_nr ≡ (65534 + v.delivered) % 65536)
    × (lookup (seq_of 65534 v.delivered) v.conn.reorder ≡ none)
unfolding accept
follow_all-refines_example =
    follow_all-refines letters 65534 whole out_of_order accepted refl refl refl timely

-- It connects, is answered, sends three bytes, and hears nothing for three seconds.
abbrev sends : List Event
sends =
    packet_comes 1000 (packet_of state 500 1 [])
    ∷ writes (1 ∷ 2 ∷ 3 ∷ [])
    ∷ clock_ticks 2000
    ∷ clock_ticks 3000000000
    ∷ []

abbrev sent : Connection ℕ
sent = (follow_all whole sends (fresh_view (connect_from whole 0 7 1))).conn

Reachable-network_bytes_example : sent.cur_window ≡ network_bytes sent.in_flight
Reachable-network_bytes_example = Reachable-network_bytes whole sent (
    goes_on (clock_ticks 3000000000) _ (
      goes_on (clock_ticks 2000) _ (
        goes_on (writes (1 ∷ 2 ∷ 3 ∷ [])) _
          (goes_on (packet_comes 1000 (packet_of state 500 1 [])) _ (connects 0 7 1)))))

-- A packet ahead of the next is held.
abbrev holding : Connection ℕ
holding = after whole (packet_comes 1 (packet_of data_packet 0 99 (98 ∷ 99 ∷ []))) accepted

Reachable-receive_buffer_example :
    (length holding.inbox + holding.reorder_bytes ≤ receive_buffer)
    × (holding.reorder_bytes ≡ held_bytes holding.reorder)
Reachable-receive_buffer_example = Reachable-receive_buffer whole holding (
    goes_on (packet_comes 1 (packet_of data_packet 0 99 (98 ∷ 99 ∷ []))) accepted
      (accepts 0 (packet_of syn 65534 0 []) 100))

abbrev two_held : Connection ℕ
two_held = record accepted {
  reorder = (1, 99 ∷ []) ∷ (65535, 97 ∷ []) ∷ (0, 98 ∷ []) ∷ [];
  reorder_bytes = 3;
}

drain_held_complete_example :
    lookup (add_u16 (drain_held 3 two_held).ack_nr 1) (drain_held 3 two_held).reorder ≡ none
drain_held_complete_example = drain_held_complete 3 two_held (omega arith)
