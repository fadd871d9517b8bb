-- ===== src/Utp/Conn.antt =====
-- src/utp/conn.rs: one uTP connection: its constants, its state and how it begins.
--
-- A time is a number of nanoseconds, as a duration is; `duration_since` stops at 0, as the source's
-- does. The window's size is an `f64` in the source: it is of a type of the caller's, with the
-- operations that the source uses, and nothing is asked of them.
pub mod Send
pub mod Receive
pub mod Ack
pub mod Ledbat
pub mod Events
pub mod Runs
pub mod Loops
pub mod Network
pub mod Received
pub mod Buffer
pub mod Delivery
mod Examples
use bittorrent_rs.Prelude.{
  ℕ, ◌+◌, ◌-◌, ◌*◌, ◌/◌, ◌%◌, ◌^◌, Bool, true, false, not, ◌&&◌, Option, none, some, List, [], ltb,
  ◌==◌, length, Bytes,
}
use bittorrent_rs.Utp.Packet.{PacketType, code, header_len}

abbrev pub max_packet : ℕ
max_packet = 1400

abbrev pub max_payload : ℕ
max_payload = max_packet - header_len

abbrev pub send_buffer : ℕ
send_buffer = 256 * 1024

abbrev pub receive_buffer : ℕ
receive_buffer = 512 * 1024

abbrev pub reorder_window : ℕ
reorder_window = 64

abbrev pub from_millis : ℕ → ℕ
from_millis n = n * 1000000

abbrev pub from_secs : ℕ → ℕ
from_secs n = n * 1000000000

abbrev pub initial_rto : ℕ
initial_rto = from_secs 1

abbrev pub min_rto : ℕ
min_rto = from_millis 500

abbrev pub max_rto : ℕ
max_rto = from_secs 60

abbrev pub max_timeouts : ℕ
max_timeouts = 5

abbrev pub max_syn_attempts : ℕ
max_syn_attempts = 3

abbrev pub keepalive : ℕ
keepalive = from_secs 15

abbrev pub dead_after : ℕ
dead_after = from_secs 90

abbrev pub dup_ack_threshold : ℕ
dup_ack_threshold = 3

abbrev pub base_delay_minutes : ℕ
base_delay_minutes = 2

abbrev pub duration_since : ℕ → ℕ → ℕ
duration_since now earlier = now - earlier

-- The wrapping operations of `u16`.
abbrev pub add_u16 : ℕ → ℕ → ℕ
add_u16 a b = (a + b) % 65536

abbrev pub sub_u16 : ℕ → ℕ → ℕ
sub_u16 a b = (a + 65536 - b) % 65536

abbrev pub seq_le : ℕ → ℕ → Bool
seq_le a b = ltb (sub_u16 b a) 32768

abbrev pub same_kind : PacketType → PacketType → Bool
same_kind a b = code a == code b

-- The source's `f64`: `from_i32` takes the 32 bits of an `i32`, `truncate` is `as usize`.
pub record Floats (F : Type 0) : Type 0 where
  pub float : ℕ → F
  pub tenths : ℕ → F
  pub from_i32 : ℕ → F
  pub plus : F → F → F
  pub minus : F → F → F
  pub times : F → F → F
  pub over : F → F → F
  pub smaller : F → F → F
  pub larger : F → F → F
  pub clamp : F → F → F → F
  pub greater : F → F → Bool
  pub at_least : F → F → Bool
  pub max_value : F
  pub truncate : F → ℕ

pub data State : Type 0 where
  connecting opened ended : State

abbrev pub is_connecting : State → Bool
is_connecting connecting = true
is_connecting opened = false
is_connecting ended = false

abbrev pub is_open : State → Bool
is_open connecting = false
is_open opened = true
is_open ended = false

abbrev pub is_ended : State → Bool
is_ended connecting = false
is_ended opened = false
is_ended ended = true

-- The kinds of `io::ErrorKind` that end a connection.
pub data ErrorKind : Type 0 where
  timed_out connection_refused connection_reset connection_aborted : ErrorKind

pub record Sent : Type 0 where
  pub seq : ℕ
  pub kind : PacketType
  pub payload : Bytes
  pub sent_at : ℕ
  pub transmissions : ℕ
  pub sacked : Bool
  pub lost : Bool

abbrev pub in_network : Sent → Bool
in_network p = not p.sacked && not p.lost

pub record Connection (F : Type 0) : Type 0 where
  pub epoch : ℕ
  pub phase : State
  pub error : Option ErrorKind
  pub send_id : ℕ
  pub recv_id : ℕ
  pub seq_nr : ℕ
  pub outbox : Bytes
  pub in_flight : List Sent
  pub cur_window : ℕ
  pub peer_window : ℕ
  pub fin_pending : Bool
  pub fin_sent : Bool
  pub fin_acked : Bool
  pub last_data_sent : Option ℕ
  pub ack_nr : ℕ
  pub inbox : Bytes
  pub reorder : List (ℕ × Bytes)
  pub reorder_bytes : ℕ
  pub fin_seq : Option ℕ
  pub peer_closed : Bool
  pub ack_pending : Bool
  pub reply_micro : ℕ
  pub max_window : F
  pub ssthresh : F
  pub slow_start : Bool
  pub rtt : Option ℕ
  pub rtt_var : ℕ
  pub rto : ℕ
  pub rto_deadline : Option ℕ
  pub timeouts : ℕ
  pub syn_attempts : ℕ
  pub dup_acks : ℕ
  pub last_ack_nr : ℕ
  pub last_window_cut : Option ℕ
  pub delay_base : List (ℕ × ℕ)
  pub last_sent : ℕ
  pub last_heard : ℕ
  pub outgoing : List Bytes

module _ {F : Type 0} (fl : Floats F) where
  abbrev pub new : ℕ → State → ℕ → ℕ → ℕ → Connection F
  new now phase send_id recv_id seq_nr = record {
    epoch = now;
    phase = phase;
    error = none;
    send_id = send_id;
    recv_id = recv_id;
    seq_nr = seq_nr;
    outbox = [];
    in_flight = [];
    cur_window = 0;
    peer_window = receive_buffer;
    fin_pending = false;
    fin_sent = false;
    fin_acked = false;
    last_data_sent = none;
    ack_nr = 0;
    inbox = [];
    reorder = [];
    reorder_bytes = 0;
    fin_seq = none;
    peer_closed = false;
    ack_pending = false;
    reply_micro = 0;
    max_window = fl.times (fl.float 2) (fl.float max_packet);
    ssthresh = fl.max_value;
    slow_start = true;
    rtt = none;
    rtt_var = 0;
    rto = initial_rto;
    rto_deadline = none;
    timeouts = 0;
    syn_attempts = 0;
    dup_acks = 0;
    last_ack_nr = 0;
    last_window_cut = none;
    delay_base = [];
    last_sent = now;
    last_heard = now;
    outgoing = [];
  }

module _ {F : Type 0} where
  abbrev pub micros : ℕ → Connection F → ℕ
  micros now c = duration_since now c.epoch / 1000 % 2 ^ 32

  abbrev pub receive_window : Connection F → ℕ
  receive_window c = receive_buffer - (length c.inbox + c.reorder_bytes)

  abbrev pub fail : ErrorKind → Connection F → Connection F
  fail e c = record c { error = some e; phase = ended; rto_deadline = none }
