-- ===== src/Utp/Conn/Receive.antt =====
-- src/utp/conn.rs: what a connection does with the data of a packet, and how its owner reads it.
use bittorrent_rs.Prelude.{
  ℕ, zero, suc, ◌+◌, ◌-◌, min, Bool, true, ◌&&◌, ◌||◌, none, some, ◌++◌, ltb, leb, ◌==◌,
  if◌then◌else◌, length, take, drop, Bytes, lookup, insert, remove,
}
use bittorrent_rs.Utp.Packet.{fin, Packet, is_empty}
use bittorrent_rs.Utp.Conn.{
  Connection, receive_window, add_u16, sub_u16, same_kind, reorder_window, max_packet,
}

module _ {F : Type 0} where
  -- The packet `seq`, next in order, with its payload.
  abbrev pub deliver : ℕ → Bytes → Connection F → Connection F
  deliver seq payload c = record c { inbox = c.inbox ++ payload; ack_nr = seq }

  -- A step of the loop over the packets that were held: the next in order, taken from them.
  abbrev pub take_held : ℕ → Bytes → Connection F → Connection F
  take_held seq payload c = deliver seq payload (record c {
    reorder = remove seq c.reorder;
    reorder_bytes = c.reorder_bytes - length payload;
  })

  -- The loop takes a packet out of the buffer each time: their number is fuel enough.
  unfoldable pub drain_held : ℕ → Connection F → Connection F
  drain_held zero c = c
  drain_held (suc fuel) c = elim (lookup (add_u16 c.ack_nr 1) c.reorder) [
    | none ↦ c
    | some payload ↦ drain_held fuel (take_held (add_u16 c.ack_nr 1) payload c)
  ]

  -- A packet that is early, kept unless it is already.
  abbrev pub hold : ℕ → Bytes → Connection F → Connection F
  hold seq payload c = elim (lookup seq c.reorder) [
    | some old ↦ c
    | none ↦ record c {
      reorder = insert seq payload c.reorder;
      reorder_bytes = c.reorder_bytes + length payload;
    }
  ]

  abbrev pub note_fin : Packet → Connection F → Connection F
  note_fin packet c =
      if same_kind packet.kind fin then record c { fin_seq = some packet.seq_nr } else c

  abbrev pub note_closed : Connection F → Connection F
  note_closed c = elim c.fin_seq [
    | none ↦ c
    | some seq ↦ if seq == c.ack_nr then record c { peer_closed = true } else c
  ]

  -- A packet that is wanted and has room.
  abbrev pub take_in : ℕ → Packet → Connection F → Connection F
  take_in ahead packet c =
      let delivered = deliver packet.seq_nr packet.payload c in
      if ahead == 1
      then drain_held (length delivered.reorder) delivered
      else hold packet.seq_nr packet.payload c

  unfoldable pub receive : Packet → Connection F → Connection F
  receive packet c =
      let ahead = sub_u16 packet.seq_nr c.ack_nr in
      let asked = record c { ack_pending = true } in
      if ahead == 0 || ltb reorder_window ahead
      then asked
      else if ltb (receive_window asked) (length packet.payload)
      then asked
      else note_closed (take_in ahead packet (note_fin packet asked))

  -- `read` with room for `room` bytes: the bytes read and the connection.
  unfoldable pub read : ℕ → Connection F → Bytes × Connection F
  read room c =
      let n = min room (length c.inbox) in
      let rest = record c { inbox = drop n c.inbox } in
      (
        take n c.inbox,
        (if ltb 0 n && (ltb (receive_window c) max_packet && leb max_packet (receive_window rest))
            then record rest { ack_pending = true }
            else rest),
      )

  abbrev pub readable : Connection F → ℕ
  readable c = length c.inbox

  abbrev pub is_eof : Connection F → Bool
  is_eof c = c.peer_closed && is_empty c.inbox
