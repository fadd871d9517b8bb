-- ===== src/Utp/Conn/Network/Always.antt =====
-- src/utp/conn.rs: the count of the bytes in the network is right in every state.
use bittorrent_rs.Prelude.{◌≡◌, refl}
use bittorrent_rs.Utp.Conn.{Floats, Connection}
use bittorrent_rs.Utp.Conn.Events.{connect_from, accept}
use bittorrent_rs.Utp.Conn.Runs.{
  Event, packet_comes, clock_ticks, flushes, aborts, writes, reads, takes_outgoing, closes, after,
  Reachable, connects, accepts, goes_on,
}
use bittorrent_rs.Utp.Conn.Network.{WindowInv, network_bytes}
use bittorrent_rs.Utp.Conn.Network.Sending.{flush-WindowInv}
use bittorrent_rs.Utp.Conn.Network.Events.{
  on_tick-WindowInv, on_packet-WindowInv, write-WindowInv, read-WindowInv, abort-WindowInv,
}

module _ {F : Type 0} (fl : Floats F) where
  after-WindowInv : (event : Event) (c : Connection F) → WindowInv c → WindowInv (after fl event c)
  after-WindowInv (packet_comes now packet) c h = on_packet-WindowInv fl now packet c h
  after-WindowInv (clock_ticks now) c h = on_tick-WindowInv fl now c h
  after-WindowInv (flushes now) c h = flush-WindowInv fl now c h
  after-WindowInv (aborts now) c h = abort-WindowInv now c h
  after-WindowInv (writes bytes) c h = write-WindowInv bytes c h
  after-WindowInv (reads room) c h = read-WindowInv room c h
  after-WindowInv takes_outgoing c h = h
  after-WindowInv closes c h = h

  reachable-WindowInv : (c : Connection F) → Reachable fl c → WindowInv c
  unfolding connect_from accept
  reachable-WindowInv c (connects now recv_id initial_seq) = record {
    counted = refl;
    tidy = (refl, tt);
  }
  reachable-WindowInv c (accepts now request initial_seq) = record { counted = refl; tidy = tt }
  reachable-WindowInv c (goes_on event d r) = after-WindowInv event d (reachable-WindowInv d r)

  -- In every state that a connection can reach, `cur_window` is the sum of the payloads of the
  -- packets in flight that are neither selectively acknowledged nor presumed lost.
  pub Reachable-network_bytes :
      (c : Connection F) → Reachable fl c → c.cur_window ≡ network_bytes c.in_flight
  Reachable-network_bytes c r = (reachable-WindowInv c r).counted
