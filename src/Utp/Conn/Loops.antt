-- ===== src/Utp/Conn/Loops.antt =====
-- src/utp/conn.rs: the loop that sends new data has done all it may when it ends.
use bittorrent_rs.Prelude.{
  if-keeps_by, ℕ, zero, suc, ◌≤◌, ◌<◌, ◌≡◌, refl, true, false, ◌||◌, [], ◌∷◌, arith, length, min,
  Bytes, length-drop, or-eq_false,
}
use bittorrent_rs.Utp.Packet.{is_empty}
use bittorrent_rs.Utp.Conn.{Connection, max_payload}
use bittorrent_rs.Utp.Conn.Send.{send_packet, is_blocked, send_new}

empty_of : (bytes : Bytes) → length bytes ≤ 0 → is_empty bytes ≡ true
empty_of [] h = refl
empty_of (b ∷ bytes) h = absurd (omega (arith, h))

full_of : (bytes : Bytes) → is_empty bytes ≡ false → 0 < length bytes
full_of [] h = ground arith
full_of (b ∷ bytes) h = omega arith

module _ {F : Type 0} where
  -- With the outbox's length as fuel, the loop over new data ends with nothing left to send, or with
  -- a next packet that the window does not allow and that is not to probe the peer's.
  send_new_complete :
      (fuel now window : ℕ) (c : Connection F)
      → length c.outbox ≤ fuel
      → (is_empty (send_new fuel now window c).outbox
          || is_blocked now window (send_new fuel now window c))
        ≡ true
  unfolding send_new
  send_new_complete zero now window c le = rw (empty_of c.outbox le) refl
  send_new_complete (suc fuel) now window c le =
      let shorter = length-drop (min (length c.outbox) max_payload) c.outbox in
      if-keeps_by (λ (d : Connection F). (is_empty d.outbox || is_blocked now window d) ≡ true)
        (is_empty c.outbox || is_blocked now window c) (λ e. e)
        (λ e.
          let some_left = full_of c.outbox (or-eq_false (is_empty c.outbox) e).0 in
          send_new_complete fuel now window (send_packet now c)
            (omega (arith, shorter, some_left, le)))
