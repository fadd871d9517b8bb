-- ===== src/Utp/Conn/Network/Sending.antt =====
-- src/utp/conn.rs: what is sent is counted in the network.
use bittorrent_rs.Prelude.{
  if-keeps, if-keeps_by, ℕ, zero, suc, ◌+◌, ◌≡◌, refl, subst, ◌∙◌, not, ◌&&◌, ◌||◌, Option-cases,
  List, [], ◌∷◌, ◌++◌, arith, ltb, if◌then◌else◌, length, All, inl, inr, length-take, take, min,
}
use bittorrent_rs.Utp.Packet.{data_packet, fin, is_empty}
use bittorrent_rs.Utp.Conn.{Floats, Connection, Sent, is_open, is_ended, max_payload}
use bittorrent_rs.Utp.Conn.Send.{
  Resent, keep, again, resend_lost, queue, queue_all, send_lost, send_packet, sent_first,
  is_blocked, send_new, send_fin, start_timer, none_in_flight, send_pending, ack_if_pending, flush,
}
use bittorrent_rs.Utp.Conn.Network.{Counted, WindowInv, weight, network_bytes, push-Counted, Tidy}

-- `before` bytes are in the network with the packets before those of the result.
abbrev ResentInv : ℕ → Resent → Type 0
ResentInv before r = (r.cur_window ≡ before + network_bytes r.in_flight) × All Tidy r.in_flight

keep-Resent :
    (before : ℕ) (p : Sent) (r : Resent)
    → Tidy p
    → ResentInv (before + weight p) r
    → ResentInv before (keep p r)
keep-Resent before p r t h = (omega (arith, h.0), (t, h.1))

resend_lost-Inv :
    (now window before cur : ℕ) (ps : List Sent)
    → cur ≡ before + network_bytes ps
    → All Tidy ps
    → ResentInv before (resend_lost now window cur ps)
unfolding resend_lost
resend_lost-Inv now window before cur [] e t = (e, t)
resend_lost-Inv now window before cur (p ∷ ps) e t =
    let len = length p.payload in
    if-keeps_by (ResentInv before) (not p.lost)
      (λ kept.
        keep-Resent before p (resend_lost now window cur ps) t.0
          (resend_lost-Inv now window (before + weight p) cur ps (omega (arith, e)) t.1))
      (λ lost.
        let light : weight p ≡ 0 = ground arith in
        let heavy : weight (again now p) ≡ len = ground arith in
        let cleared : Tidy (again now p) = ground arith in
        let counted : cur + len ≡ before + len + network_bytes ps = omega (arith, e, light) in
        let rest = resend_lost-Inv now window (before + len) (cur + len) ps counted t.1 in
        if-keeps (ResentInv before) (ltb window (cur + len) && ltb 0 cur) (e, t)
          (omega (arith, rest.0, heavy), (cleared, rest.1)))

module _ {F : Type 0} where
  pub queue_all-WindowInv :
      (now : ℕ) (ps : List Sent) (c : Connection F) → WindowInv c → WindowInv (queue_all now ps c)
  unfolding queue_all
  queue_all-WindowInv now [] c h = h
  queue_all-WindowInv now (p ∷ ps) c h =
      queue_all-WindowInv now ps (queue now p.kind p.seq p.payload c) h

  pub send_lost-WindowInv :
      (now window : ℕ) (c : Connection F) → WindowInv c → WindowInv (send_lost now window c)
  send_lost-WindowInv now window c h =
      let r = resend_lost now window c.cur_window c.in_flight in
      let inv =
        resend_lost-Inv now window 0 c.cur_window c.in_flight (omega (arith, h.counted)) h.tidy in
      queue_all-WindowInv now r.resend
        (record c { in_flight = r.in_flight; cur_window = r.cur_window })
        (record { counted = omega (arith, inv.0); tidy = inv.1 })

  pub send_packet-WindowInv :
      (now : ℕ) (c : Connection F) → WindowInv c → WindowInv (send_packet now c)
  send_packet-WindowInv now c h =
      let n = min (length c.outbox) max_payload in
      let len : length (take n c.outbox) ≡ n = length-take n c.outbox ∙ omega arith in
      subst (λ k. Counted (c.cur_window + k) (send_packet now c).in_flight) len
        (push-Counted c.cur_window c.in_flight (sent_first now data_packet (take n c.outbox) c) h
          refl)

  pub send_new-WindowInv :
      (fuel now window : ℕ) (c : Connection F)
      → WindowInv c
      → WindowInv (send_new fuel now window c)
  unfolding send_new
  send_new-WindowInv zero now window c h = h
  send_new-WindowInv (suc fuel) now window c h =
      if-keeps WindowInv (is_empty c.outbox || is_blocked now window c) h
        (send_new-WindowInv fuel now window (send_packet now c) (send_packet-WindowInv now c h))

  pub send_fin-WindowInv : (now : ℕ) (c : Connection F) → WindowInv c → WindowInv (send_fin now c)
  send_fin-WindowInv now c h =
      let e : c.cur_window + 0 ≡ c.cur_window = omega arith in
      if-keeps WindowInv (c.fin_pending && (not c.fin_sent && is_empty c.outbox))
        (subst (λ k. Counted k (c.in_flight ++ (sent_first now fin [] c ∷ []))) e
          (push-Counted c.cur_window c.in_flight (sent_first now fin [] c) h refl))
        h

  pub start_timer-WindowInv :
      (now : ℕ) (c : Connection F) → WindowInv c → WindowInv (start_timer now c)
  start_timer-WindowInv now c h = elim (Option-cases c.rto_deadline) [
    | inl e ↦ rw e (if-keeps WindowInv (none_in_flight c.in_flight) h h)
    | inr (at, e) ↦ rw e h
  ]

module _ {F : Type 0} (fl : Floats F) (now : ℕ) (c : Connection F) where
  pub send_pending-WindowInv : WindowInv c → WindowInv (send_pending fl now c)
  unfolding send_pending
  send_pending-WindowInv h =
      let window = min (fl.truncate c.max_window) c.peer_window in
      let lost = send_lost now window c in
      let fresh = send_new (length lost.outbox) now window lost in
      start_timer-WindowInv now (send_fin now fresh) (
        send_fin-WindowInv now fresh (
          send_new-WindowInv (length lost.outbox) now window lost
            (send_lost-WindowInv now window c h)))

  pub flush-WindowInv : WindowInv c → WindowInv (flush fl now c)
  unfolding flush
  flush-WindowInv h =
      let sent = if is_open c.phase then send_pending fl now c else c in
      let acked = ack_if_pending fl now sent in
      let sent_inv : WindowInv sent =
        if-keeps WindowInv (is_open c.phase) (send_pending-WindowInv h) h in
      let acked_inv : WindowInv acked =
        if-keeps WindowInv (sent.ack_pending && not (is_ended sent.phase)) sent_inv sent_inv in
      if-keeps WindowInv (acked.fin_acked && (acked.peer_closed && is_open acked.phase)) acked_inv
        acked_inv
