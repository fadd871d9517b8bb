-- ===== src/Utp/Conn/Network.antt =====
-- src/utp/conn.rs: the bytes in the network are counted: `cur_window` is their number.
pub mod Sending
pub mod Events
pub mod Always
use bittorrent_rs.Prelude.{
  if-keeps, ℕ, zero, suc, ◌+◌, ◌-◌, ◌≡◌, refl, sym, ap, subst, ◌∙◌, Bool, true, false, not, ◌&&◌,
  ◌||◌, Option, none, some, List, [], ◌∷◌, ◌++◌, arith, ltb, ◌==◌, if◌then◌else◌, length, All,
  Bool-cases, inl, inr, Option-cases, ◌*◌, test_bit, Bytes,
}
use bittorrent_rs.Utp.Packet.{PacketType, syn, fin, state, Packet}
use bittorrent_rs.Utp.Conn.{Floats, Connection, Sent, in_network, add_u16, seq_le}
use bittorrent_rs.Utp.Conn.Ack.{
  Tally, leave, note_gone, pop_acked, find_sent, change_sent, mark_sacked, mark_lost, sack_seq,
  sack_bits, sack_bytes, has_seq, is_unsacked,
}

abbrev pub weight : Sent → ℕ
weight p = if in_network p then length p.payload else 0

-- The bytes of the packets that are in the network.
abbrev pub network_bytes : List Sent → ℕ
network_bytes [] = 0
network_bytes (p ∷ ps) = weight p + network_bytes ps

-- A packet that the peer has is not lost.
abbrev pub Tidy : Sent → Type 0
Tidy p = (p.sacked && p.lost) ≡ false

pub record Counted (cur : ℕ) (ps : List Sent) : Type 0 where
  pub counted : cur ≡ network_bytes ps
  pub tidy : All Tidy ps

abbrev pub WindowInv : {F : Type 0} → Connection F → Type 0
WindowInv c = Counted c.cur_window c.in_flight

abbrev pub TallyInv : {F : Type 0} → Tally F → Type 0
TallyInv t = WindowInv t.conn

pub network-append :
    (ps : List Sent) (p : Sent) → network_bytes (ps ++ (p ∷ [])) ≡ network_bytes ps + weight p
network-append [] p = omega arith
network-append (q ∷ ps) p = ground (arith, network-append ps p)

pub Tidy-append : (ps : List Sent) (p : Sent) → All Tidy ps → Tidy p → All Tidy (ps ++ (p ∷ []))
Tidy-append [] p h t = (t, h)
Tidy-append (q ∷ ps) p h t = (h.0, Tidy-append ps p h.1 t)

pub push-Counted :
    (cur : ℕ) (ps : List Sent) (p : Sent)
    → Counted cur ps
    → Tidy p
    → Counted (cur + weight p) (ps ++ (p ∷ []))
push-Counted cur ps p h t = record {
  counted = rw (network-append ps p, h.counted) refl;
  tidy = Tidy-append ps p h.tidy t;
}

leave-weight : (p : Sent) (n : ℕ) → leave p (weight p + n) ≡ n
leave-weight p n = ground arith

pub leave-Counted :
    (cur : ℕ) (p : Sent) (ps : List Sent) → Counted cur (p ∷ ps) → Counted (leave p cur) ps
leave-Counted cur p ps h = record {
  counted = rw h.counted (leave-weight p (network_bytes ps));
  tidy = h.tidy.1;
}

module _ (test : Sent → Bool) (f : Sent → Sent) where
  -- A packet that leaves the network when it is changed.
  pub change-network :
      ((p : Sent) → weight (f p) ≡ 0)
      → (ps : List Sent) (p : Sent) → find_sent test ps ≡ some p
      → weight p + network_bytes (change_sent test f ps) ≡ network_bytes ps
  change-network out [] p e = ground arith
  change-network out (q ∷ ps) p e = ground (arith, out q, change-network out ps p)

  pub change-Tidy :
      ((p : Sent) → test p ≡ true → Tidy p → Tidy (f p))
      → (ps : List Sent) → All Tidy ps
      → All Tidy (change_sent test f ps)
  change-Tidy keeps [] h = h
  change-Tidy keeps (q ∷ ps) h = elim (Bool-cases (test q)) [
    | inl e ↦ rw e (keeps q e h.0, h.1)
    | inr e ↦ rw e (h.0, change-Tidy keeps ps h.1)
  ]

pub find-test :
    (test : Sent → Bool) (ps : List Sent) (p : Sent) → find_sent test ps ≡ some p → test p ≡ true
find-test test [] p e = ground arith
find-test test (q ∷ ps) p e = ground (arith, find-test test ps p)

module _ {F : Type 0} where
  pub pop_acked-WindowInv :
      (now ack : ℕ) (ps : List Sent) (t : Tally F)
      → t.conn.in_flight ≡ ps
      → WindowInv t.conn
      → WindowInv (pop_acked now ack ps t).conn
  unfolding pop_acked
  pop_acked-WindowInv now ack [] t e h = h
  pop_acked-WindowInv now ack (p ∷ ps) t e h =
      let without : Counted (leave p t.conn.cur_window) ps =
        leave-Counted t.conn.cur_window p ps (subst (λ i. Counted t.conn.cur_window i) e h) in
      if-keeps TallyInv (seq_le p.seq ack)
        (pop_acked-WindowInv now ack ps (note_gone now p ps t) refl without) h

  pub sack_seq-WindowInv :
      (now seq : ℕ) (t : Tally F) → WindowInv t.conn → WindowInv (sack_seq now seq t).conn
  unfolding sack_seq
  sack_seq-WindowInv now seq t h = elim (Option-cases (find_sent (has_seq seq) t.conn.in_flight)) [
    | inl e ↦ rw (e, sack_seq) h
    | inr (p, e) ↦
        let left = change-network (has_seq seq) mark_sacked (λ q. refl) t.conn.in_flight p e in
        let marked : Counted (leave p t.conn.cur_window)
            (change_sent (has_seq seq) mark_sacked t.conn.in_flight) =
          record {
            counted = rw (h.counted, sym left) (leave-weight p _);
            tidy = change-Tidy (has_seq seq) mark_sacked (λ q e k. refl) t.conn.in_flight h.tidy;
          } in
        rw (e, sack_seq) (if-keeps TallyInv p.sacked h marked)
  ]

  pub sack_bits-WindowInv :
      (left now ack i byte bit : ℕ) (t : Tally F)
      → WindowInv t.conn
      → WindowInv (sack_bits left now ack i byte bit t).conn
  sack_bits-WindowInv zero now ack i byte bit t h = h
  sack_bits-WindowInv (suc left) now ack i byte bit t h =
      sack_bits-WindowInv left now ack i byte (bit + 1) _ (
        if-keeps TallyInv (test_bit bit byte)
          (sack_seq-WindowInv now (add_u16 (add_u16 ack 2) (i * 8 + bit)) t h) h)

  pub sack_bytes-WindowInv :
      (now ack i : ℕ) (mask : Bytes) (t : Tally F)
      → WindowInv t.conn
      → WindowInv (sack_bytes now ack i mask t).conn
  sack_bytes-WindowInv now ack i [] t h = h
  sack_bytes-WindowInv now ack i (byte ∷ mask) t h =
      sack_bytes-WindowInv now ack (i + 1) mask _ (sack_bits-WindowInv 8 now ack i byte 0 t h)
