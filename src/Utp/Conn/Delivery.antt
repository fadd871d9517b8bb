-- ===== src/Utp/Conn/Delivery.antt =====
-- src/utp/conn.rs: the receiving side delivers a stream of packets in order, however they come.
pub mod Steps
pub mod Refinement
use bittorrent_rs.Prelude.{
  if-keeps, if-keeps_by, ℕ, zero, suc, ◌+◌, ◌-◌, ◌%◌, ◌≤◌, ◌<◌, ◌≡◌, refl, sym, subst, ◌∙◌, ap, ap₂,
  Bool, true, false, ◌||◌, Option, none, some, List, [], ◌∷◌, ◌++◌, arith, ltb, leb, ◌==◌,
  if◌then◌else◌, length, Bytes, All, lookup, insert, remove, Option-cases, Bool-cases, inl, inr,
  append_assoc, All-weaken, or-eq_false, ltb_false→le, ==→eq, eq→==,
}
use bittorrent_rs.Utp.Packet.{Packet, fin}
use bittorrent_rs.Utp.Conn.{Connection, receive_window, reorder_window, sub_u16, add_u16, same_kind}
use bittorrent_rs.Utp.Conn.Receive.{
  deliver, take_held, drain_held, hold, note_fin, note_closed, take_in, receive,
}
use bittorrent_rs.Utp.Conn.Received.{Received, received}

-- The payloads of the first `k` packets of a stream, joined.
abbrev pub upto : (ℕ → Bytes) → ℕ → Bytes
upto stream zero = []
upto stream (suc k) = upto stream k ++ stream k

-- The sequence number of the packet `j`, when `base` was the last before the first.
abbrev pub seq_of : ℕ → ℕ → ℕ
seq_of base j = (base + 1 + j) % 65536

-- A packet of the stream, from `k` on and before `end`, that is held under its number.
pub record Early (stream : ℕ → Bytes) (base k end seq : ℕ) (payload : Bytes) : Type 0 where
  pub index : ℕ
  pub from : k ≤ index
  pub before : index < end
  pub numbered : seq ≡ seq_of base index
  pub carried : payload ≡ stream index

abbrev pub HeldEarly : (ℕ → Bytes) → ℕ → ℕ → ℕ → ℕ × Bytes → Type 0
HeldEarly stream base k end entry = Early stream base k end entry.0 entry.1

lookup-All :
    (P : ℕ × Bytes → Type 0) (k : ℕ) (v : Bytes) (m : List (ℕ × Bytes))
    → All P m
    → lookup k m ≡ some v
    → P (k, v)
lookup-All P k v [] h e = ground arith
lookup-All P k v ((j, w) ∷ m) h e = elim (Bool-cases (j == k)) [
  | inl same ↦
      let value : w ≡ v = ground arith in
      subst (λ i. P (i, v)) (==→eq j k same) (subst (λ x. P (j, x)) value h.0)
  | inr other ↦ lookup-All P k v m h.1 (ground arith)
]

pub insert-All :
    (P : ℕ × Bytes → Type 0) (k : ℕ) (v : Bytes) (m : List (ℕ × Bytes))
    → All P m
    → P (k, v)
    → All P (insert k v m)
insert-All P k v [] h p = (p, tt)
insert-All P k v ((j, w) ∷ m) h p =
    if-keeps (All P) (j == k) (p, h.1) (h.0, insert-All P k v m h.1 p)

module _ (stream : ℕ → Bytes) (base : ℕ) where
  later-Early :
      (k end seq : ℕ) (v : Bytes)
      → (seq == seq_of base k) ≡ false
      → Early stream base k end seq v
      → Early stream base (suc k) end seq v
  later-Early k end seq v other h = record {
    index = h.index;
    from = elim (Bool-cases (h.index == k)) [
      | inl same ↦
          let at_k : seq ≡ seq_of base k = h.numbered ∙ ap (seq_of base) (==→eq h.index k same) in
          let hit : (seq == seq_of base k) ≡ true = eq→== seq (seq_of base k) at_k in
          ground (arith, hit, other)
      | inr away ↦ ground (arith, h.from)
    ];
    before = h.before;
    numbered = h.numbered;
    carried = h.carried;
  }

  pub missing-Early :
      (k end : ℕ) (m : List (ℕ × Bytes))
      → lookup (seq_of base k) m ≡ none
      → All (HeldEarly stream base k end) m
      → All (HeldEarly stream base (suc k) end) m
  missing-Early k end [] e h = tt
  missing-Early k end ((seq, v) ∷ m) e h =
      let other : (seq == seq_of base k) ≡ false = ground arith in
      let rest : lookup (seq_of base k) m ≡ none = ground arith in
      (later-Early k end seq v other h.0, missing-Early k end m rest h.1)

  remove-Early :
      (k end : ℕ) (m : List (ℕ × Bytes))
      → All (HeldEarly stream base k end) m
      → All (HeldEarly stream base (suc k) end) (remove (seq_of base k) m)
  remove-Early k end [] h = tt
  remove-Early k end ((seq, v) ∷ m) h =
      let rest = remove-Early k end m h.1 in
      if-keeps_by (All (HeldEarly stream base (suc k) end)) (seq == seq_of base k) (λ same. rest)
        (λ other. (later-Early k end seq v other h.0, rest))

  pub widen-Early :
      (k end end' : ℕ) (m : List (ℕ × Bytes))
      → end ≤ end'
      → All (HeldEarly stream base k end) m
      → All (HeldEarly stream base k end') m
  widen-Early k end end' m le =
      All-weaken (HeldEarly stream base k end) (HeldEarly stream base k end') m (λ e h. record {
        index = h.index;
        from = h.from;
        before = omega (arith, le, h.before);
        numbered = h.numbered;
        carried = h.carried;
      })

-- `given` is what was read, and the packets before `k` are delivered; those held are before `end`.
pub record InOrder (stream : ℕ → Bytes) (base end : ℕ) (given : Bytes) (k : ℕ) (inbox : Bytes)
    (ack_nr : ℕ) (reorder : List (ℕ × Bytes)) : Type 0 where
  pub in_order : given ++ inbox ≡ upto stream k
  pub last_number : ack_nr ≡ (base + k) % 65536
  pub early : All (HeldEarly stream base k end) reorder
  pub within : k ≤ end

abbrev pub Delivered : (ℕ → Bytes) → ℕ → ℕ → Bytes → ℕ → Received → Type 0
Delivered stream base end given k r = InOrder stream base end given k r.inbox r.ack_nr r.reorder

length-remove_le : (k : ℕ) (m : List (ℕ × Bytes)) → length (remove k m) ≤ length m
length-remove_le k [] = omega arith
length-remove_le k ((j, w) ∷ m) = ground (arith, length-remove_le k m)

length-remove :
    (k : ℕ) (v : Bytes) (m : List (ℕ × Bytes))
    → lookup k m ≡ some v
    → length (remove k m) < length m
length-remove k v [] e = ground arith
length-remove k v ((j, w) ∷ m) e = ground (arith, length-remove k v m, length-remove_le k m)

-- The loop over the packets that were held ends only when the next in order is not among them: the
-- number of those held is fuel enough.
pub drain_held_complete :
    {F : Type 0} (fuel : ℕ) (c : Connection F)
    → length c.reorder ≤ fuel
    → lookup (add_u16 (drain_held fuel c).ack_nr 1) (drain_held fuel c).reorder ≡ none
unfolding drain_held
drain_held_complete zero c le = elim (Option-cases (lookup (add_u16 c.ack_nr 1) c.reorder)) [
  | inl e ↦ e
  | inr (payload, e) ↦
      let shorter = length-remove (add_u16 c.ack_nr 1) payload c.reorder e in
      absurd (omega (arith, shorter, le))
]
drain_held_complete (suc fuel) c le =
    let seq = add_u16 c.ack_nr 1 in
    elim (Option-cases (lookup seq c.reorder)) [
      | inl e ↦ rw (e, drain_held) e
      | inr (payload, e) ↦
          let shorter = length-remove seq payload c.reorder e in
          rw (e, drain_held)
            (drain_held_complete fuel (take_held seq payload c) (omega (arith, shorter, le)))
    ]

module _ {F : Type 0} (stream : ℕ → Bytes) (base end : ℕ) (given : Bytes) where
  -- Some more packets than `k` are delivered, if any.
  abbrev pub Further : ℕ → Connection F → Type 0
  Further k c = (k' : ℕ) × (k ≤ k') × Delivered stream base end given k' (received c)

  pub next_number :
      (k : ℕ) (c : Connection F)
      → c.ack_nr ≡ (base + k) % 65536
      → add_u16 c.ack_nr 1 ≡ seq_of base k
  next_number k c e = omega (arith, e)

  take_held-Delivered :
      (k : ℕ) (payload : Bytes) (c : Connection F)
      → end ≤ k + 64
      → lookup (seq_of base k) c.reorder ≡ some payload
      → Delivered stream base end given k (received c)
      → Delivered stream base end given (suc k) (received (take_held (seq_of base k) payload c))
  take_held-Delivered k payload c near e h =
      let entry =
        lookup-All (HeldEarly stream base k end) (seq_of base k) payload c.reorder h.early e in
      let here : entry.index ≡ k = omega (arith, near, entry.from, entry.before, entry.numbered) in
      let carried : payload ≡ stream k = entry.carried ∙ ap stream here in
      record {
        in_order = sym (append_assoc given c.inbox payload) ∙ ap₂ ◌++◌ h.in_order carried;
        last_number = omega arith;
        early = remove-Early stream base k end c.reorder h.early;
        within = omega (arith, here, entry.before);
      }

  pub drain_held-Further :
      (fuel k : ℕ) (c : Connection F)
      → end ≤ k + 64
      → Delivered stream base end given k (received c)
      → Further k (drain_held fuel c)
  unfolding drain_held
  drain_held-Further zero k c near h = (k, omega arith, h)
  drain_held-Further (suc fuel) k c near h =
      let seq = add_u16 c.ack_nr 1 in
      elim (Option-cases (lookup seq c.reorder)) [
        | inl e ↦ rw (e, drain_held) (k, omega arith, h)
        | inr (payload, e) ↦
            let at_k = next_number k c h.last_number in
            let found : lookup (seq_of base k) c.reorder ≡ some payload =
              subst (λ i. lookup i c.reorder ≡ some payload) at_k e in
            let taken : Delivered stream base end given (suc k)
                (received (take_held seq payload c)) =
              rw at_k (take_held-Delivered k payload c near found h) in
            let rest =
              drain_held-Further fuel (suc k) (take_held seq payload c) (omega (arith, near))
                taken in
            rw (e, drain_held) (rest.0, omega (arith, rest.1), rest.2)
      ]
