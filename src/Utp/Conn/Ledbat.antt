-- ===== src/Utp/Conn/Ledbat.antt =====
-- src/utp/conn.rs: the congestion window (LEDBAT): it follows the delays and is cut by a loss.
use bittorrent_rs.Prelude.{
  ℕ, ◌+◌, ◌/◌, ◌^◌, Bool, false, ◌||◌, Option, none, some, List, [], ◌∷◌, ◌++◌, ltb, leb, ◌==◌,
  if◌then◌else◌, length, drop, sub_u32,
}
use bittorrent_rs.Utp.Conn.{
  Floats, Connection, duration_since, initial_rto, base_delay_minutes, max_packet,
}

-- The 32 bits of a negative `i32`.
abbrev pub is_negative : ℕ → Bool
is_negative word = leb (2 ^ 31) word

abbrev pub last_delay : List (ℕ × ℕ) → Option (ℕ × ℕ)
last_delay [] = none
last_delay (d ∷ []) = some d
last_delay (d ∷ e ∷ ds) = last_delay (e ∷ ds)

abbrev pub set_last : ℕ × ℕ → List (ℕ × ℕ) → List (ℕ × ℕ)
set_last v [] = []
set_last v (d ∷ []) = v ∷ []
set_last v (d ∷ e ∷ ds) = d ∷ set_last v (e ∷ ds)

abbrev pub push_delay : ℕ × ℕ → List (ℕ × ℕ) → List (ℕ × ℕ)
push_delay v ds =
    let pushed = ds ++ (v ∷ []) in
    if ltb (base_delay_minutes + 1) (length pushed) then drop 1 pushed else pushed

-- The least delay of each minute, with a new one.
abbrev pub note_delay : ℕ → ℕ → List (ℕ × ℕ) → List (ℕ × ℕ)
note_delay minute delay ds = elim (last_delay ds) [
  | none ↦ push_delay (minute, delay) ds
  | some last ↦
      if last.0 == minute
      then (if is_negative (sub_u32 delay last.1) then set_last (minute, delay) ds else ds)
      else push_delay (minute, delay) ds
]

abbrev pub least_of : ℕ → ℕ → ℕ
least_of a b = if sub_u32 a b == 0 || is_negative (sub_u32 a b) then a else b

abbrev pub reduce_least : ℕ → List (ℕ × ℕ) → ℕ
reduce_least least [] = least
reduce_least least (d ∷ ds) = reduce_least (least_of least d.1) ds

-- The base of the delays, `delay` if there are none.
abbrev pub base_delay : ℕ → List (ℕ × ℕ) → ℕ
base_delay delay [] = delay
base_delay delay (d ∷ ds) = reduce_least d.1 ds

module _ {F : Type 0} (fl : Floats F) where
  abbrev pub min_window : F
  min_window = fl.float max_packet

  abbrev pub target_delay_us : F
  target_delay_us = fl.float 100000

  abbrev pub max_growth_per_rtt : F
  max_growth_per_rtt = fl.float 3000

  -- The slow start's window, or its end.
  abbrev pub grow_slow : F → F → Connection F → Connection F
  grow_slow queuing acked c =
      if fl.greater queuing (fl.times target_delay_us (fl.tenths 9))
        || fl.at_least c.max_window c.ssthresh
      then record c { slow_start = false }
      else record c { max_window = fl.plus c.max_window acked }

  abbrev pub grow_by_delay : F → F → Connection F → Connection F
  grow_by_delay queuing acked c =
      let delay_factor = fl.over (fl.minus target_delay_us queuing) target_delay_us in
      let window_factor = fl.smaller (fl.over acked c.max_window) (fl.float 1) in
      record c {
        max_window =
            fl.plus c.max_window
              (fl.times (fl.times max_growth_per_rtt delay_factor) window_factor);
      }

  abbrev pub bound_window : ℕ → Connection F → Connection F
  bound_window acked_bytes c =
      let in_use = fl.float (c.cur_window + acked_bytes) in
      record c {
        max_window =
            fl.clamp
              (fl.smaller c.max_window (
                fl.plus (fl.times (fl.float 2) in_use)
                  (fl.times (fl.float 4) (fl.float max_packet))))
              min_window (fl.times (fl.times (fl.float 16) (fl.float 1024)) (fl.float 1024));
      }

  unfoldable pub update_window : ℕ → ℕ → ℕ → Connection F → Connection F
  update_window now acked_bytes delay c =
      let minute = duration_since now c.epoch / 1000000000 / 60 in
      let noted = record c { delay_base = note_delay minute delay c.delay_base } in
      let base = base_delay delay noted.delay_base in
      let queuing = fl.larger (fl.from_i32 (sub_u32 delay base)) (fl.float 0) in
      let acked = fl.float acked_bytes in
      bound_window acked_bytes
        (if c.slow_start then grow_slow queuing acked noted else grow_by_delay queuing acked noted)

  abbrev pub round_trip : Connection F → ℕ
  round_trip c = elim c.rtt [ none ↦ initial_rto | some rtt ↦ rtt ]

  -- Whether the window was cut within this round trip.
  abbrev pub was_cut : ℕ → Connection F → Bool
  was_cut now c = elim c.last_window_cut [
    | none ↦ false
    | some at ↦ ltb (duration_since now at) (round_trip c)
  ]

  unfoldable pub cut_window : ℕ → Connection F → Connection F
  cut_window now c =
      let halved = fl.larger (fl.over c.max_window (fl.float 2)) min_window in
      if was_cut now c then c else record c {
        last_window_cut = some now;
        slow_start = false;
        max_window = halved;
        ssthresh = halved;
      }
