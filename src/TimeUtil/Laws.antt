-- ===== src/TimeUtil/Laws.antt =====
-- server/internal/timeutil/granularity.go: the table in the comment of `CalculateGranularity`, and how
-- the three functions relate.
use unblink.Base.{ℕ, ◌≤◌, ◌<◌, ◌-◌, ◌≡◌, true, ◌↔◌, arith}
use unblink.Base.Int.{ℤ, pos, negsuc, leb_ℤ}
use unblink.TimeUtil.{
  GranularityLevel, second, minute, hour, day, week, month, other, calculate_granularity,
  next_granularity, min_seconds_for_granularity,
}

-- The ranges of the comment, with both ends.
abbrev pub InRange : GranularityLevel → ℕ → Type 0
InRange second n = n ≤ 29
InRange minute n = (30 ≤ n) × (n ≤ 1799)
InRange hour n = (1800 ≤ n) × (n ≤ 43199)
InRange day n = (43200 ≤ n) × (n ≤ 604799)
InRange week n = (604800 ≤ n) × (n ≤ 1209599)
InRange month n = 1209600 ≤ n
InRange (other s) n = ⊥

-- A duration of n seconds has level g exactly when n lies in the range that the comment gives for g.
pub calculate_granularity_iff :
    (n : ℕ) (g : GranularityLevel) → (calculate_granularity (pos n) ≡ g) ↔ InRange g n
unfolding calculate_granularity
calculate_granularity_iff n second = ground arith
calculate_granularity_iff n minute = ground arith
calculate_granularity_iff n hour = ground arith
calculate_granularity_iff n day = ground arith
calculate_granularity_iff n week = ground arith
calculate_granularity_iff n month = ground arith
calculate_granularity_iff n (other s) = ground arith

-- A negative duration counts as the finest level.
pub calculate_granularity-negsuc : (n : ℕ) → calculate_granularity (negsuc n) ≡ second
unfolding calculate_granularity
calculate_granularity-negsuc n = ground arith

abbrev pub rank : GranularityLevel → ℕ
rank second = 0
rank minute = 1
rank hour = 2
rank day = 3
rank week = 4
rank month = 5
rank (other s) = 6

-- Where a coarser level exists, the three functions agree: the threshold of the coarser level is
-- the first duration that has it, one second less still has the finer one, and the rank rises by 1.
pub next_granularity_threshold :
    (g h : GranularityLevel)
    → next_granularity g ≡ (h, true)
    → (calculate_granularity (pos (min_seconds_for_granularity h)) ≡ h)
      × (calculate_granularity (pos (min_seconds_for_granularity h - 1)) ≡ g)
      × (rank h ≡ Prim.Native.Nat.suc (rank g))
      × (min_seconds_for_granularity g < min_seconds_for_granularity h)
unfolding next_granularity calculate_granularity min_seconds_for_granularity
next_granularity_threshold second h e = ground arith
next_granularity_threshold minute h e = ground arith
next_granularity_threshold hour h e = ground arith
next_granularity_threshold day h e = ground arith
next_granularity_threshold week h e = ground arith
next_granularity_threshold month h e = ground arith
next_granularity_threshold (other s) h e = ground arith

-- A longer duration never has a finer level, negative durations included.
pub calculate_granularity_mono :
    (a b : ℤ) → leb_ℤ a b ≡ true → rank (calculate_granularity a) ≤ rank (calculate_granularity b)
unfolding calculate_granularity
calculate_granularity_mono (pos a) (pos b) h = ground arith
calculate_granularity_mono (pos a) (negsuc b) h = ground arith
calculate_granularity_mono (negsuc a) (pos b) h = ground arith
calculate_granularity_mono (negsuc a) (negsuc b) h = ground arith
