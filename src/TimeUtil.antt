-- ===== src/TimeUtil.antt =====
-- server/internal/timeutil/granularity.go: the tiers of the event rollup. A duration is an int64
-- in seconds and may be negative; the constants are far inside its range. `FormatToISO` only calls
-- package time and is left out.
pub mod Laws
mod Tests
use unblink.Base.{Eq, string_eq, ℕ, ◌≤◌, Bool, true, false, if◌then◌else◌, String}
use unblink.Base.Int.{ℤ, pos, negsuc, ltb_ℤ}

-- A `GranularityLevel` is a Go string: six constants, and any other text.
pub data GranularityLevel : Type 0 where
  second minute hour day week month : GranularityLevel
  other : String → GranularityLevel

string_dec : Discrete String
string_dec = string_eq.dec

level_dec : Discrete GranularityLevel
level_dec = hlevel string_dec

instance unfoldable pub level_eq : Eq GranularityLevel
unfolding level_dec string_dec
level_eq = record { dec = level_dec }

-- `CalculateGranularity`
unfoldable pub calculate_granularity : ℤ → GranularityLevel
calculate_granularity d =
    if ltb_ℤ d (pos 30)
    then second
    else if ltb_ℤ d (pos 1800)
    then minute
    else if ltb_ℤ d (pos 43200)
    then hour
    else if ltb_ℤ d (pos 604800)
    then day
    else if ltb_ℤ d (pos 1209600)
    then week
    else month

-- `NextGranularity`
unfoldable pub next_granularity : GranularityLevel → GranularityLevel × Bool
next_granularity second = (minute, true)
next_granularity minute = (hour, true)
next_granularity hour = (day, true)
next_granularity day = (week, true)
next_granularity week = (month, true)
next_granularity _ = (other "", false)

-- `MinSecondsForGranularity`
unfoldable pub min_seconds_for_granularity : GranularityLevel → ℕ
min_seconds_for_granularity second = 0
min_seconds_for_granularity minute = 30
min_seconds_for_granularity hour = 1800
min_seconds_for_granularity day = 43200
min_seconds_for_granularity week = 604800
min_seconds_for_granularity month = 1209600
min_seconds_for_granularity _ = 0
