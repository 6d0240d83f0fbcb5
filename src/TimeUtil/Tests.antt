-- ===== src/TimeUtil/Tests.antt =====
-- server/internal/timeutil/granularity.go at the ends of the ranges.
use unblink.Base.{◌≡◌, refl, true}
use unblink.TimeUtil.{minute, hour, next_granularity}

minute_next : next_granularity minute ≡ (hour, true)
unfolding next_granularity
minute_next = refl
