-- ===== src/Reconnect/Tests.antt =====
-- node/reconnect.go on a node whose server is away.
use unblink.Base.{ℕ, ◌≡◌, refl, true, false, some, [], ◌∷◌, All, arith, ◌*◌, ◌^◌}
use unblink.Trim.Truncate.{codes, contains_text}
use unblink.Reconnect.{
  Round, connects, waits, goes_on, second, run, run_round, wait_again, and_then, calculate_delay,
  jittered, should_reset_backoff, is_retryable_error,
}
use unblink.Reconnect.Bounds.{InBounds, run-InBounds}
use unblink.Reconnect.Resets.{run-resets}

abbrev refused_for : ℕ → Round
refused_for time = record {
  stops_before = false;
  error = some (codes "dial tcp: connection refused");
  connected_for = time;
  stops_after = false;
  stops_waiting = false;
  draw = 2 ^ 52;
}

abbrev away : Round
away = refused_for second

abbrev long_up : Round
long_up = refused_for (90 * second)

abbrev stopping : Round
stopping = record away { stops_waiting = true }

run_four_times : run (away ∷ away ∷ away ∷ away ∷ []) 0 ≡ (
  connects
      ∷ waits (10 * second)
      ∷ connects
      ∷ waits (20 * second)
      ∷ connects
      ∷ waits (40 * second)
      ∷ connects
      ∷ waits (300 * second)
      ∷ [],
  goes_on 4,
)
unfolding run run_round wait_again and_then calculate_delay jittered should_reset_backoff
    is_retryable_error contains_text
run_four_times = refl

away_retried : is_retryable_error (some (codes "dial tcp: connection refused")) ≡ true
unfolding is_retryable_error contains_text
away_retried = refl

run-InBounds_example : All InBounds (run (away ∷ long_up ∷ away ∷ []) 0).0
run-InBounds_example =
    run-InBounds (away ∷ long_up ∷ away ∷ []) 0 (omega arith, (omega arith, (omega arith, tt)))

run-resets_example : (run (away ∷ long_up ∷ away ∷ away ∷ []) 0).1 ≡ goes_on 2
run-resets_example =
    run-resets (away ∷ []) long_up (away ∷ away ∷ []) 0 ((refl, refl, refl, away_retried), tt)
      (refl, refl, refl, away_retried) (omega arith)
      (
        ((refl, refl, refl, away_retried), omega arith),
        (((refl, refl, refl, away_retried), omega arith), tt),
      )
