-- ===== src/Reconnect/Bounds.antt =====
-- node/reconnect.go: how long the loop waits, and when it starts over.
use unblink.Base.{
  ℕ, zero, suc, ◌*◌, ◌^◌, ◌≤◌, ◌<◌, ◌≡◌, true, false, List, [], ◌∷◌, if◌then◌else◌, All, All-append,
  arith, Option-cases, Bool-cases, inl, inr,
}
use unblink.Reconnect.{
  Round, Ending, returned, fatal, goes_on, Act, connects, waits, second, jittered, calculate_delay,
  should_reset_backoff, is_retryable_error, wait_again, run_round, run, and_then,
}

-- The draw is one of `rand.Float64()`.
abbrev pub IsDrawn : Round → Type 0
IsDrawn r = r.draw < 2 ^ 53

-- A wait of at least 9 seconds and at most 5 minutes.
abbrev pub InBounds : Act → Type 0
InBounds connects = Unit
InBounds (waits delay) = (9 * second ≤ delay) × (delay ≤ 300 * second)

-- The delays of the first attempts: 10, 20 and 40 seconds, a tenth more or less.
calculate_delay-first :
    (draw : ℕ)
    → draw < 2 ^ 53
    → (9 * second ≤ calculate_delay draw 1) × (calculate_delay draw 1 ≤ 11 * second)
unfolding calculate_delay jittered
calculate_delay-first draw lt = ground arith

calculate_delay-bounds :
    (draw attempt : ℕ)
    → draw < 2 ^ 53
    → (9 * second ≤ calculate_delay draw (suc attempt))
      × (calculate_delay draw (suc attempt) ≤ 300 * second)
unfolding calculate_delay jittered
calculate_delay-bounds draw zero lt = ground arith
calculate_delay-bounds draw (suc zero) lt = ground arith
calculate_delay-bounds draw (suc (suc zero)) lt = ground arith
calculate_delay-bounds draw (suc (suc (suc n))) lt = ground arith

-- After the fourth failure in a row, the delay is 5 minutes, and no draw changes it.
calculate_delay-later :
    (draw attempt : ℕ) → 3 < attempt → calculate_delay draw attempt ≡ 300 * second
unfolding calculate_delay
calculate_delay-later draw attempt lt = ground arith

wait_again-InBounds :
    (r : Round) (attempt : ℕ) → IsDrawn r → All InBounds (wait_again r (suc attempt)).0
unfolding wait_again
wait_again-InBounds r attempt drawn = elim (Bool-cases (should_reset_backoff r.connected_for)) [
  | inl healthy ↦ rw healthy (tt, (calculate_delay-bounds r.draw 0 drawn, tt))
  | inr short ↦ rw short (tt, (calculate_delay-bounds r.draw attempt drawn, tt))
]

run_round-InBounds : (r : Round) (attempt : ℕ) → IsDrawn r → All InBounds (run_round r attempt).0
unfolding run_round
run_round-InBounds r attempt drawn = ground (arith, wait_again-InBounds r attempt drawn)

and_then-InBounds :
    (x : List Act × Ending) (rest : ℕ → List Act × Ending)
    → All InBounds x.0
    → ((attempt : ℕ) → All InBounds (rest attempt).0)
    → All InBounds (and_then x rest).0
unfolding and_then
and_then-InBounds (acts, returned) rest h q = h
and_then-InBounds (acts, fatal) rest h q = h
and_then-InBounds (acts, goes_on attempt) rest h q =
    All-append InBounds acts (rest attempt).0 h (q attempt)

-- However the connections end, each wait of the loop is of at least 9 seconds and at most 5 minutes.
pub run-InBounds :
    (rounds : List Round) (attempt : ℕ) → All IsDrawn rounds → All InBounds (run rounds attempt).0
unfolding run
run-InBounds [] attempt drawn = tt
run-InBounds (r ∷ rounds) attempt (d, drawn) =
    and_then-InBounds (run_round r attempt) (run rounds) (run_round-InBounds r attempt d)
      (λ attempt'. run-InBounds rounds attempt' drawn)

-- A connection that ends with an error after which the loop connects again.
abbrev pub Fails : Round → Type 0
Fails r =
    (r.stops_before ≡ false)
    × (r.stops_after ≡ false)
    × (r.stops_waiting ≡ false)
    × (is_retryable_error r.error ≡ true)

-- The connection lasted at least a minute, or it was shorter.
abbrev pub IsHealthy : Round → Type 0
IsHealthy r = 60 * second ≤ r.connected_for

abbrev pub IsShort : Round → Type 0
IsShort r = r.connected_for < 60 * second

-- A failure is one connection and one wait, with the attempts counted on, or from the start.
pub run_round-Fails :
    (r : Round) (attempt : ℕ)
    → Fails r
    → run_round r attempt ≡ (
        if should_reset_backoff r.connected_for
        then (connects ∷ waits (calculate_delay r.draw 1) ∷ [], goes_on 0)
        else (connects ∷ waits (calculate_delay r.draw (suc attempt)) ∷ [], goes_on (suc attempt)))
unfolding run_round wait_again is_retryable_error
run_round-Fails r attempt (b, a, w, e) = elim (Option-cases r.error) [
  | inl clean ↦ ground (arith, e, clean)
  | inr (text, error) ↦ ground (arith, b, a, w, e, error)
]
