-- ===== src/Reconnect.antt =====
-- node/reconnect.go: the loop that connects again, its delays and the errors that end it. Durations are
-- in nanoseconds. A text is its bytes, which are ASCII. The product of floats is taken exactly and
-- rounded down; a draw `r` of `rand.Float64()` stands for r / 2^53.
pub mod Bounds
pub mod Errors
pub mod Resets
mod Tests
use unblink.Base.{
  ◌++◌, ℕ, suc, ◌+◌, ◌-◌, ◌*◌, ◌/◌, ◌^◌, Bool, true, false, Option, none, some, List, [], ◌∷◌, ◌||◌,
  ◌&&◌, leb, ltb, if◌then◌else◌, map,
}
use unblink.Trim.Truncate.{codes, contains_text}

-- `time.Second`
abbrev pub second : ℕ
second = 1000000000

-- `initialDelay` and `stableThreshold` of `NewReconnector`
abbrev pub initial_delay : ℕ
initial_delay = 10 * second

abbrev pub stable_threshold : ℕ
stable_threshold = 60 * second

-- The factor `1.0 + (rand.Float64()*2-1)*r.jitterFactor` of a delay.
unfoldable pub jittered : ℕ → ℕ → ℕ
jittered draw delay = delay * (9 * 2 ^ 53 + 2 * draw) / (10 * 2 ^ 53)

-- `calculateDelay`
unfoldable pub calculate_delay : ℕ → ℕ → ℕ
calculate_delay draw attempt =
    if leb attempt 3 then jittered draw (initial_delay * 2 ^ (attempt - 1)) else 300 * second

-- `shouldResetBackoff`
unfoldable pub should_reset_backoff : ℕ → Bool
should_reset_backoff connected_for = leb stable_threshold connected_for

-- `strings.ToLower`
abbrev pub lower : ℕ → ℕ
lower c = if leb 65 c && leb c 90 then c + 32 else c

abbrev pub to_lower : List ℕ → List ℕ
to_lower text = map lower text

abbrev pub contains_any : List (List ℕ) → List ℕ → Bool
contains_any [] text = false
contains_any (p ∷ ps) text = contains_text (to_lower p) (to_lower text) || contains_any ps text

abbrev pub non_retryable_patterns : List (List ℕ)
non_retryable_patterns =
    codes "invalid_token"
    ∷ codes "invalid relay address"
    ∷ codes "unauthorized"
    ∷ codes "forbidden"
    ∷ []

abbrev pub retryable_patterns : List (List ℕ)
retryable_patterns =
    codes "connection refused"
    ∷ codes "dial"
    ∷ codes "EOF"
    ∷ codes "read message"
    ∷ codes "write message"
    ∷ codes "timeout"
    ∷ codes "network"
    ∷ codes "closed"
    ∷ codes "reset"
    ∷ codes "broken pipe"
    ∷ codes "no route to host"
    ∷ []

-- `IsRetryableError`, of the text of an error; no error is `none`.
unfoldable pub is_retryable_error : Option (List ℕ) → Bool
is_retryable_error none = false
is_retryable_error (some text) =
    if contains_any non_retryable_patterns text then false else contains_any retryable_patterns text

-- One round of the loop: whether a shutdown is seen before the connection, after it and during the
-- wait, how the connection ends and after what time, and the draw for the jitter.
pub record Round : Type 0 where
  pub stops_before : Bool
  pub error : Option (List ℕ)
  pub connected_for : ℕ
  pub stops_after : Bool
  pub stops_waiting : Bool
  pub draw : ℕ

-- How a round ends: `Run` returns, the process ends by `log.Fatalf`, or the loop goes on, with the
-- attempts so far.
pub data Ending : Type 0 where
  returned fatal : Ending
  goes_on : ℕ → Ending

-- What the loop does: it connects, or waits for a delay.
pub data Act : Type 0 where
  connects : Act
  waits : ℕ → Act

-- What comes after a connection that has ended with an error.
unfoldable pub wait_again : Round → ℕ → List Act × Ending
wait_again r attempt =
    let reset = should_reset_backoff r.connected_for in
    let delay = calculate_delay r.draw (if reset then 1 else attempt) in
    (
      connects ∷ waits delay ∷ [],
      if r.stops_waiting then returned else goes_on (if reset then 0 else attempt),
    )

-- A round of `Run` after so many attempts.
unfoldable pub run_round : Round → ℕ → List Act × Ending
run_round r attempt =
    if r.stops_before
    then ([], returned)
    else if r.stops_after
    then (connects ∷ [], returned)
    else elim r.error [
      | none ↦ (connects ∷ [], returned)
      | some text ↦
          if is_retryable_error (some text)
          then wait_again r (suc attempt)
          else (connects ∷ [], fatal)
    ]

-- The loop goes on with the next round, or it has ended.
unfoldable pub and_then : List Act × Ending → (ℕ → List Act × Ending) → List Act × Ending
and_then (acts, returned) rest = (acts, returned)
and_then (acts, fatal) rest = (acts, fatal)
and_then (acts, goes_on attempt) rest = let (more, last) = rest attempt in (acts ++ more, last)

-- `Run`, over its rounds.
unfoldable pub run : List Round → ℕ → List Act × Ending
run [] attempt = ([], goes_on attempt)
run (r ∷ rounds) attempt = and_then (run_round r attempt) (run rounds)
