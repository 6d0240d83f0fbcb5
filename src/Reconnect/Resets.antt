-- ===== src/Reconnect/Resets.antt =====
-- node/reconnect.go: the attempts that count, and the shutdown.
use unblink.Base.{
  ℕ, suc, ◌+◌, ◌≡◌, ◌∙◌, sym, ap, refl, true, ◌||◌, List, [], ◌∷◌, ◌++◌, length, All, arith,
  Option-cases, Bool-cases, inl, inr,
}
use unblink.Reconnect.{
  Round, Ending, returned, fatal, goes_on, Act, should_reset_backoff, wait_again, run_round, run,
  and_then,
}
use unblink.Reconnect.Bounds.{Fails, IsHealthy, IsShort, run_round-Fails}

and_then-ending :
    (x : List Act × Ending) (rest : ℕ → List Act × Ending) (attempt : ℕ)
    → x.1 ≡ goes_on attempt
    → (and_then x rest).1 ≡ (rest attempt).1
unfolding and_then
and_then-ending (acts, returned) rest attempt e = cc
and_then-ending (acts, fatal) rest attempt e = cc
and_then-ending (acts, goes_on n) rest attempt e = ground (arith, e)

run_round-short :
    (r : Round) (attempt : ℕ)
    → Fails r
    → IsShort r
    → (run_round r attempt).1 ≡ goes_on (suc attempt)
unfolding should_reset_backoff
run_round-short r attempt fails short = ground (arith, run_round-Fails r attempt fails, short)

run_round-healthy :
    (r : Round) (attempt : ℕ) → Fails r → IsHealthy r → (run_round r attempt).1 ≡ goes_on 0
unfolding should_reset_backoff
run_round-healthy r attempt fails healthy = ground (arith, run_round-Fails r attempt fails, healthy)

run-short :
    (rounds : List Round) (attempt : ℕ)
    → All (λ r. Fails r × IsShort r) rounds
    → (run rounds attempt).1 ≡ goes_on (attempt + length rounds)
unfolding run
run-short [] attempt h = ground arith
run-short (r ∷ rounds) attempt ((fails, short), h) =
    and_then-ending (run_round r attempt) (run rounds) (suc attempt)
      (run_round-short r attempt fails short)
    ∙ run-short rounds (suc attempt) h
    ∙ ap goes_on (omega arith)

-- After failures of any kind and a connection that lasted a minute, the attempts that count for the
-- next delay are the shorter failures since then.
pub run-resets :
    (before : List Round) (r : Round) (after : List Round) (attempt : ℕ)
    → All Fails before
    → Fails r
    → IsHealthy r
    → All (λ s. Fails s × IsShort s) after
    → (run (before ++ r ∷ after) attempt).1 ≡ goes_on (length after)
unfolding run
run-resets [] r after attempt _ fails healthy h =
    and_then-ending (run_round r attempt) (run after) 0 (run_round-healthy r attempt fails healthy)
    ∙ run-short after 0 h
    ∙ ap goes_on (omega arith)
run-resets (b ∷ before) r after attempt (first, rest) fails healthy h =
    elim (Bool-cases (should_reset_backoff b.connected_for)) [
      | inl long ↦
          and_then-ending (run_round b attempt) (run (before ++ r ∷ after)) 0
            (ground (arith, run_round-Fails b attempt first, long))
          ∙ run-resets before r after 0 rest fails healthy h
      | inr short ↦
          and_then-ending (run_round b attempt) (run (before ++ r ∷ after)) (suc attempt)
            (ground (arith, run_round-Fails b attempt first, short))
          ∙ run-resets before r after (suc attempt) rest fails healthy h
    ]

run_round-stops :
    (r : Round) (attempt : ℕ) (rest : ℕ → List Act × Ending)
    → (r.stops_before || (r.stops_after || r.stops_waiting)) ≡ true
    → and_then (run_round r attempt) rest ≡ run_round r attempt
unfolding run_round wait_again and_then
run_round-stops r attempt rest e = elim (Option-cases r.error) [
  | inl clean ↦ ground (arith, e, clean)
  | inr (text, error) ↦ ground (arith, e, error)
]

and_then-same :
    (x : List Act × Ending) (f g : ℕ → List Act × Ending)
    → ((attempt : ℕ) → f attempt ≡ g attempt)
    → and_then x f ≡ and_then x g
unfolding and_then
and_then-same (acts, returned) f g e = refl
and_then-same (acts, fatal) f g e = refl
and_then-same (acts, goes_on attempt) f g e =
    ap (λ (y : List Act × Ending). (acts ++ y.0, y.1)) (e attempt)

-- A round in which a shutdown is seen (before its connection, after it or during the wait) is the
-- last: the loop connects no more, whatever would come after.
pub run-stops :
    (before : List Round) (r : Round) (after : List Round) (attempt : ℕ)
    → (r.stops_before || (r.stops_after || r.stops_waiting)) ≡ true
    → run (before ++ r ∷ after) attempt ≡ run (before ++ r ∷ []) attempt
unfolding run
run-stops [] r after attempt e =
    run_round-stops r attempt (run after) e ∙ sym (run_round-stops r attempt (run []) e)
run-stops (b ∷ before) r after attempt e =
    and_then-same (run_round b attempt) (run (before ++ r ∷ after)) (run (before ++ r ∷ []))
      (λ attempt'. run-stops before r after attempt' e)
