-- ===== src/Batch/Exclusion.antt =====
-- server/webrtc/batch_manager.go: its goroutines as interleaved steps, the callers' operations and the
-- batches under way, each of which ends in one step.
use unblink.Base.{
  is_empty, ℕ, ◌≡◌, refl, ◌+◌, true, false, ◌||◌, Option, none, some, List, [], ◌∷◌, ◌++◌, String,
  if◌then◌else◌, string_eq, ◌==◌, arith, Option-cases, Bool-cases, inl, inr,
}
use unblink.Base.{ap}
use unblink.Batch.Finish.{send_batch_ends}
use unblink.Base.Dict.{Dict, lookup, lookup-insert, lookup-erase}
use unblink.Batch.{
  Frame, Job, BatchManager, is_processing, launch, launched, job_for, with_buffer, push_frame,
  buffer_of, add_frame, flush_entries, flush, reset_summary, new_batch_manager,
}
use unblink.Batch.Send.{Env, Effects, send_batch}

pub record World : Type 0 where
  pub manager : BatchManager
  pub in_flight : List Job

-- How many batches of a service are under way.
abbrev pub running : String → List Job → ℕ
running sid [] = 0
running sid (j ∷ js) = (if sid == j.service_id then 1 else 0) + running sid js

abbrev pub jobs_of : Option Job → List Job
jobs_of none = []
jobs_of (some j) = j ∷ []

-- A step that panics does not happen; a frame, a flush, a reset, the end of a batch.
pub data Step (w : World) : World → Type 0 where
  frame :
      (f : Frame) (now : ℕ) {m : BatchManager} {sent : Option Job}
      → add_frame w.manager f now ≡ some (m, sent)
      → Step w (record { manager = m; in_flight = jobs_of sent ++ w.in_flight })
  flushes :
      (clock : String → ℕ) {m : BatchManager} {jobs : List Job}
      → flush clock w.manager ≡ some (m, jobs)
      → Step w (record { manager = m; in_flight = jobs ++ w.in_flight })
  resets :
      (sid : String)
      → Step w (record { manager = reset_summary sid w.manager; in_flight = w.in_flight })
  ends :
      (env : Env) (before after : List Job) (job : Job) {m : BatchManager} {fx : Effects}
      → w.in_flight ≡ before ++ job ∷ after
      → send_batch env w.manager job ≡ some (m, fx)
      → Step w (record { manager = m; in_flight = before ++ after })

pub data Reach (w : World) : World → Type 0 where
  here : Reach w w
  next : {u v : World} → Reach w u → Step u v → Reach w v

-- The lock of each service is set exactly while one batch of it is under way, and there is never
-- a second.
abbrev pub IsExclusive : World → Type 0
IsExclusive w =
    (sid : String) → running sid w.in_flight ≡ (if is_processing sid w.manager then 1 else 0)

running-append :
    (sid : String) (xs ys : List Job) → running sid (xs ++ ys) ≡ running sid xs + running sid ys
running-append sid [] ys = omega arith
running-append sid (x ∷ xs) ys = omega (arith, running-append sid xs ys)

-- `launch` sets one lock and starts one batch, for the same service.
launch-locks :
    (m m' : BatchManager) (s sid : String) (frames : List Frame) (now : ℕ) (job : Job)
    → launch m sid frames now ≡ some (m', job)
    → (job.service_id ≡ sid) × (is_processing s m' ≡ (if s == sid then true else is_processing s m))
unfolding launch launched job_for
launch-locks m m' s sid frames now job e =
    ground (arith, lookup-insert s sid true m.processing_locks)

add_frame-locks :
    (m m' : BatchManager) (s : String) (f : Frame) (now : ℕ) (sent : Option Job)
    → add_frame m f now ≡ some (m', sent)
    → running s (jobs_of sent) + (if is_processing s m then 1 else 0)
      ≡ (if is_processing s m' then 1 else 0)
unfolding add_frame
add_frame-locks m m' s f now sent e =
    let sid = f.service_id in
    let buffer = push_frame m.batch_size (buffer_of sid m) f in
    let grown = with_buffer m sid buffer in
    elim (Option-cases (launch grown sid buffer now)) [
      | inl panics ↦ ground (arith, panics)
      | inr ((x, job), starts) ↦
          ground (arith, starts, launch-locks grown x s sid buffer now job starts)
    ]

-- Each pass of the loop starts a batch only for a service whose lock is free.
flush_entries-locks :
    (clock : String → ℕ) (s : String) (entries : Dict String (List Frame)) (m m' : BatchManager)
    (jobs : List Job)
    → flush_entries clock entries m ≡ some (m', jobs)
    → running s jobs + (if is_processing s m then 1 else 0) ≡ (if is_processing s m' then 1 else 0)
unfolding flush_entries
flush_entries-locks clock s [] m m' jobs e = ground arith
flush_entries-locks clock s ((sid, buffer) ∷ rest) m m' jobs e =
    elim (Bool-cases (is_empty buffer || is_processing sid m)) [
      | inl skip ↦ flush_entries-locks clock s rest m m' jobs (rw skip at e)
      | inr go ↦ elim (Option-cases (launch m sid buffer (clock sid))) [
        | inl panics ↦ ground (arith, panics)
        | inr ((x, job), starts) ↦ elim (Option-cases (flush_entries clock rest x)) [
          | inl panics ↦ ground (arith, starts, panics)
          | inr ((y, more), rest_done) ↦ ground (
            arith,
            starts,
            rest_done,
            launch-locks m x s sid buffer (clock sid) job starts,
            flush_entries-locks clock s rest x y more rest_done,
          )
        ]
      ]
    ]

flush-locks :
    (m m' : BatchManager) (s : String) (clock : String → ℕ) (jobs : List Job)
    → flush clock m ≡ some (m', jobs)
    → running s jobs + (if is_processing s m then 1 else 0) ≡ (if is_processing s m' then 1 else 0)
unfolding flush
flush-locks m m' s clock jobs e = flush_entries-locks clock s m.frame_buffers m m' jobs e

running-middle :
    (s : String) (xs : List Job) (j : Job) (ys : List Job)
    → running s (xs ++ j ∷ ys) ≡ (if s == j.service_id then 1 else 0) + running s (xs ++ ys)
running-middle s xs j ys = omega (arith, running-append s xs (j ∷ ys), running-append s xs ys)

send_batch-locks :
    (env : Env) (m m' : BatchManager) (s : String) (job : Job) (fx : Effects)
    → send_batch env m job ≡ some (m', fx)
    → is_processing s m' ≡ (if s == job.service_id then false else is_processing s m)
send_batch-locks env m m' s job fx e =
    let (m'', fx', e', same) = send_batch_ends env m job in
    ground (arith, same.locks, lookup-erase s job.service_id m.processing_locks)

-- Every step keeps it.
pub Step-IsExclusive : {w u : World} → Step w u → IsExclusive w → IsExclusive u
Step-IsExclusive {w} (frame f now {m} {sent} e) h sid = omega (
  arith,
  h sid,
  running-append sid (jobs_of sent) w.in_flight,
  add_frame-locks w.manager m sid f now sent e,
)
Step-IsExclusive {w} (flushes clock {m} {jobs} e) h sid =
    omega
      (arith, h sid, running-append sid jobs w.in_flight, flush-locks w.manager m sid clock jobs e)
Step-IsExclusive {w} (resets s) h sid = unfold reset_summary in h sid
Step-IsExclusive {w} (ends env before after job {m} {fx} e done) h sid = ground (
  arith,
  h sid,
  ap (running sid) e,
  running-middle sid before job after,
  send_batch-locks env w.manager m sid job fx done,
)

abbrev pub start : ℕ → World
start batch_size = record { manager = new_batch_manager batch_size; in_flight = [] }

start-IsExclusive : (n : ℕ) → IsExclusive (start n)
unfolding new_batch_manager lookup
start-IsExclusive n sid = refl

Reach-IsExclusive : {w u : World} → Reach w u → IsExclusive w → IsExclusive u
Reach-IsExclusive here h = h
Reach-IsExclusive (next r st) h = Step-IsExclusive st (Reach-IsExclusive r h)

-- Whatever frames, flushes, resets and ends of batches come from a new manager on, in any order: the
-- processing lock of a service is set exactly while one batch of it is under way, and no service
-- ever has two at once.
pub one_batch_at_a_time : (n : ℕ) (w : World) → Reach (start n) w → IsExclusive w
one_batch_at_a_time n w r = Reach-IsExclusive r (start-IsExclusive n)
