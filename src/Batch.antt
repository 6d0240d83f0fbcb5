-- ===== src/Batch.antt =====
-- server/webrtc/batch_manager.go: frames are buffered for each service and sent to the vision model
-- in batches, with a rolling context and a lock for each service.
-- A time is in nanoseconds since the epoch, as `UnixNano` gives it. A nil slice of frames is an
-- empty list. A Go panic (an index out of range) is `none`.
pub mod RollupLaws
mod Tests
pub mod Exclusion
pub mod Removal
pub mod Finish
pub mod Rollup
pub mod Send
pub mod Buffers
use unblink.Base.{
  value_or, is_empty, ℕ, Bool, true, false, not, ◌&&◌, Option, none, some, List, [], ◌∷◌, ◌++◌,
  String, length, tail, if◌then◌else◌, ltb, eqb, string_eq, ◌||◌,
}
use unblink.Base.Int.{ℤ}
use unblink.Base.Dict.{Dict, lookup, insert, erase}
use unblink.TimeUtil.{GranularityLevel}

pub record Frame : Type 0 where
  pub bytes : List ℕ
  pub timestamp : ℕ
  pub service_id : String

-- Coordinates are float64 in the code; here they are only carried along.
pub record VlmObject : Type 0 where
  pub id : ℤ
  pub label : String
  pub bbox : List ℤ

pub record VlmResponse : Type 0 where
  pub objects : List VlmObject
  pub description : String

pub record RollingContext : Type 0 where
  pub last_frame : Option Frame
  pub previous_response : Option VlmResponse
  pub last_batch_sent_time : ℕ

abbrev pub empty_context : RollingContext
empty_context = record { last_frame = none; previous_response = none; last_batch_sent_time = 0 }

pub record RollupWindow : Type 0 where
  pub from : ℕ
  pub to : ℕ

pub record BatchManager : Type 0 where
  pub batch_size : ℕ
  pub frame_buffers : Dict String (List Frame)
  pub rolling_contexts : Dict String RollingContext
  pub rollup_windows : Dict String (Dict GranularityLevel RollupWindow)
  pub processing_locks : Dict String Bool

-- The arguments of `go m.sendBatch(...)`.
pub record Job : Type 0 where
  pub service_id : String
  pub frames : List Frame
  pub previous_response : Option VlmResponse
  pub last_frame : Option Frame
  pub batch_sent_time : ℕ

-- `NewBatchManager`
unfoldable pub new_batch_manager : ℕ → BatchManager
new_batch_manager batch_size = record {
  batch_size = batch_size;
  frame_buffers = [];
  rolling_contexts = [];
  rollup_windows = [];
  processing_locks = [];
}

abbrev pub last? {ℓ} : {A : Type ℓ} → List A → Option A
last? [] = none
last? (x ∷ []) = some x
last? (x ∷ y ∷ xs) = last? (y ∷ xs)

-- `m.processingLocks[serviceID]`, with Go's zero value for a missing key.
abbrev pub is_processing : String → BatchManager → Bool
is_processing sid m = value_or false (lookup sid m.processing_locks)

abbrev pub buffer_of : String → BatchManager → List Frame
buffer_of sid m = value_or [] (lookup sid m.frame_buffers)

-- What AddFrame and Flush do under the lock with the frames that they send: clear the buffer, take
-- the context over into the job, update it, and mark the service as processing.
unfoldable pub launched : BatchManager → String → Frame → ℕ → BatchManager
launched m sid newest now =
    let ctx = value_or empty_context (lookup sid m.rolling_contexts) in
    record m {
      frame_buffers = insert sid [] m.frame_buffers;
      rolling_contexts =
          insert sid (record ctx { last_frame = some newest; last_batch_sent_time = now })
            m.rolling_contexts;
      processing_locks = insert sid true m.processing_locks;
    }

unfoldable pub job_for : BatchManager → String → List Frame → ℕ → Job
job_for m sid frames now =
    let ctx = value_or empty_context (lookup sid m.rolling_contexts) in
    record {
      service_id = sid;
      frames = frames;
      previous_response = ctx.previous_response;
      last_frame = ctx.last_frame;
      batch_sent_time = now;
    }

-- `framesToSend[len(framesToSend)-1]` panics on an empty batch.
unfoldable pub launch : BatchManager → String → List Frame → ℕ → Option (BatchManager × Job)
launch m sid frames now = elim (last? frames) [
  | none ↦ none
  | some newest ↦ some (launched m sid newest now, job_for m sid frames now)
]

-- The buffer with the frame appended, and without its oldest frame if that makes it too long.
unfoldable pub push_frame : ℕ → List Frame → Frame → List Frame
push_frame batch_size buffer frame =
    let grown = buffer ++ frame ∷ [] in if ltb batch_size (length grown) then tail grown else grown

abbrev pub with_buffer : BatchManager → String → List Frame → BatchManager
with_buffer m sid buffer = record m { frame_buffers = insert sid buffer m.frame_buffers }

abbrev pub with_job : Option (BatchManager × Job) → Option (BatchManager × Option Job)
with_job none = none
with_job (some (m, job)) = some (m, some job)

-- `AddFrame`. The second part is the batch that it starts a goroutine for.
unfoldable pub add_frame : BatchManager → Frame → ℕ → Option (BatchManager × Option Job)
add_frame m frame now =
    let sid = frame.service_id in
    let buffer = push_frame m.batch_size (buffer_of sid m) frame in
    let m' = with_buffer m sid buffer in
    if eqb (length buffer) m.batch_size && not (is_processing sid m)
    then with_job (launch m' sid buffer now)
    else some (m', none)

abbrev pub add_job : Job → Option (BatchManager × List Job) → Option (BatchManager × List Job)
add_job job none = none
add_job job (some (m, jobs)) = some (m, job ∷ jobs)

-- The loop of `Flush` over the entries of `frameBuffers`; an iteration writes only its own key, so
-- the entries are those at the start. `clock` gives what `time.Now()` reads for each service.
unfoldable pub flush_entries :
    (String → ℕ) → Dict String (List Frame) → BatchManager → Option (BatchManager × List Job)
flush_entries clock [] m = some (m, [])
flush_entries clock ((sid, buffer) ∷ rest) m =
    if is_empty buffer || is_processing sid m
    then flush_entries clock rest m
    else elim (launch m sid buffer (clock sid)) [
      | none ↦ none
      | some (m', job) ↦ add_job job (flush_entries clock rest m')
    ]

-- `Flush`
unfoldable pub flush : (String → ℕ) → BatchManager → Option (BatchManager × List Job)
unfolding flush_entries
flush clock m = flush_entries clock m.frame_buffers m

-- `GetSummary`
unfoldable pub get_summary : String → BatchManager → String
get_summary sid m = elim (lookup sid m.rolling_contexts) [
  | none ↦ ""
  | some ctx ↦ elim ctx.previous_response [ none ↦ "" | some r ↦ r.description ]
]

-- `GetContext`
unfoldable pub get_context : String → BatchManager → Option RollingContext
get_context sid m = lookup sid m.rolling_contexts

-- `ResetSummary`
unfoldable pub reset_summary : String → BatchManager → BatchManager
reset_summary sid m = record m {
  rolling_contexts = erase sid m.rolling_contexts;
  rollup_windows = erase sid m.rollup_windows;
}

-- `RemoveService`
unfoldable pub remove_service : String → BatchManager → BatchManager
remove_service sid m = record m {
  frame_buffers = erase sid m.frame_buffers;
  rolling_contexts = erase sid m.rolling_contexts;
  rollup_windows = erase sid m.rollup_windows;
  processing_locks = erase sid m.processing_locks;
}
