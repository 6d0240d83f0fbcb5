-- ===== src/Batch/Buffers.antt =====
-- server/webrtc/batch_manager.go: what happens to the frames of `AddFrame`.
use unblink.Base.{
  ℕ, ◌≡◌, refl, ◌≢◌, ◌≤◌, ◌<◌, true, false, Option, none, some, List, [], ◌∷◌, ◌⊎◌, inl, inr, not,
  ◌&&◌, String, length, length-append, eqb, string_eq, arith, Bool-cases,
}
use unblink.Base.Dict.{lookup-insert}
use unblink.Base.{inl, inr, not, ◌&&◌}
use unblink.Batch.{launched, job_for, with_buffer}
use unblink.Batch.{
  Frame, Job, BatchManager, last?, is_processing, buffer_of, launch, push_frame, add_frame,
}

-- Every buffer holds at most `batch_size` frames.
abbrev pub IsBounded : BatchManager → Type 0
IsBounded m = (sid : String) → length (buffer_of sid m) ≤ m.batch_size

length-push_frame :
    (n : ℕ) (buffer : List Frame) (f : Frame)
    → length buffer ≤ n
    → length (push_frame n buffer f) ≤ n
unfolding push_frame
length-push_frame n [] f h = ground arith
length-push_frame n (x ∷ xs) f h = ground (arith, length-append xs (f ∷ []))

push_frame-ne_nil : (n : ℕ) (buffer : List Frame) (f : Frame) → 0 < n → push_frame n buffer f ≢ []
unfolding push_frame
push_frame-ne_nil n [] f h = ground arith
push_frame-ne_nil n (x ∷ []) f h = ground arith
push_frame-ne_nil n (x ∷ y ∷ xs) f h = ground arith

last?-some : (xs : List Frame) → xs ≢ [] → (f : Frame) × (last? xs ≡ some f)
last?-some [] h = absurd (h refl)
last?-some (x ∷ []) h = (x, refl)
last?-some (x ∷ y ∷ xs) h = last?-some (y ∷ xs) (λ e. cc)

launch-some :
    (m : BatchManager) (sid : String) (frames : List Frame) (now : ℕ)
    → frames ≢ []
    → (newest : Frame) × (last? frames ≡ some newest)
      × (launch m sid frames now ≡ some (launched m sid newest now, job_for m sid frames now))
unfolding launch
launch-some m sid frames now h =
    let (newest, e) = last?-some frames h in (newest, e, rw (e, launch))

-- What `AddFrame` keeps of the service's frames.
abbrev pub kept : BatchManager → Frame → List Frame
kept m f = push_frame m.batch_size (buffer_of f.service_id m) f

abbrev pub Buffered : BatchManager → Frame → BatchManager → Option Job → Type 0
Buffered m f m' sent = (sent ≡ none) × (buffer_of f.service_id m' ≡ kept m f)

pub record Sent (m : BatchManager) (f : Frame) (m' : BatchManager) (sent : Option Job)
    : Type 0 where
  pub job : Job
  pub is_job : sent ≡ some job
  pub all_frames : job.frames ≡ kept m f
  pub full : length (kept m f) ≡ m.batch_size
  pub was_idle : is_processing f.service_id m ≡ false
  pub locked : is_processing f.service_id m' ≡ true
  pub cleared : buffer_of f.service_id m' ≡ []

-- The outcomes of `AddFrame`, for a batch size that is not 0: it never panics; the kept frames of
-- the service are sent, all of them and in order, and only when the buffer is full and no batch is
-- under way; and else they stay buffered.
pub add_frame_cases :
    (m : BatchManager) (f : Frame) (now : ℕ)
    → 0 < m.batch_size
    → (m' : BatchManager) × (sent : Option Job) × (add_frame m f now ≡ some (m', sent))
      × (Buffered m f m' sent ⊎ Sent m f m' sent)
unfolding add_frame launched job_for
add_frame_cases m f now h =
    let buffer = kept m f in
    let sid = f.service_id in
    let m' = with_buffer m sid buffer in
    let (newest, _, e) =
      launch-some m' sid buffer now (push_frame-ne_nil m.batch_size (buffer_of sid m) f h) in
    elim (Bool-cases (eqb (length buffer) m.batch_size && not (is_processing sid m))) [
      | inl go ↦ (
        launched m' sid newest now,
        some (job_for m' sid buffer now),
        rw (go, e),
        inr (record {
          job = job_for m' sid buffer now;
          is_job = refl;
          all_frames = refl;
          full = ground arith;
          was_idle = ground arith;
          locked = ground (arith, lookup-insert sid sid true m.processing_locks);
          cleared = ground (arith, lookup-insert sid sid [] m'.frame_buffers);
        }),
      )
      | inr stay ↦ (
        m',
        none,
        rw stay,
        inl (refl, ground (arith, lookup-insert sid sid buffer m.frame_buffers)),
      )
    ]

-- No buffer ever grows beyond the batch size: if none is longer, none is after a frame has come in.
pub add_frame-IsBounded :
    (m m' : BatchManager) (f : Frame) (now : ℕ) (sent : Option Job)
    → add_frame m f now ≡ some (m', sent)
    → IsBounded m
    → IsBounded m'
unfolding add_frame launch launched
add_frame-IsBounded m m' f now sent e h sid =
    let buffer = kept m f in
    let grown = with_buffer m f.service_id buffer in
    ground (
      arith,
      h sid,
      length-push_frame m.batch_size (buffer_of f.service_id m) f (h f.service_id),
      lookup-insert sid f.service_id buffer m.frame_buffers,
      lookup-insert sid f.service_id [] grown.frame_buffers,
    )
