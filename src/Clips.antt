-- ===== src/Clips.antt =====
-- server/webrtc/clip_recorder.go: the segments that FFmpeg opens, and the clips made of them. A path
-- is bytes, a time is nanoseconds. FFmpeg, its pipes and the waiting for them are left out; the disk
-- is a parameter of each step.
pub mod Recorded
mod Tests
use unblink.Base.{
  ℕ, ◌+◌, ◌-◌, ◌/◌, Bool, true, false, not, ◌&&◌, ◌||◌, Option, none, some, List, [], ◌∷◌, ◌++◌,
  if◌then◌else◌, on_some, eqb, leb, ltb, is_empty,
}
use unblink.Trim.Truncate.{codes}

pub record ClipSegmentInfo : Type 0 where
  pub path : List ℕ
  pub start_time : ℕ

-- What `onSaved` is called with.
pub record Clip : Type 0 where
  pub path : List ℕ
  pub start_time : ℕ
  pub end_time : ℕ
  pub file_size : ℕ
  pub duration_seconds : ℕ

-- The recorder, with the calls of `onSaved`, the last first.
pub record ClipRecorder : Type 0 where
  pub current_segment : Option ClipSegmentInfo
  pub saved_paths : List (List ℕ)
  pub closed : Bool
  pub clips : List Clip

-- The disk during a step: `os.Stat` of a path and of the path that it is renamed to, and `os.Rename`.
pub record Disk : Type 0 where
  pub mod_time : List ℕ → Option ℕ
  pub size : List ℕ → Option ℕ
  pub renames : List ℕ → Bool
  pub final_size : List ℕ → Option ℕ

abbrev pub new_clip_recorder : ClipRecorder
new_clip_recorder = record { current_segment = none; saved_paths = []; closed = false; clips = [] }

abbrev pub same_text : List ℕ → List ℕ → Bool
same_text [] [] = true
same_text [] (d ∷ ds) = false
same_text (c ∷ cs) [] = false
same_text (c ∷ cs) (d ∷ ds) = eqb c d && same_text cs ds

abbrev pub has_path : List ℕ → List (List ℕ) → Bool
has_path p [] = false
has_path p (q ∷ paths) = same_text p q || has_path p paths

-- `strings.TrimSuffix`, if the suffix is there.
unfoldable pub strip_suffix : List ℕ → List ℕ → Option (List ℕ)
strip_suffix suffix [] = if is_empty suffix then some [] else none
strip_suffix suffix (c ∷ cs) =
    let rest = strip_suffix suffix cs in
    if same_text suffix (c ∷ cs) then some [] else on_some rest none (λ kept. some (c ∷ kept))

-- `finalizedClipPath`
unfoldable pub finalized_clip_path : List ℕ → List ℕ
finalized_clip_path path =
    on_some (strip_suffix (codes ".part.mp4") path) path (λ stem. stem ++ codes ".mp4")

-- `estimateSegmentEnd`
unfoldable pub estimate_segment_end : Disk → ℕ → ClipSegmentInfo → ℕ
estimate_segment_end disk segment_duration segment =
    let max_end = segment.start_time + segment_duration in
    on_some (disk.mod_time segment.path) max_end λ end_time.
      if ltb max_end end_time
      then max_end
      else if ltb end_time segment.start_time
      then max_end
      else end_time

-- The end of `saveSegmentLocked`.
unfoldable pub report : ClipSegmentInfo → ℕ → List ℕ → ℕ → ClipRecorder → ClipRecorder
report segment end_time final_path size r =
    let clip : Clip = record {
      path = final_path;
      start_time = segment.start_time;
      end_time = end_time;
      file_size = size;
      duration_seconds = (end_time - segment.start_time) / 1000000000;
    } in
    record r { saved_paths = final_path ∷ r.saved_paths; clips = clip ∷ r.clips }

-- `saveSegmentLocked`
unfoldable pub save_segment_locked : Disk → ClipSegmentInfo → ℕ → ClipRecorder → ClipRecorder
save_segment_locked disk segment end_time r =
    let final_path = finalized_clip_path segment.path in
    if has_path final_path r.saved_paths
    then r
    else if leb end_time segment.start_time
    then r
    else on_some (disk.size segment.path) r λ size.
      if eqb size 0
      then r
      else if same_text segment.path final_path
      then report segment end_time final_path size r
      else if disk.renames segment.path
      then on_some (disk.final_size final_path) r (λ n. report segment end_time final_path n r)
      else r

-- `handleSegmentOpen`
unfoldable pub handle_segment_open : Disk → List ℕ → ℕ → ClipRecorder → ClipRecorder
handle_segment_open disk path start_time r =
    let saved = on_some r.current_segment r (λ old. save_segment_locked disk old start_time r) in
    record saved { current_segment = some (record { path = path; start_time = start_time }) }

-- `flushFinalSegment`
unfoldable pub flush_final_segment : Disk → ℕ → ClipRecorder → ClipRecorder
flush_final_segment disk segment_duration r = on_some r.current_segment r λ segment.
    let saved =
      save_segment_locked disk segment (estimate_segment_end disk segment_duration segment) r in
    record saved { current_segment = none }

-- `Close`, once FFmpeg has ended or has been given up.
unfoldable pub close : Disk → ℕ → ClipRecorder → ClipRecorder
close disk segment_duration r =
    if r.closed then r else flush_final_segment disk segment_duration (record r { closed = true })

-- FFmpeg opens a segment, or a caller closes the recorder.
pub data Step : Type 0 where
  opens : Disk → List ℕ → ℕ → Step
  closes : Disk → Step

unfoldable pub perform_all : ℕ → List Step → ClipRecorder → ClipRecorder
perform_all d [] r = r
perform_all d (opens disk path start_time ∷ steps) r =
    perform_all d steps (handle_segment_open disk path start_time r)
perform_all d (closes disk ∷ steps) r = perform_all d steps (close disk d r)
