-- ===== src/Clips/Recorded.antt =====
-- server/webrtc/clip_recorder.go: what is reported of the clips.
use unblink.Base.{
  ℕ, ◌-◌, ◌/◌, ◌<◌, ◌≡◌, refl, ap, true, false, Option, none, List, [], ◌∷◌, if_ind, on_some,
  on_some_ind, All, eqb, leb, map, arith,
}
use unblink.Clips.{
  Clip, ClipRecorder, ClipSegmentInfo, Disk, Step, opens, closes, has_path, same_text,
  finalized_clip_path, estimate_segment_end, report, save_segment_locked, handle_segment_open,
  flush_final_segment, close, perform_all,
}

-- A clip ends after its start, and its length in seconds is that of the span.
abbrev pub Timed : Clip → Type 0
Timed c =
    (c.start_time < c.end_time) × (c.duration_seconds ≡ (c.end_time - c.start_time) / 1000000000)

abbrev pub Distinct : List (List ℕ) → Type 0
Distinct [] = Unit
Distinct (p ∷ paths) = (has_path p paths ≡ false) × Distinct paths

-- The saved paths are those of the clips, each of one clip.
pub record Recorded (r : ClipRecorder) : Type 0 where
  pub saved : r.saved_paths ≡ map (λ c. c.path) r.clips
  pub distinct : Distinct r.saved_paths
  pub timed : All Timed r.clips

report-Recorded :
    (segment : ClipSegmentInfo) (end_time : ℕ) (path : List ℕ) (size : ℕ) (r : ClipRecorder)
    → has_path path r.saved_paths ≡ false
    → leb end_time segment.start_time ≡ false
    → Recorded r
    → Recorded (report segment end_time path size r)
unfolding report
report-Recorded segment end_time path size r fresh after s = record {
  saved = ap (λ paths. path ∷ paths) s.saved;
  distinct = (fresh, s.distinct);
  timed = ((ground (arith, after), refl), s.timed);
}

save_segment_locked-Recorded :
    (disk : Disk) (segment : ClipSegmentInfo) (end_time : ℕ) (r : ClipRecorder)
    → Recorded r
    → Recorded (save_segment_locked disk segment end_time r)
unfolding save_segment_locked
save_segment_locked-Recorded disk segment end_time r s =
    let path = finalized_clip_path segment.path in
    if_ind Recorded (has_path path r.saved_paths) r _ (λ _. s)
      λ fresh.
        if_ind Recorded (leb end_time segment.start_time) r _ (λ _. s)
          λ after.
            on_some_ind Recorded (disk.size segment.path) r _ (λ _. s)
              λ size _.
                if_ind Recorded (eqb size 0) r _ (λ _. s)
                  λ _.
                    if_ind Recorded (same_text segment.path path)
                      (report segment end_time path size r) _
                      (λ _. report-Recorded segment end_time path size r fresh after s)
                      λ _.
                        if_ind Recorded (disk.renames segment.path) _ r
                          (λ _.
                            on_some_ind Recorded (disk.final_size path) r _ (λ _. s)
                              (λ n _. report-Recorded segment end_time path n r fresh after s))
                          (λ _. s)

-- The segment that is open plays no part.
with_segment :
    (r : ClipRecorder) (o : Option ClipSegmentInfo)
    → Recorded r
    → Recorded (record r { current_segment = o })
with_segment r o s = record { saved = s.saved; distinct = s.distinct; timed = s.timed }

handle_segment_open-Recorded :
    (disk : Disk) (path : List ℕ) (start_time : ℕ) (r : ClipRecorder)
    → Recorded r
    → Recorded (handle_segment_open disk path start_time r)
unfolding handle_segment_open
handle_segment_open-Recorded disk path start_time r s =
    with_segment (on_some r.current_segment r (λ old. save_segment_locked disk old start_time r)) _
      (on_some_ind Recorded r.current_segment r _ (λ _. s)
        (λ old _. save_segment_locked-Recorded disk old start_time r s))

close-Recorded : (disk : Disk) (d : ℕ) (r : ClipRecorder) → Recorded r → Recorded (close disk d r)
unfolding close flush_final_segment
close-Recorded disk d r s =
    if_ind Recorded r.closed r _ (λ _. s)
      λ _.
        let shut = record r { closed = true } in
        let t : Recorded shut = record {
          saved = s.saved;
          distinct = s.distinct;
          timed = s.timed;
        } in
        on_some_ind Recorded r.current_segment shut _ (λ _. t)
          λ segment _.
            let end_time = estimate_segment_end disk d segment in
            with_segment (save_segment_locked disk segment end_time shut) none
              (save_segment_locked-Recorded disk segment end_time shut t)

-- However segments open and the recorder is closed, and whatever the disk does, no path is reported
-- twice, the paths that are marked as saved are those that were reported, and each clip ends after
-- its start and has the length of that span in seconds.
pub perform_all-Recorded :
    (d : ℕ) (steps : List Step) (r : ClipRecorder) → Recorded r → Recorded (perform_all d steps r)
unfolding perform_all
perform_all-Recorded d [] r s = s
perform_all-Recorded d (opens disk path start_time ∷ steps) r s =
    perform_all-Recorded d steps (handle_segment_open disk path start_time r)
      (handle_segment_open-Recorded disk path start_time r s)
perform_all-Recorded d (closes disk ∷ steps) r s =
    perform_all-Recorded d steps (close disk d r) (close-Recorded disk d r s)
