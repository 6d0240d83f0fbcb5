-- ===== src/Clips/Tests.antt =====
-- server/webrtc/clip_recorder.go with two segments of a quarter of an hour.
use unblink.Base.{refl, true, some, List, [], ◌∷◌}
use unblink.Trim.Truncate.{codes}
use unblink.Clips.{Disk, Step, opens, closes, new_clip_recorder, perform_all}
use unblink.Clips.Recorded.{Recorded, perform_all-Recorded}

abbrev disk : Disk
disk = record {
  mod_time = λ path. some 1000000000000;
  size = λ path. some 5;
  renames = λ path. true;
  final_size = λ path. some 5;
}

abbrev steps : List Step
steps =
    opens disk (codes "clip-1.part.mp4") 0
    ∷ opens disk (codes "clip-2.part.mp4") 900000000000
    ∷ closes disk
    ∷ closes disk
    ∷ []

perform_all-Recorded_example : Recorded (perform_all 900000000000 steps new_clip_recorder)
perform_all-Recorded_example =
    perform_all-Recorded 900000000000 steps new_clip_recorder
      (record { saved = refl; distinct = tt; timed = tt })
