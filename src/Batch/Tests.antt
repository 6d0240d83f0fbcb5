-- ===== src/Batch/Tests.antt =====
-- server/webrtc/batch_manager.go on concrete runs: one camera, batches of one frame or two.
use unblink.Base.{◌≡◌, refl, true, none, some, List, [], ◌∷◌, String, string_eq, arith}
use unblink.Base.Dict.{lookup, insert}
use unblink.TimeUtil.{second, level_eq}
use unblink.Batch.{
  remove_service, Frame, VlmResponse, RollingContext, RollupWindow, BatchManager, Job,
  new_batch_manager, launched, job_for, launch, push_frame, add_frame,
}
use unblink.Batch.Rollup.{Event, Backend, build_higher}
use unblink.Batch.Send.{Env, Effects, content, release, send_batch}
use unblink.Batch.RollupLaws.{Climbs, build_higher-Climbs}
use unblink.Batch.Buffers.{IsBounded}
use unblink.Batch.Finish.{SameBuffers, send_batch_ends}
use unblink.Batch.Removal.{remove_service-add_frame}
use unblink.Batch.Exclusion.{
  running, World, frame, Reach, here, next, start, IsExclusive, one_batch_at_a_time,
}

abbrev camera : String
camera = "cam"

abbrev shot : Frame
shot = record { bytes = 255 ∷ 216 ∷ []; timestamp = 7000000000; service_id = "cam" }

abbrev later_shot : Frame
later_shot = record { bytes = 255 ∷ 217 ∷ []; timestamp = 47000000000; service_id = "cam" }

abbrev single : BatchManager
single = new_batch_manager 1

abbrev filled : BatchManager
filled = record single { frame_buffers = ("cam", shot ∷ []) ∷ [] }

abbrev sending : BatchManager
sending = launched filled "cam" shot 8000000000

abbrev job : Job
job = job_for filled "cam" (shot ∷ []) 8000000000

frame_starts : add_frame single shot 8000000000 ≡ some (sending, some job)
unfolding add_frame push_frame launch launched job_for new_batch_manager lookup insert
frame_starts = refl

-- A first frame fills the batch, which is then under way.
abbrev busy : World
busy = record { manager = sending; in_flight = job ∷ [] }

busy-Reach : Reach (start 1) busy
busy-Reach = next here (frame shot 8000000000 frame_starts)

one_batch_at_a_time_example : IsExclusive busy
one_batch_at_a_time_example = one_batch_at_a_time 1 busy busy-Reach

abbrev seen : VlmResponse
seen = record { objects = []; description = "a person at the door" }

-- The database holds one event for each span, and the model describes everything alike.
abbrev backend : Backend
backend = record {
  has_db = true;
  list_events = λ sid level from to. some (
      record { service_id = sid; granularity = level; from = from; to = to; response = seen } ∷ []);
  aggregate = λ sid lower upper from to events. some seen;
  create_event = λ event. true;
}

build_higher-Climbs_example :
    (m' : BatchManager) × (es : List Event) × (build_higher 6 backend single "cam" second 7000000000
        47000000000
      ≡ some (m', es))
    × Climbs second es
build_higher-Climbs_example =
    build_higher-Climbs 6 backend single "cam" second 7000000000 47000000000 (omega arith)

abbrev env : Env
env = record {
  backend = backend;
  has_storage = true;
  sop_instruction = λ sid. "";
  send = λ frames prompt. content "{}";
  parse = λ text. some seen;
  marshals = λ r. true;
  annotate = λ bytes text. none;
}

send_batch_ends_example :
    (m' : BatchManager) × (fx : Effects) × (send_batch env sending job ≡ some (m', fx))
    × SameBuffers (release "cam" sending) m'
unfolding job_for
send_batch_ends_example = send_batch_ends env sending job

abbrev sent_context : RollingContext
sent_context = record {
  last_frame = some shot;
  previous_response = none;
  last_batch_sent_time = 8000000000;
}

sending_context : lookup "cam" sending.rolling_contexts ≡ some sent_context
unfolding launched new_batch_manager lookup insert string_eq
sending_context = refl

abbrev window : RollupWindow
window = record { from = 10000000000; to = 20000000000 }

abbrev windowed : BatchManager
windowed = record single { rollup_windows = ("cam", (second, window) ∷ []) ∷ [] }

remove_service-add_frame_example :
    (m' : BatchManager) × (second : Job) × (add_frame
        (remove_service "cam" sending)
        later_shot
        47000000000
      ≡ some (m', some second))
    × (running "cam" (second ∷ job ∷ []) ≡ Prim.Native.Nat.suc (running "cam" (job ∷ [])))
unfolding launched new_batch_manager
remove_service-add_frame_example =
    remove_service-add_frame sending (job ∷ []) later_shot 47000000000 refl

single-IsBounded : IsBounded single
unfolding new_batch_manager lookup
single-IsBounded sid = omega arith
