-- ===== src/Batch/Removal.antt =====
-- server/webrtc/batch_manager.go: `RemoveService` while a batch of the service is under way.
use unblink.Base.{ℕ, suc, ◌≡◌, false, some, List, [], ◌∷◌, String, string_eq, arith}
use unblink.Base.Dict.{lookup-erase}
use unblink.Batch.{
  Frame, Job, BatchManager, remove_service, add_frame, push_frame, launch, launched, job_for,
  with_buffer, is_processing, buffer_of,
}
use unblink.Batch.Exclusion.{running}

removed-lookup :
    (sid : String) (m : BatchManager)
    → (buffer_of sid (remove_service sid m) ≡ [])
      × (is_processing sid (remove_service sid m) ≡ false)
unfolding remove_service
removed-lookup sid m =
    ground (arith, lookup-erase sid sid m.frame_buffers, lookup-erase sid sid m.processing_locks)

-- With batches of one frame, a frame that comes in after `RemoveService` starts a batch at once, and
-- the service has one more under way, however many of its batches are still running.
pub remove_service-add_frame :
    (m : BatchManager) (in_flight : List Job) (f : Frame) (now : ℕ)
    → m.batch_size ≡ 1
    → (m' : BatchManager) × (job : Job) × (add_frame (remove_service f.service_id m) f now
        ≡ some (m', some job))
      × (running f.service_id (job ∷ in_flight) ≡ suc (running f.service_id in_flight))
unfolding add_frame push_frame launch job_for
remove_service-add_frame m in_flight f now one =
    let sid = f.service_id in
    let q = remove_service sid m in
    let (empty, free) = removed-lookup sid m in
    let size : q.batch_size ≡ 1 = unfold remove_service in one in
    (
      launched (with_buffer q sid (f ∷ [])) sid f now,
      job_for (with_buffer q sid (f ∷ [])) sid (f ∷ []) now,
      ground (arith, empty, free, size),
      ground arith,
    )
