-- ===== src/Batch/Finish.antt =====
-- server/webrtc/batch_manager.go: the end of a batch, and what `sendBatch` writes before it.
use unblink.Base.{
  value_or, ℕ, zero, suc, ◌≡◌, refl, ◌<◌, ◌&&◌, Option, some, List, [], ◌∷◌, String, if◌then◌else◌,
  leb, string_eq, ◌==◌, arith, Option-cases, Bool-cases, inl, inr,
}
use unblink.Batch.{last?}
use unblink.Batch.Send.{process_frames, process_reply, no_effects}
use unblink.Base.Dict.{lookup, lookup-insert}
use unblink.TimeUtil.{
  GranularityLevel, next_granularity, second, minute, hour, day, week, month, other,
}
use unblink.Batch.{Frame, VlmResponse, RollingContext, BatchManager, Job}
use unblink.Batch.Rollup.{Event, Backend, build_tier, build_higher}
use unblink.Batch.RollupLaws.{tiers_above, build_higher-Climbs}
use unblink.Batch.Send.{
  Env, Effects, base_event, index_batch, update_context, annotated_frame, finish_response,
  process_batch, release, send_batch, frames_to_send, prompt_for, VlmReply, failed, no_choices,
  content,
}

-- All that the rollup leaves alone: everything but the windows.
pub record SameButWindows (m m' : BatchManager) : Type 0 where
  pub size : m'.batch_size ≡ m.batch_size
  pub buffers : m'.frame_buffers ≡ m.frame_buffers
  pub contexts : m'.rolling_contexts ≡ m.rolling_contexts
  pub locks : m'.processing_locks ≡ m.processing_locks

build_tier-Same :
    (b : Backend) (m : BatchManager) (sid : String) (g h : GranularityLevel) (from to : ℕ)
    → SameButWindows m (build_tier b m sid g h from to).0
unfolding build_tier
build_tier-Same b m sid g h from to = ground arith

build_higher-Same :
    (fuel : ℕ) (b : Backend) (m : BatchManager) (sid : String) (g : GranularityLevel) (from to : ℕ)
    {m' : BatchManager} {es : List Event}
    → build_higher fuel b m sid g from to ≡ some (m', es)
    → SameButWindows m m'
unfolding build_higher
build_higher-Same zero b m sid g from to e = cc
build_higher-Same (suc fuel) b m sid g from to e =
    let next = (next_granularity g).0 in
    let tier = build_tier b m sid g next from to in
    elim (Bool-cases ((next_granularity g).1 && b.has_db)) [
      | inr stop ↦ ground arith
      | inl go ↦ elim (Option-cases tier.1) [
        | inl nothing ↦ ground (arith, build_tier-Same b m sid g next from to)
        | inr (ev, made) ↦ elim (Option-cases (build_higher fuel b tier.0 sid next ev.from ev.to)) [
          | inl out ↦ ground arith
          | inr ((y, more), rest) ↦ ground (
            arith,
            build_tier-Same b m sid g next from to,
            build_higher-Same fuel b tier.0 sid next ev.from ev.to rest,
          )
        ]
      ]
    ]

tiers_above-le : (g : GranularityLevel) → tiers_above g < 7
tiers_above-le second = omega arith
tiers_above-le minute = omega arith
tiers_above-le hour = omega arith
tiers_above-le day = omega arith
tiers_above-le week = omega arith
tiers_above-le month = omega arith
tiers_above-le (other s) = omega arith

index_batch-Same :
    (env : Env) (m : BatchManager) (sid : String) (first final : Frame) (r : VlmResponse)
    → (m' : BatchManager) × (es : List Event) × (index_batch env m sid first final r
        ≡ some (m', es))
      × SameButWindows m m'
unfolding index_batch
index_batch-Same env m sid first final r =
    let ev = base_event sid first final r in
    let (m', es, done, _) =
      build_higher-Climbs 7 env.backend m sid ev.granularity ev.from ev.to
        (tiers_above-le ev.granularity) in
    let same = build_higher-Same 7 env.backend m sid ev.granularity ev.from ev.to done in
    elim (Bool-cases (env.has_db && env.marshals r)) [
      | inr off ↦ (m, [], ground arith, ground arith)
      | inl on ↦ elim (Bool-cases (env.create_event ev)) [
        | inr refused ↦ (m, [], ground arith, ground arith)
        | inl stored ↦ (m', ev ∷ es, ground (arith, done), same)
      ]
    ]

-- The parts that a batch leaves alone until its lock is released.
pub record SameBuffers (m m' : BatchManager) : Type 0 where
  pub size : m'.batch_size ≡ m.batch_size
  pub buffers : m'.frame_buffers ≡ m.frame_buffers
  pub locks : m'.processing_locks ≡ m.processing_locks

abbrev Ends : BatchManager → Option (BatchManager × Effects) → Type 0
Ends m r = (m' : BatchManager) × (fx : Effects) × (r ≡ some (m', fx)) × SameBuffers m m'

update_context-Same :
    (m m' : BatchManager) (sid : String) (f : Frame) (r : VlmResponse) (sent : ℕ)
    → SameButWindows m m'
    → SameBuffers m (update_context m' sid f r sent)
unfolding update_context
update_context-Same m m' sid f r sent same = ground arith

finish_response-Ends :
    (env : Env) (m : BatchManager) (job : Job) (first final : Frame) (text : String)
    (r : VlmResponse)
    → Ends m (finish_response env m job first final text r)
unfolding finish_response
finish_response-Ends env m job first final text r =
    let (m', es, done, same) = index_batch-Same env m job.service_id first final r in
    let shown = annotated_frame env job.service_id final text in
    (
      update_context m' job.service_id shown r job.batch_sent_time,
      record { events = es; saved = if env.has_storage then shown ∷ [] else [] },
      ground (arith, done),
      update_context-Same m m' job.service_id shown r job.batch_sent_time same,
    )

process_reply-Ends :
    (env : Env) (m : BatchManager) (job : Job) (first final : Frame) (reply : VlmReply)
    → Ends m (process_reply env m job first final reply)
unfolding process_reply
process_reply-Ends env m job first final failed = (m, no_effects, refl, ground arith)
process_reply-Ends env m job first final no_choices = (m, no_effects, refl, ground arith)
process_reply-Ends env m job first final (content text) = elim (Option-cases (env.parse text)) [
  | inl bad ↦ (m, no_effects, ground arith, ground arith)
  | inr (r, good) ↦
      let (m', fx, e, same) = finish_response-Ends env m job first final text r in
      (m', fx, ground (arith, e), same)
]

process_frames-Ends :
    (env : Env) (m : BatchManager) (job : Job) (frames : List Frame)
    → Ends m (process_frames env m job frames)
unfolding process_frames
process_frames-Ends env m job [] = (m, no_effects, refl, ground arith)
process_frames-Ends env m job (first ∷ rest) =
    process_reply-Ends env m job first (value_or first (last? (first ∷ rest)))
      (env.send (first ∷ rest) (prompt_for env job))

-- `sendBatch` ends on every path, errors included, with the lock of its service released, and the
-- other locks and all frame buffers as they were.
pub send_batch_ends :
    (env : Env) (m : BatchManager) (job : Job)
    → (m' : BatchManager) × (fx : Effects) × (send_batch env m job ≡ some (m', fx))
      × SameBuffers (release job.service_id m) m'
unfolding send_batch process_batch
send_batch_ends env m job =
    let (m', fx, e, same) = process_frames-Ends env m job (frames_to_send job) in
    (release job.service_id m', fx, rw (e, send_batch, process_batch), ground arith)

-- A response is taken over exactly if no later batch of the service has been sent since and the
-- service still has its context; so the time of the context never goes back, and other services
-- keep theirs.
pub update_context-lookup :
    (m : BatchManager) (s sid : String) (f : Frame) (r : VlmResponse) (sent : ℕ)
    (ctx : RollingContext)
    → lookup sid m.rolling_contexts ≡ some ctx
    → lookup s (update_context m sid f r sent).rolling_contexts ≡ (
        if s == sid && leb ctx.last_batch_sent_time sent
        then some (record {
          last_frame = some f;
          previous_response = some r;
          last_batch_sent_time = sent;
        })
        else lookup s m.rolling_contexts)
unfolding update_context
update_context-lookup m s sid f r sent ctx e =
    let ctx' : RollingContext = record {
      last_frame = some f;
      previous_response = some r;
      last_batch_sent_time = sent;
    } in
    ground (arith, e, lookup-insert s sid ctx' m.rolling_contexts)
