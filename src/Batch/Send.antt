-- ===== src/Batch/Send.antt =====
-- server/webrtc/batch_manager.go, `sendBatch`: one batch from the request to the released lock. Its
-- critical sections run one after the other here; operations of other goroutines stand before or
-- after the whole (Batch/Exclusion).
use unblink.Base.{
  ◌&&◌, value_or, ℕ, Bool, Option, none, some, List, [], ◌∷◌, String, if◌then◌else◌, leb, string_eq,
}
use unblink.Base.Int.{sub_ℕ}
use unblink.Base.Dict.{lookup, insert, erase}
use unblink.TimeUtil.{calculate_granularity}
use unblink.Batch.{Frame, VlmResponse, BatchManager, Job, last?}
use unblink.Batch.Rollup.{Event, Backend, whole_seconds, build_higher}

-- The instruction text is joined from these parts.
pub record Prompt : Type 0 where
  pub sop : String
  pub previous_description : Option String

pub data VlmReply : Type 0 where
  failed no_choices : VlmReply
  content : String → VlmReply

-- What `sendBatch` asks of the model, of package json, of the JPEG drawing code and of the stores.
pub record Env : Type 0 where
  pub backend : Backend
  pub open backend use {has_db, list_events, aggregate, create_event}
  pub has_storage : Bool
  pub sop_instruction : String → String
  pub send : List Frame → Prompt → VlmReply
  pub parse : String → Option VlmResponse
  pub marshals : VlmResponse → Bool
  pub annotate : List ℕ → String → Option (List ℕ)

pub record Effects : Type 0 where
  pub events : List Event
  pub saved : List Frame

abbrev pub no_effects : Effects
no_effects = record { events = []; saved = [] }

-- A previous response with an empty description adds nothing to the prompt.
unfoldable pub prompt_for : Env → Job → Prompt
prompt_for env job = record {
  sop = env.sop_instruction job.service_id;
  previous_description = elim job.previous_response [
    | none ↦ none
    | some r ↦ elim r.description [ String.[] ↦ none | String.◌∷◌ c s ↦ some r.description ]
  ];
}

-- The last frame of the batch before goes first, for continuity.
unfoldable pub frames_to_send : Job → List Frame
frames_to_send job = elim job.last_frame [ none ↦ job.frames | some f ↦ f ∷ job.frames ]

unfoldable pub base_event : String → Frame → Frame → VlmResponse → Event
base_event sid first final response = record {
  service_id = sid;
  granularity = calculate_granularity (whole_seconds (sub_ℕ final.timestamp first.timestamp));
  from = first.timestamp;
  to = final.timestamp;
  response = response;
}

-- The base event, if the response goes back to json, and, once it is stored, the rollup. `none`: the fuel of the rollup ran out.
unfoldable pub index_batch :
    Env → BatchManager → String → Frame → Frame → VlmResponse → Option (BatchManager × List Event)
unfolding base_event
index_batch env m sid first final response =
    let e = base_event sid first final response in
    if env.has_db && env.marshals response
    then if env.create_event e
      then elim (build_higher 7 env.backend m sid e.granularity e.from e.to) [
        | none ↦ none
        | some (m', es) ↦ some (m', e ∷ es)
      ]
      else some (m, [])
    else some (m, [])

-- The context takes the response over only if no later batch has been sent since, and only if the
-- service still has a context.
unfoldable pub update_context : BatchManager → String → Frame → VlmResponse → ℕ → BatchManager
update_context m sid annotated response sent = elim (lookup sid m.rolling_contexts) [
  | none ↦ m
  | some ctx ↦
      if leb ctx.last_batch_sent_time sent
      then record m {
        rolling_contexts =
            insert sid
              (record {
                last_frame = some annotated;
                previous_response = some response;
                last_batch_sent_time = sent;
              })
              m.rolling_contexts;
      }
      else m
]

unfoldable pub annotated_frame : Env → String → Frame → String → Frame
annotated_frame env sid final text = record {
  bytes = value_or final.bytes (env.annotate final.bytes text);
  timestamp = final.timestamp;
  service_id = sid;
}

unfoldable pub finish_response :
    Env
    → BatchManager
    → Job
    → Frame
    → Frame
    → String
    → VlmResponse
    → Option (BatchManager × Effects)
unfolding index_batch update_context annotated_frame
finish_response env m job first final text response =
    let shown = annotated_frame env job.service_id final text in
    elim (index_batch env m job.service_id first final response) [
      | none ↦ none
      | some (m', es) ↦ some (
        update_context m' job.service_id shown response job.batch_sent_time,
        record { events = es; saved = if env.has_storage then shown ∷ [] else [] },
      )
    ]

-- The reply of the model: an error, no choice, or text that is parsed.
unfoldable pub process_reply :
    Env → BatchManager → Job → Frame → Frame → VlmReply → Option (BatchManager × Effects)
unfolding finish_response
process_reply env m job first final failed = some (m, no_effects)
process_reply env m job first final no_choices = some (m, no_effects)
process_reply env m job first final (content text) = elim (env.parse text) [
  | none ↦ some (m, no_effects)
  | some response ↦ finish_response env m job first final text response
]

-- The client refuses a request with no frames.
unfoldable pub process_frames :
    Env → BatchManager → Job → List Frame → Option (BatchManager × Effects)
unfolding process_reply
process_frames env m job [] = some (m, no_effects)
process_frames env m job (first ∷ rest) =
    process_reply env m job first (value_or first (last? (first ∷ rest)))
      (env.send (first ∷ rest) (prompt_for env job))

-- The body up to the deferred unlock.
unfoldable pub process_batch : Env → BatchManager → Job → Option (BatchManager × Effects)
unfolding process_frames frames_to_send
process_batch env m job = process_frames env m job (frames_to_send job)

-- `delete(m.processingLocks, serviceID)`
abbrev pub release : String → BatchManager → BatchManager
release sid m = record m { processing_locks = erase sid m.processing_locks }

abbrev pub released : String → Option (BatchManager × Effects) → Option (BatchManager × Effects)
released sid none = none
released sid (some (m, fx)) = some (release sid m, fx)

-- `sendBatch`
unfoldable pub send_batch : Env → BatchManager → Job → Option (BatchManager × Effects)
unfolding process_batch
send_batch env m job = released job.service_id (process_batch env m job)
