-- ===== src/Registry/Monitor.antt =====
-- server/service/registry.go: the idle monitor and the reconnection worker.
use unblink.Base.{
  on_some, ℕ, suc, ◌-◌, ◌*◌, Bool, false, ◌&&◌, none, some, [], ◌∷◌, ◌++◌, String, length, ltb, leb,
  if◌then◌else◌, string_eq,
}
use unblink.Base.Dict.{Dict, lookup}
use unblink.Registry.{
  Handler, ServiceState, ReconnectRequest, Registry, Env, is_node_online, put_state, start_handler,
  stop_handler, stopped,
}

-- The capacity of `reconnectQueue`.
abbrev pub queue_capacity : ℕ
queue_capacity = 100

-- `time.Duration(state.RetryCount) * 2 * time.Second`
abbrev pub backoff_for : ℕ → ℕ
backoff_for retry_count = retry_count * 2000000000

abbrev pub retried : Env → ServiceState → ServiceState
retried env s = record (stopped s) {
  retry_count = suc s.retry_count;
  last_retry_time = some env.now;
}

-- A send that does not block: a request is dropped if the channel is full.
unfoldable pub enqueue : ReconnectRequest → Registry → Registry
enqueue req r =
    if ltb (length r.reconnect_queue) queue_capacity
    then record r { reconnect_queue = r.reconnect_queue ++ req ∷ [] }
    else r

-- `reconnectServiceLocked`
unfoldable pub reconnect_service : Env → Registry → ServiceState → Registry
reconnect_service env r s =
    let s' = retried env s in
    enqueue (record { service_id = s.id; backoff = backoff_for s'.retry_count })
      (put_state (stop_handler r s) s')

-- Whether the connection has worked for longer than the idle timeout.
abbrev pub is_stable : Env → Registry → ServiceState → Bool
is_stable env r s = elim s.successful_since [
  | none ↦ false
  | some since ↦ ltb r.idle_timeout (env.now - since)
]

-- The body of the loop of `checkIdleConnections`, once the service has a bridge.
unfoldable pub check_bridge : Env → Registry → ServiceState → ℕ → Registry
check_bridge env r s idle =
    if ltb r.idle_timeout idle
    then if leb r.max_retries s.retry_count then stop_handler r s else reconnect_service env r s
    else if ltb 0 s.retry_count && is_stable env r s
    then put_state r (record s { retry_count = 0; successful_since = none })
    else r

unfoldable pub check_handler : Env → Registry → ServiceState → Handler → Registry
check_handler env r s h = on_some (env.idle_duration h) r (λ idle. check_bridge env r s idle)

unfoldable pub check_service : Env → String → Registry → Registry
check_service env id r =
    on_some (lookup id r.services) r
      λ s. if s.online then on_some s.handler r (λ h. check_handler env r s h) else r

unfoldable pub check_services : Env → Dict String ServiceState → Registry → Registry
check_services env [] r = r
check_services env ((id, _) ∷ rest) r = check_services env rest (check_service env id r)

-- `checkIdleConnections`. A round writes only its own service, so the keys are those at the start.
unfoldable pub check_idle_connections : Env → Registry → Registry
check_idle_connections env r = check_services env r.services r

-- After the attempt: `SuccessfulSince` is set again if the state has a running handler.
unfoldable pub note_success : Env → String → Registry → Registry
note_success env id r = on_some (lookup id r.services) r λ s.
    on_some s.handler r λ h.
      if env.is_running h then put_state r (record s { successful_since = some env.now }) else r

-- What `reconnectionWorker` does with a request once the backoff is over.
unfoldable pub process_request : Env → ReconnectRequest → Registry → Registry
process_request env req r = on_some (lookup req.service_id r.services) (r) λ s.
    if is_node_online s.node_id r
    then note_success env req.service_id (start_handler env r s)
    else r

-- The worker takes the oldest request.
unfoldable pub worker_step : Env → Registry → Registry
worker_step env r = elim r.reconnect_queue [
  | [] ↦ r
  | req ∷ rest ↦ process_request env req (record r { reconnect_queue = rest })
]
