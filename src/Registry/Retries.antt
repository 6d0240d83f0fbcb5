-- ===== src/Registry/Retries.antt =====
-- server/service/registry.go: the number of retries and the queue of the reconnection worker.
use unblink.Base.{
  ◌≡◌, refl, ◌≤◌, ◌&&◌, none, some, [], ◌∷◌, ◌++◌, String, ltb, leb, string_eq, arith, if_ind,
  on_some_ind, length, length-append,
}
use unblink.Base.Dict.{lookup, lookup-insert}
use unblink.Registry.{
  ServiceState, ReconnectRequest, Registry, Env, put_state, stopped, stop_handler,
}
use unblink.Registry.Monitor.{
  check_bridge, check_handler, check_service, reconnect_service, enqueue, retried, is_stable,
  queue_capacity,
}

-- No service is retried more often than allowed, and the queue does not pass its capacity.
pub record IsBounded (r : Registry) : Type 0 where
  pub retries :
      (id : String) (s : ServiceState)
      → lookup id r.services ≡ some s
      → s.retry_count ≤ r.max_retries
  pub queue : length r.reconnect_queue ≤ queue_capacity

stop_handler-IsBounded :
    (r : Registry) (s : ServiceState)
    → s.retry_count ≤ r.max_retries
    → IsBounded r
    → IsBounded (stop_handler r s)
unfolding stop_handler
stop_handler-IsBounded r s h b = record {
  retries =
      λ id x e. ground (arith, h, b.retries id x, lookup-insert id s.id (stopped s) r.services);
  queue = b.queue;
}

put_state-IsBounded :
    (r : Registry) (s : ServiceState)
    → s.retry_count ≤ r.max_retries
    → IsBounded r
    → IsBounded (put_state r s)
put_state-IsBounded r s h b = record {
  retries = λ id x e. ground (arith, h, b.retries id x, lookup-insert id s.id s r.services);
  queue = b.queue;
}

enqueue-IsBounded :
    (req : ReconnectRequest) (r : Registry) → IsBounded r → IsBounded (enqueue req r)
unfolding enqueue
enqueue-IsBounded req r b =
    if_ind IsBounded (ltb (length r.reconnect_queue) queue_capacity)
      (record r { reconnect_queue = r.reconnect_queue ++ req ∷ [] }) r
      (λ room. record {
        retries = b.retries;
        queue = ground (arith, room, length-append r.reconnect_queue (req ∷ []));
      })
      (λ _. b)

stop_handler-max :
    (r : Registry) (s : ServiceState) → (stop_handler r s).max_retries ≡ r.max_retries
unfolding stop_handler
stop_handler-max r s = refl

-- A check of one service never lets it be retried more than `max_retries` times in a row, nor the
-- queue of requests grow beyond its capacity.
pub check_service-IsBounded :
    (env : Env) (id : String) (r : Registry) → IsBounded r → IsBounded (check_service env id r)
unfolding check_service check_handler check_bridge reconnect_service
check_service-IsBounded env id r b =
    on_some_ind IsBounded (lookup id r.services) r _ (λ _. b)
      λ s e.
        let fits = b.retries id s e in
        if_ind IsBounded s.online _ r
          (λ _.
            on_some_ind IsBounded s.handler r _ (λ _. b)
              λ h _.
                on_some_ind IsBounded (env.idle_duration h) r _ (λ _. b)
                  λ idle _.
                    if_ind IsBounded (ltb r.idle_timeout idle) _ _
                      (λ _.
                        if_ind IsBounded (leb r.max_retries s.retry_count) (stop_handler r s) _
                          (λ _. stop_handler-IsBounded r s fits b)
                          (λ more. enqueue-IsBounded _ _ (
                            put_state-IsBounded (stop_handler r s) (retried env s)
                              (rw (stop_handler-max r s) (ground (arith, more)))
                              (stop_handler-IsBounded r s fits b))))
                      (λ _.
                        if_ind IsBounded (ltb 0 s.retry_count && is_stable env r s) _ r
                          (λ _.
                            put_state-IsBounded r
                              (record s { retry_count = 0; successful_since = none }) (omega arith)
                              b)
                          (λ _. b)))
          (λ _. b)
