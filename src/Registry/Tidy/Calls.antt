-- ===== src/Registry/Tidy/Calls.antt =====
-- server/service/registry.go: the invariant of Registry/Handlers under the idle monitor, and under
-- every call together.
use unblink.Base.{ℕ, ◌≡◌, refl, Bool, ◌&&◌, none, some, [], ◌∷◌, String, ltb, leb, string_eq}
use unblink.Base.{if_ind, on_some_ind, List, Option, All, true, false, ◌==◌, ◌∙◌, arith}
use unblink.Base.{length}
use unblink.Registry.Monitor.{queue_capacity}
use unblink.Base.Dict.{Dict, lookup, insert, lookup-insert}
use unblink.Registry.{
  Service, Handler, ServiceState, Registry, Env, put_state, stop_handler, new_service_registry,
  is_node_online, handler_for, start_handler,
}
use unblink.Registry.Operations.{
  add_service, remove_service, update_service, set_node_online, set_node_offline, state_for,
  join_node, add_all, mark_ready, load_services, stop_service, stop_all, close,
}
use unblink.Registry.Monitor.{
  check_bridge, check_handler, check_service, check_services, check_idle_connections,
  reconnect_service, enqueue, retried, is_stable,
}
use unblink.Registry.Handlers.{insert-IsTidy, Services}
use unblink.Registry.Tidy.{
  Tidy, same_parts, add_service-Tidy, handler_of-stop_handler, put-Tidy, remove_service-Tidy,
  set_node_offline-Tidy, set_node_online-Tidy, stop-Tidy, update_service-Tidy,
}

reconnect_service-Tidy :
    (env : Env) (r : Registry) (id : String) (s : ServiceState)
    → Tidy r
    → lookup id r.services ≡ some s
    → Tidy (reconnect_service env r s)
unfolding reconnect_service enqueue
reconnect_service-Tidy env r id s t e =
    let put =
      insert-IsTidy (retried env s) (stop_handler r s).services (stop_handler r s).live
        (handler_of-stop_handler r s) (λ _. refl) (stop-Tidy r id s t e) in
    if_ind Tidy (ltb (length r'.reconnect_queue) queue_capacity) _ _ (λ _. put) (λ _. put)
  where
    r' : Registry
    r' = put_state (stop_handler r s) (retried env s)

check_bridge-Tidy :
    (env : Env) (r : Registry) (id : String) (s : ServiceState) (h : Handler) (idle : ℕ)
    → Tidy r
    → lookup id r.services ≡ some s
    → Tidy (check_bridge env r s idle)
unfolding check_bridge
check_bridge-Tidy env r id s h idle t e =
    if_ind Tidy (ltb r.idle_timeout idle) _ _
      (λ _.
        if_ind Tidy (leb r.max_retries s.retry_count) _ _ (λ _. stop-Tidy r id s t e)
          (λ _. reconnect_service-Tidy env r id s t e))
      (λ _.
        if_ind Tidy (ltb 0 s.retry_count && is_stable env r s) _ _
          (λ _.
            put-Tidy r id s t e (record s { retry_count = 0; successful_since = none }) refl refl
              (t.idle id s e))
          (λ _. t))

check_service-Tidy :
    (env : Env) (id : String) (r : Registry) → Tidy r → Tidy (check_service env id r)
unfolding check_service check_handler
check_service-Tidy env id r t =
    on_some_ind Tidy (lookup id r.services) r _ (λ _. t)
      λ s e.
        if_ind Tidy s.online _ _
          (λ _.
            on_some_ind Tidy s.handler r _ (λ _. t)
              λ h _.
                on_some_ind Tidy (env.idle_duration h) r _ (λ _. t)
                  λ idle _. check_bridge-Tidy env r id s h idle t e)
          (λ _. t)

check_services-Tidy :
    (env : Env) (entries : Dict String ServiceState) (r : Registry)
    → Tidy r
    → Tidy (check_services env entries r)
unfolding check_services
check_services-Tidy env [] r t = t
check_services-Tidy env ((id, _) ∷ rest) r t =
    check_services-Tidy env rest (check_service env id r) (check_service-Tidy env id r t)

add_service-other :
    (env : Env) (j : String) (svc : Service) (r : Registry)
    → (j == svc.id) ≡ false
    → lookup j (add_service env svc r).services ≡ lookup j r.services
unfolding add_service start_handler join_node
add_service-other env j svc r other =
    let s = state_for svc (is_node_online svc.node_id r) in
    let h = handler_for (put_state r s) s in
    let s' : ServiceState = record s { handler = some h; successful_since = some env.now } in
    ground (
      arith,
      other,
      lookup-insert j svc.id s r.services,
      lookup-insert j svc.id s' (insert svc.id s r.services),
    )

-- The rows have ids that are not there, each once.
abbrev pub AllNew : List Service → Services → Type 0
AllNew [] services = Unit
AllNew (svc ∷ rows) services =
    (lookup svc.id services ≡ none)
    × All (λ other. (other.id == svc.id) ≡ false) rows
    × AllNew rows services

pub AllNew-add_service :
    (env : Env) (svc : Service) (rows : List Service) (r : Registry)
    → All (λ other. (other.id == svc.id) ≡ false) rows
    → AllNew rows r.services
    → AllNew rows (add_service env svc r).services
AllNew-add_service env svc [] r differ new = tt
AllNew-add_service env svc (row ∷ rows) r (d, differ) (gone, once, new) = (
  add_service-other env row.id svc r d ∙ gone,
  once,
  AllNew-add_service env svc rows r differ new,
)

add_all-Tidy :
    (env : Env) (rows : List Service) (r : Registry)
    → AllNew rows r.services
    → Tidy r
    → Tidy (add_all env rows r)
unfolding add_all
add_all-Tidy env [] r new t = t
add_all-Tidy env (svc ∷ rows) r (gone, once, new) t =
    add_all-Tidy env rows (add_service env svc r) (AllNew-add_service env svc rows r once new)
      (add_service-Tidy env svc r gone t)

pub mark_ready-services :
    (ready : List String) (r : Registry)
    → ((mark_ready ready r).services ≡ r.services) × ((mark_ready ready r).live ≡ r.live)
unfolding mark_ready
mark_ready-services [] r = (refl, refl)
mark_ready-services (node ∷ ready) r =
    mark_ready-services ready (record r { online_nodes = insert node true r.online_nodes })

pub stop_service-Tidy : (id : String) (r : Registry) → Tidy r → Tidy (stop_service id r)
unfolding stop_service
stop_service-Tidy id r t =
    on_some_ind Tidy (lookup id r.services) r _ (λ _. t) (λ s e. stop-Tidy r id s t e)

stop_all-Tidy :
    (entries : Dict String ServiceState) (r : Registry) → Tidy r → Tidy (stop_all entries r)
unfolding stop_all
stop_all-Tidy [] r t = t
stop_all-Tidy ((id, _) ∷ rest) r t =
    stop_all-Tidy rest (stop_service id r) (stop_service-Tidy id r t)

-- An operation of a caller, a node event, or a pass of the idle monitor: all that touches the
-- services but the reconnection worker. `loads` has the nodes that are ready and the rows that the
-- database gives.
pub data Call : Type 0 where
  adds updates : Service → Call
  removes : String → Call
  node_online node_offline : String → Call
  loads : List String → Option (List Service) → Call
  checks closes : Call

unfoldable pub perform : Env → Call → Registry → Registry
perform env (adds svc) r = add_service env svc r
perform env (updates svc) r = update_service env svc r
perform env (removes id) r = remove_service id r
perform env (node_online node) r = set_node_online env node r
perform env (node_offline node) r = set_node_offline node r
perform env (loads ready rows) r = (load_services env ready rows r).0
perform env checks r = check_idle_connections env r
perform env closes r = close r

-- A service is added or loaded only under an id that the registry does not have.
abbrev pub IsFresh : Call → Registry → Type 0
IsFresh (adds svc) r = lookup svc.id r.services ≡ none
IsFresh (updates svc) r = Unit
IsFresh (removes id) r = Unit
IsFresh (node_online node) r = Unit
IsFresh (node_offline node) r = Unit
IsFresh (loads ready none) r = Unit
IsFresh (loads ready (some rows)) r = AllNew rows r.services
IsFresh checks r = Unit
IsFresh closes r = Unit

load_services-Tidy :
    (env : Env) (ready : List String) (rows : Option (List Service)) (r : Registry)
    → IsFresh (loads ready rows) r
    → Tidy r
    → Tidy (load_services env ready rows r).0
unfolding load_services
load_services-Tidy env ready none r f t =
    let (same, live) = mark_ready-services ready r in same_parts r (mark_ready ready r) same live t
load_services-Tidy env ready (some rows) r f t =
    let (same, live) = mark_ready-services ready r in
    add_all-Tidy env rows (mark_ready ready r) (rw same f)
      (same_parts r (mark_ready ready r) same live t)

-- The invariant survives every call but the reconnection worker's: adding, updating, removing and
-- loading services, a node that comes or goes, a pass of the idle monitor, and the registry's end.
-- Each handler that runs is the one that the state of its service refers to, and an offline service
-- has none. Services may be added or loaded only under ids that are not there, each once.
pub perform-Tidy :
    (env : Env) (call : Call) (r : Registry) → IsFresh call r → Tidy r → Tidy (perform env call r)
unfolding perform check_idle_connections close
perform-Tidy env (adds svc) r f t = add_service-Tidy env svc r f t
perform-Tidy env (updates svc) r f t = update_service-Tidy env svc r t
perform-Tidy env (removes id) r f t = remove_service-Tidy id r t
perform-Tidy env (node_online node) r f t = set_node_online-Tidy env node r t
perform-Tidy env (node_offline node) r f t = set_node_offline-Tidy node r t
perform-Tidy env (loads ready rows) r f t = load_services-Tidy env ready rows r f t
perform-Tidy env checks r f t = check_services-Tidy env r.services r t
perform-Tidy env closes r f t = stop_all-Tidy r.services r t

pub new_service_registry-Tidy :
    (idle retries : ℕ) (indexing recording : Bool)
    → Tidy (new_service_registry idle retries indexing recording)
unfolding new_service_registry lookup
new_service_registry-Tidy idle retries indexing recording = record {
  keyed = λ id s e. cc;
  idle = λ id s e off. cc;
  held = tt;
}
