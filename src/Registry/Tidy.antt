-- ===== src/Registry/Tidy.antt =====
-- server/service/registry.go: the invariant of Registry/Handlers under each operation of callers and
-- node events. (The reconnection worker is treated in Registry/Reconnection.)
pub mod Calls
pub mod Ends
use unblink.Base.{
  is_empty, ℕ, suc, ◌≡◌, refl, sym, ◌∙◌, Bool, true, false, not, ◌&&◌, ◌||◌, Option, none, some,
  List, [], ◌∷◌, String, All, eqb, ltb, leb, if◌then◌else◌, string_eq, ◌==◌, arith, Option-cases,
  Bool-cases, inl, inr,
}
use unblink.Base.{if_ind, on_some_ind, on_some}
use unblink.Base.{length}
use unblink.Registry.Monitor.{queue_capacity}
use unblink.Base.Dict.{Dict, lookup, insert, erase, lookup-insert, lookup-erase}
use unblink.Registry.{
  Service, Handler, ServiceState, Registry, Env, put_state, handler_for, start_handler, stopped,
  is_node_online, stop_handler, new_service_registry,
}
use unblink.Registry.Operations.{
  state_for, join_node, leave_node, add_service, remove_service, updated, move_node, update_service,
  bring_online, bring_all_online, set_node_online, take_offline, take_all_offline, set_node_offline,
}
use unblink.Registry.Monitor.{
  check_bridge, check_handler, check_service, check_services, check_idle_connections,
  reconnect_service, enqueue, retried, is_stable,
}
use unblink.Registry.Handlers.{
  handler_of, IsTidy, insert-IsTidy, stop_handler-IsTidy, start_handler-IsTidy, erase-IsTidy,
  handler_of-insert,
}

abbrev pub Tidy : Registry → Type 0
Tidy r = IsTidy r.services r.live

pub same_parts : (r q : Registry) → q.services ≡ r.services → q.live ≡ r.live → Tidy r → Tidy q
same_parts r q e l t = rw (e, l) t

join_node-Tidy : (node id : String) (r : Registry) → Tidy r → Tidy (join_node node id r)
unfolding join_node
join_node-Tidy node id r t = t

pub leave_node-services :
    (node id : String) (r : Registry)
    → ((leave_node node id r).services ≡ r.services) × ((leave_node node id r).live ≡ r.live)
unfolding leave_node
leave_node-services node id r = ground arith

leave_node-Tidy : (node id : String) (r : Registry) → Tidy r → Tidy (leave_node node id r)
leave_node-Tidy node id r =
    let (e, l) = leave_node-services node id r in same_parts r (leave_node node id r) e l

-- What a state in the map refers to, under its own id.
handler_of-keyed :
    (r : Registry) (id : String) (s : ServiceState)
    → Tidy r
    → lookup id r.services ≡ some s
    → handler_of s.id r.services ≡ s.handler
handler_of-keyed r id s t e = ground (arith, t.keyed id s e)

-- The parts of an operation: a state is overwritten, a handler stopped or started.
module _ (r : Registry) (id : String) (s : ServiceState) (t : Tidy r)
    (e : lookup id r.services ≡ some s) where
  put-Tidy :
      (s' : ServiceState)
      → s'.id ≡ s.id
      → s'.handler ≡ s.handler
      → (s'.online ≡ false → s'.handler ≡ none)
      → Tidy (put_state r s')
  put-Tidy s' same keeps quiet =
      insert-IsTidy s' r.services r.live (rw (same, keeps) (handler_of-keyed r id s t e)) quiet t

  stop-Tidy : Tidy (stop_handler r s)
  stop-Tidy = stop_handler-IsTidy r s (handler_of-keyed r id s t e) t

-- After stopping, no handler stands under the id.
pub handler_of-stop_handler :
    (r : Registry) (s : ServiceState) → handler_of s.id (stop_handler r s).services ≡ none
unfolding stop_handler
handler_of-stop_handler r s = ground (arith, handler_of-insert s.id s.id (stopped s) r.services)

-- Overwriting a state that has no handler, and then starting one if the node is online.
restart-Tidy :
    (env : Env) (r : Registry) (s : ServiceState)
    → handler_of s.id r.services ≡ none
    → s.handler ≡ none
    → Tidy r
    → Tidy (if s.online then start_handler env (put_state r s) s else put_state r s)
restart-Tidy env r s gone quiet t =
    let put : Tidy (put_state r s) =
      insert-IsTidy s r.services r.live (gone ∙ sym quiet) (λ _. quiet) t in
    if_ind Tidy s.online (start_handler env (put_state r s) s) (put_state r s)
      (λ on.
        start_handler-IsTidy env (put_state r s) s
          (ground (arith, handler_of-insert s.id s.id s r.services)) on put)
      (λ off. put)

-- A new service, whose id the registry does not know.
pub add_service-Tidy :
    (env : Env) (svc : Service) (r : Registry)
    → lookup svc.id r.services ≡ none
    → Tidy r
    → Tidy (add_service env svc r)
unfolding add_service join_node
add_service-Tidy env svc r fresh t =
    let s = state_for svc (is_node_online svc.node_id r) in
    let joined = join_node svc.node_id svc.id r in
    restart-Tidy env joined s (ground (arith, fresh)) refl t

remove_service-Tidy : (id : String) (r : Registry) → Tidy r → Tidy (remove_service id r)
unfolding remove_service
remove_service-Tidy id r t =
    on_some_ind Tidy (lookup id r.services) r _ (λ _. t)
      λ s e.
        let q = stop_handler r s in
        let left = leave_node s.node_id id q in
        let (same, _) = leave_node-services s.node_id id q in
        erase-IsTidy id left.services left.live
          (rw same (rw (← t.keyed id s e) (handler_of-stop_handler r s)))
          (leave_node-Tidy s.node_id id q (stop-Tidy r id s t e))

move_node-services :
    (id old new : String) (r : Registry)
    → ((move_node id old new r).services ≡ r.services) × ((move_node id old new r).live ≡ r.live)
unfolding join_node
move_node-services id old new r = ground (arith, leave_node-services old id r)

update_service-Tidy :
    (env : Env) (svc : Service) (r : Registry) → Tidy r → Tidy (update_service env svc r)
unfolding update_service
update_service-Tidy env svc r t =
    on_some_ind Tidy (lookup svc.id r.services) (add_service env svc r) _
      (λ missing. add_service-Tidy env svc r missing t)
      λ s e.
        let q = stop_handler r s in
        let moved = move_node svc.id s.node_id svc.node_id q in
        let (same, live) = move_node-services svc.id s.node_id svc.node_id q in
        restart-Tidy env moved (updated r svc s) (rw same (handler_of-stop_handler r s)) refl
          (same_parts q moved same live (stop-Tidy r svc.id s t e))

bring_online-Tidy : (env : Env) (id : String) (r : Registry) → Tidy r → Tidy (bring_online env id r)
unfolding bring_online
bring_online-Tidy env id r t =
    on_some_ind Tidy (lookup id r.services) r _ (λ _. t)
      λ s e.
        let s' : ServiceState = record s { online = true } in
        if_ind Tidy s.online _ _ (λ on. t)
          (λ off.
            let quiet = t.idle id s e off in
            restart-Tidy env r s' (handler_of-keyed r id s t e ∙ quiet) quiet t)

bring_all_online-Tidy :
    (env : Env) (ids : Dict String Bool) (r : Registry) → Tidy r → Tidy (bring_all_online env ids r)
unfolding bring_all_online
bring_all_online-Tidy env [] r t = t
bring_all_online-Tidy env ((id, _) ∷ rest) r t =
    bring_all_online-Tidy env rest (bring_online env id r) (bring_online-Tidy env id r t)

take_offline-Tidy : (id : String) (r : Registry) → Tidy r → Tidy (take_offline id r)
unfolding take_offline
take_offline-Tidy id r t =
    on_some_ind Tidy (lookup id r.services) r _ (λ _. t)
      λ s e.
        if_ind Tidy s.online _ _
          (λ on.
            stop_handler-IsTidy r (record s { online = false }) (handler_of-keyed r id s t e) t)
          (λ off. t)

take_all_offline-Tidy :
    (ids : Dict String Bool) (r : Registry) → Tidy r → Tidy (take_all_offline ids r)
unfolding take_all_offline
take_all_offline-Tidy [] r t = t
take_all_offline-Tidy ((id, _) ∷ rest) r t =
    take_all_offline-Tidy rest (take_offline id r) (take_offline-Tidy id r t)

set_node_online-Tidy :
    (env : Env) (node : String) (r : Registry) → Tidy r → Tidy (set_node_online env node r)
unfolding set_node_online
set_node_online-Tidy env node r t = bring_all_online-Tidy env _ _ t

set_node_offline-Tidy : (node : String) (r : Registry) → Tidy r → Tidy (set_node_offline node r)
unfolding set_node_offline
set_node_offline-Tidy node r t = take_all_offline-Tidy _ _ t
