-- ===== src/Registry/Reconnection.antt =====
-- server/service/registry.go: the reconnection worker, and what a reconnection leaves behind.
use unblink.Base.{suc, ◌≡◌, ◌∙◌, ap, true, false, ◌||◌, some, [], ◌∷◌, String, string_eq, arith}
use unblink.Base.Dict.{lookup, insert, erase, lookup-insert}
use unblink.Registry.{
  ServiceState, ReconnectRequest, Registry, Env, start_handler, is_node_online, handler_for,
}
use unblink.Registry.Operations.{
  bring_online, take_offline, bring_all_online, set_node_online, take_all_offline, set_node_offline,
}
use unblink.Registry.Monitor.{check_service, note_success, process_request}
use unblink.Registry.Handlers.{handler_of, IsHeld}

-- The request of a reconnection that the worker carries out with success.
pub record Reconnects (env : Env) (req : ReconnectRequest) (r : Registry) (s : ServiceState)
    : Type 0 where
  pub known : lookup req.service_id r.services ≡ some s
  pub keyed : s.id ≡ req.service_id
  pub offline : s.online ≡ false
  pub node_up : is_node_online s.node_id r ≡ true
  pub wanted : (r.enable_indexing || r.enable_recording) ≡ true
  pub starts : env.can_start (handler_for r s) ≡ true

-- The state after the worker's success.
abbrev pub running : Env → Registry → ServiceState → ServiceState
running env r s = record s { handler = some (handler_for r s); successful_since = some env.now }

process_request-lookup :
    (env : Env) (req : ReconnectRequest) (r : Registry) (s : ServiceState)
    → Reconnects env req r s
    → (lookup req.service_id (process_request env req r).services ≡ some (running env r s))
      × ((process_request env req r).live ≡ handler_for r s ∷ r.live)
unfolding process_request start_handler note_success
process_request-lookup env req r s p = ground (
  arith,
  lookup-insert req.service_id s.id (running env r s) r.services,
  lookup-insert req.service_id s.id (running env r s) (insert s.id (running env r s) r.services),
)

-- A reconnected service has its new handler running, and is still marked offline: the idle monitor
-- passes it over whatever its bridge says, and the event that its node goes offline does not stop it.
pub reconnected_unwatched :
    (env later : Env) (req : ReconnectRequest) (r : Registry) (s : ServiceState)
    → Reconnects env req r s
    → let q = process_request env req r in
      (handler_of req.service_id q.services ≡ some (handler_for r s))
      × (q.live ≡ handler_for r s ∷ r.live)
      × (check_service later req.service_id q ≡ q)
      × (take_offline req.service_id q ≡ q)
unfolding check_service take_offline
reconnected_unwatched env later req r s p =
    let (here, live) = process_request-lookup env req r s p in
    (ground (arith, here), live, ground (arith, here, p.offline), ground (arith, here, p.offline))

process_request-next :
    (env : Env) (req : ReconnectRequest) (r : Registry) (s : ServiceState)
    → Reconnects env req r s
    → ((process_request env req r).next_handler ≡ suc r.next_handler)
      × ((process_request env req r).enable_indexing ≡ r.enable_indexing)
      × ((process_request env req r).enable_recording ≡ r.enable_recording)
unfolding process_request start_handler note_success
process_request-next env req r s p = ground arith

bring_online-starts :
    (env : Env) (id : String) (q : Registry) (x : ServiceState)
    → lookup id q.services ≡ some x
    → x.id ≡ id
    → x.online ≡ false
    → (q.enable_indexing || q.enable_recording) ≡ true
    → env.can_start (handler_for q x) ≡ true
    → ((bring_online env id q).live ≡ handler_for q x ∷ q.live)
      × (handler_of id (bring_online env id q).services ≡ some (handler_for q x))
unfolding bring_online start_handler
bring_online-starts env id q x e k off wanted starts =
    let on : ServiceState = record x { online = true } in
    let full : ServiceState = record on {
      handler = some (handler_for q x);
      successful_since = some env.now;
    } in
    ground (
      arith,
      lookup-insert id x.id on q.services,
      lookup-insert id x.id full (insert x.id on q.services),
    )

process_request-nodes :
    (env : Env) (req : ReconnectRequest) (r : Registry) (s : ServiceState)
    → Reconnects env req r s
    → (process_request env req r).nodes ≡ r.nodes
unfolding process_request start_handler note_success
process_request-nodes env req r s p = ground arith

-- The end of a node whose only service is marked offline stops nothing.
set_node_offline-passes :
    (node id : String) (q : Registry) (x : ServiceState)
    → lookup node q.nodes ≡ some ((id, true) ∷ [])
    → lookup id q.services ≡ some x
    → x.online ≡ false
    → set_node_offline node q ≡ record q { online_nodes = erase node q.online_nodes }
unfolding set_node_offline take_all_offline take_offline
set_node_offline-passes node id q x only here off = ground (arith, only, here, off)

set_node_online-only :
    (env : Env) (node id : String) (q : Registry)
    → lookup node q.nodes ≡ some ((id, true) ∷ [])
    → set_node_online env node q
      ≡ bring_online env id (record q { online_nodes = insert node true q.online_nodes })
unfolding set_node_online bring_all_online
set_node_online-only env node id q only = ground (arith, only)

-- A service is marked offline, its node is online, and the reconnection worker starts its handler
-- (indexing or recording is on, and the handler starts). Then the node, of which it is the only
-- service, goes offline and comes back, and the next handler of the service starts too. Now both
-- handlers run: the state refers to the second, and no state refers to the first any more.
pub reconnected_leaks :
    (env later : Env) (req : ReconnectRequest) (r : Registry) (s : ServiceState)
    → Reconnects env req r s
    → lookup s.node_id r.nodes ≡ some ((req.service_id, true) ∷ [])
    → later.can_start (handler_for (process_request env req r) s) ≡ true
    → let q = process_request env req r in
      let second = handler_for q s in
      let q' = set_node_online later s.node_id (set_node_offline s.node_id q) in
      (q'.live ≡ second ∷ handler_for r s ∷ r.live)
      × (handler_of req.service_id q'.services ≡ some second)
      × ¬ IsHeld q'.services (handler_for r s)
reconnected_leaks env later req r s p only starts =
    let q = process_request env req r in
    let (here, live) = process_request-lookup env req r s p in
    let (next, indexing, recording) = process_request-next env req r s p in
    let wanted : (q.enable_indexing || q.enable_recording) ≡ true =
      rw (indexing, recording) p.wanted in
    let nodes : lookup s.node_id q.nodes ≡ some ((req.service_id, true) ∷ []) =
      ap (λ d. lookup s.node_id d) (process_request-nodes env req r s p) ∙ only in
    let down : Registry = record q { online_nodes = erase s.node_id q.online_nodes } in
    let up : Registry = record down { online_nodes = insert s.node_id true down.online_nodes } in
    let path : set_node_online later s.node_id (set_node_offline s.node_id q)
        ≡ bring_online later req.service_id up =
      ap (set_node_online later s.node_id)
        (set_node_offline-passes s.node_id req.service_id q (running env r s) nodes here p.offline)
      ∙ set_node_online-only later s.node_id req.service_id down nodes in
    let (live', second) =
      bring_online-starts later req.service_id up (running env r s) here p.keyed p.offline wanted
        starts in
    rw path (rw (← live) live', second, λ first. ground (arith, first, second, next, p.keyed))
