-- ===== src/Registry/Operations.antt =====
-- server/service/registry.go: the operations that callers and node events make.
use unblink.Base.{
  value_or, is_empty, on_some, Bool, true, false, Option, none, some, List, [], ◌∷◌, String,
  if◌then◌else◌, string_eq, ◌==◌,
}
use unblink.Base.Dict.{Dict, lookup, insert, erase}
use unblink.Registry.{
  Service, ServiceState, Registry, Env, is_node_online, put_state, start_handler, stop_handler,
}

abbrev pub ids_of : String → Registry → Dict String Bool
ids_of node r = value_or [] (lookup node r.nodes)

-- `r.nodes[nodeID][serviceID] = true`, with the inner map made if it is missing.
unfoldable pub join_node : String → String → Registry → Registry
join_node node id r = record r { nodes = insert node (insert id true (ids_of node r)) r.nodes }

-- The service leaves its node's set, and an empty set is deleted.
unfoldable pub leave_node : String → String → Registry → Registry
leave_node node id r = elim (lookup node r.nodes) [
  | none ↦ r
  | some ids ↦
      let rest = erase id ids in
      if is_empty rest
      then record r { nodes = erase node r.nodes }
      else record r { nodes = insert node rest r.nodes }
]

abbrev pub state_for : Service → Bool → ServiceState
state_for svc online = record {
  id = svc.id;
  name = svc.name;
  url = svc.url;
  node_id = svc.node_id;
  online = online;
  handler = none;
  retry_count = 0;
  last_retry_time = none;
  successful_since = none;
}

-- `AddService` and `addServiceLocked`. An older state of that id is replaced unseen.
unfoldable pub add_service : Env → Service → Registry → Registry
add_service env svc r =
    let s = state_for svc (is_node_online svc.node_id r) in
    let joined = join_node svc.node_id svc.id (put_state r s) in
    if s.online then start_handler env joined s else joined

-- `RemoveService`
unfoldable pub remove_service : String → Registry → Registry
remove_service id r = on_some (lookup id r.services) (r) λ s.
    let r' = leave_node s.node_id id (stop_handler r s) in
    record r' { services = erase id r'.services }

-- The state of `UpdateService` after the update, before the handler is started again.
abbrev pub updated : Registry → Service → ServiceState → ServiceState
updated r svc s = record s {
  name = svc.name;
  url = svc.url;
  node_id = svc.node_id;
  handler = none;
  online = is_node_online svc.node_id r;
}

abbrev pub move_node : String → String → String → Registry → Registry
move_node id old new r = if old == new then r else join_node new id (leave_node old id r)

-- `UpdateService`
unfoldable pub update_service : Env → Service → Registry → Registry
update_service env svc r = on_some (lookup svc.id r.services) (add_service env svc r) λ s.
    let u = updated r svc s in
    let r' = put_state (move_node svc.id s.node_id svc.node_id (stop_handler r s)) u in
    if u.online then start_handler env r' u else r'

-- One round of the loop of `SetNodeOnline`.
unfoldable pub bring_online : Env → String → Registry → Registry
bring_online env id r = on_some (lookup id r.services) (r) λ s.
    let s' = record s { online = true } in
    if s.online then r else start_handler env (put_state r s') s'

unfoldable pub bring_all_online : Env → Dict String Bool → Registry → Registry
bring_all_online env [] r = r
bring_all_online env ((id, _) ∷ rest) r = bring_all_online env rest (bring_online env id r)

-- `SetNodeOnline`
unfoldable pub set_node_online : Env → String → Registry → Registry
set_node_online env node r =
    bring_all_online env (ids_of node r)
      (record r { online_nodes = insert node true r.online_nodes })

-- One round of the loop of `SetNodeOffline`.
unfoldable pub take_offline : String → Registry → Registry
take_offline id r =
    on_some (lookup id r.services) (r)
      λ s. if s.online then stop_handler r (record s { online = false }) else r

unfoldable pub take_all_offline : Dict String Bool → Registry → Registry
take_all_offline [] r = r
take_all_offline ((id, _) ∷ rest) r = take_all_offline rest (take_offline id r)

-- `SetNodeOffline`
unfoldable pub set_node_offline : String → Registry → Registry
set_node_offline node r =
    take_all_offline (ids_of node r) (record r { online_nodes = erase node r.online_nodes })

unfoldable pub add_all : Env → List Service → Registry → Registry
add_all env [] r = r
add_all env (svc ∷ rest) r = add_all env rest (add_service env svc r)

unfoldable pub mark_ready : List String → Registry → Registry
mark_ready [] r = r
mark_ready (node ∷ rest) r =
    mark_ready rest (record r { online_nodes = insert node true r.online_nodes })

-- `LoadServices`: the nodes that are connected and ready, and the rows of the database (`none`: the
-- query failed). The flag says whether it returned nil.
unfoldable pub load_services :
    Env → List String → Option (List Service) → Registry → Registry × Bool
load_services env ready none r = (mark_ready ready r, false)
load_services env ready (some rows) r = (add_all env rows (mark_ready ready r), true)

-- One round of the loop of `Close`: the entry's state is the one that the map points to.
unfoldable pub stop_service : String → Registry → Registry
stop_service id r = on_some (lookup id r.services) r (λ s. stop_handler r s)

unfoldable pub stop_all : Dict String ServiceState → Registry → Registry
stop_all [] r = r
stop_all ((id, _) ∷ rest) r = stop_all rest (stop_service id r)

-- `Close`, once the monitor has stopped.
unfoldable pub close : Registry → Registry
close r = stop_all r.services r
