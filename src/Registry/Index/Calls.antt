-- ===== src/Registry/Index/Calls.antt =====
-- server/service/registry.go: the maps `services` and `nodes` under the calls that move a service, and
-- under every call together.
use unblink.Base.{
  ◌≡◌, true, none, some, Option, List, [], ◌∷◌, String, if◌then◌else◌, string_eq, ◌==◌, arith,
  if_ind, on_some_ind,
}
use unblink.Registry.Tidy.{leave_node-services}
use unblink.Base.Dict.{Dict, lookup, insert, erase, lookup-erase}
use unblink.Registry.{Service, ServiceState, Registry, Env, put_state, start_handler, stop_handler}
use unblink.Registry.Operations.{
  join_node, leave_node, add_service, remove_service, updated, move_node, update_service,
  set_node_online, set_node_offline, add_all, mark_ready, load_services, stop_service, stop_all,
  close,
}
use unblink.Registry.Monitor.{check_idle_connections}
use unblink.Registry.Lookup.{is_member, is_member-join_node, is_member-leave_node}
use unblink.Registry.Tidy.Calls.{
  Call, adds, updates, removes, node_online, node_offline, checks, loads, closes, perform, IsFresh,
  AllNew, AllNew-add_service, mark_ready-services,
}
use unblink.Registry.Index.{
  Keyed, node_of, names_node, IsIndexed, SameNodes, SameNodes-refl, SameNodes-trans,
  SameNodes-IsIndexed, put_state-Keyed, node_of-put_state, stop_handler-SameNodes,
  start_handler-SameNodes, node_of-Keyed, add_service-IsIndexed,
}
use unblink.Registry.Index.Moves.{bring_all_online-same, take_all_offline-same, check_services-same}

abbrev pub Agrees : Registry → Type 0
Agrees r = Keyed r × IsIndexed r

same-Agrees : (r q : Registry) → SameNodes r q → Agrees r → Agrees q
same-Agrees r q s (k, i) = (s.keys k, SameNodes-IsIndexed r q s i)

node_of-leave_node :
    (j node id : String) (r : Registry) → node_of j (leave_node node id r) ≡ node_of j r
unfolding leave_node
node_of-leave_node j node id r = ground arith

leave_node-Keyed : (node id : String) (r : Registry) → Keyed r → Keyed (leave_node node id r)
leave_node-Keyed node id r k = rw (leave_node-services node id r).0 k

remove_service-Agrees : (id : String) (r : Registry) → Agrees r → Agrees (remove_service id r)
unfolding remove_service
remove_service-Agrees id r (k, i) =
    on_some_ind Agrees (lookup id r.services) r _ (λ _. (k, i))
      λ s e.
        let q = stop_handler r s in
        let same = stop_handler-SameNodes r s (node_of-Keyed r id s k e) in
        let left = leave_node s.node_id id q in
        let keys = leave_node-Keyed s.node_id id q (same.keys k) in
        (
          λ j x l. ground (arith, keys j x, lookup-erase j id left.services),
          λ node j. ground (
            arith,
            e,
            SameNodes-IsIndexed r q same i node j,
            same.named j,
            node_of-leave_node j s.node_id id q,
            is_member-leave_node node j s.node_id id q,
            lookup-erase j id left.services,
          ),
        )

node_of-move_node :
    (j id old new : String) (r : Registry) → node_of j (move_node id old new r) ≡ node_of j r
unfolding join_node
node_of-move_node j id old new r = ground (arith, node_of-leave_node j old id r)

move_node-Keyed : (id old new : String) (r : Registry) → Keyed r → Keyed (move_node id old new r)
unfolding join_node
move_node-Keyed id old new r k =
    if_ind Keyed (old == new) r (join_node new id (leave_node old id r)) (λ _. k)
      (λ _. leave_node-Keyed old id r k)

is_member-move_node :
    (node j id old new : String) (r : Registry)
    → is_member node j r ≡ names_node node (node_of j r)
    → node_of id r ≡ some old
    → is_member node j (move_node id old new r)
      ≡ (if j == id then node == new else is_member node j r)
is_member-move_node node j id old new r i n =
    if_ind (λ q. is_member node j q ≡ (if j == id then node == new else is_member node j r))
      (old == new) r (join_node new id (leave_node old id r)) (λ stays. ground (arith, i, n, stays))
      (λ moves. ground (
        arith,
        i,
        n,
        moves,
        is_member-join_node node j new id (leave_node old id r),
        is_member-leave_node node j old id r,
      ))

update_service-Agrees :
    (env : Env) (svc : Service) (r : Registry) → Agrees r → Agrees (update_service env svc r)
unfolding update_service
update_service-Agrees env svc r (k, i) =
    on_some_ind Agrees (lookup svc.id r.services) (add_service env svc r) _
      (λ missing. let (a, b) = add_service-IsIndexed env svc r missing k i in (b, a))
      λ s e.
        let q = stop_handler r s in
        let same = stop_handler-SameNodes r s (node_of-Keyed r svc.id s k e) in
        let moved = move_node svc.id s.node_id svc.node_id q in
        let u = updated r svc s in
        let p = put_state moved u in
        let here : node_of u.id p ≡ some svc.node_id =
          ground (arith, node_of-put_state u.id moved u) in
        let named : node_of svc.id q ≡ some s.node_id = ground (arith, e, same.named svc.id) in
        let ix : IsIndexed p = λ node j.
          let was = SameNodes-IsIndexed r q same i node j in
          ground (
            arith,
            was,
            k svc.id s e,
            is_member-move_node node j svc.id s.node_id svc.node_id q was named,
            node_of-put_state j moved u,
            node_of-move_node j svc.id s.node_id svc.node_id q,
          ) in
        let keys = move_node-Keyed svc.id s.node_id svc.node_id q (same.keys k) in
        let agrees : Agrees p = (put_state-Keyed moved u keys, ix) in
        if_ind Agrees u.online (start_handler env p u) p
          (λ _. same-Agrees p (start_handler env p u) (start_handler-SameNodes env p u here) agrees)
          (λ _. agrees)

add_all-Agrees :
    (env : Env) (rows : List Service) (r : Registry)
    → AllNew rows r.services
    → Agrees r
    → Agrees (add_all env rows r)
unfolding add_all
add_all-Agrees env [] r new a = a
add_all-Agrees env (svc ∷ rows) r (gone, once, new) (k, i) =
    let (b, c) = add_service-IsIndexed env svc r gone k i in
    add_all-Agrees env rows (add_service env svc r) (AllNew-add_service env svc rows r once new)
      (c, b)

mark_ready-same : (ready : List String) (r : Registry) → SameNodes r (mark_ready ready r)
unfolding mark_ready
mark_ready-same [] r = SameNodes-refl r
mark_ready-same (node ∷ ready) r =
    let q : Registry = record r { online_nodes = insert node true r.online_nodes } in
    let s = mark_ready-same ready q in record { sets = s.sets; named = s.named; keys = s.keys }

load_services-Agrees :
    (env : Env) (ready : List String) (rows : Option (List Service)) (r : Registry)
    → IsFresh (loads ready rows) r
    → Agrees r
    → Agrees (load_services env ready rows r).0
unfolding load_services
load_services-Agrees env ready none r f a =
    same-Agrees r (mark_ready ready r) (mark_ready-same ready r) a
load_services-Agrees env ready (some rows) r f a =
    add_all-Agrees env rows (mark_ready ready r) (rw (mark_ready-services ready r).0 f)
      (same-Agrees r (mark_ready ready r) (mark_ready-same ready r) a)

stop_all-same :
    (entries : Dict String ServiceState) (r : Registry) → Keyed r → SameNodes r (stop_all entries r)
unfolding stop_all stop_service
stop_all-same [] r k = SameNodes-refl r
stop_all-same ((id, _) ∷ rest) r k =
    let q = stop_service id r in
    let one =
      on_some_ind (SameNodes r) (lookup id r.services) r (λ s. stop_handler r s)
        (λ _. SameNodes-refl r) (λ s e. stop_handler-SameNodes r s (node_of-Keyed r id s k e)) in
    SameNodes-trans r q (stop_all rest q) one (stop_all-same rest q (one.keys k))

-- Every call but the reconnection worker's keeps the two maps in agreement: the set of a node holds a
-- service exactly if the service's state names that node, and a state stands under its own id.
-- Services may be added or loaded only under ids that are not there, each once.
pub perform-Agrees :
    (env : Env) (call : Call) (r : Registry)
    → IsFresh call r
    → Agrees r
    → Agrees (perform env call r)
unfolding perform check_idle_connections set_node_online set_node_offline close
perform-Agrees env (adds svc) r f (k, i) =
    let (a, b) = add_service-IsIndexed env svc r f k i in (b, a)
perform-Agrees env (updates svc) r f a = update_service-Agrees env svc r a
perform-Agrees env (removes id) r f a = remove_service-Agrees id r a
perform-Agrees env (node_online node) r f a =
    let q : Registry = record r { online_nodes = insert node true r.online_nodes } in
    same-Agrees q _ (bring_all_online-same env _ q a.0) a
perform-Agrees env (node_offline node) r f a =
    let q : Registry = record r { online_nodes = erase node r.online_nodes } in
    same-Agrees q _ (take_all_offline-same env _ q a.0) a
perform-Agrees env (loads ready rows) r f a = load_services-Agrees env ready rows r f a
perform-Agrees env checks r f a = same-Agrees r _ (check_services-same env r.services r a.0) a
perform-Agrees env closes r f a = same-Agrees r _ (stop_all-same r.services r a.0) a
