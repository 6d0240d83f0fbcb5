-- ===== src/Registry/Lookup.antt =====
-- server/service/registry.go: what each operation writes, service by service and node by node.
use unblink.Base.{
  is_empty, ◌≡◌, refl, Bool, true, false, ◌&&◌, ◌||◌, none, some, [], ◌∷◌, String, if◌then◌else◌,
  string_eq, ◌==◌, arith, Option-cases, inl, inr,
}
use unblink.Base.Dict.{Dict, lookup, insert, erase, has, lookup-insert, lookup-erase, lookup-nil}
use unblink.Registry.{
  ServiceState, Registry, Env, put_state, handler_for, start_handler, stopped, stop_handler,
}
use unblink.Registry.Operations.{ids_of, join_node, leave_node}

-- Whether the set of the node holds the service.
abbrev pub is_member : String → String → Registry → Bool
is_member node id r = has id (ids_of node r)

pub lookup-put_state :
    (j : String) (r : Registry) (s : ServiceState)
    → lookup j (put_state r s).services ≡ (if j == s.id then some s else lookup j r.services)
lookup-put_state j r s = lookup-insert j s.id s r.services

pub lookup-stop_handler :
    (j : String) (r : Registry) (s : ServiceState)
    → lookup j (stop_handler r s).services
      ≡ (if j == s.id then some (stopped s) else lookup j r.services)
unfolding stop_handler
lookup-stop_handler j r s = lookup-insert j s.id (stopped s) r.services

-- The state of a service once its handler has been started, or not.
abbrev pub started : Env → Registry → ServiceState → ServiceState
started env r s =
    if (r.enable_indexing || r.enable_recording) && env.can_start (handler_for r s)
    then record s { handler = some (handler_for r s); successful_since = some env.now }
    else s

pub lookup-start_handler :
    (j : String) (env : Env) (r : Registry) (s : ServiceState)
    → lookup s.id r.services ≡ some s
    → lookup j (start_handler env r s).services
      ≡ (if j == s.id then some (started env r s) else lookup j r.services)
unfolding start_handler
lookup-start_handler j env r s e =
    ground (arith, e, lookup-insert j s.id (started env r s) r.services)

pub is_member-join_node :
    (node id n i : String) (r : Registry)
    → is_member node id (join_node n i r)
      ≡ (if node == n && id == i then true else is_member node id r)
unfolding join_node
is_member-join_node node id n i r = ground (
  arith,
  lookup-insert node n (insert i true (ids_of n r)) r.nodes,
  lookup-insert id i true (ids_of n r),
)

lookup-is_empty : (i : String) (d : Dict String Bool) → is_empty d ≡ true → lookup i d ≡ none
unfolding lookup
lookup-is_empty i [] h = refl
lookup-is_empty i (x ∷ d) h = cc

pub is_member-leave_node :
    (node id n i : String) (r : Registry)
    → is_member node id (leave_node n i r)
      ≡ (if node == n && id == i then false else is_member node id r)
unfolding leave_node
is_member-leave_node node id n i r = elim (Option-cases (lookup n r.nodes)) [
  | inl gone ↦ ground (arith, gone, lookup-nil {V = Bool} id)
  | inr (ids, here) ↦ ground (
    arith,
    here,
    lookup-nil {V = Bool} id,
    lookup-is_empty id (erase i ids),
    lookup-erase node n r.nodes,
    lookup-insert node n (erase i ids) r.nodes,
    lookup-erase id i ids,
  )
]
