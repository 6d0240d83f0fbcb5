-- ===== src/Registry/Index.antt =====
-- server/service/registry.go: the maps `services` and `nodes`, and the invariant that ties the set of
-- a node to the states that name it.
pub mod Calls
pub mod Moves
use unblink.Base.{
  is_empty, ℕ, suc, ◌≡◌, refl, sym, ◌∙◌, Bool, true, false, not, ◌&&◌, ◌||◌, Option, none, some,
  List, [], ◌∷◌, String, All, eqb, ltb, leb, if◌then◌else◌, string_eq, ◌==◌, arith, Option-cases,
  Bool-cases, inl, inr, on_some, if_ind, on_some_ind, length,
}
use unblink.Base.Dict.{Dict, lookup, insert, erase, lookup-insert, lookup-erase}
use unblink.Registry.{
  Service, Handler, ServiceState, Registry, Env, put_state, handler_for, start_handler, stopped,
  is_node_online, stop_handler, new_service_registry,
}
use unblink.Registry.Operations.{
  state_for, join_node, leave_node, add_service, remove_service, updated, move_node, update_service,
  bring_online, bring_all_online, set_node_online, take_offline, take_all_offline, set_node_offline,
  ids_of,
}
use unblink.Registry.Lookup.{is_member, lookup-put_state, is_member-join_node, is_member-leave_node}
use unblink.Registry.Handlers.{Services}

abbrev pub Keyed : Registry → Type 0
Keyed r = (id : String) (s : ServiceState) → lookup id r.services ≡ some s → s.id ≡ id

abbrev pub node_of : String → Registry → Option String
node_of id r = on_some (lookup id r.services) none (λ s. some s.node_id)

abbrev pub names_node : String → Option String → Bool
names_node node none = false
names_node node (some n) = node == n

abbrev pub IsIndexed : Registry → Type 0
IsIndexed r = (node id : String) → is_member node id r ≡ names_node node (node_of id r)

-- What an operation that moves no service keeps.
pub record SameNodes (r q : Registry) : Type 0 where
  pub sets : q.nodes ≡ r.nodes
  pub named : (id : String) → node_of id q ≡ node_of id r
  pub keys : Keyed r → Keyed q

pub SameNodes-refl : (r : Registry) → SameNodes r r
SameNodes-refl r = record { sets = refl; named = λ id. refl; keys = λ k. k }

pub SameNodes-trans : (r p q : Registry) → SameNodes r p → SameNodes p q → SameNodes r q
SameNodes-trans r p q a b = record {
  sets = b.sets ∙ a.sets;
  named = λ id. b.named id ∙ a.named id;
  keys = λ k. b.keys (a.keys k);
}

pub SameNodes-IsIndexed : (r q : Registry) → SameNodes r q → IsIndexed r → IsIndexed q
SameNodes-IsIndexed r q s i node id = ground (arith, i node id, s.named id, s.sets)

pub node_of-put_state :
    (j : String) (r : Registry) (s : ServiceState)
    → node_of j (put_state r s) ≡ (if j == s.id then some s.node_id else node_of j r)
node_of-put_state j r s = ground (arith, lookup-insert j s.id s r.services)

pub put_state-Keyed : (r : Registry) (s : ServiceState) → Keyed r → Keyed (put_state r s)
put_state-Keyed r s k id x e = ground (arith, k id x, lookup-insert id s.id s r.services)

-- A write of one state that keeps its node, whatever else changes but the sets.
pub writes-SameNodes :
    (r q : Registry) (s : ServiceState)
    → node_of s.id r ≡ some s.node_id
    → q.nodes ≡ r.nodes
    → q.services ≡ insert s.id s r.services
    → SameNodes r q
writes-SameNodes r q s e sets services = record {
  sets = sets;
  named = λ id. ground (arith, e, services, node_of-put_state id r s);
  keys = λ k id x l. put_state-Keyed r s k id x (rw services at l);
}

pub put_state-SameNodes :
    (r : Registry) (s : ServiceState)
    → node_of s.id r ≡ some s.node_id
    → SameNodes r (put_state r s)
put_state-SameNodes r s e = writes-SameNodes r (put_state r s) s e refl refl

pub stop_handler-SameNodes :
    (r : Registry) (s : ServiceState)
    → node_of s.id r ≡ some s.node_id
    → SameNodes r (stop_handler r s)
unfolding stop_handler
stop_handler-SameNodes r s e = writes-SameNodes r (stop_handler r s) (stopped s) e refl refl

pub start_handler-SameNodes :
    (env : Env) (r : Registry) (s : ServiceState)
    → node_of s.id r ≡ some s.node_id
    → SameNodes r (start_handler env r s)
unfolding start_handler
start_handler-SameNodes env r s e =
    if_ind (SameNodes r) (not (r.enable_indexing || r.enable_recording)) r tried
      (λ _. SameNodes-refl r)
      (λ _.
        if_ind (SameNodes r) (env.can_start (handler_for r s)) started failed
          (λ _. writes-SameNodes r started s' e refl refl)
          (λ _. record { sets = refl; named = λ id. refl; keys = λ k. k }))
  where
    s' : ServiceState
    s' = record s { handler = some (handler_for r s); successful_since = some env.now }

    started : Registry
    started =
        put_state (record r { live = handler_for r s ∷ r.live; next_handler = suc r.next_handler })
          s'

    failed : Registry
    failed = record r { next_handler = suc r.next_handler }

    tried : Registry
    tried = if env.can_start (handler_for r s) then started else failed

-- A state of the map names its own node.
pub node_of-Keyed :
    (r : Registry) (id : String) (s : ServiceState)
    → Keyed r
    → lookup id r.services ≡ some s
    → node_of s.id r ≡ some s.node_id
node_of-Keyed r id s k e = ground (arith, k id s e)

-- A service that was nowhere is written and joins its node's set.
pub add_service-IsIndexed :
    (env : Env) (svc : Service) (r : Registry)
    → lookup svc.id r.services ≡ none
    → Keyed r
    → IsIndexed r
    → IsIndexed (add_service env svc r) × Keyed (add_service env svc r)
unfolding add_service
add_service-IsIndexed env svc r fresh k i =
    let s = state_for svc (is_node_online svc.node_id r) in
    let joined = join_node svc.node_id svc.id (put_state r s) in
    let named : (id : String) → node_of id joined ≡ node_of id (put_state r s) =
      unfold join_node in λ id. refl in
    let ix : IsIndexed joined = λ node id. ground (
      arith,
      i node id,
      fresh,
      named id,
      node_of-put_state id r s,
      is_member-join_node node id svc.node_id svc.id (put_state r s),
    ) in
    let keys : Keyed joined = unfold join_node in put_state-Keyed r s k in
    let same =
      start_handler-SameNodes env joined s
        (ground (arith, named svc.id, node_of-put_state svc.id r s)) in
    if_ind (λ q. IsIndexed q × Keyed q) s.online (start_handler env joined s) joined
      (λ _. (SameNodes-IsIndexed joined (start_handler env joined s) same ix, same.keys keys))
      (λ _. (ix, keys))
