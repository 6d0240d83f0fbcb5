-- ===== src/Rpc/Known.antt =====
-- server/service/registry.go: what the operations that the service API calls leave known of the services.
use unblink.Base.{
  ◌≡◌, refl, Option, none, some, String, string_eq, ◌==◌, if◌then◌else◌, arith, Option-cases, inl,
  inr,
}
use unblink.Base.Dict.{lookup, lookup-erase}
use unblink.Registry.{
  Service, ServiceState, Registry, is_node_online, put_state, start_handler, stop_handler, stopped,
}
use unblink.Registry as Reg
use unblink.Registry.Lookup.{lookup-put_state, lookup-stop_handler, lookup-start_handler}
use unblink.Registry.Operations.{
  join_node, leave_node, state_for, add_service, remove_service, updated, move_node, update_service,
}

-- What the registry holds of a service.
abbrev pub known : Option ServiceState → Option Service
known none = none
known (some s) = some (record { id = s.id; name = s.name; url = s.url; node_id = s.node_id })

join_node-services : (node id : String) (r : Registry) → (join_node node id r).services ≡ r.services
unfolding join_node
join_node-services node id r = refl

leave_node-services :
    (node id : String) (r : Registry) → (leave_node node id r).services ≡ r.services
unfolding leave_node
leave_node-services node id r = ground arith

move_node-services :
    (id old new : String) (r : Registry) → (move_node id old new r).services ≡ r.services
move_node-services id old new r =
    ground (arith, join_node-services new id (leave_node old id r), leave_node-services old id r)

-- A start of the handler changes nothing of what is known.
known-start_handler :
    (j : String) (env : Reg.Env) (r : Registry) (s : ServiceState)
    → lookup s.id r.services ≡ some s
    → known (lookup j (start_handler env r s).services) ≡ known (lookup j r.services)
known-start_handler j env r s e = ground (arith, e, lookup-start_handler j env r s e)

pub known-add_service :
    (j : String) (env : Reg.Env) (svc : Service) (r : Registry)
    → known (lookup j (add_service env svc r).services)
      ≡ (if j == svc.id then some svc else known (lookup j r.services))
unfolding add_service
known-add_service j env svc r =
    let s = state_for svc (is_node_online svc.node_id r) in
    let joined = join_node svc.node_id svc.id (put_state r s) in
    let same = join_node-services svc.node_id svc.id (put_state r s) in
    ground (
      arith,
      same,
      lookup-put_state j r s,
      lookup-put_state svc.id r s,
      known-start_handler j env joined s,
    )

pub known-remove_service :
    (j id : String) (r : Registry)
    → ((s : ServiceState) → lookup id r.services ≡ some s → s.id ≡ id)
    → known (lookup j (remove_service id r).services)
      ≡ (if j == id then none else known (lookup j r.services))
unfolding remove_service
known-remove_service j id r keyed = elim (Option-cases (lookup id r.services)) [
  | inl gone ↦ ground (arith, gone)
  | inr (s, here) ↦ ground (
    arith,
    here,
    keyed s here,
    leave_node-services s.node_id id (stop_handler r s),
    lookup-erase j id (stop_handler r s).services,
    lookup-stop_handler j r s,
  )
]

pub known-update_service :
    (j : String) (env : Reg.Env) (svc : Service) (r : Registry)
    → ((s : ServiceState) → lookup svc.id r.services ≡ some s → s.id ≡ svc.id)
    → known (lookup j (update_service env svc r).services)
      ≡ (if j == svc.id then some svc else known (lookup j r.services))
unfolding update_service
known-update_service j env svc r keyed = elim (Option-cases (lookup svc.id r.services)) [
  | inl gone ↦ ground (arith, gone, known-add_service j env svc r)
  | inr (s, here) ↦
      let u = updated r svc s in
      let moved = move_node svc.id s.node_id svc.node_id (stop_handler r s) in
      ground (
        arith,
        here,
        keyed s here,
        move_node-services svc.id s.node_id svc.node_id (stop_handler r s),
        lookup-put_state j moved u,
        lookup-put_state u.id moved u,
        lookup-stop_handler j r s,
        known-start_handler j env (put_state moved u) u,
      )
]
