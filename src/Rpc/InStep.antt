-- ===== src/Rpc/InStep.antt =====
-- server/service/service.go: the services table and the registry.
use unblink.Base.{
  ◌≡◌, ◌∙◌, sym, ap, if_ind, Option, none, some, String, string_eq, ◌==◌, if◌then◌else◌, arith,
  Bool-cases, inl, inr,
}
use unblink.Base.Dict.{lookup}
use unblink.Registry.{Service, ServiceState}
use unblink.Rpc.Known.{known, known-add_service, known-remove_service, known-update_service}
use unblink.Access.{
  or_stop_ind, required_ind, or_error-response, or_nil-response, Response, internal, not_found,
}
use unblink.Database.{Db}
use unblink.Database.Writes.{
  get_service-row, lookup-create_service, lookup-update_service, lookup-delete_service,
  services-create_sop_procedure, services-update_sop_procedure, services-delete_sop_procedure,
  services-associate_user_node,
}
use unblink.Rpc.{
  World, Env, Answer, Call, creates_service, updates_service, deletes_service, lists_services,
  creates_procedure, updates_procedure, deletes_procedure, lists_procedures, associates,
  lists_nodes, perform, create_service, delete_service, list_services_by_node_id,
  create_sop_procedure, update_sop_procedure, delete_sop_procedure, list_sop_procedures_by_node_id,
  associate_user_node, list_user_nodes,
}
use unblink.Rpc

-- The registry holds the rows of the services table and no others, and each row is under its id.
pub record InStep (w : World) : Type 0 where
  pub rows : (id : String) → known (lookup id w.registry.services) ≡ lookup id w.db.services
  pub keys : (id : String) (svc : Service) → lookup id w.db.services ≡ some svc → svc.id ≡ id

-- A state is under its id, too.
keyed :
    (w : World)
    → InStep w
    → (id : String) (s : ServiceState) → lookup id w.registry.services ≡ some s
    → s.id ≡ id
keyed w h id s e =
    h.keys id (record { id = s.id; name = s.name; url = s.url; node_id = s.node_id })
      (ground (arith, h.rows id, e))

-- One row is written, or deleted, in both.
write-InStep :
    (id : String) (o : Option Service) (w w' : World)
    → ((j : String)
        → known (lookup j w'.registry.services)
          ≡ (if j == id then o else known (lookup j w.registry.services)))
    → ((j : String) → lookup j w'.db.services ≡ (if j == id then o else lookup j w.db.services))
    → ((svc : Service) → o ≡ some svc → svc.id ≡ id)
    → InStep w
    → InStep w'
write-InStep id o w w' r d named h = record {
  rows = λ j. ground (arith, r j, d j, h.rows j);
  keys = λ j svc e. elim (Bool-cases (j == id)) [
    | inl same ↦ ground (arith, same, named svc (ground (arith, same, d j, e)))
    | inr other ↦ h.keys j svc (ground (arith, other, d j, e))
  ];
}

-- The services table is left alone.
other-InStep :
    (w : World) (db : Db) → db.services ≡ w.db.services → InStep w → InStep (record w { db = db })
other-InStep w db e h = record {
  rows = λ j. h.rows j ∙ ap (lookup j) (sym e);
  keys = λ j svc f. h.keys j svc (ap (lookup j) (sym e) ∙ f);
}

create_service-InStep :
    (env : Env) (id name url node : String) (w : World)
    → InStep w
    → InStep (create_service env id name url node w).0
unfolding create_service
create_service-InStep env id name url node w h =
    let svc : Service = record { id = id; name = name; url = url; node_id = node } in
    required_ind InStep node w _ h (
      or_stop_ind InStep _ w _ h λ _ _. required_ind InStep name w _ h (
        required_ind InStep url w _ h (
          or_stop_ind InStep _ w _ h λ db e.
            write-InStep id (some svc) w _ (λ j. known-add_service j env.handlers svc w.registry)
              (λ j.
                lookup-create_service env.fails w.db db j id name url node
                  (or_error-response _ internal db e))
              (λ svc' f. ground (arith, f)) h)))

update_service-InStep :
    (env : Env) (id name url : String) (w : World)
    → InStep w
    → InStep (Rpc.update_service env id name url w).0
unfolding Rpc.update_service
update_service-InStep env id name url w h = required_ind InStep id w _ h (
    required_ind InStep name w _ h (
      required_ind InStep url w _ h (
        or_stop_ind InStep _ w _ h λ row found. or_stop_ind InStep _ w _ h λ existing there.
          or_stop_ind InStep _ w _ h λ _ _. or_stop_ind InStep _ w _ h λ db e.
            let svc : Service = record {
              id = id;
              name = name;
              url = url;
              node_id = existing.node_id;
            } in
            let here =
              get_service-row env.fails id w.db row existing
                (or_error-response _ not_found row found) (or_nil-response row existing there) in
            write-InStep id (some svc) w _
              (λ j. known-update_service j env.handlers svc w.registry (keyed w h id))
              (λ j. ground (
                arith,
                h.keys id existing here,
                lookup-update_service env.fails w.db db j id name url existing here
                    (or_error-response _ internal db e),
              ))
              (λ svc' f. ground (arith, f)) h)))

delete_service-InStep :
    (env : Env) (id : String) (w : World) → InStep w → InStep (delete_service env id w).0
unfolding delete_service
delete_service-InStep env id w h = required_ind InStep id w _ h (
    or_stop_ind InStep _ w _ h λ row found. or_stop_ind InStep _ w _ h λ existing there.
      or_stop_ind InStep _ w _ h λ _ _. or_stop_ind InStep _ w _ h λ db e.
        write-InStep id none w _ (λ j. known-remove_service j id w.registry (keyed w h id))
          (λ j. lookup-delete_service env.fails w.db db j id (or_error-response _ internal db e))
          (λ svc f. cc) h)

create_sop_procedure-InStep :
    (env : Env) (id node title content : String) (w : World)
    → InStep w
    → InStep (create_sop_procedure env id node title content w).0
unfolding create_sop_procedure
create_sop_procedure-InStep env id node title content w h = required_ind InStep node w _ h (
    required_ind InStep title w _ h (
      required_ind InStep content w _ h (
        or_stop_ind InStep _ w _ h λ _ _. or_stop_ind InStep _ w _ h λ db e.
          let h' =
            other-InStep w db
              (services-create_sop_procedure env.fails w.db db id node title content
                (or_error-response _ internal db e))
              h in
          or_stop_ind InStep _ _ _ h' λ _ _. or_stop_ind InStep _ _ _ h' λ _ _. h')))

update_sop_procedure-InStep :
    (env : Env) (id title content : String) (w : World)
    → InStep w
    → InStep (update_sop_procedure env id title content w).0
unfolding update_sop_procedure
update_sop_procedure-InStep env id title content w h = required_ind InStep id w _ h (
    required_ind InStep title w _ h (
      required_ind InStep content w _ h (
        or_stop_ind InStep _ w _ h λ _ _. or_stop_ind InStep _ w _ h λ _ _.
          or_stop_ind InStep _ w _ h λ _ _. or_stop_ind InStep _ w _ h λ db e.
            let h' =
              other-InStep w db
                (services-update_sop_procedure env.fails w.db db id title content
                  (or_error-response _ internal db e))
                h in
            or_stop_ind InStep _ _ _ h' λ _ _. or_stop_ind InStep _ _ _ h' λ _ _. h')))

delete_sop_procedure-InStep :
    (env : Env) (id : String) (w : World) → InStep w → InStep (delete_sop_procedure env id w).0
unfolding delete_sop_procedure
delete_sop_procedure-InStep env id w h = required_ind InStep id w _ h (
    or_stop_ind InStep _ w _ h λ _ _. or_stop_ind InStep _ w _ h λ _ _.
      or_stop_ind InStep _ w _ h λ _ _. or_stop_ind InStep _ w _ h λ db e.
        other-InStep w db
          (services-delete_sop_procedure env.fails w.db db id (or_error-response _ internal db e))
          h)

associate_user_node-InStep :
    (env : Env) (node : String) (w : World) → InStep w → InStep (associate_user_node env node w).0
unfolding associate_user_node
associate_user_node-InStep env node w h = required_ind InStep node w _ h (
    or_stop_ind InStep _ w _ h λ user _. or_stop_ind InStep _ w _ h λ guest _.
      if_ind (λ (x : World × Response Answer). InStep x.0) guest _ _ (λ _. h)
        (λ _. or_stop_ind InStep _ w _ h λ db e.
          other-InStep w db
            (services-associate_user_node env.fails w.db db user node
              (or_error-response _ internal db e))
            h))

-- Whatever the call, its user and the statements that fail, the registry keeps holding exactly the
-- services that the table holds, each with the name, URL and node of its row.
pub perform-InStep :
    (env : Env) (call : Call) (w : World) → InStep w → InStep (perform env call w).0
unfolding perform
perform-InStep env (creates_service id name url node) w h =
    create_service-InStep env id name url node w h
perform-InStep env (updates_service id name url) w h = update_service-InStep env id name url w h
perform-InStep env (deletes_service id) w h = delete_service-InStep env id w h
perform-InStep env (lists_services node) w h =
    unfold list_services_by_node_id in
    required_ind InStep node w _ h
      (or_stop_ind InStep _ w _ h λ _ _. or_stop_ind InStep _ w _ h λ _ _. h)
perform-InStep env (creates_procedure id node title content) w h =
    create_sop_procedure-InStep env id node title content w h
perform-InStep env (updates_procedure id title content) w h =
    update_sop_procedure-InStep env id title content w h
perform-InStep env (deletes_procedure id) w h = delete_sop_procedure-InStep env id w h
perform-InStep env (lists_procedures node) w h =
    unfold list_sop_procedures_by_node_id in
    required_ind InStep node w _ h
      (or_stop_ind InStep _ w _ h λ _ _. or_stop_ind InStep _ w _ h λ _ _. h)
perform-InStep env (associates node) w h = associate_user_node-InStep env node w h
perform-InStep env lists_nodes w h =
    unfold list_user_nodes in or_stop_ind InStep _ w _ h λ _ _. or_stop_ind InStep _ w _ h λ _ _. h
