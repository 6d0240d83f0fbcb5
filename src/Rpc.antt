-- ===== src/Rpc.antt =====
-- server/service/service.go: the calls of the service API, over the tables of database/ and the
-- registry of server/service/registry.go. The new ids are given with the call, and time stamps are
-- left out. The registry is there (`s.registry` is not nil), and no other call comes between.
pub mod Known
pub mod InStep
pub mod Authorised
mod Tests
use unblink.Base.{
  ◌≡◌, refl, if_ind, Bool, true, false, Option, none, some, List, String, string_eq, ◌==◌, ◌||◌,
  if◌then◌else◌,
}
use unblink.Access.{
  Code, unauthenticated, not_found, internal, permission_denied, invalid_argument, Response,
  refused, crashed, response, get_user_id, check_node_access_with_context, or_error, or_nil,
  or_stop, required,
}
use unblink.Database
use unblink.Database.{Db, Query, Procedure}
use unblink.Database.Nodes
use unblink.Database.Users
use unblink.Registry.{Service, Registry, is_node_online}
use unblink.Registry as Reg
use unblink.Registry.Operations

-- What the calls share.
pub record World : Type 0 where
  pub db : Db
  pub registry : Registry

-- The statements that fail, the registry's clock and handlers, and what the context holds for the
-- user.
pub record Env : Type 0 where
  pub fails : Query → Bool
  pub handlers : Reg.Env
  pub user : Option String

pub data Answer : Type 0 where
  service : Service → Answer
  services : List Service → Bool → Answer
  procedure : Procedure → Answer
  procedures : List Procedure → Answer
  nodes : List String → Answer
  success : Answer

-- `ctxutil.CheckNodeAccessWithContext(ctx, s.db, nodeID)`
abbrev pub access : Env → String → World → Response (Unit {0})
access env node w =
    check_node_access_with_context (λ n u. Nodes.check_node_access env.fails n u w.db) env.user node

module _ (env : Env) where
  -- `CreateService`, with the id of `generateID`.
  unfoldable pub create_service :
      String → String → String → String → World → World × Response Answer
  create_service id name url node w = required node w (
      or_stop (access env node w) w λ _. required name w (
        required url w (
          or_stop (or_error (Database.create_service env.fails id name url node w.db) internal) w
            λ db.
              let svc : Service = record { id = id; name = name; url = url; node_id = node } in
              (
                record { db = db; registry = Operations.add_service env.handlers svc w.registry },
                response (service svc),
              ))))

  -- `ListServicesByNodeId`
  unfoldable pub list_services_by_node_id : String → World → World × Response Answer
  list_services_by_node_id node w = required node w (
      or_stop (access env node w) w λ _.
        or_stop (or_error (Database.list_services_by_node_id env.fails node w.db) internal) w
          λ rows. (w, response (services rows (is_node_online node w.registry))))

  -- `UpdateService`
  unfoldable pub update_service : String → String → String → World → World × Response Answer
  update_service id name url w = required id w (
      required name w (
        required url w (
          or_stop (or_error (Database.get_service env.fails id w.db) not_found) w λ row.
            or_stop (or_nil row) w λ existing. or_stop (access env existing.node_id w) w λ _.
              or_stop (or_error (Database.update_service env.fails id name url w.db) internal) w
                λ db.
                  let svc : Service = record {
                    id = id;
                    name = name;
                    url = url;
                    node_id = existing.node_id;
                  } in
                  (
                    record {
                      db = db;
                      registry = Operations.update_service env.handlers svc w.registry;
                    },
                    response (service svc),
                  ))))

  -- `DeleteService`
  unfoldable pub delete_service : String → World → World × Response Answer
  delete_service id w = required id w (
      or_stop (or_error (Database.get_service env.fails id w.db) not_found) w λ row.
        or_stop (or_nil row) w λ svc. or_stop (access env svc.node_id w) w λ _.
          or_stop (or_error (Database.delete_service env.fails id w.db) internal) w λ db. (
            record { db = db; registry = Operations.remove_service id w.registry },
            response success,
          ))

  -- `CreateSOPProcedure`, with the id of `generateID`.
  unfoldable pub create_sop_procedure :
      String → String → String → String → World → World × Response Answer
  create_sop_procedure id node title content w = required node w (
      required title w (
        required content w (
          or_stop (access env node w) w λ _.
            or_stop
              (or_error (Database.create_sop_procedure env.fails id node title content w.db)
                internal)
              w
              λ db.
                let w' : World = record w { db = db } in
                or_stop (or_error (Database.get_sop_procedure env.fails id db) internal) w' λ row.
                  or_stop (or_error row internal) w'
                    λ created. (w', response (procedure created)))))

  -- `ListSOPProceduresByNodeId`
  unfoldable pub list_sop_procedures_by_node_id : String → World → World × Response Answer
  list_sop_procedures_by_node_id node w = required node w (
      or_stop (access env node w) w λ _.
        or_stop (or_error (Database.list_sop_procedures_by_node_id env.fails node w.db) internal) w
          λ rows. (w, response (procedures rows)))

  -- `UpdateSOPProcedure`
  unfoldable pub update_sop_procedure : String → String → String → World → World × Response Answer
  update_sop_procedure id title content w = required id w (
      required title w (
        required content w (
          or_stop (or_error (Database.get_sop_procedure env.fails id w.db) internal) w λ row.
            or_stop (or_error row not_found) w λ existing.
              or_stop (access env existing.node_id w) w λ _.
                or_stop
                  (or_error (Database.update_sop_procedure env.fails id title content w.db)
                    internal)
                  w
                  λ db.
                    let w' : World = record w { db = db } in
                    or_stop (or_error (Database.get_sop_procedure env.fails id db) internal) w'
                      λ row'.
                        or_stop (or_error row' internal) w'
                          λ updated. (w', response (procedure updated)))))

  -- `DeleteSOPProcedure`
  unfoldable pub delete_sop_procedure : String → World → World × Response Answer
  delete_sop_procedure id w = required id w (
      or_stop (or_error (Database.get_sop_procedure env.fails id w.db) internal) w λ row.
        or_stop (or_error row not_found) w λ existing.
          or_stop (access env existing.node_id w) w λ _.
            or_stop (or_error (Database.delete_sop_procedure env.fails id w.db) internal) w
              λ db. (record w { db = db }, response success))

  -- `AssociateUserNode`
  unfoldable pub associate_user_node : String → World → World × Response Answer
  associate_user_node node w = required node w (
      or_stop (or_error (get_user_id env.user) unauthenticated) w λ user.
        or_stop (or_error (Users.is_guest env.fails user w.db) internal) w λ guest.
          if guest
          then (w, refused permission_denied)
          else or_stop (or_error (Nodes.associate_user_node env.fails user node w.db) internal) w
              λ db. (record w { db = db }, response success))

  -- `ListUserNodes`
  unfoldable pub list_user_nodes : World → World × Response Answer
  list_user_nodes w = or_stop (or_error (get_user_id env.user) unauthenticated) w λ user.
      or_stop (or_error (Nodes.list_user_nodes env.fails user w.db) internal) w
        λ rows. (w, response (nodes rows))

-- A call of a client; the ids of new rows come with it.
pub data Call : Type 0 where
  creates_service : String → String → String → String → Call
  updates_service : String → String → String → Call
  deletes_service lists_services : String → Call
  creates_procedure : String → String → String → String → Call
  updates_procedure : String → String → String → Call
  deletes_procedure lists_procedures : String → Call
  associates : String → Call
  lists_nodes : Call

unfoldable pub perform : Env → Call → World → World × Response Answer
perform env (creates_service id name url node) w = create_service env id name url node w
perform env (updates_service id name url) w = update_service env id name url w
perform env (deletes_service id) w = delete_service env id w
perform env (lists_services node) w = list_services_by_node_id env node w
perform env (creates_procedure id node title content) w =
    create_sop_procedure env id node title content w
perform env (updates_procedure id title content) w = update_sop_procedure env id title content w
perform env (deletes_procedure id) w = delete_sop_procedure env id w
perform env (lists_procedures node) w = list_sop_procedures_by_node_id env node w
perform env (associates node) w = associate_user_node env node w
perform env lists_nodes w = list_user_nodes env w
