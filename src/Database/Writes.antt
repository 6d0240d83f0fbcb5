-- ===== src/Database/Writes.antt =====
-- database/: what the statements that write leave in the services table.
use unblink.Base.{Bool, ◌≡◌, Option, none, some, String, string_eq, ◌==◌, if◌then◌else◌, arith}
use unblink.Base.Dict.{lookup, lookup-insert, lookup-erase}
use unblink.Registry.{Service}
use unblink.Database.{
  Db, Query, Procedure, get_sop_procedure, create_service, get_service, update_service,
  delete_service, create_sop_procedure, update_sop_procedure, delete_sop_procedure,
}
use unblink.Database.Nodes.{associate_user_node}

module _ (fails : Query → Bool) (db db' : Db) where
  pub lookup-create_service :
      (j id name url node : String)
      → create_service fails id name url node db ≡ some db'
      → lookup j db'.services ≡ (
          if j == id
          then some (record { id = id; name = name; url = url; node_id = node })
          else lookup j db.services)
  unfolding create_service
  lookup-create_service j id name url node e = ground (
    arith,
    e,
    lookup-insert j id (record { id = id; name = name; url = url; node_id = node }) db.services,
  )

  pub lookup-update_service :
      (j id name url : String) (svc : Service)
      → lookup id db.services ≡ some svc
      → update_service fails id name url db ≡ some db'
      → lookup j db'.services
        ≡ (if j == id then some (record svc { name = name; url = url }) else lookup j db.services)
  unfolding update_service
  lookup-update_service j id name url svc here e =
      ground
        (arith, here, e, lookup-insert j id (record svc { name = name; url = url }) db.services)

  pub lookup-delete_service :
      (j id : String)
      → delete_service fails id db ≡ some db'
      → lookup j db'.services ≡ (if j == id then none else lookup j db.services)
  unfolding delete_service
  lookup-delete_service j id e = ground (arith, e, lookup-erase j id db.services)

  pub services-create_sop_procedure :
      (id node title content : String)
      → create_sop_procedure fails id node title content db ≡ some db'
      → db'.services ≡ db.services
  unfolding create_sop_procedure
  services-create_sop_procedure id node title content e = ground (arith, e)

  pub services-update_sop_procedure :
      (id title content : String)
      → update_sop_procedure fails id title content db ≡ some db'
      → db'.services ≡ db.services
  unfolding update_sop_procedure
  services-update_sop_procedure id title content e = ground (arith, e)

  pub services-delete_sop_procedure :
      (id : String) → delete_sop_procedure fails id db ≡ some db' → db'.services ≡ db.services
  unfolding delete_sop_procedure
  services-delete_sop_procedure id e = ground (arith, e)

  pub services-associate_user_node :
      (user node : String)
      → associate_user_node fails user node db ≡ some db'
      → db'.services ≡ db.services
  unfolding associate_user_node
  services-associate_user_node user node e = ground (arith, e)

pub get_service-row :
    (fails : Query → Bool) (id : String) (db : Db) (row : Option Service) (svc : Service)
    → get_service fails id db ≡ some row
    → row ≡ some svc
    → lookup id db.services ≡ some svc
unfolding get_service
get_service-row fails id db row svc e f = ground (arith, e, f)

pub get_sop_procedure-row :
    (fails : Query → Bool) (id : String) (db : Db) (row : Option Procedure) (proc : Procedure)
    → get_sop_procedure fails id db ≡ some row
    → row ≡ some proc
    → lookup id db.procedures ≡ some proc
unfolding get_sop_procedure
get_sop_procedure-row fails id db row proc e f = ground (arith, e, f)
