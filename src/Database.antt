-- ===== src/Database.antt =====
-- database/table_service.go, table_sop_procedure.go, table_user_node.go and
-- table_user.go: the tables as PostgreSQL keeps them under these statements. A table is a list of
-- rows in the order of `created_at`; time stamps are left out. A statement may fail (`fails`), and
-- then changes nothing; `none` is the error.
pub mod Nodes
pub mod Users
pub mod Writes
mod Tests
use unblink.Base.{
  Bool, true, false, not, Option, none, some, List, [], ◌∷◌, ◌++◌, ◌&&◌, ◌||◌, String, string_eq,
  ◌==◌, if◌then◌else◌, on_some, contains,
}
use unblink.Base.Dict.{Dict, lookup, insert, erase, has}
use unblink.Registry.{Service}

-- `servicev1.SOPProcedure`
pub record Procedure : Type 0 where
  pub id : String
  pub node_id : String
  pub title : String
  pub content : String

-- `Account`; what its payload holds under "email" and "password_hash".
pub record Account : Type 0 where
  pub id : String
  pub user_id : String
  pub kind : String
  pub email : Option String
  pub password_hash : Option String

abbrev pub Profile : Type 0
Profile = Dict String String

pub record Db : Type 0 where
  pub services : Dict String Service
  pub procedures : Dict String Procedure
  pub user_node : List (String × String)  -- the user and the node
  pub users : Dict String Profile
  pub accounts : List Account

-- The statements, for the choice of those that fail.
pub data Query : Type 0 where
  services_insert services_update services_select services_delete services_list : Query
  procedures_insert procedures_update procedures_select procedures_delete procedures_list : Query
  user_node_insert user_node_delete user_node_node user_node_select user_node_list : Query
  accounts_count accounts_insert accounts_select users_insert users_select users_update : Query

-- The rows of an association list whose value passes a test.
abbrev pub rows_where {ℓ} : {A : Type ℓ} → (A → Bool) → Dict String A → List A
rows_where p [] = []
rows_where p ((_, a) ∷ rows) = let rest = rows_where p rows in if p a then a ∷ rest else rest

abbrev pub newest_first {ℓ} : {A : Type ℓ} → List A → List A
newest_first [] = []
newest_first (a ∷ rows) = newest_first rows ++ a ∷ []

module _ (fails : Query → Bool) where
  -- `CreateService`; a row with that id is overwritten, in its place.
  unfoldable pub create_service : String → String → String → String → Db → Option Db
  create_service id name url node db =
      if fails services_insert
      then none
      else some (record db {
        services =
            insert id (record { id = id; name = name; url = url; node_id = node }) db.services;
      })

  -- `UpdateService`; with no such row it changes nothing, which is no error.
  unfoldable pub update_service : String → String → String → Db → Option Db
  update_service id name url db =
      if fails services_update
      then none
      else on_some (lookup id db.services) (some db) λ svc.
        some
          (record db { services = insert id (record svc { name = name; url = url }) db.services })

  -- `GetService`; no row is `some none`: a nil pointer, and no error.
  unfoldable pub get_service : String → Db → Option (Option Service)
  get_service id db = if fails services_select then none else some (lookup id db.services)

  -- `DeleteService`
  unfoldable pub delete_service : String → Db → Option Db
  delete_service id db =
      if fails services_delete then none else some (record db { services = erase id db.services })

  -- `ListServicesByNodeId`
  unfoldable pub list_services_by_node_id : String → Db → Option (List Service)
  list_services_by_node_id node db =
      if fails services_list
      then none
      else some (newest_first (rows_where (λ (svc : Service). svc.node_id == node) db.services))

  -- `ListAllServices`
  unfoldable pub list_all_services : Db → Option (List Service)
  list_all_services db =
      if fails services_list
      then none
      else some (newest_first (rows_where (λ (svc : Service). true) db.services))

  -- `CreateSOPProcedure`; an id that is taken is an error.
  unfoldable pub create_sop_procedure : String → String → String → String → Db → Option Db
  create_sop_procedure id node title content db =
      if fails procedures_insert || has id db.procedures
      then none
      else some (record db {
        procedures =
            insert id (record { id = id; node_id = node; title = title; content = content })
              db.procedures;
      })

  -- `GetSOPProcedure`
  unfoldable pub get_sop_procedure : String → Db → Option (Option Procedure)
  get_sop_procedure id db = if fails procedures_select then none else some (lookup id db.procedures)

  -- `ListSOPProceduresByNodeID`
  unfoldable pub list_sop_procedures_by_node_id : String → Db → Option (List Procedure)
  list_sop_procedures_by_node_id node db =
      if fails procedures_list
      then none
      else some (rows_where (λ (proc : Procedure). proc.node_id == node) db.procedures)

  -- `UpdateSOPProcedure`
  unfoldable pub update_sop_procedure : String → String → String → Db → Option Db
  update_sop_procedure id title content db =
      if fails procedures_update
      then none
      else on_some (lookup id db.procedures) (some db) λ proc. some (record db {
        procedures = insert id (record proc { title = title; content = content }) db.procedures;
      })

  -- `DeleteSOPProcedure`
  unfoldable pub delete_sop_procedure : String → Db → Option Db
  delete_sop_procedure id db =
      if fails procedures_delete
      then none
      else some (record db { procedures = erase id db.procedures })
