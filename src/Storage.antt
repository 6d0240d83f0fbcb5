-- ===== src/Storage.antt =====
-- server/service/storage.go: the stored frames and clips, listed, looked up, deleted and served to
-- the users who may see them. A text that is taken apart (a path, the id of an item) is a list of
-- bytes. The database, the check of tokens and the disk are parameters.
mod Tests
pub mod Access
use unblink.Base.{
  ℕ, Bool, true, false, not, ◌||◌, Option, none, some, List, [], ◌∷◌, String, string_eq, nat_eq,
  ◌==◌, if◌then◌else◌, length, take, drop, ltb, is_empty, map,
}
use unblink.Base.Int.{ℤ, pos, leb_ℤ, ltb_ℤ, pos_part}
use unblink.Access.{
  Code, unauthenticated, not_found, internal, permission_denied, invalid_argument, Response,
  refused, crashed, response, or_refused, or_code, or_crash, get_user_id,
}
use unblink.Trim.Truncate.{codes, starts_with}

-- `database.StorageEntry`
pub record StorageEntry : Type 0 where
  pub id : List ℕ
  pub service_id : String
  pub kind : String
  pub storage_path : String
  pub timestamp : ℕ
  pub file_size : ℕ
  pub content_type : String
  pub metadata : String

-- `servicev1.StorageItem`, what a client sees of an entry.
pub record StorageItem : Type 0 where
  pub id : List ℕ
  pub service_id : String
  pub kind : String
  pub size : ℕ
  pub timestamp : ℕ
  pub metadata : String

abbrev pub item_of : StorageEntry → StorageItem
item_of e = record {
  id = e.id;
  service_id = e.service_id;
  kind = e.kind;
  size = e.file_size;
  timestamp = e.timestamp;
  metadata = e.metadata;
}

-- `none` is an error of the query; of `check_node_access`, the query's answer stands inside.
pub record Env : Type 0 where
  -- The node of the service; `some none`: there is no such row, and the pointer is nil.
  pub get_service : String → Option (Option String)
  pub check_node_access : String → String → Option Bool
  pub list_items : String → String → ℕ → ℤ → Option (List StorageEntry × ℕ)
  pub get_item : List ℕ → Option StorageEntry
  pub delete_old : String → String → ℕ → Option ℕ
  pub exists_on_disk : String → Bool
  pub has_jwt_manager : Bool
  pub bearer : String → String  -- without "Bearer " and without spaces around
  pub validate_token : String → Option String  -- the user of the token

-- `verifyServiceAccess`, with what the context holds for the user.
unfoldable pub verify_service_access : Env → Option String → String → Response (Unit {0})
verify_service_access env user service_id = or_code (get_user_id user) unauthenticated λ u.
    or_code (env.get_service service_id) not_found λ svc. or_crash svc λ node.
      or_code (env.check_node_access node u) internal
        (λ granted. if granted then response tt else refused permission_denied)

-- The default and the bound of the number of items.
unfoldable pub limit_for : ℤ → ℕ
limit_for limit =
    if leb_ℤ limit (pos 0) then 100 else if ltb_ℤ (pos 1000) limit then 1000 else pos_part limit

-- `ListStorageItems`
unfoldable pub list_storage_items :
    Env → Option String → String → String → ℤ → ℤ → Response (List StorageItem × ℕ)
unfolding limit_for
list_storage_items env user service_id kind limit offset =
    if service_id == ""
    then refused invalid_argument
    else or_refused (verify_service_access env user service_id) λ _.
      or_code (env.list_items service_id kind (limit_for limit) offset) internal
        (λ page. response (map item_of page.0, page.1))

-- `GetStorageItem`
unfoldable pub get_storage_item : Env → Option String → List ℕ → Response StorageItem
get_storage_item env user item_id =
    if is_empty item_id
    then refused invalid_argument
    else or_code (env.get_item item_id) not_found λ item.
      or_refused (verify_service_access env user item.service_id) (λ _.
        if env.exists_on_disk item.storage_path then response (item_of item) else refused not_found)

-- `DeleteOldStorageItems`
unfoldable pub delete_old_storage_items : Env → Option String → String → String → ℤ → Response ℕ
delete_old_storage_items env user service_id kind older_than =
    if service_id == ""
    then refused invalid_argument
    else or_refused (verify_service_access env user service_id) λ _.
      if leb_ℤ older_than (pos 0)
      then refused invalid_argument
      else or_code (env.delete_old service_id kind (pos_part older_than)) internal
          (λ count. response count)

-- `authenticateStorageRequest`, with the Authorization header; `none` is an error.
unfoldable pub authenticate_storage_request : Env → String → Option String
authenticate_storage_request env header =
    if not env.has_jwt_manager
    then none
    else if header == ""
    then none
    else if env.bearer header == ""
    then none
    else env.validate_token (env.bearer header)

pub data Served : Type 0 where
  unauthorized missing forbidden crash : Served
  file : StorageEntry → Served

abbrev pub equal_bytes : List ℕ → List ℕ → Bool
equal_bytes [] [] = true
equal_bytes [] (y ∷ ys) = false
equal_bytes (x ∷ xs) [] = false
equal_bytes (x ∷ xs) (y ∷ ys) = let rest = equal_bytes xs ys in if x == y then rest else false

-- The lookups of `serveStorage` for an item.
unfoldable pub serve_item : Env → String → List ℕ → Served
serve_item env user item_id = elim (env.get_item item_id) [
  | none ↦ missing
  | some item ↦ elim (env.get_service item.service_id) [
    | none ↦ forbidden
    | some none ↦ crash
    | some (some node) ↦ elim (env.check_node_access node user) [
      | none ↦ forbidden
      | some false ↦ forbidden
      | some true ↦ if env.exists_on_disk item.storage_path then file item else missing
    ]
  ]
]

-- `serveStorage`, with the Authorization header and the path of the URL.
unfoldable pub serve_storage : Env → String → List ℕ → Served
serve_storage env header path = elim (authenticate_storage_request env header) [
  | none ↦ unauthorized
  | some user ↦
      if ltb (length path) 10 || not (equal_bytes (take 10 path) (codes "/storage/"))
      then missing
      else if is_empty (drop 10 path)
      then missing
      else serve_item env user (drop 10 path)
]
