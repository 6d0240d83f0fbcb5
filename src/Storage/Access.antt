-- ===== src/Storage/Access.antt =====
-- server/service/storage.go: who gets what.
use unblink.Base.{
  ◌==◌, ℕ, ◌≡◌, refl, ◌≤◌, true, false, not, ◌||◌, Option, none, some, List, [], ◌∷◌, String,
  string_eq, nat_eq, if◌then◌else◌, length, take, ltb, arith, length-take, is_some, Option-cases,
  Bool-cases, inl, inr, ◌⊎◌,
}
use mathlib.Core.Path.{subst}
use unblink.Base.Int.{ℤ, pos, negsuc, leb_ℤ, ltb_ℤ}
use unblink.Trim.Truncate.{codes}
use unblink.Access.{crashed, response, get_user_id, Response-cases}
use unblink.Storage.{
  StorageItem, item_of, Env, verify_service_access, limit_for, list_storage_items, get_storage_item,
  delete_old_storage_items, authenticate_storage_request, unauthorized, missing, equal_bytes,
  serve_storage,
}

-- A user is known and may see the node of the service.
pub record Granted (env : Env) (user : Option String) (service_id : String) : Type 0 where
  pub name : String
  pub node : String
  pub known : get_user_id user ≡ some name
  pub served_by : env.get_service service_id ≡ some (some node)
  pub access : env.check_node_access node name ≡ some true

verify_service_access-Granted :
    (env : Env) (user : Option String) (service_id : String)
    → verify_service_access env user service_id ≡ response tt
    → Granted env user service_id
unfolding verify_service_access
verify_service_access-Granted env user service_id h = elim (Option-cases (get_user_id user)) [
  | inl unknown ↦ ground (arith, h, unknown)
  | inr (u, is_u) ↦ elim (Option-cases (env.get_service service_id)) [
    | inl gone ↦ ground (arith, h, is_u, gone)
    | inr (none, here) ↦ ground (arith, h, is_u, here)
    | inr (some node, here) ↦ elim (Option-cases (env.check_node_access node u)) [
      | inl error ↦ ground (arith, h, is_u, here, error)
      | inr (true, access) ↦ record {
        name = u;
        node = node;
        known = is_u;
        served_by = here;
        access = access;
      }
      | inr (false, access) ↦ ground (arith, h, is_u, here, access)
    ]
  ]
]

-- Whoever gets the items of a service listed is a known user who may see the node of the service.
pub list_storage_items-Granted :
    (env : Env) (user : Option String) (service_id kind : String) (limit offset : ℤ)
    (page : List StorageItem × ℕ)
    → list_storage_items env user service_id kind limit offset ≡ response page
    → Granted env user service_id
unfolding list_storage_items
list_storage_items-Granted env user service_id kind limit offset page h =
    elim (Response-cases (verify_service_access env user service_id)) [
      | inl granted ↦ verify_service_access-Granted env user service_id granted
      | inr (inl crash) ↦ ground (arith, h, crash)
      | inr (inr (code, denied)) ↦ ground (arith, h, denied)
    ]

-- Whoever gets an item shown is a known user who may see the node of the item's own service.
pub get_storage_item-Granted :
    (env : Env) (user : Option String) (item_id : List ℕ) (item : StorageItem)
    → get_storage_item env user item_id ≡ response item
    → Granted env user item.service_id
unfolding get_storage_item
get_storage_item-Granted env user item_id item h = elim (Option-cases (env.get_item item_id)) [
  | inl gone ↦ ground (arith, h, gone)
  | inr (found, here) ↦ elim (Response-cases (verify_service_access env user found.service_id)) [
    | inl granted ↦
        let same : item_of found ≡ item = ground (arith, h, here, granted) in
        subst (λ (i : StorageItem). Granted env user i.service_id) same
          (verify_service_access-Granted env user found.service_id granted)
    | inr (inl crash) ↦ ground (arith, h, here, crash)
    | inr (inr (code, denied)) ↦ ground (arith, h, here, denied)
  ]
]

-- Whoever gets old items of a service deleted is a known user who may see the node of the service,
-- and the age that was given is positive.
pub delete_old_storage_items-Granted :
    (env : Env) (user : Option String) (service_id kind : String) (older_than : ℤ) (count : ℕ)
    → delete_old_storage_items env user service_id kind older_than ≡ response count
    → Granted env user service_id × (ltb_ℤ (pos 0) older_than ≡ true)
unfolding delete_old_storage_items
delete_old_storage_items-Granted env user service_id kind older_than count h =
    elim (Response-cases (verify_service_access env user service_id)) [
      | inl granted ↦
          (verify_service_access-Granted env user service_id granted, positive older_than granted h)
      | inr (inl crash) ↦ ground (arith, h, crash)
      | inr (inr (code, denied)) ↦ ground (arith, h, denied)
    ]
  where
    positive :
        (age : ℤ)
        → verify_service_access env user service_id ≡ response tt
        → delete_old_storage_items env user service_id kind age ≡ response count
        → ltb_ℤ (pos 0) age ≡ true
    positive (pos n) granted h = ground (arith, h, granted)
    positive (negsuc n) granted h = ground (arith, h, granted)

-- The number of items asked of the database is at least 1 and at most 1000: the number of the
-- request, or 100 where that is not positive, or 1000 where it is more than that.
pub limit_for_bounds :
    (limit : ℤ)
    → (1 ≤ limit_for limit)
      × (limit_for limit ≤ 1000)
      × ((limit ≡ pos (limit_for limit))
          ⊎ ((leb_ℤ limit (pos 0) ≡ true) × (limit_for limit ≡ 100))
          ⊎ ((ltb_ℤ (pos 1000) limit ≡ true) × (limit_for limit ≡ 1000)))
unfolding limit_for
limit_for_bounds (pos n) = ground arith
limit_for_bounds (negsuc n) = ground arith

equal_bytes-length : (xs ys : List ℕ) → equal_bytes xs ys ≡ true → length xs ≡ length ys
equal_bytes-length [] [] h = refl
equal_bytes-length [] (y ∷ ys) h = cc
equal_bytes-length (x ∷ xs) [] h = cc
equal_bytes-length (x ∷ xs) (y ∷ ys) h = ground (arith, h, equal_bytes-length xs ys)

ten_differ :
    (path : List ℕ)
    → (ltb (length path) 10 || not (equal_bytes (take 10 path) (codes "/storage/"))) ≡ true
ten_differ path = elim (Bool-cases (equal_bytes (take 10 path) (codes "/storage/"))) [
  | inr differ ↦ ground (arith, differ)
  | inl same ↦
      let long : length (take 10 path) ≡ 9 =
        equal_bytes-length (take 10 path) (codes "/storage/") same in
      ground (arith, long, length-take 10 path)
]

-- No request is ever answered with a file: the first ten bytes of the path are compared with a
-- prefix of nine, so that a known user gets the answer for a missing file, whatever is stored, and
-- an unknown one is refused.
pub serve_storage-path :
    (env : Env) (header : String) (path : List ℕ)
    → serve_storage env header path
      ≡ (if is_some (authenticate_storage_request env header) then missing else unauthorized)
unfolding serve_storage
serve_storage-path env header path = ground (arith, ten_differ path)

-- A known user who asks for the items of a service that is not in the table makes the handler
-- follow a nil pointer.
pub list_storage_items-unknown :
    (env : Env) (user : Option String) (name service_id kind : String) (limit offset : ℤ)
    → (service_id == "") ≡ false
    → get_user_id user ≡ some name
    → env.get_service service_id ≡ some none
    → list_storage_items env user service_id kind limit offset ≡ crashed
unfolding list_storage_items verify_service_access
list_storage_items-unknown env user name service_id kind limit offset named known gone =
    ground (arith, named, known, gone)
