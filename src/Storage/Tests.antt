-- ===== src/Storage/Tests.antt =====
-- server/service/storage.go with one stored frame and one user.
use unblink.Base.{
  ◌≡◌, ◌==◌, String, false, none, ◌≤◌, ◌⊎◌, refl, true, some, [], ◌∷◌, string_eq, nat_eq,
  if◌then◌else◌, is_some,
}
use unblink.Base.Int.{pos, leb_ℤ, ltb_ℤ}
use unblink.Trim.Truncate.{codes}
use unblink.Access.{response, get_user_id}
use unblink.Storage.{
  StorageEntry, item_of, StorageItem, Env, verify_service_access, limit_for, list_storage_items,
  get_storage_item, delete_old_storage_items, authenticate_storage_request, serve_storage, missing,
  unauthorized,
}
use unblink.Storage.Access.{Granted, get_storage_item-Granted, limit_for_bounds, serve_storage-path}

abbrev entry : StorageEntry
entry = record {
  id = codes "a1";
  service_id = "cam";
  kind = "frame";
  storage_path = "frames/cam/1.jpg";
  timestamp = 7;
  file_size = 4096;
  content_type = "image/jpeg";
  metadata = "";
}

abbrev snapshot : StorageItem
snapshot = item_of entry

abbrev env : Env
env = record {
  get_service = λ id. some (some "node");
  check_node_access = λ node user. some true;
  list_items = λ id kind limit offset. some (entry ∷ [], 1);
  get_item = λ id. some entry;
  delete_old = λ id kind age. some 4;
  exists_on_disk = λ path. true;
  has_jwt_manager = true;
  bearer = λ header. "token";
  validate_token = λ token. some "ann";
}

lists : list_storage_items env (some "ann") "cam" "" (pos 20) (pos 0) ≡ response (snapshot ∷ [], 1)
unfolding list_storage_items verify_service_access get_user_id string_eq
lists = refl

shows : get_storage_item env (some "ann") (codes "a1") ≡ response snapshot
unfolding get_storage_item verify_service_access get_user_id string_eq
shows = refl

get_storage_item-Granted_example : Granted env (some "ann") "cam"
get_storage_item-Granted_example =
    get_storage_item-Granted env (some "ann") (codes "a1") snapshot shows

deletes : delete_old_storage_items env (some "ann") "cam" "" (pos 3600) ≡ response 4
unfolding delete_old_storage_items verify_service_access get_user_id string_eq
deletes = refl

limit_for_bounds_example :
    (1 ≤ limit_for (pos 5000))
    × (limit_for (pos 5000) ≤ 1000)
    × ((pos 5000 ≡ pos (limit_for (pos 5000)))
        ⊎ ((leb_ℤ (pos 5000) (pos 0) ≡ true) × (limit_for (pos 5000) ≡ 100))
        ⊎ ((ltb_ℤ (pos 1000) (pos 5000) ≡ true) × (limit_for (pos 5000) ≡ 1000)))
limit_for_bounds_example = limit_for_bounds (pos 5000)

serve_storage-path_example :
    serve_storage env "Bearer token" (codes "/storage/a1")
    ≡ (if is_some (authenticate_storage_request env "Bearer token") then missing else unauthorized)
serve_storage-path_example = serve_storage-path env "Bearer token" (codes "/storage/a1")

abbrev emptied : Env
emptied = record env { get_service = λ id. some none }

abbrev camera : String
camera = "cam"

is_named : (camera == "") ≡ false
unfolding string_eq
is_named = refl

is_ann : get_user_id (some "ann") ≡ some "ann"
unfolding get_user_id string_eq
is_ann = refl
