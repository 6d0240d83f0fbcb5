-- ===== src/Rpc/Tests.antt =====
-- server/service/service.go with one service in the table and in the registry.
use unblink.Base.{◌≡◌, refl, true, false, none, some, [], ◌∷◌, ◌⊎◌, string_eq}
use unblink.Base.Dict.{lookup, erase}
use unblink.Access.{
  refused, crashed, permission_denied, or_stop, required, check_node_access_with_context,
  get_user_id,
}
use unblink.Database
use unblink.Database.{Db, get_service}
use unblink.Database.Nodes.{check_node_access}
use unblink.Registry.{new_service_registry}
use unblink.Rpc.{World, Env, creates_service, deletes_service, perform, delete_service}
use unblink.Rpc.InStep.{InStep, perform-InStep}
use unblink.Rpc.Authorised.{Allowed, IsMissing, Stopped, perform-Allowed}

abbrev db : Db
db = record { services = []; procedures = []; user_node = []; users = []; accounts = [] }

abbrev world : World
world = record { db = db; registry = new_service_registry 0 3 true false }

abbrev env : Env
env = record {
  fails = λ q. false;
  handlers = record {
    now = 5;
    can_start = λ h. true;
    idle_duration = λ h. none;
    is_running = λ h. true;
  };
  user = some "ann";
}

world-InStep : InStep world
unfolding lookup new_service_registry
world-InStep = record { rows = λ id. refl; keys = λ id svc e. cc }

perform-InStep_example :
    InStep (perform env (creates_service "s1" "door" "rtsp://10.0.0.2" "node") world).0
perform-InStep_example =
    perform-InStep env (creates_service "s1" "door" "rtsp://10.0.0.2" "node") world world-InStep

-- A service of bob's node, which ann asks to delete.
abbrev of_bob : World
of_bob = record world {
  db = record db {
    services =
        ("s1", record { id = "s1"; name = "door"; url = "rtsp://10.0.0.2"; node_id = "node" }) ∷ [];
    user_node = ("bob", "node") ∷ [];
  };
}

perform-Allowed_example :
    Allowed env of_bob (deletes_service "s1")
    ⊎ (((perform env (deletes_service "s1") of_bob).0 ≡ of_bob)
        × Stopped
            (IsMissing (deletes_service "s1") of_bob)
            (perform env (deletes_service "s1") of_bob).1)
perform-Allowed_example = perform-Allowed env (deletes_service "s1") of_bob

-- She is refused.
denied : perform env (deletes_service "s1") of_bob ≡ (of_bob, refused permission_denied)
unfolding perform delete_service or_stop required get_service check_node_access_with_context
    get_user_id check_node_access lookup string_eq
denied = refl

-- Bob is not.
deleted :
    (perform (record env { user = some "bob" }) (deletes_service "s1") of_bob).0.db.services ≡ []
unfolding perform delete_service or_stop required get_service check_node_access_with_context
    get_user_id check_node_access Database.delete_service lookup erase string_eq
deleted = refl

-- An id that has no row, and the nil pointer.
missing : perform env (deletes_service "s9") of_bob ≡ (of_bob, crashed)
unfolding perform delete_service or_stop required get_service lookup string_eq
missing = refl
