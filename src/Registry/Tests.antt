-- ===== src/Registry/Tests.antt =====
-- server/service/registry.go on concrete registries: one node, one camera.
use unblink.Base.{◌≡◌, refl, true, false, none, some, List, [], ◌∷◌, string_eq, arith}
use unblink.Base.Dict.{lookup}
use unblink.Registry.{
  Service, Handler, ServiceState, ReconnectRequest, Registry, Env, new_service_registry,
  handler_for,
}
use unblink.Registry.Operations.{set_node_online, set_node_offline, bring_all_online}
use unblink.Registry.Monitor.{process_request}
use unblink.Registry.Handlers.{handler_of, IsHeld}
use unblink.Registry.Tidy.{Tidy}
use unblink.Registry.Tidy.Calls.{
  adds, loads, node_online, perform, IsFresh, perform-Tidy, new_service_registry-Tidy,
}
use unblink.Registry.Index.Calls.{Agrees, perform-Agrees}
use unblink.Registry.Retries.{IsBounded}
use unblink.Registry.Reconnection.{Reconnects, reconnected_leaks}

abbrev env : Env
env = record {
  now = 1000;
  can_start = λ h. true;
  idle_duration = λ h. some 90;
  is_running = λ h. true;
}

abbrev empty : Registry
empty = new_service_registry 30 3 true false

abbrev camera : Service
camera = record { id = "cam"; name = "door"; url = "rtsp://10.0.0.2/1"; node_id = "node" }

abbrev connected : Registry
connected = perform env (node_online "node") empty

connected-Tidy : Tidy connected
connected-Tidy =
    perform-Tidy env (node_online "node") empty tt (new_service_registry-Tidy 30 3 true false)

connected_fresh : lookup "cam" connected.services ≡ none
unfolding perform set_node_online bring_all_online new_service_registry lookup
connected_fresh = refl

-- Two rows for the node that is connected.
abbrev rows : List Service
rows =
    camera ∷ record { id = "cam2"; name = "yard"; url = "rtsp://10.0.0.3/1"; node_id = "node" } ∷ []

connected_new : IsFresh (loads ("node" ∷ []) (some rows)) connected
unfolding perform set_node_online bring_all_online new_service_registry lookup string_eq
connected_new = (refl, (refl, tt), (refl, tt, tt))

perform-Tidy_example : Tidy (perform env (loads ("node" ∷ []) (some rows)) connected)
perform-Tidy_example =
    perform-Tidy env (loads ("node" ∷ []) (some rows)) connected connected_new connected-Tidy

empty-Agrees : Agrees empty
unfolding new_service_registry lookup
empty-Agrees = (λ id s e. cc, λ node id. refl)

perform-Agrees_example : Agrees (perform env (adds camera) connected)
perform-Agrees_example =
    perform-Agrees env (adds camera) connected connected_fresh
      (perform-Agrees env (node_online "node") empty tt empty-Agrees)

abbrev state : ServiceState
state = record {
  id = "cam";
  name = "door";
  url = "rtsp://10.0.0.2/1";
  node_id = "node";
  online = false;
  handler = none;
  retry_count = 1;
  last_retry_time = some 900;
  successful_since = none;
}

-- The camera has been stopped and waits to be reconnected.
abbrev waiting : Registry
waiting = record empty {
  services = ("cam", state) ∷ [];
  nodes = ("node", ("cam", true) ∷ []) ∷ [];
  online_nodes = ("node", true) ∷ [];
  next_handler = 7;
}

abbrev request : ReconnectRequest
request = record { service_id = "cam"; backoff = 2000000000 }

waiting-IsBounded : IsBounded waiting
unfolding new_service_registry lookup
waiting-IsBounded = record { retries = λ id s e. ground (arith, e); queue = omega arith }

waiting-Reconnects : Reconnects env request waiting state
unfolding new_service_registry lookup string_eq
waiting-Reconnects = record {
  known = refl;
  keyed = refl;
  offline = refl;
  node_up = refl;
  wanted = refl;
  starts = refl;
}

abbrev reconnected : Registry
reconnected = process_request env request waiting

abbrev first : Handler
first = handler_for waiting state

abbrev second : Handler
second = handler_for reconnected state

abbrev returned : Registry
returned = set_node_online env "node" (set_node_offline "node" reconnected)

reconnected_leaks_example :
    (returned.live ≡ second ∷ first ∷ waiting.live)
    × (handler_of "cam" returned.services ≡ some second)
    × ¬ IsHeld returned.services first
unfolding new_service_registry lookup string_eq
reconnected_leaks_example =
    reconnected_leaks env env request waiting state waiting-Reconnects refl refl
