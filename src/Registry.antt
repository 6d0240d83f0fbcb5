-- ===== src/Registry.antt =====
-- server/service/registry.go: the services, the nodes that they belong to, and their handlers. Every
-- operation holds the registry's lock, so each is one step. Times and durations are in nanoseconds.
-- A handler is an object with a number of its own; `live` holds those that have been started and
-- not stopped, also when no state refers to them any more.
pub mod Operations
pub mod Monitor
pub mod Reconnection
pub mod Retries
pub mod Index
pub mod Tidy
pub mod Handlers
pub mod Lookup
mod Tests
use unblink.Base.{
  value_or, ℕ, suc, ◌+◌, ◌*◌, Bool, true, false, not, ◌||◌, Option, none, some, List, [], ◌∷◌,
  String, eqb, if◌then◌else◌, string_eq,
}
use unblink.Base.Dict.{Dict, lookup, insert, erase}

-- `servicev1.Service`
pub record Service : Type 0 where
  pub id : String
  pub name : String
  pub url : String
  pub node_id : String

-- What a handler is configured with, and its number.
pub record Handler : Type 0 where
  pub number : ℕ
  pub service_id : String
  pub url : String
  pub node_id : String

pub record ServiceState : Type 0 where
  pub id : String
  pub name : String
  pub url : String
  pub node_id : String
  pub online : Bool
  pub handler : Option Handler
  pub retry_count : ℕ
  pub last_retry_time : Option ℕ
  pub successful_since : Option ℕ

pub record ReconnectRequest : Type 0 where
  pub service_id : String
  pub backoff : ℕ

pub record Registry : Type 0 where
  pub enable_indexing : Bool
  pub enable_recording : Bool
  pub idle_timeout : ℕ
  pub max_retries : ℕ
  pub services : Dict String ServiceState
  pub nodes : Dict String (Dict String Bool)
  pub online_nodes : Dict String Bool
  pub reconnect_queue : List ReconnectRequest
  pub live : List Handler
  pub next_handler : ℕ

-- The clock, whether `handler.Start()` succeeds, what the bridge of a handler says of its idle time
-- (`none`: it has no bridge), and `IsRunning`.
pub record Env : Type 0 where
  pub now : ℕ
  pub can_start : Handler → Bool
  pub idle_duration : Handler → Option ℕ
  pub is_running : Handler → Bool

-- `NewServiceRegistry`
unfoldable pub new_service_registry : ℕ → ℕ → Bool → Bool → Registry
new_service_registry idle_timeout max_retries enable_indexing enable_recording = record {
  enable_indexing = enable_indexing;
  enable_recording = enable_recording;
  idle_timeout = idle_timeout;
  max_retries = max_retries;
  services = [];
  nodes = [];
  online_nodes = [];
  reconnect_queue = [];
  live = [];
  next_handler = 0;
}

-- `IsNodeOnline`
abbrev pub is_node_online : String → Registry → Bool
is_node_online node r = value_or false (lookup node r.online_nodes)

-- Writing through the pointer that the services map holds.
abbrev pub put_state : Registry → ServiceState → Registry
put_state r s = record r { services = insert s.id s r.services }

abbrev pub handler_for : Registry → ServiceState → Handler
handler_for r s = record {
  number = r.next_handler;
  service_id = s.id;
  url = s.url;
  node_id = s.node_id;
}

-- `startHandlerLocked`. It puts a new handler in the state's place for one, whatever stands there.
unfoldable pub start_handler : Env → Registry → ServiceState → Registry
start_handler env r s =
    let h = handler_for r s in
    if not (r.enable_indexing || r.enable_recording)
    then r
    else if env.can_start h
    then put_state (record r { live = h ∷ r.live; next_handler = suc r.next_handler })
        (record s { handler = some h; successful_since = some env.now })
    else record r { next_handler = suc r.next_handler }

abbrev pub remove_handler : Handler → List Handler → List Handler
remove_handler h [] = []
remove_handler h (k ∷ ks) =
    let rest = remove_handler h ks in if eqb h.number k.number then rest else k ∷ rest

abbrev pub live_without : Option Handler → List Handler → List Handler
live_without none live = live
live_without (some h) live = remove_handler h live

abbrev pub stopped : ServiceState → ServiceState
stopped s = record s { handler = none; online = false }

-- `stopHandlerLocked`
unfoldable pub stop_handler : Registry → ServiceState → Registry
stop_handler r s = put_state (record r { live = live_without s.handler r.live }) (stopped s)
