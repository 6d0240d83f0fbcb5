-- ===== src/Server.antt =====
-- server/server.go and server/node_store.go: the table of connected nodes, their callbacks, and the
-- in-memory store of what they said of themselves. A connection is named by a number, as is a
-- callback; `spawned` lists the callbacks that have been started with their node.
pub mod Laws
mod Tests
use unblink.Base.{
  ℕ, Bool, true, false, Option, none, some, List, [], ◌∷◌, ◌++◌, String, on_some, string_eq, map,
  if◌then◌else◌, ◌==◌,
}
use unblink.Base.Dict.{Dict, lookup, insert, erase}

pub record NodeInfo : Type 0 where
  pub node_id : String
  pub hostname : String
  pub mac_addresses : List String
  pub connected_at : ℕ
  pub last_seen : ℕ

pub record Server : Type 0 where
  pub nodes : Dict String ℕ
  pub node_store : Dict String NodeInfo
  pub ready_callbacks : List ℕ
  pub offline_callbacks : List ℕ
  pub spawned : List (ℕ × String)

-- `NewServer`
unfoldable pub new_server : Server
new_server = record {
  nodes = [];
  node_store = [];
  ready_callbacks = [];
  offline_callbacks = [];
  spawned = [];
}

-- `RegisterNodeConnection`
unfoldable pub register_node_connection : String → ℕ → Server → Server
register_node_connection node conn s = record s { nodes = insert node conn s.nodes }

-- `UnregisterNodeConnection`
unfoldable pub unregister_node_connection : String → Server → Server
unregister_node_connection node s = record s { nodes = erase node s.nodes }

-- `GetNodeConnection`
unfoldable pub get_node_connection : String → Server → Option ℕ
get_node_connection node s = lookup node s.nodes

-- `GetConnectedNodes`
unfoldable pub get_connected_nodes : Server → List String
get_connected_nodes s = map (λ e. e.0) s.nodes

-- `OnNodeReady` and `OnNodeOffline`
unfoldable pub on_node_ready : ℕ → Server → Server
on_node_ready callback s = record s { ready_callbacks = s.ready_callbacks ++ callback ∷ [] }

unfoldable pub on_node_offline : ℕ → Server → Server
on_node_offline callback s = record s { offline_callbacks = s.offline_callbacks ++ callback ∷ [] }

-- `notifyNodeReady` and `notifyNodeOffline`
unfoldable pub notify_node_ready : String → Server → Server
notify_node_ready node s = record s {
  spawned = s.spawned ++ map (λ cb. (cb, node)) s.ready_callbacks;
}

unfoldable pub notify_node_offline : String → Server → Server
notify_node_offline node s = record s {
  spawned = s.spawned ++ map (λ cb. (cb, node)) s.offline_callbacks;
}

-- `RegisterNode`; its error is always nil.
unfoldable pub register_node : ℕ → String → String → List String → Server → Server
register_node now node hostname macs s =
    let info : NodeInfo =
      on_some (lookup node s.node_store)
        (record {
          node_id = node;
          hostname = hostname;
          mac_addresses = macs;
          connected_at = now;
          last_seen = now;
        })
        λ old. record old { hostname = hostname; mac_addresses = macs; last_seen = now } in
    record s { node_store = insert node info s.node_store }

-- `GetNode`; `none` is its error.
unfoldable pub get_node : String → Server → Option NodeInfo
get_node node s = lookup node s.node_store

-- `UpdateLastSeen`; `none` is its error.
unfoldable pub update_last_seen : ℕ → String → Server → Option Server
update_last_seen now node s = on_some (lookup node s.node_store) none λ old.
    some (record s { node_store = insert node (record old { last_seen = now }) s.node_store })

-- `RemoveNode`
unfoldable pub remove_node : String → Server → Server
remove_node node s = record s { node_store = erase node s.node_store }

-- `GetAllNodes`
unfoldable pub get_all_nodes : Server → List NodeInfo
get_all_nodes s = map (λ e. e.1) s.node_store

-- What `NodeConn.Close` does with the server: nothing before the registration.
unfoldable pub disconnect : String → Server → Server
unfolding unregister_node_connection remove_node notify_node_offline
disconnect node s =
    if node == ""
    then s
    else notify_node_offline node (remove_node node (unregister_node_connection node s))

-- What a registration that is accepted does with it (`handleRegisterRequest`).
unfoldable pub connect : ℕ → ℕ → String → String → List String → Server → Server
unfolding register_node_connection register_node
connect now conn node hostname macs s =
    register_node now node hostname macs (register_node_connection node conn s)
