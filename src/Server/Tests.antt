-- ===== src/Server/Tests.antt =====
-- server/server.go with one node that connects twice.
use unblink.Base.{◌≢◌, ap, Bool, true, false, ◌≡◌, none, some, [], ◌++◌, map, String, string_eq}
use unblink.Server.{
  Server, new_server, on_node_offline, connect, disconnect, get_node, get_node_connection,
}
use unblink.Server.Laws.{connect-disconnect}

abbrev node : String
node = "node"

-- One callback for offline nodes.
abbrev watched : Server
watched = on_node_offline 5 new_server

abbrev is_blank : String → Bool
is_blank String.[] = true
is_blank (String.◌∷◌ c s) = false

node_named : node ≢ ""
node_named e = let blank : false ≡ true = ap is_blank e in cc

abbrev both : Server
both = connect 20 2 node "shed" [] (connect 10 1 node "shed" [] watched)

connect-disconnect_example :
    (get_node_connection node both ≡ some 2)
    × (get_node_connection node (disconnect node both) ≡ none)
    × (get_node node (disconnect node both) ≡ none)
    × ((disconnect node both).spawned
        ≡ watched.spawned ++ map (λ cb. (cb, node)) watched.offline_callbacks)
    × ((disconnect node (disconnect node both)).spawned
        ≡ (watched.spawned ++ map (λ cb. (cb, node)) watched.offline_callbacks)
          ++ map (λ cb. (cb, node)) watched.offline_callbacks)
connect-disconnect_example = connect-disconnect 10 20 1 2 node "shed" [] watched node_named
