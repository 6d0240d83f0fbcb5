-- ===== src/Server/Laws.antt =====
-- server/server.go and server/node_store.go: which connection the table of nodes holds, and what the
-- store remembers.
use unblink.Base.{
  ℕ, ◌≡◌, ◌≢◌, Option, none, some, List, ◌++◌, String, if◌then◌else◌, string_eq, ◌==◌, arith, map,
}
use unblink.Base.Dict.{lookup, insert, lookup-insert, lookup-erase}
use unblink.Server.{
  NodeInfo, Server, connect, disconnect, get_node, get_node_connection, register_node_connection,
  register_node, notify_node_offline, remove_node, unregister_node_connection,
}

-- What the store holds of a node that has connected.
abbrev pub remembered : ℕ → String → String → List String → Option NodeInfo → NodeInfo
remembered now node hostname macs none = record {
  node_id = node;
  hostname = hostname;
  mac_addresses = macs;
  connected_at = now;
  last_seen = now;
}
remembered now node hostname macs (some old) = record old {
  hostname = hostname;
  mac_addresses = macs;
  last_seen = now;
}

-- An accepted registration writes the table and the store for its own node only: the table holds
-- the new connection, and the store keeps the time of the first connection of a node that it knows.
pub connect-lookup :
    (now conn : ℕ) (node other hostname : String) (macs : List String) (s : Server)
    → let q = connect now conn node hostname macs s in
      (get_node_connection other q
        ≡ (if other == node then some conn else get_node_connection other s))
      × (get_node other q ≡ (
          if other == node
          then some (remembered now node hostname macs (get_node node s))
          else get_node other s))
unfolding connect get_node_connection get_node register_node register_node_connection
connect-lookup now conn node other hostname macs s = (
  lookup-insert other node conn s.nodes,
  ground (
    arith,
    lookup-insert other node (remembered now node hostname macs (lookup node s.node_store))
        s.node_store,
  ),
)

-- A node connects, and connects again before its first connection has ended. When then the first
-- connection ends, the second, which the table holds until then, is taken out of the table and of the
-- store though it goes on, and the callbacks for offline nodes are started; when at last the second
-- ends, they are started once more.
pub connect-disconnect :
    (now later first second : ℕ) (node hostname : String) (macs : List String) (s : Server)
    → node ≢ ""
    → let both = connect later second node hostname macs (connect now first node hostname macs s) in
      let q = disconnect node both in
      let calls = map {B = ℕ × String} (λ cb. (cb, node)) s.offline_callbacks in
      (get_node_connection node both ≡ some second)
      × (get_node_connection node q ≡ none)
      × (get_node node q ≡ none)
      × (q.spawned ≡ s.spawned ++ calls)
      × ((disconnect node q).spawned ≡ (s.spawned ++ calls) ++ calls)
unfolding connect disconnect get_node_connection get_node register_node register_node_connection
    unregister_node_connection remove_node notify_node_offline
connect-disconnect now later first second node hostname macs s h =
    let info = remembered now node hostname macs (lookup node s.node_store) in
    let store = insert node info s.node_store in
    let again = remembered later node hostname macs (lookup node store) in
    let table = insert node first s.nodes in
    (
      ground (arith, lookup-insert node node second table),
      ground (arith, h, lookup-erase node node (insert node second table)),
      ground (arith, h, lookup-erase node node (insert node again store)),
      ground (arith, h),
      ground (arith, h),
    )
