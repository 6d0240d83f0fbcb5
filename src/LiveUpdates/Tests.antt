-- ===== src/LiveUpdates/Tests.antt =====
-- server/service/live_update.go: a stream of one node's status, with another stream beside it.
use unblink.Base.{
  ◌≡◌, refl, true, false, some, List, [], ◌∷◌, ◌++◌, map, String, string_eq, nat_eq, ◌==◌,
  if◌then◌else◌,
}
use unblink.Base.Dict.{lookup, insert, erase}
use unblink.Access.{response, get_user_id, check_node_access_with_context}
use unblink.NodeConn.Channels.{close_channel, try_send}
use unblink.NodeConn.Safety.{IsOpen}
use unblink.LiveUpdates.{
  LiveUpdateBroadcaster, new_live_update_broadcaster, has_sub, subs_of, without_sub, subscribe,
  unsubscribe, next, beat, done, meanwhile, broadcasts, joins, leaves, by_other, Turn, Looped,
  heartbeat, node_status_changed, stream_loop, take_update, broadcast_node_status, send_users,
  send_each, stream_live_updates, check_nodes,
}
use unblink.LiveUpdates.Ends.{stream_live_updates-unsubscribes}

abbrev turns : List Turn
turns =
    beat true
    ∷ meanwhile (broadcasts "node" true)
    ∷ next true
    ∷ meanwhile (joins "bob" [])
    ∷ meanwhile (leaves (record { id = 1; user_id = "bob"; node_ids = [] }))
    ∷ done
    ∷ []

abbrev looped : Looped
looped = (
  record {
    subscriptions = ("ann", record { id = 0; user_id = "ann"; node_ids = "node" ∷ [] } ∷ []) ∷ [];
    streams =
        (0, record { items = []; closed = false }) ∷ (1, record { items = []; closed = true }) ∷ [];
    next = 2;
  },
  heartbeat ∷ node_status_changed "node" true ∷ [],
  true,
)

returns :
    stream_loop turns 0 (subscribe "ann" ("node" ∷ []) new_live_update_broadcaster) ≡ some looped
unfolding stream_loop subscribe new_live_update_broadcaster by_other broadcast_node_status
    send_users send_each try_send take_update unsubscribe close_channel lookup insert erase
    string_eq nat_eq
returns = refl

known : get_user_id (some "ann") ≡ some "ann"
unfolding get_user_id string_eq
known = refl

granted : check_nodes (λ node user. some true) (some "ann") ("node" ∷ []) ≡ response tt
unfolding check_nodes check_node_access_with_context get_user_id string_eq
granted = refl

stream_live_updates-unsubscribes_example :
    (last : LiveUpdateBroadcaster) × (stream_live_updates
        (λ node user. some true)
        (λ node. true)
        1
        (some "ann")
        ("node" ∷ [])
        turns
        new_live_update_broadcaster
      ≡ some (
        last,
        response (map (λ node. node_status_changed node true) ("node" ∷ []) ++ looped.1, looped.2),
      ))
    × (has_sub 0 (subs_of "ann" looped.0) ≡ true)
    × IsOpen 0 looped.0.streams
    × (has_sub 0 (subs_of "ann" last) ≡ false)
    × ((u : String)
        → subs_of u last
          ≡ (if u == "ann" then without_sub 0 (subs_of u looped.0) else subs_of u looped.0))
unfolding new_live_update_broadcaster nat_eq
stream_live_updates-unsubscribes_example =
    stream_live_updates-unsubscribes (λ node user. some true) (λ node. true) 1 (some "ann") "ann"
      ("node" ∷ []) turns new_live_update_broadcaster looped known granted refl
      (tt, (tt, (tt, (tt, (refl, (tt, tt)))))) returns
