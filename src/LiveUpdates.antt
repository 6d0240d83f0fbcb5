-- ===== src/LiveUpdates.antt =====
-- server/service/live_update_broadcaster.go and live_update.go: the subscriptions of users to the
-- status of nodes, and the stream of one client. A subscription is known by the number of its
-- stream; a set of nodes is a list. `none` is a panic.
pub mod Streams
pub mod Joined
pub mod Ends
mod Tests
use unblink.Base.{
  ℕ, suc, Bool, true, false, Option, none, some, List, [], ◌∷◌, ◌++◌, ◌||◌, not, Eq, ◌==◌, nat_eq,
  string_eq, String, if◌then◌else◌, on_some, value_or, is_empty, contains, map, take, ltb, length,
}
use unblink.Base.Dict.{Dict, lookup, insert, erase}
use unblink.Access.{
  Response, refused, crashed, response, unauthenticated, get_user_id,
  check_node_access_with_context,
}
use unblink.NodeConn.Channels.{Channel, empty_channel, Heap, close_channel, try_send}

-- `StreamLiveUpdatesResponse`
pub data Update : Type 0 where
  node_status_changed : String → Bool → Update
  heartbeat : Update

pub record LiveUpdateSubscription : Type 0 where
  pub id : ℕ
  pub user_id : String
  pub node_ids : List String

pub record LiveUpdateBroadcaster : Type 0 where
  pub subscriptions : Dict String (List LiveUpdateSubscription)
  pub streams : Heap Update
  pub next : ℕ

-- `NewLiveUpdateBroadcaster`
unfoldable pub new_live_update_broadcaster : LiveUpdateBroadcaster
new_live_update_broadcaster = record { subscriptions = []; streams = []; next = 0 }

-- `make(chan *servicev1.StreamLiveUpdatesResponse, 32)`
abbrev pub update_capacity : ℕ
update_capacity = 32

-- `b.subscriptions[userID]`
abbrev pub subs_of : String → LiveUpdateBroadcaster → List LiveUpdateSubscription
subs_of user b = value_or [] (lookup user b.subscriptions)

abbrev pub sub_for : String → List String → LiveUpdateBroadcaster → LiveUpdateSubscription
sub_for user nodes b = record { id = b.next; user_id = user; node_ids = nodes }

-- `Subscribe`; the subscription is `sub_for user nodes b`.
unfoldable pub subscribe : String → List String → LiveUpdateBroadcaster → LiveUpdateBroadcaster
subscribe user nodes b = record {
  subscriptions = insert user (subs_of user b ++ sub_for user nodes b ∷ []) b.subscriptions;
  streams = insert b.next empty_channel b.streams;
  next = suc b.next;
}

abbrev pub has_sub : ℕ → List LiveUpdateSubscription → Bool
has_sub k [] = false
has_sub k (s ∷ subs) = k == s.id || has_sub k subs

-- `delete(userSubs, sub)`
abbrev pub without_sub : ℕ → List LiveUpdateSubscription → List LiveUpdateSubscription
without_sub k [] = []
without_sub k (s ∷ subs) = let rest = without_sub k subs in if k == s.id then rest else s ∷ rest

-- `Unsubscribe`
unfoldable pub unsubscribe :
    LiveUpdateSubscription → LiveUpdateBroadcaster → Option LiveUpdateBroadcaster
unsubscribe sub b =
    if not (has_sub sub.id (subs_of sub.user_id b))
    then some b
    else let rest = without_sub sub.id (subs_of sub.user_id b) in
      on_some (close_channel sub.id b.streams) none λ streams. some (record b {
        subscriptions =
            if is_empty rest
            then erase sub.user_id b.subscriptions
            else insert sub.user_id rest b.subscriptions;
        streams = streams;
      })

-- The filter on the node.
abbrev pub wants : String → LiveUpdateSubscription → Bool
wants node sub = is_empty sub.node_ids || contains sub.node_ids node

unfoldable pub send_each :
    String → Update → List LiveUpdateSubscription → Heap Update → Option (Heap Update)
send_each node update [] h = some h
send_each node update (s ∷ subs) h =
    on_some (if wants node s then try_send update_capacity s.id update h else some h) none
      (λ h'. send_each node update subs h')

unfoldable pub send_users :
    String → Update → Dict String (List LiveUpdateSubscription) → Heap Update → Option (Heap Update)
send_users node update [] h = some h
send_users node update ((_, subs) ∷ d) h =
    on_some (send_each node update subs h) none (λ h'. send_users node update d h')

-- `BroadcastNodeStatus`
unfoldable pub broadcast_node_status :
    String → Bool → LiveUpdateBroadcaster → Option LiveUpdateBroadcaster
broadcast_node_status node online b =
    on_some (send_users node (node_status_changed node online) b.subscriptions b.streams) none
      (λ streams. some (record b { streams = streams }))

-- A receive from the stream, without the wait.
unfoldable pub take_update : ℕ → LiveUpdateBroadcaster → LiveUpdateBroadcaster × Option Update
take_update k b =
    on_some (lookup k b.streams) (b, none)
      λ ch. elim ch.items [
        | [] ↦ (b, none)
        | update ∷ rest ↦
            (record b { streams = insert k (record ch { items = rest }) b.streams }, some update)
      ]

-- What other goroutines do to the broadcaster: a node's status, a stream that begins, one that ends.
pub data Other : Type 0 where
  broadcasts : String → Bool → Other
  joins : String → List String → Other
  leaves : LiveUpdateSubscription → Other

unfoldable pub by_other : Other → LiveUpdateBroadcaster → Option LiveUpdateBroadcaster
by_other (broadcasts node online) b = broadcast_node_status node online b
by_other (joins user nodes) b = some (subscribe user nodes b)
by_other (leaves sub) b = unsubscribe sub b

-- What the `select` of a stream takes up, with whether `stream.Send` succeeds, and what others do in the
-- meantime. The stream is closed by the call's own `Unsubscribe` alone, so a receive finds an update or
-- waits.
pub data Turn : Type 0 where
  done : Turn
  next beat : Bool → Turn
  meanwhile : Other → Turn

abbrev pub Looped : Type 0
Looped = LiveUpdateBroadcaster × List Update × Bool

abbrev pub sends_first : Update → Option Looped → Option Looped
sends_first update r = on_some r none (λ x. some (x.0, update ∷ x.1, x.2))

-- The loop of `StreamLiveUpdates`: the broadcaster when it returns, what it has sent, and whether it
-- returns nil; `none` while it still waits, and where another goroutine panics.
unfoldable pub stream_loop : List Turn → ℕ → LiveUpdateBroadcaster → Option Looped
stream_loop [] k b = none
stream_loop (done ∷ turns) k b = some (b, [], true)
stream_loop (beat false ∷ turns) k b = some (b, [], false)
stream_loop (beat true ∷ turns) k b = sends_first heartbeat (stream_loop turns k b)
stream_loop (next sends ∷ turns) k b =
    let (b', taken) = take_update k b in
    let rest = stream_loop turns k b' in
    elim taken [
      | none ↦ rest
      | some update ↦ if sends then sends_first update rest else some (b', [], false)
    ]
stream_loop (meanwhile op ∷ turns) k b = on_some (by_other op b) none (λ b'. stream_loop turns k b')

-- The check of every node of the request.
unfoldable pub check_nodes :
    (String → String → Option Bool) → Option String → List String → Response (Unit {0})
check_nodes check user [] = response tt
check_nodes check user (node ∷ nodes) =
    let rest = check_nodes check user nodes in
    elim (check_node_access_with_context check user node) [
      | refused code ↦ refused code
      | crashed ↦ crashed
      | response _ ↦ rest
    ]

-- `StreamLiveUpdates`: the status of each node goes first, as far as the sends succeed (`greeted`),
-- then the loop; the subscription is removed however the call ends.
unfoldable pub stream_live_updates :
    (String → String → Option Bool)
    → (String → Bool)
    → ℕ
    → Option String
    → List String
    → List Turn
    → LiveUpdateBroadcaster
    → Option (LiveUpdateBroadcaster × Response (List Update × Bool))
stream_live_updates check online greeted value nodes turns b = elim (get_user_id value) [
  | none ↦ some (b, refused unauthenticated)
  | some user ↦ elim (check_nodes check value nodes) [
    | refused code ↦ some (b, refused code)
    | crashed ↦ some (b, crashed)
    | response _ ↦
        let b' = subscribe user nodes b in
        let looped = stream_loop turns b.next b' in
        let first = map (λ node. node_status_changed node (online node)) nodes in
        if ltb greeted (length nodes)
        then on_some (unsubscribe (sub_for user nodes b) b') none
            (λ last. some (last, response (take greeted first, false)))
        else on_some looped none λ x.
          on_some (unsubscribe (sub_for user nodes b) x.0) none
            (λ last. some (last, response (first ++ x.1, x.2)))
  ]
]
