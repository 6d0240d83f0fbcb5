-- ===== src/Events.antt =====
-- server/service/event_broadcaster.go: the subscriptions to events and their streams. A subscription
-- is known by the number of its stream, as the source knows it by its pointer; the counts that are
-- only logged and the context's cancel function are left out. Each operation holds the lock.
pub mod Audience
pub mod Streams
pub mod Views
pub mod Moves
pub mod Refinement
pub mod Service
pub mod Joined
pub mod Leaks
mod Tests
use unblink.Base.{
  ℕ, suc, ◌+◌, Bool, Option, none, some, List, [], ◌∷◌, ◌++◌, ◌||◌, Eq, ◌==◌, nat_eq, string_eq,
  String, length, if◌then◌else◌, on_some, value_or,
}
use unblink.Base.Dict.{Dict, lookup, insert, erase}
use unblink.Batch.Rollup.{Event}
use unblink.NodeConn.Channels.{Channel, empty_channel, Heap, close_channel, try_send}

-- `EventSubscription`
pub record Subscription : Type 0 where
  pub id : ℕ
  pub node_id : String
  pub service_id : String

-- `EventBroadcaster`; `streams` are the channels, `next` is the number of the next one.
pub record EventBroadcaster : Type 0 where
  pub subscriptions : Dict String (List Subscription)
  pub all_subs : Dict ℕ String
  pub streams : Heap Event
  pub next : ℕ

-- `NewEventBroadcaster`
unfoldable pub new_event_broadcaster : EventBroadcaster
new_event_broadcaster = record { subscriptions = []; all_subs = []; streams = []; next = 0 }

-- `make(chan *servicev1.Event, 100)`
abbrev pub stream_capacity : ℕ
stream_capacity = 100

-- `b.subscriptions[nodeID]`
abbrev pub subs_of : String → EventBroadcaster → List Subscription
subs_of node b = value_or [] (lookup node b.subscriptions)

-- `Subscribe`, with the number of the new stream.
unfoldable pub subscribe : String → String → EventBroadcaster → EventBroadcaster × ℕ
subscribe node service b =
    let sub : Subscription = record { id = b.next; node_id = node; service_id = service } in
    (
      record {
        subscriptions = insert node (subs_of node b ++ sub ∷ []) b.subscriptions;
        all_subs = insert b.next node b.all_subs;
        streams = insert b.next empty_channel b.streams;
        next = suc b.next;
      },
      b.next,
    )

-- `append(subs[:i], subs[i+1:]...)` at the first `i` with `subs[i] == sub`; the list as it is
-- where there is none.
unfoldable pub remove_sub : ℕ → List Subscription → List Subscription
remove_sub k [] = []
remove_sub k (s ∷ subs) = let rest = remove_sub k subs in if k == s.id then subs else s ∷ rest

-- `Unsubscribe`; `none` is a panic.
unfoldable pub unsubscribe : ℕ → EventBroadcaster → Option EventBroadcaster
unsubscribe k b =
    let node = value_or "" (lookup k b.all_subs) in
    if node == ""
    then some b
    else on_some (close_channel k b.streams) none λ streams. some (record b {
      subscriptions = insert node (remove_sub k (subs_of node b)) b.subscriptions;
      all_subs = erase k b.all_subs;
      streams = streams;
    })

-- The filter on the service.
abbrev pub wants : Event → String → Bool
wants event service = service == "" || service == event.service_id

-- The loop of `Broadcast`; `none` is a panic.
unfoldable pub send_each : Event → List Subscription → Heap Event → Option (Heap Event)
send_each event [] h = some h
send_each event (s ∷ subs) h =
    on_some (if wants event s.service_id then try_send stream_capacity s.id event h else some h)
      none (λ h'. send_each event subs h')

-- `Broadcast`
unfoldable pub broadcast : Event → String → EventBroadcaster → Option EventBroadcaster
broadcast event node b =
    on_some (send_each event (subs_of node b) b.streams) none
      (λ streams. some (record b { streams = streams }))

-- `event, ok := <-eventChan` of a subscriber, without the wait.
unfoldable pub take_event : ℕ → EventBroadcaster → EventBroadcaster × Option Event
take_event k b =
    on_some (lookup k b.streams) (b, none)
      λ ch. elim ch.items [
        | [] ↦ (b, none)
        | event ∷ rest ↦
            (record b { streams = insert k (record ch { items = rest }) b.streams }, some event)
      ]

-- `GetSubscriptionCount`
unfoldable pub get_subscription_count : String → EventBroadcaster → ℕ
get_subscription_count node b = length (subs_of node b)
