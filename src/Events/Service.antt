-- ===== src/Events/Service.antt =====
-- server/service/event.go: the calls of the event service, over the database as a parameter and the
-- broadcaster. What is sent on the stream of a client is returned.
use unblink.Base.{
  ℕ, Bool, true, false, Option, none, some, List, [], ◌∷◌, String, string_eq, nat_eq, ◌==◌,
  if◌then◌else◌, is_empty, on_some,
}
use unblink.Base.Int.{ℤ}
use unblink.Base.Dict.{lookup}
use unblink.Access.{
  Response, refused, crashed, response, or_refused, or_code, unauthenticated, internal,
  invalid_argument, get_user_id, check_node_access_with_context,
}
use unblink.Batch.Rollup.{Event}
use unblink.NodeConn.Channels.{Channel}
use unblink.Events.{EventBroadcaster, subscribe, unsubscribe, broadcast, take_event}

-- The database; `none` is an error.
pub record Env : Type 0 where
  pub check_node_access : String → String → Option Bool
  pub list_events : String → ℤ → ℤ → Option (List Event × ℕ)
  pub count_events : String → Option ℕ

-- `ListEventsByNodeId`, with what the context holds for the user.
unfoldable pub list_events_by_node_id :
    Env → Option String → String → ℤ → ℤ → Response (List Event × ℕ)
list_events_by_node_id env user node page_size page_offset =
    if node == ""
    then refused invalid_argument
    else or_refused (check_node_access_with_context env.check_node_access user node)
        λ _. or_code (env.list_events node page_size page_offset) internal (λ page. response page)

-- `CountEventsForUser`
unfoldable pub count_events_for_user : Env → Option String → Response ℕ
count_events_for_user env user =
    or_code (get_user_id user) unauthenticated
      λ u. or_code (env.count_events u) internal (λ count. response count)

-- What other goroutines do to the broadcaster.
pub data Other : Type 0 where
  broadcasts : Event → String → Other
  joins : String → String → Other
  leaves : ℕ → Other

unfoldable pub by_other : Other → EventBroadcaster → Option EventBroadcaster
by_other (broadcasts event node) b = broadcast event node b
by_other (joins node service) b = some (subscribe node service b).0
by_other (leaves k) b = unsubscribe k b

-- What the `select` of a stream takes up, with whether `stream.Send` succeeds, and what others do in the
-- meantime.
pub data Turn : Type 0 where
  done : Turn
  next beat : Bool → Turn
  meanwhile : Other → Turn

pub data Sent : Type 0 where
  event : Event → Sent
  heartbeat : Sent

-- Whether the channel is closed and drained, so that a receive gives `ok == false`.
abbrev pub is_drained : Option (Channel Event) → Bool
is_drained none = false
is_drained (some ch) = if ch.closed then is_empty ch.items else false

abbrev pub Looped : Type 0
Looped = EventBroadcaster × List Sent × Bool

abbrev pub sends_first : Sent → Option Looped → Option Looped
sends_first s r = on_some r none (λ x. some (x.0, s ∷ x.1, x.2))

-- The loop of `StreamEventsByNodeId` on stream k: the broadcaster when it returns, what it has sent, and
-- whether it returns nil; `none` while it still waits, and where another goroutine panics. A receive
-- with nothing there waits.
unfoldable pub stream_loop : List Turn → ℕ → EventBroadcaster → Option Looped
stream_loop [] k b = none
stream_loop (done ∷ turns) k b = some (b, [], true)
stream_loop (beat false ∷ turns) k b = some (b, [], false)
stream_loop (beat true ∷ turns) k b = sends_first heartbeat (stream_loop turns k b)
stream_loop (next sends ∷ turns) k b =
    let (b', taken) = take_event k b in
    let rest = stream_loop turns k b' in
    elim taken [
      | none ↦ if is_drained (lookup k b.streams) then some (b', [], true) else rest
      | some e ↦ if sends then sends_first (event e) rest else some (b', [], false)
    ]
stream_loop (meanwhile op ∷ turns) k b = on_some (by_other op b) none (λ b'. stream_loop turns k b')

-- `StreamEventsByNodeId`: it returns with `cancel()` alone, which ends the context that nothing reads.
unfoldable pub stream_events_by_node_id :
    Env
    → Option String
    → String
    → String
    → List Turn
    → EventBroadcaster
    → Option (EventBroadcaster × Response (List Sent × Bool))
stream_events_by_node_id env user node service turns b =
    if node == ""
    then some (b, refused invalid_argument)
    else elim (check_node_access_with_context env.check_node_access user node) [
      | refused code ↦ some (b, refused code)
      | crashed ↦ some (b, crashed)
      | response _ ↦
          let (b', k) = subscribe node service b in
          on_some (stream_loop turns k b') none (λ x. some (x.0, response (x.1, x.2)))
    ]
