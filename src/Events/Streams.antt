-- ===== src/Events/Streams.antt =====
-- server/service/event_broadcaster.go: what a broadcast does to the streams.
use unblink.Base.{
  ℕ, ◌≡◌, ◌≢◌, refl, Bool, false, Option, none, some, List, [], ◌∷◌, ◌++◌, ◌&&◌, ◌||◌, ◌==◌, nat_eq,
  string_eq, length, ltb, if◌then◌else◌, Bool-cases, inl, inr, arith,
}
use unblink.Base.Dict.{lookup, insert, lookup-insert}
use unblink.Batch.Rollup.{Event}
use unblink.NodeConn.Channels.{Channel, Heap, try_send}
use unblink.NodeConn.Safety.{IsOpen}
use unblink.Events.{Subscription, stream_capacity, wants, send_each}
use unblink.Events.Audience.{push}

abbrev pub heard : Event → Channel Event → Channel Event
heard event ch = record ch { items = push event ch.items }

-- A send on an open stream.
pub try_send-heard :
    (k : ℕ) (event : Event) (h : Heap Event) (ch : Channel Event)
    → lookup k h ≡ some ch
    → ch.closed ≡ false
    → (h' : Heap Event) × (try_send stream_capacity k event h ≡ some h')
      × ((j : ℕ) → lookup j h' ≡ (if j == k then some (heard event ch) else lookup j h))
unfolding try_send
try_send-heard k event h ch e o = elim (Bool-cases (ltb (length ch.items) stream_capacity)) [
  | inl room ↦ (
    insert k (record ch { items = ch.items ++ event ∷ [] }) h,
    rw (e, o, room),
    λ j. ground (arith, room, lookup-insert j k (record ch { items = ch.items ++ event ∷ [] }) h),
  )
  | inr full ↦ (h, rw (e, o, full), λ j. ground (arith, full, e))
]

-- Subscription k is among these and wants the event.
abbrev pub hears : Event → ℕ → List Subscription → Bool
hears event k [] = false
hears event k (s ∷ subs) = (k == s.id && wants event s.service_id) || hears event k subs

abbrev pub Absent : ℕ → List Subscription → Type 0
Absent k [] = Unit
Absent k (s ∷ subs) = (k ≢ s.id) × Absent k subs

-- Streams that are open, each once.
abbrev pub Ready : List Subscription → Heap Event → Type 0
Ready [] h = Unit
Ready (s ∷ subs) h = IsOpen s.id h × Absent s.id subs × Ready subs h

abbrev pub on_channel :
    (Channel Event → Channel Event) → Option (Channel Event) → Option (Channel Event)
on_channel f none = none
on_channel f (some ch) = some (f ch)

Ready-keeps :
    (k : ℕ) (event : Event) (subs : List Subscription) (h h' : Heap Event) (ch : Channel Event)
    → Absent k subs
    → ((j : ℕ) → lookup j h' ≡ (if j == k then some (heard event ch) else lookup j h))
    → Ready subs h
    → Ready subs h'
Ready-keeps k event [] h h' ch a only r = tt
Ready-keeps k event (s ∷ subs) h h' ch (differ, a) only ((x, e, o), once, r) =
    ((x, ground (arith, only s.id, differ, e), o), once, Ready-keeps k event subs h h' ch a only r)

pub hears-Absent :
    (event : Event) (k : ℕ) (subs : List Subscription) → Absent k subs → hears event k subs ≡ false
hears-Absent event k [] a = refl
hears-Absent event k (s ∷ subs) (differ, a) = ground (arith, differ, hears-Absent event k subs a)

-- The loop of `Broadcast` over open streams does not panic, and the event reaches the streams that
-- want it, and no other.
pub send_each-heard :
    (event : Event) (subs : List Subscription) (h : Heap Event)
    → Ready subs h
    → (h' : Heap Event) × (send_each event subs h ≡ some h')
      × ((j : ℕ)
          → lookup j h'
            ≡ (if hears event j subs then on_channel (heard event) (lookup j h) else lookup j h))
unfolding send_each
send_each-heard event [] h r = (h, refl, λ j. refl)
send_each-heard event (s ∷ subs) h ((ch, e, o), once, r) =
    elim (Bool-cases (wants event s.service_id)) [
      | inl w ↦
          let (h1, sent, only) = try_send-heard s.id event h ch e o in
          let (h', rest, spec) =
            send_each-heard event subs h1 (Ready-keeps s.id event subs h h1 ch once only r) in
          (
            h',
            rw (w, sent) rest,
            λ j. ground (arith, spec j, only j, e, w, hears-Absent event s.id subs once),
          )
      | inr w ↦
          let (h', rest, spec) = send_each-heard event subs h r in
          (h', rw w rest, λ j. ground (arith, spec j, w))
    ]
