-- ===== src/Events/Joined.antt =====
-- server/service/event_broadcaster.go: a subscription and its stream under what other goroutines do.
use unblink.Base.{
  ℕ, ◌≡◌, ◌∙◌, ap, refl, Bool, true, false, some, List, [], ◌∷◌, ◌++◌, ◌||◌, ◌==◌, nat_eq,
  string_eq, String, if◌then◌else◌, value_or, arith, Option-cases, Bool-cases, inl, inr,
}
use unblink.Base.Dict.{lookup, insert, lookup-insert}
use unblink.Batch.Rollup.{Event}
use unblink.NodeConn.Channels.{Heap, empty_channel, close_channel, try_send}
use unblink.NodeConn.Safety.{IsOpen, Keeps-insert}
use unblink.NodeConn.Opened.{try_send-IsOpen, close_channel-others}
use unblink.Events.{
  Subscription, EventBroadcaster, subs_of, subscribe, unsubscribe, remove_sub, broadcast, send_each,
  wants, stream_capacity,
}
use unblink.Events.Service.{Turn, meanwhile, Other, broadcasts, joins, leaves, by_other}

abbrev pub has_sub : ℕ → List Subscription → Bool
has_sub k [] = false
has_sub k (s ∷ subs) = k == s.id || has_sub k subs

-- Subscription k of the node is there, and its stream is open.
pub record Joined (k : ℕ) (node : String) (b : EventBroadcaster) : Type 0 where
  pub subscribed : has_sub k (subs_of node b) ≡ true
  pub is_open : IsOpen k b.streams

-- Others do not end this stream.
abbrev pub Spares : ℕ → Turn → Type 0
Spares k (meanwhile (leaves j)) = (k == j) ≡ false
Spares k turn = Unit

send_each-IsOpen :
    (k : ℕ) (e : Event) (subs : List Subscription) (h h' : Heap Event)
    → send_each e subs h ≡ some h'
    → IsOpen k h
    → IsOpen k h'
unfolding send_each
send_each-IsOpen k ev [] h h' e o = let same : h ≡ h' = ground (arith, e) in rw (← same) o
send_each-IsOpen k ev (s ∷ subs) h h' e o = elim (Bool-cases (wants ev s.service_id)) [
  | inr skips ↦ send_each-IsOpen k ev subs h h' (ground (arith, e, skips)) o
  | inl hears ↦ elim (Option-cases (try_send stream_capacity s.id ev h)) [
    | inl panics ↦ absurd (ground (arith, e, hears, panics))
    | inr (h1, sent) ↦
        send_each-IsOpen k ev subs h1 h' (ground (arith, e, hears, sent))
          (try_send-IsOpen stream_capacity k s.id ev h h1 sent o)
  ]
]

pub has_sub-last :
    (k : ℕ) (sub : Subscription) (subs : List Subscription)
    → has_sub k (subs ++ sub ∷ []) ≡ (has_sub k subs || k == sub.id)
has_sub-last k sub [] = ground arith
has_sub-last k sub (s ∷ subs) = ground (arith, has_sub-last k sub subs)

has_sub-remove_other :
    (k j : ℕ) (subs : List Subscription)
    → (k == j) ≡ false
    → has_sub k (remove_sub j subs) ≡ has_sub k subs
unfolding remove_sub
has_sub-remove_other k j [] other = refl
has_sub-remove_other k j (s ∷ subs) other =
    ground (arith, other, has_sub-remove_other k j subs other)

pub subs_of-subscribe :
    (n node service : String) (b : EventBroadcaster)
    → let sub : Subscription = record { id = b.next; node_id = node; service_id = service } in
      subs_of n (subscribe node service b).0
      ≡ (if n == node then subs_of n b ++ sub ∷ [] else subs_of n b)
unfolding subscribe
subs_of-subscribe n node service b =
    let sub : Subscription = record { id = b.next; node_id = node; service_id = service } in
    ground (arith, lookup-insert n node (subs_of node b ++ sub ∷ []) b.subscriptions)

pub subs_of-same :
    (n : String) (b b' : EventBroadcaster)
    → b'.subscriptions ≡ b.subscriptions
    → subs_of n b' ≡ subs_of n b
subs_of-same n b b' e = ap (λ d. value_or [] (lookup n d)) e

broadcast-Joined :
    (k : ℕ) (node other : String) (ev : Event) (b b' : EventBroadcaster)
    → broadcast ev other b ≡ some b'
    → Joined k node b
    → Joined k node b'
unfolding broadcast
broadcast-Joined k node other ev b b' e j =
    elim (Option-cases (send_each ev (subs_of other b) b.streams)) [
      | inl panics ↦ absurd (ground (arith, e, panics))
      | inr (h, sent) ↦
          let streams : b'.streams ≡ h = ground (arith, e, sent) in
          let subs : b'.subscriptions ≡ b.subscriptions = ground (arith, e, sent) in
          record {
            subscribed = ap (has_sub k) (subs_of-same node b b' subs) ∙ j.subscribed;
            is_open =
                rw streams (send_each-IsOpen k ev (subs_of other b) b.streams h sent j.is_open);
          }
    ]

subscribe-Joined :
    (k : ℕ) (node other service : String) (b : EventBroadcaster)
    → Joined k node b
    → Joined k node (subscribe other service b).0
subscribe-Joined k node other service b j =
    let sub : Subscription = record { id = b.next; node_id = other; service_id = service } in
    record {
      subscribed = ground (
        arith,
        j.subscribed,
        subs_of-subscribe node other service b,
        has_sub-last k sub (subs_of node b),
      );
      is_open = unfold subscribe in Keeps-insert b.next empty_channel b.streams refl k j.is_open;
    }

unsubscribe-Joined :
    (k i : ℕ) (node : String) (b b' : EventBroadcaster)
    → (k == i) ≡ false
    → unsubscribe i b ≡ some b'
    → Joined k node b
    → Joined k node b'
unfolding unsubscribe
unsubscribe-Joined k i node b b' other e j =
    let left = value_or "" (lookup i b.all_subs) in
    elim (Bool-cases (left == "")) [
      | inl gone ↦ let same : b ≡ b' = ground (arith, e, gone) in rw (← same) j
      | inr here ↦ elim (Option-cases (close_channel i b.streams)) [
        | inl panics ↦ absurd (ground (arith, e, here, panics))
        | inr (h, closes) ↦
            let streams : b'.streams ≡ h = ground (arith, e, here, closes) in
            let subs : b'.subscriptions
                ≡ insert left (remove_sub i (subs_of left b)) b.subscriptions =
              ground (arith, e, here, closes) in
            record {
              subscribed = ground (
                arith,
                j.subscribed,
                subs,
                lookup-insert node left (remove_sub i (subs_of left b)) b.subscriptions,
                has_sub-remove_other k i (subs_of left b) other,
              );
              is_open = rw streams (close_channel-others k i b.streams h other closes j.is_open);
            }
      ]
    ]

pub by_other-Joined :
    (k : ℕ) (node : String) (op : Other) (b b' : EventBroadcaster)
    → Spares k (meanwhile op)
    → by_other op b ≡ some b'
    → Joined k node b
    → Joined k node b'
unfolding by_other
by_other-Joined k node (broadcasts ev other) b b' s e j = broadcast-Joined k node other ev b b' e j
by_other-Joined k node (joins other service) b b' s e j =
    let same : (subscribe other service b).0 ≡ b' = cc in
    rw (← same) (subscribe-Joined k node other service b j)
by_other-Joined k node (leaves i) b b' s e j = unsubscribe-Joined k i node b b' s e j
