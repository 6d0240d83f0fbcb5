-- ===== src/LiveUpdates/Joined.antt =====
-- server/service/live_update_broadcaster.go: a subscription and its stream under what other goroutines
-- do.
use unblink.Base.{
  ℕ, ◌≡◌, ◌∙◌, ap, refl, Bool, true, false, some, List, [], ◌∷◌, ◌++◌, ◌||◌, ◌==◌, nat_eq,
  string_eq, String, value_or, arith, Option-cases, Bool-cases, inl, inr,
}
use unblink.Base.Dict.{Dict, lookup}
use unblink.NodeConn.Channels.{Heap, empty_channel, close_channel, try_send}
use unblink.NodeConn.Safety.{IsOpen, Keeps-insert}
use unblink.NodeConn.Opened.{try_send-IsOpen, close_channel-others}
use unblink.LiveUpdates.{
  LiveUpdateSubscription, LiveUpdateBroadcaster, Update, subs_of, sub_for, subscribe, has_sub,
  without_sub, unsubscribe, Turn, meanwhile, Other, broadcasts, joins, leaves, by_other,
  update_capacity, wants, send_each, send_users, broadcast_node_status, node_status_changed,
}
use unblink.LiveUpdates.Streams.{subs_of-subscribe, subs_of-unsubscribe}

-- Subscription k of the user is there, and its stream is open.
pub record Joined (k : ℕ) (user : String) (b : LiveUpdateBroadcaster) : Type 0 where
  pub subscribed : has_sub k (subs_of user b) ≡ true
  pub is_open : IsOpen k b.streams

-- Others do not end this stream.
abbrev pub Spares : ℕ → Turn → Type 0
Spares k (meanwhile (leaves sub)) = (k == sub.id) ≡ false
Spares k turn = Unit

send_each-IsOpen :
    (k : ℕ) (node : String) (update : Update) (subs : List LiveUpdateSubscription)
    (h h' : Heap Update)
    → send_each node update subs h ≡ some h'
    → IsOpen k h
    → IsOpen k h'
unfolding send_each
send_each-IsOpen k node update [] h h' e o = let same : h ≡ h' = ground (arith, e) in rw (← same) o
send_each-IsOpen k node update (s ∷ subs) h h' e o = elim (Bool-cases (wants node s)) [
  | inr skips ↦ send_each-IsOpen k node update subs h h' (ground (arith, e, skips)) o
  | inl hears ↦ elim (Option-cases (try_send update_capacity s.id update h)) [
    | inl panics ↦ absurd (ground (arith, e, hears, panics))
    | inr (h1, sent) ↦
        send_each-IsOpen k node update subs h1 h' (ground (arith, e, hears, sent))
          (try_send-IsOpen update_capacity k s.id update h h1 sent o)
  ]
]

send_users-IsOpen :
    (k : ℕ) (node : String) (update : Update) (d : Dict String (List LiveUpdateSubscription))
    (h h' : Heap Update)
    → send_users node update d h ≡ some h'
    → IsOpen k h
    → IsOpen k h'
unfolding send_users
send_users-IsOpen k node update [] h h' e o = let same : h ≡ h' = ground (arith, e) in rw (← same) o
send_users-IsOpen k node update ((_, subs) ∷ d) h h' e o =
    elim (Option-cases (send_each node update subs h)) [
      | inl panics ↦ absurd (ground (arith, e, panics))
      | inr (h1, sent) ↦
          send_users-IsOpen k node update d h1 h' (ground (arith, e, sent))
            (send_each-IsOpen k node update subs h h1 sent o)
    ]

pub has_sub-last :
    (k : ℕ) (sub : LiveUpdateSubscription) (subs : List LiveUpdateSubscription)
    → has_sub k (subs ++ sub ∷ []) ≡ (has_sub k subs || k == sub.id)
has_sub-last k sub [] = ground arith
has_sub-last k sub (s ∷ subs) = ground (arith, has_sub-last k sub subs)

has_sub-without_other :
    (k j : ℕ) (subs : List LiveUpdateSubscription)
    → (k == j) ≡ false
    → has_sub k (without_sub j subs) ≡ has_sub k subs
has_sub-without_other k j [] other = refl
has_sub-without_other k j (s ∷ subs) other =
    ground (arith, other, has_sub-without_other k j subs other)

pub subs_of-same :
    (u : String) (b b' : LiveUpdateBroadcaster)
    → b'.subscriptions ≡ b.subscriptions
    → subs_of u b' ≡ subs_of u b
subs_of-same u b b' e = ap (λ d. value_or [] (lookup u d)) e

broadcast_node_status-Joined :
    (k : ℕ) (user node : String) (online : Bool) (b b' : LiveUpdateBroadcaster)
    → broadcast_node_status node online b ≡ some b'
    → Joined k user b
    → Joined k user b'
unfolding broadcast_node_status
broadcast_node_status-Joined k user node online b b' e j =
    let update = node_status_changed node online in
    elim (Option-cases (send_users node update b.subscriptions b.streams)) [
      | inl panics ↦ absurd (ground (arith, e, panics))
      | inr (h, sent) ↦
          let streams : b'.streams ≡ h = ground (arith, e, sent) in
          let subs : b'.subscriptions ≡ b.subscriptions = ground (arith, e, sent) in
          record {
            subscribed = ap (has_sub k) (subs_of-same user b b' subs) ∙ j.subscribed;
            is_open =
                rw streams
                  (send_users-IsOpen k node update b.subscriptions b.streams h sent j.is_open);
          }
    ]

subscribe-Joined :
    (k : ℕ) (user other : String) (nodes : List String) (b : LiveUpdateBroadcaster)
    → Joined k user b
    → Joined k user (subscribe other nodes b)
subscribe-Joined k user other nodes b j = record {
  subscribed = ground (
    arith,
    j.subscribed,
    subs_of-subscribe user other nodes b,
    has_sub-last k (sub_for other nodes b) (subs_of user b),
  );
  is_open = unfold subscribe in Keeps-insert b.next empty_channel b.streams refl k j.is_open;
}

unsubscribe-Joined :
    (k : ℕ) (user : String) (sub : LiveUpdateSubscription) (b b' : LiveUpdateBroadcaster)
    → (k == sub.id) ≡ false
    → unsubscribe sub b ≡ some b'
    → Joined k user b
    → Joined k user b'
unfolding unsubscribe
unsubscribe-Joined k user sub b b' other e j = record {
  subscribed = ground (
    arith,
    j.subscribed,
    subs_of-unsubscribe user sub b b' e,
    has_sub-without_other k sub.id (subs_of user b) other,
  );
  is_open = elim (Bool-cases (has_sub sub.id (subs_of sub.user_id b))) [
    | inr gone ↦ let same : b'.streams ≡ b.streams = ground (arith, e, gone) in rw same j.is_open
    | inl here ↦ elim (Option-cases (close_channel sub.id b.streams)) [
      | inl panics ↦ absurd (ground (arith, e, here, panics))
      | inr (h, closes) ↦
          let same : b'.streams ≡ h = ground (arith, e, here, closes) in
          rw same (close_channel-others k sub.id b.streams h other closes j.is_open)
    ]
  ];
}

pub by_other-Joined :
    (k : ℕ) (user : String) (op : Other) (b b' : LiveUpdateBroadcaster)
    → Spares k (meanwhile op)
    → by_other op b ≡ some b'
    → Joined k user b
    → Joined k user b'
unfolding by_other
by_other-Joined k user (broadcasts node online) b b' spares e j =
    broadcast_node_status-Joined k user node online b b' e j
by_other-Joined k user (joins other nodes) b b' spares e j =
    let same : subscribe other nodes b ≡ b' = cc in
    rw (← same) (subscribe-Joined k user other nodes b j)
by_other-Joined k user (leaves sub) b b' spares e j = unsubscribe-Joined k user sub b b' spares e j
