-- ===== src/LiveUpdates/Streams.antt =====
-- server/service/live_update_broadcaster.go and live_update.go: a stream from its start to its end.
use unblink.Base.{
  ◌≡◌, refl, ℕ, true, false, some, List, [], ◌∷◌, ◌++◌, ◌==◌, nat_eq, string_eq, String,
  if◌then◌else◌, is_empty, arith, Option-cases, Bool-cases, inl, inr,
}
use unblink.Base.Dict.{insert, erase, lookup-insert, lookup-erase}
use unblink.NodeConn.Channels.{close_channel}
use unblink.NodeConn.Safety.{IsOpen}
use unblink.LiveUpdates.{
  LiveUpdateSubscription, LiveUpdateBroadcaster, Update, subs_of, sub_for, subscribe, has_sub,
  without_sub, unsubscribe, take_update,
}

pub subs_of-subscribe :
    (u user : String) (nodes : List String) (b : LiveUpdateBroadcaster)
    → subs_of u (subscribe user nodes b)
      ≡ (if u == user then subs_of u b ++ sub_for user nodes b ∷ [] else subs_of u b)
unfolding subscribe
subs_of-subscribe u user nodes b =
    ground
      (arith, lookup-insert u user (subs_of user b ++ sub_for user nodes b ∷ []) b.subscriptions)

without_sub-absent :
    (k : ℕ) (subs : List LiveUpdateSubscription)
    → has_sub k subs ≡ false
    → without_sub k subs ≡ subs
without_sub-absent k [] e = refl
without_sub-absent k (s ∷ subs) e = ground (arith, e, without_sub-absent k subs)

pub has_sub-without_sub :
    (k : ℕ) (subs : List LiveUpdateSubscription) → has_sub k (without_sub k subs) ≡ false
has_sub-without_sub k [] = refl
has_sub-without_sub k (s ∷ subs) = ground (arith, has_sub-without_sub k subs)

value_of-empty : (subs : List LiveUpdateSubscription) → is_empty subs ≡ true → subs ≡ []
value_of-empty [] e = refl
value_of-empty (s ∷ subs) e = cc

-- What `Unsubscribe` leaves of the subscriptions of each user.
pub subs_of-unsubscribe :
    (u : String) (sub : LiveUpdateSubscription) (b b' : LiveUpdateBroadcaster)
    → unsubscribe sub b ≡ some b'
    → subs_of u b' ≡ (if u == sub.user_id then without_sub sub.id (subs_of u b) else subs_of u b)
unfolding unsubscribe
subs_of-unsubscribe u sub b b' e =
    let rest = without_sub sub.id (subs_of sub.user_id b) in
    elim (Option-cases (close_channel sub.id b.streams)) [
      | inl panics ↦ ground (arith, panics, e, without_sub-absent sub.id (subs_of sub.user_id b))
      | inr (streams, closes) ↦ ground (
        arith,
        closes,
        e,
        without_sub-absent sub.id (subs_of sub.user_id b),
        lookup-insert u sub.user_id rest b.subscriptions,
        lookup-erase u sub.user_id b.subscriptions,
        value_of-empty rest,
      )
    ]

-- A second `Unsubscribe` does nothing; in particular it does not close the stream again.
pub unsubscribe-twice :
    (sub : LiveUpdateSubscription) (b b' : LiveUpdateBroadcaster)
    → unsubscribe sub b ≡ some b'
    → unsubscribe sub b' ≡ some b'
unsubscribe-twice sub b b' e =
    unfold unsubscribe in
    ground (
      arith,
      subs_of-unsubscribe sub.user_id sub b b' e,
      has_sub-without_sub sub.id (subs_of sub.user_id b),
    )

pub take_update-subscriptions :
    (k : ℕ) (b : LiveUpdateBroadcaster) → (take_update k b).0.subscriptions ≡ b.subscriptions
unfolding take_update
take_update-subscriptions k b = ground arith

pub take_update-IsOpen :
    (k : ℕ) (b : LiveUpdateBroadcaster) → IsOpen k b.streams → IsOpen k (take_update k b).0.streams
unfolding take_update
take_update-IsOpen k b (ch, e, o) = from_items ch.items refl
  where
    from_items : (items : List Update) → ch.items ≡ items → IsOpen k (take_update k b).0.streams
    from_items [] h = (ch, ground (arith, e, h), o)
    from_items (update ∷ rest) h = (
      record ch { items = rest },
      ground (arith, e, h, lookup-insert k k (record ch { items = rest }) b.streams),
      o,
    )

-- The subscription at its end, on a stream that is open.
pub unsubscribe-open :
    (sub : LiveUpdateSubscription) (b : LiveUpdateBroadcaster)
    → IsOpen sub.id b.streams
    → (b' : LiveUpdateBroadcaster) × (unsubscribe sub b ≡ some b')
unsubscribe-open sub b (ch, e, o) =
    let rest = without_sub sub.id (subs_of sub.user_id b) in
    elim (Bool-cases (has_sub sub.id (subs_of sub.user_id b))) [
      | inl here ↦ (
        record b {
          subscriptions =
              if is_empty rest
              then erase sub.user_id b.subscriptions
              else insert sub.user_id rest b.subscriptions;
          streams = insert sub.id (record ch { closed = true }) b.streams;
        },
        unfold unsubscribe close_channel in rw (here, e, o) refl,
      )
      | inr gone ↦ (b, unfold unsubscribe in rw gone refl)
    ]
