-- ===== src/LiveUpdates/Ends.antt =====
-- server/service/live_update.go: a stream from its start to its end, with other goroutines in between.
use unblink.Base.{
  ℕ, ◌≡◌, ◌∙◌, ap, refl, Bool, true, false, Option, some, List, [], ◌∷◌, ◌++◌, ◌==◌, nat_eq,
  string_eq, String, if◌then◌else◌, All, arith, Option-cases, Bool-cases, inl, inr, ltb, length,
  map,
}
use unblink.Base.Dict.{lookup-insert}
use unblink.Access.{response, get_user_id}
use unblink.NodeConn.Channels.{empty_channel}
use unblink.NodeConn.Safety.{IsOpen}
use unblink.LiveUpdates.{
  LiveUpdateBroadcaster, Update, heartbeat, subs_of, sub_for, subscribe, has_sub, without_sub,
  take_update, Turn, done, next, beat, meanwhile, stream_loop, by_other, Looped, sends_first,
  check_nodes, stream_live_updates, node_status_changed,
}
use unblink.LiveUpdates.Streams.{
  subs_of-subscribe, subs_of-unsubscribe, unsubscribe-open, take_update-subscriptions,
  take_update-IsOpen, has_sub-without_sub,
}
use unblink.LiveUpdates.Joined.{Joined, Spares, has_sub-last, subs_of-same, by_other-Joined}

take_update-Joined :
    (k : ℕ) (user : String) (b : LiveUpdateBroadcaster)
    → Joined k user b
    → Joined k user (take_update k b).0
take_update-Joined k user b j = record {
  subscribed =
      ap (has_sub k) (subs_of-same user b (take_update k b).0 (take_update-subscriptions k b))
      ∙ j.subscribed;
  is_open = take_update-IsOpen k b j.is_open;
}

sends_first-rest :
    (update : Update) (r : Option Looped) (x : Looped)
    → sends_first update r ≡ some x
    → (y : Looped) × (r ≡ some y) × (x.0 ≡ y.0)
sends_first-rest update r x e = elim (Option-cases r) [
  | inl none_yet ↦ absurd (ground (arith, e, none_yet))
  | inr (y, returns) ↦ (y, returns, ground (arith, e, returns))
]

stream_loop-Joined :
    (turns : List Turn) (k : ℕ) (user : String) (b : LiveUpdateBroadcaster) (x : Looped)
    → All (Spares k) turns
    → stream_loop turns k b ≡ some x
    → Joined k user b
    → Joined k user x.0
unfolding stream_loop
stream_loop-Joined [] k user b x a e j = absurd (cc)
stream_loop-Joined (done ∷ turns) k user b x a e j =
    let same : b ≡ x.0 = ground (arith, e) in rw (← same) j
stream_loop-Joined (beat false ∷ turns) k user b x a e j =
    let same : b ≡ x.0 = ground (arith, e) in rw (← same) j
stream_loop-Joined (beat true ∷ turns) k user b x (s, a) e j =
    let (y, returns, same) = sends_first-rest heartbeat (stream_loop turns k b) x e in
    rw same (stream_loop-Joined turns k user b y a returns j)
stream_loop-Joined (next sends ∷ turns) k user b x (s, a) e j =
    let b' = (take_update k b).0 in
    let j' = take_update-Joined k user b j in
    elim (Option-cases (take_update k b).1) [
      | inl waits ↦ stream_loop-Joined turns k user b' x a (ground (arith, e, waits)) j'
      | inr (update, taken) ↦ elim (Bool-cases sends) [
        | inl sent ↦
            let (y, returns, same) =
              sends_first-rest update (stream_loop turns k b') x (ground (arith, e, taken, sent)) in
            rw same (stream_loop-Joined turns k user b' y a returns j')
        | inr fails ↦ let same : b' ≡ x.0 = ground (arith, e, taken, fails) in rw (← same) j'
      ]
    ]
stream_loop-Joined (meanwhile op ∷ turns) k user b x (s, a) e j =
    elim (Option-cases (by_other op b)) [
      | inl panics ↦ absurd (ground (arith, e, panics))
      | inr (b', did) ↦
          stream_loop-Joined turns k user b' x a (ground (arith, e, did))
            (by_other-Joined k user op b b' s did j)
    ]

subscribe-joins :
    (user : String) (nodes : List String) (b : LiveUpdateBroadcaster)
    → Joined b.next user (subscribe user nodes b)
subscribe-joins user nodes b = record {
  subscribed = ground (
    arith,
    subs_of-subscribe user user nodes b,
    has_sub-last b.next (sub_for user nodes b) (subs_of user b),
  );
  is_open =
      unfold subscribe in
      (empty_channel, ground (arith, lookup-insert b.next b.next empty_channel b.streams), refl);
}

-- A stream that is granted and greeted, with broadcasts, streams that begin and other streams that end
-- between its turns, whose loop returns: until then it is subscribed and its stream is open; its own
-- `Unsubscribe` does not panic, and takes its subscription away from the user, and no other from
-- anyone.
pub stream_live_updates-unsubscribes :
    (check : String → String → Option Bool) (online : String → Bool) (greeted : ℕ)
    (value : Option String) (user : String) (nodes : List String) (turns : List Turn)
    (b : LiveUpdateBroadcaster) (x : Looped)
    → get_user_id value ≡ some user
    → check_nodes check value nodes ≡ response tt
    → ltb greeted (length nodes) ≡ false
    → All (Spares b.next) turns
    → stream_loop turns b.next (subscribe user nodes b) ≡ some x
    → (last : LiveUpdateBroadcaster) × (stream_live_updates check online greeted value nodes turns b
        ≡ some (
          last,
          response (map (λ node. node_status_changed node (online node)) nodes ++ x.1, x.2),
        ))
      × (has_sub b.next (subs_of user x.0) ≡ true)
      × IsOpen b.next x.0.streams
      × (has_sub b.next (subs_of user last) ≡ false)
      × ((u : String)
          → subs_of u last
            ≡ (if u == user then without_sub b.next (subs_of u x.0) else subs_of u x.0))
unfolding stream_live_updates
stream_live_updates-unsubscribes check online greeted value user nodes turns b x known granted loops
      spares returns =
    let j =
      stream_loop-Joined turns b.next user (subscribe user nodes b) x spares returns
        (subscribe-joins user nodes b) in
    let (last, e) = unsubscribe-open (sub_for user nodes b) x.0 j.is_open in
    let left : (u : String)
        → subs_of u last
          ≡ (if u == user then without_sub b.next (subs_of u x.0) else subs_of u x.0) =
      λ u. subs_of-unsubscribe u (sub_for user nodes b) x.0 last e in
    (
      last,
      ground (arith, known, granted, loops, returns, e),
      j.subscribed,
      j.is_open,
      ground (arith, left user, has_sub-without_sub b.next (subs_of user x.0)),
      left,
    )
