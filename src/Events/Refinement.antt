-- ===== src/Events/Refinement.antt =====
-- server/service/event_broadcaster.go: the broadcaster against what it promises.
use unblink.Base.{
  ℕ, suc, ◌≡◌, ◌∙◌, refl, sym, ap, true, Option, none, some, List, [], ◌∷◌, ◌++◌, ◌==◌, nat_eq,
  string_eq, String, if◌then◌else◌, on_some, Bool-cases, inl, inr, arith,
}
use unblink.Base.Dict.{lookup, insert, erase, lookup-insert, lookup-erase}
use unblink.Batch.Rollup.{Event}
use unblink.NodeConn.Channels.{Channel, Heap, empty_channel, close_channel}
use unblink.Events.{
  EventBroadcaster, new_event_broadcaster, subs_of, subscribe, remove_sub, unsubscribe, broadcast,
  take_event, get_subscription_count,
}
use unblink.Events.Audience.{
  Client, Audience, nobody, join, dismiss, hear, read_one, first_of, Op, subscribes, unsubscribes,
  takes, sends, counts, Reply, joined, done, taken, number, serve, serve_all,
}
use unblink.Events.Streams.{on_channel, send_each-heard}
use unblink.Events.Views.{
  Numbered, Numbered-join, Numbered-next, active_of, active_of-join, node_of, node_of-join,
  stream_of, stream_of-join,
}
use unblink.Events.Moves.{
  Numbered-each, Ready-active, active_of-dismiss, active_of-hear, active_of-read_one, dismiss-id,
  dismiss-unnamed, hear-id, inbox_of-stream, node_at, node_of-dismiss, node_of-hear,
  node_of-read_one, number_at-active, read_one-id, shorter, stream_of-dismiss, stream_of-hear,
  stream_of-named, stream_of-read_one, waiting,
}

-- One call, with what its caller sees; `none` is a panic.
unfoldable pub perform : Op → EventBroadcaster → Option (EventBroadcaster × Reply)
perform (subscribes node service) b = let (b', k) = subscribe node service b in some (b', joined k)
perform (unsubscribes k) b = on_some (unsubscribe k b) none (λ b'. some (b', done))
perform (sends event node) b = on_some (broadcast event node b) none (λ b'. some (b', done))
perform (takes k) b = let (b', event) = take_event k b in some (b', taken event)
perform (counts node) b = some (b, number (get_subscription_count node b))

unfoldable pub perform_all : List Op → EventBroadcaster → Option (List Reply)
perform_all [] b = some []
perform_all (op ∷ ops) b = on_some (perform op b) none λ (r : EventBroadcaster × Reply).
    on_some (perform_all ops r.0) none (λ replies. some (r.1 ∷ replies))

-- The broadcaster's maps hold these subscribers.
record Shows (b : EventBroadcaster) (a : Audience) : Type 0 where
  numbered : Numbered a.joined a.clients
  next_is : b.next ≡ a.joined
  streams_are : (k : ℕ) → lookup k b.streams ≡ stream_of k a.clients
  nodes_are : (k : ℕ) → lookup k b.all_subs ≡ node_of k a.clients
  subs_are : (node : String) → subs_of node b ≡ active_of node a.clients

abbrev Performs : Op → EventBroadcaster → Audience → Type 0
Performs op b a =
    (b' : EventBroadcaster) × (perform op b ≡ some (b', (serve op a).1)) × Shows b' (serve op a).0

subscribe-Shows :
    (node service : String) (b : EventBroadcaster) (a : Audience)
    → Shows b a
    → Shows (subscribe node service b).0 (join node service a).0
unfolding subscribe
subscribe-Shows node service b a s =
    let c : Client = record {
      id = a.joined;
      node_id = node;
      service_id = service;
      inbox = [];
      active = true;
    } in
    let fresh = Numbered-next a.joined a.clients s.numbered in
    record {
      numbered = Numbered-join c a.clients s.numbered;
      next_is = ap suc s.next_is;
      streams_are = λ k. ground (
        arith,
        s.next_is,
        s.streams_are k,
        lookup-insert k b.next empty_channel b.streams,
        stream_of-join c k a.clients fresh,
      );
      nodes_are = λ k. ground (
        arith,
        s.next_is,
        s.nodes_are k,
        lookup-insert k b.next node b.all_subs,
        node_of-join c k a.clients refl fresh,
      );
      subs_are = λ n. ground (
        arith,
        s.next_is,
        s.subs_are n,
        s.subs_are node,
        lookup-insert n node
            (subs_of node b ++ record { id = b.next; node_id = node; service_id = service } ∷ [])
            b.subscriptions,
        active_of-join c n a.clients refl,
      );
    }

-- Reading takes the stream's first event, if there is one.
abbrev Reads : ℕ → EventBroadcaster → Type 0
Reads k b =
    (streams : Heap Event) × (take_event k b
      ≡ (record b { streams = streams }, first_of (waiting (lookup k b.streams))))
    × ((j : ℕ)
        → lookup j streams
          ≡ (if j == k then on_channel shorter (lookup j b.streams) else lookup j b.streams))

take_event-Reads :
    (k : ℕ) (b : EventBroadcaster) (o : Option (Channel Event)) → lookup k b.streams ≡ o → Reads k b
unfolding take_event
take_event-Reads k b none e = (b.streams, ground (arith, e), λ j. ground (arith, e))
take_event-Reads k b (some ch) e = from_items ch.items refl
  where
    from_items : (items : List Event) → ch.items ≡ items → Reads k b
    from_items [] h = (b.streams, ground (arith, e, h), λ j. ground (arith, e, h))
    from_items (event ∷ rest) h = (
      insert k (record ch { items = rest }) b.streams,
      ground (arith, e, h),
      λ j. ground (arith, e, h, lookup-insert j k (record ch { items = rest }) b.streams),
    )

take_event-Shows :
    (k : ℕ) (b : EventBroadcaster) (a : Audience) → Shows b a → Performs (takes k) b a
unfolding perform serve
take_event-Shows k b a s =
    let (streams, e, spec) = take_event-Reads k b (lookup k b.streams) refl in
    (
      record b { streams = streams },
      ground (arith, e, s.streams_are k, inbox_of-stream k a.clients),
      record {
        numbered = Numbered-each (read_one k) (read_one-id k) a.joined a.clients s.numbered;
        next_is = s.next_is;
        streams_are = λ j.
            ground (
              arith,
              spec j,
              s.streams_are j,
              stream_of-read_one a.joined k j a.clients s.numbered,
            );
        nodes_are = λ j. s.nodes_are j ∙ sym (node_of-read_one j k a.clients);
        subs_are = λ n. s.subs_are n ∙ sym (active_of-read_one n k a.clients);
      },
    )

broadcast-Shows :
    (event : Event) (node : String) (b : EventBroadcaster) (a : Audience)
    → Shows b a
    → Performs (sends event node) b a
unfolding perform serve broadcast
broadcast-Shows event node b a s =
    let ready =
      Ready-active a.joined node a.clients b.streams s.numbered (λ j ch e. s.streams_are j ∙ e) in
    let (streams, e, spec) = send_each-heard event (active_of node a.clients) b.streams ready in
    (
      record b { streams = streams },
      rw (s.subs_are node, e) refl,
      record {
        numbered =
            Numbered-each (hear event node) (hear-id event node) a.joined a.clients s.numbered;
        next_is = s.next_is;
        streams_are = λ j. ground (
          arith,
          spec j,
          s.streams_are j,
          stream_of-hear a.joined j event node a.clients s.numbered,
        );
        nodes_are = λ j. s.nodes_are j ∙ sym (node_of-hear j event node a.clients);
        subs_are = λ n. s.subs_are n ∙ sym (active_of-hear n event node a.clients);
      },
    )

unsubscribe-Shows :
    (k : ℕ) (b : EventBroadcaster) (a : Audience) → Shows b a → Performs (unsubscribes k) b a
unfolding perform serve unsubscribe
unsubscribe-Shows k b a s = elim (Bool-cases (node_at k a.clients == "")) [
  | inl e ↦
      (b, rw (s.nodes_are k, e) refl, rw (dismiss-unnamed a.joined k a.clients s.numbered e) s)
  | inr e ↦
      let (ch, open_, o) = stream_of-named k a.clients e in
      (
        record b {
          subscriptions =
              insert (node_at k a.clients) (remove_sub k (subs_of (node_at k a.clients) b))
                b.subscriptions;
          all_subs = erase k b.all_subs;
          streams = insert k (record ch { closed = true }) b.streams;
        },
        unfold close_channel in rw (s.nodes_are k, e, s.streams_are k, open_, o) refl,
        record {
          numbered = Numbered-each (dismiss k) (dismiss-id k) a.joined a.clients s.numbered;
          next_is = s.next_is;
          streams_are = λ j. ground (
            arith,
            s.streams_are j,
            lookup-insert j k (record ch { closed = true }) b.streams,
            stream_of-dismiss a.joined k j ch a.clients s.numbered e open_,
          );
          nodes_are = λ j. ground (
            arith,
            s.nodes_are j,
            lookup-erase j k b.all_subs,
            node_of-dismiss a.joined k j a.clients s.numbered e,
          );
          subs_are = λ n. ground (
            arith,
            s.subs_are n,
            s.subs_are (node_at k a.clients),
            lookup-insert n (node_at k a.clients) (remove_sub k (subs_of (node_at k a.clients) b))
                b.subscriptions,
            active_of-dismiss a.joined k n a.clients s.numbered e,
          );
        },
      )
]

perform-Shows : (op : Op) (b : EventBroadcaster) (a : Audience) → Shows b a → Performs op b a
perform-Shows (subscribes node service) b a s =
    unfold perform serve in
    (
      (subscribe node service b).0,
      unfold subscribe in rw s.next_is refl,
      subscribe-Shows node service b a s,
    )
perform-Shows (unsubscribes k) b a s = unsubscribe-Shows k b a s
perform-Shows (sends event node) b a s = broadcast-Shows event node b a s
perform-Shows (takes k) b a s = take_event-Shows k b a s
perform-Shows (counts node) b a s =
    unfold perform serve get_subscription_count in
    (b, rw (s.subs_are node, number_at-active node a.clients) refl, s)

perform_all-Shows :
    (ops : List Op) (b : EventBroadcaster) (a : Audience)
    → Shows b a
    → perform_all ops b ≡ some (serve_all ops a)
unfolding perform_all serve_all
perform_all-Shows [] b a s = refl
perform_all-Shows (op ∷ ops) b a s =
    let (b', e, s') = perform-Shows op b a s in
    rw (e, perform_all-Shows ops b' (serve op a).0 s') refl

-- Whatever is asked of a new broadcaster, in whatever order, it answers as the list of subscribers
-- does, and never panics.
pub perform_all-serve_all :
    (ops : List Op) → perform_all ops new_event_broadcaster ≡ some (serve_all ops nobody)
perform_all-serve_all ops = perform_all-Shows ops new_event_broadcaster nobody (
    unfold new_event_broadcaster lookup in
    record {
      numbered = tt;
      next_is = refl;
      streams_are = λ k. refl;
      nodes_are = λ k. refl;
      subs_are = λ n. refl;
    })
