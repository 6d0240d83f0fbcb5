-- ===== src/NodeConn/Races.antt =====
-- server/node_conn.go: what a reply and a chunk of data reach, and two orders of steps in which one
-- goroutine closes or writes to a channel that another has closed.
use unblink.Base.{
  ◌==◌, if◌then◌else◌, ℕ, suc, ◌≡◌, refl, true, false, Option, none, some, List, [], ◌∷◌, ◌++◌,
  String, on_some, if◌then◌else◌, nat_eq, string_eq, arith, Option-cases, Bool-cases, inl, inr,
  length, ltb,
}
use unblink.Base.Dict.{lookup, insert, erase, lookup-insert, lookup-erase}
use unblink.NodeConn.Channels.{Channel, empty_channel, close_channel, try_send, close_all}
use unblink.NodeConn.{
  Reply, NodeConn, OpenCall, got, take_reply, add_request, add_data_channel, begin_open,
  drop_channel, abandon_open, receive_reply, begin_close, deliver, find_channel, send_data, close,
  data_capacity, next_id,
}
use unblink.NodeConn.Safety.{AllOpen-lookup}
use unblink.NodeConn.Closed.{
  close_channel-is_closed, close_channel-panics, try_send-panics, close_all-is_closed,
}
use unblink.NodeConn.Sound.{Sound, IsRegistered}

-- The reply with the message id of an `OpenBridge` reaches the channel on which that call waits, and
-- the request is pending no more; whatever else is pending or waiting stays as it was.
pub begin_open-deliver :
    (bridge_id service_id : String) (reply : Reply) (c : NodeConn) (call : OpenCall) (other k : ℕ)
    → (begin_open bridge_id service_id c).1 ≡ some call
    → (c' : NodeConn) × (deliver call.message_id reply (begin_open bridge_id service_id c).0
        ≡ some c')
      × ((receive_reply call.reply_channel c').1 ≡ got (some reply))
      × (lookup other c'.pending_requests
          ≡ (if other == call.message_id then none else lookup other c.pending_requests))
      × (lookup k c'.reply_heap ≡ (
          if k == call.reply_channel
          then some (record { items = reply ∷ []; closed = false })
          else lookup k c.reply_heap))
unfolding begin_open add_request add_data_channel deliver receive_reply take_reply try_send
begin_open-deliver bridge_id service_id reply c call other j e =
    let k = suc c.next_channel in
    let id = next_id c.next_message_id in
    let asked = add_request (add_data_channel bridge_id c) in
    let h = insert k empty_channel c.reply_heap in
    let full : Channel Reply = record { items = reply ∷ []; closed = false } in
    let pending = insert id k c.pending_requests in
    let was : (c.ready ≡ true) × (call.message_id ≡ id) × (call.reply_channel ≡ k) = ground arith in
    let (ready, same_id, same_k) = was in
    let here : lookup id pending ≡ some k =
      ground (arith, lookup-insert id id k c.pending_requests) in
    let empty : lookup k h ≡ some empty_channel =
      ground (arith, lookup-insert k k empty_channel c.reply_heap) in
    let filled : lookup k (insert k full h) ≡ some full =
      ground (arith, lookup-insert k k full h) in
    (
      record asked { pending_requests = erase id pending; reply_heap = insert k full h },
      simp (ready, same_id) (rw (here, empty) refl),
      rw same_k (rw filled refl),
      ground (
        arith,
        same_id,
        lookup-erase other id pending,
        lookup-insert other id k c.pending_requests,
      ),
      ground
          (arith, same_k, lookup-insert j k full h, lookup-insert j k empty_channel c.reply_heap),
    )

-- An `OpenBridge` whose channel was registered when `Close` ended the open connection, and which fails
-- after that, because the request cannot be sent, its time is up or its context is done, closes its
-- channel a second time and panics.
pub close-abandon_open :
    (call : OpenCall) (c c' : NodeConn)
    → c.closed ≡ false
    → IsRegistered call c
    → close c ≡ some c'
    → abandon_open call c' ≡ none
unfolding close abandon_open drop_channel
close-abandon_open call c c' open_ here e =
    elim (Option-cases (close_all c.bridge_chans c.data_heap)) [
      | inl panics ↦ ground (arith, panics)
      | inr (d, shut_data) ↦ elim (Option-cases (close_all c.pending_requests c.reply_heap)) [
        | inl panics ↦ ground (arith, shut_data, panics)
        | inr (r, replies) ↦
            let k = call.data_channel in
            let same : c'.data_heap ≡ d = ground (arith, shut_data, replies) in
            let shut =
              close_all-is_closed call.bridge_id k c.bridge_chans c.data_heap d shut_data here in
            ground (arith, same, close_channel-panics k d shut)
      ]
    ]

-- A chunk for which the message loop has found the channel, and which it sends once `CloseBridge`
-- has closed that channel, panics.
pub begin_close-send_data :
    (bridge_id : String) (k : ℕ) (chunk : List ℕ) (c c' : NodeConn)
    → find_channel bridge_id c ≡ some k
    → begin_close bridge_id c ≡ some c'
    → send_data k chunk c' ≡ none
unfolding begin_close send_data add_request
begin_close-send_data bridge_id k chunk c c' here e =
    elim (Option-cases (close_channel k c.data_heap)) [
      | inl panics ↦ ground (arith, here, panics)
      | inr (h, closed) ↦
          let same : c'.data_heap ≡ h = ground (arith, here, closed) in
          ground (
            arith,
            same,
            try_send-panics data_capacity k chunk h
                (ground (arith, close_channel-is_closed k k c.data_heap h closed)),
          )
    ]

-- The chunks that wait in a channel.
abbrev pub queued : ℕ → NodeConn → Option (List (List ℕ))
queued k c = on_some (lookup k c.data_heap) none (λ ch. some ch.items)

-- A chunk for a registered bridge goes to the end of its channel, unless 2000 chunks wait there
-- already, and is dropped then; what waits in the other channels stays as it was.
pub send_data-queued :
    (bridge_id : String) (k j : ℕ) (chunk : List ℕ) (items : List (List ℕ)) (c : NodeConn)
    → Sound c
    → find_channel bridge_id c ≡ some k
    → queued k c ≡ some items
    → (c' : NodeConn) × (send_data k chunk c ≡ some c')
      × (queued j c' ≡ (
          if j == k
          then some (if ltb (length items) 2000 then items ++ chunk ∷ [] else items)
          else queued j c))
unfolding send_data try_send
send_data-queued bridge_id k j chunk items c s here waiting =
    let (op, _) =
      AllOpen-lookup c.next_channel k bridge_id c.bridge_chans c.data_heap s.data_open here in
    let (ch, there, is_open) = op in
    let grown : Channel (List ℕ) = record ch { items = ch.items ++ chunk ∷ [] } in
    let these : ch.items ≡ items = ground (arith, there, waiting) in
    elim (Bool-cases (ltb (length ch.items) data_capacity)) [
      | inl room ↦ (
        record c { data_heap = insert k grown c.data_heap },
        rw (there, is_open, room) refl,
        ground (arith, these, room, lookup-insert j k grown c.data_heap),
      )
      | inr full ↦ (c, rw (there, is_open, full) refl, ground (arith, waiting, these, full))
    ]
