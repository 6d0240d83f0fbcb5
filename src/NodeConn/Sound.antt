-- ===== src/NodeConn/Sound.antt =====
-- server/node_conn.go: the invariant of a connection, operation by operation.
use unblink.Base.{
  ℕ, suc, ◌≡◌, refl, true, false, Option, none, some, List, [], ◌∷◌, String, nat_eq, string_eq,
  ◌==◌, if_ind, on_some_ind, arith, Option-cases, Bool-cases, inl, inr,
}
use unblink.Base.Dict.{lookup, insert, erase, lookup-insert}
use unblink.NodeConn.Channels.{Channel, empty_channel, Heap}
use unblink.NodeConn.{
  Reply, open_response, close_response, NodeConn, OpenCall, Received, waits, got, take_reply,
  add_request, add_data_channel, begin_open, drop_channel, forget_request, receive_reply,
  finish_open, begin_close, deliver, send_data, find_channel, close, data_capacity, next_id,
}
use unblink.NodeConn.Safety.{
  IsOpen, AllOpen, Keeps, close_channel-open, AllOpen-Only, close_all-AllOpen, AllOpen-Keeps,
  Keeps-insert, try_send-Keeps, AllOpen-insert, AllOpen-erase, AllOpen-lookup,
}

-- The channels of both maps are open, each under one key, and with a number that has been given out.
pub record Sound (c : NodeConn) : Type 0 where
  pub data_open : AllOpen c.next_channel c.bridge_chans c.data_heap
  pub replies_open : AllOpen c.next_channel c.pending_requests c.reply_heap

abbrev pub IsRegistered : OpenCall → NodeConn → Type 0
IsRegistered call c = lookup call.bridge_id c.bridge_chans ≡ some call.data_channel

abbrev pub result_of {ℓ} : {B : Type ℓ} → Option (NodeConn × B) → Option NodeConn
result_of none = none
result_of (some (c, b)) = some c

abbrev pub Passes : Option NodeConn → Type 0
Passes o = (c : NodeConn) × (o ≡ some c) × Sound c

-- A channel that loses an item stays as it was, open or closed.
Keeps-same :
    {A : Type 0} (k : ℕ) (ch : Channel A) (rest : List A) (h : Heap A)
    → lookup k h ≡ some ch
    → Keeps h (insert k (record ch { items = rest }) h)
Keeps-same k ch rest h e j (x, there, o) = elim (Bool-cases (j == k)) [
  | inl same ↦ (
    record ch { items = rest },
    ground (arith, same, lookup-insert j k (record ch { items = rest }) h),
    ground (arith, same, e, there, o),
  )
  | inr other ↦
      (x, ground (arith, other, there, lookup-insert j k (record ch { items = rest }) h), o)
]

new_channel-IsOpen : {A : Type 0} (k : ℕ) (h : Heap A) → IsOpen k (insert k empty_channel h)
new_channel-IsOpen k h = (empty_channel, ground (arith, lookup-insert k k empty_channel h), refl)

add_request-Sound : (c : NodeConn) → Sound c → Sound (add_request c)
unfolding add_request
add_request-Sound c s =
    let k = c.next_channel in
    let h = insert k empty_channel c.reply_heap in
    record {
      data_open =
          AllOpen-Keeps k (suc k) c.bridge_chans c.data_heap c.data_heap (omega arith) (λ j o. o)
            s.data_open;
      replies_open =
          AllOpen-insert k (next_id c.next_message_id) c.pending_requests h
            (new_channel-IsOpen k c.reply_heap)
            (AllOpen-Keeps k k c.pending_requests c.reply_heap h (omega arith)
              (Keeps-insert k empty_channel c.reply_heap refl) s.replies_open);
    }

add_data_channel-Sound : (b : String) (c : NodeConn) → Sound c → Sound (add_data_channel b c)
unfolding add_data_channel
add_data_channel-Sound b c s =
    let k = c.next_channel in
    let h = insert k empty_channel c.data_heap in
    record {
      data_open = AllOpen-insert k b c.bridge_chans h (new_channel-IsOpen k c.data_heap) (
          AllOpen-Keeps k k c.bridge_chans c.data_heap h (omega arith)
            (Keeps-insert k empty_channel c.data_heap refl) s.data_open);
      replies_open =
          AllOpen-Keeps k (suc k) c.pending_requests c.reply_heap c.reply_heap (omega arith)
            (λ j o. o) s.replies_open;
    }

pub begin_open-Sound :
    (b service_id : String) (c : NodeConn) → Sound c → Sound (begin_open b service_id c).0
unfolding begin_open
begin_open-Sound b service_id c s = elim (Bool-cases c.ready) [
  | inl ready ↦ simp ready (add_request-Sound (add_data_channel b c) (add_data_channel-Sound b c s))
  | inr not_ready ↦ simp not_ready s
]

pub forget_request-Sound : (id : ℕ) (c : NodeConn) → Sound c → Sound (forget_request id c)
forget_request-Sound id c s = record {
  data_open = s.data_open;
  replies_open = AllOpen-erase c.next_channel id c.pending_requests c.reply_heap s.replies_open;
}

pub drop_channel-Sound :
    (call : OpenCall) (c : NodeConn) → IsRegistered call c → Sound c → Passes (drop_channel call c)
unfolding drop_channel
drop_channel-Sound call c e s =
    let k = call.data_channel in
    let n = c.next_channel in
    let (open_, alone) =
      AllOpen-lookup n k call.bridge_id c.bridge_chans c.data_heap s.data_open e in
    let (h, closed, only) = close_channel-open k c.data_heap open_ in
    let rest = erase call.bridge_id c.bridge_chans in
    (
      record c { bridge_chans = rest; data_heap = h },
      rw closed,
      record {
        data_open =
            AllOpen-Only n k rest c.data_heap h alone only
              (AllOpen-erase n call.bridge_id c.bridge_chans c.data_heap s.data_open);
        replies_open = s.replies_open;
      },
    )

pub begin_close-Sound : (b : String) (c : NodeConn) → Sound c → Passes (begin_close b c)
unfolding begin_close
begin_close-Sound b c s = elim (Option-cases (lookup b c.bridge_chans)) [
  | inl gone ↦
      let left : NodeConn = record c { bridges = erase b c.bridges } in
      (
        add_request left,
        rw (gone, begin_close),
        add_request-Sound left (record { data_open = s.data_open; replies_open = s.replies_open }),
      )
  | inr (k, here) ↦
      let n = c.next_channel in
      let (open_, alone) = AllOpen-lookup n k b c.bridge_chans c.data_heap s.data_open here in
      let (h, closed, only) = close_channel-open k c.data_heap open_ in
      let rest = erase b c.bridge_chans in
      let left : NodeConn = record c {
        bridges = erase b c.bridges;
        bridge_chans = rest;
        data_heap = h;
      } in
      (
        add_request left,
        rw (here, closed, begin_close),
        add_request-Sound left (record {
          data_open =
              AllOpen-Only n k rest c.data_heap h alone only
                (AllOpen-erase n b c.bridge_chans c.data_heap s.data_open);
          replies_open = s.replies_open;
        }),
      )
]

pub deliver-Sound : (id : ℕ) (reply : Reply) (c : NodeConn) → Sound c → Passes (deliver id reply c)
unfolding deliver
deliver-Sound id reply c s = elim (Option-cases (lookup id c.pending_requests)) [
  | inl unknown ↦ (c, rw unknown, s)
  | inr (k, here) ↦
      let n = c.next_channel in
      let (open_, _) = AllOpen-lookup n k id c.pending_requests c.reply_heap s.replies_open here in
      let (h, sent, keep) = try_send-Keeps 1 k reply c.reply_heap open_ in
      let rest = erase id c.pending_requests in
      (
        record c { pending_requests = rest; reply_heap = h },
        rw (here, sent),
        record {
          data_open = s.data_open;
          replies_open =
              AllOpen-Keeps n n rest c.reply_heap h (omega arith) keep
                (AllOpen-erase n id c.pending_requests c.reply_heap s.replies_open);
        },
      )
]

pub send_data-Sound :
    (k : ℕ) (chunk : List ℕ) (c : NodeConn)
    → IsOpen k c.data_heap
    → Sound c
    → Passes (send_data k chunk c)
unfolding send_data
send_data-Sound k chunk c open_ s =
    let n = c.next_channel in
    let (h, sent, keep) = try_send-Keeps data_capacity k chunk c.data_heap open_ in
    (
      record c { data_heap = h },
      rw sent,
      record {
        data_open = AllOpen-Keeps n n c.bridge_chans c.data_heap h (omega arith) keep s.data_open;
        replies_open = s.replies_open;
      },
    )

-- A bridge's channel that is still registered is open.
pub find_channel-IsOpen :
    (b : String) (k : ℕ) (c : NodeConn) → find_channel b c ≡ some k → Sound c → IsOpen k c.data_heap
find_channel-IsOpen b k c here s =
    (AllOpen-lookup c.next_channel k b c.bridge_chans c.data_heap s.data_open here).0

pub close-Sound : (c : NodeConn) → Sound c → Passes (close c)
unfolding close
close-Sound c s =
    let n = c.next_channel in
    let (d, e) = close_all-AllOpen n c.bridge_chans c.data_heap s.data_open in
    let (r, f) = close_all-AllOpen n c.pending_requests c.reply_heap s.replies_open in
    elim (Bool-cases c.closed) [
      | inl again ↦ (c, rw again, s)
      | inr first ↦ (
        record c {
          closed = true;
          bridges = [];
          bridge_chans = [];
          pending_requests = [];
          data_heap = d;
          reply_heap = r;
        },
        rw (first, e, f),
        record { data_open = tt; replies_open = tt },
      )
    ]

pub receive_reply-Sound : (k : ℕ) (c : NodeConn) → Sound c → Sound (receive_reply k c).0
unfolding receive_reply take_reply
receive_reply-Sound k c s =
    on_some_ind (λ (p : NodeConn × Received). Sound p.0) (lookup k c.reply_heap) (c, waits) _
      (λ _. s) λ ch e. taken ch ch.items e
  where
    taken :
        (ch : Channel Reply) (items : List Reply)
        → lookup k c.reply_heap ≡ some ch
        → Sound (take_reply k c ch items).0
    taken ch [] e =
        if_ind (λ (p : NodeConn × Received). Sound p.0) ch.closed (c, got none) (c, waits) (λ _. s)
          (λ _. s)
    taken ch (r ∷ rest) e = record {
      data_open = s.data_open;
      replies_open =
          AllOpen-Keeps c.next_channel c.next_channel c.pending_requests c.reply_heap
            (insert k (record ch { items = rest }) c.reply_heap) (omega arith)
            (Keeps-same k ch rest c.reply_heap e) s.replies_open;
    }

-- An `OpenBridge` that the node refuses drops its channel, and must find it registered.
abbrev pub NeedsChannel : OpenCall → Option Reply → NodeConn → Type 0
NeedsChannel call (some (open_response false error)) c = IsRegistered call c
NeedsChannel call (some (open_response true error)) c = Unit
NeedsChannel call (some (close_response ok error)) c = Unit
NeedsChannel call none c = Unit

pub finish_open-Sound :
    (call : OpenCall) (now : ℕ) (reply : Option Reply) (c : NodeConn)
    → NeedsChannel call reply c
    → Sound c
    → Passes (result_of (finish_open call now reply c))
unfolding finish_open
finish_open-Sound call now (some (open_response true error)) c e s =
    (_, refl, record { data_open = s.data_open; replies_open = s.replies_open })
finish_open-Sound call now (some (open_response false error)) c e s =
    let (q, dropped, s') = drop_channel-Sound call c e s in (q, rw dropped, s')
finish_open-Sound call now (some (close_response ok error)) c e s = (c, refl, s)
finish_open-Sound call now none c e s = (c, refl, s)
