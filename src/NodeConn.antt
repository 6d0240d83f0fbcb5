-- ===== src/NodeConn.antt =====
-- server/node_conn.go: the server's side of the connection to a node. What a call does at once is one
-- step: a request is begun, and finished or given up later, with other goroutines in between. A data
-- channel and a reply channel are named by their numbers, and a panic is `none`.
pub mod Channels
pub mod Safety
pub mod Opened
pub mod Handshake
mod Tests
pub mod Actions
pub mod Sound
pub mod Closed
pub mod Races
use unblink.Base.{
  ℕ, suc, ◌+◌, ◌%◌, ◌^◌, Bool, true, false, not, ◌&&◌, Option, none, some, List, [], ◌∷◌, String,
  on_some, if◌then◌else◌, nat_eq, string_eq, ◌==◌, is_some,
}
use unblink.Base.Dict.{Dict, lookup, insert, erase}
use Channels.{Channel, empty_channel, Heap, close_channel, try_send, close_all}

pub record Bridge : Type 0 where
  pub bridge_id : String
  pub service_id : String
  pub created_at : ℕ

-- `*shared.OpenBridgeResponse` or `*shared.CloseBridgeResponse`: the success flag and the error.
pub data Reply : Type 0 where
  open_response close_response : Bool → String → Reply

pub record NodeConn : Type 0 where
  pub node_id : String
  pub hostname : String
  pub mac_addresses : List String
  pub ready : Bool
  pub closed : Bool
  pub bridges : Dict String Bridge
  pub bridge_chans : Dict String ℕ
  pub pending_requests : Dict ℕ ℕ
  pub next_message_id : ℕ
  pub data_heap : Heap (List ℕ)
  pub reply_heap : Heap Reply
  pub next_channel : ℕ

-- `NewNodeConn`
unfoldable pub new_node_conn : NodeConn
new_node_conn = record {
  node_id = "";
  hostname = "";
  mac_addresses = [];
  ready = false;
  closed = false;
  bridges = [];
  bridge_chans = [];
  pending_requests = [];
  next_message_id = 0;
  data_heap = [];
  reply_heap = [];
  next_channel = 0;
}

-- `make(chan []byte, 2000)`
abbrev pub data_capacity : ℕ
data_capacity = 2000

-- `getNextMessageID`: a uint64.
abbrev pub next_id : ℕ → ℕ
next_id n = (n + 1) % 2 ^ 64

-- A call of `OpenBridge` that waits for its reply.
pub record OpenCall : Type 0 where
  pub bridge_id : String
  pub service_id : String
  pub data_channel : ℕ
  pub message_id : ℕ
  pub reply_channel : ℕ

-- `make(chan any, 1)`, under the next message id.
unfoldable pub add_request : NodeConn → NodeConn
add_request c =
    let k = c.next_channel in
    let id = next_id c.next_message_id in
    record c {
      next_message_id = id;
      pending_requests = insert id k c.pending_requests;
      reply_heap = insert k empty_channel c.reply_heap;
      next_channel = suc k;
    }

unfoldable pub add_data_channel : String → NodeConn → NodeConn
add_data_channel bridge_id c =
    let k = c.next_channel in
    record c {
      bridge_chans = insert bridge_id k c.bridge_chans;
      data_heap = insert k empty_channel c.data_heap;
      next_channel = suc k;
    }

-- `OpenBridge` up to the request that it sends, under a new id for the bridge. `none` in the second
-- place: the node is not ready.
unfoldable pub begin_open : String → String → NodeConn → NodeConn × Option OpenCall
begin_open bridge_id service_id c =
    let named = add_data_channel bridge_id c in
    let asked = add_request named in
    if c.ready
    then (
      asked,
      some (record {
        bridge_id = bridge_id;
        service_id = service_id;
        data_channel = c.next_channel;
        message_id = asked.next_message_id;
        reply_channel = named.next_channel;
      }),
    )
    else (c, none)

-- `delete(nc.pendingRequests, msgID)`
abbrev pub forget_request : ℕ → NodeConn → NodeConn
forget_request id c = record c { pending_requests = erase id c.pending_requests }

-- `delete(nc.bridgeChans, bridgeID)` and `close(dataChan)`.
unfoldable pub drop_channel : OpenCall → NodeConn → Option NodeConn
drop_channel call c =
    on_some (close_channel call.data_channel c.data_heap) none
      λ h. some (record c { bridge_chans = erase call.bridge_id c.bridge_chans; data_heap = h })

-- `OpenBridge` when the request cannot be sent, the timer fires or the context is done.
unfoldable pub abandon_open : OpenCall → NodeConn → Option NodeConn
abandon_open call c = drop_channel call (forget_request call.message_id c)

-- A closed reply channel gives nil (`none`), which is no response.
pub data Received : Type 0 where
  waits : Received
  got : Option Reply → Received

unfoldable pub take_reply : ℕ → NodeConn → Channel Reply → List Reply → NodeConn × Received
take_reply k c ch [] = if ch.closed then (c, got none) else (c, waits)
take_reply k c ch (r ∷ rest) =
    (record c { reply_heap = insert k (record ch { items = rest }) c.reply_heap }, got (some r))

unfoldable pub receive_reply : ℕ → NodeConn → NodeConn × Received
receive_reply k c = on_some (lookup k c.reply_heap) (c, waits) (λ ch. take_reply k c ch ch.items)

pub data Outcome : Type 0 where
  succeeded : Outcome
  invalid_response : Outcome
  refused : String → Outcome

abbrev pub error_or : String → String → String
error_or default error = if error == "" then default else error

abbrev pub with_outcome : Outcome → Option NodeConn → Option (NodeConn × Outcome)
with_outcome o none = none
with_outcome o (some c) = some (c, o)

-- `OpenBridge` after a value has come from the reply channel.
unfoldable pub finish_open : OpenCall → ℕ → Option Reply → NodeConn → Option (NodeConn × Outcome)
finish_open call now (some (open_response true error)) c = some (
  record c {
    bridges =
        insert call.bridge_id
          (record { bridge_id = call.bridge_id; service_id = call.service_id; created_at = now })
          c.bridges;
  },
  succeeded,
)
finish_open call now (some (open_response false error)) c =
    with_outcome (refused (error_or "bridge open failed" error)) (drop_channel call c)
finish_open call now (some (close_response ok error)) c = some (c, invalid_response)
finish_open call now none c = some (c, invalid_response)

-- `CloseBridge` up to the request that it sends.
unfoldable pub begin_close : String → NodeConn → Option NodeConn
begin_close bridge_id c =
    let gone = record c { bridges = erase bridge_id c.bridges } in
    elim (lookup bridge_id c.bridge_chans) [
      | none ↦ some (add_request gone)
      | some k ↦ on_some (close_channel k c.data_heap) none λ h. some (
          add_request
            (record gone { bridge_chans = erase bridge_id c.bridge_chans; data_heap = h }))
    ]

-- `CloseBridge` after a value has come. (When it gives up, it forgets the request.)
unfoldable pub finish_close : Option Reply → Outcome
finish_close (some (close_response true error)) = succeeded
finish_close (some (close_response false error)) = refused (error_or "bridge close failed" error)
finish_close (some (open_response ok error)) = invalid_response
finish_close none = invalid_response

-- `handleOpenBridgeResponse` and `handleCloseBridgeResponse`, which differ by their logs.
unfoldable pub deliver : ℕ → Reply → NodeConn → Option NodeConn
deliver id reply c = on_some (lookup id c.pending_requests) (some c) λ k.
    on_some (try_send 1 k reply c.reply_heap) none
      (λ h. some (record (forget_request id c) { reply_heap = h }))

-- `handleBridgeData` in two steps, since it gives the read lock back before it sends: the channel is
-- looked up (an unknown bridge is passed over), and data is sent on the channel that was found.
abbrev pub find_channel : String → NodeConn → Option ℕ
find_channel bridge_id c = lookup bridge_id c.bridge_chans

unfoldable pub send_data : ℕ → List ℕ → NodeConn → Option NodeConn
send_data k chunk c =
    on_some (try_send data_capacity k chunk c.data_heap) none λ h. some (record c { data_heap = h })

-- `Close`, without its calls of the server (Server).
unfoldable pub close : NodeConn → Option NodeConn
close c =
    if c.closed
    then some c
    else on_some (close_all c.bridge_chans c.data_heap) none λ d.
      on_some (close_all c.pending_requests c.reply_heap) none λ r. some (record c {
        closed = true;
        bridges = [];
        bridge_chans = [];
        pending_requests = [];
        data_heap = d;
        reply_heap = r;
      })
