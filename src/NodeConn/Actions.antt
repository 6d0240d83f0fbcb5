-- ===== src/NodeConn/Actions.antt =====
-- server/node_conn.go: every action on a connection as one function, and which may panic.
use unblink.Base.{ℕ, ◌≡◌, refl, Option, some, List, String, nat_eq, string_eq}
use unblink.NodeConn.{
  Reply, NodeConn, OpenCall, begin_open, abandon_open, forget_request, receive_reply, finish_open,
  begin_close, deliver, send_data, close,
}
use unblink.NodeConn.Safety.{IsOpen}
use unblink.NodeConn.Sound.{
  Sound, IsRegistered, NeedsChannel, result_of, begin_open-Sound, forget_request-Sound,
  drop_channel-Sound, begin_close-Sound, deliver-Sound, send_data-Sound, close-Sound,
  receive_reply-Sound, finish_open-Sound,
}

pub data Action : Type 0 where
  opens : String → String → Action
  abandons : OpenCall → Action
  finishes : OpenCall → ℕ → Option Reply → Action
  receives : ℕ → Action
  closes_bridge : String → Action
  gives_up : ℕ → Action
  replies : ℕ → Reply → Action
  sends : ℕ → List ℕ → Action
  shuts : Action

unfoldable pub act : Action → NodeConn → Option NodeConn
act (opens bridge_id service_id) c = some (begin_open bridge_id service_id c).0
act (abandons call) c = abandon_open call c
act (finishes call now reply) c = result_of (finish_open call now reply c)
act (receives k) c = some (receive_reply k c).0
act (closes_bridge bridge_id) c = begin_close bridge_id c
act (gives_up id) c = some (forget_request id c)
act (replies id reply) c = deliver id reply c
act (sends k chunk) c = send_data k chunk c
act shuts c = close c

-- An `OpenBridge` that fails must find its channel still registered, and data must find the channel
-- that was looked up for it still open.
abbrev pub Allowed : Action → NodeConn → Type 0
Allowed (opens bridge_id service_id) c = Unit
Allowed (abandons call) c = IsRegistered call c
Allowed (finishes call now reply) c = NeedsChannel call reply c
Allowed (receives k) c = Unit
Allowed (closes_bridge bridge_id) c = Unit
Allowed (gives_up id) c = Unit
Allowed (replies id reply) c = Unit
Allowed (sends k chunk) c = IsOpen k c.data_heap
Allowed shuts c = Unit

-- No action panics, in any order, and the invariant holds after each: opening and closing bridges,
-- replies and data from the node, and the end of the connection. There are two conditions. An
-- `OpenBridge` that is given up or refused must find its channel still registered. A send of data,
-- which comes after the lookup of its channel and without the lock, must find that channel not closed
-- in between.
pub act-Sound :
    (a : Action) (c : NodeConn)
    → Allowed a c
    → Sound c
    → (c' : NodeConn) × (act a c ≡ some c') × Sound c'
unfolding act abandon_open
act-Sound (opens b service_id) c ok s = (_, refl, begin_open-Sound b service_id c s)
act-Sound (abandons call) c ok s =
    drop_channel-Sound call (forget_request call.message_id c) ok
      (forget_request-Sound call.message_id c s)
act-Sound (finishes call now reply) c ok s = finish_open-Sound call now reply c ok s
act-Sound (receives k) c ok s = (_, refl, receive_reply-Sound k c s)
act-Sound (closes_bridge b) c ok s = begin_close-Sound b c s
act-Sound (gives_up id) c ok s = (_, refl, forget_request-Sound id c s)
act-Sound (replies id reply) c ok s = deliver-Sound id reply c s
act-Sound (sends k chunk) c ok s = send_data-Sound k chunk c ok s
act-Sound shuts c ok s = close-Sound c s
