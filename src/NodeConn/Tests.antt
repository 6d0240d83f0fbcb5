-- ===== src/NodeConn/Tests.antt =====
-- server/node_conn.go on a ready connection, with one bridge.
use unblink.Base.{
  List, eqb, ◌≡◌, refl, true, false, none, some, [], ◌∷◌, nat_eq, string_eq, if◌then◌else◌,
}
use unblink.Base.Dict.{lookup, insert, erase}
use unblink.NodeConn.Channels.{close_channel, close_all}
use unblink.NodeConn.{
  open_response, NodeConn, OpenCall, got, add_request, add_data_channel, begin_open, new_node_conn,
  deliver, receive_reply, find_channel, begin_close, send_data, close,
}
use unblink.Server.{new_server, connect, notify_node_ready}
use unblink.NodeConn.Handshake.{
  Env, Hello, register, node_ready, handle_register_request, handle_node_ready, handle_hello, greet,
  Authorised, greet-Authorised,
}
use unblink.NodeConn.Safety.{IsOpen}
use unblink.NodeConn.Sound.{Sound, begin_open-Sound}
use unblink.NodeConn.Actions.{sends, act, act-Sound}
use unblink.NodeConn.Races.{begin_open-deliver, begin_close-send_data, queued}

abbrev ready_conn : NodeConn
ready_conn = record new_node_conn { ready = true }

ready_conn-Sound : Sound ready_conn
unfolding new_node_conn
ready_conn-Sound = record { data_open = tt; replies_open = tt }

abbrev call : OpenCall
call = record {
  bridge_id = "b1";
  service_id = "cam";
  data_channel = 0;
  message_id = 1;
  reply_channel = 1;
}

abbrev asked : NodeConn
asked = (begin_open "b1" "cam" ready_conn).0

begins : (begin_open "b1" "cam" ready_conn).1 ≡ some call
unfolding begin_open add_request add_data_channel new_node_conn
begins = refl

asked-Sound : Sound asked
asked-Sound = begin_open-Sound "b1" "cam" ready_conn ready_conn-Sound

asked-IsOpen : IsOpen 0 asked.data_heap
unfolding begin_open add_request add_data_channel new_node_conn lookup insert nat_eq
asked-IsOpen = (record { items = []; closed = false }, refl, refl)

act-Sound_example : (c' : NodeConn) × (act (sends 0 (7 ∷ [])) asked ≡ some c') × Sound c'
act-Sound_example = act-Sound (sends 0 (7 ∷ [])) asked asked-IsOpen asked-Sound

begin_open-deliver_example :
    (c' : NodeConn) × (deliver 1 (open_response true "") asked ≡ some c')
    × ((receive_reply 1 c').1 ≡ got (some (open_response true "")))
    × (lookup 1 c'.pending_requests
        ≡ (if eqb 1 1 then none else lookup 1 ready_conn.pending_requests))
    × (lookup 4 c'.reply_heap ≡ (
        if eqb 4 1
        then some (record { items = open_response true "" ∷ []; closed = false })
        else lookup 4 ready_conn.reply_heap))
unfolding nat_eq
begin_open-deliver_example =
    begin_open-deliver "b1" "cam" (open_response true "") ready_conn call 1 4 begins

registered : find_channel "b1" asked ≡ some 0
unfolding begin_open add_request add_data_channel new_node_conn lookup insert string_eq
registered = refl

waits_empty : queued 0 asked ≡ some []
unfolding begin_open add_request add_data_channel new_node_conn lookup insert nat_eq
waits_empty = refl

abbrev shut : NodeConn
shut = record asked {
  closed = true;
  bridges = [];
  bridge_chans = [];
  pending_requests = [];
  data_heap = (0, record { items = []; closed = true }) ∷ [];
  reply_heap = (1, record { items = []; closed = true }) ∷ [];
}

shuts_down : close asked ≡ some shut
unfolding close close_all close_channel begin_open add_request add_data_channel new_node_conn lookup
    insert nat_eq
shuts_down = refl

asked_open : asked.closed ≡ false
unfolding begin_open add_request add_data_channel new_node_conn
asked_open = refl

abbrev bridgeless : NodeConn
bridgeless =
    add_request (record asked {
      bridge_chans = [];
      data_heap = (0, record { items = []; closed = true }) ∷ [];
    })

closes : begin_close "b1" asked ≡ some bridgeless
unfolding begin_close close_channel begin_open add_request add_data_channel new_node_conn lookup
    insert erase nat_eq string_eq
closes = refl

begin_close-send_data_example : send_data 0 (1 ∷ 2 ∷ []) bridgeless ≡ none
begin_close-send_data_example =
    begin_close-send_data "b1" 0 (1 ∷ 2 ∷ []) asked bridgeless registered closes

abbrev handshake : Env
handshake = record {
  validate_token = λ token. some "node";
  generate_token = λ node. some "token";
  now = 10;
  connection = 1;
}

abbrev greeting : List Hello
greeting = register 1 "node" "token" "shed" [] ∷ node_ready ∷ []

abbrev greeted : NodeConn
greeted = (greet handshake greeting (record { conn = new_node_conn; server = new_server })).conn

greeted_ready : greeted.ready ≡ true
unfolding greet handle_hello handle_register_request handle_node_ready new_node_conn new_server
    connect notify_node_ready string_eq
greeted_ready = refl

greet-Authorised_example : Authorised handshake greeted.node_id greeting
greet-Authorised_example = greet-Authorised handshake new_server greeting greeted_ready
