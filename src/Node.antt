-- ===== src/Node.antt =====
-- node/state.go and node/conn.go: the node's side of a connection, a state machine driven by the
-- messages of the server. A message is handled in one step. A panic is `none`. Whether a write to
-- the server or to a service succeeds, and whether the URL of a service parses and the service
-- answers, are parameters.
pub mod Step
pub mod Run
pub mod Table
mod Tests
use unblink.Base.{
  ℕ, ◌+◌, ◌%◌, ◌^◌, Bool, true, false, Option, none, some, List, [], ◌∷◌, ◌++◌, String, string_eq,
  ◌==◌, if◌then◌else◌, on_some,
}
use unblink.Base.Dict.{Dict, lookup, insert, erase}

pub data ConnState : Type 0 where
  disconnected checking_token requesting_token registering registered closed_state : ConnState

pub record Bridge : Type 0 where
  pub id : String
  pub service_id : String
  pub url : String

pub record Conn : Type 0 where
  pub state : ConnState
  pub token : String
  pub msg_id : ℕ
  pub bridges : Dict String Bridge
  pub shutdown_closed : Bool
  pub closed : Bool
  pub run_err : Option String

-- `NewConn`, with the token of the configuration file.
unfoldable pub new_conn : String → Conn
new_conn token = record {
  state = disconnected;
  token = token;
  msg_id = 1;
  bridges = [];
  shutdown_closed = false;
  closed = false;
  run_err = none;
}

-- What the node sends; the first field is the message id.
pub data Outgoing : Type 0 where
  token_check_request : ℕ → String → Outgoing
  new_token_request : ℕ → Outgoing
  register_request : ℕ → String → Outgoing
  node_ready : ℕ → Outgoing
  open_bridge_response close_bridge_response : ℕ → Bool → Outgoing

pub data Incoming : Type 0 where
  token_check_response : Bool → Incoming
  new_token_response : String → String → Incoming
  register_response : Bool → Incoming
  open_bridge_request : ℕ → String → String → String → Incoming
  close_bridge_request : ℕ → String → Incoming
  bridge_data : String → List ℕ → Incoming
  other_message : Incoming

pub record Env : Type 0 where
  pub writes : Outgoing → Bool
  pub connects : String → Bool
  pub service_writes : String → List ℕ → Bool

-- The connection after a step, what has been sent, and whether the step returned nil.
pub record Result : Type 0 where
  pub conn : Conn
  pub sent : List Outgoing
  pub ok : Bool

abbrev pub failed : Conn → Result
failed c = record { conn = c; sent = []; ok = false }

abbrev pub enter : ConnState → Conn → Conn
enter s c = record c { state = s }

-- `getMsgID`: the old value is used.
abbrev pub count_message : Conn → Conn
count_message c = record c { msg_id = (c.msg_id + 1) % 2 ^ 64 }

abbrev pub send : Env → Outgoing → Conn → Result
send env m c = record { conn = c; sent = m ∷ []; ok = env.writes m }

-- `sendTokenCheckRequest`, `sendNewTokenRequest` and `sendRegisterRequest`
unfoldable pub send_token_check_request : Env → Conn → Result
send_token_check_request env c = send env (token_check_request c.msg_id c.token) (count_message c)

unfoldable pub send_new_token_request : Env → Conn → Result
send_new_token_request env c = send env (new_token_request c.msg_id) (count_message c)

unfoldable pub send_register_request : Env → Conn → Result
send_register_request env c = send env (register_request c.msg_id c.token) (count_message c)

-- `Connect`: only a disconnected node dials, and `dials` says whether the server answers.
unfoldable pub connect : Env → Bool → Conn → Result
unfolding send_token_check_request send_new_token_request
connect env dials c = elim c.state [
  | disconnected ↦
      if dials
      then if c.token == ""
        then send_new_token_request env (enter requesting_token c)
        else send_token_check_request env (enter checking_token c)
      else failed c
  | _ ↦ failed c
]

unfoldable pub on_token_check_response : Env → Bool → Conn → Result
unfolding send_register_request send_new_token_request
on_token_check_response env valid c = elim c.state [
  | checking_token ↦
      if valid
      then send_register_request env (enter registering c)
      else send_new_token_request env (enter requesting_token c)
  | _ ↦ failed c
]

-- A response with an error closes the state; the token is kept else.
unfoldable pub on_new_token_response : Env → String → String → Conn → Result
unfolding send_register_request
on_new_token_response env error token c = elim c.state [
  | requesting_token ↦
      if error == ""
      then send_register_request env (enter registering (record c { token = token }))
      else failed (enter closed_state c)
  | _ ↦ failed c
]

unfoldable pub on_register_response : Env → Bool → Conn → Result
on_register_response env success c = elim c.state [
  | registering ↦
      if success
      then send env (node_ready c.msg_id) (count_message (enter registered c))
      else failed (enter closed_state c)
  | _ ↦ failed c
]

-- `closeBridge` of the bridge that stands in the map.
abbrev pub close_bridge : String → Conn → Conn
close_bridge id c = record c { bridges = erase id c.bridges }

-- `handleOpenBridge`: a bridge whose response cannot be sent is closed again.
unfoldable pub handle_open_bridge : Env → ℕ → String → String → String → Conn → Result
handle_open_bridge env req bridge_id service_id url c =
    let opened = record c {
      bridges =
          insert bridge_id (record { id = bridge_id; service_id = service_id; url = url })
            c.bridges;
    } in
    let yes_response = open_bridge_response req true in
    if env.connects url
    then if env.writes yes_response
      then record { conn = opened; sent = yes_response ∷ []; ok = true }
      else record { conn = close_bridge bridge_id opened; sent = yes_response ∷ []; ok = false }
    else record { conn = c; sent = open_bridge_response req false ∷ []; ok = false }

-- `handleCloseBridge`
unfoldable pub handle_close_bridge : Env → ℕ → String → Conn → Result
handle_close_bridge env req bridge_id c =
    on_some (lookup bridge_id c.bridges)
      (record { conn = c; sent = close_bridge_response req false ∷ []; ok = false })
      λ b. send env (close_bridge_response req true) (close_bridge bridge_id c)

-- `handleBridgeData`: a service that takes no data loses its bridge.
unfoldable pub handle_bridge_data : Env → String → List ℕ → Conn → Result
handle_bridge_data env bridge_id chunk c = on_some (lookup bridge_id c.bridges) (failed c) λ b.
    if env.service_writes bridge_id chunk
    then record { conn = c; sent = []; ok = true }
    else failed (close_bridge bridge_id c)

-- Only a registered node handles bridges.
abbrev pub if_registered : Conn → Result → Result
if_registered c r = elim c.state [ registered ↦ r | _ ↦ failed c ]

-- `handleMessage`
unfoldable pub handle_message : Env → Incoming → Conn → Result
handle_message env (token_check_response valid) c = on_token_check_response env valid c
handle_message env (new_token_response error token) c = on_new_token_response env error token c
handle_message env (register_response success) c = on_register_response env success c
handle_message env (open_bridge_request req bridge_id service_id url) c =
    if_registered c (handle_open_bridge env req bridge_id service_id url c)
handle_message env (close_bridge_request req bridge_id) c =
    if_registered c (handle_close_bridge env req bridge_id c)
handle_message env (bridge_data bridge_id chunk) c =
    if_registered c (handle_bridge_data env bridge_id chunk c)
handle_message env other_message c = failed c

-- `messageLoop` when a read fails: the error is kept, unless the node is shutting down, and the
-- shutdown channel is closed, unless it is closed already.
unfoldable pub end_message_loop : String → Conn → Conn
end_message_loop error c = if c.shutdown_closed then c else record c {
  run_err = elim c.run_err [ none ↦ some error | some e ↦ some e ];
  shutdown_closed = true;
}

-- `Close`, which closes the shutdown channel without looking.
unfoldable pub close : Conn → Option Conn
close c =
    if c.closed
    then some c
    else if c.shutdown_closed
    then none
    else some (record c { closed = true; shutdown_closed = true; bridges = [] })
