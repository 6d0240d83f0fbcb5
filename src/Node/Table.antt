-- ===== src/Node/Table.antt =====
-- node/state.go: the states of a connection as a table, and a sequence of messages against it.
use unblink.Base.{
  ◌≡◌, ◌∙◌, ap, refl, Bool, true, false, List, [], ◌∷◌, ◌++◌, string_eq, ◌==◌, if◌then◌else◌, arith,
}
use unblink.Node.{
  ConnState, checking_token, requesting_token, registering, registered, closed_state, Conn,
  Outgoing, token_check_request, new_token_request, register_request, node_ready,
  open_bridge_response, close_bridge_response, Incoming, token_check_response, new_token_response,
  register_response, open_bridge_request, close_bridge_request, bridge_data, other_message, Env,
  send_new_token_request, send_register_request, on_token_check_response, on_new_token_response,
  on_register_response, handle_open_bridge, handle_close_bridge, handle_bridge_data, handle_message,
}
use unblink.Node.Run.{run}

-- The state after a message.
abbrev pub after : ConnState → Incoming → ConnState
after checking_token (token_check_response true) = registering
after checking_token (token_check_response false) = requesting_token
after requesting_token (new_token_response error token) =
    if error == "" then registering else closed_state
after registering (register_response true) = registered
after registering (register_response false) = closed_state
after s m = s

-- What the node asks for on its own account; the answers on bridges are not among it.
pub data Request : Type 0 where
  checks asks registers is_ready : Request

abbrev pub requests : List Outgoing → List Request
requests [] = []
requests (token_check_request id token ∷ ms) = checks ∷ requests ms
requests (new_token_request id ∷ ms) = asks ∷ requests ms
requests (register_request id token ∷ ms) = registers ∷ requests ms
requests (node_ready id ∷ ms) = is_ready ∷ requests ms
requests (open_bridge_response id success ∷ ms) = requests ms
requests (close_bridge_response id success ∷ ms) = requests ms

-- What a state that is entered asks for.
abbrev pub entered : ConnState → List Request
entered requesting_token = asks ∷ []
entered registering = registers ∷ []
entered registered = is_ready ∷ []
entered s = []

abbrev same_state : ConnState → ConnState → Bool
same_state checking_token checking_token = true
same_state requesting_token requesting_token = true
same_state registering registering = true
same_state registered registered = true
same_state closed_state closed_state = true
same_state s t = false

-- The table's walk: the last state, and what the states on the way ask for.
abbrev pub walk : ConnState → List Incoming → ConnState × List Request
walk s [] = (s, [])
walk s (m ∷ ms) =
    let t = after s m in
    let (last, asked) = walk t ms in (last, if same_state s t then asked else entered t ++ asked)

-- What a message adds to the walk.
abbrev asked : ConnState → ConnState → List Request
asked s t = if same_state s t then [] else entered t

-- A message moves the state as the table says, and its requests are those of the state entered.
abbrev Steps : Env → Incoming → Conn → Type 0
Steps env m c =
    let r = handle_message env m c in
    (r.conn.state ≡ after c.state m) × (requests r.sent ≡ asked c.state (after c.state m))

handle_message-after : (env : Env) (m : Incoming) (c : Conn) → Steps env m c
unfolding handle_message on_token_check_response on_new_token_response on_register_response
    send_register_request send_new_token_request handle_open_bridge handle_close_bridge
    handle_bridge_data
handle_message-after env (token_check_response true) c = ground arith
handle_message-after env (token_check_response false) c = ground arith
handle_message-after env (new_token_response error token) c = ground arith
handle_message-after env (register_response true) c = ground arith
handle_message-after env (register_response false) c = ground arith
handle_message-after env (open_bridge_request req bridge_id service_id url) c = ground arith
handle_message-after env (close_bridge_request req bridge_id) c = ground arith
handle_message-after env (bridge_data bridge_id chunk) c = ground arith
handle_message-after env other_message c = ground arith

requests-append : (xs ys : List Outgoing) → requests (xs ++ ys) ≡ requests xs ++ requests ys
requests-append [] ys = refl
requests-append (token_check_request id token ∷ xs) ys =
    ap (λ l. checks ∷ l) (requests-append xs ys)
requests-append (new_token_request id ∷ xs) ys = ap (λ l. asks ∷ l) (requests-append xs ys)
requests-append (register_request id token ∷ xs) ys =
    ap (λ l. registers ∷ l) (requests-append xs ys)
requests-append (node_ready id ∷ xs) ys = ap (λ l. is_ready ∷ l) (requests-append xs ys)
requests-append (open_bridge_response id success ∷ xs) ys = requests-append xs ys
requests-append (close_bridge_response id success ∷ xs) ys = requests-append xs ys

asked-walk :
    (s t : ConnState) (l : List Request)
    → asked s t ++ l ≡ (if same_state s t then l else entered t ++ l)
asked-walk s t l = ground arith

-- A sequence of messages takes the connection through exactly the states of the table. A valid token
-- leads to the registration and an invalid one to a new token; a new token leads to the registration,
-- and an error to the closed state; an accepted registration leads to the registered state, and a
-- refused one to the closed state; every other message leaves the state as it is. The requests that
-- the node sends, beside its answers on bridges, are those of the states it enters, in that order: for
-- a new token, to be registered, and that it is ready. Failing writes and services change nothing of
-- this.
pub run-walk :
    (env : Env) (ms : List Incoming) (c : Conn)
    → ((run env ms c).0.state ≡ (walk c.state ms).0)
      × (requests (run env ms c).1 ≡ (walk c.state ms).1)
unfolding run
run-walk env [] c = (refl, refl)
run-walk env (m ∷ ms) c =
    let r = handle_message env m c in
    let (moved, said) = handle_message-after env m c in
    let (state, sent) = run-walk env ms r.conn in
    (
      state ∙ ap (λ s. (walk s ms).0) moved,
      requests-append r.sent (run env ms r.conn).1
          ∙ ap (λ l. l ++ requests (run env ms r.conn).1) said
          ∙ ap (λ l. asked c.state (after c.state m) ++ l) (sent ∙ ap (λ s. (walk s ms).1) moved)
          ∙ asked-walk c.state (after c.state m) (walk (after c.state m) ms).1,
    )
