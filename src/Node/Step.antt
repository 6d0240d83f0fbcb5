-- ===== src/Node/Step.antt =====
-- node/state.go and node/conn.go: one message from the server, and what it does to the state, the
-- bridges and the message ids.
use unblink.Base.{
  ℕ, zero, suc, ◌≡◌, refl, ◌^◌, ◌<◌, ap, Bool, true, false, List, [], ◌∷◌, ◌++◌, string_eq, arith,
  ◌⊎◌,
}
use unblink.Node.{
  registered, closed_state, Conn, Outgoing, token_check_request, new_token_request,
  register_request, node_ready, open_bridge_response, close_bridge_response, Incoming,
  token_check_response, new_token_response, register_response, open_bridge_request,
  close_bridge_request, bridge_data, other_message, Env, failed, send_new_token_request,
  send_register_request, on_token_check_response, on_new_token_response, on_register_response,
  handle_open_bridge, handle_close_bridge, handle_bridge_data, handle_message,
}

-- Without a registration there are no bridges.
abbrev pub IsReady : Conn → Type 0
IsReady c = (c.state ≡ registered) ⊎ (c.bridges ≡ [])

pub handle_message-IsReady :
    (env : Env) (m : Incoming) (c : Conn) → IsReady c → IsReady (handle_message env m c).conn
unfolding handle_message on_token_check_response on_new_token_response on_register_response
    send_register_request send_new_token_request handle_open_bridge handle_close_bridge
    handle_bridge_data
handle_message-IsReady env (token_check_response valid) c h = ground arith
handle_message-IsReady env (new_token_response error token) c h = ground arith
handle_message-IsReady env (register_response success) c h = ground arith
handle_message-IsReady env (open_bridge_request req bridge_id service_id url) c h = ground arith
handle_message-IsReady env (close_bridge_request req bridge_id) c h = ground arith
handle_message-IsReady env (bridge_data bridge_id chunk) c h = ground arith
handle_message-IsReady env other_message c h = ground arith

-- The ids of the messages that the node numbers itself.
abbrev pub own_ids : List Outgoing → List ℕ
own_ids [] = []
own_ids (token_check_request id token ∷ ms) = id ∷ own_ids ms
own_ids (new_token_request id ∷ ms) = id ∷ own_ids ms
own_ids (register_request id token ∷ ms) = id ∷ own_ids ms
own_ids (node_ready id ∷ ms) = id ∷ own_ids ms
own_ids (open_bridge_response id success ∷ ms) = own_ids ms
own_ids (close_bridge_response id success ∷ ms) = own_ids ms

-- n numbers from a on.
abbrev pub count_up : ℕ → ℕ → List ℕ
count_up a zero = []
count_up a (suc n) = a ∷ count_up (suc a) n

pub handle_message-ids :
    (env : Env) (m : Incoming) (c : Conn)
    → suc c.msg_id < 2 ^ 64
    → let r = handle_message env m c in
      ((own_ids r.sent ≡ []) × (r.conn.msg_id ≡ c.msg_id))
      ⊎ ((own_ids r.sent ≡ c.msg_id ∷ []) × (r.conn.msg_id ≡ suc c.msg_id))
unfolding handle_message on_token_check_response on_new_token_response on_register_response
    send_register_request send_new_token_request handle_open_bridge handle_close_bridge
    handle_bridge_data
handle_message-ids env (token_check_response valid) c h = ground arith
handle_message-ids env (new_token_response error token) c h = ground arith
handle_message-ids env (register_response success) c h = ground arith
handle_message-ids env (open_bridge_request req bridge_id service_id url) c h = ground arith
handle_message-ids env (close_bridge_request req bridge_id) c h = ground arith
handle_message-ids env (bridge_data bridge_id chunk) c h = ground arith
handle_message-ids env other_message c h = ground arith

-- Whether the node has said that it is ready.
abbrev pub says_ready : List Outgoing → Bool
says_ready [] = false
says_ready (node_ready id ∷ ms) = true
says_ready (token_check_request id token ∷ ms) = says_ready ms
says_ready (new_token_request id ∷ ms) = says_ready ms
says_ready (register_request id token ∷ ms) = says_ready ms
says_ready (open_bridge_response id success ∷ ms) = says_ready ms
says_ready (close_bridge_response id success ∷ ms) = says_ready ms

pub says_ready-append :
    (xs ys : List Outgoing) → says_ready xs ≡ false → says_ready (xs ++ ys) ≡ says_ready ys
says_ready-append [] ys h = refl
says_ready-append (node_ready id ∷ xs) ys h = ground (arith, h)
says_ready-append (token_check_request id token ∷ xs) ys h = says_ready-append xs ys h
says_ready-append (new_token_request id ∷ xs) ys h = says_ready-append xs ys h
says_ready-append (register_request id token ∷ xs) ys h = says_ready-append xs ys h
says_ready-append (open_bridge_response id success ∷ xs) ys h = says_ready-append xs ys h
says_ready-append (close_bridge_response id success ∷ xs) ys h = says_ready-append xs ys h

pub handle_message-says_ready :
    (env : Env) (m : Incoming) (c : Conn)
    → let r = handle_message env m c in
      ((c.state ≡ registered) → r.conn.state ≡ registered)
      × ((r.conn.state ≡ registered) ⊎ (says_ready r.sent ≡ false))
unfolding handle_message on_token_check_response on_new_token_response on_register_response
    send_register_request send_new_token_request handle_open_bridge handle_close_bridge
    handle_bridge_data
handle_message-says_ready env (token_check_response valid) c = ground arith
handle_message-says_ready env (new_token_response error token) c = ground arith
handle_message-says_ready env (register_response success) c = ground arith
handle_message-says_ready env (open_bridge_request req bridge_id service_id url) c = ground arith
handle_message-says_ready env (close_bridge_request req bridge_id) c = ground arith
handle_message-says_ready env (bridge_data bridge_id chunk) c = ground arith
handle_message-says_ready env other_message c = ground arith

pub own_ids-append : (xs ys : List Outgoing) → own_ids (xs ++ ys) ≡ own_ids xs ++ own_ids ys
own_ids-append [] ys = refl
own_ids-append (node_ready id ∷ xs) ys = ap (λ l. id ∷ l) (own_ids-append xs ys)
own_ids-append (token_check_request id token ∷ xs) ys = ap (λ l. id ∷ l) (own_ids-append xs ys)
own_ids-append (new_token_request id ∷ xs) ys = ap (λ l. id ∷ l) (own_ids-append xs ys)
own_ids-append (register_request id token ∷ xs) ys = ap (λ l. id ∷ l) (own_ids-append xs ys)
own_ids-append (open_bridge_response id success ∷ xs) ys = own_ids-append xs ys
own_ids-append (close_bridge_response id success ∷ xs) ys = own_ids-append xs ys

pub handle_message-closed_state :
    (env : Env) (m : Incoming) (c : Conn)
    → c.state ≡ closed_state
    → handle_message env m c ≡ failed c
unfolding handle_message on_token_check_response on_new_token_response on_register_response
handle_message-closed_state env (token_check_response valid) c h = ground arith
handle_message-closed_state env (new_token_response error token) c h = ground arith
handle_message-closed_state env (register_response success) c h = ground arith
handle_message-closed_state env (open_bridge_request req b s url) c h = ground arith
handle_message-closed_state env (close_bridge_request req b) c h = ground arith
handle_message-closed_state env (bridge_data b chunk) c h = ground arith
handle_message-closed_state env other_message c h = ground arith
