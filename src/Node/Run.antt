-- ===== src/Node/Run.antt =====
-- node/conn.go: a sequence of messages from the server, and the end of the connection.
use unblink.Base.{
  ℕ, suc, ◌≡◌, refl, ◌+◌, ◌^◌, ◌≤◌, ◌<◌, ◌∙◌, ap, Bool, true, false, not, ◌==◌, none, List, [], ◌∷◌,
  ◌++◌, String, string_eq, arith, ◌⊎◌, inl, inr, length,
}
use unblink.Node.{
  ConnState, registered, registering, requesting_token, closed_state, failed, enter,
  token_check_response, new_token_response, register_response, open_bridge_request,
  close_bridge_request, bridge_data, other_message, on_token_check_response, on_new_token_response,
  on_register_response, Conn, Outgoing, Incoming, Env, send_token_check_request,
  send_new_token_request, connect, handle_message, end_message_loop, close, new_conn,
}
use unblink.Node.Step.{
  handle_message-IsReady, handle_message-ids, own_ids, own_ids-append, count_up, says_ready,
  says_ready-append, handle_message-says_ready, handle_message-closed_state,
}

-- The messages of the server one after the other, as `messageLoop` handles them: the connection at
-- the end, and all that was sent.
unfoldable pub run : Env → List Incoming → Conn → Conn × List Outgoing
run env [] c = (c, [])
run env (m ∷ ms) c =
    let r = handle_message env m c in let (d, sent) = run env ms r.conn in (d, r.sent ++ sent)

run-registered :
    (env : Env) (ms : List Incoming) (c : Conn)
    → c.state ≡ registered
    → (run env ms c).0.state ≡ registered
unfolding run
run-registered env [] c h = h
run-registered env (m ∷ ms) c h =
    run-registered env ms (handle_message env m c).conn ((handle_message-says_ready env m c).0 h)

run-says_ready :
    (env : Env) (ms : List Incoming) (c : Conn)
    → c.bridges ≡ []
    → ((run env ms c).0.state ≡ registered)
      ⊎ (((run env ms c).0.bridges ≡ []) × (says_ready (run env ms c).1 ≡ false))
unfolding run
run-says_ready env [] c h = inr (h, refl)
run-says_ready env (m ∷ ms) c h =
    let r = handle_message env m c in
    elim (handle_message-says_ready env m c).1 [
      | inl up ↦ inl (run-registered env ms r.conn up)
      | inr quiet ↦ elim (handle_message-IsReady env m c (inr h)) [
        | inl up ↦ inl (run-registered env ms r.conn up)
        | inr none_yet ↦ ground (
          arith,
          quiet,
          run-says_ready env ms r.conn none_yet,
          says_ready-append r.sent (run env ms r.conn).1 quiet,
        )
      ]
    ]

-- Whatever the server sends after the node has dialled: the node has a bridge, or has said that it
-- is ready, only once it is registered.
pub run-connect :
    (env : Env) (dials : Bool) (token : String) (ms : List Incoming)
    → let (c, sent) = run env ms (connect env dials (new_conn token)).conn in
      (c.state ≡ registered) ⊎ ((c.bridges ≡ []) × (says_ready sent ≡ false))
unfolding connect new_conn send_new_token_request send_token_check_request
run-connect env dials token ms =
    run-says_ready env ms (connect env dials (new_conn token)).conn (ground arith)

-- The messages that the node numbers itself carry one number after the other, from its counter on,
-- with none used twice and none left out, as long as the counter of 64 bits does not overflow.
pub run-own_ids :
    (env : Env) (ms : List Incoming) (c : Conn)
    → c.msg_id + length ms < 2 ^ 64
    → (n : ℕ) × (own_ids (run env ms c).1 ≡ count_up c.msg_id n)
      × ((run env ms c).0.msg_id ≡ c.msg_id + n)
      × (n ≤ length ms)
unfolding run
run-own_ids env [] c h = (0, refl, omega arith, omega arith)
run-own_ids env (m ∷ ms) c h =
    let r = handle_message env m c in
    elim (handle_message-ids env m c (omega (arith, h))) [
      | inl (none_sent, same) ↦
          let (n, ids, last, le) = run-own_ids env ms r.conn (omega (arith, h, same)) in
          (
            n,
            own_ids-append r.sent (run env ms r.conn).1
                ∙ ap (λ l. l ++ own_ids (run env ms r.conn).1) none_sent
                ∙ ids
                ∙ ap (λ a. count_up a n) same,
            omega (arith, last, same),
            omega (arith, le),
          )
      | inr (one_sent, next) ↦
          let (n, ids, last, le) = run-own_ids env ms r.conn (omega (arith, h, next)) in
          (
            suc n,
            own_ids-append r.sent (run env ms r.conn).1
                ∙ ap (λ l. l ++ own_ids (run env ms r.conn).1) one_sent
                ∙ ap (λ l. c.msg_id ∷ l) (ids ∙ ap (λ a. count_up a n) next),
            omega (arith, last, next),
            omega (arith, le),
          )
    ]

run-closed_state :
    (env : Env) (ms : List Incoming) (c : Conn) → c.state ≡ closed_state → run env ms c ≡ (c, [])
unfolding run
run-closed_state env [] c h = refl
run-closed_state env (m ∷ ms) c h =
    ground (arith, handle_message-closed_state env m c h, run-closed_state env ms c h)

-- A refusal by the server: of a new token, or of the registration.
abbrev pub refuses : ConnState → Incoming → Bool
refuses requesting_token (new_token_response error token) = not (error == "")
refuses registering (register_response success) = not success
refuses s m = false

handle_message-refuses :
    (env : Env) (m : Incoming) (c : Conn)
    → refuses c.state m ≡ true
    → handle_message env m c ≡ failed (enter closed_state c)
unfolding handle_message on_token_check_response on_new_token_response on_register_response
handle_message-refuses env (token_check_response valid) c h = ground (arith, h)
handle_message-refuses env (new_token_response error token) c h = ground (arith, h)
handle_message-refuses env (register_response success) c h = ground (arith, h)
handle_message-refuses env (open_bridge_request req b s url) c h = ground (arith, h)
handle_message-refuses env (close_bridge_request req b) c h = ground (arith, h)
handle_message-refuses env (bridge_data b chunk) c h = ground (arith, h)
handle_message-refuses env other_message c h = ground (arith, h)

-- A node that waits for a token and gets an error, or that waits for its registration and is refused,
-- is stuck from then on: its state is closed, nothing else of the connection changes, and nothing is
-- sent, whatever the server sends after the refusal.
pub run-refused :
    (env : Env) (m : Incoming) (ms : List Incoming) (c : Conn)
    → refuses c.state m ≡ true
    → run env (m ∷ ms) c ≡ (enter closed_state c, [])
unfolding run
run-refused env m ms c h =
    ground
      (arith, handle_message-refuses env m c h, run-closed_state env ms (enter closed_state c) refl)

-- Once the message loop of a connection that is not closed has ended by a failed read, `Close` closes
-- the shutdown channel a second time and panics.
pub end_message_loop-close :
    (error : String) (c : Conn) → c.closed ≡ false → close (end_message_loop error c) ≡ none
unfolding close end_message_loop
end_message_loop-close error c h = ground arith
