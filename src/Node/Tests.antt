-- ===== src/Node/Tests.antt =====
-- node/conn.go with a node that has a token and registers.
use unblink.Base.{◌≡◌, ◌⊎◌, refl, true, false, none, [], ◌∷◌, string_eq}
use unblink.Node.{
  registered, registering, closed_state, enter, Conn, Env, token_check_response, register_response,
  open_bridge_request, new_conn, connect, close, end_message_loop,
}
use unblink.Node.Step.{says_ready}
use unblink.Node.Table.{run-walk, walk, requests}
use unblink.Node.Run.{run, run-connect, run-refused, end_message_loop-close}

abbrev env : Env
env = record { writes = λ m. true; connects = λ url. true; service_writes = λ id chunk. true }

abbrev fresh : Conn
fresh = new_conn "token"

abbrev connected : Conn
connected = record fresh { state = registering; msg_id = 3 }

run-walk_example :
    ((run env (register_response true ∷ []) connected).0.state
      ≡ (walk registering (register_response true ∷ [])).0)
    × (requests (run env (register_response true ∷ []) connected).1
        ≡ (walk registering (register_response true ∷ [])).1)
run-walk_example = run-walk env (register_response true ∷ []) connected

run-connect_example :
    let (c, sent) =
      run env
        (token_check_response true ∷ register_response true ∷ [])
        (connect env true fresh).conn in
    (c.state ≡ registered) ⊎ ((c.bridges ≡ []) × (says_ready sent ≡ false))
run-connect_example =
    run-connect env true "token" (token_check_response true ∷ register_response true ∷ [])

run-refused_example :
    run env
      (register_response false ∷ open_bridge_request 5 "b1" "cam" "rtsp://10.0.0.2/1" ∷ [])
      connected
    ≡ (enter closed_state connected, [])
run-refused_example =
    run-refused env (register_response false)
      (open_bridge_request 5 "b1" "cam" "rtsp://10.0.0.2/1" ∷ []) connected refl

end_message_loop-close_example : close (end_message_loop "EOF" connected) ≡ none
unfolding new_conn
end_message_loop-close_example = end_message_loop-close "EOF" connected refl
