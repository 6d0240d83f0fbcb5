-- ===== src/NodeConn/Handshake.antt =====
-- server/node_conn.go, the messages before any bridge: a node has its token checked, asks for a new
-- one, registers, and says that it is ready. The tokens are signed by a third-party package:
-- `validate_token` gives the node that a token names, and `generate_token` may fail. The texts of
-- errors and the URL of the dashboard are left out of the answers.
use unblink.Base.{
  ℕ, ◌≡◌, ◌≢◌, refl, Bool, true, false, Option, none, some, List, [], ◌∷◌, String, string_eq, ◌==◌,
  if◌then◌else◌, ◌⊎◌, inl, inr, arith,
}
use unblink.NodeConn.{NodeConn, new_node_conn}
use unblink.Server.{Server, connect, notify_node_ready}

pub record Env : Type 0 where
  pub validate_token : String → Option String
  pub generate_token : String → Option String
  pub now : ℕ
  pub connection : ℕ  -- the number of this connection

-- A request with its message id.
pub data Hello : Type 0 where
  token_check : ℕ → String → String → Hello
  new_token : ℕ → String → Hello
  register : ℕ → String → String → String → List String → Hello
  node_ready : Hello

pub data Answer : Type 0 where
  token_check_response register_response : ℕ → Bool → Answer
  new_token_response : ℕ → Option String → Answer

-- `err == nil && claims.NodeID == req.NodeID`
abbrev pub is_valid : Env → String → String → Bool
is_valid env node token = elim (env.validate_token token) [ none ↦ false | some n ↦ n == node ]

pub record State : Type 0 where
  pub conn : NodeConn
  pub server : Server

-- `handleRegisterRequest`
unfoldable pub handle_register_request :
    Env → ℕ → String → String → String → List String → State → State × List Answer
handle_register_request env id node token hostname macs s =
    if is_valid env node token
    then (
      record {
        conn = record s.conn { node_id = node; hostname = hostname; mac_addresses = macs };
        server = connect env.now env.connection node hostname macs s.server;
      },
      register_response id true ∷ [],
    )
    else (s, register_response id false ∷ [])

-- `handleNodeReady`
unfoldable pub handle_node_ready : State → State × List Answer
handle_node_ready s = if s.conn.node_id == "" then (s, []) else (
  record {
    conn = record s.conn { ready = true };
    server = notify_node_ready s.conn.node_id s.server;
  },
  [],
)

-- `handleTokenCheckRequest`, `handleNewTokenRequest` and the two above.
unfoldable pub handle_hello : Env → Hello → State → State × List Answer
unfolding handle_register_request handle_node_ready
handle_hello env (token_check id node token) s =
    (s, token_check_response id (is_valid env node token) ∷ [])
handle_hello env (new_token id node) s = (s, new_token_response id (env.generate_token node) ∷ [])
handle_hello env (register id node token hostname macs) s =
    handle_register_request env id node token hostname macs s
handle_hello env node_ready s = handle_node_ready s

unfoldable pub greet : Env → List Hello → State → State
unfolding handle_hello
greet env [] s = s
greet env (m ∷ ms) s = greet env ms (handle_hello env m s).0

-- One of the requests is a registration of the node with a token that names it.
abbrev pub Authorised : Env → String → List Hello → Type 0
Authorised env node [] = ⊥
Authorised env node (register id n token hostname macs ∷ ms) =
    ((n ≡ node) × (env.validate_token token ≡ some node)) ⊎ Authorised env node ms
Authorised env node (token_check id n token ∷ ms) = Authorised env node ms
Authorised env node (new_token id n ∷ ms) = Authorised env node ms
Authorised env node (node_ready ∷ ms) = Authorised env node ms

-- A nameless connection gets its name, and with it its readiness, by an authorised registration only.
abbrev Earned : Env → List Hello → NodeConn → NodeConn → Type 0
Earned env ms c d =
    ((d.node_id ≡ c.node_id) × ((d.ready ≡ c.ready) ⊎ (c.node_id ≢ "")))
    ⊎ Authorised env d.node_id ms

greet-Earned :
    (env : Env) (ms : List Hello) (s : State) → Earned env ms s.conn (greet env ms s).conn
unfolding greet handle_hello handle_register_request handle_node_ready
greet-Earned env [] s = inl (refl, inl refl)
greet-Earned env (token_check id node token ∷ ms) s = greet-Earned env ms s
greet-Earned env (new_token id node ∷ ms) s = greet-Earned env ms s
greet-Earned env (register id node token hostname macs ∷ ms) s =
    let t = (handle_register_request env id node token hostname macs s).0 in
    ground (arith, greet-Earned env ms t)
greet-Earned env (node_ready ∷ ms) s =
    let t = (handle_node_ready s).0 in ground (arith, greet-Earned env ms t)

-- Whatever a node sends on a new connection: if the server takes it for ready, one of the messages
-- was a registration of the very node that the connection stands for, with a token that the server
-- validated for that node.
pub greet-Authorised :
    (env : Env) (server : Server) (ms : List Hello)
    → (greet env ms (record { conn = new_node_conn; server = server })).conn.ready ≡ true
    → Authorised env
        (greet env ms (record { conn = new_node_conn; server = server })).conn.node_id
        ms
unfolding new_node_conn
greet-Authorised env server ms h =
    let s : State = record { conn = new_node_conn; server = server } in
    elim (greet-Earned env ms s) [
      | inr granted ↦ granted
      | inl (same, inl quiet) ↦ ground (arith, h, quiet)
      | inl (same, inr named) ↦ absurd (named refl)
    ]
