-- ===== src/Rpc/Authorised.antt =====
-- server/service/service.go: who may make which call.
use unblink.Base.{
  ◌≡◌, ◌∙◌, ap, refl, true, false, none, some, ◌⊎◌, inl, inr, String, string_eq, ◌==◌, arith,
  Option-cases, if_ind, Option,
}
use unblink.Base.Dict.{lookup}
use unblink.Access.{
  or_stop, or_error, or_nil, required, or_error-response, or_nil-response, Response, refused,
  crashed, response, internal, not_found, unauthenticated, get_user_id,
  check_node_access_with_context, Code,
}
use unblink.Database
use unblink.Database.{Db, Procedure}
use unblink.Database.Nodes
use unblink.Database.Users
use unblink.Registry.{Service}
use unblink.Rpc
use unblink.Database.Writes.{get_service-row, get_sop_procedure-row}

abbrev pub IsRefusal : Response Rpc.Answer → Type 0
IsRefusal (refused code) = Unit
IsRefusal crashed = ⊥
IsRefusal (response a) = ⊥

-- The calls that follow a nil pointer, instead of answering "not found": no row has the id.
abbrev pub IsMissing : Rpc.Call → Rpc.World → Type 0
IsMissing (Rpc.updates_service id name url) w = lookup id w.db.services ≡ none
IsMissing (Rpc.deletes_service id) w = lookup id w.db.services ≡ none
IsMissing call w = ⊥

-- A call that was not let through: an error, or a panic on a row that is not there.
abbrev pub Stopped : Type 0 → Response Rpc.Answer → Type 0
Stopped Q r = IsRefusal r ⊎ ((r ≡ crashed) × Q)

-- The user of the context may see the node.
abbrev pub MaySee : Rpc.Env → Rpc.World → String → Type 0
MaySee env w node =
    (user : String) × (get_user_id env.user ≡ some user)
    × (Nodes.check_node_access env.fails node user w.db ≡ some true)

-- The user of the context may see the node of a row.
abbrev pub MaySeeService : Rpc.Env → Rpc.World → String → Type 0
MaySeeService env w id =
    (svc : Service) × (lookup id w.db.services ≡ some svc) × MaySee env w svc.node_id

abbrev pub MaySeeProcedure : Rpc.Env → Rpc.World → String → Type 0
MaySeeProcedure env w id =
    (proc : Procedure) × (lookup id w.db.procedures ≡ some proc) × MaySee env w proc.node_id

abbrev pub Allowed : Rpc.Env → Rpc.World → Rpc.Call → Type 0
Allowed env w (Rpc.creates_service id name url node) = MaySee env w node
Allowed env w (Rpc.updates_service id name url) = MaySeeService env w id
Allowed env w (Rpc.deletes_service id) = MaySeeService env w id
Allowed env w (Rpc.lists_services node) = MaySee env w node
Allowed env w (Rpc.creates_procedure id node title content) = MaySee env w node
Allowed env w (Rpc.updates_procedure id title content) = MaySeeProcedure env w id
Allowed env w (Rpc.deletes_procedure id) = MaySeeProcedure env w id
Allowed env w (Rpc.lists_procedures node) = MaySee env w node
Allowed env w (Rpc.associates node) =
    (user : String) × (get_user_id env.user ≡ some user)
    × (Users.is_guest env.fails user w.db ≡ some false)
Allowed env w Rpc.lists_nodes = (user : String) × (get_user_id env.user ≡ some user)

-- Either this is so, or the call was stopped and changed nothing.
abbrev Checked : Type 0 → Type 0 → Rpc.World → Rpc.World × Response Rpc.Answer → Type 0
Checked Q P w x = P ⊎ ((x.0 ≡ w) × Stopped Q x.1)

stop-Checked {ℓ} :
    {A : Type ℓ} (Q P : Type 0) (r : Response A) (w : Rpc.World)
    (f : A → Rpc.World × Response Rpc.Answer)
    → (r ≡ crashed → Q)
    → ((a : A) → r ≡ response a → Checked Q P w (f a))
    → Checked Q P w (or_stop r w f)
unfolding or_stop
stop-Checked Q P (refused code) w f n q = inr (refl, inl tt)
stop-Checked Q P crashed w f n q = inr (refl, inr (refl, n refl))
stop-Checked Q P (response a) w f n q = q a refl

or_error-crashed {ℓ} :
    {A : Type ℓ} (Q : Type 0) (o : Option A) (code : Code) → or_error o code ≡ crashed → Q
or_error-crashed Q none code e = absurd (cc)
or_error-crashed Q (some a) code e = absurd (cc)

required-Checked :
    (Q P : Type 0) (field : String) (w : Rpc.World) (x : Rpc.World × Response Rpc.Answer)
    → Checked Q P w x
    → Checked Q P w (required field w x)
unfolding required
required-Checked Q P field w x q =
    if_ind (Checked Q P w) (field == "") _ x (λ _. inr (refl, inl tt)) (λ _. q)

access-crashed :
    (Q : Type 0) (env : Rpc.Env) (node : String) (w : Rpc.World)
    → Rpc.access env node w ≡ crashed
    → Q
unfolding check_node_access_with_context
access-crashed Q env node w e = elim (Option-cases (get_user_id env.user)) [
  | inl unknown ↦ absurd (ground (arith, e, unknown))
  | inr (user, known) ↦ elim (Option-cases (Nodes.check_node_access env.fails node user w.db)) [
    | inl error ↦ absurd (ground (arith, e, known, error))
    | inr (granted, answered) ↦ absurd (ground (arith, e, known, answered))
  ]
]

access-MaySee :
    (env : Rpc.Env) (node : String) (w : Rpc.World) (u : Unit {0})
    → Rpc.access env node w ≡ response u
    → MaySee env w node
unfolding check_node_access_with_context
access-MaySee env node w u e = elim (Option-cases (get_user_id env.user)) [
  | inl unknown ↦ ground (arith, e, unknown)
  | inr (user, known) ↦ elim (Option-cases (Nodes.check_node_access env.fails node user w.db)) [
    | inl error ↦ ground (arith, e, known, error)
    | inr (true, granted) ↦ (user, known, granted)
    | inr (false, denied) ↦ ground (arith, e, known, denied)
  ]
]

-- A check of the node of the request, before anything else is done.
node-Checked :
    (Q : Type 0) (env : Rpc.Env) (node : String) (w : Rpc.World)
    (f : Unit {0} → Rpc.World × Response Rpc.Answer)
    → Checked Q (MaySee env w node) w (or_stop (Rpc.access env node w) w f)
node-Checked Q env node w f =
    stop-Checked Q _ _ w f (access-crashed Q env node w) (λ u e. inl (access-MaySee env node w u e))

get_service-none :
    (env : Rpc.Env) (id : String) (w : Rpc.World) (row : Option Service)
    → Database.get_service env.fails id w.db ≡ some row
    → or_nil row ≡ crashed
    → lookup id w.db.services ≡ none
unfolding Database.get_service
get_service-none env id w none e n = ground (arith, e)
get_service-none env id w (some svc) e n = absurd (cc)

-- A row is read, and its node is checked.
service-Checked :
    (env : Rpc.Env) (id : String) (w : Rpc.World)
    (f : Service → Unit {0} → Rpc.World × Response Rpc.Answer)
    → Checked (lookup id w.db.services ≡ none) (MaySeeService env w id) w (
        or_stop
          (or_error (Database.get_service env.fails id w.db) not_found)
          w
          λ row. or_stop (or_nil row) w λ svc. or_stop (Rpc.access env svc.node_id w) w (f svc))
service-Checked env id w f = stop-Checked _ _ _ w _ (or_error-crashed _ _ not_found) λ row found.
    stop-Checked _ _ _ w _ (get_service-none env id w row (or_error-response _ not_found row found))
      λ svc there. stop-Checked _ _ _ w _ (access-crashed _ env svc.node_id w) λ u e. inl (
        svc,
        get_service-row env.fails id w.db row svc (or_error-response _ not_found row found)
            (or_nil-response row svc there),
        access-MaySee env svc.node_id w u e,
      )

procedure-Checked :
    (Q : Type 0) (env : Rpc.Env) (id : String) (w : Rpc.World)
    (f : Procedure → Unit {0} → Rpc.World × Response Rpc.Answer)
    → Checked Q (MaySeeProcedure env w id) w (
        or_stop (or_error (Database.get_sop_procedure env.fails id w.db) internal) w λ row.
          or_stop
            (or_error row not_found)
            w
            λ proc. or_stop (Rpc.access env proc.node_id w) w (f proc))
procedure-Checked Q env id w f = stop-Checked _ _ _ w _ (or_error-crashed _ _ internal) λ row found.
    stop-Checked _ _ _ w _ (or_error-crashed _ row not_found) λ proc there.
      stop-Checked _ _ _ w _ (access-crashed _ env proc.node_id w) λ u e. inl (
        proc,
        get_sop_procedure-row env.fails id w.db row proc (or_error-response _ internal row found)
            (or_error-response row not_found proc there),
        access-MaySee env proc.node_id w u e,
      )

user-Checked :
    (Q : Type 0) (env : Rpc.Env) (w : Rpc.World) (P : Type 0)
    (f : String → Rpc.World × Response Rpc.Answer)
    → ((user : String) → get_user_id env.user ≡ some user → Checked Q P w (f user))
    → Checked Q P w (or_stop (or_error (get_user_id env.user) unauthenticated) w f)
user-Checked Q env w P f q =
    stop-Checked Q P _ w f (or_error-crashed Q _ unauthenticated)
      (λ user e. q user (or_error-response _ unauthenticated user e))

-- Whatever the call: the user of the context is known and may see the node of the request or of the
-- row that it names (to associate a node: the user is no guest; to list nodes: the user is known);
-- or neither the tables nor the registry change, and the call answers with an error, or, where it
-- updates or deletes a service that has no row, follows a nil pointer.
pub perform-Allowed :
    (env : Rpc.Env) (call : Rpc.Call) (w : Rpc.World)
    → Allowed env w call
      ⊎ (((Rpc.perform env call w).0 ≡ w) × Stopped (IsMissing call w) (Rpc.perform env call w).1)
unfolding Rpc.perform
perform-Allowed env (Rpc.creates_service id name url node) w =
    unfold Rpc.create_service in required-Checked _ _ node w _ (node-Checked _ env node w _)
perform-Allowed env (Rpc.updates_service id name url) w =
    unfold Rpc.update_service in
    required-Checked _ _ id w _
      (required-Checked _ _ name w _ (required-Checked _ _ url w _ (service-Checked env id w _)))
perform-Allowed env (Rpc.deletes_service id) w =
    unfold Rpc.delete_service in required-Checked _ _ id w _ (service-Checked env id w _)
perform-Allowed env (Rpc.lists_services node) w =
    unfold Rpc.list_services_by_node_id in
    required-Checked _ _ node w _ (node-Checked _ env node w _)
perform-Allowed env (Rpc.creates_procedure id node title content) w =
    unfold Rpc.create_sop_procedure in
    required-Checked _ _ node w _ (
      required-Checked _ _ title w _
        (required-Checked _ _ content w _ (node-Checked _ env node w _)))
perform-Allowed env (Rpc.updates_procedure id title content) w =
    unfold Rpc.update_sop_procedure in
    required-Checked _ _ id w _ (
      required-Checked _ _ title w _
        (required-Checked _ _ content w _ (procedure-Checked _ env id w _)))
perform-Allowed env (Rpc.deletes_procedure id) w =
    unfold Rpc.delete_sop_procedure in required-Checked _ _ id w _ (procedure-Checked _ env id w _)
perform-Allowed env (Rpc.lists_procedures node) w =
    unfold Rpc.list_sop_procedures_by_node_id in
    required-Checked _ _ node w _ (node-Checked _ env node w _)
perform-Allowed env (Rpc.associates node) w =
    unfold Rpc.associate_user_node in
    required-Checked _ _ node w _ (
      user-Checked _ env w _ _ λ user known.
        stop-Checked _ _ _ w _ (or_error-crashed _ _ internal) λ guest e.
          if_ind (Checked _ _ w) guest _ _ (λ _. inr (refl, inl tt))
            λ is_user. inl (user, known, or_error-response _ internal guest e ∙ ap some is_user))
perform-Allowed env Rpc.lists_nodes w =
    unfold Rpc.list_user_nodes in user-Checked _ env w _ _ λ user known. inl (user, known)
