-- ===== src/Database/Nodes.antt =====
-- database/table_user_node.go: which users may see which nodes.
use unblink.Base.{
  ◌≡◌, Bool, true, false, not, Option, none, some, List, [], ◌∷◌, ◌++◌, ◌&&◌, ◌||◌, String,
  string_eq, ◌==◌, if◌then◌else◌, arith,
}
use unblink.Database.{
  Db, Query, user_node_insert, user_node_delete, user_node_node, user_node_select, user_node_list,
  newest_first,
}

-- `EXISTS(SELECT 1 FROM user_node WHERE node_id = $1)`
abbrev pub has_users : String → List (String × String) → Bool
has_users node [] = false
has_users node ((_, n) ∷ rows) = n == node || has_users node rows

-- `EXISTS(SELECT 1 FROM user_node WHERE node_id = $1 AND user_id = $2)`
abbrev pub is_associated : String → String → List (String × String) → Bool
is_associated node user [] = false
is_associated node user ((u, n) ∷ rows) = (n == node && u == user) || is_associated node user rows

abbrev pub nodes_of : String → List (String × String) → List String
nodes_of user [] = []
nodes_of user ((u, n) ∷ rows) =
    let rest = nodes_of user rows in if u == user then n ∷ rest else rest

abbrev pub without : String → String → List (String × String) → List (String × String)
without user node [] = []
without user node ((u, n) ∷ rows) =
    let rest = without user node rows in if u == user && n == node then rest else (u, n) ∷ rest

module _ (fails : Query → Bool) where
  -- `AssociateUserNode`
  unfoldable pub associate_user_node : String → String → Db → Option Db
  associate_user_node user node db =
      if fails user_node_insert
      then none
      else some (
          if is_associated node user db.user_node
          then db
          else record db { user_node = db.user_node ++ (user, node) ∷ [] })

  -- `DissociateUserNode`; with no such row it is an error.
  unfoldable pub dissociate_user_node : String → String → Db → Option Db
  dissociate_user_node user node db =
      if fails user_node_delete
      then none
      else if is_associated node user db.user_node
      then some (record db { user_node = without user node db.user_node })
      else none

  -- `CheckNodeAccess`: a node with no users is open to all.
  unfoldable pub check_node_access : String → String → Db → Option Bool
  check_node_access node user db =
      if fails user_node_node
      then none
      else if not (has_users node db.user_node)
      then some true
      else if fails user_node_select
      then none
      else some (is_associated node user db.user_node)

  -- `ListUserNodes`
  unfoldable pub list_user_nodes : String → Db → Option (List String)
  list_user_nodes user db =
      if fails user_node_list then none else some (newest_first (nodes_of user db.user_node))

has_users-add :
    (node user n : String) (rows : List (String × String))
    → has_users node (rows ++ (user, n) ∷ []) ≡ (n == node || has_users node rows)
has_users-add node user n [] = ground arith
has_users-add node user n (row ∷ rows) = ground (arith, has_users-add node user n rows)

is_associated-add :
    (node user u n : String) (rows : List (String × String))
    → is_associated node user (rows ++ (u, n) ∷ [])
      ≡ ((n == node && u == user) || is_associated node user rows)
is_associated-add node user u n [] = ground arith
is_associated-add node user u n (row ∷ rows) = ground (arith, is_associated-add node user u n rows)

-- A user that a node has is a user of it.
has_users-associated :
    (node user : String) (rows : List (String × String))
    → is_associated node user rows ≡ true
    → has_users node rows ≡ true
has_users-associated node user [] e = cc
has_users-associated node user (row ∷ rows) e =
    ground (arith, has_users-associated node user rows, e)

-- Where the statements succeed, who is associated with a node may see it, whoever had it before; from
-- then on another user may see it only if they were associated with it, also when it was open to
-- all; and no other node changes.
pub associate_user_node-access :
    (fails : Query → Bool) (user node u n : String) (db db' : Db)
    → fails user_node_node ≡ false
    → fails user_node_select ≡ false
    → associate_user_node fails user node db ≡ some db'
    → check_node_access fails n u db' ≡ (
        if n == node
        then some (u == user || is_associated n u db.user_node)
        else check_node_access fails n u db)
unfolding associate_user_node check_node_access
associate_user_node-access fails user node u n db db' s t e = ground (
  arith,
  s,
  t,
  e,
  has_users-add n user node db.user_node,
  is_associated-add n u user node db.user_node,
  has_users-associated node user db.user_node,
)
