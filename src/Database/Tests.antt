-- ===== src/Database/Tests.antt =====
-- database/table_user_node.go on two users and one node.
use unblink.Base.{
  ◌≡◌, refl, Bool, false, some, [], ◌∷◌, String, string_eq, ◌==◌, ◌||◌, if◌then◌else◌,
}
use unblink.Database.{Db, Query}
use unblink.Database.Nodes.{
  associate_user_node, is_associated, check_node_access, associate_user_node-access,
}

abbrev works : Query → Bool
works q = false

abbrev node : String
node = "node"

abbrev eve : String
eve = "eve"

abbrev taken : Db
taken = record {
  services = [];
  procedures = [];
  user_node = ("ann", "node") ∷ [];
  users = [];
  accounts = [];
}

abbrev shared : Db
shared = record taken { user_node = ("ann", "node") ∷ ("ben", "node") ∷ [] }

joins : associate_user_node works "ben" "node" taken ≡ some shared
unfolding associate_user_node string_eq
joins = refl

associate_user_node-access_example : check_node_access works node eve shared ≡ (
    if node == node
    then some (eve == "ben" || is_associated node eve taken.user_node)
    else check_node_access works node eve taken)
associate_user_node-access_example =
    associate_user_node-access works "ben" node eve node taken shared refl refl joins
