-- ===== src/Chat/Isolated.antt =====
-- server/chat/conversation.go and message_send.go: what a user's calls do to the conversations of
-- others.
use unblink.Base.{
  ℕ, ◌≡◌, ◌≢◌, ◌∙◌, ap, refl, Bool, false, not, Option, none, some, List, String, string_eq, ◌==◌,
  if_ind, on_some, on_some_ind, length, eqb, is_empty, arith, Bool-cases, Option-cases, inl, inr,
}
use unblink.Base.Dict.{lookup}
use unblink.Access.{
  internal, Response, response, get_user_id, or_stop, or_stop_ind, or_error-response,
}
use unblink.Chat.Tables.{
  ChatDb, Conversation, MessageRow, UiBlock, Query, conversation_owner, list_message_rows,
  update_title, set_trait, store_message, store_ui_block,
}
use unblink.Chat.Text.{temp_title, sanitize_for_postgres}
use unblink.Chat.Owned.{
  Same, Same-refl, Same-trans, create_conversation_row-Same, update_title-Same, set_trait-Same,
  delete_conversation_row-Same, store_message-Same, store_ui_block-Same,
}
use unblink.Chat
use unblink.Chat.{Env, Answer, Call, verify_conversation_ownership}

-- The conversation is there, and the user of the context is not its owner.
abbrev pub Foreign : Env → ChatDb → String → Type 0
Foreign env db j =
    (c : Conversation) × (lookup j db.conversations ≡ some c)
    × (get_user_id env.user ≢ some c.user_id)

-- The ids that the call brings are not in the tables.
abbrev pub Fresh : Call → ChatDb → Type 0
Fresh (Chat.creates id title trait) db = lookup id db.conversations ≡ none
Fresh (Chat.starts_message message_id block_id id raw) db = lookup block_id db.ui_blocks ≡ none
Fresh (Chat.gets id) db = Unit
Fresh (Chat.deletes id) db = Unit
Fresh (Chat.lists_messages id) db = Unit
Fresh (Chat.lists_ui_blocks id) db = Unit
Fresh (Chat.updates id title trait) db = Unit
Fresh Chat.lists db = Unit

-- Who passes the check for a conversation does not pass it for one of another user.
owner-differs :
    (env : Env) (db : ChatDb) (j id : String) (u : Unit {0})
    → Foreign env db j
    → verify_conversation_ownership env id db ≡ response u
    → (j == id) ≡ false
unfolding verify_conversation_ownership conversation_owner
owner-differs env db j id u (c, here, foreign) e = elim (Bool-cases (j == id)) [
  | inr other ↦ other
  | inl same ↦ elim (Option-cases (get_user_id env.user)) [
    | inl unknown ↦ absurd (ground (arith, e, unknown))
    | inr (user, known) ↦ absurd (ground (arith, e, known, here, foreign, same))
  ]
]

-- A call on conversation `id` that begins with the check.
checked-Same :
    (env : Env) (db : ChatDb) (j id : String) (f : Unit {0} → ChatDb × Response Answer)
    → Foreign env db j
    → ((j == id) ≡ false → Same j db (f tt).0)
    → Same j db (or_stop (verify_conversation_ownership env id db) db f).0
checked-Same env db j id f foreign q =
    or_stop_ind (Same j db) _ db f (Same-refl j db)
      (λ u e. q (owner-differs env db j id u foreign e))

get_conversation-Same :
    (env : Env) (db : ChatDb) (j id : String)
    → Foreign env db j
    → Same j db (Chat.get_conversation env id db).0
unfolding Chat.get_conversation
get_conversation-Same env db j id foreign = checked-Same env db j id _ foreign λ other.
    or_stop_ind (Same j db) _ db _ (Same-refl j db)
      λ row e. or_stop_ind (Same j db) _ db _ (Same-refl j db) (λ c f. Same-refl j db)

list_messages-Same :
    (env : Env) (db : ChatDb) (j id : String)
    → Foreign env db j
    → Same j db (Chat.list_messages env id db).0
unfolding Chat.list_messages
list_messages-Same env db j id foreign =
    checked-Same env db j id _ foreign
      λ other. or_stop_ind (Same j db) _ db _ (Same-refl j db) (λ rows e. Same-refl j db)

list_ui_blocks-Same :
    (env : Env) (db : ChatDb) (j id : String)
    → Foreign env db j
    → Same j db (Chat.list_ui_blocks env id db).0
unfolding Chat.list_ui_blocks
list_ui_blocks-Same env db j id foreign =
    checked-Same env db j id _ foreign
      λ other. or_stop_ind (Same j db) _ db _ (Same-refl j db) (λ rows e. Same-refl j db)

create_conversation-Same :
    (env : Env) (db : ChatDb) (j id : String) (title : List ℕ) (trait : Option String)
    → Foreign env db j
    → lookup id db.conversations ≡ none
    → Same j db (Chat.create_conversation env id title trait db).0
unfolding Chat.create_conversation
create_conversation-Same env db j id title trait (c, here, foreign) fresh =
    or_stop_ind (Same j db) _ db _ (Same-refl j db) λ user known.
      or_stop_ind (Same j db) _ db _ (Same-refl j db) λ db' e.
        create_conversation_row-Same env.fails j db db' id user _ _ (ground (arith, here, fresh))
          (or_error-response _ internal db' e)

delete_conversation-Same :
    (env : Env) (db : ChatDb) (j id : String)
    → Foreign env db j
    → Same j db (Chat.delete_conversation env id db).0
unfolding Chat.delete_conversation
delete_conversation-Same env db j id foreign = checked-Same env db j id _ foreign λ other.
    or_stop_ind (Same j db) _ db _ (Same-refl j db) λ db' e.
      delete_conversation_row-Same env.fails j db db' id other (or_error-response _ internal db' e)

-- A statement on what is given.
given-Same {ℓ} :
    {A : Type ℓ} (j : String) (db db' : ChatDb) (o : Option A) (f : A → Option ChatDb)
    → ((a : A) → f a ≡ some db' → Same j db db')
    → on_some o (some db) f ≡ some db'
    → Same j db db'
given-Same j db db' none f q e = record {
  row = ground (arith, e);
  messages = ground (arith, e);
  blocks = ground (arith, e);
}
given-Same j db db' (some a) f q e = q a e

update_fields-Same :
    (env : Env) (db : ChatDb) (j id : String) (title : Option (List ℕ)) (trait : Option String)
    → (j == id) ≡ false
    → Same j db (Chat.update_fields env id title trait db).0
unfolding Chat.update_fields
update_fields-Same env db j id title trait other =
    or_stop_ind (Same j db) _ db _ (Same-refl j db) λ db1 e.
      let s1 =
        given-Same j db db1 title (λ t. update_title env.fails id t db)
          (λ t. update_title-Same env.fails j db db1 id t other)
          (or_error-response _ internal db1 e) in
      or_stop_ind (Same j db) _ db1 _ s1 λ db2 f.
        let s2 = Same-trans j db db1 db2 s1 (
          given-Same j db1 db2 trait (λ t. set_trait env.fails id t db1)
            (λ t. set_trait-Same env.fails j db1 db2 id t other)
            (or_error-response _ internal db2 f)) in
        or_stop_ind (Same j db) _ db2 _ s2 (λ row g. s2)

update_conversation-Same :
    (env : Env) (db : ChatDb) (j id : String) (title : Option (List ℕ)) (trait : Option String)
    → Foreign env db j
    → Same j db (Chat.update_conversation env id title trait db).0
unfolding Chat.update_conversation
update_conversation-Same env db j id title trait foreign =
    checked-Same env db j id _ foreign λ other.
      or_stop_ind (Same j db) _ db _ (Same-refl j db)
        (λ u e. update_fields-Same env db j id title trait other)

-- The other conversation, and a block that is not there, are as before.
Kept : String → String → ChatDb → ChatDb → Type 0
Kept j block db db' = Same j db db' × (lookup block db'.ui_blocks ≡ lookup block db.ui_blocks)

store_message-blocks :
    (fails : Query → Bool) (db db' : ChatDb) (m : MessageRow)
    → store_message fails m db ≡ some db'
    → db'.ui_blocks ≡ db.ui_blocks
unfolding store_message
store_message-blocks fails db db' m e = ground (arith, e)

update_title-blocks :
    (fails : Query → Bool) (db db' : ChatDb) (id : String) (title : List ℕ)
    → update_title fails id title db ≡ some db'
    → db'.ui_blocks ≡ db.ui_blocks
unfolding update_title
update_title-blocks fails db db' id title e = elim (Option-cases (lookup id db.conversations)) [
  | inl gone ↦ ground (arith, e, gone)
  | inr (c, here) ↦ ground (arith, e, here)
]

maybe_generate_title-Kept :
    (env : Env) (db : ChatDb) (j block id : String) (content : List ℕ)
    → (j == id) ≡ false
    → Kept j block db (Chat.maybe_generate_title env id content db)
unfolding Chat.maybe_generate_title Kept
maybe_generate_title-Kept env db j block id content other =
    let P = Kept j block db in
    let same : P db = (Same-refl j db, refl) in
    on_some_ind P (list_message_rows env.fails id db) db _ (λ _. same)
      λ rows e.
        if_ind P (not (eqb (length rows) 1)) db _ (λ _. same)
          λ _.
            if_ind P (is_empty (temp_title content)) db _ (λ _. same)
              λ _.
                on_some_ind P (update_title env.fails id (temp_title content) db) db (λ db'. db')
                  (λ _. same)
                  λ db' f. (
                    update_title-Same env.fails j db db' id (temp_title content) other f,
                    ap (λ d. lookup block d)
                        (update_title-blocks env.fails db db' id (temp_title content) f),
                  )

start_message-Same :
    (env : Env) (db : ChatDb) (j message_id block_id id : String) (raw : List ℕ)
    → Foreign env db j
    → lookup block_id db.ui_blocks ≡ none
    → Same j db (Chat.start_message env message_id block_id id raw db).0
unfolding Chat.start_message Kept
start_message-Same env db j message_id block_id id raw foreign fresh =
    checked-Same env db j id _ foreign λ other.
      let content = sanitize_for_postgres raw in
      let msg : MessageRow = record {
        id = message_id;
        conversation_id = id;
        role = "user";
        content = content;
      } in
      or_stop_ind (Same j db) _ db _ (Same-refl j db) λ db1 e.
        let stored = or_error-response (store_message env.fails msg db) internal db1 e in
        let db2 = Chat.maybe_generate_title env id content db1 in
        let titled = maybe_generate_title-Kept env db1 j block_id id content other in
        let s2 =
          Same-trans j db db1 db2 (store_message-Same env.fails j db db1 msg other stored)
            titled.0 in
        let block : UiBlock = record {
          id = block_id;
          conversation_id = id;
          role = "user";
          content = content;
        } in
        on_some_ind (λ (r : ChatDb × Response Answer). Same j db r.0)
          (store_ui_block env.fails block db2) _ _ (λ _. s2)
          λ db3 f. Same-trans j db db2 db3 s2 (
            store_ui_block-Same env.fails j db2 db3 block other
              (titled.1
                ∙ ap (λ d. lookup block_id d) (store_message-blocks env.fails db db1 msg stored)
                ∙ fresh)
              f)

-- A call leaves a conversation whose owner is not the call's user as it was, with its messages and
-- its blocks in their order, whatever fails, if the ids that it brings are new.
pub perform-Same :
    (env : Env) (call : Call) (db : ChatDb) (j : String)
    → Foreign env db j
    → Fresh call db
    → Same j db (Chat.perform env call db).0
unfolding Chat.perform Chat.list_conversations
perform-Same env (Chat.creates id title trait) db j foreign fresh =
    create_conversation-Same env db j id title trait foreign fresh
perform-Same env (Chat.gets id) db j foreign fresh = get_conversation-Same env db j id foreign
perform-Same env (Chat.deletes id) db j foreign fresh = delete_conversation-Same env db j id foreign
perform-Same env (Chat.lists_messages id) db j foreign fresh =
    list_messages-Same env db j id foreign
perform-Same env (Chat.lists_ui_blocks id) db j foreign fresh =
    list_ui_blocks-Same env db j id foreign
perform-Same env (Chat.updates id title trait) db j foreign fresh =
    update_conversation-Same env db j id title trait foreign
perform-Same env Chat.lists db j foreign fresh =
    or_stop_ind (Same j db) _ db _ (Same-refl j db)
      λ user e. or_stop_ind (Same j db) _ db _ (Same-refl j db) (λ rows f. Same-refl j db)
perform-Same env (Chat.starts_message message_id block_id id raw) db j foreign fresh =
    start_message-Same env db j message_id block_id id raw foreign fresh
