-- ===== src/Chat.antt =====
-- server/chat/conversation.go, message.go, ui_block.go and message_send.go up to the loop of the
-- assistant, over the tables of database/table_chat.go. A text is its code points. The ids that
-- `generateID` draws come with the call. The assistant's loop and the title that a model gives
-- later are left out.
pub mod Tables
pub mod Text
pub mod Owned
pub mod Isolated
pub mod Saved
mod Tests
use unblink.Base.{
  ℕ, Bool, true, false, Option, none, some, List, [], ◌∷◌, String, string_eq, ◌==◌, not,
  if◌then◌else◌, on_some, length, eqb, is_empty, value_or,
}
use unblink.Access.{
  unauthenticated, not_found, internal, permission_denied, invalid_argument, Response, refused,
  crashed, response, get_user_id, or_error, or_stop,
}
use unblink.Chat.Tables.{
  ChatDb, Heading, MessageRow, UiBlock, Query, conversation_owner, create_conversation_row,
  get_conversation_row, list_conversation_rows, update_title, set_trait, delete_conversation_row,
  store_message, list_message_rows, store_ui_block, list_ui_block_rows,
}
use unblink.Chat.Text.{sanitize_for_postgres, temp_title}

pub data Answer : Type 0 where
  created : String → List ℕ → Answer
  conversation : Option Heading → Answer
  conversations : List Heading → Answer
  messages : List MessageRow → Answer
  ui_blocks : List UiBlock → Answer
  success : Answer

-- The statements that fail, what the context holds for the user, and whether `stream.Send` succeeds.
pub record Env : Type 0 where
  pub fails : Query → Bool
  pub user : Option String
  pub sends : Bool

-- `verifyConversationOwnership`
unfoldable pub verify_conversation_ownership : Env → String → ChatDb → Response (Unit {0})
verify_conversation_ownership env id db = elim (get_user_id env.user) [
  | none ↦ refused unauthenticated
  | some user ↦ elim (conversation_owner env.fails id db) [
    | none ↦ refused internal
    | some owner ↦
        if owner == ""
        then refused not_found
        else if owner == user
        then response tt
        else refused permission_denied
  ]
]

-- "New Chat"
abbrev new_chat : List ℕ
new_chat = 78 ∷ 101 ∷ 119 ∷ 32 ∷ 67 ∷ 104 ∷ 97 ∷ 116 ∷ []

module _ (env : Env) where
  -- `CreateConversation`; an empty title or trait has a default, "New Chat" or "monitoring".
  unfoldable pub create_conversation :
      String → List ℕ → Option String → ChatDb → ChatDb × Response Answer
  create_conversation id title trait db =
      or_stop (or_error (get_user_id env.user) unauthenticated) db λ user.
        let chosen = if value_or "" trait == "" then "monitoring" else value_or "" trait in
        let heading = if is_empty title then new_chat else title in
        or_stop (or_error (create_conversation_row env.fails id user heading chosen db) internal) db
          λ db'. (db', response (created id heading))

  -- `GetConversation`
  unfoldable pub get_conversation : String → ChatDb → ChatDb × Response Answer
  get_conversation id db = or_stop (verify_conversation_ownership env id db) db λ _.
      or_stop (or_error (get_conversation_row env.fails id db) internal) db
        λ row. or_stop (or_error row not_found) db λ conv. (db, response (conversation (some conv)))

  -- The two updates of `UpdateConversation`, of what is given.
  unfoldable pub update_fields :
      String → Option (List ℕ) → Option String → ChatDb → ChatDb × Response Answer
  update_fields id title trait db =
      or_stop (or_error (on_some title (some db) (λ t. update_title env.fails id t db)) internal) db
        λ db1.
          or_stop (or_error (on_some trait (some db1) (λ t. set_trait env.fails id t db1)) internal)
            db1
            λ db2.
              or_stop (or_error (get_conversation_row env.fails id db2) internal) db2
                λ row. (db2, response (conversation row))

  -- `UpdateConversation`
  unfoldable pub update_conversation :
      String → Option (List ℕ) → Option String → ChatDb → ChatDb × Response Answer
  update_conversation id title trait db = or_stop (verify_conversation_ownership env id db) db λ _.
      or_stop
        (on_some title (on_some trait (refused invalid_argument) (λ t. response tt))
          (λ t. response tt))
        db λ (_ : Unit {0}). update_fields id title trait db

  -- `DeleteConversation`
  unfoldable pub delete_conversation : String → ChatDb → ChatDb × Response Answer
  delete_conversation id db = or_stop (verify_conversation_ownership env id db) db λ _.
      or_stop (or_error (delete_conversation_row env.fails id db) internal) db
        λ db'. (db', response success)

  -- `ListConversations`
  unfoldable pub list_conversations : ChatDb → ChatDb × Response Answer
  list_conversations db = or_stop (or_error (get_user_id env.user) unauthenticated) db λ user.
      or_stop (or_error (list_conversation_rows env.fails user db) internal) db
        λ rows. (db, response (conversations rows))

  -- `ListMessages`
  unfoldable pub list_messages : String → ChatDb → ChatDb × Response Answer
  list_messages id db = or_stop (verify_conversation_ownership env id db) db λ _.
      or_stop (or_error (list_message_rows env.fails id db) internal) db
        λ rows. (db, response (messages rows))

  -- `ListUIBlocks`
  unfoldable pub list_ui_blocks : String → ChatDb → ChatDb × Response Answer
  list_ui_blocks id db = or_stop (verify_conversation_ownership env id db) db λ _.
      or_stop (or_error (list_ui_block_rows env.fails id db) internal) db
        λ rows. (db, response (ui_blocks rows))

  -- `maybeGenerateTitle`, but for the model: the first message of a conversation gives its title.
  unfoldable pub maybe_generate_title : String → List ℕ → ChatDb → ChatDb
  maybe_generate_title id content db = on_some (list_message_rows env.fails id db) db λ rows.
      if not (eqb (length rows) 1)
      then db
      else if is_empty (temp_title content)
      then db
      else on_some (update_title env.fails id (temp_title content) db) db (λ db'. db')

  -- `SendMessage` until the loop of the assistant: the message is saved, and its block, which is sent
  -- if it was saved.
  unfoldable pub start_message :
      String → String → String → List ℕ → ChatDb → ChatDb × Response Answer
  start_message message_id block_id id raw db =
      or_stop (verify_conversation_ownership env id db) db λ _.
        let content = sanitize_for_postgres raw in
        let msg : MessageRow = record {
          id = message_id;
          conversation_id = id;
          role = "user";
          content = content;
        } in
        or_stop (or_error (store_message env.fails msg db) internal) db λ db1.
          let db2 = maybe_generate_title id content db1 in
          let block : UiBlock = record {
            id = block_id;
            conversation_id = id;
            role = "user";
            content = content;
          } in
          on_some (store_ui_block env.fails block db2) (db2, response success)
            λ db3. (db3, if env.sends then response success else refused internal)

-- The calls of a client; new ids come with them.
pub data Call : Type 0 where
  creates : String → List ℕ → Option String → Call
  gets deletes lists_messages lists_ui_blocks : String → Call
  updates : String → Option (List ℕ) → Option String → Call
  lists : Call
  starts_message : String → String → String → List ℕ → Call

unfoldable pub perform : Env → Call → ChatDb → ChatDb × Response Answer
perform env (creates id title trait) db = create_conversation env id title trait db
perform env (gets id) db = get_conversation env id db
perform env (deletes id) db = delete_conversation env id db
perform env (lists_messages id) db = list_messages env id db
perform env (lists_ui_blocks id) db = list_ui_blocks env id db
perform env (updates id title trait) db = update_conversation env id title trait db
perform env lists db = list_conversations env db
perform env (starts_message message_id block_id id raw) db =
    start_message env message_id block_id id raw db
