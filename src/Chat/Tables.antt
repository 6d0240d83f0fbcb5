-- ===== src/Chat/Tables.antt =====
-- database/table_chat.go: conversations in the order of `updated_at`, messages and blocks in that of
-- `created_at`. A statement may fail, and then changes nothing.
use unblink.Base.{
  ℕ, Bool, not, Option, none, some, List, [], ◌∷◌, ◌++◌, String, string_eq, ◌==◌, if◌then◌else◌,
  on_some,
}
use unblink.Base.Dict.{Dict, lookup, insert, erase, has}
use unblink.Database.{rows_where, newest_first}

pub record Conversation : Type 0 where
  pub id : String
  pub user_id : String
  pub title : List ℕ
  pub trait : String

-- What a list shows of a conversation.
pub record Heading : Type 0 where
  pub id : String
  pub title : List ℕ

-- A row of `messages`, with the role and the content of its body.
pub record MessageRow : Type 0 where
  pub id : String
  pub conversation_id : String
  pub role : String
  pub content : List ℕ

pub record UiBlock : Type 0 where
  pub id : String
  pub conversation_id : String
  pub role : String
  pub content : List ℕ

pub record ChatDb : Type 0 where
  pub conversations : Dict String Conversation
  pub messages : Dict String MessageRow
  pub ui_blocks : Dict String UiBlock

pub data Query : Type 0 where
  conversations_insert conversations_select conversations_list conversations_owner : Query
  conversations_title conversations_trait conversations_delete : Query
  messages_insert messages_list ui_blocks_insert ui_blocks_list : Query

-- A row that is written with the current time goes to the end.
abbrev pub touch {ℓ} : {A : Type ℓ} → String → A → Dict String A → Dict String A
touch id a rows = erase id rows ++ (id, a) ∷ []

-- The rows of a table that a deleted conversation does not take with it.
abbrev pub keep_rows {ℓ} : {A : Type ℓ} → (A → Bool) → Dict String A → Dict String A
keep_rows p [] = []
keep_rows p ((k, a) ∷ rows) = let rest = keep_rows p rows in if p a then (k, a) ∷ rest else rest

abbrev heading : Conversation → Heading
heading c = record { id = c.id; title = c.title }

abbrev headings : List Conversation → List Heading
headings [] = []
headings (c ∷ rows) = heading c ∷ headings rows

module _ (fails : Query → Bool) where
  -- `CreateConversation`; a row with that id is overwritten.
  unfoldable pub create_conversation_row :
      String → String → List ℕ → String → ChatDb → Option ChatDb
  create_conversation_row id user title trait db =
      if fails conversations_insert
      then none
      else some (record db {
        conversations =
            touch id
              (record {
                id = id;
                user_id = user;
                title = title;
                trait = if trait == "" then "monitoring" else trait;
              })
              db.conversations;
      })

  -- `GetConversation`
  unfoldable pub get_conversation_row : String → ChatDb → Option (Option Heading)
  get_conversation_row id db =
      if fails conversations_select
      then none
      else some (on_some (lookup id db.conversations) none (λ c. some (heading c)))

  -- `ListConversations`
  unfoldable pub list_conversation_rows : String → ChatDb → Option (List Heading)
  list_conversation_rows user db =
      if fails conversations_list
      then none
      else some (
          headings
            (newest_first (rows_where (λ (c : Conversation). c.user_id == user) db.conversations)))

  -- `UpdateConversation`
  unfoldable pub update_title : String → List ℕ → ChatDb → Option ChatDb
  update_title id title db =
      if fails conversations_title
      then none
      else on_some (lookup id db.conversations) (some db) λ c.
        some (record db { conversations = touch id (record c { title = title }) db.conversations })

  -- `SetTrait`
  unfoldable pub set_trait : String → String → ChatDb → Option ChatDb
  set_trait id trait db =
      if fails conversations_trait
      then none
      else on_some (lookup id db.conversations) (some db) λ c.
        some (record db { conversations = touch id (record c { trait = trait }) db.conversations })

  -- `DeleteConversation`, with the rows that refer to it.
  unfoldable pub delete_conversation_row : String → ChatDb → Option ChatDb
  delete_conversation_row id db =
      if fails conversations_delete
      then none
      else some (record {
        conversations = erase id db.conversations;
        messages = keep_rows (λ (m : MessageRow). not (m.conversation_id == id)) db.messages;
        ui_blocks = keep_rows (λ (b : UiBlock). not (b.conversation_id == id)) db.ui_blocks;
      })

  -- `StoreMessage`; a message that is there stays, and one of no conversation is an error.
  unfoldable pub store_message : MessageRow → ChatDb → Option ChatDb
  store_message m db =
      if fails messages_insert
      then none
      else if has m.id db.messages
      then some db
      else if has m.conversation_id db.conversations
      then some (record db { messages = insert m.id m db.messages })
      else none

  -- `ListMessages`
  unfoldable pub list_message_rows : String → ChatDb → Option (List MessageRow)
  list_message_rows id db =
      if fails messages_list
      then none
      else some (rows_where (λ (m : MessageRow). m.conversation_id == id) db.messages)

  -- `StoreUIBlock`; of a block that is there, the data is overwritten.
  unfoldable pub store_ui_block : UiBlock → ChatDb → Option ChatDb
  store_ui_block b db =
      if fails ui_blocks_insert
      then none
      else on_some (lookup b.id db.ui_blocks)
          (if has b.conversation_id db.conversations
            then some (record db { ui_blocks = insert b.id b db.ui_blocks })
            else none)
          λ old.
            some (record db {
              ui_blocks = touch b.id (record old { content = b.content }) db.ui_blocks;
            })

  -- `ListUIBlocks`
  unfoldable pub list_ui_block_rows : String → ChatDb → Option (List UiBlock)
  list_ui_block_rows id db =
      if fails ui_blocks_list
      then none
      else some (rows_where (λ (b : UiBlock). b.conversation_id == id) db.ui_blocks)

  -- `GetConversationOwner`; the empty text is a conversation that is not there.
  unfoldable pub conversation_owner : String → ChatDb → Option String
  conversation_owner id db =
      if fails conversations_owner
      then none
      else some (on_some (lookup id db.conversations) "" (λ c. c.user_id))
