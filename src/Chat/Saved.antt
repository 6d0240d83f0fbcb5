-- ===== src/Chat/Saved.antt =====
-- server/chat/message_send.go: a message that is sent is among the messages of its conversation.
use unblink.Base.{
  ℕ, ◌≡◌, ◌∙◌, ap, sym, refl, Bool, true, false, not, some, List, [], ◌∷◌, ◌++◌, String, string_eq,
  ◌==◌, if_ind, on_some_ind, length, eqb, is_empty, arith, Option-cases, inl, inr,
}
use unblink.Base.Dict.{Dict, lookup, insert, has}
use unblink.Database.{rows_where}
use unblink.Access.{Response, response, internal, or_error, or_stop-response, or_error-response}
use unblink.Chat.Tables.{
  ChatDb, MessageRow, UiBlock, Query, list_message_rows, update_title, store_message,
  store_ui_block, touch,
}
use unblink.Chat.Text.{temp_title, sanitize_for_postgres}
use unblink.Chat
use unblink.Chat.Tables
use unblink.Chat.{Env, Answer, verify_conversation_ownership}

rows_where-new {ℓ} :
    {A : Type ℓ} (p : A → Bool) (k : String) (a : A) (d : Dict String A)
    → p a ≡ true
    → has k d ≡ false
    → rows_where p (insert k a d) ≡ rows_where p d ++ a ∷ []
unfolding insert lookup
rows_where-new p k a [] e f = ground (arith, e)
rows_where-new p k a ((i, b) ∷ d) e f = ground (arith, e, f, rows_where-new p k a d)

update_title-messages :
    (fails : Query → Bool) (db db' : ChatDb) (id : String) (title : List ℕ)
    → update_title fails id title db ≡ some db'
    → db'.messages ≡ db.messages
unfolding update_title
update_title-messages fails db db' id title e = elim (Option-cases (lookup id db.conversations)) [
  | inl gone ↦ ground (arith, e, gone)
  | inr (c, here) ↦ ground (arith, e, here)
]

store_ui_block-messages :
    (fails : Query → Bool) (db db' : ChatDb) (b : UiBlock)
    → store_ui_block fails b db ≡ some db'
    → db'.messages ≡ db.messages
unfolding store_ui_block
store_ui_block-messages fails db db' b e = elim (Option-cases (lookup b.id db.ui_blocks)) [
  | inl gone ↦ ground (arith, e, gone)
  | inr (old, here) ↦ ground (arith, e, here)
]

maybe_generate_title-messages :
    (env : Env) (db : ChatDb) (id : String) (content : List ℕ)
    → (Chat.maybe_generate_title env id content db).messages ≡ db.messages
unfolding Chat.maybe_generate_title
maybe_generate_title-messages env db id content =
    let P : ChatDb → Type 0 = λ d. d.messages ≡ db.messages in
    on_some_ind P (list_message_rows env.fails id db) db _ (λ _. refl)
      λ rows e.
        if_ind P (not (eqb (length rows) 1)) db _ (λ _. refl)
          λ _.
            if_ind P (is_empty (temp_title content)) db _ (λ _. refl)
              λ _.
                on_some_ind P (update_title env.fails id (temp_title content) db) db (λ db'. db')
                  (λ _. refl)
                  (λ db' f. update_title-messages env.fails db db' id (temp_title content) f)

store_message-rows :
    (fails : Query → Bool) (db db' : ChatDb) (m : MessageRow)
    → has m.id db.messages ≡ false
    → (m.conversation_id == m.conversation_id) ≡ true
    → store_message fails m db ≡ some db'
    → rows_where (λ (x : MessageRow). x.conversation_id == m.conversation_id) db'.messages
      ≡ rows_where (λ (x : MessageRow). x.conversation_id == m.conversation_id) db.messages
        ++ m ∷ []
unfolding store_message
store_message-rows fails db db' m fresh same e = ground (
  arith,
  e,
  fresh,
  rows_where-new (λ (x : MessageRow). x.conversation_id == m.conversation_id) m.id m db.messages
      same fresh,
)

-- Where the part of `SendMessage` before the assistant succeeds, with a new id and a table that can be
-- read, `ListMessages` gives the messages that were there before, in their order, and then the text,
-- without the characters that Postgres refuses.
pub start_message-list_messages :
    (env : Env) (db db' : ChatDb) (message_id block_id id : String) (raw : List ℕ) (a : Answer)
    → has message_id db.messages ≡ false
    → env.fails Tables.messages_list ≡ false
    → Chat.start_message env message_id block_id id raw db ≡ (db', response a)
    → list_message_rows env.fails id db'
      ≡ some (
          rows_where (λ (m : MessageRow). m.conversation_id == id) db.messages
          ++ record {
            id = message_id;
            conversation_id = id;
            role = "user";
            content = sanitize_for_postgres raw;
          }
            ∷ [])
unfolding Chat.start_message list_message_rows
start_message-list_messages env db db' message_id block_id id raw a fresh reads e =
    let content = sanitize_for_postgres raw in
    let msg : MessageRow = record {
      id = message_id;
      conversation_id = id;
      role = "user";
      content = content;
    } in
    let (u, owned, e1) = or_stop-response (verify_conversation_ownership env id db) db db' _ a e in
    let (db1, ok, e2) =
      or_stop-response (or_error (store_message env.fails msg db) internal) db db' _ a e1 in
    let stored = or_error-response (store_message env.fails msg db) internal db1 ok in
    let db2 = Chat.maybe_generate_title env id content db1 in
    let block : UiBlock = record {
      id = block_id;
      conversation_id = id;
      role = "user";
      content = content;
    } in
    let kept : db'.messages ≡ db1.messages =
      on_some_ind
        (λ (r : ChatDb × Response Answer). r ≡ (db', response a) → db'.messages ≡ db2.messages)
        (store_ui_block env.fails block db2) _ _ (λ _ last. ap (λ r. r.0.messages) (sym last))
        (λ db3 written last.
          ap (λ r. r.0.messages) (sym last)
          ∙ store_ui_block-messages env.fails db2 db3 block written)
        e2
      ∙ maybe_generate_title-messages env db1 id content in
    let same : (id == id) ≡ true = ground arith in
    ground (arith, reads, kept, store_message-rows env.fails db db1 msg fresh same stored)
