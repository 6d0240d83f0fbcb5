-- ===== src/Chat/Tests.antt =====
-- server/chat with one conversation of each of two users.
use unblink.Base.{
  ◌≡◌, ◌≢◌, ap, on_some, ◌==◌, refl, true, false, some, List, [], ◌∷◌, ◌++◌, ℕ, string_eq,
}
use unblink.Base.Dict.{lookup, insert, erase}
use unblink.Database.{rows_where}
use unblink.Chat.Text.{sanitize_for_postgres, temp_title, trim_space}
use unblink.Access.{response, get_user_id, or_stop}
use unblink.Chat
use unblink.Chat.{
  Env, Call, perform, start_message, verify_conversation_ownership, maybe_generate_title, success,
}
use unblink.Chat.Tables.{
  ChatDb, Conversation, MessageRow, conversation_owner, store_message, list_message_rows,
  update_title, store_ui_block,
}
use unblink.Chat.Owned.{Same}
use unblink.Chat.Isolated.{perform-Same}
use unblink.Chat.Saved.{start_message-list_messages}

abbrev env : Env
env = record { fails = λ q. false; user = some "ann"; sends = true }

abbrev of_ann : Conversation
of_ann = record { id = "c1"; user_id = "ann"; title = []; trait = "monitoring" }

abbrev of_bob : Conversation
of_bob = record { id = "c2"; user_id = "bob"; title = 66 ∷ []; trait = "monitoring" }

abbrev db : ChatDb
db = record {
  conversations = ("c1", of_ann) ∷ ("c2", of_bob) ∷ [];
  messages =
      ("m1", record { id = "m1"; conversation_id = "c2"; role = "user"; content = 72 ∷ [] }) ∷ [];
  ui_blocks = [];
}

abbrev text : List ℕ
text = 32 ∷ 72 ∷ 0 ∷ 105 ∷ []

abbrev call : Call
call = Chat.starts_message "m2" "b1" "c1" text

not_bob : get_user_id env.user ≢ some "bob"
unfolding get_user_id string_eq
not_bob e = let f : true ≡ false = ap (λ o. on_some o false (λ u. u == "ann")) e in absurd (cc f)

perform-Same_example : Same "c2" db (perform env call db).0
unfolding lookup string_eq
perform-Same_example = perform-Same env call db "c2" (of_bob, refl, not_bob) refl

abbrev saved : List ℕ
saved = 32 ∷ 72 ∷ 105 ∷ []

abbrev after : ChatDb
after = record {
  conversations = ("c2", of_bob) ∷ ("c1", record of_ann { title = 72 ∷ 105 ∷ [] }) ∷ [];
  messages =
      ("m1", record { id = "m1"; conversation_id = "c2"; role = "user"; content = 72 ∷ [] })
      ∷ ("m2", record { id = "m2"; conversation_id = "c1"; role = "user"; content = saved })
      ∷ [];
  ui_blocks =
      ("b1", record { id = "b1"; conversation_id = "c1"; role = "user"; content = saved }) ∷ [];
}

sent : start_message env "m2" "b1" "c1" text db ≡ (after, response success)
unfolding start_message verify_conversation_ownership get_user_id conversation_owner or_stop
    store_message maybe_generate_title list_message_rows update_title store_ui_block
    sanitize_for_postgres temp_title trim_space lookup insert erase string_eq
sent = refl

start_message-list_messages_example :
    list_message_rows env.fails "c1" after
    ≡ some (
        rows_where (λ (m : MessageRow). m.conversation_id == "c1") db.messages
        ++ record {
          id = "m2";
          conversation_id = "c1";
          role = "user";
          content = sanitize_for_postgres text;
        }
          ∷ [])
unfolding lookup string_eq
start_message-list_messages_example =
    start_message-list_messages env db after "m2" "b1" "c1" text success refl refl sent
