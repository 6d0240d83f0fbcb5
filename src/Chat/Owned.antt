-- ===== src/Chat/Owned.antt =====
-- database/table_chat.go: what a statement on one conversation leaves of the others.
use unblink.Base.{
  ℕ, ◌≡◌, ◌∙◌, refl, Bool, true, false, not, none, some, List, [], ◌∷◌, ◌++◌, String, string_eq,
  ◌==◌, if◌then◌else◌, on_some, arith, Option-cases, inl, inr,
}
use unblink.Base.Dict.{Dict, lookup, insert, erase, has, lookup-erase}
use unblink.Database.{rows_where}
use unblink.Chat.Tables.{
  ChatDb, Conversation, MessageRow, UiBlock, Query, touch, keep_rows, create_conversation_row,
  update_title, set_trait, delete_conversation_row, store_message, store_ui_block,
}

lookup-last {ℓ} :
    {A : Type ℓ} (j k : String) (a : A) (d : Dict String A)
    → lookup j (d ++ (k, a) ∷ [])
      ≡ on_some (lookup j d) (if j == k then some a else none) (λ b. some b)
unfolding lookup
lookup-last j k a [] = ground arith
lookup-last j k a ((i, b) ∷ d) = ground (arith, lookup-last j k a d)

pub lookup-touch {ℓ} :
    {A : Type ℓ} (j k : String) (a : A) (d : Dict String A)
    → lookup j (touch k a d) ≡ (if j == k then some a else lookup j d)
lookup-touch j k a d = elim (Option-cases (lookup j d)) [
  | inl gone ↦ ground (arith, gone, lookup-last j k a (erase k d), lookup-erase j k d)
  | inr (b, here) ↦ ground (arith, here, lookup-last j k a (erase k d), lookup-erase j k d)
]

module _ {ℓ} {A : Type ℓ} (p : A → Bool) where
  rows_where-last :
      (k : String) (a : A) (d : Dict String A)
      → p a ≡ false
      → rows_where p (d ++ (k, a) ∷ []) ≡ rows_where p d
  rows_where-last k a [] e = ground (arith, e)
  rows_where-last k a ((i, b) ∷ d) e = ground (arith, e, rows_where-last k a d)

  rows_where-insert :
      (k : String) (a : A) (d : Dict String A)
      → p a ≡ false
      → has k d ≡ false
      → rows_where p (insert k a d) ≡ rows_where p d
  unfolding insert lookup
  rows_where-insert k a [] e f = ground (arith, e)
  rows_where-insert k a ((i, b) ∷ d) e f = ground (arith, e, f, rows_where-insert k a d)

  rows_where-keep_rows :
      (q : A → Bool) (d : Dict String A)
      → ((a : A) → p a ≡ true → q a ≡ true)
      → rows_where p (keep_rows q d) ≡ rows_where p d
  rows_where-keep_rows q [] h = refl
  rows_where-keep_rows q ((i, b) ∷ d) h = ground (arith, h b, rows_where-keep_rows q d h)

-- The conversation j, its messages and its blocks are as before.
pub record Same (j : String) (db db' : ChatDb) : Type 0 where
  pub row : lookup j db'.conversations ≡ lookup j db.conversations
  pub messages :
      rows_where (λ (m : MessageRow). m.conversation_id == j) db'.messages
      ≡ rows_where (λ (m : MessageRow). m.conversation_id == j) db.messages
  pub blocks :
      rows_where (λ (b : UiBlock). b.conversation_id == j) db'.ui_blocks
      ≡ rows_where (λ (b : UiBlock). b.conversation_id == j) db.ui_blocks

pub Same-refl : (j : String) (db : ChatDb) → Same j db db
Same-refl j db = record { row = refl; messages = refl; blocks = refl }

pub Same-trans : (j : String) (a b c : ChatDb) → Same j a b → Same j b c → Same j a c
Same-trans j a b c s t = record {
  row = t.row ∙ s.row;
  messages = t.messages ∙ s.messages;
  blocks = t.blocks ∙ s.blocks;
}

module _ (fails : Query → Bool) (j : String) (db db' : ChatDb) where
  pub create_conversation_row-Same :
      (id user : String) (title : List ℕ) (trait : String)
      → (j == id) ≡ false
      → create_conversation_row fails id user title trait db ≡ some db'
      → Same j db db'
  unfolding create_conversation_row
  create_conversation_row-Same id user title trait other e =
      let row : Conversation = record {
        id = id;
        user_id = user;
        title = title;
        trait = if trait == "" then "monitoring" else trait;
      } in
      record {
        row = ground (arith, e, other, lookup-touch j id row db.conversations);
        messages = ground (arith, e);
        blocks = ground (arith, e);
      }

  pub update_title-Same :
      (id : String) (title : List ℕ)
      → (j == id) ≡ false
      → update_title fails id title db ≡ some db'
      → Same j db db'
  unfolding update_title
  update_title-Same id title other e = elim (Option-cases (lookup id db.conversations)) [
    | inl gone ↦ record {
      row = ground (arith, e, gone);
      messages = ground (arith, e, gone);
      blocks = ground (arith, e, gone);
    }
    | inr (c, here) ↦ record {
      row =
          ground (
            arith,
            e,
            here,
            other,
            lookup-touch j id (record c { title = title }) db.conversations,
          );
      messages = ground (arith, e, here);
      blocks = ground (arith, e, here);
    }
  ]

  pub set_trait-Same :
      (id trait : String)
      → (j == id) ≡ false
      → set_trait fails id trait db ≡ some db'
      → Same j db db'
  unfolding set_trait
  set_trait-Same id trait other e = elim (Option-cases (lookup id db.conversations)) [
    | inl gone ↦ record {
      row = ground (arith, e, gone);
      messages = ground (arith, e, gone);
      blocks = ground (arith, e, gone);
    }
    | inr (c, here) ↦ record {
      row =
          ground (
            arith,
            e,
            here,
            other,
            lookup-touch j id (record c { trait = trait }) db.conversations,
          );
      messages = ground (arith, e, here);
      blocks = ground (arith, e, here);
    }
  ]

  pub delete_conversation_row-Same :
      (id : String)
      → (j == id) ≡ false
      → delete_conversation_row fails id db ≡ some db'
      → Same j db db'
  unfolding delete_conversation_row
  delete_conversation_row-Same id other e = record {
    row = ground (arith, e, other, lookup-erase j id db.conversations);
    messages = ground (
      arith,
      e,
      rows_where-keep_rows (λ (m : MessageRow). m.conversation_id == j)
          (λ (m : MessageRow). not (m.conversation_id == id)) db.messages
          (λ m f. ground (arith, f, other)),
    );
    blocks = ground (
      arith,
      e,
      rows_where-keep_rows (λ (b : UiBlock). b.conversation_id == j)
          (λ (b : UiBlock). not (b.conversation_id == id)) db.ui_blocks
          (λ b f. ground (arith, f, other)),
    );
  }

  pub store_message-Same :
      (m : MessageRow)
      → (j == m.conversation_id) ≡ false
      → store_message fails m db ≡ some db'
      → Same j db db'
  unfolding store_message
  store_message-Same m other e = record {
    row = ground (arith, e);
    messages = ground (
      arith,
      e,
      other,
      rows_where-insert (λ (x : MessageRow). x.conversation_id == j) m.id m db.messages,
    );
    blocks = ground (arith, e);
  }

  pub store_ui_block-Same :
      (b : UiBlock)
      → (j == b.conversation_id) ≡ false
      → lookup b.id db.ui_blocks ≡ none
      → store_ui_block fails b db ≡ some db'
      → Same j db db'
  unfolding store_ui_block
  store_ui_block-Same b other fresh e = record {
    row = ground (arith, e, fresh);
    messages = ground (arith, e, fresh);
    blocks = ground (
      arith,
      e,
      other,
      fresh,
      rows_where-insert (λ (x : UiBlock). x.conversation_id == j) b.id b db.ui_blocks,
    );
  }
