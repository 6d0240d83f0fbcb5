-- ===== src/Auth/Tokens.antt =====
-- server/auth_interceptor.go: what a request has shown when a handler finds a user in its context.
use unblink.Base.{
  ℕ, ◌≡◌, refl, Bool, false, Option, none, some, List, String, string_eq, ◌==◌, is_empty, ltb,
  on_some, arith, Option-cases, inl, inr, length,
}
use unblink.Base.Dict.{lookup, insert, lookup-insert}
use unblink.Access.{internal, Response, refused, response, crashed, get_user_id, or_stop, required}
use unblink.Database.{Db, Query, Account, Profile, accounts_select, users_select, users_update}
use unblink.Database.Users
use unblink.Auth.{
  Env, Claims, extract_token_from_header, authenticate, wrap, create_and_link_account, user_to_link,
  link_account,
}

-- A token that the key has signed, not past its time, for a user who is in the table.
pub record Valid (fails : Query → Bool) (validate : List ℕ → Option Claims) (now : ℕ)
    (header : List ℕ) (db : Db) (user : String) : Type 0 where
  pub claims : Claims
  pub profile : Profile
  pub accepted : validate (extract_token_from_header header) ≡ some claims
  pub in_time : on_some claims.expires_at false (λ t. ltb t now) ≡ false
  pub names_user : claims.user_id ≡ user
  pub is_row : lookup user db.users ≡ some profile

authenticate-Valid :
    (fails : Query → Bool) (validate : List ℕ → Option Claims) (now : ℕ) (header : List ℕ) (db : Db)
    (user : String)
    → authenticate fails validate now header db ≡ response user
    → Valid fails validate now header db user
unfolding authenticate Users.get_user
authenticate-Valid fails validate now header db user e =
    elim (Option-cases (validate (extract_token_from_header header))) [
      | inl bad ↦ absurd (ground (arith, e, bad))
      | inr (claims, accepted) ↦ elim (Option-cases (lookup claims.user_id db.users)) [
        | inl gone ↦ absurd (ground (arith, e, accepted, gone))
        | inr (profile, row) ↦
            let names : claims.user_id ≡ user = ground (arith, e, accepted, row) in
            record {
              claims = claims;
              profile = profile;
              accepted = accepted;
              in_time = ground (arith, e, accepted, row);
              names_user = names;
              is_row = rw (← names) row;
            }
      ]
    ]

-- Whichever procedure is called: a handler that finds a user in its context serves a request whose
-- token was accepted, has not run out, and names that user, who is in the table.
pub wrap-Valid :
    (fails : Query → Bool) (validate : List ℕ → Option Claims) (now : ℕ) (header : List ℕ) (db : Db)
    (procedure user : String)
    → wrap procedure (authenticate fails validate now header db) ≡ response (some user)
    → Valid fails validate now header db user
unfolding wrap
wrap-Valid fails validate now header db procedure user e =
    authenticate-Valid fails validate now header db user
      (passed procedure (authenticate fails validate now header db) refl e)
  where
    passed :
        (procedure : String) (r : Response String)
        → authenticate fails validate now header db ≡ r
        → wrap procedure r ≡ response (some user)
        → authenticate fails validate now header db ≡ response user
    passed procedure (refused code) h e = absurd (ground (arith, e))
    passed procedure crashed h e = absurd (ground (arith, e))
    passed procedure (response u) h e = ground (arith, e, h)

-- A user who has an account and asks for another, with a new email and a name, is refused, but their
-- profile has taken the new name.
pub create_and_link_account-renames :
    (env : Env) (new_id account_id email name user hashed : String) (password : List ℕ)
    (profile : Profile) (a : Account) (db : Db)
    → (email == "") ≡ false
    → (name == "") ≡ false
    → is_empty password ≡ false
    → ltb (length password) 8 ≡ false
    → env.hash password ≡ some hashed
    → get_user_id env.user ≡ some user
    → lookup user db.users ≡ some profile
    → Users.account_of user db.accounts ≡ some a
    → Users.account_with email db.accounts ≡ none
    → env.fails accounts_select ≡ false
    → env.fails users_select ≡ false
    → env.fails users_update ≡ false
    → ((create_and_link_account env new_id account_id email password (some name) db).1
        ≡ refused internal)
      × (lookup user
            (create_and_link_account env new_id account_id email password (some name) db).0.users
          ≡ some (insert "name" name profile))
unfolding create_and_link_account user_to_link link_account required or_stop
    Users.get_account_by_email Users.update_user_profile Users.get_user Users.create_account
    Users.merge
create_and_link_account-renames env new_id account_id email name user hashed password profile a db
      e1 e2 e3 e4 e5 e6 e7 e8 e9 s1 s2 s3 =
    ground (
      arith,
      e1,
      e2,
      e3,
      e4,
      e5,
      e6,
      e7,
      e8,
      e9,
      s1,
      s2,
      s3,
      lookup-insert user user (insert "name" name profile) db.users,
    )
