-- ===== src/Auth/Accounts.antt =====
-- server/auth/service.go: accounts and logins.
use unblink.Base.{
  ℕ, ◌≡◌, ◌∙◌, ap, refl, Bool, true, false, Option, none, some, List, [], ◌∷◌, ◌++◌, String,
  string_eq, ◌==◌, is_empty, length, ltb, is_some, arith, Option-cases, Bool-cases, inl, inr,
}
use unblink.Access.{
  invalid_argument, already_exists, unauthenticated, internal, Response, response, or_stop,
  or_error-response, or_stop-response, required, required-response, guard-response,
}
use unblink.Database.{Db, Query, Account}
use unblink.Database.Users
use unblink.Auth.{
  Env, Session, open_session, user_to_link, link_account, create_and_link_account, login,
}

-- A login that was answered: the first account with the email, and its password.
pub record Verified (env : Env) (email : String) (password : List ℕ) (db : Db) (s : Session)
    : Type 0 where
  pub account : Account
  pub stored : String
  pub found : Users.account_with email db.accounts ≡ some account
  pub has_hash : account.password_hash ≡ some stored
  pub verified : env.matches stored password ≡ true
  pub signed_in : s.user.id ≡ account.user_id
  pub token_for : env.generate_token env.now account.user_id email false ≡ some s.token

get_account_by_email-row :
    (fails : Query → Bool) (email : String) (db : Db) (row : Option Account)
    → Users.get_account_by_email fails email db ≡ some row
    → Users.account_with email db.accounts ≡ row
unfolding Users.get_account_by_email
get_account_by_email-row fails email db row e = ground (arith, e)

-- A session that was opened: its user, the token and an unchanged database.
abbrev Opened : Env → String → String → Db → Db → Session → Type 0
Opened env id email db db' s =
    (db' ≡ db) × (s.user.id ≡ id) × (env.generate_token env.now id email false ≡ some s.token)

open_session-Opened :
    (env : Env) (id email : String) (shown : Option String) (db db' : Db) (s : Session)
    → open_session env id email false shown db ≡ (db', response s)
    → Opened env id email db db' s
unfolding open_session
open_session-Opened env id email shown db db' s e =
    let (row, read_row, e1) = or_stop-response _ db db' _ s e in
    let (profile, there, e2) = or_stop-response _ db db' _ s e1 in
    let (token, signs, e3) = or_stop-response _ db db' _ s e2 in
    let made = or_error-response _ internal token signs in
    (ground (arith, e3), ground (arith, e3), ground (arith, e3, made))

-- Whoever gets a session by `Login` has given the password of the account with the email: the session
-- is for the user of that account, and the database is unchanged.
pub login-Verified :
    (env : Env) (email : String) (password : List ℕ) (db db' : Db) (s : Session)
    → login env email password db ≡ (db', response s)
    → Verified env email password db s × (db' ≡ db)
unfolding login
login-Verified env email password db db' s e =
    let (_, e1) =
      guard-response (is_empty password) invalid_argument db db' _ s
        (required-response email db db' _ s e).1 in
    let (row, read_row, e2) = or_stop-response _ db db' _ s e1 in
    let (account, there, e3) = or_stop-response _ db db' _ s e2 in
    let (stored, hashed, e4) = or_stop-response _ db db' _ s e3 in
    let found =
      get_account_by_email-row env.fails email db row (or_error-response _ internal row read_row) in
    elim (Bool-cases (env.matches stored password)) [
      | inr wrong ↦ absurd (ground (arith, e4, wrong))
      | inl right ↦
          let (same, id, token) =
            open_session-Opened env account.user_id email (some email) db db' s
              (ground (arith, e4, right)) in
          (
            record {
              account = account;
              stored = stored;
              found = found ∙ or_error-response row unauthenticated account there;
              has_hash = or_error-response _ internal stored hashed;
              verified = right;
              signed_in = id;
              token_for = token;
            },
            same,
          )
    ]

account_with-last :
    (email : String) (rows : List Account) (a : Account)
    → Users.account_with email rows ≡ none
    → Users.has_email email a ≡ true
    → Users.account_with email (rows ++ a ∷ []) ≡ some a
account_with-last email [] a none_yet h = ground (arith, h)
account_with-last email (b ∷ rows) a none_yet h =
    ground (arith, none_yet, account_with-last email rows a, h)

-- Finding or making the user leaves the accounts alone.
user_to_link-accounts :
    (env : Env) (new_id : String) (name : Option String) (db : Db)
    → (user_to_link env new_id name db).0.accounts ≡ db.accounts
unfolding user_to_link or_stop Users.update_user_profile Users.create_user
user_to_link-accounts env new_id name db = ground arith

-- What `create_account` leaves.
create_account-accounts :
    (fails : Query → Bool) (a : Account) (db db' : Db)
    → Users.create_account fails a db ≡ some db'
    → db'.accounts ≡ db.accounts ++ a ∷ []
unfolding Users.create_account
create_account-accounts fails a db db' e = ground (arith, e)

abbrev account_for : String → String → String → String → Account
account_for account_id id email hashed = record {
  id = account_id;
  user_id = id;
  kind = "email_password";
  email = some email;
  password_hash = some hashed;
}

-- An account that was linked is there, and the session is that of its user.
link_account-linked :
    (env : Env) (account_id email hashed : String) (x : Db × Response String) (db' : Db)
    (s : Session)
    → link_account env account_id email hashed x ≡ (db', response s)
    → (id : String) × (db'.accounts ≡ x.0.accounts ++ account_for account_id id email hashed ∷ [])
      × (open_session env id email false (some email) db' ≡ (db', response s))
unfolding link_account
link_account-linked env account_id email hashed (db, linked) db' s e =
    let (id, _, e1) = or_stop-response linked db db' _ s e in
    let (db1, created, e2) = or_stop-response _ db db' _ s e1 in
    let same = (open_session-Opened env id email (some email) db1 db' s e2).0 in
    (
      id,
      ap (λ (d : Db). d.accounts) same
          ∙ create_account-accounts env.fails (account_for account_id id email hashed) db db1
              (or_error-response _ internal db1 created),
      ap (λ d. open_session env id email false (some email) d) same ∙ e2,
    )

-- The login of an account that the email finds.
login-account :
    (env : Env) (email : String) (password : List ℕ) (db : Db) (a : Account) (stored : String)
    → (email == "") ≡ false
    → is_empty password ≡ false
    → Users.get_account_by_email env.fails email db ≡ some (some a)
    → a.password_hash ≡ some stored
    → env.matches stored password ≡ true
    → login env email password db ≡ open_session env a.user_id email false (some email) db
unfolding login required or_stop
login-account env email password db a stored named given found has right =
    ground (arith, named, given, found, has, right)

get_account_by_email-again :
    (fails : Query → Bool) (email : String) (db db' : Db) (row : Option Account)
    → Users.get_account_by_email fails email db ≡ some row
    → Users.get_account_by_email fails email db' ≡ some (Users.account_with email db'.accounts)
unfolding Users.get_account_by_email
get_account_by_email-again fails email db db' row e = ground (arith, e)

none_of-is_some : (row : Option Account) → is_some row ≡ false → row ≡ none
none_of-is_some none e = refl
none_of-is_some (some a) e = cc

has_email-account_for :
    (account_id id email hashed : String)
    → Users.has_email email (account_for account_id id email hashed) ≡ true
has_email-account_for account_id id email hashed = ground arith

-- The same session at another time, with the token of that time.
open_session-later :
    (env : Env) (t : ℕ) (id email token : String) (shown : Option String) (db db' : Db)
    (s : Session)
    → open_session env id email false shown db ≡ (db', response s)
    → env.generate_token t id email false ≡ some token
    → open_session (record env { now = t }) id email false shown db
      ≡ (db', response (record s { token = token }))
unfolding open_session or_stop
open_session-later env t id email token shown db db' s e signs =
    elim (Option-cases (Users.get_user env.fails id db)) [
      | inl fails ↦ absurd (ground (arith, e, fails))
      | inr (none, gone) ↦ absurd (ground (arith, e, gone))
      | inr (some profile, here) ↦ elim (Option-cases (env.generate_token env.now id email false)) [
        | inl unsigned ↦ absurd (ground (arith, e, here, unsigned))
        | inr (old, signed) ↦ ground (arith, e, here, signed, signs)
      ]
    ]

-- Whoever has created an account can log in with its email and password at any later time, if a token
-- can be signed then: the session is for the same user as the one that the creation gave, with the
-- token of the new time, and the database is unchanged. (bcrypt accepts a password against its own
-- hash, and the same queries fail as before.)
pub create_and_link_account-login :
    (env : Env) (new_id account_id email token : String) (password : List ℕ) (name : Option String)
    (db db' : Db) (s : Session) (t : ℕ)
    → ((hashed : String) → env.hash password ≡ some hashed → env.matches hashed password ≡ true)
    → create_and_link_account env new_id account_id email password name db ≡ (db', response s)
    → env.generate_token t s.user.id email false ≡ some token
    → login (record env { now = t }) email password db'
      ≡ (db', response (record s { token = token }))
unfolding create_and_link_account
create_and_link_account-login env new_id account_id email token password name db db' s t bcrypt e
      signs =
    let (named, e1) = required-response email db db' _ s e in
    let (given, e2) = guard-response (is_empty password) invalid_argument db db' _ s e1 in
    let (long, e3) = guard-response (ltb (length password) 8) invalid_argument db db' _ s e2 in
    let (existing, read, e4) = or_stop-response _ db db' _ s e3 in
    let (fresh, e5) = guard-response (is_some existing) already_exists db db' _ s e4 in
    let (hashed, hashes, e6) = or_stop-response _ db db' _ s e5 in
    let (id, accounts, opens) =
      link_account-linked env account_id email hashed (user_to_link env new_id name db) db' s e6 in
    let right = bcrypt hashed (or_error-response _ internal hashed hashes) in
    let row = or_error-response _ internal existing read in
    let none_yet : Users.account_with email (user_to_link env new_id name db).0.accounts ≡ none =
      ap (Users.account_with email) (user_to_link-accounts env new_id name db)
      ∙ get_account_by_email-row env.fails email db existing row
      ∙ none_of-is_some existing fresh in
    let there : Users.account_with email db'.accounts
        ≡ some (account_for account_id id email hashed) =
      ap (Users.account_with email) accounts
      ∙ account_with-last email (user_to_link env new_id name db).0.accounts
          (account_for account_id id email hashed) none_yet
          (has_email-account_for account_id id email hashed) in
    let later : Env = record env { now = t } in
    let same = (open_session-Opened env id email (some email) db' db' s opens).1 in
    login-account later email password db' (account_for account_id id email hashed) hashed named
      given (get_account_by_email-again env.fails email db db' existing row ∙ ap some there) refl
      right
    ∙ open_session-later env t id email token (some email) db' db' s opens (rw (← same) signs)
