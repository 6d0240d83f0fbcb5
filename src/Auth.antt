-- ===== src/Auth.antt =====
-- server/auth/service.go and server/auth_interceptor.go: guests, accounts, logins and the check of a
-- token. bcrypt and the tokens are parameters. The password is its bytes; the ids that `generateID`
-- draws come with the call.
pub mod Accounts
pub mod Tokens
mod Tests
use unblink.Base.{
  ℕ, Bool, true, false, Option, none, some, List, [], ◌∷◌, String, string_eq, ◌==◌, if◌then◌else◌,
  on_some, is_empty, length, ltb, is_some, drop, ◌&&◌,
}
use unblink.Access.{
  Code, unauthenticated, not_found, internal, invalid_argument, already_exists, Response, refused,
  crashed, response, get_user_id, or_error, or_stop, required, or_code,
}
use unblink.Trim.Truncate.{codes, starts_with}
use unblink.Database.{Db, Query, Account, Profile}
use unblink.Database.Users

-- `generate_token now user email is_guest`: a token holds the time at which it is signed, and `none` is
-- an error. `hash` is GenerateFromPassword and `matches` CompareHashAndPassword.
pub record Env : Type 0 where
  pub now : ℕ  -- when the call signs its token
  pub fails : Query → Bool
  pub hash : List ℕ → Option String
  pub matches : String → List ℕ → Bool
  pub generate_token : ℕ → String → String → Bool → Option String
  pub user : Option String  -- what the context holds for the user

-- `authv1.User`
pub record User : Type 0 where
  pub id : String
  pub profile : Profile
  pub is_guest : Bool
  pub email : Option String

pub record Session : Type 0 where
  pub token : String
  pub user : User

-- `profile["name"] = *name`, if there is a name.
abbrev pub name_fields : Option String → Profile
name_fields none = []
name_fields (some name) = if name == "" then [] else ("name", name) ∷ []

module _ (env : Env) where
  -- The user's row, and the token for it: the end of CreateGuestUser and CreateAndLinkAccount.
  unfoldable pub open_session : String → String → Bool → Option String → Db → Db × Response Session
  open_session id token_email is_guest email db =
      or_stop (or_error (Users.get_user env.fails id db) internal) db λ row.
        or_stop (or_error row not_found) db λ profile.
          or_stop (or_error (env.generate_token env.now id token_email is_guest) internal) db
            λ token.
              let user : User = record {
                id = id;
                profile = profile;
                is_guest = is_guest;
                email = email;
              } in
              (db, response (record { token = token; user = user }))

  -- `CreateGuestUser`
  unfoldable pub create_guest_user : String → Option String → Db → Db × Response Session
  create_guest_user id name db =
      or_stop (or_error (Users.create_user env.fails id (name_fields name) db) internal) db
        (open_session id "" true none)

  -- The email of the user's account, if it is no guest.
  unfoldable pub email_of : String → Bool → Db → Response (Option String)
  email_of id guest db =
      if guest
      then response none
      else or_code (Users.get_account_by_user_id env.fails id db) internal λ row.
        response
          (on_some row none (λ a. on_some a.email none (λ e. if e == "" then none else some e)))

  -- The end of GetUser and UpdateUserProfile.
  unfoldable pub show_user : String → Db → Db × Response User
  show_user id db = or_stop (or_error (Users.get_user env.fails id db) internal) db λ row.
      or_stop (or_error row not_found) db λ profile.
        or_stop (or_error (Users.is_guest env.fails id db) internal) db λ guest.
          or_stop (email_of id guest db) db λ email.
            (db, response (record { id = id; profile = profile; is_guest = guest; email = email }))

  -- `GetUser`
  unfoldable pub get_user : Db → Db × Response User
  get_user db = or_stop (or_error (get_user_id env.user) unauthenticated) db (λ id. show_user id db)

  -- `UpdateUserProfile`
  unfoldable pub update_user_profile : Profile → Db → Db × Response User
  update_user_profile fields db = or_stop (or_error (get_user_id env.user) unauthenticated) db λ id.
      or_stop (or_error (Users.update_user_profile env.fails id fields db) internal) db
        (show_user id)

  -- The user of the context with the new name, or a new user.
  unfoldable pub user_to_link : String → Option String → Db → Db × Response String
  user_to_link new_id name db = elim (get_user_id env.user) [
    | some id ↦
        if is_empty (name_fields name)
        then (db, response id)
        else or_stop
            (or_error (Users.update_user_profile env.fails id (name_fields name) db) internal) db
            (λ db'. (db', response id))
    | none ↦
        or_stop (or_error (Users.create_user env.fails new_id (name_fields name) db) internal) db
          (λ db'. (db', response new_id))
  ]

  -- The account is created for the user, in the world that the user's part has left.
  unfoldable pub link_account :
      String → String → String → Db × Response String → Db × Response Session
  link_account account_id email hashed (db, linked) = or_stop linked db λ id.
      let account : Account = record {
        id = account_id;
        user_id = id;
        kind = "email_password";
        email = some email;
        password_hash = some hashed;
      } in
      or_stop (or_error (Users.create_account env.fails account db) internal) db
        (open_session id email false (some email))

  -- `CreateAndLinkAccount`
  unfoldable pub create_and_link_account :
      String → String → String → List ℕ → Option String → Db → Db × Response Session
  create_and_link_account new_id account_id email password name db = required email db (
      if is_empty password
      then (db, refused invalid_argument)
      else if ltb (length password) 8
      then (db, refused invalid_argument)
      else or_stop (or_error (Users.get_account_by_email env.fails email db) internal) db
          λ existing.
            if is_some existing
            then (db, refused already_exists)
            else or_stop (or_error (env.hash password) internal) db
                λ hashed. link_account account_id email hashed (user_to_link new_id name db))

  -- `Login`
  unfoldable pub login : String → List ℕ → Db → Db × Response Session
  login email password db = required email db (
      if is_empty password
      then (db, refused invalid_argument)
      else or_stop (or_error (Users.get_account_by_email env.fails email db) internal) db λ row.
        or_stop (or_error row unauthenticated) db λ account.
          or_stop (or_error account.password_hash internal) db λ stored.
            if env.matches stored password
            then open_session account.user_id email false (some email) db
            else (db, refused unauthenticated))

-- What a token says, once `ValidateToken` has accepted it.
pub record Claims : Type 0 where
  pub user_id : String
  pub expires_at : Option ℕ

-- `ExtractTokenFromHeader`
unfoldable pub extract_token_from_header : List ℕ → List ℕ
extract_token_from_header header =
    if ltb 7 (length header) && starts_with (codes "Bearer ") header then drop 7 header else header

-- `authenticate`, with `validate` for ValidateToken: the user for the context.
unfoldable pub authenticate :
    (Query → Bool) → (List ℕ → Option Claims) → ℕ → List ℕ → Db → Response String
authenticate fails validate now header db =
    if is_empty header
    then refused unauthenticated
    else if is_empty (extract_token_from_header header)
    then refused unauthenticated
    else or_code (validate (extract_token_from_header header)) unauthenticated λ claims.
      if on_some claims.expires_at false (λ t. ltb t now)
      then refused unauthenticated
      else or_code (Users.get_user fails claims.user_id db) internal
          λ row. or_code row unauthenticated (λ _. response claims.user_id)

-- `WrapUnary` and `WrapStreamingHandler`: what the next handler finds in the context (`none`: nothing),
-- or the refusal. Guests are created without a token.
unfoldable pub wrap : String → Response String → Response (Option String)
wrap procedure checked =
    if procedure == "/chat.v1.auth.AuthService/CreateGuestUser"
    then response none
    else elim checked [
      | refused code ↦ refused code
      | crashed ↦ crashed
      | response user ↦ response (some user)
    ]
