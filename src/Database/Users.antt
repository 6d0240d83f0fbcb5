-- ===== src/Database/Users.antt =====
-- database/table_user.go: users with their profiles, and the accounts of those who are no guests. A
-- profile or a payload that was written comes back from its JSON as it was.
use unblink.Base.{
  Bool, false, not, Option, none, some, List, [], ◌∷◌, ◌++◌, ◌&&◌, ◌||◌, String, string_eq, ◌==◌,
  if◌then◌else◌, on_some, is_some,
}
use unblink.Base.Dict.{lookup, insert, has}
use unblink.Database.{
  Db, Account, Profile, Query, accounts_count, accounts_insert, accounts_select, users_insert,
  users_select, users_update,
}

-- The first account of a user.
abbrev pub account_of : String → List Account → Option Account
account_of user [] = none
account_of user (a ∷ rows) =
    let rest = account_of user rows in if a.user_id == user then some a else rest

-- `type = 'email_password' AND payload->>'email' = $1`
abbrev pub has_email : String → Account → Bool
has_email email a = a.kind == "email_password" && on_some a.email false (λ e. e == email)

abbrev pub account_with : String → List Account → Option Account
account_with email [] = none
account_with email (a ∷ rows) =
    let rest = account_with email rows in if has_email email a then some a else rest

abbrev pub has_id : String → List Account → Bool
has_id id [] = false
has_id id (a ∷ rows) = a.id == id || has_id id rows

-- `for key, value := range profile { user.Profile[key] = value }`
unfoldable pub merge : Profile → Profile → Profile
merge profile [] = profile
merge profile ((key, value) ∷ fields) = merge (insert key value profile) fields

module _ (fails : Query → Bool) where
  -- `CreateUser`; an id that is taken is an error.
  unfoldable pub create_user : String → Profile → Db → Option Db
  create_user id profile db =
      if fails users_insert || has id db.users
      then none
      else some (record db { users = insert id profile db.users })

  -- `GetUser`, with the profile; no row is `some none`.
  unfoldable pub get_user : String → Db → Option (Option Profile)
  get_user id db = if fails users_select then none else some (lookup id db.users)

  -- `IsGuest`
  unfoldable pub is_guest : String → Db → Option Bool
  is_guest user db =
      if fails accounts_count then none else some (not (is_some (account_of user db.accounts)))

  -- `GetAccountByUserID`
  unfoldable pub get_account_by_user_id : String → Db → Option (Option Account)
  get_account_by_user_id user db =
      if fails accounts_select then none else some (account_of user db.accounts)

  -- `GetAccountByEmail`
  unfoldable pub get_account_by_email : String → Db → Option (Option Account)
  get_account_by_email email db =
      if fails accounts_select then none else some (account_with email db.accounts)

  -- `CreateAccount`; it is an error that the id is taken, that the user has an account, or that there
  -- is no such user.
  unfoldable pub create_account : Account → Db → Option Db
  create_account a db =
      if fails accounts_insert
        || (has_id a.id db.accounts
            || (is_some (account_of a.user_id db.accounts) || not (has a.user_id db.users)))
      then none
      else some (record db { accounts = db.accounts ++ a ∷ [] })

  -- `UpdateUserProfile`
  unfoldable pub update_user_profile : String → Profile → Db → Option Db
  update_user_profile user fields db = on_some (get_user user db) none λ row.
      on_some row none λ profile.
        if fails users_update
        then none
        else some (record db { users = insert user (merge profile fields) db.users })
