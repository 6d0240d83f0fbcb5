-- ===== src/Auth/Tests.antt =====
-- server/auth/service.go with one guest in the table.
use unblink.Base.{◌≡◌, refl, true, false, none, some, [], ◌∷◌, string_eq, eqb, if◌then◌else◌}
use unblink.Base.Dict.{lookup}
use unblink.Access.{response, get_user_id, or_stop, required}
use unblink.Trim.Truncate.{codes}
use unblink.Database.{Db, Account}
use unblink.Database.Users
use unblink.Auth.{
  Env, Session, Claims, create_and_link_account, login, user_to_link, link_account, open_session,
  wrap, authenticate, extract_token_from_header,
}
use unblink.Auth.Accounts.{create_and_link_account-login}
use unblink.Auth.Tokens.{Valid, wrap-Valid}

abbrev env : Env
env = record {
  fails = λ q. false;
  hash = λ password. some "hashed";
  matches = λ stored password. true;
  now = 5;
  generate_token = λ now user email guest. some (if eqb now 5 then "token" else "later");
  user = some "ann";
}

abbrev guests : Db
guests = record {
  services = [];
  procedures = [];
  user_node = [];
  users = ("ann", []) ∷ [];
  accounts = [];
}

abbrev ann_at : Account
ann_at = record {
  id = "a1";
  user_id = "ann";
  kind = "email_password";
  email = some "ann@x.org";
  password_hash = some "hashed";
}

abbrev linked : Db
linked = record guests { accounts = ann_at ∷ [] }

abbrev signed_in : Session
signed_in = record {
  token = "token";
  user = record { id = "ann"; profile = []; is_guest = false; email = some "ann@x.org" };
}

links :
    create_and_link_account env "u2" "a1" "ann@x.org" (codes "long enough") none guests
    ≡ (linked, response signed_in)
unfolding create_and_link_account user_to_link link_account open_session or_stop required
    get_user_id Users.get_account_by_email Users.create_account Users.get_user lookup string_eq
links = refl

create_and_link_account-login_example :
    login (record env { now = 9 }) "ann@x.org" (codes "long enough") linked
    ≡ (linked, response (record signed_in { token = "later" }))
create_and_link_account-login_example =
    create_and_link_account-login env "u2" "a1" "ann@x.org" "later" (codes "long enough") none
      guests linked signed_in 9 (λ hashed e. refl) links refl

abbrev claims : Claims
claims = record { user_id = "ann"; expires_at = some 9 }

wraps :
    wrap "/chat/Send" (authenticate (λ q. false) (λ t. some claims) 5 (codes "Bearer abc") guests)
    ≡ response (some "ann")
unfolding wrap authenticate extract_token_from_header Users.get_user lookup string_eq
wraps = refl

wrap-Valid_example : Valid (λ q. false) (λ t. some claims) 5 (codes "Bearer abc") guests "ann"
wrap-Valid_example =
    wrap-Valid (λ q. false) (λ t. some claims) 5 (codes "Bearer abc") guests "/chat/Send" "ann"
      wraps
