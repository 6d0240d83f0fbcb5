-- ===== src/Access.antt =====
-- server/internal/ctxutil/context.go: the user of a request's context, and the check of a node; with
-- the replies and the error codes that the Connect handlers share.
use unblink.Base.{
  true, false, if_ind, ◌≡◌, refl, ◌⊎◌, inl, inr, Bool, Option, none, some, String, string_eq, ◌==◌,
  if◌then◌else◌, on_some,
}

pub data Code : Type 0 where
  unauthenticated not_found internal permission_denied invalid_argument already_exists : Code

-- What a handler does: an error, a response, or a nil pointer is followed.
pub data Response {ℓ} (A : Type ℓ) : Type ℓ where
  refused : Code → Response A
  crashed : Response A
  response : A → Response A

abbrev pub or_refused {ℓ κ} : {A : Type ℓ} {B : Type κ} → Response A → (A → Response B) → Response B
or_refused (refused code) f = refused code
or_refused crashed f = crashed
or_refused (response a) f = f a

abbrev pub or_code {ℓ κ} :
    {A : Type ℓ} {B : Type κ} → Option A → Code → (A → Response B) → Response B
or_code none code f = refused code
or_code (some a) code f = f a

abbrev pub or_crash {ℓ κ} : {A : Type ℓ} {B : Type κ} → Option A → (A → Response B) → Response B
or_crash none f = crashed
or_crash (some a) f = f a

-- `GetUserIDFromContext`, of the value that the context holds.
unfoldable pub get_user_id : Option String → Option String
get_user_id value = on_some value none (λ user. if user == "" then none else some user)

-- `CheckNodeAccessWithContext`; the database's check gives `none` for an error.
unfoldable pub check_node_access_with_context :
    (String → String → Option Bool) → Option String → String → Response (Unit {0})
check_node_access_with_context check value node =
    or_code (get_user_id value) unauthenticated λ user.
      or_code (check node user) internal
        (λ granted. if granted then response tt else refused permission_denied)

-- An answer of the check.
pub Response-cases :
    (r : Response (Unit {0}))
    → (r ≡ response tt) ⊎ (r ≡ crashed) ⊎ ((code : Code) × (r ≡ refused code))
Response-cases (refused code) = inr (inr (code, refl))
Response-cases crashed = inr (inl refl)
Response-cases (response tt) = inl refl

-- An error, or a row that is not there.
abbrev pub or_error {ℓ} : {A : Type ℓ} → Option A → Code → Response A
or_error none code = refused code
or_error (some a) code = response a

-- Following a pointer.
abbrev pub or_nil {ℓ} : {A : Type ℓ} → Option A → Response A
or_nil none = crashed
or_nil (some a) = response a

-- An early return leaves the world as it is.
unfoldable pub or_stop {ℓ κ μ} :
    {A : Type ℓ} {W : Type κ} {B : Type μ} → Response A → W → (A → W × Response B) → W × Response B
or_stop (refused code) w f = (w, refused code)
or_stop crashed w f = (w, crashed)
or_stop (response a) w f = f a

-- A required field.
unfoldable pub required {κ μ} :
    {W : Type κ} {B : Type μ} → String → W → W × Response B → W × Response B
required field w r = if field == "" then (w, refused invalid_argument) else r

-- What holds of a world, and of the rest of a call, holds of the call.
pub or_stop_ind {ℓ κ μ ν} :
    {A : Type ℓ} {W : Type κ} {B : Type μ} (P : W → Type ν) (r : Response A) (w : W)
    (f : A → W × Response B)
    → P w
    → ((a : A) → r ≡ response a → P (f a).0)
    → P (or_stop r w f).0
unfolding or_stop
or_stop_ind P (refused code) w f p q = p
or_stop_ind P crashed w f p q = p
or_stop_ind P (response a) w f p q = q a refl

pub required_ind {κ μ ν} :
    {W : Type κ} {B : Type μ} (P : W → Type ν) (field : String) (w : W) (r : W × Response B)
    → P w
    → P r.0
    → P (required field w r).0
unfolding required
required_ind {W} {B} P field w r p q =
    if_ind (λ (x : W × Response B). P x.0) (field == "") (w, refused invalid_argument) r (λ _. p)
      (λ _. q)

pub or_error-response {ℓ} :
    {A : Type ℓ} (o : Option A) (code : Code) (a : A) → or_error o code ≡ response a → o ≡ some a
or_error-response none code a e = cc
or_error-response (some b) code a e = cc

pub or_nil-response {ℓ} : {A : Type ℓ} (o : Option A) (a : A) → or_nil o ≡ response a → o ≡ some a
or_nil-response none a e = cc
or_nil-response (some b) a e = cc

-- What a call that was answered has gone through.
pub or_stop-response {ℓ κ μ} :
    {A : Type ℓ} {W : Type κ} {B : Type μ} (r : Response A) (w w' : W) (f : A → W × Response B)
    (b : B)
    → or_stop r w f ≡ (w', response b)
    → (a : A) × (r ≡ response a) × (f a ≡ (w', response b))
unfolding or_stop
or_stop-response (refused code) w w' f b e = absurd (cc)
or_stop-response crashed w w' f b e = absurd (cc)
or_stop-response (response a) w w' f b e = (a, refl, e)

pub guard-response {κ μ} :
    {W : Type κ} {B : Type μ} (test : Bool) (code : Code) (w w' : W) (x : W × Response B) (b : B)
    → (if test then (w, refused code) else x) ≡ (w', response b)
    → (test ≡ false) × (x ≡ (w', response b))
guard-response true code w w' x b e = absurd (cc)
guard-response false code w w' x b e = (refl, e)

pub required-response {κ μ} :
    {W : Type κ} {B : Type μ} (field : String) (w w' : W) (x : W × Response B) (b : B)
    → required field w x ≡ (w', response b)
    → ((field == "") ≡ false) × (x ≡ (w', response b))
unfolding required
required-response field w w' x b e = guard-response (field == "") invalid_argument w w' x b e
