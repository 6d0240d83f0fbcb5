-- ===== src/ServiceUrl/Valid.antt =====
-- shared/service_url.go: what holds of a URL that is accepted.
use unblink.Base.{
  ℕ, ◌≡◌, ◌≤◌, ◌^◌, ap, ◌∙◌, refl, Bool, true, false, not, ◌&&◌, ◌||◌, Option, none, some, List, [],
  ◌∷◌, ◌⊎◌, inl, inr, if◌then◌else◌, on_some, is_empty, arith, Bool-cases, Option-cases,
}
use unblink.Base.Int.{pos, negsuc}
use unblink.Trim.Truncate.{starts_with, contains_text, codes}
use unblink.Chat.Text.{trim_space}
use unblink.ServiceUrl.Decimal.{atoi, decimal, atoi-decimal}
use unblink.ServiceUrl.{
  Env, Url, ServiceUrl, empty_url, no_protocol, invalid_format, unsupported, no_host, invalid_host,
  to_lower, is_supported, is_valid_hostname, check_port, default_port, rooted, or_fail,
  parse_service_url,
}

-- What a caller may rely on.
pub record IsValid (is_ip : List ℕ → Bool) (u : ServiceUrl) : Type 0 where
  pub scheme : is_supported u.scheme ≡ true
  pub host : is_empty u.host ≡ false
  pub address : (is_ip u.host || is_valid_hostname u.host) ≡ true
  pub low : 1 ≤ u.port
  pub high : u.port ≤ 65535
  pub path : (is_empty u.path || starts_with (47 ∷ []) u.path) ≡ true

default_port-range :
    (scheme : List ℕ) (n : ℕ) → default_port scheme ≡ some n → (1 ≤ n) × (n ≤ 65535)
unfolding default_port
default_port-range scheme n e = (ground (arith, e), ground (arith, e))

check_port-range :
    (scheme port : List ℕ) (n : ℕ) → check_port scheme port ≡ inr n → (1 ≤ n) × (n ≤ 65535)
unfolding check_port
check_port-range scheme port n e = elim (Bool-cases (is_empty port)) [
  | inl none_given ↦ elim (Option-cases (default_port scheme)) [
    | inl missing ↦ absurd (ground (arith, e, none_given, missing))
    | inr (m, default) ↦ ground (arith, e, none_given, default, default_port-range scheme m default)
  ]
  | inr given ↦ elim (Option-cases (atoi port)) [
    | inl missing ↦ absurd (ground (arith, e, given, missing))
    | inr (pos m, number) ↦ (ground (arith, e, given, number), ground (arith, e, given, number))
    | inr (negsuc m, number) ↦ absurd (ground (arith, e, given, number))
  ]
]

rooted-path :
    (path : List ℕ) → (is_empty (rooted path) || starts_with (47 ∷ []) (rooted path)) ≡ true
unfolding rooted
rooted-path path = elim (Bool-cases (is_empty path)) [
  | inl none_given ↦ ground (arith, none_given)
  | inr given ↦ ground (arith, given)
]

passed {ℓ κ} :
    {E : Type ℓ} {A : Type κ} (test : Bool) (err : E) (r : E ⊎ A) (a : A)
    → (if test then inl err else r) ≡ inr a
    → (test ≡ false) × (r ≡ inr a)
passed true err r a e = absurd (cc)
passed false err r a e = (refl, e)

found {ℓ κ μ} :
    {O : Type μ} {E : Type ℓ} {A : Type κ} (o : Option O) (err : E) (f : O → E ⊎ A) (a : A)
    → on_some o (inl err) f ≡ inr a
    → (x : O) × (f x ≡ inr a)
found none err f a e = absurd (cc)
found (some x) err f a e = (x, e)

went_on {ℓ κ μ} :
    {E : Type ℓ} {A : Type κ} {B : Type μ} (r : E ⊎ A) (f : A → E ⊎ B) (b : B)
    → or_fail r f ≡ inr b
    → (a : A) × (r ≡ inr a) × (f a ≡ inr b)
went_on (inl err) f b e = absurd (cc)
went_on (inr a) f b e = (a, refl, e)

-- A URL that `ParseServiceURL` accepts has one of the three protocols, a host that is an IP address or
-- passes the check of host names, a port from 1 to 65535, and a path that is empty or begins with "/".
pub parse_service_url-IsValid :
    (env : Env) (text : List ℕ) (u : ServiceUrl)
    → parse_service_url env text ≡ inr u
    → IsValid env.is_ip u
unfolding parse_service_url
parse_service_url-IsValid env text u e =
    let (_, e1) = passed (is_empty (trim_space text)) empty_url _ u e in
    let (_, e2) = passed (not (contains_text (codes "://") text)) no_protocol _ u e1 in
    let (parsed, e3) = found (env.parse text) invalid_format _ u e2 in
    let scheme = to_lower parsed.scheme in
    let (_, e4) = passed (is_empty scheme) no_protocol _ u e3 in
    let (supported, e5) = passed (not (is_supported scheme)) unsupported _ u e4 in
    let (here, e6) = passed (is_empty parsed.hostname) no_host _ u e5 in
    let (known, e7) =
      passed (not (env.is_ip parsed.hostname) && not (is_valid_hostname parsed.hostname))
        invalid_host _ u e6 in
    let (port, e8, e9) = went_on (check_port scheme parsed.port) _ u e7 in
    let (low, high) = check_port-range scheme parsed.port port e8 in
    let slash = rooted-path parsed.path in
    record {
      scheme = ground (arith, e9, supported);
      host = ground (arith, e9, here);
      address = ground (arith, e9, known);
      low = ground (arith, e9, low);
      high = ground (arith, e9, high);
      path = ground (arith, e9, slash);
    }

check_port-decimal :
    (scheme : List ℕ) (n : ℕ) → 1 ≤ n → n ≤ 65535 → check_port scheme (decimal 5 n) ≡ inr n
unfolding check_port
check_port-decimal scheme n low high =
    let five : 10 ^ 5 ≡ 100000 = refl in
    let wide : 2 ^ 63 ≡ 9223372036854775808 = refl in
    let (given, number) = atoi-decimal 4 n (omega arith) (omega arith) in
    ground (arith, given, number, low, high)

-- What `url.Parse` gives is accepted if it has one of the three protocols and a host that is an IP
-- address or passes the check of host names, and its port is written as `Itoa` writes a number from 1
-- to 65535; that number is then the port.
pub parse_service_url-decimal :
    (env : Env) (text : List ℕ) (parsed : Url) (n : ℕ)
    → is_empty (trim_space text) ≡ false
    → contains_text (codes "://") text ≡ true
    → env.parse text ≡ some parsed
    → is_empty (to_lower parsed.scheme) ≡ false
    → is_supported (to_lower parsed.scheme) ≡ true
    → is_empty parsed.hostname ≡ false
    → (env.is_ip parsed.hostname || is_valid_hostname parsed.hostname) ≡ true
    → parsed.port ≡ decimal 5 n
    → 1 ≤ n
    → n ≤ 65535
    → parse_service_url env text
      ≡ inr (record {
        scheme = to_lower parsed.scheme;
        host = parsed.hostname;
        port = n;
        path = rooted parsed.path;
        username = parsed.username;
        password = parsed.password;
      })
unfolding parse_service_url
parse_service_url-decimal env text parsed n filled slashes known named supported here address port
      low high =
    let number : check_port (to_lower parsed.scheme) parsed.port ≡ inr n =
      ap (check_port (to_lower parsed.scheme)) port
      ∙ check_port-decimal (to_lower parsed.scheme) n low high in
    ground (arith, filled, slashes, known, named, supported, here, address, number)
