-- ===== src/ServiceUrl.antt =====
-- shared/service_url.go: the parts of a service's URL. The URL and its parts are code points, the
-- host is bytes; `url.Parse` and `net.ParseIP` are parameters.
pub mod Decimal
pub mod Valid
mod Tests
use unblink.Base.{
  ℕ, ◌+◌, ◌*◌, ◌-◌, Bool, true, false, not, ◌&&◌, ◌||◌, Option, none, some, List, [], ◌∷◌, String,
  ◌⊎◌, inl, inr, if◌then◌else◌, on_some, length, ltb, leb, eqb, is_empty, map,
}
use unblink.Base.Int.{ℤ, pos, negsuc, ltb_ℤ, pos_part}
use unblink.Trim.Truncate.{codes, starts_with, contains_text}
use unblink.Chat.Text.{trim_space}
use unblink.ServiceUrl.Decimal.{atoi}

-- What the code reads of a `url.URL`: `Scheme`, `Hostname()`, `Port()`, `Path` and `User`.
pub record Url : Type 0 where
  pub scheme : List ℕ
  pub hostname : List ℕ
  pub port : List ℕ
  pub path : List ℕ
  pub username : List ℕ
  pub password : List ℕ

pub record Env : Type 0 where
  pub parse : List ℕ → Option Url
  pub is_ip : List ℕ → Bool

pub record ServiceUrl : Type 0 where
  pub scheme : List ℕ
  pub host : List ℕ
  pub port : ℕ
  pub path : List ℕ
  pub username : List ℕ
  pub password : List ℕ

pub data UrlError : Type 0 where
  empty_url no_protocol invalid_format unsupported no_host invalid_host : UrlError
  invalid_port port_out_of_range no_default_port : UrlError

abbrev pub is_text : String → List ℕ → Bool
is_text s text = eqb (length (codes s)) (length text) && starts_with (codes s) text

-- `strings.ToLower`, of ASCII.
abbrev pub to_lower : List ℕ → List ℕ
to_lower text = map (λ c. if leb 65 c && leb c 90 then c + 32 else c) text

unfoldable pub is_supported : List ℕ → Bool
is_supported scheme = is_text "rtsp" scheme || (is_text "http" scheme || is_text "https" scheme)

-- `DefaultPorts`
unfoldable pub default_port : List ℕ → Option ℕ
default_port scheme =
    if is_text "rtsp" scheme
    then some 554
    else if is_text "http" scheme
    then some 80
    else if is_text "https" scheme
    then some 443
    else none

unfoldable pub is_valid_hostname : List ℕ → Bool
is_valid_hostname host =
    if ltb 253 (length host)
    then false
    else contains_text (46 ∷ []) host || is_text "localhost" host

-- The port that is given, or the scheme's.
unfoldable pub check_port : List ℕ → List ℕ → UrlError ⊎ ℕ
check_port scheme port =
    if is_empty port
    then on_some (default_port scheme) (inl no_default_port) (λ n. inr n)
    else on_some (atoi port) (inl invalid_port) λ n.
      if ltb_ℤ n (pos 1) || ltb_ℤ (pos 65535) n then inl port_out_of_range else inr (pos_part n)

-- A path that is not empty begins with "/".
unfoldable pub rooted : List ℕ → List ℕ
rooted path = if not (is_empty path) && not (starts_with (47 ∷ []) path) then 47 ∷ path else path

abbrev pub or_fail {ℓ κ μ} : {E : Type ℓ} {A : Type κ} {B : Type μ} → E ⊎ A → (A → E ⊎ B) → E ⊎ B
or_fail (inl e) f = inl e
or_fail (inr a) f = f a

-- `ParseServiceURL`
unfoldable pub parse_service_url : Env → List ℕ → UrlError ⊎ ServiceUrl
parse_service_url env text =
    if is_empty (trim_space text)
    then inl empty_url
    else if not (contains_text (codes "://") text)
    then inl no_protocol
    else on_some (env.parse text) (inl invalid_format) λ parsed.
      let scheme = to_lower parsed.scheme in
      if is_empty scheme
      then inl no_protocol
      else if not (is_supported scheme)
      then inl unsupported
      else if is_empty parsed.hostname
      then inl no_host
      else if not (env.is_ip parsed.hostname) && not (is_valid_hostname parsed.hostname)
      then inl invalid_host
      else or_fail (check_port scheme parsed.port) λ port. inr (record {
        scheme = scheme;
        host = parsed.hostname;
        port = port;
        path = rooted parsed.path;
        username = parsed.username;
        password = parsed.password;
      })
