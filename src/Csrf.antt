-- ===== src/Csrf.antt =====
-- csrf.go. `generated` is the text that `generateToken` returns for the request, "" where the
-- random source fails, since its error is dropped.
pub mod Policy
pub mod Forms
mod Tests
use tracks.Common.{
  ℕ, String, Bool, false, not, ◌||◌, none, some, List, [], ◌∷◌, ◌++◌, nat_beq, if◌then◌else◌, ◌==◌,
  string_eq,
}
use tracks.Common.Text.{has_suffix, trim_suffix}
use text.Mathlib.Text.{starts_with}
use tracks.Http.{Request, Effect, set_cookie, http_error, serve}

pub record CsrfConfig : Type 0 where
  pub token_length : ℕ
  pub cookie_name : String
  pub header_name : String
  pub field_name : String
  pub exempt_paths : List String

abbrev or_default : String → String → String
or_default s default = if s == "" then default else s

-- The defaults that `CSRFProtection` fills in.
unfoldable pub with_defaults : CsrfConfig → CsrfConfig
with_defaults c = record {
  token_length = if nat_beq c.token_length 0 then 32 else c.token_length;
  cookie_name = or_default c.cookie_name "csrf_token";
  header_name = or_default c.header_name "X-CSRF-Token";
  field_name = or_default c.field_name "csrf_token";
  exempt_paths = c.exempt_paths;
}

unfoldable pub is_safe_method : String → Bool
is_safe_method m = m == "GET" || m == "HEAD" || m == "OPTIONS" || m == "TRACE"

unfoldable pub match_path : String → String → Bool
match_path pattern path =
    if has_suffix pattern "*" then starts_with path (trim_suffix pattern "*") else pattern == path

-- `for _, path := range config.ExemptPaths { if matchPath(path, r.URL.Path) { … } }`
unfoldable pub is_exempt : List String → String → Bool
is_exempt [] path = false
is_exempt (pattern ∷ patterns) path = match_path pattern path || is_exempt patterns path

-- The calls that `getOrCreateToken` makes, and the token.
unfoldable pub get_or_create_token : CsrfConfig → String → Request → List Effect × String
get_or_create_token c generated r = elim (r.cookie c.cookie_name) [
  | none ↦ (set_cookie c.cookie_name generated r.tls ∷ [], generated)
  | some value ↦ ([], value)
]

abbrev pub request_token : CsrfConfig → Request → String
request_token c r =
    if r.header c.header_name == "" then r.form_value c.field_name else r.header c.header_name

unfoldable pub validate_token : CsrfConfig → Request → List Effect
validate_token c r = elim (r.cookie c.cookie_name) [
  | none ↦ http_error "CSRF token missing" 403 ∷ []
  | some value ↦
      if request_token c r == "" || not (request_token c r == value)
      then http_error "CSRF token mismatch" 403 ∷ []
      else serve r ∷ []
]

abbrev with_token : Request → List Effect × String → List Effect
with_token r (effects, token) = effects ++ serve (record r { csrf_token = some token }) ∷ []

-- The handler that `CSRFProtection` puts in front of the next one.
unfoldable pub protect : CsrfConfig → String → Request → List Effect
unfolding get_or_create_token validate_token
protect c generated r =
    if is_safe_method r.method
    then with_token r (get_or_create_token c generated r)
    else if is_exempt c.exempt_paths r.path
    then serve r ∷ []
    else validate_token c r

unfoldable pub csrf_protection : CsrfConfig → String → Request → List Effect
unfolding with_defaults protect
csrf_protection config generated r = protect (with_defaults config) generated r
