-- ===== src/Csrf/Tests.antt =====
-- Requests to csrf.go.
use tracks.Common.{◌≡◌, refl, ◌≢◌, ◌↔◌, true, false, some, [], ◌∷◌}
use tracks.Common.Text.{has_suffix, trim_suffix}
use tracks.Http.{Request, blank}
use tracks.RateLimit.Ideal.{serves}
use tracks.Csrf.{
  CsrfConfig, with_defaults, is_safe_method, match_path, is_exempt, get_or_create_token,
  request_token, protect, csrf_protection,
}
use tracks.Csrf.Policy.{protect-serves_iff}
use tracks.Csrf.Forms.{csrf_field, page_of, submitted, Shows, csrf_protection-form}

abbrev hooks_exempt : CsrfConfig
hooks_exempt = record {
  token_length = 32;
  cookie_name = "csrf_token";
  header_name = "X-CSRF-Token";
  field_name = "csrf_token";
  exempt_paths = "/hooks/*" ∷ [];
}

abbrev form : Request
form = record blank {
  method = "POST";
  path = "/users";
  cookie = λ _. some "t0k";
  form_value = λ _. "t0k";
}

form_unsafe : is_safe_method form.method ≡ false
unfolding is_safe_method
form_unsafe = refl

form_checked : is_exempt hooks_exempt.exempt_paths form.path ≡ false
unfolding is_exempt match_path has_suffix trim_suffix
form_checked = refl

blank_safe : is_safe_method blank.method ≡ true
unfolding is_safe_method
blank_safe = refl

protect-serves_iff_example : (serves (protect hooks_exempt "new" form) ≡ true) ↔ (
    (some "t0k" ≡ some (request_token hooks_exempt form)) × (request_token hooks_exempt form ≢ ""))
protect-serves_iff_example = protect-serves_iff hooks_exempt "new" form form_unsafe form_checked

-- A configuration that names another field.
abbrev named : CsrfConfig
named = record hooks_exempt { field_name = "token" }

abbrev sign_up : Request
sign_up = record blank { method = "POST"; path = "/users" }

-- The form of a new visitor is refused, since the field of the page is not the configured one.
csrf_protection-form_example :
    Shows (csrf_protection named "n3w" blank) (page_of (with_defaults named) "n3w" blank)
    × (serves (
          csrf_protection named "x" (
            submitted
              (with_defaults named)
              (page_of (with_defaults named) "n3w" blank)
              sign_up
              (λ _. "")))
        ≡ false)
unfolding is_safe_method is_exempt match_path has_suffix trim_suffix with_defaults
    get_or_create_token
csrf_protection-form_example =
    csrf_protection-form named "n3w" "x" blank sign_up (λ _. "") refl (cc) refl refl refl (cc)

field_of_page :
    csrf_field (page_of (with_defaults named) "n3w" blank)
    ≡ "<input type=\"hidden\" name=\"csrf_token\" value=\"n3w\">"
unfolding csrf_field get_or_create_token with_defaults
field_of_page = refl
