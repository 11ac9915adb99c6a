-- ===== src/Csrf/Forms.antt =====
-- The hidden field of csrf.go in the forms of a page, and the request by which a browser sends such a form.
use tracks.Common.{
  String, ◌≡◌, refl, ◌∙◌, ◌≢◌, inl, inr, true, false, ◌||◌, none, some, List, [], ◌∷◌, arith,
  eq_iff, if◌then◌else◌, Bool-cases, ◌==◌, string_eq, beq_self,
}
use Prim.Native.String.{◌++◌}
use mathlib.Core.List
use tracks.Http.{Request, Effect, serve}
use tracks.RateLimit.Ideal.{serves}
use tracks.Csrf.{
  CsrfConfig, with_defaults, is_safe_method, is_exempt, get_or_create_token, validate_token,
  protect, csrf_protection,
}

-- `CSRFTokenFromContext`
abbrev pub csrf_token_from_context : Request → String
csrf_token_from_context r = elim r.csrf_token [ none ↦ "" | some token ↦ token ]

-- The name and the value of the hidden field.
abbrev pub csrf_input : Request → String × String
csrf_input r = ("csrf_token", csrf_token_from_context r)

-- `CSRFField`
unfoldable pub csrf_field : Request → String
csrf_field r =
    let (name, value) = csrf_input r in
    "<input type=\"hidden\" name=\"" ++ (name ++ ("\" value=\"" ++ (value ++ "\">")))

-- The request `p` with which a browser sends a form of the page that `page` was answered by: with the
-- cookie of the page, the hidden field, whose text of base64 stands in HTML as it is, and the values
-- `others` of the other fields.
abbrev pub submitted : CsrfConfig → (page p : Request) → (others : String → String) → Request
submitted c page p others = record p {
  cookie = λ name. if name == c.cookie_name then page.csrf_token else p.cookie name;
  form_value = λ name. if name == (csrf_input page).0 then (csrf_input page).1 else others name;
}

-- The request that the handler of a page gets.
abbrev pub Shows : List Effect → Request → Type 0
Shows effects page = (before : List Effect) × (effects ≡ List.◌++◌ before (serve page ∷ []))

protect-submitted :
    (c : CsrfConfig) (generated : String) (p page : Request) (others : String → String)
    (token : String)
    → page.csrf_token ≡ some token
    → token ≢ ""
    → is_safe_method p.method ≡ false
    → is_exempt c.exempt_paths p.path ≡ false
    → p.header c.header_name ≡ ""
    → others c.field_name ≢ token
    → serves (protect c generated (submitted c page p others)) ≡ (c.field_name == "csrf_token")
unfolding protect validate_token
protect-submitted c generated p page others token shown filled unsafe checked no_header differs =
    rw (unsafe, checked, validate_token, beq_self c.cookie_name, shown, no_header)
      (elim (Bool-cases (c.field_name == "csrf_token")) [
        | inl same ↦ rw same (ground (arith, eq_iff token "", eq_iff token token))
        | inr other ↦
            rw other
              (ground (arith, eq_iff (others c.field_name) "", eq_iff (others c.field_name) token))
      ])

default_name :
    (name : String)
    → ((if name == "" then "csrf_token" else name) == "csrf_token")
      ≡ (name == "" || name == "csrf_token")
default_name name = elim (Bool-cases (name == "")) [ inl e ↦ rw e refl | inr e ↦ rw e refl ]

-- The request that reaches the handler of a page: with the token of its cookie, or a new one.
abbrev pub page_of : CsrfConfig → String → Request → Request
page_of c generated r = record r { csrf_token = some (get_or_create_token c generated r).1 }

-- A page that is asked for by a safe method reaches its handler, and the form on it, sent with the hidden
-- field and the cookie of the page, reaches the handler of the form exactly when the name of the field is
-- configured as csrf_token or not at all. The page has a token, the form is sent by a method that is
-- checked, to a path that is not exempt, without the header, and no other field repeats the token under the
-- configured name.
pub csrf_protection-form :
    (c : CsrfConfig) (generated generated' : String) (r p : Request) (others : String → String)
    → is_safe_method r.method ≡ true
    → (get_or_create_token (with_defaults c) generated r).1 ≢ ""
    → is_safe_method p.method ≡ false
    → is_exempt c.exempt_paths p.path ≡ false
    → p.header (with_defaults c).header_name ≡ ""
    → others (with_defaults c).field_name ≢ (get_or_create_token (with_defaults c) generated r).1
    → Shows (csrf_protection c generated r) (page_of (with_defaults c) generated r)
      × (serves (
            csrf_protection c generated'
              (submitted (with_defaults c) (page_of (with_defaults c) generated r) p others))
          ≡ (c.field_name == "" || c.field_name == "csrf_token"))
unfolding csrf_protection protect with_defaults
csrf_protection-form c generated generated' r p others safe filled unsafe checked no_header
      differs =
    let c' = with_defaults c in
    let page = page_of c' generated r in
    (
      ((get_or_create_token c' generated r).0, rw safe refl),
      protect-submitted c' generated' p page others (get_or_create_token c' generated r).1 refl
            filled unsafe checked no_header differs
          ∙ default_name c.field_name,
    )
