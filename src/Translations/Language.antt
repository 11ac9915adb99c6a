-- ===== src/Translations/Language.antt =====
-- The language of a request (i18n/context.go): `DetectLanguage`, `SetLocale`, the values in the
-- context, `T` and the middleware.
use tracks.Common.{
  ℕ, String, ◌≡◌, ◌≢◌, ◌⊎◌, inl, inr, Bool, true, false, not, Option, none, some, List, eq_iff,
  if◌then◌else◌, Bool-cases, ◌==◌, string_eq,
}
use tracks.Common.Split.{split_on, first_part, trim_space}
use tracks.Common.Dict.{get-put_self}
use tracks.Http.{Request}
use tracks.Session.Data.{SessionData, get_value, put_value}
use tracks.Translations.{Fields}
use tracks.Translations.Lookup.{Translator, translate_with_params}

-- The first language of an Accept-Language header, without its weight and its region.
unfoldable pub language_code : String → String
language_code header =
    first_part
      (split_on b'-' (trim_space (first_part (split_on b';' (first_part (split_on b',' header))))))

abbrev accept_language : String → String → String
accept_language header default_lang = if header == "" then default_lang else language_code header

-- A value that is there and not "".
abbrev given : Option String → Option String
given none = none
given (some s) = if s == "" then none else some s

abbrev first_of : Option String → String → String
first_of none s = s
first_of (some t) s = t

abbrev pub session_language : Option SessionData → Option String
session_language none = none
session_language (some s) = get_value s "language"

-- `DetectLanguage`: the query, the cookie, the session, the header, the default.
unfoldable pub detect_language : Request → Option SessionData → String → String
detect_language r session default_lang =
    if not (r.query "locale" == "")
    then r.query "locale"
    else first_of (given (r.cookie "locale")) (
        first_of (given (session_language session))
          (accept_language (r.header "Accept-Language") default_lang))

pub record Cookie : Type 0 where
  pub name : String
  pub value : String
  pub path : String
  pub http_only : Bool
  pub max_age : ℕ

-- `SetLocale`: the session afterwards, and the cookie.
unfoldable pub set_locale : Option SessionData → String → Option SessionData × Cookie
set_locale session locale = (
  elim session [ none ↦ none | some s ↦ some (put_value s "language" locale) ],
  record { name = "locale"; value = locale; path = "/"; http_only = true; max_age = 31536000 },
)

-- The two values that the middleware puts into the context of a request.
pub record Context : Type 0 where
  pub language : Option String
  pub translator : Option Translator

abbrev pub language_from_context : Context → String
language_from_context c = elim c.language [ none ↦ "" | some lang ↦ lang ]

-- `Middleware`: the context with which the next handler runs.
unfoldable pub with_language : Translator → String → Request → Option SessionData → Context
with_language t default_lang r session = record {
  language = some (detect_language r session default_lang);
  translator = some t;
}

module _ (print_object : Fields → String) {P : Type 0} (sprintf : String → List P → String) where
  -- `T`
  unfoldable pub translate_in : Context → String → List P → String
  translate_in c key params = elim c.translator [
    | none ↦ key
    | some t ↦ translate_with_params print_object sprintf t (language_from_context c) key params
  ]

string_ne : (s t : String) → s ≢ t → (s == t) ≡ false
string_ne s t h = elim (Bool-cases (s == t)) [ inl e ↦ absurd (h ((eq_iff s t).0 e)) | inr e ↦ e ]

get_value-put_value :
    (s : SessionData) (key value : String) → get_value (put_value s key value) key ≡ some value
unfolding put_value
get_value-put_value s key value = get-put_self key value s.data_of

-- A locale that is set is detected in the next request without a parameter `locale` that brings back
-- the cookie, or that has no such cookie and has the session.
pub detect_language-set_locale :
    (session : SessionData) (locale default_lang : String) (r : Request)
    → locale ≢ ""
    → r.query "locale" ≡ ""
    → let (kept, cookie) = set_locale (some session) locale in
      (r.cookie cookie.name ≡ some cookie.value) ⊎ (r.cookie cookie.name ≡ none)
      → detect_language r kept default_lang ≡ locale
unfolding detect_language set_locale
detect_language-set_locale session locale default_lang r ne q (inl h) =
    rw (q, h, string_ne locale "" ne)
detect_language-set_locale session locale default_lang r ne q (inr h) =
    rw (q, h, get_value-put_value session "language" locale, string_ne locale "" ne)
