-- ===== src/Actions/Page.antt =====
-- What renderHTML of action.go gives to the template of a page: the functions `t`, `v`, `safe`,
-- `csrf_token` and `csrf_field`, and the data.

mod Tests
use tracks.Common.{
  String, ◌≡◌, refl, sym, ap, ◌∙◌, ◌↔◌, inl, inr, false, Option, none, some, List, [], ◌∷◌, arith,
  if◌then◌else◌, Bool-cases, string_eq,
}
use Prim.Native.String.{◌++◌}
use tracks.Common.Dict
use tracks.Common.Dict.{Dict}
use tracks.Common.Text.{
  has_suffix, trim_suffix, has_suffix-append, trim_suffix-append, append-trim_suffix,
}
use tracks.Http.{Request}
use tracks.Csrf.Forms.{csrf_token_from_context, csrf_field}
use tracks.Session.Data.{SessionData, flash_messages}
use tracks.Translations.{Fields}
use tracks.Translations.Lookup.{Translator, translate, translate_with_params}

-- A value in a page: `template.HTML`, which is written as it is, or a text, which is escaped.
pub data Inserted : Type 0 where
  html : String → Inserted
  escaped : String → Inserted

abbrev pub mark : String
mark = " [SafeHTML]"

abbrev pub unmarked : String → Inserted
unmarked translation =
    if has_suffix translation mark then html (trim_suffix translation mark) else escaped translation

unmarked-append : (shown : String) → unmarked (shown ++ mark) ≡ html shown
unmarked-append shown = rw (has_suffix-append shown mark, trim_suffix-append shown mark) refl

html-unmarked : (s shown : String) → unmarked s ≡ html shown → s ≡ shown ++ mark
html-unmarked s shown e = elim (Bool-cases (has_suffix s mark)) [
  | inl marked ↦
      let cut : trim_suffix s mark ≡ shown = ground arith in
      sym (append-trim_suffix s mark marked) ∙ ap (λ t. t ++ mark) cut
  | inr plain ↦ ground arith
]

escaped-unmarked : (s : String) → unmarked s ≡ escaped s → has_suffix s mark ≡ false
escaped-unmarked s e = ground arith

-- `fmt.Sprintf` is a parameter, of an object and of a text with arguments.
module _ (print_object : Fields → String) {P : Type 0} (sprintf : String → List P → String)
    (translator : Translator) (lang : String) where
  abbrev pub translation : (key : String) → List P → String
  translation key [] = translate print_object translator lang key
  translation key (p ∷ args) =
      translate_with_params print_object sprintf translator lang key (p ∷ args)

  -- `t`
  unfoldable pub t_func : (key : String) → List P → Inserted
  t_func key args = unmarked (translation key args)

  -- `t` gives HTML that is not escaped exactly where the translation, with its arguments filled in, ends
  -- with the mark " [SafeHTML]", which is left out; every other translation is escaped as a whole.
  pub t_func-html_iff :
      (key : String) (args : List P) (shown : String)
      → ((t_func key args ≡ html shown) ↔ (translation key args ≡ shown ++ mark))
        × ((has_suffix (translation key args) mark ≡ false)
            ↔ (t_func key args ≡ escaped (translation key args)))
  unfolding t_func
  t_func-html_iff key args shown =
      let s = translation key args in
      (
        (html-unmarked s shown, λ e. rw e (unmarked-append shown)),
        (λ plain. rw plain refl, escaped-unmarked s),
      )

-- `v` and `safe`
abbrev pub v_func : {V : Type 0} → Dict String V → String → Option V
v_func vars key = Dict.get key vars

abbrev pub safe_func : String → Inserted
safe_func s = html s

-- The data of the template "page".
pub record PageData (X V : Type 0) : Type 0 where
  pub session : Option SessionData
  pub flash : Option (Dict String String)
  pub content : X
  pub vars : Dict String V

abbrev pub page_data : {X V : Type 0} → Option SessionData → X → Dict String V → PageData X V
page_data session content vars = record {
  session = session;
  flash = elim session [ none ↦ none | some s ↦ some (flash_messages s) ];
  content = content;
  vars = vars;
}

-- The functions that a page is given, for its request.
pub record PageFunctions (P V : Type 0) : Type 0 where
  pub t : String → List P → Inserted
  pub v : String → Option V
  pub safe : String → Inserted
  pub csrf_token : String
  pub field_of_csrf : Inserted

abbrev pub page_functions :
    {P V : Type 0}
    → (Fields → String)
    → (String → List P → String)
    → Translator
    → (lang : String) → Dict String V
    → Request
    → PageFunctions P V
page_functions print_object sprintf translator lang vars r = record {
  t = t_func print_object sprintf translator lang;
  v = v_func vars;
  safe = safe_func;
  csrf_token = csrf_token_from_context r;
  field_of_csrf = html (csrf_field r);
}
