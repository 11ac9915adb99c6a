-- ===== src/Translations/Loading.antt =====
-- `LoadTranslations` of i18n/i18n.go. What a load keeps of the agreement of the flat caches with the
-- nested texts.
use tracks.Common.{
  String, ◌≡◌, refl, ◌∙◌, inl, inr, false, Option, none, some, List, [], ◌∷◌, map, arith, eq_iff,
  Bool-cases, ◌==◌, string_eq, All, contains,
}
use tracks.Common.Dict.{Dict, get, put, get-put}
use tracks.Common.Split.{split_on}
use tracks.Common.Text.{trim_suffix}
use tracks.Translations.{Fields, flatten_translations}
use tracks.Translations.Paths.{or_else}
use tracks.Translations.Flat.{leaf, IsPlain, get-flatten_translations}
use tracks.Translations.Lookup.{
  Translator, new_translator, Agree, translate, translate_nested, translate-eq-translate_nested,
}

-- A file "*.json" as `os.ReadFile` and `json.Unmarshal` see it; JSON's null is a map without fields.
pub data Content : Type 0 where
  unreadable malformed : Content
  parsed : Fields → Content

pub data LoadError : Type 0 where
  read_failed decode_failed : LoadError

abbrev pub lang_of : String → String
lang_of name = trim_suffix name ".json"

-- `if t.flatCache[lang] == nil { t.flatCache[lang] = make(…) }`
abbrev pub or_empty : Option (Dict String String) → Dict String String
or_empty none = []
or_empty (some cache) = cache

-- The nested texts are replaced; the flat ones are written over those that the cache holds.
unfoldable pub store : Translator → String → Fields → Translator
store t lang nested = record t {
  translations = put lang nested t.translations;
  flat_cache =
      put lang (flatten_translations nested "" (or_empty (get lang t.flat_cache))) t.flat_cache;
}

-- `LoadTranslations`, over the names and contents of the files that `filepath.Glob` gives.
unfoldable pub load_translations :
    Translator → List (String × Content) → Translator × Option LoadError
unfolding store
load_translations t [] = (t, none)
load_translations t ((name, unreadable) ∷ files) = (t, some read_failed)
load_translations t ((name, malformed) ∷ files) = (t, some decode_failed)
load_translations t ((name, parsed nested) ∷ files) =
    load_translations (store t (lang_of name) nested) files

abbrev pub IsPlainContent : Content → Type 0
IsPlainContent (parsed nested) = IsPlain nested
IsPlainContent _ = Unit

-- The languages of the files are new to the translator and differ from each other.
abbrev pub Fresh : Translator → List (String × Content) → Type 0
Fresh t [] = Unit
Fresh t ((name, content) ∷ files) =
    (get (lang_of name) t.flat_cache ≡ none)
    × (contains (lang_of name) (map (λ f. lang_of f.0) files) ≡ false)
    × Fresh t files

abbrev pub AllAgree : Translator → Type 0
AllAgree t = (lang : String) → Agree (get lang t.flat_cache) (get lang t.translations)

pub or_else-none : (o : Option String) → or_else o none ≡ o
or_else-none none = refl
or_else-none (some s) = refl

flatten_fresh :
    (nested : Fields) (old : Option (Dict String String)) (key : String)
    → IsPlain nested
    → old ≡ none
    → get key (flatten_translations nested "" (or_empty old)) ≡ leaf (split_on b'.' key) nested
flatten_fresh nested old key h e =
    rw (e, get-flatten_translations nested key [] h) (unfold get in or_else-none _)

store-AllAgree :
    (t : Translator) (lang : String) (nested : Fields)
    → AllAgree t
    → IsPlain nested
    → get lang t.flat_cache ≡ none
    → AllAgree (store t lang nested)
unfolding store
store-AllAgree t lang nested h p new l =
    rw
      (
        get-put lang l (flatten_translations nested "" (or_empty (get lang t.flat_cache)))
            t.flat_cache,
        get-put lang l nested t.translations,
      )
      (elim (Bool-cases (lang == l)) [
        | inl e ↦ rw e (λ key. flatten_fresh nested (get lang t.flat_cache) key p new)
        | inr e ↦ rw e (h l)
      ])

get_flat-store :
    (t : Translator) (lang l : String) (nested : Fields)
    → (lang == l) ≡ false
    → get l (store t lang nested).flat_cache ≡ get l t.flat_cache
unfolding store
get_flat-store t lang l nested e = rw (
  get-put lang l (flatten_translations nested "" (or_empty (get lang t.flat_cache))) t.flat_cache,
  e,
)

Fresh-store :
    (t : Translator) (lang : String) (nested : Fields) (files : List (String × Content))
    → contains lang (map (λ f. lang_of f.0) files) ≡ false
    → Fresh t files
    → Fresh (store t lang nested) files
Fresh-store t lang nested [] new h = tt
Fresh-store t lang nested ((name, content) ∷ files) new h = (
  get_flat-store t lang (lang_of name) nested
        (ground (arith, eq_iff lang (lang_of name), eq_iff (lang_of name) lang))
      ∙ h.0,
  h.1,
  Fresh-store t lang nested files (ground arith) h.2,
)

-- A load of languages that are new keeps the agreement, also when it stops at a file.
pub load_translations-AllAgree :
    (t : Translator) (files : List (String × Content))
    → AllAgree t
    → All (λ f. IsPlainContent f.1) files
    → Fresh t files
    → AllAgree (load_translations t files).0
unfolding load_translations
load_translations-AllAgree t [] h p f = h
load_translations-AllAgree t ((name, unreadable) ∷ files) h p f = h
load_translations-AllAgree t ((name, malformed) ∷ files) h p f = h
load_translations-AllAgree t ((name, parsed nested) ∷ files) h p f =
    load_translations-AllAgree (store t (lang_of name) nested) files
      (store-AllAgree t (lang_of name) nested h p.0 f.0) p.1
      (Fresh-store t (lang_of name) nested files f.1 f.2)

module _ (print_object : Fields → String) where
  -- Once a directory is loaded into a new translator, whether or not the load met an error, `Translate`
  -- gives for each language and key what the nested texts alone would give. The files have different
  -- languages, and their keys are names without dots that do not repeat.
  pub translate-load_translations :
      (default_lang : String) (files : List (String × Content))
      → All (λ f. IsPlainContent f.1) files
      → Fresh (new_translator default_lang) files
      → (lang key : String)
      → let t = (load_translations (new_translator default_lang) files).0 in
        translate print_object t lang key ≡ translate_nested print_object t lang key
  translate-load_translations default_lang files p f =
      translate-eq-translate_nested print_object _ (
        load_translations-AllAgree (new_translator default_lang) files (λ lang. unfold get in tt) p
          f)
