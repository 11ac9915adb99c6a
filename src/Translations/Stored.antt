-- ===== src/Translations/Stored.antt =====
-- What `LoadTranslations` leaves to be found: the texts of the files, and those of an earlier load.
use tracks.Common.{
  String, ◌≡◌, refl, sym, ◌∙◌, false, Option, none, some, List, [], ◌∷◌, map, arith, if◌then◌else◌,
  ◌==◌, string_eq, beq_self, All, contains, Distinct,
}
use tracks.Common.Dict.{Dict, get, get-put, get-put_self}
use tracks.Common.Split.{split_on}
use tracks.Translations.{Fields, flatten_translations, get_nested_value, navigate}
use tracks.Translations.Paths.{or_else}
use tracks.Translations.Flat.{leaf, IsPlain, get-flatten_translations}
use tracks.Translations.Lookup.{
  Translator, new_translator, translate, look_up, translate_nested, cached, nested, or_key,
  navigate-leaf,
}
use tracks.Translations.Loading.{
  Content, unreadable, malformed, parsed, lang_of, or_empty, store, load_translations,
  IsPlainContent, Fresh, translate-load_translations,
}

get-store :
    (t : Translator) (lang l : String) (fields : Fields)
    → get l (store t lang fields).translations
      ≡ (if lang == l then some fields else get l t.translations)
unfolding store
get-store t lang l fields = get-put lang l fields t.translations

get-load_ne :
    (t : Translator) (l : String) (files : List (String × Content))
    → contains l (map (λ f. lang_of f.0) files) ≡ false
    → get l (load_translations t files).0.translations ≡ get l t.translations
unfolding load_translations
get-load_ne t l [] h = refl
get-load_ne t l ((name, unreadable) ∷ files) h = refl
get-load_ne t l ((name, malformed) ∷ files) h = refl
get-load_ne t l ((name, parsed fields) ∷ files) h =
    get-load_ne (store t (lang_of name) fields) l files (ground arith)
    ∙ ground (arith, get-store t (lang_of name) l fields)

abbrev Stored : Translator → String × Content → Type 0
Stored t (name, parsed fields) = get (lang_of name) t.translations ≡ some fields
Stored t _ = Unit

load-Stored :
    (t : Translator) (files : List (String × Content))
    → Distinct (map (λ f. lang_of f.0) files)
    → (load_translations t files).1 ≡ none
    → All (Stored (load_translations t files).0) files
unfolding load_translations
load-Stored t [] d h = tt
load-Stored t ((name, unreadable) ∷ files) d h = cc
load-Stored t ((name, malformed) ∷ files) d h = cc
load-Stored t ((name, parsed fields) ∷ files) d h = (
  get-load_ne (store t (lang_of name) fields) (lang_of name) files d.0
      ∙ get-store t (lang_of name) (lang_of name) fields
      ∙ rw (beq_self (lang_of name)),
  load-Stored (store t (lang_of name) fields) files d.1 h,
)

Fresh-new :
    (d : String) (files : List (String × Content))
    → Distinct (map (λ f. lang_of f.0) files)
    → Fresh (new_translator d) files
unfolding get
Fresh-new d [] h = tt
Fresh-new d ((name, content) ∷ files) h = (refl, h.0, Fresh-new d files h.1)

cached-store :
    (t : Translator) (lang key : String) (fields : Fields)
    → IsPlain fields
    → cached (store t lang fields) lang key
      ≡ or_else (leaf (split_on b'.' key) fields) (get key (or_empty (get lang t.flat_cache)))
unfolding store
cached-store t lang key fields p =
    go _ (
      get-put_self lang (flatten_translations fields "" (or_empty (get lang t.flat_cache)))
        t.flat_cache)
    ∙ get-flatten_translations fields key (or_empty (get lang t.flat_cache)) p
  where
    go :
        {c : Dict String String} (o : Option (Dict String String))
        → o ≡ some c
        → elim o [ none ↦ none | some cache ↦ get key cache ] ≡ get key c
    go o e = rw e

module _ (print_object : Fields → String) where
  -- The texts of a file are found under its language and their dotted keys.
  abbrev pub Found : Translator → String × Content → Type 0
  Found t (name, parsed fields) =
      (key s : String)
      → leaf (split_on b'.' key) fields ≡ some s
      → translate print_object t (lang_of name) key ≡ s
  Found t _ = Unit

  -- What the first language has is the answer.
  first_answer :
      (key s : String) (o rest : Option String) → o ≡ some s → or_key key (or_else o rest) ≡ s
  first_answer key s o rest e = rw e

  nested-leaf :
      (t : Translator) (lang key s : String) (fields : Fields)
      → get lang t.translations ≡ some fields
      → leaf (split_on b'.' key) fields ≡ some s
      → nested print_object t lang key ≡ some s
  unfolding get_nested_value
  nested-leaf t lang key s fields e h =
      go (get lang t.translations) e
      ∙ (sym (navigate-leaf print_object (split_on b'.' key) fields) ∙ rw (h, or_else))
    where
      go :
          (o : Option Fields)
          → o ≡ some fields
          → elim o [ none ↦ none | some n ↦ navigate print_object (split_on b'.' key) n ]
            ≡ navigate print_object (split_on b'.' key) fields
      go o e = rw e

  Found-of_Stored :
      (t : Translator) (f : String × Content)
      → ((lang key : String)
          → translate print_object t lang key ≡ translate_nested print_object t lang key)
      → Stored t f
      → Found t f
  Found-of_Stored t (name, unreadable) same h = tt
  Found-of_Stored t (name, malformed) same h = tt
  Found-of_Stored t (name, parsed fields) same h = λ key s e.
      same (lang_of name) key
      ∙ first_answer key s (nested print_object t (lang_of name) key) _
          (nested-leaf t (lang_of name) key s fields h e)

  All-Found :
      (t : Translator) (files : List (String × Content))
      → ((lang key : String)
          → translate print_object t lang key ≡ translate_nested print_object t lang key)
      → All (Stored t) files
      → All (Found t) files
  All-Found t [] same h = tt
  All-Found t (f ∷ files) same h = (Found-of_Stored t f same h.0, All-Found t files same h.1)

  -- After a load without error into a new translator, each text of each file, a text at the end of a
  -- path of keys, is what `Translate` gives for the file's language and the dotted key. The files have
  -- different languages, and their keys are names without dots that do not repeat.
  pub load_translations-Found :
      (default_lang : String) (files : List (String × Content))
      → All (λ f. IsPlainContent f.1) files
      → Distinct (map (λ f. lang_of f.0) files)
      → (load_translations (new_translator default_lang) files).1 ≡ none
      → All (Found (load_translations (new_translator default_lang) files).0) files
  load_translations-Found default_lang files p d h =
      All-Found _ files
        (translate-load_translations print_object default_lang files p
          (Fresh-new default_lang files d))
        (load-Stored (new_translator default_lang) files d h)

  -- A text stays after its file is loaded again without it: a key that was in the flat cache of the
  -- language, and at whose path the new file has no text, keeps its old translation.
  pub translate-reload :
      (t : Translator) (name key s : String) (fields : Fields) (cache : Dict String String)
      → IsPlain fields
      → get (lang_of name) t.flat_cache ≡ some cache
      → get key cache ≡ some s
      → leaf (split_on b'.' key) fields ≡ none
      → translate print_object
          (load_translations t ((name, parsed fields) ∷ [])).0
          (lang_of name)
          key
        ≡ s
  unfolding load_translations translate look_up
  translate-reload t name key s fields cache p e h gone =
      first_answer key s (look_up print_object (store t (lang_of name) fields) (lang_of name) key) _
        (rw (cached-store t (lang_of name) key fields p, e, or_empty, h, gone))
