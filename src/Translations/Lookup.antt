-- ===== src/Translations/Lookup.antt =====
-- The translator of i18n/i18n.go: `Translate` and `TranslateWithParams`. The mutex makes each call one
-- step on the state.
use tracks.Common.{
  String, ◌≡◌, refl, not, ◌&&◌, Option, none, some, List, [], ◌∷◌, if◌then◌else◌, ◌==◌, string_eq,
}
use tracks.Common.Dict.{Dict, get}
use tracks.Common.Split.{split_on}
use tracks.Authentication.Roles.{has_infix}
use tracks.Translations.{
  Value, Fields, null, text, other, object, get_nested_value, navigate, printed, next_level, member,
}
use tracks.Translations.Paths.{or_else}
use tracks.Translations.Flat.{leaf, scalar}

pub record Translator : Type 0 where
  pub translations : Dict String Fields
  pub flat_cache : Dict String (Dict String String)
  pub default_lang : String

-- `NewTranslator`
abbrev pub new_translator : String → Translator
new_translator default_lang = record {
  translations = [];
  flat_cache = [];
  default_lang = default_lang;
}

-- `if cache, ok := t.flatCache[lang]; ok { … cache[key] … }`
abbrev pub cached : Translator → String → String → Option String
cached t lang key = elim (get lang t.flat_cache) [ none ↦ none | some cache ↦ get key cache ]

abbrev pub or_key : String → Option String → String
or_key key none = key
or_key key (some translation) = translation

-- The flat cache and the nested texts of a language agree.
abbrev pub Agree : Option (Dict String String) → Option Fields → Type 0
Agree none none = Unit
Agree (some cache) (some nested) = (key : String) → get key cache ≡ leaf (split_on b'.' key) nested
Agree _ _ = ⊥

-- `fmt.Sprintf` of a whole object, and of a text with parameters, are parameters.
module _ (print_object : Fields → String) where
  abbrev pub nested : Translator → String → String → Option String
  nested t lang key = elim (get lang t.translations) [
    | none ↦ none
    | some translations ↦ get_nested_value print_object translations key
  ]

  -- The flat cache, then the nested texts, of one language.
  unfoldable pub look_up : Translator → String → String → Option String
  look_up t lang key = or_else (cached t lang key) (nested t lang key)

  -- `Translate`
  unfoldable pub translate : Translator → String → String → String
  unfolding look_up
  translate t lang key = or_key key (
      or_else (look_up t lang key)
        (if lang == t.default_lang then none else look_up t t.default_lang key))

  module _ {P : Type 0} (sprintf : String → List P → String) where
    -- `TranslateWithParams`
    unfoldable pub translate_with_params : Translator → String → String → List P → String
    translate_with_params t lang key [] = translate t lang key
    translate_with_params t lang key (p ∷ params) =
        let translation = translate t lang key in
        if translation == key && not (has_infix key "%")
        then key
        else sprintf translation (p ∷ params)

  -- What the cache answers the nested texts answer too.
  pub navigate-leaf :
      (path : List String) (nested : Fields)
      → or_else (leaf path nested) (navigate print_object path nested)
        ≡ navigate print_object path nested
  unfolding leaf navigate
  navigate-leaf [] nested = refl
  navigate-leaf (part ∷ []) nested = go (member part nested)
    where
      go : (o : Option Value) → or_else (scalar o) (printed print_object o) ≡ printed print_object o
      go none = refl
      go (some null) = refl
      go (some (text s)) = refl
      go (some (other s)) = refl
      go (some (object n)) = refl
  navigate-leaf (part ∷ p ∷ path) nested =
      go (next_level (member part nested)) (λ n. navigate-leaf (p ∷ path) n)
    where
      go :
          (o : Option Fields)
          → ((n : Fields)
              → or_else (leaf (p ∷ path) n) (navigate print_object (p ∷ path) n)
                ≡ navigate print_object (p ∷ path) n)
          → or_else
              (elim o [ none ↦ none | some deeper ↦ leaf (p ∷ path) deeper ])
              (elim o [ none ↦ none | some deeper ↦ navigate print_object (p ∷ path) deeper ])
            ≡ elim o [ none ↦ none | some deeper ↦ navigate print_object (p ∷ path) deeper ]
      go none h = refl
      go (some n) h = h n

  look_up_lem :
      (t : Translator) (lang key : String)
      → Agree (get lang t.flat_cache) (get lang t.translations)
      → look_up t lang key ≡ nested t lang key
  unfolding look_up get_nested_value
  look_up_lem t lang key h = go (get lang t.flat_cache) (get lang t.translations) h
    where
      go :
          (c : Option (Dict String String)) (n : Option Fields)
          → Agree c n
          → or_else
              (elim c [ none ↦ none | some cache ↦ get key cache ])
              (elim n [ none ↦ none | some fs ↦ navigate print_object (split_on b'.' key) fs ])
            ≡ elim n [ none ↦ none | some fs ↦ navigate print_object (split_on b'.' key) fs ]
      go none none h = refl
      go (some cache) (some fs) h = rw (h key) (navigate-leaf (split_on b'.' key) fs)
      go none (some fs) h = absurd h
      go (some cache) none h = absurd h

  -- `Translate` without the flat caches.
  abbrev pub translate_nested : Translator → String → String → String
  translate_nested t lang key = or_key key (
      or_else (nested t lang key)
        (if lang == t.default_lang then none else nested t t.default_lang key))

  -- Where the caches agree with the nested texts, `Translate` gives what it would give without them.
  pub translate-eq-translate_nested :
      (t : Translator)
      → ((lang : String) → Agree (get lang t.flat_cache) (get lang t.translations))
      → (lang key : String) → translate t lang key ≡ translate_nested t lang key
  unfolding translate
  translate-eq-translate_nested t h lang key =
      rw (look_up_lem t lang key (h lang), look_up_lem t t.default_lang key (h t.default_lang))
