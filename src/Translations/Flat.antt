-- ===== src/Translations/Flat.antt =====
-- The flat cache of `flattenTranslations` holds, under a dotted key, the text at that path.
use tracks.Common.{
  String, ◌≡◌, refl, ap, ◌∙◌, ◌≢◌, inl, inr, Option, none, some, List, [], ◌∷◌, ◌++◌, eq_iff,
  if◌then◌else◌, Bool-cases, ◌==◌, string_eq, All, All-append,
}
use tracks.Common.Dict.{Dict, get}
use tracks.Common.Split.{split_on}
use tracks.Common.Text.{join}
use mathlib.Core.Path.{subst}
use tracks.Translations.Paths.{
  IsName, or_else, strip, strip_one, strip-snoc, below, write_lem, below_cong, below-none,
  new_key-join, snoc-ne,
}
use tracks.Translations.{
  Value, Fields, null, text, other, object, end, field, flatten_translations, flatten_value, member,
  next_level,
}

-- The keys of every level are names and differ.
unfoldable mutual
  pub IsPlain : Fields → Type 0
  IsPlain end = Unit
  IsPlain (field key value nested) =
      IsName key × (member key nested ≡ none) × IsPlainValue value × IsPlain nested

  pub IsPlainValue : Value → Type 0
  IsPlainValue (object nested) = IsPlain nested
  IsPlainValue _ = Unit

-- The text of a value that is not an object.
abbrev pub scalar : Option Value → Option String
scalar (some (text s)) = some s
scalar (some (other s)) = some s
scalar _ = none

-- The text at a path.
unfoldable pub leaf : List String → Fields → Option String
leaf [] nested = none
leaf (part ∷ []) nested = scalar (member part nested)
leaf (part ∷ p ∷ parts) nested = elim (next_level (member part nested)) [
  | none ↦ none
  | some deeper ↦ leaf (p ∷ parts) deeper
]

leaf_value : List String → Value → Option String
leaf_value [] value = scalar (some value)
leaf_value (p ∷ parts) (object nested) = leaf (p ∷ parts) nested
leaf_value (p ∷ parts) _ = none

leaf_lem :
    (part : String) (path : List String) (nested : Fields)
    → leaf (part ∷ path) nested
      ≡ elim (member part nested) [ none ↦ none | some value ↦ leaf_value path value ]
unfolding leaf leaf_value
leaf_lem part [] nested = go (member part nested)
  where
    go : (o : Option Value) → scalar o ≡ elim o [ none ↦ none | some value ↦ scalar (some value) ]
    go none = refl
    go (some value) = refl
leaf_lem part (p ∷ path) nested = go (member part nested)
  where
    go :
        (o : Option Value)
        → elim (next_level o) [ none ↦ none | some deeper ↦ leaf (p ∷ path) deeper ]
          ≡ elim o [ none ↦ none | some value ↦ leaf_value (p ∷ path) value ]
    go none = refl
    go (some null) = refl
    go (some (text s)) = refl
    go (some (other s)) = refl
    go (some (object deeper)) = refl

leaf-end : (p : List String) → leaf p end ≡ none
unfolding leaf member
leaf-end [] = refl
leaf-end (p ∷ []) = refl
leaf-end (p ∷ q ∷ ps) = refl

leaf_value-null : (p : List String) → leaf_value p null ≡ none
unfolding leaf_value
leaf_value-null [] = refl
leaf_value-null (p ∷ ps) = refl

leaf_value-object :
    (nested : Fields) (p : List String) → leaf p nested ≡ leaf_value p (object nested)
unfolding leaf leaf_value
leaf_value-object nested [] = refl
leaf_value-object nested (p ∷ ps) = refl

leaf_value-text :
    (s : String)
    → (leaf_value [] (text s) ≡ some s)
      × ((p : String) (ps : List String) → leaf_value (p ∷ ps) (text s) ≡ none)
unfolding leaf_value
leaf_value-text s = (refl, λ p ps. refl)

leaf_value-other :
    (s : String)
    → (leaf_value [] (other s) ≡ some s)
      × ((p : String) (ps : List String) → leaf_value (p ∷ ps) (other s) ≡ none)
unfolding leaf_value
leaf_value-other s = (refl, λ p ps. refl)

member-field :
    (key : String) (value : Value) (nested : Fields) (p : String)
    → member p (field key value nested) ≡ (if key == p then some value else member p nested)
unfolding member
member-field key value nested p = refl

-- The first field and the other ones, of which none has its key.
module _ (key : String) (value : Value) (nested : Fields) (fresh : member key nested ≡ none) where
  leaf-field :
      (rest : List String) (o : Option String)
      → or_else (leaf rest nested) (
          or_else (elim (strip_one key rest) [ none ↦ none | some path ↦ leaf_value path value ]) o)
        ≡ or_else (leaf rest (field key value nested)) o
  leaf-field [] o = unfold leaf in refl
  leaf-field (p ∷ path) o =
      rw
        (
          leaf_lem p path nested,
          leaf_lem p path (field key value nested),
          member-field key value nested p,
        )
        (elim (Bool-cases (key == p)) [
          | inl e ↦ rw (e, subst (λ q. member q nested ≡ none) ((eq_iff key p).0 e) fresh) refl
          | inr e ↦ rw e refl
        ])

  below-field :
      (prefix path : List String) (o : Option String)
      → or_else
          (below (λ p. leaf p nested) prefix path)
          (or_else (below (λ p. leaf_value p value) (prefix ++ key ∷ []) path) o)
        ≡ or_else (below (λ p. leaf p (field key value nested)) prefix path) o
  below-field prefix path o =
      go (strip prefix path) (strip (prefix ++ key ∷ []) path) (strip-snoc prefix key path)
    where
      go :
          (s t : Option (List String))
          → t ≡ elim s [ none ↦ none | some rest ↦ strip_one key rest ]
          → or_else
              (elim s [ none ↦ none | some rest ↦ leaf rest nested ])
              (or_else (elim t [ none ↦ none | some path ↦ leaf_value path value ]) o)
            ≡ or_else (elim s [ none ↦ none | some rest ↦ leaf rest (field key value nested) ]) o
      go none t e = rw (e, or_else)
      go (some rest) t e = rw (e, or_else) (leaf-field rest o)

mutual
  unfolding flatten_translations IsPlain

  fields_lem :
      (nested : Fields) (prefix : List String) (key : String) (cache : Dict String String)
      → IsPlain nested
      → All IsName prefix
      → get key (flatten_translations nested (join "." prefix) cache)
        ≡ or_else (below (λ p. leaf p nested) prefix (split_on b'.' key)) (get key cache)
  fields_lem end prefix key cache h names = below-none _ prefix _ _ leaf-end
  fields_lem (field k value nested) prefix key cache h names = rw (new_key-join prefix k names) (
      fields_lem nested prefix key _ h.3 names
      ∙ ap (or_else (below (λ p. leaf p nested) prefix (split_on b'.' key))) (
          value_lem value (prefix ++ k ∷ []) key cache h.2
            (All-append IsName prefix (k ∷ []) names (h.0, tt)) (snoc-ne prefix k))
      ∙ below-field k value nested h.1 prefix (split_on b'.' key) (get key cache))

  value_lem :
      (value : Value) (prefix : List String) (key : String) (cache : Dict String String)
      → IsPlainValue value
      → All IsName prefix
      → prefix ≢ []
      → get key (flatten_value value (join "." prefix) cache)
        ≡ or_else (below (λ p. leaf_value p value) prefix (split_on b'.' key)) (get key cache)
  value_lem null prefix key cache h names ne = below-none _ prefix _ _ leaf_value-null
  value_lem (text s) prefix key cache h names ne =
      write_lem (λ p. leaf_value p (text s)) prefix key s cache names ne (leaf_value-text s).0
        (leaf_value-text s).1
  value_lem (other s) prefix key cache h names ne =
      write_lem (λ p. leaf_value p (other s)) prefix key s cache names ne (leaf_value-other s).0
        (leaf_value-other s).1
  value_lem (object nested) prefix key cache h names ne =
      fields_lem nested prefix key cache h names
      ∙ ap (λ (s : Option String). or_else s (get key cache))
          (below_cong _ _ prefix (split_on b'.' key) (leaf_value-object nested))

-- In the flat copy of plain texts a key has the text at the path into which its dots divide it, and
-- a key that is no such path has what the cache held before.
pub get-flatten_translations :
    (nested : Fields) (key : String) (cache : Dict String String)
    → IsPlain nested
    → get key (flatten_translations nested "" cache)
      ≡ or_else (leaf (split_on b'.' key) nested) (get key cache)
get-flatten_translations nested key cache h =
    unfold join strip in fields_lem nested [] key cache h tt
