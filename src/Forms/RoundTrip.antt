-- ===== src/Forms/RoundTrip.antt =====
-- A form that carries the values of a struct is decoded into them.
use tracks.Common.{
  ◌<◌, String, ◌≡◌, refl, Bool, true, false, none, some, List, [], ◌∷◌, map, arith, ◌==◌, string_eq,
  All,
}
use tracks.Common.Dict
use tracks.Common.Dict.{Dict}
use tracks.Common.Int.{ℤ, pos, negsuc}
use tracks.Common.Result.{ok}
use tracks.Forms.{
  Width, w8, w16, w32, w64, FieldKind, text_kind, bool_kind, float_kind, text_slice_kind, int_kind,
  FieldValue, text_value, int_value, bool_value, float_value, texts_value, StructField, Parsers,
  half, set_int, set_field, new_value, unmarshal_form,
}

-- The numbers of a width.
abbrev pub Fits : Width → ℤ → Type 0
Fits w (pos n) = n < half w
Fits w (negsuc n) = n < half w

-- A number of the width is stored as it is.
pub set_int-Fits : (w : Width) (z : ℤ) → Fits w z → set_int w z ≡ z
unfolding set_int
set_int-Fits w8 (pos n) h = ground arith
set_int-Fits w16 (pos n) h = ground arith
set_int-Fits w32 (pos n) h = ground arith
set_int-Fits w64 (pos n) h = ground arith
set_int-Fits w8 (negsuc n) h = ground arith
set_int-Fits w16 (negsuc n) h = ground arith
set_int-Fits w32 (negsuc n) h = ground arith
set_int-Fits w64 (negsuc n) h = ground arith

module _ (p : Parsers) where
  -- The texts of a form carry a value of a kind: a text as it is, a number, a Boolean or a float in a
  -- form that strconv reads, and a list of texts.
  pub data Carries : FieldKind → FieldValue → (first : String) → List String → Type 0 where
    a_text : (s : String) (vs : List String) → Carries text_kind (text_value s) s vs
    an_int :
        (w : Width) (z : ℤ) (v : String) (vs : List String)
        → Fits w z
        → p.parse_int v ≡ some z
        → Carries (int_kind w) (int_value z) v vs
    a_bool :
        (b : Bool) (v : String) (vs : List String)
        → p.parse_bool v ≡ some b
        → Carries bool_kind (bool_value b) v vs
    a_float :
        (x v : String) (vs : List String)
        → p.parse_float v ≡ some x
        → Carries float_kind (float_value x) v vs
    some_texts :
        (v : String) (vs : List String) → Carries text_slice_kind (texts_value (v ∷ vs)) v vs

  set_field-Carries :
      {k : FieldKind} {value : FieldValue} {v : String} {vs : List String} (old : FieldValue)
      → Carries k value v vs
      → set_field p k v vs old ≡ ok value
  unfolding set_field
  set_field-Carries old (a_text s vs) = refl
  set_field-Carries old (an_int w z v vs h e) = rw (e, set_int-Fits w z h)
  set_field-Carries old (a_bool b v vs e) = rw e
  set_field-Carries old (a_float x v vs e) = rw e
  set_field-Carries old (some_texts v vs) = refl

  -- The form carries the value of a field.
  abbrev pub Sent : Dict String (List String) → StructField → Type 0
  Sent values f =
      ((f.tag == "") ≡ false)
      × ((f.tag == "-") ≡ false)
      × (f.can_set ≡ true)
      × ((v : String) × (vs : List String) × (Dict.get f.tag values ≡ some (v ∷ vs))
          × Carries f.kind f.value v vs)

  abbrev pub with_value : (StructField → FieldValue) → StructField → StructField
  with_value start f = record f { value = start f }

  new_value-Sent :
      (values : Dict String (List String)) (start : StructField → FieldValue) (f : StructField)
      → Sent values f
      → new_value p values (with_value start f) ≡ ok f.value
  unfolding new_value
  new_value-Sent values start f (filled, named, set, (v, vs, found, carried)) =
      simp (filled, named, found, set, set_field-Carries (start f) carried)

  -- A form that carries the value of every field of a struct is decoded into these values without an
  -- error, whatever the struct held before: each field has a tag and can be set, and its texts are one
  -- that strconv reads as its number, within the width, its Boolean or its float, or the text itself.
  pub unmarshal_form-Sent :
      (values : Dict String (List String)) (start : StructField → FieldValue)
      (fields : List StructField)
      → All (Sent values) fields
      → unmarshal_form p values (map (with_value start) fields) ≡ (fields, none)
  unfolding unmarshal_form
  unmarshal_form-Sent values start [] h = refl
  unmarshal_form-Sent values start (f ∷ fields) h =
      rw (new_value-Sent values start f h.0, unmarshal_form-Sent values start fields h.1)
