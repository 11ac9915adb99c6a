-- ===== src/Forms/Tests.antt =====
-- Forms that are decoded, and the theorem on them at a concrete struct.
use tracks.Common.{
  String, ◌≡◌, refl, true, none, some, List, [], ◌∷◌, map, arith, if◌then◌else◌, ◌==◌, string_eq,
}
use tracks.Common.Dict
use tracks.Common.Dict.{Dict}
use tracks.Common.Int.{ℤ, pos, negsuc}
use tracks.Forms.{
  w8, text_kind, int_kind, bool_kind, text_value, int_value, bool_value, other_value, StructField,
  Parsers, set_int, unmarshal_form,
}
use tracks.Forms.RoundTrip.{with_value, unmarshal_form-Sent, a_text, an_int, a_bool}

abbrev parsers : Parsers
parsers = record {
  parse_int =
      λ s. if s == "-5" then some (negsuc 4) else if s == "300" then some (pos 300) else none;
  parse_bool = λ s. if s == "true" then some true else none;
  parse_float = λ s. none;
}

abbrev field : String → ℤ → StructField
field tag z = record { tag = tag; can_set = true; kind = int_kind w8; value = int_value z }

abbrev person : List StructField
person =
    record { tag = "name"; can_set = true; kind = text_kind; value = text_value "Ann" }
    ∷ field "offset" (negsuc 4)
    ∷ record { tag = "admin"; can_set = true; kind = bool_kind; value = bool_value true }
    ∷ []

abbrev form : Dict String (List String)
form = ("name", "Ann" ∷ []) ∷ ("offset", "-5" ∷ []) ∷ ("admin", "true" ∷ "false" ∷ []) ∷ []

unmarshal_form-Sent_example :
    unmarshal_form parsers form (map (with_value parsers (λ _. other_value)) person)
    ≡ (person, none)
unfolding Dict.get
unmarshal_form-Sent_example =
    unmarshal_form-Sent parsers form (λ _. other_value) person
      (
        (refl, refl, refl, ("Ann", [], refl, a_text "Ann" [])),
        (
          (refl, refl, refl, ("-5", [], refl, an_int w8 (negsuc 4) "-5" [] (omega arith) refl)),
          (
            (
              refl,
              refl,
              refl,
              ("true", "false" ∷ [], refl, a_bool true "true" ("false" ∷ []) refl),
            ),
            tt,
          ),
        ),
      )

-- 300 does not fit into eight bits, and 44 is stored without an error.
overflow : set_int w8 (pos 300) ≡ pos 44
unfolding set_int
overflow = refl

-- The fields before one that cannot be read are set.
bad_number :
    unmarshal_form parsers (("offset", "x" ∷ []) ∷ []) (field "offset" (pos 1) ∷ [])
    ≡ (field "offset" (pos 1) ∷ [], some "int")
unfolding unmarshal_form Dict.get
bad_number = refl
