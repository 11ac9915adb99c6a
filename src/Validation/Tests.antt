-- ===== src/Validation/Tests.antt =====
-- The validation of a form with three fields.
use tracks.Common.{
  ℕ, ◌≡◌, refl, ◌↔◌, true, none, some, List, [], ◌∷◌, nat_beq, if◌then◌else◌, ◌==◌, string_eq,
}
use Prim.Native.String.{count}
use tracks.Common.Dict.{get, put}
use tracks.Common.Int.{pos}
use tracks.Common.Split.{split_on}
use tracks.Validation.{
  text, int, Env, Field, field_name, validate_field, or_nil, check_rules, check_fields, validate,
}
use tracks.Validation.Failures.{errors_of, failing, validate-failing}

abbrev env : Env ℕ
env = record {
  atoi = λ s. if s == "8" then pos 8 else pos 18;
  itoa = λ n. "n";
  email = λ s. s == "ann@a.org";
  bytes = count;
  is_zero = λ x. nat_beq x 0;
  same = λ v w. true;
}

abbrev form : List (Field ℕ)
form =
    record { name = "Email"; json = "email"; form = ""; tag = "required,email"; value = text "ann" }
    ∷ record {
      name = "Password";
      json = "";
      form = "password";
      tag = "required,min=8";
      value = text "";
    }
    ∷ record { name = "Age"; json = "-"; form = ""; tag = "min=18"; value = int (pos 20) }
    ∷ []

validate-form :
    validate env form
    ≡ some (
        ("email", "invalid email format" ∷ [])
        ∷ ("password", "field is required" ∷ "minimum length is n" ∷ [])
        ∷ [])
unfolding validate check_fields check_rules validate_field field_name split_on get put
validate-form = refl

validate-failing_example :
    ((validate env form ≡ none) ↔ (failing env form form ≡ []))
    × (or_nil env (get "password" (errors_of env (validate env form)))
        ≡ "field is required" ∷ "minimum length is n" ∷ [])
unfolding field_name validate_field split_on
validate-failing_example = validate-failing env form "password"
