-- ===== src/Validation.antt =====
-- validation.go: the checks of a struct by the tags of its fields. What reflection reads of a field is a
-- record; strconv, the pattern for emails, the length in bytes and the comparison of two values of the
-- type `any` are fields of `Env`.
pub mod Failures
mod Tests
use tracks.Common.{
  ℕ, String, Bool, true, false, not, ◌||◌, Option, none, some, List, [], ◌∷◌, ltb, nat_beq,
  if◌then◌else◌, ◌==◌, string_eq,
}
use Prim.Native.String.{◌++◌}
use mathlib.Core.List
use tracks.Common.Dict.{Dict, get, put}
use tracks.Common.Int.{ℤ, pos, negsuc}
use tracks.Common.Split.{split_on, first_part}

-- A value by its kind: a string, an integer of some width, or another, of which only counts whether it
-- is nil or zero.
pub data Value (X : Type 0) : Type 0 where
  text : String → Value X
  int : ℤ → Value X
  other : X → Value X

-- `atoi` drops its error, and `email` matches the pattern on the text in lower case.
pub record Env (X : Type 0) : Type 0 where
  pub atoi : String → ℤ
  pub itoa : ℤ → String
  pub email : String → Bool
  pub bytes : String → ℕ
  pub is_zero : X → Bool
  pub same : Value X → Value X → Bool

pub record Field (X : Type 0) : Type 0 where
  pub name : String
  pub json : String
  pub form : String
  pub tag : String
  pub value : Value X

abbrev pub lt : ℤ → ℤ → Bool
lt (pos m) (pos n) = ltb m n
lt (pos m) (negsuc n) = false
lt (negsuc m) (pos n) = true
lt (negsuc m) (negsuc n) = ltb n m

-- The name of a field in the errors: its tag for JSON, else its tag for forms, else its own.
unfoldable pub field_name : {X : Type 0} → Field X → String
field_name f =
    let tagged = if f.json == "" then f.form else f.json in
    if tagged == "" || tagged == "-" then f.name else tagged

-- `parts[1]`, where there is one.
abbrev pub second_part : List String → String
second_part [] = ""
second_part (_ ∷ []) = ""
second_part (_ ∷ value ∷ _) = value

-- `obj.FieldByName`
abbrev pub field_by_name : {X : Type 0} → String → List (Field X) → Option (Value X)
field_by_name name [] = none
field_by_name name (f ∷ fs) =
    let rest = field_by_name name fs in if f.name == name then some f.value else rest

abbrev pub unless : Bool → String → Option String
unless good message = if good then none else some message

module _ {X : Type 0} (env : Env X) where
  abbrev pub is_zero : Value X → Bool
  is_zero (text s) = nat_beq (env.bytes s) 0
  is_zero (int (pos n)) = nat_beq n 0
  is_zero (int (negsuc n)) = false
  is_zero (other x) = env.is_zero x

  abbrev pub check_email : Value X → Option String
  check_email (text s) = unless (s == "" || env.email s) "invalid email format"
  check_email _ = none

  abbrev pub check_min : ℤ → Value X → Option String
  check_min min (text s) =
      unless (not (lt (pos (env.bytes s)) min)) ("minimum length is " ++ env.itoa min)
  check_min min (int n) = unless (not (lt n min)) ("minimum value is " ++ env.itoa min)
  check_min min (other x) = none

  abbrev pub check_max : ℤ → Value X → Option String
  check_max max (text s) =
      unless (not (lt max (pos (env.bytes s)))) ("maximum length is " ++ env.itoa max)
  check_max max (int n) = unless (not (lt max n)) ("maximum value is " ++ env.itoa max)
  check_max max (other x) = none

  abbrev pub check_same : String → Value X → Option (Value X) → Option String
  check_same name v none = none
  check_same name v (some w) = unless (env.same v w) ("does not match " ++ name)

  -- The error of a rule, none where it holds or is not known.
  unfoldable pub validate_field : List (Field X) → Value X → String → Option String
  unfolding split_on
  validate_field obj v rule =
      let parts = split_on b'=' rule in
      let name = first_part parts in
      let value = second_part parts in
      if name == "required"
      then unless (not (is_zero v)) "field is required"
      else if name == "email"
      then check_email v
      else if name == "min"
      then check_min (env.atoi value) v
      else if name == "max"
      then check_max (env.atoi value) v
      else if name == "eqfield"
      then check_same value v (field_by_name value obj)
      else none

  abbrev pub or_nil : Option (List String) → List String
  or_nil none = []
  or_nil (some messages) = messages

  -- `errors[fieldName] = append(errors[fieldName], err.Error())`
  abbrev pub note : String → Dict String (List String) → Option String → Dict String (List String)
  note name errors none = errors
  note name errors (some message) =
      put name (List.◌++◌ (or_nil (get name errors)) (message ∷ [])) errors

  -- `for _, rule := range rules`
  unfoldable pub check_rules :
      List (Field X)
      → String
      → Value X
      → Dict String (List String)
      → List String
      → Dict String (List String)
  unfolding validate_field
  check_rules obj name v errors [] = errors
  check_rules obj name v errors (rule ∷ rules) =
      check_rules obj name v (note name errors (validate_field obj v rule)) rules

  -- The loop over the fields.
  unfoldable pub check_fields :
      List (Field X) → Dict String (List String) → List (Field X) → Dict String (List String)
  unfolding check_rules split_on field_name
  check_fields obj errors [] = errors
  check_fields obj errors (f ∷ fs) =
      check_fields obj
        (if f.tag == ""
          then errors
          else check_rules obj (field_name f) f.value errors (split_on b',' f.tag))
        fs

  -- `Validate`: the errors by the names of the fields, none where there is no error.
  unfoldable pub validate : List (Field X) → Option (Dict String (List String))
  unfolding check_fields
  validate obj = elim (check_fields obj [] obj) [ [] ↦ none | e ∷ es ↦ some (e ∷ es) ]
