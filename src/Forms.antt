-- ===== src/Forms.antt =====
-- The decoding of a form into a struct (`UnmarshalForm` of request.go). A struct is the list of what
-- reflection reads of its fields: the tag `form`, the kind and the value.
pub mod RoundTrip
mod Tests
use tracks.Common.{
  ◌+◌, ◌-◌, ◌%◌, ℕ, String, Bool, ◌||◌, Option, none, some, List, [], ◌∷◌, ltb, if◌then◌else◌, ◌==◌,
  string_eq,
}
use tracks.Common.Dict
use tracks.Common.Dict.{Dict}
use tracks.Common.Int.{ℤ, pos, negsuc}
use tracks.Common.Result.{Result, ok, err, panicked}

-- The signed integers by their number of bits; `int` has 64.
pub data Width : Type 0 where
  w8 w16 w32 w64 : Width

pub data FieldKind : Type 0 where
  text_kind bool_kind float_kind text_slice_kind other_kind : FieldKind
  int_kind : Width → FieldKind

-- A float is held as it is printed; it is one of 64 bits (the rounding to 32 bits is not modelled).
pub data FieldValue : Type 0 where
  text_value : String → FieldValue
  int_value : ℤ → FieldValue
  bool_value : Bool → FieldValue
  float_value : String → FieldValue
  texts_value : List String → FieldValue
  other_value : FieldValue

pub record StructField : Type 0 where
  pub tag : String
  pub can_set : Bool
  pub kind : FieldKind
  pub value : FieldValue

-- The functions of strconv; `none` is their error.
pub record Parsers : Type 0 where
  pub parse_int : String → Option ℤ
  pub parse_bool : String → Option Bool
  pub parse_float : String → Option String

-- Half of the number of values of a width.
abbrev pub half : Width → ℕ
half w8 = 128
half w16 = 32768
half w32 = 2147483648
half w64 = 9223372036854775808

abbrev pub signed : (h u : ℕ) → ℤ
signed h u = if ltb u h then pos u else negsuc (h + h - 1 - u)

-- `SetInt`: the low bits of the number, read as a signed one.
unfoldable pub set_int : Width → ℤ → ℤ
set_int w (pos n) = signed (half w) (n % (half w + half w))
set_int w (negsuc n) = signed (half w) (half w + half w - 1 - n % (half w + half w))

-- The error of a value that cannot be read names the type that was asked for.
abbrev pub set_or : {A : Type 0} → (A → FieldValue) → String → Option A → Result String FieldValue
set_or set message none = err message
set_or set message (some a) = ok (set a)

-- The switch over the kind of a field, for the values of the form, of which there is one at least.
unfoldable pub set_field :
    Parsers → FieldKind → (v : String) → List String → FieldValue → Result String FieldValue
unfolding set_int
set_field p text_kind v vs old = ok (text_value v)
set_field p (int_kind w) v vs old = set_or (λ n. int_value (set_int w n)) "int" (p.parse_int v)
set_field p bool_kind v vs old = set_or bool_value "bool" (p.parse_bool v)
set_field p float_kind v vs old = set_or float_value "float" (p.parse_float v)
set_field p text_slice_kind v vs old = ok (texts_value (v ∷ vs))
set_field p other_kind v vs old = ok old

abbrev pub with_values : Parsers → StructField → Option (List String) → Result String FieldValue
with_values p f none = ok f.value
with_values p f (some []) = ok f.value
with_values p f (some (v ∷ vs)) = if f.can_set then set_field p f.kind v vs f.value else ok f.value

-- One round of the loop.
unfoldable pub new_value :
    Parsers → Dict String (List String) → StructField → Result String FieldValue
unfolding set_field
new_value p values f =
    if f.tag == "" || f.tag == "-" then ok f.value else with_values p f (Dict.get f.tag values)

abbrev pub next_field :
    StructField
    → List StructField
    → Result String FieldValue
    → List StructField × Option String
    → List StructField × Option String
next_field f fs (ok value) rest = (record f { value = value } ∷ rest.0, rest.1)
next_field f fs (err e) rest = (f ∷ fs, some e)
next_field f fs panicked rest = (f ∷ fs, none)

-- `UnmarshalForm`: the struct afterwards, and the error at which the loop ends.
unfoldable pub unmarshal_form :
    Parsers → Dict String (List String) → List StructField → List StructField × Option String
unfolding new_value
unmarshal_form p values [] = ([], none)
unmarshal_form p values (f ∷ fs) =
    let rest = unmarshal_form p values fs in next_field f fs (new_value p values f) rest
