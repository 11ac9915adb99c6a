-- ===== src/Database/Reading/Tests.antt =====
-- Finders on a small table, and the theorems on them there.
use tracks.Common.{
  String, ◌≡◌, refl, true, false, none, some, List, [], ◌∷◌, nat_beq, if◌then◌else◌, ◌==◌,
  string_eq,
}
use tracks.Common.Int.{ℤ, pos, negsuc}
use tracks.Common.Result.{ok, err}
use tracks.Database.Context.{Context, background, scope, with_domain, with_domain_filtering}
use tracks.Database.Repository.{ModelType}
use tracks.Database.Query.{build}
use tracks.Database.Reading.{
  query_error, rows, Driver, no_count, find_all, find_by_id, count_all, exists,
}
use tracks.Database.Reading.Tables.{IsFirst, exists-any, find_by_id-IsFirst}

-- A row is its id and its domain; "" is no row.
abbrev Line : Type 0
Line = String × String

abbrev table : List Line
table = ("1", "a.org") ∷ ("2", "b.org") ∷ ("3", "b.org") ∷ []

abbrev value : Line → String → String
value row field = if field == "id" then row.0 else row.1

abbrev tenants : ModelType
tenants = record {
  table_name = "tenants";
  fields = "domain" ∷ [];
  has_auto_increment_id = true;
  domain_scoped = true;
}

-- The driver answers the statement with the given text, and any other by an error or no row; a model is
-- an id, and reading the row "" fails.
abbrev answering : String → List Line → Line → Driver String Line String String
answering statement found first = record {
  query = λ q. if q.0 == statement then rows found none else query_error "syntax";
  query_row = λ q. if q.0 == statement then first else ("", "");
  scan = λ row. if row.0 == "" then ("", some "no rows") else (row.0, none);
  is_no_rows = λ e. e == "no rows";
  scan_int = λ row. some (if row.0 == "2" then pos 2 else pos 0);
}

abbrev itoa : ℤ → String
itoa (pos n) = if nat_beq n 1 then "1" else "2"
itoa (negsuc n) = "-1"

abbrev nowhere : Context String
nowhere = background

abbrev in_b : Context String
in_b = with_domain_filtering (with_domain background "b.org") true

abbrev text : String → String
text s = s

abbrev count_in_domain : String
count_in_domain = "SELECT COUNT(*) FROM tenants WHERE id = ? AND domain = ?"

abbrev one_in_domain : String
one_in_domain = "SELECT id, domain FROM tenants WHERE id = ? AND domain = ? LIMIT 1"

-- The row "1" is of another domain.
exists-any_example :
    exists text itoa
      (answering count_in_domain (("0", "") ∷ []) ("", ""))
      in_b
      tenants
      (("id", "1") ∷ [])
    ≡ ok false
unfolding scope
exists-any_example =
    exists-any text itoa (answering count_in_domain (("0", "") ∷ []) ("", "")) value in_b tenants
      table (("id", "1") ∷ []) ("0", "") none refl refl

-- The row "2" is of the domain.
find_by_id-IsFirst_example :
    IsFirst
      (answering one_in_domain [] ("2", "b.org"))
      ""
      (("2", "b.org") ∷ [])
      (find_by_id text itoa (answering one_in_domain [] ("2", "b.org")) in_b tenants "2")
unfolding scope
find_by_id-IsFirst_example =
    find_by_id-IsFirst text itoa (answering one_in_domain [] ("2", "b.org")) value in_b tenants
      table "2" ("", "") "" "no rows" ("domain", [], refl, refl) refl refl refl refl

abbrev all_tenants : String
all_tenants = "SELECT id, domain FROM tenants"

abbrev count_tenants : String
count_tenants = "SELECT COUNT(*) FROM tenants"

-- The error that ends the rows early is not seen.
broken_off :
    find_all text itoa
      (record (answering all_tenants [] ("", "")) {
        query = λ _. rows (("1", "a.org") ∷ []) (some "disk");
      })
      nowhere
      tenants
    ≡ ok ("1" ∷ [])
unfolding find_all
broken_off = refl

all_of_them :
    find_all text itoa (answering all_tenants table ("", "")) nowhere tenants
    ≡ ok ("1" ∷ "2" ∷ "3" ∷ [])
unfolding find_all build scope
all_of_them = refl

no_rows_counted :
    count_all text itoa (answering count_tenants [] ("", "")) nowhere tenants
    ≡ err (no_count "tenants")
unfolding count_all scope
no_rows_counted = refl
