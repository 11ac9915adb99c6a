-- ===== src/Pagination.antt =====
-- controller.go: `ParsePagination` and `ToPage`. `atoi` is `strconv.Atoi`, none where it fails; an `int` has
-- 64 bits, and the offset wraps around.
pub mod Pages
mod Tests
use tracks.Common.{
  zero, suc, ◌+◌, ◌-◌, ◌*◌, ◌/◌, ◌%◌, ◌^◌, ℕ, String, Option, none, some, List, [], ◌∷◌, ltb,
  if◌then◌else◌, ◌==◌, string_eq,
}
use tracks.Common.Int.{ℤ, pos, negsuc}
use tracks.Common.Result.{Result, ok, panicked}
use tracks.Http.{Request}
use tracks.Database.Query.{OrderDirection, asc, desc}

pub record Pagination : Type 0 where
  pub page : ℕ
  pub size : ℕ
  pub offset : ℤ
  pub sort_by : String
  pub sort_direction : OrderDirection

-- A product as a signed `int`.
abbrev pub int_of : ℕ → ℤ
int_of n = if ltb (n % 2 ^ 64) (2 ^ 63) then pos (n % 2 ^ 64) else negsuc (2 ^ 64 - 1 - n % 2 ^ 64)

-- `n, err := strconv.Atoi(s); if err == nil && n > 0 { … }`
abbrev pub positive_or : ℕ → Option ℤ → ℕ
positive_or default none = default
positive_or default (some (negsuc n)) = default
positive_or default (some (pos n)) = if ltb 0 n then n else default

module _ (atoi : String → Option ℤ) where
  abbrev pub number_or : ℕ → String → ℕ
  number_or default s = if s == "" then default else positive_or default (atoi s)

  unfoldable pub parse_pagination : Request → Pagination
  parse_pagination r =
      let page = number_or 1 (r.query "page") in
      let size = number_or 10 (r.query "items_per_page") in
      record {
        page = page;
        size = size;
        offset = int_of ((page - 1) * size);
        sort_by = if r.query "sort_by" == "" then "created_at" else r.query "sort_by";
        sort_direction = if r.query "sort_direction" == "asc" then asc else desc;
      }

-- `pages[i] = i + 1`, from `i` on.
unfoldable pub count_up : ℕ → ℕ → List ℕ
count_up i zero = []
count_up i (suc n) = (i + 1) ∷ count_up (i + 1) n

-- What `ToPage` computes of the numbers; it divides by the size, and panics if that is zero.
unfoldable pub page_numbers : (total_count size : ℕ) → Result (Unit {0}) (List ℕ)
unfolding count_up
page_numbers total_count zero = panicked
page_numbers total_count (suc n) = ok (count_up 0 ((total_count + suc n - 1) / suc n))
