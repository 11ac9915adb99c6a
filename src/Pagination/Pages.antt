-- ===== src/Pagination/Pages.antt =====
-- The pages of controller.go.
use tracks.Common.{
  zero, suc, ◌+◌, ◌-◌, ◌*◌, ◌/◌, ◌≤◌, ◌<◌, ℕ, String, ◌≡◌, refl, Option, none, some, List, arith,
  length,
}
use tracks.Common.Int.{ℤ, pos, negsuc}
use tracks.Common.Result.{ok}
use native.Mathlib.Nat.{div-add-mod', mod-lt}
use tracks.Http.{Request}
use tracks.Pagination.{positive_or, number_or, parse_pagination, count_up, page_numbers}

positive_or-pos : (default : ℕ) (n : Option ℤ) → 0 < default → 0 < positive_or default n
positive_or-pos default none h = h
positive_or-pos default (some (negsuc n)) h = h
positive_or-pos default (some (pos n)) h = ground arith

length-count_up : (i n : ℕ) → length (count_up i n) ≡ n
unfolding count_up
length-count_up i zero = refl
length-count_up i (suc n) = omega (arith, length-count_up (i + 1) n)

number_or-pos :
    (atoi : String → Option ℤ) (default : ℕ) (s : String)
    → 0 < default
    → 0 < number_or atoi default s
number_or-pos atoi default s h = ground (arith, positive_or-pos default (atoi s) h)

-- How many pages there are.
abbrev pub pages : ℕ → ℕ → ℕ
pages total size = (total + size - 1) / size

numbered :
    (total size : ℕ)
    → 0 < size
    → (numbers : List ℕ) × (page_numbers total size ≡ ok numbers)
      × (total ≤ length numbers * size)
      × (length numbers * size < total + size)
unfolding page_numbers
numbered total zero h = absurd (omega (arith, h))
numbered total (suc n) h =
    let size = suc n in
    let whole = div-add-mod' (total + size - 1) size in
    let part = mod-lt (total + size - 1) h in
    (
      count_up 0 (pages total size),
      refl,
      rw length-count_up (omega (arith, whole, part)),
      rw length-count_up (omega (arith, whole, part)),
    )

-- Whatever the query says, the page and the size are positive, so that `ToPage` does not divide by zero;
-- it numbers exactly as many pages as hold all items, the last of them not empty.
pub page_numbers-parse_pagination :
    (atoi : String → Option ℤ) (r : Request) (total : ℕ)
    → (0 < (parse_pagination atoi r).page)
      × ((numbers : List ℕ) × (page_numbers total (parse_pagination atoi r).size ≡ ok numbers)
          × (total ≤ length numbers * (parse_pagination atoi r).size)
          × (length numbers * (parse_pagination atoi r).size
              < total + (parse_pagination atoi r).size))
unfolding parse_pagination
page_numbers-parse_pagination atoi r total = (
  number_or-pos atoi 1 (r.query "page") (omega arith),
  numbered total (number_or atoi 10 (r.query "items_per_page"))
      (number_or-pos atoi 10 (r.query "items_per_page") (omega arith)),
)
