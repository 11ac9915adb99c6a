-- ===== src/Pagination/Tests.antt =====
-- Pages of controller.go.
use tracks.Common.{String, ◌≡◌, refl, Option, none, some, [], ◌∷◌, if◌then◌else◌, ◌==◌, string_eq}
use tracks.Common.Int.{ℤ, pos}
use tracks.Common.Result.{ok}
use tracks.Http.{Request, blank}
use tracks.Database.Query.{desc}
use tracks.Pagination.{parse_pagination, count_up, page_numbers}

-- A conversion for tests, which reads one text.
abbrev reads_seven : String → Option ℤ
reads_seven s = if s == "7" then some (pos 7) else none

abbrev page_seven : Request
page_seven = record blank { query = λ name. if name == "page" then "7" else "" }

parse_pagination-page_seven :
    parse_pagination reads_seven page_seven
    ≡ record { page = 7; size = 10; offset = pos 60; sort_by = "created_at"; sort_direction = desc }
unfolding parse_pagination
parse_pagination-page_seven = refl

page_numbers-25 : page_numbers 25 10 ≡ ok (1 ∷ 2 ∷ 3 ∷ [])
unfolding page_numbers count_up
page_numbers-25 = refl
