-- ===== src/Content/Tests.antt =====
-- Runs of the pages from files, and the theorems on them at concrete files.
use tracks.Common.{
  String, ◌≡◌, refl, true, false, Option, none, some, List, [], ◌∷◌, arith, if◌then◌else◌, ◌==◌,
  string_eq, All,
}
use Prim.Native.String.{◌++◌ as append}
use tracks.Common.Result.{ok, err, panicked}
use tracks.Common.Text.{has_suffix, trim_suffix}
use tracks.Content.{
  structure, no_structure, Item, Visit, visit, failed, missing_slug, walk_failed, separator, cut,
  split_parts, load_file, index, show,
}
use tracks.Content.FrontMatter.{unlines, item_of, load_file-unlines}
use tracks.Content.Slugs.{Shown, index-Shown}

-- A front matter that is a slug and nothing else.
abbrev yaml : String → Option (String × String)
yaml front = if front == "bad\n" then none else some (trim_suffix front "\n", "page")

abbrev zero_item : String × String
zero_item = ("", "")

abbrev visits : List Visit
visits =
    visit "docs" true none
    ∷ visit "about.md" false (some "---\nabout-us\n---\nHello\n---\nworld")
    ∷ visit "notes.txt" false (some "x")
    ∷ visit "plain.html" false (some "<p>")
    ∷ []

abbrev items : List (Item String)
items =
    record { slug = "about-us"; body = "Hello\n---\nworld"; metadata = "page" }
    ∷ record { slug = "plain"; body = "<p>"; metadata = "" }
    ∷ []

index_visits : index structure zero_item yaml visits ≡ ok items
unfolding index cut has_suffix trim_suffix
index_visits = refl

index_failed :
    index structure zero_item yaml (visit "plain.html" false (some "<p>") ∷ failed ∷ [])
    ≡ err walk_failed
unfolding index cut has_suffix
index_failed = refl

show_empty : show structure zero_item yaml visits "" ≡ err missing_slug
unfolding show
show_empty = refl

-- Items that are maps.
map_item : load_file no_structure zero_item yaml "plain.html" (some "<p>") ≡ panicked
unfolding load_file cut
map_item = refl

-- What stands before a front matter that does not begin the file is lost.
text_before : split_parts "Title\n---\nabout\n---\nHello" ≡ some ("about\n", "Hello")
unfolding split_parts
text_before = refl

load_file-unlines_example :
    load_file structure zero_item yaml "about.md"
      (some (append separator (append (unlines ("about-us" ∷ [])) (append separator "Hello"))))
    ≡ item_of "about.md" "Hello" (yaml (unlines ("about-us" ∷ [])))
unfolding has_suffix
load_file-unlines_example =
    load_file-unlines zero_item yaml "about.md" "Hello" ("about-us" ∷ []) (ground arith)

index-Shown_example : All (Shown structure zero_item yaml visits) items
index-Shown_example = index-Shown structure zero_item yaml visits items index_visits (ground arith)
