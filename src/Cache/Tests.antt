-- ===== src/Cache/Tests.antt =====
-- Runs of the cache of cache.go.
use tracks.Common.{ℕ, String, ◌≡◌, refl, false, some, List, [], ◌∷◌, string_eq, contains}
use tracks.Common.Dict
use tracks.Cache.{new_entry, link, delete_all, new_memory_cache, set_with_tags, invalidate_tag}
use tracks.Cache.Tags.{Call, set_with_tags_call, run, invalidate_tag_complete}

abbrev pages : List (Call ℕ)
pages =
    set_with_tags_call "home" 1 ("page" ∷ []) 0 5
    ∷ set_with_tags_call "logo" 2 ("image" ∷ []) 0 5
    ∷ []

logo_stays :
    Dict.get "logo" (invalidate_tag (run new_memory_cache pages) "page").items
    ≡ some (new_entry 2 ("image" ∷ []) 0 5)
unfolding Dict.get Dict.put Dict.delete invalidate_tag set_with_tags link delete_all
    new_memory_cache
logo_stays = refl

invalidate_tag_complete_example : contains {A = String} "page" ("image" ∷ []) ≡ false
invalidate_tag_complete_example =
    invalidate_tag_complete pages "page" "logo" (new_entry 2 ("image" ∷ []) 0 5) logo_stays
