-- ===== src/Cache/Lookup.antt =====
-- What a read of the cache of cache.go returns after a write.
use tracks.Common.{
  ◌+◌, ℕ, String, ◌≡◌, ap, ◌≢◌, ◌&&◌, none, some, List, arith, ltb, if◌then◌else◌, string_eq,
}
use tracks.Common.Dict
use tracks.Common.Dict.{Dict}
use tracks.Cache.{MemoryCache, value_unless_expired, get, set_with_tags}

-- A value stored with its tags is read back until its time to live is over, and for ever if that
-- is zero; after that the key reads as absent.
pub get-set_with_tags :
    {V : Type 0} (c : MemoryCache V) (key : String) (value : V) (tags : List String)
    (ttl now later : ℕ)
    → get (set_with_tags c key value tags ttl now) key later
      ≡ (if ltb 0 ttl && ltb (now + ttl) later then none else some value)
unfolding get set_with_tags
get-set_with_tags c key value tags ttl now later = rw Dict.get-put_self (ground arith)

-- Storing under one key leaves what is read under the others.
pub get-set_with_tags_ne :
    {V : Type 0} (c : MemoryCache V) (key other : String) (value : V) (tags : List String)
    (ttl now later : ℕ)
    → key ≢ other
    → get (set_with_tags c key value tags ttl now) other later ≡ get c other later
unfolding get set_with_tags
get-set_with_tags_ne c key other value tags ttl now later h =
    ap (value_unless_expired later) (Dict.get-put_ne key other _ c.items h)
