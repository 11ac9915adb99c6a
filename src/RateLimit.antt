-- ===== src/RateLimit.antt =====
-- ratelimit.go. A time is a number of nanoseconds; `now.Add(-window)` may lie before the origin,
-- so `t.After(now.Add(-window))` is written `now < t + window`. The mutex makes each `Allow` one
-- step, and the clock is an argument.
pub mod Window
pub mod Ideal
mod Tests
use tracks.Common.{
  ◌+◌, ◌-◌, ◌/◌, ℕ, String, Bool, Option, none, some, List, [], ◌∷◌, ◌++◌, ltb, if◌then◌else◌,
  string_eq, length, keep,
}
use tracks.Common.Dict
use tracks.Common.Dict.{Dict}
use tracks.Http.{Request, Effect, set_header, http_error, panics, serve}

pub record RateLimitConfig : Type 0 where
  pub requests : ℕ
  pub window : ℕ
  pub key_func : Option (Request → String)

pub record RateLimiter : Type 0 where
  pub requests : ℕ
  pub window : ℕ
  pub key_func : Request → String
  pub data_of : Dict String (List ℕ)

abbrev key_or_addr : Option (Request → String) → Request → String
key_or_addr none r = r.remote_addr
key_or_addr (some f) r = f r

unfoldable pub new_rate_limiter : RateLimitConfig → RateLimiter
new_rate_limiter c = record {
  requests = c.requests;
  window = c.window;
  key_func = key_or_addr c.key_func;
  data_of = [];
}

-- `index_panic`: `newHits[0]` of an empty slice.
pub data Verdict : Type 0 where
  allowed : (remaining : ℕ) → Verdict
  denied : (retry_after : ℕ) → Verdict
  index_panic : Verdict

-- `l.data[key]`: a missing key reads as the nil slice.
unfoldable pub hits : RateLimiter → String → List ℕ
hits l key = elim (Dict.get key l.data_of) [ none ↦ [] | some ts ↦ ts ]

abbrev pub after_start : ℕ → ℕ → ℕ → Bool
after_start window now t = ltb now (t + window)

abbrev pub retry : ℕ → ℕ → List ℕ → Verdict
retry window now [] = index_panic
retry window now (t ∷ _) = denied (t + window - now)

unfoldable pub allow : RateLimiter → String → ℕ → RateLimiter × Verdict
allow l key now =
    let new_hits = keep (after_start l.window now) (hits l key) in
    if ltb (length new_hits) l.requests
    then (
      record l { data_of = Dict.put key (new_hits ++ now ∷ []) l.data_of },
      allowed (l.requests - length (new_hits ++ now ∷ [])),
    )
    else (record l { data_of = Dict.put key new_hits l.data_of }, retry l.window now new_hits)

-- `itoa` is `fmt.Sprintf("%d", _)`.
module _ (itoa : ℕ → String) where
  abbrev pub respond : ℕ → Request → Verdict → List Effect
  respond limit r (allowed remaining) =
      set_header "X-RateLimit-Limit" (itoa limit)
      ∷ set_header "X-RateLimit-Remaining" (itoa remaining)
      ∷ serve r
      ∷ []
  respond limit r (denied retry_after) =
      set_header "X-RateLimit-Limit" (itoa limit)
      ∷ set_header "X-RateLimit-Remaining" (itoa 0)
      ∷ set_header "Retry-After" (itoa (retry_after / 1000000000))
      ∷ http_error "Rate limit exceeded" 429
      ∷ []
  respond limit r index_panic = panics ∷ []

  -- The handler that `RateLimitMiddleware` puts in front of the next one.
  unfoldable pub rate_limit : RateLimiter → Request → ℕ → RateLimiter × List Effect
  unfolding allow
  rate_limit l r now =
      let (l', verdict) = allow l (l.key_func r) now in (l', respond l.requests r verdict)
