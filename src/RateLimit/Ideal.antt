-- ===== src/RateLimit/Ideal.antt =====
-- The limiter of ratelimit.go, which forgets old calls, against one that keeps the whole log.
use tracks.Common.{
  ◌+◌, ◌-◌, ◌≤◌, ◌<◌, ℕ, String, ◌≡◌, refl, sym, ap, ◌∙◌, ◌↔◌, inl, inr, Bool, true, false, List,
  [], ◌∷◌, ◌++◌, arith, ltb, if◌then◌else◌, Bool-cases, length, keep, length-append, All, All-keep,
}
use tracks.RateLimit.{
  RateLimitConfig, RateLimiter, new_rate_limiter, Verdict, allowed, denied, index_panic, hits,
  after_start, retry, allow, respond, rate_limit,
}
use tracks.Http.{Request, Effect, serve}
use tracks.RateLimit.Window.{
  Log, times, note, IsChronological, Tracks, recent, admits, note-admitted, note-refused,
  allow_window, allow_requests, Tracks-admitted, Tracks-refused, Tracks-new,
}

-- The verdict on the admissions that lie in the window.
abbrev pub verdict_on : (requests window now : ℕ) → List ℕ → Verdict
verdict_on requests window now rs =
    if ltb (length rs) requests then allowed (requests - (length rs + 1)) else retry window now rs

pub ideal_run : (requests window : ℕ) → Log → List (String × ℕ) → List Verdict
ideal_run requests window log [] = []
ideal_run requests window log ((key, now) ∷ calls) =
    let v = verdict_on requests window now (keep (after_start window now) (times key log)) in
    v ∷ ideal_run requests window (note log key now v) calls

unfoldable pub verdicts : RateLimiter → List (String × ℕ) → List Verdict
verdicts l [] = []
verdicts l ((key, now) ∷ calls) = let (l', v) = allow l key now in v ∷ verdicts l' calls

allow-verdict_on :
    (l : RateLimiter) (key : String) (now : ℕ)
    → (allow l key now).1 ≡ verdict_on l.requests l.window now (recent l key now)
unfolding allow
allow-verdict_on l key now = elim (Bool-cases (admits l key now)) [
  | inl room ↦ rw (room, length-append) (ap allowed (omega arith))
  | inr full ↦ rw full
]

verdicts-ideal_run :
    (l : RateLimiter) (log : Log) (last : ℕ) (calls : List (String × ℕ))
    → Tracks l log last
    → IsChronological last calls
    → verdicts l calls ≡ ideal_run l.requests l.window log calls
unfolding verdicts ideal_run
verdicts-ideal_run l log last [] t h = refl
verdicts-ideal_run l log last ((key, now) ∷ calls) t h =
    let v : (allow l key now).1
        ≡ verdict_on l.requests l.window now (keep (after_start l.window now) (times key log)) =
      allow-verdict_on l key now ∙ ap (verdict_on l.requests l.window now) (t.seen key now h.0) in
    rw (← v) (elim (Bool-cases (admits l key now)) [
      | inl room ↦ rw (note-admitted l log key now room) (
          let later =
            verdicts-ideal_run (allow l key now).0 (log ++ (key, now) ∷ []) now calls
              (Tracks-admitted l log last key now t h.0 room) h.1 in
          ap (◌∷◌ (allow l key now).1) (rw (allow_requests, allow_window) at later))
      | inr full ↦ rw (note-refused l log key now full) (
          let later =
            verdicts-ideal_run (allow l key now).0 log now calls
              (Tracks-refused l log last key now t h.0 full) h.1 in
          ap (◌∷◌ (allow l key now).1) (rw (allow_requests, allow_window) at later))
    ])

-- For every run of a clock that does not go back, the limiter, which drops what has left the
-- window, answers call for call like one that keeps every admission: admitted exactly when fewer
-- than `requests` admissions of the key lie in the window, with the same count of what remains,
-- and refused with the time until the oldest of them leaves it.
pub new_rate_limiter-ideal_run :
    (c : RateLimitConfig) (calls : List (String × ℕ))
    → IsChronological 0 calls
    → verdicts (new_rate_limiter c) calls ≡ ideal_run c.requests c.window [] calls
unfolding new_rate_limiter
new_rate_limiter-ideal_run c calls h =
    verdicts-ideal_run (new_rate_limiter c) [] 0 calls (Tracks-new c) h

verdict_on-bounds :
    (requests window now : ℕ) (rs : List ℕ) {r : ℕ}
    → All (λ s. s ≤ now) rs
    → All (λ s. after_start window now s ≡ true) rs
    → verdict_on requests window now rs ≡ denied r
    → (0 < r) × (r ≤ window)
verdict_on-bounds requests window now [] h k e = ground arith
verdict_on-bounds requests window now (s ∷ rs) h k e = ground arith

All-keep_test : (p : ℕ → Bool) (xs : List ℕ) → All (λ s. p s ≡ true) (keep p xs)
All-keep_test p [] = tt
All-keep_test p (x ∷ xs) = elim (Bool-cases (p x)) [
  | inl e ↦ rw (e, keep) (e, All-keep_test p xs)
  | inr e ↦ rw (e, keep) (All-keep_test p xs)
]

-- A refusal tells the caller to wait for a positive time of at most one window, if no recorded
-- call lies in the future.
pub allow-retry_bounds :
    (l : RateLimiter) (key : String) (now r : ℕ)
    → All (λ s. s ≤ now) (hits l key)
    → (allow l key now).1 ≡ denied r
    → (0 < r) × (r ≤ l.window)
allow-retry_bounds l key now r h e =
    verdict_on-bounds l.requests l.window now (recent l key now) (All-keep _ _ (hits l key) h)
      (All-keep_test _ (hits l key)) (sym (allow-verdict_on l key now) ∙ e)

verdict_on-index_panic_iff :
    (requests window now : ℕ) (rs : List ℕ)
    → (verdict_on requests window now rs ≡ index_panic) ↔ ((requests ≡ 0) × (rs ≡ []))
verdict_on-index_panic_iff requests window now [] = ground arith
verdict_on-index_panic_iff requests window now (s ∷ rs) = ground arith

-- `Allow` indexes an empty slice exactly when the limit is zero and no earlier call of the key
-- counts: with `Requests: 0` the first request of a key panics instead of being refused.
pub allow-index_panic_iff :
    (l : RateLimiter) (key : String) (now : ℕ)
    → ((allow l key now).1 ≡ index_panic) ↔ ((l.requests ≡ 0) × (recent l key now ≡ []))
allow-index_panic_iff l key now =
    rw allow-verdict_on (verdict_on-index_panic_iff l.requests l.window now (recent l key now))

abbrev pub serves : List Effect → Bool
serves [] = false
serves (serve _ ∷ _) = true
serves (_ ∷ effects) = serves effects

respond-serves_iff :
    (itoa : ℕ → String) (r : Request) (requests window now : ℕ) (rs : List ℕ)
    → (serves (respond itoa requests r (verdict_on requests window now rs)) ≡ true)
      ↔ (length rs < requests)
respond-serves_iff itoa r requests window now [] = ground arith
respond-serves_iff itoa r requests window now (s ∷ rs) = ground arith

-- The middleware calls the next handler exactly when fewer than `requests` calls of the request's
-- key count.
pub rate_limit-serves_iff :
    (itoa : ℕ → String) (l : RateLimiter) (r : Request) (now : ℕ)
    → (serves (rate_limit itoa l r now).1 ≡ true)
      ↔ (length (recent l (l.key_func r) now) < l.requests)
unfolding rate_limit
rate_limit-serves_iff itoa l r now =
    rw allow-verdict_on
      (respond-serves_iff itoa r l.requests l.window now (recent l (l.key_func r) now))
