-- ===== src/RateLimit/Tests.antt =====
-- Runs of the limiter of ratelimit.go.
use tracks.Common.{
  ◌≤◌, ℕ, String, ◌≡◌, refl, none, List, [], ◌∷◌, arith, string_eq, length, keep, All,
}
use tracks.Common.Dict
use tracks.RateLimit.{RateLimitConfig, RateLimiter, new_rate_limiter, allowed, denied, hits, allow}
use tracks.RateLimit.Window.{times, in_window, run, run-window_bound, IsChronological}
use tracks.RateLimit.Ideal.{ideal_run, verdicts, new_rate_limiter-ideal_run}

-- Two calls in ten nanoseconds.
abbrev two_in_ten : RateLimitConfig
two_in_ten = record { requests = 2; window = 10; key_func = none }

abbrev some_calls : List (String × ℕ)
some_calls = ("a", 1) ∷ ("a", 3) ∷ ("b", 4) ∷ ("a", 5) ∷ ("a", 11) ∷ []

abbrev busy : RateLimiter
busy = record {
  requests = 2;
  window = 10;
  key_func = λ r. r.remote_addr;
  data_of = ("10.0.0.1:4000", 3 ∷ 4 ∷ []) ∷ [];
}

verdicts-some_calls :
    verdicts (new_rate_limiter two_in_ten) some_calls
    ≡ allowed 1 ∷ allowed 0 ∷ allowed 1 ∷ denied 6 ∷ allowed 0 ∷ []
unfolding verdicts allow hits new_rate_limiter Dict.get Dict.put
verdicts-some_calls = refl

some_calls-IsChronological : IsChronological 0 some_calls
some_calls-IsChronological =
    (omega arith, (omega arith, (omega arith, (omega arith, (omega arith, tt)))))

run-window_bound_example :
    length (keep (in_window 10 11) (times "a" (run (new_rate_limiter two_in_ten) [] some_calls)))
    ≤ 2
run-window_bound_example = run-window_bound two_in_ten some_calls some_calls-IsChronological "a" 11

new_rate_limiter-ideal_run_example :
    verdicts (new_rate_limiter two_in_ten) some_calls ≡ ideal_run 2 10 [] some_calls
new_rate_limiter-ideal_run_example =
    new_rate_limiter-ideal_run two_in_ten some_calls some_calls-IsChronological

hits-busy : All (λ s. s ≤ 5) (hits busy "10.0.0.1:4000")
unfolding hits Dict.get
hits-busy = (omega arith, (omega arith, tt))

allow-busy : (allow busy "10.0.0.1:4000" 5).1 ≡ denied 8
unfolding allow hits Dict.get
allow-busy = refl
