-- ===== src/RateLimit/Window.antt =====
-- The limiter of ratelimit.go against its contract: an admission log and a sliding window.
use tracks.Common.{
  suc, ◌+◌, ◌≤◌, ℕ, String, ◌≡◌, refl, ap, inl, inr, Bool, true, false, ◌&&◌, List, [], ◌∷◌, ◌++◌,
  arith, eq_iff, ltb, leb, if◌then◌else◌, Bool-cases, ◌==◌, string_eq, length, keep, length-append,
  keep-append, keep-keep, length-keep_mono,
}
use tracks.Common.Dict
use mathlib.Core.List.{append-nil}
use tracks.RateLimit.{
  RateLimitConfig, RateLimiter, new_rate_limiter, Verdict, allowed, hits, after_start, retry, allow,
}

-- Who was admitted, and when, in order.
abbrev pub Log : Type 0
Log = List (String × ℕ)

-- The times at which a key was admitted.
abbrev pub times : String → Log → List ℕ
times k [] = []
times k ((j, t) ∷ log) = let rest = times k log in if j == k then t ∷ rest else rest

-- The admissions of the `window` that ends at `u`.
abbrev pub in_window : ℕ → ℕ → ℕ → Bool
in_window window u t = ltb u (t + window) && leb t u

abbrev pub note : Log → String → ℕ → Verdict → Log
note log key now (allowed _) = log ++ (key, now) ∷ []
note log key now _ = log

-- A run of `Allow` calls with the log that it leaves.
pub run : RateLimiter → Log → List (String × ℕ) → Log
run l log [] = log
run l log ((key, now) ∷ calls) = let (l', v) = allow l key now in run l' (note log key now v) calls

-- The clock does not go back.
abbrev pub IsChronological : ℕ → List (String × ℕ) → Type 0
IsChronological last [] = Unit
IsChronological last ((_, now) ∷ calls) = (last ≤ now) × IsChronological now calls

times-append : (k : String) (a b : Log) → times k (a ++ b) ≡ times k a ++ times k b
times-append k [] b = refl
times-append k ((j, t) ∷ a) b = ground (arith, times-append k a b)

-- From `last` on, the limiter sees of each key exactly the recent part of the log, and no window
-- holds more admissions than `requests`.
pub record Tracks (l : RateLimiter) (log : Log) (last : ℕ) : Type 0 where
  pub seen :
      (k : String) (now : ℕ)
      → last ≤ now
      → keep (after_start l.window now) (hits l k) ≡ keep (after_start l.window now) (times k log)
  pub bounded :
      (k : String) (u : ℕ) → length (keep (in_window l.window u) (times k log)) ≤ l.requests

-- The calls of a key that still count at `now`.
abbrev pub recent : RateLimiter → String → ℕ → List ℕ
recent l key now = keep (after_start l.window now) (hits l key)

-- There is room for one more.
abbrev pub admits : RateLimiter → String → ℕ → Bool
admits l key now = ltb (length (recent l key now)) l.requests

abbrev next_hits : RateLimiter → String → ℕ → List ℕ
next_hits l key now =
    if ltb (length (recent l key now)) l.requests
    then recent l key now ++ now ∷ []
    else recent l key now

hits-allow :
    (l : RateLimiter) (key : String) (now : ℕ) (k : String)
    → hits (allow l key now).0 k ≡ (if key == k then next_hits l key now else hits l k)
unfolding allow hits
hits-allow l key now k = elim (Bool-cases (ltb (length (recent l key now)) l.requests)) [
  | inl room ↦ rw room (ground (arith, Dict.get-put key k (recent l key now ++ now ∷ []) l.data_of))
  | inr full ↦ rw full (ground (arith, Dict.get-put key k (recent l key now) l.data_of))
]

pub allow_window :
    (l : RateLimiter) (key : String) (now : ℕ) → (allow l key now).0.window ≡ l.window
unfolding allow
allow_window l key now = ground arith

pub allow_requests :
    (l : RateLimiter) (key : String) (now : ℕ) → (allow l key now).0.requests ≡ l.requests
unfolding allow
allow_requests l key now = ground arith

note-retry :
    (log : Log) (key : String) (now window : ℕ) (hs : List ℕ)
    → note log key now (retry window now hs) ≡ log
note-retry log key now window [] = refl
note-retry log key now window (t ∷ hs) = refl

pub note-admitted :
    (l : RateLimiter) (log : Log) (key : String) (now : ℕ)
    → admits l key now ≡ true
    → note log key now (allow l key now).1 ≡ log ++ (key, now) ∷ []
unfolding allow
note-admitted l log key now room = rw room

pub note-refused :
    (l : RateLimiter) (log : Log) (key : String) (now : ℕ)
    → admits l key now ≡ false
    → note log key now (allow l key now).1 ≡ log
unfolding allow
note-refused l log key now full = rw full (note-retry log key now l.window (recent l key now))

-- A later moment keeps fewer calls.
after_start_mono :
    (window a b t : ℕ) → a ≤ b → after_start window b t ≡ true → after_start window a t ≡ true
after_start_mono window a b t h e = ground arith

seen_later :
    (l : RateLimiter) (key : String) (a b : ℕ)
    → a ≤ b
    → keep (after_start l.window b) (recent l key a) ≡ keep (after_start l.window b) (hits l key)
seen_later l key a b h = keep-keep _ _ (hits l key) (λ t. after_start_mono l.window a b t h)

-- What a call adds, as any later moment sees it.
seen-allow_admitted :
    (l : RateLimiter) (key k : String) (now b : ℕ)
    → now ≤ b
    → admits l key now ≡ true
    → keep (after_start l.window b) (hits (allow l key now).0 k)
      ≡ keep (after_start l.window b) (hits l k)
        ++ keep (after_start l.window b) (if key == k then now ∷ [] else [])
seen-allow_admitted l key k now b h room = elim (Bool-cases (key == k)) [
  | inl same ↦
      let here : key ≡ k = (eq_iff key k).0 same in
      rw (hits-allow, same, room, keep-append, ← here, seen_later l key now b h)
  | inr other ↦ rw (hits-allow, other, append-nil)
]

seen-allow_refused :
    (l : RateLimiter) (key k : String) (now b : ℕ)
    → now ≤ b
    → admits l key now ≡ false
    → keep (after_start l.window b) (hits (allow l key now).0 k)
      ≡ keep (after_start l.window b) (hits l k)
seen-allow_refused l key k now b h full = elim (Bool-cases (key == k)) [
  | inl same ↦
      let here : key ≡ k = (eq_iff key k).0 same in
      rw (hits-allow, same, full, ← here, seen_later l key now b h)
  | inr other ↦ rw (hits-allow, other)
]

keep-times_admitted :
    (p : ℕ → Bool) (log : Log) (key k : String) (now : ℕ)
    → keep p (times k (log ++ (key, now) ∷ []))
      ≡ keep p (times k log) ++ keep p (if key == k then now ∷ [] else [])
keep-times_admitted p log key k now = rw (times-append, keep-append)

-- A window that ends at `u` and holds `now` lies within the window that ends at `now`.
in_window_recent :
    (window now u t : ℕ) → now ≤ u → in_window window u t ≡ true → after_start window now t ≡ true
in_window_recent window now u t h e = ground arith

module _ (l : RateLimiter) (log : Log) (last : ℕ) (key : String) (now : ℕ) (t : Tracks l log last)
    (later : last ≤ now) where
  -- A window that ends at or after `now` held fewer than `requests` admissions before the call.
  room_before :
      (u : ℕ)
      → now ≤ u
      → admits l key now ≡ true
      → suc (length (keep (in_window l.window u) (times key log))) ≤ l.requests
  room_before u h room =
      let fewer : length (keep (in_window l.window u) (times key log))
          ≤ length (keep (after_start l.window now) (times key log)) =
        length-keep_mono _ _ (times key log) (λ s. in_window_recent l.window now u s h) in
      let same : length (recent l key now)
          ≡ length (keep (after_start l.window now) (times key log)) =
        ap length (t.seen key now later) in
      ground arith

  bounded_admitted :
      (k : String) (u : ℕ)
      → admits l key now ≡ true
      → length (keep (in_window l.window u) (times k (log ++ (key, now) ∷ []))) ≤ l.requests
  bounded_admitted k u room =
      rw (keep-times_admitted, length-append)
        (elim (Bool-cases (key == k)) [
          | inl same ↦
              let here : key ≡ k = (eq_iff key k).0 same in
              rw (← here) (elim (Bool-cases (leb now u)) [
                | inl inside ↦ ground (arith, room_before u (ground arith) room, t.bounded key u)
                | inr before ↦ ground (arith, t.bounded key u)
              ])
          | inr other ↦ rw other (ground (arith, t.bounded k u))
        ])

  pub Tracks-admitted :
      admits l key now ≡ true → Tracks (allow l key now).0 (log ++ (key, now) ∷ []) now
  Tracks-admitted room = record {
    seen = λ k b h. rw (
      allow_window,
      seen-allow_admitted l key k now b h room,
      keep-times_admitted,
      t.seen k b (omega arith),
    );
    bounded = λ k u. rw (allow_window, allow_requests) (bounded_admitted k u room);
  }

  pub Tracks-refused : admits l key now ≡ false → Tracks (allow l key now).0 log now
  Tracks-refused full = record {
    seen = λ k b h.
        rw (allow_window, seen-allow_refused l key k now b h full) (t.seen k b (omega arith));
    bounded = λ k u. rw (allow_window, allow_requests) (t.bounded k u);
  }

run-Tracks :
    (l : RateLimiter) (log : Log) (last : ℕ) (calls : List (String × ℕ))
    → Tracks l log last
    → IsChronological last calls
    → (k : String) (u : ℕ)
    → length (keep (in_window l.window u) (times k (run l log calls))) ≤ l.requests
unfolding run
run-Tracks l log last [] t h k u = t.bounded k u
run-Tracks l log last ((key, now) ∷ calls) t h k u = elim (Bool-cases (admits l key now)) [
  | inl room ↦ rw (note-admitted l log key now room) (
      rw (allow_window, allow_requests) at
        (run-Tracks (allow l key now).0 (log ++ (key, now) ∷ []) now calls
          (Tracks-admitted l log last key now t h.0 room) h.1 k u))
  | inr full ↦ rw (note-refused l log key now full) (
      rw (allow_window, allow_requests) at
        (run-Tracks (allow l key now).0 log now calls (Tracks-refused l log last key now t h.0 full)
          h.1 k u))
]

pub Tracks-new : (c : RateLimitConfig) → Tracks (new_rate_limiter c) [] 0
unfolding new_rate_limiter hits Dict.get
Tracks-new c = record { seen = λ k now h. refl; bounded = λ k u. omega arith }

-- Whatever the calls of a clock that does not go back, no window of the configured length, ending
-- at any moment, holds more than `requests` admissions of one key.
pub run-window_bound :
    (c : RateLimitConfig) (calls : List (String × ℕ))
    → IsChronological 0 calls
    → (k : String) (u : ℕ)
    → length (keep (in_window c.window u) (times k (run (new_rate_limiter c) [] calls)))
      ≤ c.requests
unfolding new_rate_limiter
run-window_bound c calls h k u = run-Tracks (new_rate_limiter c) [] 0 calls (Tracks-new c) h k u
