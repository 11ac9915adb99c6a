-- ===== src/Connections/Handles.antt =====
-- The databases that stay open.
use tracks.Common.{
  zero, suc, ℕ, ◌≡◌, refl, sym, ap, ◌∙◌, ◌≢◌, inl, inr, Option, none, some, List, [], ◌∷◌, ◌++◌,
  map, arith, if◌then◌else◌, Bool-cases, Comparable, ◌==◌, string_eq,
}
use tracks.Common.Dict.{Dict, get, put}
use tracks.Connections.{
  Connected, connected, refused, leaked, crashed, Shared, Phase, reading, missed, locked, finished,
  Caller, store, looked_up, create, advance_phase, advance, step, run, empty, callers,
}

module _ {K : Type 0} ⦃e : Comparable K⦄ where
  abbrev pub handles : Dict K ℕ → List ℕ
  handles m = map (λ entry. entry.1) m

  handles-put :
      (k : K) (v : ℕ) (m : Dict K ℕ) → get k m ≡ none → handles (put k v m) ≡ handles m ++ v ∷ []
  unfolding get put
  handles-put k v [] h = refl
  handles-put k v ((j, w) ∷ m) h = elim (Bool-cases (j == k)) [
    | inl same ↦ absurd (cc (h, ap (λ t. if t then some w else get k m) same))
    | inr other ↦ rw (put, other) (ap (◌∷◌ w) (handles-put k v m (ground (arith, h))))
  ]

  -- The databases that are open are those of the map, in the order of their keys.
  abbrev pub Tidy : Shared K → Type 0
  Tidy s = s.live ≡ handles s.dbs

module _ {K E : Type 0} ⦃e : Comparable K⦄ (connect : K → ℕ → Connected E) where
  -- No attempt ends with an error and a database that stays open.
  abbrev pub NeverLeaks : Type 0
  NeverLeaks = (k : K) (n : ℕ) (error : E) → connect k n ≢ leaked error

  store-Tidy :
      (s : Shared K) (k : K) (o : Connected E)
      → get k s.dbs ≡ none
      → ((error : E) → o ≢ leaked error)
      → Tidy s
      → Tidy (store connect s k o).0
  store-Tidy s k connected absent h t =
      ap (λ l. l ++ s.attempts ∷ []) t ∙ sym (handles-put k s.attempts s.dbs absent)
  store-Tidy s k (refused error) absent h t = t
  store-Tidy s k (leaked error) absent h t = absurd (h error refl)
  store-Tidy s k crashed absent h t = t

  looked_up-Tidy :
      (s : Shared K) (k : K) (o : Option ℕ)
      → get k s.dbs ≡ o
      → NeverLeaks
      → Tidy s
      → Tidy (looked_up connect s k o).0
  looked_up-Tidy s k none absent h t =
      store-Tidy s k (connect k s.attempts) absent (h k s.attempts) t
  looked_up-Tidy s k (some v) there h t = t

  advance-Tidy :
      (s : Shared K) (k : K) (p : Phase E)
      → NeverLeaks
      → Tidy s
      → Tidy (advance_phase connect s k p).0
  unfolding create
  advance-Tidy s k reading h t = elim (Bool-cases s.writer) [
    | inl held ↦ rw held t
    | inr free ↦ rw free t
  ]
  advance-Tidy s k missed h t = elim (Bool-cases s.writer) [
    | inl held ↦ rw held t
    | inr free ↦ rw free t
  ]
  advance-Tidy s k locked h t = looked_up-Tidy s k (get k s.dbs) refl h t
  advance-Tidy s k (finished result) h t = t

  step-Tidy :
      (i : ℕ) (s : Shared K) (cs : List (Caller K E))
      → NeverLeaks
      → Tidy s
      → Tidy (step connect i s cs).0
  unfolding step advance
  step-Tidy i s [] h t = t
  step-Tidy zero s (c ∷ cs) h t = advance-Tidy s c.key c.phase h t
  step-Tidy (suc i) s (c ∷ cs) h t = step-Tidy i s cs h t

  run-Tidy :
      (schedule : List ℕ) (s : Shared K) (cs : List (Caller K E))
      → NeverLeaks
      → Tidy s
      → Tidy (run connect schedule s cs).0
  unfolding run
  run-Tidy [] s cs h t = t
  run-Tidy (i ∷ schedule) s cs h t =
      run-Tidy schedule (step connect i s cs).0 (step connect i s cs).1 h (step-Tidy i s cs h t)

  -- In every interleaving of calls whose attempts leave no database open after an error, the databases
  -- that are open are exactly those that the map holds.
  pub run-live :
      (schedule : List ℕ) (ks : List K)
      → NeverLeaks
      → Tidy (run connect schedule empty (callers ks)).0
  run-live schedule ks h = run-Tidy schedule empty (callers ks) h refl
