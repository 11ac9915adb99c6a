-- ===== src/Connections/Interleavings.antt =====
-- What holds of every interleaving of calls that open databases on their first use.
use tracks.Common.{
  zero, suc, ℕ, ◌≡◌, refl, inl, inr, false, Option, none, some, List, [], ◌∷◌, arith, Bool-cases,
  Comparable, string_eq, All, get_elem?, All-get_elem?,
}
use tracks.Common.Dict.{Dict, get, put, get-put, get-put_self}
use tracks.Common.Result.{ok, err, panicked}
use tracks.Connections.{
  Connected, connected, refused, leaked, crashed, Shared, Phase, reading, missed, locked, finished,
  Caller, store, looked_up, read, advance_phase, create, advance, step, run, empty, callers,
}

module _ {K : Type 0} ⦃e : Comparable K⦄ where
  abbrev pub Grows : Shared K → Shared K → Type 0
  Grows s s' = (k : K) (v : ℕ) → get k s.dbs ≡ some v → get k s'.dbs ≡ some v

  put-Grows :
      (k : K) (n : ℕ) (m : Dict K ℕ)
      → get k m ≡ none
      → (j : K) (v : ℕ) → get j m ≡ some v
      → get j (put k n m) ≡ some v
  put-Grows k n m absent j v h = ground (arith, get-put k j n m, e.equal_iff k j)

module _ {K E : Type 0} ⦃e : Comparable K⦄ where
  -- A call that has a database has the one in the map.
  abbrev pub PhaseAgrees : Shared K → K → Phase E → Type 0
  PhaseAgrees s k reading = Unit
  PhaseAgrees s k missed = Unit
  PhaseAgrees s k locked = Unit
  PhaseAgrees s k (finished (ok v)) = get k s.dbs ≡ some v
  PhaseAgrees s k (finished (err error)) = Unit
  PhaseAgrees s k (finished panicked) = Unit

  abbrev pub Agrees : Shared K → Caller K E → Type 0
  Agrees s c = PhaseAgrees s c.key c.phase

  PhaseAgrees-Grows :
      (s s' : Shared K) (k : K) (p : Phase E) → Grows s s' → PhaseAgrees s k p → PhaseAgrees s' k p
  PhaseAgrees-Grows s s' k reading g h = tt
  PhaseAgrees-Grows s s' k missed g h = tt
  PhaseAgrees-Grows s s' k locked g h = tt
  PhaseAgrees-Grows s s' k (finished (ok v)) g h = g k v h
  PhaseAgrees-Grows s s' k (finished (err error)) g h = tt
  PhaseAgrees-Grows s s' k (finished panicked) g h = tt

  All-Grows :
      (s s' : Shared K) (cs : List (Caller K E))
      → Grows s s'
      → All (Agrees s) cs
      → All (Agrees s') cs
  All-Grows s s' [] g h = tt
  All-Grows s s' (c ∷ cs) g h =
      (PhaseAgrees-Grows s s' c.key c.phase g h.0, All-Grows s s' cs g h.1)

module _ {K E : Type 0} ⦃e : Comparable K⦄ (connect : K → ℕ → Connected E) where
  store_sound :
      (s : Shared K) (k : K) (o : Connected E)
      → get k s.dbs ≡ none
      → Grows s (store connect s k o).0
        × PhaseAgrees (store connect s k o).0 k (finished (store connect s k o).1)
  store_sound s k connected absent =
      (put-Grows k s.attempts s.dbs absent, get-put_self k s.attempts s.dbs)
  store_sound s k (refused error) absent = (λ j v h. h, tt)
  store_sound s k (leaked error) absent = (λ j v h. h, tt)
  store_sound s k crashed absent = (λ j v h. h, tt)

  looked_up_sound :
      (s : Shared K) (k : K) (o : Option ℕ)
      → get k s.dbs ≡ o
      → Grows s (looked_up connect s k o).0
        × PhaseAgrees (looked_up connect s k o).0 k (finished (looked_up connect s k o).1)
  looked_up_sound s k none e = store_sound s k (connect k s.attempts) e
  looked_up_sound s k (some v) e = (λ j v h. h, e)

  create_sound :
      (s : Shared K) (k : K)
      → Grows s (create connect s k).0
        × PhaseAgrees (create connect s k).0 k (finished (create connect s k).1)
  unfolding create
  create_sound s k = looked_up_sound s k (get k s.dbs) refl

  read_sound :
      (s : Shared K) (k : K) (o : Option ℕ) → get k s.dbs ≡ o → PhaseAgrees s k (read connect o)
  read_sound s k none e = tt
  read_sound s k (some v) e = e

  advance_sound :
      (s : Shared K) (k : K) (p : Phase E)
      → PhaseAgrees s k p
      → Grows s (advance_phase connect s k p).0
        × PhaseAgrees (advance_phase connect s k p).0 k (advance_phase connect s k p).1
  advance_sound s k reading h = elim (Bool-cases s.writer) [
    | inl held ↦ rw held (λ j v h. h, tt)
    | inr free ↦ rw free (λ j v h. h, read_sound s k (get k s.dbs) refl)
  ]
  advance_sound s k missed h = elim (Bool-cases s.writer) [
    | inl held ↦ rw held (λ j v h. h, tt)
    | inr free ↦ rw free (λ j v h. h, tt)
  ]
  advance_sound s k locked h =
      let (grows, agrees) = create_sound s k in
      (
        grows,
        PhaseAgrees-Grows (create connect s k).0 (record (create connect s k).0 { writer = false })
            k (finished (create connect s k).1) (λ j v h. h) agrees,
      )
  advance_sound s k (finished result) h = (λ j v h. h, h)

  step_sound :
      (i : ℕ) (s : Shared K) (cs : List (Caller K E))
      → All (Agrees s) cs
      → Grows s (step connect i s cs).0
        × All (Agrees (step connect i s cs).0) (step connect i s cs).1
  unfolding step advance
  step_sound i s [] h = (λ j v h. h, tt)
  step_sound zero s (c ∷ cs) h =
      let now = advance_sound s c.key c.phase h.0 in
      (now.0, (now.1, All-Grows s (advance_phase connect s c.key c.phase).0 cs now.0 h.1))
  step_sound (suc i) s (c ∷ cs) h =
      let now = step_sound i s cs h.1 in
      (now.0, (PhaseAgrees-Grows s (step connect i s cs).0 c.key c.phase now.0 h.0, now.1))

  run_sound :
      (schedule : List ℕ) (s : Shared K) (cs : List (Caller K E))
      → All (Agrees s) cs
      → All (Agrees (run connect schedule s cs).0) (run connect schedule s cs).1
  unfolding run
  run_sound [] s cs h = h
  run_sound (i ∷ schedule) s cs h = run_sound schedule _ _ (step_sound i s cs h).1

  callers-Agrees : (s : Shared K) (ks : List K) → All (Agrees s) (callers {E = E} ks)
  callers-Agrees s [] = tt
  callers-Agrees s (k ∷ ks) = (tt, callers-Agrees s ks)

  -- Whatever the order of the steps of any number of calls: two calls for one key that end with a database
  -- end with the same one.
  pub run-one_database :
      (schedule : List ℕ) (ks : List K) (i j : ℕ) (k : K) (v w : ℕ)
      → let cs = (run connect schedule empty (callers ks)).1 in
        get_elem? cs i ≡ some (record { key = k; phase = finished (ok v) })
        → get_elem? cs j ≡ some (record { key = k; phase = finished (ok w) })
        → v ≡ w
  run-one_database schedule ks i j k v w e e' =
      let s = run connect schedule empty (callers ks) in
      let h = run_sound schedule empty (callers ks) (callers-Agrees empty ks) in
      let a = All-get_elem? (Agrees s.0) s.1 i _ h e in
      let b = All-get_elem? (Agrees s.0) s.1 j _ h e' in cc (a, b)
