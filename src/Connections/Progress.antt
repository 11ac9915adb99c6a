-- ===== src/Connections/Progress.antt =====
-- The write lock of the calls that open databases: that they never block each other for good.
use tracks.Common.{
  zero, suc, ◌+◌, ◌≤◌, ◌<◌, ℕ, ◌≡◌, refl, ap, inl, inr, Bool, true, false, Option, none, some, List,
  [], ◌∷◌, arith, ltb, Bool-cases, Comparable, All,
}
use tracks.Common.Dict.{get}
use tracks.Common.Result.{Result}
use tracks.Connections.{
  Connected, Shared, Phase, reading, missed, locked, finished, Caller, read, advance_phase, advance,
  step, run, empty, callers,
}

-- The calls that hold the lock.
abbrev holds : {E : Type 0} → Phase E → ℕ
holds reading = 0
holds missed = 0
holds locked = 1
holds (finished result) = 0

abbrev holders : {K E : Type 0} → List (Caller K E) → ℕ
holders [] = 0
holders (c ∷ cs) = holds c.phase + holders cs

-- The turns that a call needs yet.
abbrev left : {E : Type 0} → Phase E → ℕ
left reading = 3
left missed = 2
left locked = 1
left (finished result) = 0

abbrev all_left : {K E : Type 0} → List (Caller K E) → ℕ
all_left [] = 0
all_left (c ∷ cs) = left c.phase + all_left cs

abbrev pub IsFinished : {K E : Type 0} → Caller K E → Type 0
IsFinished {E = E} c = (result : Result E ℕ) × (c.phase ≡ finished result)

abbrev as_number : Bool → ℕ
as_number true = 1
as_number false = 0

module _ {K E : Type 0} ⦃e : Comparable K⦄ (connect : K → ℕ → Connected E) where
  holds-read : (o : Option ℕ) → holds (read connect o) ≡ 0
  holds-read none = refl
  holds-read (some db) = refl

  left-read : (o : Option ℕ) → left (read connect o) ≤ 2
  left-read none = omega arith
  left-read (some db) = omega arith

  -- A turn gives the lock to the call that takes it, and takes it from the call that had it.
  advance-holds :
      (s : Shared K) (k : K) (p : Phase E)
      → holds p ≤ as_number s.writer
      → let (s', p') = advance_phase connect s k p in
        holds p' + as_number s.writer ≡ holds p + as_number s'.writer
  advance-holds s k reading h = elim (Bool-cases s.writer) [
    | inl held ↦ rw held refl
    | inr free ↦ rw (free, holds-read (get k s.dbs)) refl
  ]
  advance-holds s k missed h = elim (Bool-cases s.writer) [
    | inl held ↦ rw held refl
    | inr free ↦ rw free refl
  ]
  advance-holds s k locked h = elim (Bool-cases s.writer) [
    | inl held ↦ rw held refl
    | inr free ↦ absurd (omega (arith, h, ap as_number free))
  ]
  advance-holds s k (finished result) h = refl

  step-holders :
      (i : ℕ) (s : Shared K) (cs : List (Caller K E))
      → holders cs ≤ as_number s.writer
      → let (s', cs') = step connect i s cs in
        holders cs' + as_number s.writer ≡ holders cs + as_number s'.writer
  unfolding step advance
  step-holders i s [] h = refl
  step-holders zero s (c ∷ cs) h = omega (arith, advance-holds s c.key c.phase (omega (arith, h)))
  step-holders (suc i) s (c ∷ cs) h = omega (arith, step-holders i s cs (omega (arith, h)))

  -- As many calls hold the lock as it is held by: one or none.
  abbrev Held : Shared K → List (Caller K E) → Type 0
  Held s cs = holders cs ≡ as_number s.writer

  step-Held :
      (i : ℕ) (s : Shared K) (cs : List (Caller K E))
      → Held s cs
      → Held (step connect i s cs).0 (step connect i s cs).1
  step-Held i s cs h = omega (arith, h, step-holders i s cs (omega (arith, h)))

  run-Held :
      (schedule : List ℕ) (s : Shared K) (cs : List (Caller K E))
      → Held s cs
      → Held (run connect schedule s cs).0 (run connect schedule s cs).1
  unfolding run
  run-Held [] s cs h = h
  run-Held (i ∷ schedule) s cs h =
      run-Held schedule (step connect i s cs).0 (step connect i s cs).1 (step-Held i s cs h)

  holders-callers : (ks : List K) → holders (callers {E = E} ks) ≡ 0
  holders-callers [] = refl
  holders-callers (k ∷ ks) = omega (arith, holders-callers ks)

  -- Some call has a turn that brings it forward.
  abbrev Moves : Shared K → List (Caller K E) → Type 0
  Moves s cs = (i : ℕ) × (all_left (step connect i s cs).1 < all_left cs)

  Moves-later :
      (s : Shared K) (c : Caller K E) (cs : List (Caller K E)) → Moves s cs → Moves s (c ∷ cs)
  unfolding step
  Moves-later s c cs (i, h) = (suc i, omega (arith, h))

  Moves-holder : (s : Shared K) (cs : List (Caller K E)) → 0 < holders cs → Moves s cs
  unfolding step advance
  Moves-holder s [] h = absurd (omega (arith, h))
  Moves-holder s (c ∷ cs) h = go c.phase refl (Moves-holder s cs)
    where
      go : (p : Phase E) → c.phase ≡ p → (0 < holders cs → Moves s cs) → Moves s (c ∷ cs)
      go reading e later = Moves-later s c cs (later (omega (arith, h, ap holds e)))
      go missed e later = Moves-later s c cs (later (omega (arith, h, ap holds e)))
      go locked e later = (0, rw e (omega arith))
      go (finished result) e later = Moves-later s c cs (later (omega (arith, h, ap holds e)))

  Moves-free :
      (s : Shared K) (cs : List (Caller K E)) → s.writer ≡ false → 0 < all_left cs → Moves s cs
  unfolding step advance
  Moves-free s [] free h = absurd (omega (arith, h))
  Moves-free s (c ∷ cs) free h = go c.phase refl (Moves-free s cs free)
    where
      go : (p : Phase E) → c.phase ≡ p → (0 < all_left cs → Moves s cs) → Moves s (c ∷ cs)
      go reading e later = (0, rw (e, free) (omega (arith, left-read (get c.key s.dbs))))
      go missed e later = (0, rw (e, free) (omega arith))
      go locked e later = (0, rw e (omega arith))
      go (finished result) e later = Moves-later s c cs (later (omega (arith, h, ap left e)))

  Moves_lem : (s : Shared K) (cs : List (Caller K E)) → Held s cs → 0 < all_left cs → Moves s cs
  Moves_lem s cs h h' = elim (Bool-cases s.writer) [
    | inl held ↦ Moves-holder s cs (omega (arith, h, ap as_number held))
    | inr free ↦ Moves-free s cs free h'
  ]

  -- The turns that are enough, `n` at most.
  completes :
      (n : ℕ) (s : Shared K) (cs : List (Caller K E))
      → Held s cs
      → all_left cs ≤ n
      → (later : List ℕ) × (all_left (run connect later s cs).1 ≡ 0)
  unfolding run
  completes zero s cs h le = ([], omega (arith, le))
  completes (suc n) s cs h le = elim (Bool-cases (ltb 0 (all_left cs))) [
    | inl more ↦
        let (i, fewer) = Moves_lem s cs h (ground (arith, more)) in
        let (later, done) =
          completes n (step connect i s cs).0 (step connect i s cs).1 (step-Held i s cs h)
            (omega (arith, fewer, le)) in
        (i ∷ later, done)
    | inr nothing ↦ ([], ground (arith, nothing))
  ]

  all_left-IsFinished : (cs : List (Caller K E)) → all_left cs ≡ 0 → All IsFinished cs
  all_left-IsFinished [] h = tt
  all_left-IsFinished (c ∷ cs) h = (go c.phase refl, all_left-IsFinished cs (omega (arith, h)))
    where
      go : (p : Phase E) → c.phase ≡ p → IsFinished c
      go reading e = absurd (omega (arith, h, ap left e))
      go missed e = absurd (omega (arith, h, ap left e))
      go locked e = absurd (omega (arith, h, ap left e))
      go (finished result) e = (result, e)

  -- No deadlock: whatever turns any number of calls have had, whatever calls wait for the lock and whether
  -- or not the databases can be opened, there are further turns after which every call has ended.
  pub run-IsFinished :
      (schedule : List ℕ) (ks : List K)
      → let (s, cs) = run connect schedule empty (callers ks) in
        (later : List ℕ) × All IsFinished (run connect later s cs).1
  run-IsFinished schedule ks =
      let h = run-Held schedule empty (callers ks) (holders-callers ks) in
      let (later, done) =
        completes (all_left (run connect schedule empty (callers ks)).1)
          (run connect schedule empty (callers ks)).0 (run connect schedule empty (callers ks)).1 h
          (omega arith) in
      (later, all_left-IsFinished _ done)
