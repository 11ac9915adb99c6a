-- ===== src/Connections.antt =====
-- Maps of databases that are opened on their first use, under a read-write lock: `getDB` of domain_db.go
-- and `GetTenantDB` with `createTenantDB` of modules/multitenancy/db.go. A database is the number of the
-- attempt that opened it. A call reads the map under the read lock in one step; where it misses, it takes
-- the write lock in a second one, and in a third one looks again, opens the database and releases the lock.
-- A turn of a call that needs a lock another call holds changes nothing. The turns of several calls may
-- come in any order.
pub mod Interleavings
pub mod Progress
pub mod Handles
pub mod Domains
pub mod Tenants
mod Tests
use tracks.Common.{
  zero, suc, ◌+◌, ℕ, Bool, true, false, Option, none, some, List, [], ◌∷◌, ◌++◌, map, if◌then◌else◌,
  Comparable, string_eq,
}
use tracks.Common.Dict.{Dict, get, put}
use tracks.Common.Result.{Result, ok, err, panicked}

-- How an attempt to open a database ends: with the database; with an error, after which it is closed or
-- was never open; with an error, after which it stays open; or with a panic.
pub data Connected (E : Type 0) : Type 0 where
  connected : Connected E
  refused : E → Connected E
  leaked : E → Connected E
  crashed : Connected E

-- The databases by key, the number of attempts, the databases that are open, and whether a call holds the
-- write lock.
pub record Shared (K : Type 0) : Type 0 where
  pub dbs : Dict K ℕ
  pub attempts : ℕ
  pub live : List ℕ
  pub writer : Bool

pub data Phase (E : Type 0) : Type 0 where
  reading : Phase E
  missed : Phase E
  locked : Phase E
  finished : Result E ℕ → Phase E

-- A call, with its key.
pub record Caller (K E : Type 0) : Type 0 where
  pub key : K
  pub phase : Phase E

module _ {K E : Type 0} ⦃e : Comparable K⦄ (connect : K → ℕ → Connected E) where
  abbrev pub attempted : Shared K → Shared K
  attempted s = record s { attempts = s.attempts + 1 }

  -- What the attempt leaves, and the result of the call.
  abbrev pub store : Shared K → K → Connected E → Shared K × Result E ℕ
  store s k connected = (
    record s {
      dbs = put k s.attempts s.dbs;
      attempts = s.attempts + 1;
      live = s.live ++ s.attempts ∷ [];
    },
    ok s.attempts,
  )
  store s k (refused error) = (attempted s, err error)
  store s k (leaked error) =
      (record s { attempts = s.attempts + 1; live = s.live ++ s.attempts ∷ [] }, err error)
  store s k crashed = (attempted s, panicked)

  -- `if db, ok := dbs[key]; ok { return db, nil }`, then the attempt.
  abbrev pub looked_up : Shared K → K → Option ℕ → Shared K × Result E ℕ
  looked_up s k (some db) = (s, ok db)
  looked_up s k none = store s k (connect k s.attempts)

  -- What the call does under the write lock.
  unfoldable pub create : Shared K → K → Shared K × Result E ℕ
  create s k = looked_up s k (get k s.dbs)

  -- What the step under the read lock finds.
  abbrev pub read : Option ℕ → Phase E
  read (some db) = finished (ok db)
  read none = missed

  abbrev pub advance_phase : Shared K → K → Phase E → Shared K × Phase E
  advance_phase s k reading = if s.writer then (s, reading) else (s, read (get k s.dbs))
  advance_phase s k missed = if s.writer then (s, missed) else (record s { writer = true }, locked)
  advance_phase s k locked =
      let (s', result) = create s k in (record s' { writer = false }, finished result)
  advance_phase s k (finished result) = (s, finished result)

  -- The next step of a call.
  unfoldable pub advance : Shared K → Caller K E → Shared K × Caller K E
  unfolding create
  advance s c = let (s', phase) = advance_phase s c.key c.phase in (s', record c { phase = phase })

  -- A step of the call with the given number.
  unfoldable pub step : ℕ → Shared K → List (Caller K E) → Shared K × List (Caller K E)
  unfolding advance
  step i s [] = (s, [])
  step zero s (c ∷ cs) = let (s', c') = advance s c in (s', c' ∷ cs)
  step (suc i) s (c ∷ cs) = let (s', cs') = step i s cs in (s', c ∷ cs')

  unfoldable pub run : List ℕ → Shared K → List (Caller K E) → Shared K × List (Caller K E)
  unfolding step
  run [] s cs = (s, cs)
  run (i ∷ schedule) s cs = let (s', cs') = step i s cs in run schedule s' cs'

abbrev pub empty : {K : Type 0} → Shared K
empty = record { dbs = []; attempts = 0; live = []; writer = false }

-- Calls that have not begun.
abbrev pub callers : {K E : Type 0} → List K → List (Caller K E)
callers ks = map (λ k. record { key = k; phase = reading }) ks
