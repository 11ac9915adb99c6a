-- ===== src/Jobs/Retries.antt =====
-- How often jobs.go tries a job.
use tracks.Common.{
  ◌+◌, ◌-◌, ◌≤◌, ℕ, ◌≡◌, refl, inl, inr, Bool, Option, none, some, List, [], ◌∷◌, ◌++◌, arith, ltb,
  if◌then◌else◌, Bool-cases,
}
use tracks.Jobs.{JobKind, QueuedJob, retry_of, work}

-- The attempts that are left after `attempt` of them, the next one included.
abbrev pub left_of : Option JobKind → ℕ → ℕ
left_of none attempt = 1
left_of (some k) attempt = k.max_retries - attempt + 1

abbrev pub attempts_left : {J : Type 0} → (J → Option JobKind) → QueuedJob J → ℕ
attempts_left kind qj = left_of (kind qj.job) qj.attempt

abbrev pub total_left : {J : Type 0} → (J → Option JobKind) → List (QueuedJob J) → ℕ
total_left kind [] = 0
total_left kind (qj ∷ jobs) = attempts_left kind qj + total_left kind jobs

-- A run of workers over the queue, one turn after the other: each turn gives the clock and whether the
-- handler fails. It counts the calls of `Handle`, and gives the queue that is left.
unfoldable pub run :
    {J : Type 0}
    → (J → Option JobKind)
    → List (QueuedJob J)
    → List (ℕ × Bool)
    → ℕ × List (QueuedJob J)
run kind jobs [] = (0, jobs)
run kind [] (turn ∷ turns) = (0, [])
run kind (qj ∷ jobs) ((now, fails) ∷ turns) =
    let (handled, left) = work kind fails now qj jobs in
    let (n, rest) = run kind left turns in (if handled then n + 1 else n, rest)

total_left-append :
    {J : Type 0} (kind : J → Option JobKind) (a b : List (QueuedJob J))
    → total_left kind (a ++ b) ≡ total_left kind a + total_left kind b
total_left-append kind [] b = omega arith
total_left-append kind (qj ∷ a) b = omega (arith, total_left-append kind a b)

total_left-retry_of :
    {J : Type 0} (kind : J → Option JobKind) (qj : QueuedJob J) (now : ℕ)
    → total_left kind (retry_of (kind qj.job) qj now) + 1 ≤ attempts_left kind qj
total_left-retry_of kind qj now = retried (kind qj.job) refl
  where
    retried :
        (o : Option JobKind)
        → kind qj.job ≡ o
        → total_left kind (retry_of o qj now) + 1 ≤ left_of o qj.attempt
    retried none e = omega arith
    retried (some k) e = elim (Bool-cases (ltb qj.attempt k.max_retries)) [
      | inl again ↦ rw (again, e) (ground (arith, again))
      | inr over ↦ rw over (omega arith)
    ]

-- In a turn the attempts that are left go down by the call of `Handle`, if there is one, and never up.
work-total_left :
    {J : Type 0} (kind : J → Option JobKind) (fails : Bool) (now : ℕ) (qj : QueuedJob J)
    (jobs : List (QueuedJob J))
    → total_left kind (work kind fails now qj jobs).1
        + (if (work kind fails now qj jobs).0 then 1 else 0)
      ≤ attempts_left kind qj + total_left kind jobs
unfolding work
work-total_left kind fails now qj jobs = ground (
  arith,
  total_left-append kind jobs (qj ∷ []),
  total_left-append kind jobs (retry_of (kind qj.job) qj now),
  total_left-retry_of kind qj now,
)

-- However the workers take turns, and whatever fails, the handlers are called at most as often as the
-- queued jobs have attempts: once for a job, and `MaxRetries` times more for one that can be retried.
pub run-total_left :
    {J : Type 0} (kind : J → Option JobKind) (jobs : List (QueuedJob J)) (turns : List (ℕ × Bool))
    → (run kind jobs turns).0 + total_left kind (run kind jobs turns).1 ≤ total_left kind jobs
unfolding run
run-total_left kind jobs [] = omega arith
run-total_left kind [] (turn ∷ turns) = omega arith
run-total_left kind (qj ∷ jobs) ((now, fails) ∷ turns) = ground (
  arith,
  work-total_left kind fails now qj jobs,
  run-total_left kind (work kind fails now qj jobs).1 turns,
)
