-- ===== src/Jobs.antt =====
-- jobs.go: what a worker does with a job of the queue. The channel is the list of waiting jobs, a worker
-- takes the first, and the clock and the result of `Handle` are arguments. A time is in nanoseconds.
pub mod Retries
mod Tests
use tracks.Common.{
  ◌+◌, ℕ, Bool, true, false, Option, none, some, List, [], ◌∷◌, ◌++◌, ltb, if◌then◌else◌,
}

-- `max_retries` and `retry_delay` are there if the job is a `RetryableJob`; `J` are the jobs.
pub record JobKind : Type 0 where
  pub max_retries : ℕ
  pub retry_delay : ℕ → ℕ

pub record QueuedJob (J : Type 0) : Type 0 where
  pub job : J
  pub at : ℕ
  pub attempt : ℕ

module _ {J : Type 0} where
  unfoldable pub enqueue_at : List (QueuedJob J) → ℕ → J → List (QueuedJob J)
  enqueue_at jobs at job = jobs ++ record { job = job; at = at; attempt = 0 } ∷ []

  -- The job that a failed `Handle` puts back, at the time `now`.
  abbrev pub retry_of : Option JobKind → QueuedJob J → ℕ → List (QueuedJob J)
  retry_of none qj now = []
  retry_of (some kind) qj now =
      if ltb qj.attempt kind.max_retries
      then record {
        job = qj.job;
        at = now + kind.retry_delay (qj.attempt + 1);
        attempt = qj.attempt + 1;
      }
        ∷ []
      else []

  -- One turn of a worker: whether it calls `Handle`, and the queue it leaves. A job that is early comes back
  -- when its time has come, here at the end of the queue at once.
  unfoldable pub work :
      (J → Option JobKind)
      → (fails : Bool) → ℕ
      → QueuedJob J
      → List (QueuedJob J)
      → Bool × List (QueuedJob J)
  work kind fails now qj jobs =
      if ltb now qj.at
      then (false, jobs ++ qj ∷ [])
      else (true, if fails then jobs ++ retry_of (kind qj.job) qj now else jobs)
