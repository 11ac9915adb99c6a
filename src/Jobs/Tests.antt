-- ===== src/Jobs/Tests.antt =====
-- A queue of jobs.go with one job, which is tried three times.
use tracks.Common.{◌+◌, ◌*◌, ◌≤◌, ℕ, String, ◌≡◌, refl, Bool, true, Option, some, List, [], ◌∷◌}
use tracks.Jobs.{JobKind, QueuedJob, enqueue_at, work}
use tracks.Jobs.Retries.{run, total_left, run-total_left}

abbrev twice_more : String → Option JobKind
twice_more job = some (record { max_retries = 2; retry_delay = λ n. 10 * n })

abbrev one_job : List (QueuedJob String)
one_job = record { job = "mail"; at = 5; attempt = 0 } ∷ []

-- The second turn is too early, and calls no handler.
abbrev always_fails : List (ℕ × Bool)
always_fails = (5, true) ∷ (6, true) ∷ (15, true) ∷ (35, true) ∷ (90, true) ∷ []

run-one_job : run twice_more one_job always_fails ≡ (3, [])
unfolding run work
run-one_job = refl

enqueue_at-mail : enqueue_at [] 5 "mail" ≡ one_job
unfolding enqueue_at
enqueue_at-mail = refl

run-total_left_example :
    (run twice_more one_job always_fails).0
      + total_left twice_more (run twice_more one_job always_fails).1
    ≤ 3
run-total_left_example = run-total_left twice_more one_job always_fails
