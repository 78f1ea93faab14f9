-- ===== src/Job/Runner.antt =====
-- internal/job/runner.go: what a worker does with the next job. A handler is code of other parts: it
-- may change the store (handlers enqueue jobs), and returns an error or none. The log lines are left
-- out. Durations are in nanoseconds.
use cloud_box.Base.{
  ℕ, ◌+◌, ◌-◌, ◌*◌, ◌^◌, String, Bool, true, false, Option, none, some, List, [], ◌∷◌, leb,
  if◌then◌else◌,
}
use cloud_box.Fail.{
  Error, Result, ok, err, prefixed, detailed, message, no_job_available, job_not_running,
  job_type_not_registered,
}
use cloud_box.Exec.{World, Exec, pure, raise, attempt, ◌>>=◌}
use cloud_box.Job.Model.{Job, Store}
use cloud_box.Job.Repository.{claim_next, mark_succeeded, retry_or_fail}

abbrev pub Handler : Type 0
Handler = Job → Exec Store (Unit {0})

-- The worker's configuration; the defaults of `NewRunner` and its options.
pub record Runner : Type 0 where
  pub handlers : String → Option Handler
  pub worker_count : ℕ
  pub poll_interval : ℕ
  pub retry_delay : ℕ → ℕ

abbrev pub second : ℕ
second = 1_000_000_000

-- `time.Second << (attempts - 1)`
unfoldable pub default_retry_delay : ℕ → ℕ
default_retry_delay attempts =
    if leb attempts 1
    then second
    else if leb 6 attempts
    then 32 * second
    else second * 2 ^ (attempts - 1)

-- The pair that `ProcessNext` returns.
pub record Processed : Type 0 where
  pub processed : Bool
  pub error : Option Error

abbrev pub report : Bool → Option Error → Processed
report p e = record { processed = p; error = e }

unfoldable pub run_handler : Option Handler → Job → Exec Store (Unit {0})
run_handler none job = raise (detailed job_type_not_registered job.job_type)
run_handler (some handler) job = handler job

unfoldable pub report_retry : Result Job → Processed
report_retry (err e) = report true (some (prefixed "record job failure" e))
report_retry (ok updated) = report true none

unfoldable pub report_success : Result Bool → Processed
report_success (err e) = report true (some e)
report_success (ok completed) = report true (if completed then none else some job_not_running)

-- The code after the handler has returned; `failed_at` is `time.Now().UTC()` there.
unfoldable pub record_outcome : Runner → ℕ → Job → Result (Unit {0}) → Exec Store Processed
unfolding report_retry report_success
record_outcome runner failed_at job (err e) = do
  updated ← attempt (retry_or_fail job.id (message e) (failed_at + runner.retry_delay job.attempts))
  pure (report_retry updated)
record_outcome runner failed_at job (ok done) = do
  completed ← attempt (mark_succeeded job.id)
  pure (report_success completed)

unfoldable pub after_claim : Runner → ℕ → Result Job → Exec Store Processed
unfolding run_handler record_outcome
after_claim runner failed_at (err no_job_available) = pure (report false none)
after_claim runner failed_at (err e) = pure (report false (some e))
after_claim runner failed_at (ok job) = do
  outcome ← attempt (run_handler (runner.handlers job.job_type) job)
  record_outcome runner failed_at job outcome

-- `cancelled` is `ctx.Err()` at the start, `now` the time of the claim.
unfoldable pub process_next : Runner → Option Error → ℕ → ℕ → Exec Store Processed
unfolding after_claim
process_next runner (some e) now failed_at = pure (report false (some e))
process_next runner none now failed_at = do
  claimed ← attempt (claim_next now)
  after_claim runner failed_at claimed

-- What the environment gives a worker in one round of its loop: the context and the times, and,
-- where nothing was processed, whether `ctx.Done()` or the ticker comes first.
pub record Round : Type 0 where
  pub cancelled : Option Error
  pub now : ℕ
  pub failed_at : ℕ
  pub done : Bool

-- `runWorker`: the reports of the rounds until the worker returns or the rounds given are over.
unfoldable pub run_worker : Runner → List Round → World Store → List Processed × World Store
run_worker runner [] w = ([], w)
run_worker runner (r ∷ rounds) w =
    let (result, w') = process_next runner r.cancelled r.now r.failed_at w in
    elim result [
      | err e ↦ ([], w')
      | ok p ↦
          let rest = run_worker runner rounds w' in
          if p.processed
          then (p ∷ rest.0, rest.1)
          else if r.done
          then (p ∷ [], w')
          else (p ∷ rest.0, rest.1)
    ]
