-- ===== src/Job/Round.antt =====
-- One round of a worker, from the claim to the recorded outcome.
use cloud_box.Base.{
  and_left, subst, Option, Bool, ℕ, ◌+◌, String, ◌≡◌, refl, sym, ap, ◌∙◌, leb, Bool-cases, inl, inr,
  if◌then◌else◌, true, none, some, arith, str_eq, eq_iff, str_eq→eq, str_eq_refl,
}
use cloud_box.Fail.{Error, Result, ok, err, message, detailed, job_type_not_registered}
use cloud_box.Exec.{World, works, raise, on_error, call-works, query-works, ◌>>=◌}
use cloud_box.Sql.{find_where, affected}
use cloud_box.Sql.Laws.{find_where-update, returning-find_where}
use cloud_box.Sql.Keys.{find_where-keyed, affected-keyed}
use cloud_box.Job.Model.{Job, Store, Status, is_running, queued, running, succeeded, failed}
use cloud_box.Job.Repository.{
  has_id, runs, succeeds, retried, claim_next, finish, retry, retry_or_fail, mark_succeeded,
}
use cloud_box.Job.Runner.{Runner, Handler, report, run_handler, record_outcome, process_next}
use cloud_box.Job.Trace.Invariant.{IsQueue, job_id}
use cloud_box.Job.Trace.Final.{row}
use cloud_box.Job.Claim.{claim_next_lem}

-- The row of a job that ran, by what its handler returned.
abbrev pub settled : Runner → ℕ → ℕ → Result (Unit {0}) → Job → Job
settled runner clock failed_at (ok done) j = record j {
  status = succeeded;
  locked_at = none;
  last_error = none;
  updated_at = clock;
}
settled runner clock failed_at (err e) j =
    if leb j.max_attempts j.attempts
    then record j {
      status = failed;
      locked_at = none;
      last_error = some (message e);
      updated_at = clock;
    }
    else record j {
      status = queued;
      run_at = failed_at + runner.retry_delay j.attempts;
      locked_at = none;
      last_error = some (message e);
      updated_at = clock;
    }

-- What becomes of a job that a worker has: its type has no handler, which is an error, or it has one,
-- which makes `u` of the table `t` and returns this outcome.
pub data Handled (runner : Runner) (job : Job) (t u : Store) (outcome : Result (Unit {0}))
    : Type 0 where
  unregistered :
      runner.handlers job.job_type ≡ none
      → u ≡ t
      → outcome ≡ err (detailed job_type_not_registered job.job_type)
      → Handled runner job t u outcome
  ran :
      (handler : Handler)
      → runner.handlers job.job_type ≡ some handler
      → handler job (works t) ≡ (outcome, works u)
      → Handled runner job t u outcome

run_handler_lem :
    (runner : Runner) (job : Job) (t u : Store) (outcome : Result (Unit {0}))
    → Handled runner job t u outcome
    → run_handler (runner.handlers job.job_type) job (works t) ≡ (outcome, works u)
unfolding run_handler raise
run_handler_lem runner job t u outcome (unregistered n same e) = rw (n, same, e) refl
run_handler_lem runner job t u outcome (ran handler n e) = rw n e

retried-settled :
    (runner : Runner) (clock failed_at : ℕ) (e : Error) (j : Job)
    → retried clock (message e) (failed_at + runner.retry_delay j.attempts) j
      ≡ settled runner clock failed_at (err e) j
retried-settled runner clock failed_at e j = elim (Bool-cases (leb j.max_attempts j.attempts)) [
  | inl t ↦ rw t refl
  | inr t ↦ rw t refl
]

module _ (u : Store) (q : IsQueue u) (j : Job) (h : row j.id u ≡ some j)
    (r : is_running j.status ≡ true) where
  running_found : find_where (runs j.id) u.jobs ≡ some j
  running_found =
      find_where-keyed str_eq eq_iff job_id (runs j.id) u.jobs j q.unique h
        (λ k t. str_eq→eq k.id j.id (and_left _ _ t)) (ground (arith, str_eq_refl j.id))

  one_running : affected (runs j.id) u.jobs ≡ 1
  one_running =
      affected-keyed str_eq eq_iff job_id (runs j.id) u.jobs j q.unique
        (λ k t. str_eq→eq k.id j.id (and_left _ _ t)) running_found

  mark_works : mark_succeeded j.id (works u) ≡ (ok true, works (finish j.id u).1)
  unfolding mark_succeeded ◌>>=◌
  mark_works = rw (call-works, query-works, one_running) refl

  row-finish : row j.id (finish j.id u).1 ≡ some (succeeds u.clock j)
  unfolding finish
  row-finish =
      rw
        (
          find_where-update (runs j.id) (has_id j.id) (succeeds u.clock) u.jobs (λ k. refl),
          h,
          str_eq_refl,
          r,
        )
        refl

  retry-works :
      (e : String) (t : ℕ)
      → retry_or_fail j.id e t (works u) ≡ (ok (retried u.clock e t j), works (retry j.id e t u).1)
  unfolding retry_or_fail on_error
  retry-works e t =
      rw (call-works, returning-find_where (runs j.id) (retried u.clock e t) u.jobs, running_found)
        refl

  row-retry : (e : String) (t : ℕ) → row j.id (retry j.id e t u).1 ≡ some (retried u.clock e t j)
  unfolding retry
  row-retry e t =
      rw
        (
          find_where-update (runs j.id) (has_id j.id) (retried u.clock e t) u.jobs (λ k. refl),
          h,
          str_eq_refl,
          r,
        )
        refl

  -- Recording the outcome of a running job works and leaves its row settled.
  record_outcome_lem :
      (runner : Runner) (failed_at : ℕ) (outcome : Result (Unit {0}))
      → ((record_outcome runner failed_at j outcome (works u)).0 ≡ ok (report true none))
        × (row j.id (record_outcome runner failed_at j outcome (works u)).1.store
            ≡ some (settled runner u.clock failed_at outcome j))
  unfolding record_outcome ◌>>=◌
  record_outcome_lem runner failed_at (ok done) = rw mark_works (refl, row-finish)
  record_outcome_lem runner failed_at (err e) =
      rw (retry-works (message e) (failed_at + runner.retry_delay j.attempts)) (
        refl,
        row-retry (message e) (failed_at + runner.retry_delay j.attempts)
            ∙ ap some (retried-settled runner u.clock failed_at e j),
      )

-- The status of the job that a claim returns.
abbrev status_of : Result Job × World Store → Option Status
status_of (ok j, w) = some j.status
status_of (err e, w) = none

-- What a claim returns is running.
claimed_running :
    (now : ℕ) (s t : Store) (job : Job)
    → IsQueue s
    → claim_next now (works s) ≡ (ok job, works t)
    → is_running job.status ≡ true
claimed_running now s t job q e = elim (claim_next_lem now s q) [
  | inl (none_ready, f) ↦ cc (ap status_of e, ap status_of f)
  | inr (due, v, first, f, row_of_due, others) ↦
      let same : some job.status ≡ some running = sym (ap status_of e) ∙ ap status_of f in
      subst (λ o. runs_now o ≡ true) (sym same) refl
]
  where
    runs_now : Option Status → Bool
    runs_now none = true
    runs_now (some t) = is_running t

-- A worker's round from the claim on, where the database works on a well-formed queue. `job` is what
-- the claim returns, `t` the table that it leaves, `u` the table that the handler leaves, which may
-- change it but for the row of the job that it runs. The round reports a processed job and no error.
-- If the handler returns no error, the row of the job has succeeded, with no lock and no error. If it
-- returns one, or no handler is registered for the type, the row holds the message and no lock: it has
-- failed if its attempts are used up, and else is queued again, after the delay.
pub process_next_lem :
    (runner : Runner) (now failed_at : ℕ) (s t u : Store) (job : Job) (outcome : Result (Unit {0}))
    → IsQueue s
    → claim_next now (works s) ≡ (ok job, works t)
    → Handled runner job t u outcome
    → IsQueue u
    → row job.id u ≡ some job
    → ((process_next runner none now failed_at (works s)).0 ≡ ok (report true none))
      × (row job.id (process_next runner none now failed_at (works s)).1.store
          ≡ some (settled runner u.clock failed_at outcome job))
unfolding process_next ◌>>=◌
process_next_lem runner now failed_at s t u job outcome q e handled qu h =
    rw (e, run_handler_lem runner job t u outcome handled)
      (record_outcome_lem u qu job h (claimed_running now s t job q e) runner failed_at outcome)
