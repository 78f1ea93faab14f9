-- ===== src/Job/Repository.antt =====
-- internal/job/repository.go. Each function is one statement on `background_jobs`.
use cloud_box.Base.{
  ℕ, ◌+◌, String, Bool, true, false, ◌&&◌, ◌||◌, not, Option, none, some, List, [], ◌∷◌, leb, ltb,
  ◌==◌, str_eq, is_some, if◌then◌else◌,
}
use cloud_box.Fail.{
  Error, Result, ok, err, external, job_not_found, no_job_available, job_not_running,
}
use cloud_box.Exec.{Exec, pure, call, query, on_error, ◌>>=◌, ◌>>◌}
use cloud_box.Sql.{find_where, update_where, returning, affected, insert_row}
use cloud_box.Text.{is_blank}
use cloud_box.Job.Model.{Job, Store, queued, running, succeeded, failed, is_queued, is_running}

-- WHERE id = $1
abbrev pub has_id : String → Job → Bool
has_id id j = str_eq j.id id

-- WHERE user_id = $2, which no row with a NULL meets
abbrev pub owned_by : ℕ → Job → Bool
owned_by user j = elim j.user_id [ none ↦ false | some u ↦ u == user ]

-- WHERE id = $1 AND user_id = $2
abbrev pub has_id_and_user : String → ℕ → Job → Bool
has_id_and_user id user j = has_id id j && owned_by user j

-- WHERE status = 'queued' AND run_at <= $3
abbrev pub is_due : ℕ → Job → Bool
is_due now j = is_queued j.status && leb j.run_at now

-- WHERE id = $2 AND status = 'running'
abbrev pub runs : String → Job → Bool
runs id j = has_id id j && is_running j.status

-- ORDER BY run_at, created_at
abbrev pub earlier : Job → Job → Bool
earlier j k = ltb j.run_at k.run_at || (j.run_at == k.run_at && ltb j.created_at k.created_at)

-- `errors.Is(err, sql.ErrNoRows)` in scanJob.
abbrev pub scan_job : Option Job → Result Job
scan_job none = err job_not_found
scan_job (some j) = ok j

unfoldable pub find_by_id : String → Exec Store Job
find_by_id id = query (λ s. scan_job (find_where (has_id id) s.jobs))

unfoldable pub find_by_id_for_user : String → ℕ → Exec Store Job
find_by_id_for_user id user = query (λ s. scan_job (find_where (has_id_and_user id user) s.jobs))

-- The CHECK clauses of the table that an INSERT of these columns may break.
abbrev pub row_allowed : Job → Bool
row_allowed j = not (is_blank j.job_type) && ltb 0 j.max_attempts

-- The columns that the statement does not name take their defaults.
abbrev pub with_defaults : ℕ → Job → Job
with_defaults clock j = record j {
  attempts = 0;
  locked_at = none;
  last_error = none;
  created_at = clock;
  updated_at = clock;
}

-- REFERENCES users(id), which NULL satisfies
abbrev pub owner_exists : Option ℕ → List ℕ → Bool
owner_exists none users = true
owner_exists (some u) users = is_some (find_where (λ k. k == u) users)

unfoldable pub insert_job : Job → Store → Result (Unit {0}) × Store
insert_job j s =
    if is_some (find_where (has_id j.id) s.jobs)
    then (err (external "UNIQUE constraint failed: background_jobs.id"), s)
    else if not (row_allowed j)
    then (err (external "CHECK constraint failed: background_jobs"), s)
    else if owner_exists j.user_id s.users
    then (ok tt, record s { jobs = insert_row (with_defaults s.clock j) s.jobs })
    else (err (external "FOREIGN KEY constraint failed"), s)

unfoldable pub create : Job → Exec Store Job
create j = do call (insert_job j); find_by_id j.id

-- SELECT ... WHERE status = 'queued' AND run_at <= $3 ORDER BY run_at, created_at LIMIT 1
unfoldable pub first_due : ℕ → List Job → Option Job
first_due now [] = none
first_due now (j ∷ jobs) =
    let rest = first_due now jobs in
    if is_due now j
    then elim rest [ none ↦ some j | some k ↦ if earlier k j then some k else some j ]
    else rest

-- SET status = 'running', attempts = attempts + 1, ...
abbrev pub claimed : ℕ → Job → Job
claimed clock j = record j {
  status = running;
  attempts = j.attempts + 1;
  locked_at = some clock;
  updated_at = clock;
}

-- WHERE id = (SELECT ...) AND status = 'queued'
abbrev pub is_queued_with : String → Job → Bool
is_queued_with id j = has_id id j && is_queued j.status

-- A subselect with no row gives `id = NULL`, which no row meets.
unfoldable pub claim_due : Option Job → Store → Result Job × Store
claim_due none s = (err job_not_found, s)
claim_due (some due) s = (
  scan_job (returning (is_queued_with due.id) (claimed s.clock) s.jobs),
  record s { jobs = update_where (is_queued_with due.id) (claimed s.clock) s.jobs },
)

unfoldable pub claim : ℕ → Store → Result Job × Store
unfolding first_due claim_due
claim now s = claim_due (first_due now s.jobs) s

-- `if errors.Is(err, ErrJobNotFound) { return nil, e }`
abbrev pub not_found_as : Error → Error → Error
not_found_as e job_not_found = e
not_found_as e other = other

unfoldable pub claim_next : ℕ → Exec Store Job
unfolding claim
claim_next now = on_error (not_found_as no_job_available) (call (claim now))

-- SET status = 'succeeded', locked_at = NULL, last_error = NULL
abbrev pub succeeds : ℕ → Job → Job
succeeds clock j = record j {
  status = succeeded;
  locked_at = none;
  last_error = none;
  updated_at = clock;
}

unfoldable pub finish : String → Store → Result ℕ × Store
finish id s = (
  ok (affected (runs id) s.jobs),
  record s { jobs = update_where (runs id) (succeeds s.clock) s.jobs },
)

-- `result.RowsAffected()` may fail too.
unfoldable pub mark_succeeded : String → Exec Store Bool
unfolding finish
mark_succeeded id = do n ← call (finish id); rows ← query (λ s. ok n); pure (rows == 1)

-- CASE WHEN attempts >= max_attempts
abbrev pub is_exhausted : Job → Bool
is_exhausted j = leb j.max_attempts j.attempts

abbrev pub retried : ℕ → String → ℕ → Job → Job
retried clock last_error next_run_at j = record j {
  status = if is_exhausted j then failed else queued;
  run_at = if is_exhausted j then j.run_at else next_run_at;
  locked_at = none;
  last_error = some last_error;
  updated_at = clock;
}

unfoldable pub retry : String → String → ℕ → Store → Result Job × Store
retry id last_error next_run_at s = (
  scan_job (returning (runs id) (retried s.clock last_error next_run_at) s.jobs),
  record s { jobs = update_where (runs id) (retried s.clock last_error next_run_at) s.jobs },
)

unfoldable pub retry_or_fail : String → String → ℕ → Exec Store Job
unfolding retry
retry_or_fail id last_error next_run_at =
    on_error (not_found_as job_not_running) (call (retry id last_error next_run_at))
