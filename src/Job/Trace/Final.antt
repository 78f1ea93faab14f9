-- ===== src/Job/Trace/Final.antt =====
-- The row of one job along a history.
use cloud_box.Base.{
  ℕ, String, ◌≡◌, refl, Bool, true, false, Option, none, some, List, [], ◌∷◌, arith, is_some,
  eq_iff, str_eq, Bool-cases, inl, inr, if◌then◌else◌, ap, ◌∙◌,
}
use mathlib.Core.Option
use cloud_box.Job.Service.{new_job}
use cloud_box.Job.Trace.Invariant.{job_id}
use cloud_box.Sql.{find_where}
use cloud_box.Sql.Laws.{find_where-update}
use cloud_box.Sql.Keys.{find_where-insert}
use cloud_box.Job.Model.{Job, Status, Store, succeeded, failed}
use cloud_box.Job.Repository.{
  has_id, owner_exists, is_queued_with, claimed, runs, succeeds, retried, insert_job, claim_due,
  first_due, row_allowed,
}
use cloud_box.Job.Trace.{Event, schedules, claims, finishes, retries, registers, passes, step, run}

-- The row of an identifier.
abbrev pub row : String → Store → Option Job
row id s = find_where (has_id id) s.jobs

abbrev pub is_final : Status → Bool
is_final succeeded = true
is_final failed = true
is_final _ = false

-- What a claim does to a row, where `due` is the job that it takes.
unfoldable pub claim_row : Option Job → ℕ → Job → Job
claim_row none clock j = j
claim_row (some due) clock j = if is_queued_with due.id j then claimed clock j else j

-- What one event does to the row of a job.
unfoldable pub row_step : Store → Event → Job → Job
unfolding claim_row first_due
row_step s (claims now) j = claim_row (first_due now s.jobs) s.clock j
row_step s (finishes id) j = if runs id j then succeeds s.clock j else j
row_step s (retries id e next) j = if runs id j then retried s.clock e next j else j
row_step s _ j = j

some-map : (f : Job → Job) (o : Option Job) (a : Job) → o ≡ some a → Option.map f o ≡ some (f a)
some-map f o a e = rw e refl

row-insert_job :
    (id : String) (s : Store) (new j : Job)
    → row id s ≡ some j
    → row id (insert_job new s).1 ≡ some j
unfolding insert_job
row-insert_job id s new j h = elim (Bool-cases (is_some (find_where (has_id new.id) s.jobs))) [
  | inl e ↦ rw e h
  | inr e ↦ rw e (elim (Bool-cases (row_allowed new)) [
    | inl t ↦ rw t (elim (Bool-cases (owner_exists new.user_id s.users)) [
      | inl u ↦ rw u (rw (find_where-insert str_eq eq_iff job_id (has_id id) s.jobs _, h) refl)
      | inr u ↦ rw u h
    ])
    | inr t ↦ rw t h
  ])
]

row-claim_due :
    (id : String) (s : Store) (due : Option Job) (j : Job)
    → row id s ≡ some j
    → row id (claim_due due s).1 ≡ some (claim_row due s.clock j)
unfolding claim_due claim_row
row-claim_due id s none j h = h
row-claim_due id s (some due) j h =
    find_where-update (is_queued_with due.id) (has_id id) (claimed s.clock) s.jobs (λ r. refl)
    ∙ some-map _ _ j h

-- An event changes the row of a job as `row_step` says, and removes none.
pub row-step :
    (id : String) (s : Store) (e : Event) (j : Job)
    → row id s ≡ some j
    → row id (step s e) ≡ some (row_step s e j)
unfolding step row_step
row-step id s (schedules user new kind payload run_at) j h =
    row-insert_job id s (new_job user new kind payload run_at) j h
row-step id s (claims now) j h = row-claim_due id s (first_due now s.jobs) j h
row-step id s (finishes other) j h =
    find_where-update (runs other) (has_id id) (succeeds s.clock) s.jobs (λ r. refl)
    ∙ some-map _ _ j h
row-step id s (retries other e next) j h =
    find_where-update (runs other) (has_id id) (retried s.clock e next) s.jobs (λ r. refl)
    ∙ some-map _ _ j h
row-step id s (registers user) j h = h
row-step id s (passes n) j h = h

claim_row_final :
    (due : Option Job) (clock : ℕ) (j : Job) → is_final j.status ≡ true → claim_row due clock j ≡ j
unfolding claim_row
claim_row_final none clock j f = refl
claim_row_final (some due) clock j f = ground arith

row_step_final : (s : Store) (e : Event) (j : Job) → is_final j.status ≡ true → row_step s e j ≡ j
unfolding row_step
row_step_final s (claims now) j f = claim_row_final (first_due now s.jobs) s.clock j f
row_step_final s (finishes id) j f = ground arith
row_step_final s (retries id e next) j f = ground arith
row_step_final s _ j f = refl

-- A job that has succeeded or failed for good is never touched again: whatever statements follow,
-- its row stays as it is, in every column.
pub run_final :
    (id : String) (s : Store) (es : List Event) (j : Job)
    → row id s ≡ some j
    → is_final j.status ≡ true
    → row id (run s es) ≡ some j
unfolding run
run_final id s [] j h f = h
run_final id s (e ∷ es) j h f =
    run_final id (step s e) es j (row-step id s e j h ∙ ap some (row_step_final s e j f)) f
