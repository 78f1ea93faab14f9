-- ===== src/Job/Claim.antt =====
-- What `ClaimNext` returns and writes, where the calls of the database work.
use cloud_box.Base.{
  and_left, ℕ, String, ◌≡◌, ◌≢◌, refl, sym, ◌∙◌, true, false, some, ◌≤◌, ◌<◌, ◌+◌, arith, All,
  All-map, Has, ◌⊎◌, inl, inr, Bool-cases, Option-cases, if◌then◌else◌, str_eq, eq_iff, str_eq→eq,
  str_eq_refl, ap, subst,
}
use cloud_box.Fail.{ok, err, no_job_available}
use cloud_box.Exec.{works, on_error, call-works}
use cloud_box.Sql.{find_where}
use cloud_box.Sql.Laws.{find_where-update, returning-find_where, find_where-holds}
use cloud_box.Sql.Keys.{Has-find_where, find_where-keyed}
use cloud_box.Job.Model.{Job, Store, Status, queued, running, succeeded, failed, is_queued}
use cloud_box.Job.Repository.{
  has_id, is_due, is_queued_with, earlier, first_due, claim, claim_next, claimed,
}
use cloud_box.Job.Trace.Invariant.{IsQueue, job_id}
use cloud_box.Job.Trace.Final.{row}
use cloud_box.Job.Choice.{Picks, Waits, first_due-Picks, first_due-Has}

-- The job is queued, and its time has come.
abbrev pub IsReady : ℕ → Job → Type 0
IsReady now j = (j.status ≡ queued) × (j.run_at ≤ now)

-- `j` is to run before `k`, or it was made no later than `k` for the same time.
abbrev pub NoLater : Job → Job → Type 0
NoLater j k = (j.run_at < k.run_at) ⊎ ((j.run_at ≡ k.run_at) × (j.created_at ≤ k.created_at))

-- The first job in the order of `run_at` and `created_at` among those that are ready.
pub record IsFirstDue (now : ℕ) (s : Store) (j : Job) : Type 0 where
  pub present : Has j s.jobs
  pub ready : IsReady now j
  pub first : All (λ k. (¬ IsReady now k) ⊎ NoLater j k) s.jobs

-- The job with a worker: it runs, locked at the time `clock`, and this attempt is counted.
abbrev pub started : ℕ → Job → Job
started clock j = record j {
  status = running;
  attempts = j.attempts + 1;
  locked_at = some clock;
  updated_at = clock;
}

status_queued : (t : Status) → is_queued t ≡ true → t ≡ queued
status_queued queued h = refl
status_queued running h = cc
status_queued succeeded h = cc
status_queued failed h = cc

due-IsReady : (now : ℕ) (j : Job) → is_due now j ≡ true → IsReady now j
due-IsReady now j h = (status_queued j.status (and_left _ _ h), ground arith)

IsReady-due : (now : ℕ) (j : Job) → IsReady now j → is_due now j ≡ true
IsReady-due now j (t, le) = rw t (ground arith)

not_ready : (now : ℕ) (j : Job) → is_due now j ≡ false → ¬ IsReady now j
not_ready now j h r = cc (h, IsReady-due now j r)

Waits-NoLater : (now : ℕ) (j k : Job) → Waits now j k → (¬ IsReady now k) ⊎ NoLater j k
Waits-NoLater now j k w = elim (Bool-cases (is_due now k)) [
  | inr t ↦ inl (not_ready now k t)
  | inl t ↦ let after : earlier k j ≡ false = w t in inr (ground arith)
]

module _ (now : ℕ) (s : Store) (q : IsQueue s) (due : Job)
    (e : first_due now s.jobs ≡ some due) where
  pub due_first : IsFirstDue now s due
  due_first =
      let p : Picks now s.jobs (some due) =
        subst (Picks now s.jobs) e (first_due-Picks now s.jobs) in
      record {
        present = first_due-Has now s.jobs due e;
        ready = due-IsReady now due p.0;
        first = All-map _ _ (λ k. Waits-NoLater now due k) s.jobs p.1;
      }

  due_row : row due.id s ≡ some due
  due_row = Has-find_where str_eq eq_iff job_id s.jobs due q.unique due_first.present

  due_matches : is_queued_with due.id due ≡ true
  due_matches = ground (arith, str_eq_refl due.id, ap is_queued due_first.ready.0)

  found : find_where (is_queued_with due.id) s.jobs ≡ some due
  found =
      find_where-keyed str_eq eq_iff job_id (is_queued_with due.id) s.jobs due q.unique due_row
        (λ r t. str_eq→eq r.id due.id (and_left _ _ t)) due_matches

  pub claim-works : claim_next now (works s) ≡ (ok (claimed s.clock due), works (claim now s).1)
  unfolding claim_next on_error
  claim-works =
      rw
        (
          call-works,
          e,
          returning-find_where (is_queued_with due.id) (claimed s.clock) s.jobs,
          found,
        )
        refl

  pub claim-row_of_due : row due.id (claim now s).1 ≡ some (claimed s.clock due)
  unfolding claim
  claim-row_of_due =
      rw
        (
          e,
          find_where-update (is_queued_with due.id) (has_id due.id) (claimed s.clock) s.jobs
              (λ r. refl),
          due_row,
          due_matches,
        )
        refl

  claim_other_rows : (id : String) → id ≢ due.id → row id (claim now s).1 ≡ row id s
  unfolding claim
  claim_other_rows id apart =
      rw
        (
          e,
          find_where-update (is_queued_with due.id) (has_id id) (claimed s.clock) s.jobs
              (λ r. refl),
        )
        (elim (Option-cases (row id s)) [
          | inl n ↦ rw n refl
          | inr (r, f) ↦ rw f (ap some (untouched r f))
        ])
    where
      untouched :
          (r : Job)
          → row id s ≡ some r
          → (if is_queued_with due.id r then claimed s.clock r else r) ≡ r
      untouched r f = elim (Bool-cases (is_queued_with due.id r)) [
        | inr t ↦ rw t refl
        | inl t ↦
            let mine : r.id ≡ id = str_eq→eq r.id id (find_where-holds (has_id id) s.jobs r f) in
            let theirs : r.id ≡ due.id = str_eq→eq r.id due.id (and_left _ _ t) in
            absurd (apart (sym mine ∙ theirs))
      ]

-- Where the database works, a claim on a well-formed queue ends in one of two ways. No job is queued
-- with its time come: then it says so and changes nothing. Or there is one: then it takes the first of
-- them in the order of `run_at`, and of `created_at` for the same time; it returns this job as running,
-- locked now and with one attempt more, so does its row read, and every other row is as it was.
pub claim_next_lem :
    (now : ℕ) (s : Store)
    → IsQueue s
    → (All (λ j. ¬ IsReady now j) s.jobs
        × (claim_next now (works s) ≡ (err no_job_available, works s)))
      ⊎ ((due : Job) × (t : Store) × IsFirstDue now s due
          × (claim_next now (works s) ≡ (ok (started s.clock due), works t))
          × (row due.id t ≡ some (started s.clock due))
          × ((id : String) → id ≢ due.id → row id t ≡ row id s))
unfolding claim_next on_error
claim_next_lem now s q = elim (Option-cases (first_due now s.jobs)) [
  | inl e ↦ inl (
    All-map _ _ (λ j. not_ready now j) s.jobs
        (subst (Picks now s.jobs) e (first_due-Picks now s.jobs)),
    rw (call-works, e) refl,
  )
  | inr (due, e) ↦ inr (
    due,
    (claim now s).1,
    due_first now s q due e,
    claim-works now s q due e,
    claim-row_of_due now s q due e,
    claim_other_rows now s q due e,
  )
]
