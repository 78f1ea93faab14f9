-- ===== src/Job/Trace/Invariant.antt =====
-- What holds of every row after any history.
use cloud_box.Base.{
  ℕ, ◌≤◌, ◌<◌, String, ◌≡◌, refl, true, Option, none, some, List, [], ◌∷◌, arith, is_some, All,
  All-append, eq_iff, str_eq, Bool-cases, Option-cases, inl, inr,
}
use cloud_box.Sql.{find_where}
use cloud_box.Sql.Laws.{All-update}
use cloud_box.Sql.Keys.{Unique, update-Unique, insert-Unique}
use cloud_box.Job.Model.{Job, Store, queued, running, succeeded, failed, is_running}
use cloud_box.Job.Repository.{
  has_id, is_queued_with, claimed, runs, succeeds, retried, insert_job, claim_due, finish, retry,
  first_due, with_defaults, row_allowed, owner_exists,
}
use cloud_box.Job.Service.{new_job}
use cloud_box.Job.Trace.{
  Event, schedules, claims, finishes, retries, registers, passes, step, run, start,
}

pub record IsSound (j : Job) : Type 0 where
  pub attempts_bounded : j.attempts ≤ j.max_attempts
  pub limit_pos : 0 < j.max_attempts
  pub locked_iff_running : is_some j.locked_at ≡ is_running j.status
  pub queued_has_attempts : j.status ≡ queued → j.attempts < j.max_attempts
  pub running_counted : j.status ≡ running → 0 < j.attempts
  pub succeeded_clean : j.status ≡ succeeded → (0 < j.attempts) × (j.last_error ≡ none)
  pub failed_exhausted :
      j.status ≡ failed → (j.attempts ≡ j.max_attempts) × (is_some j.last_error ≡ true)

abbrev pub job_id : Job → String
job_id j = j.id

-- The rows are sound, and no two have one identifier.
pub record IsQueue (s : Store) : Type 0 where
  pub sound : All IsSound s.jobs
  pub unique : Unique str_eq eq_iff job_id s.jobs

claimed-IsSound :
    (id : String) (clock : ℕ) (j : Job)
    → is_queued_with id j ≡ true
    → IsSound j
    → IsSound (claimed clock j)
claimed-IsSound id clock j t h = ground arith

succeeds-IsSound :
    (id : String) (clock : ℕ) (j : Job) → runs id j ≡ true → IsSound j → IsSound (succeeds clock j)
succeeds-IsSound id clock j t h = ground arith

retried-IsSound :
    (id : String) (clock : ℕ) (e : String) (next : ℕ) (j : Job)
    → runs id j ≡ true
    → IsSound j
    → IsSound (retried clock e next j)
retried-IsSound id clock e next j t h = ground arith

new_job-IsSound :
    (user : Option ℕ) (id kind payload : String) (run_at clock : ℕ)
    → IsSound (with_defaults clock (new_job user id kind payload run_at))
new_job-IsSound user id kind payload run_at clock = ground arith

module _ (s : Store) (h : IsQueue s) where
  insert_job-IsQueue :
      (user : Option ℕ) (id kind payload : String) (run_at : ℕ)
      → IsQueue (insert_job (new_job user id kind payload run_at) s).1
  unfolding insert_job
  insert_job-IsQueue user id kind payload run_at =
      let j = new_job user id kind payload run_at in
      elim (Option-cases (find_where (has_id id) s.jobs)) [
        | inr (k, e) ↦ rw e h
        | inl e ↦ rw e (elim (Bool-cases (row_allowed j)) [
          | inr t ↦ rw t h
          | inl t ↦ rw t (elim (Bool-cases (owner_exists user s.users)) [
            | inr u ↦ rw u h
            | inl u ↦ rw u (record {
              sound =
                  All-append IsSound s.jobs _ h.sound
                    (new_job-IsSound user id kind payload run_at s.clock, tt);
              unique = insert-Unique str_eq eq_iff job_id s.jobs _ e h.unique;
            })
          ])
        ])
      ]

  claim_due-IsQueue : (due : Option Job) → IsQueue (claim_due due s).1
  unfolding claim_due
  claim_due-IsQueue none = h
  claim_due-IsQueue (some due) = record {
    sound = All-update IsSound _ _ s.jobs (λ j t. claimed-IsSound due.id s.clock j t) h.sound;
    unique = update-Unique str_eq eq_iff job_id _ _ s.jobs (λ j. refl) h.unique;
  }

  finish-IsQueue : (id : String) → IsQueue (finish id s).1
  unfolding finish
  finish-IsQueue id = record {
    sound = All-update IsSound _ _ s.jobs (λ j t. succeeds-IsSound id s.clock j t) h.sound;
    unique = update-Unique str_eq eq_iff job_id _ _ s.jobs (λ j. refl) h.unique;
  }

  retry-IsQueue : (id e : String) (next : ℕ) → IsQueue (retry id e next s).1
  unfolding retry
  retry-IsQueue id e next = record {
    sound = All-update IsSound _ _ s.jobs (λ j t. retried-IsSound id s.clock e next j t) h.sound;
    unique = update-Unique str_eq eq_iff job_id _ _ s.jobs (λ j. refl) h.unique;
  }

pub step-IsQueue : (s : Store) (e : Event) → IsQueue s → IsQueue (step s e)
unfolding step
step-IsQueue s (schedules user id kind payload run_at) h =
    insert_job-IsQueue s h user id kind payload run_at
step-IsQueue s (claims now) h = claim_due-IsQueue s h (first_due now s.jobs)
step-IsQueue s (finishes id) h = finish-IsQueue s h id
step-IsQueue s (retries id e next) h = retry-IsQueue s h id e next
step-IsQueue s (registers user) h = record { sound = h.sound; unique = h.unique }
step-IsQueue s (passes n) h = record { sound = h.sound; unique = h.unique }

pub run-IsQueue : (s : Store) (es : List Event) → IsQueue s → IsQueue (run s es)
unfolding run
run-IsQueue s [] h = h
run-IsQueue s (e ∷ es) h = run-IsQueue (step s e) es (step-IsQueue s e h)

-- After any history of an empty table, whatever the order in which workers and requests send their
-- statements: identifiers are unique, no job has been started more often than its limit allows, a
-- job is locked exactly while it runs, a queued job has an attempt left, a running job has been
-- counted, a succeeded job holds no error, and a failed job has used up its attempts and holds one.
pub run-start-IsQueue : (clock : ℕ) (es : List Event) → IsQueue (run (start clock) es)
run-start-IsQueue clock es = run-IsQueue (start clock) es (record { sound = tt; unique = tt })
