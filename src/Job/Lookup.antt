-- ===== src/Job/Lookup.antt =====
-- Scheduling a job for a user and looking it up again.
use cloud_box.Base.{
  and_left, ℕ, pos, zero, suc, is_some, ◌==◌, String, ◌≡◌, ◌≢◌, refl, true, false, none, some,
  str_eq, eq_iff, str_eq_refl, Bool-cases, inl, inr, if◌then◌else◌,
}
use cloud_box.Fail.{ok, err, job_not_found}
use cloud_box.Exec.{World, works, call-works, query-works, ◌>>=◌}
use cloud_box.Sql.{find_where, insert_row}
use cloud_box.Sql.Laws.{find_where-narrow}
use cloud_box.Sql.Keys.{find_where-insert}
use cloud_box.Text.{trim_space, is_empty, is_blank}
use cloud_box.Text.Laws.{trim_space-StartsClean, StartsClean-is_blank}
use cloud_box.Job.Model.{Job, Store, queued}
use cloud_box.Job.Repository.{
  has_id, has_id_and_user, insert_job, create, find_by_id, find_by_id_for_user, scan_job,
}
use cloud_box.Job.Service.{new_job, run_time, schedule_as, schedule_for_user, get_for_user}
use cloud_box.Job.Trace.Invariant.{job_id}

-- The row that scheduling adds.
abbrev pub scheduled : Store → ℕ → String → String → String → ℕ → ℕ → Job
scheduled s user id kind payload run_at now = record {
  id = id;
  user_id = some user;
  job_type = trim_space kind;
  payload = payload;
  status = queued;
  attempts = 0;
  max_attempts = 3;
  run_at = if run_at == 0 then now else run_at;
  locked_at = none;
  last_error = none;
  created_at = s.clock;
  updated_at = s.clock;
}

abbrev pub with_job : Store → Job → Store
with_job s j = record s { jobs = insert_row j s.jobs }

kind_allowed :
    (kind : String) → is_empty (trim_space kind) ≡ false → is_blank (trim_space kind) ≡ false
kind_allowed kind h = StartsClean-is_blank (trim_space kind) (trim_space-StartsClean kind) h

-- A positive number is taken as the identifier of a user.
schedule_as_user :
    (user : ℕ) (id kind payload : String) (run_at now : ℕ) (w : World Store)
    → user ≢ 0
    → schedule_for_user (pos user) kind (ok payload) run_at now id w
      ≡ schedule_as (some user) kind (ok payload) run_at now id w
unfolding schedule_for_user
schedule_as_user zero id kind payload run_at now w known = absurd (known refl)
schedule_as_user (suc n) id kind payload run_at now w known = refl

get_as_user :
    (asker : ℕ) (id : String) (w : World Store)
    → asker ≢ 0
    → trim_space id ≡ id
    → is_empty id ≡ false
    → get_for_user (pos asker) id w ≡ find_by_id_for_user id asker w
unfolding get_for_user
get_as_user zero id w known trimmed named = absurd (known refl)
get_as_user (suc n) id w known trimmed named = rw (trimmed, named) refl

module _ (s : Store) (user : ℕ) (id kind payload : String) (run_at now : ℕ)
    (fresh : find_where (has_id id) s.jobs ≡ none) (named : is_empty (trim_space kind) ≡ false)
    (user_row : is_some (find_where (λ k. k == user) s.users) ≡ true) where
  abbrev job : Job
  job = scheduled s user id kind payload run_at now

  inserted :
      insert_job (new_job (some user) id (trim_space kind) payload (run_time now run_at)) s
      ≡ (ok tt, with_job s job)
  unfolding insert_job
  inserted = rw (fresh, kind_allowed kind named, user_row) refl

  found : find_where (has_id id) (with_job s job).jobs ≡ some job
  found =
      rw (find_where-insert str_eq eq_iff job_id (has_id id) s.jobs job, fresh, str_eq_refl id) refl

  create-works :
      create (new_job (some user) id (trim_space kind) payload (run_time now run_at)) (works s)
      ≡ (ok job, works (with_job s job))
  unfolding create find_by_id ◌>>=◌
  create-works = rw (call-works, inserted, query-works, found) refl

  schedule_works :
      schedule_as (some user) kind (ok payload) run_at now id (works s)
      ≡ (ok job, works (with_job s job))
  unfolding schedule_as ◌>>=◌
  schedule_works = rw (named, create-works) refl

  -- Before the insert no row has the identifier, whoever asks.
  absent_for : (asker : ℕ) → find_where (has_id_and_user id asker) s.jobs ≡ none
  absent_for asker =
      find_where-narrow (has_id id) (has_id_and_user id asker) s.jobs fresh (λ r t. and_left _ _ t)

  looked_up :
      (asker : ℕ)
      → scan_job (find_where (has_id_and_user id asker) (with_job s job).jobs)
        ≡ (if user == asker then ok job else err job_not_found)
  looked_up asker =
      rw
        (
          find_where-insert str_eq eq_iff job_id (has_id_and_user id asker) s.jobs job,
          absent_for asker,
          str_eq_refl id,
        )
        (elim (Bool-cases (user == asker)) [ inl t ↦ rw t refl | inr t ↦ rw t refl ])

  get_works :
      (asker : ℕ)
      → asker ≢ 0
      → trim_space id ≡ id
      → is_empty id ≡ false
      → (get_for_user (pos asker) id (works (with_job s job))).0
        ≡ (if user == asker then ok job else err job_not_found)
  unfolding find_by_id_for_user
  get_works asker known trimmed named_id =
      rw (get_as_user asker id (works (with_job s job)) known trimmed named_id, query-works)
        (looked_up asker)

-- Where the database works: a job that is scheduled for a user who exists, under a new identifier that
-- has no white space around it and with a type that is more than white space, is stored as queued, due
-- at the given time or now, with no attempt of its three used and its type trimmed; afterwards that
-- user gets it back under its identifier, as it was returned, and any other user is told that there is
-- no such job.
pub get_for_user-schedule_for_user :
    (s : Store) (user asker : ℕ) (id kind payload : String) (run_at now : ℕ)
    → user ≢ 0
    → asker ≢ 0
    → is_some (find_where (λ k. k == user) s.users) ≡ true
    → find_where (has_id id) s.jobs ≡ none
    → is_empty (trim_space kind) ≡ false
    → trim_space id ≡ id
    → is_empty id ≡ false
    → (schedule_for_user (pos user) kind (ok payload) run_at now id (works s) ≡ (
      ok (scheduled s user id kind payload run_at now),
      works (with_job s (scheduled s user id kind payload run_at now)),
    ))
      × ((get_for_user
            (pos asker)
            id
            (schedule_for_user (pos user) kind (ok payload) run_at now id (works s)).1).0
          ≡ (if user == asker
              then ok (scheduled s user id kind payload run_at now)
              else err job_not_found))
get_for_user-schedule_for_user s user asker id kind payload run_at now u a known fresh named trimmed
      named_id =
    rw
      (
        schedule_as_user user id kind payload run_at now (works s) u,
        schedule_works s user id kind payload run_at now fresh named known,
      )
      (refl, get_works s user id kind payload run_at now fresh named known asker a trimmed named_id)
