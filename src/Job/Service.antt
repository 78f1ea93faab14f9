-- ===== src/Job/Service.antt =====
-- internal/job/service.go. `now` is `time.Now().UTC()`, with 0 for the zero time; `new_id` is the
-- identifier that the uuid package draws; `payload` is what `json.Marshal` gives, or its error.
use cloud_box.Base.{ℕ, ℤ, positive?, String, Option, none, some, ◌==◌, if◌then◌else◌}
use cloud_box.Fail.{Result, invalid_job_type, invalid_job_user_id, invalid_job_id}
use cloud_box.Exec.{Exec, raise, lift, ◌>>=◌}
use cloud_box.Text.{trim_space, is_empty}
use cloud_box.Job.Model.{Job, Store, queued, default_max_attempts}
use cloud_box.Job.Repository.{create, find_by_id_for_user}

-- `if runAt.IsZero() { runAt = time.Now().UTC() }`
abbrev pub run_time : ℕ → ℕ → ℕ
run_time now run_at = if run_at == 0 then now else run_at

-- The row that `schedule` hands to the repository; the columns that it leaves out take defaults.
abbrev pub new_job : Option ℕ → String → String → String → ℕ → Job
new_job user id job_type payload run_at = record {
  id = id;
  user_id = user;
  job_type = job_type;
  payload = payload;
  status = queued;
  attempts = 0;
  max_attempts = default_max_attempts;
  run_at = run_at;
  locked_at = none;
  last_error = none;
  created_at = 0;
  updated_at = 0;
}

unfoldable pub schedule_as : Option ℕ → String → Result String → ℕ → ℕ → String → Exec Store Job
schedule_as user job_type payload run_at now new_id =
    let kind = trim_space job_type in
    if is_empty kind
    then raise invalid_job_type
    else do json ← lift payload; create (new_job user new_id kind json (run_time now run_at))

unfoldable pub schedule : String → Result String → ℕ → ℕ → String → Exec Store Job
unfolding schedule_as
schedule = schedule_as none

unfoldable pub enqueue : String → Result String → ℕ → String → Exec Store Job
unfolding schedule
enqueue job_type payload now new_id = schedule job_type payload now now new_id

unfoldable pub schedule_for_user : ℤ → String → Result String → ℕ → ℕ → String → Exec Store Job
unfolding schedule_as
schedule_for_user user job_type payload run_at now new_id = elim (positive? user) [
  | none ↦ raise invalid_job_user_id
  | some u ↦ schedule_as (some u) job_type payload run_at now new_id
]

unfoldable pub enqueue_for_user : ℤ → String → Result String → ℕ → String → Exec Store Job
unfolding schedule_for_user
enqueue_for_user user job_type payload now new_id =
    schedule_for_user user job_type payload now now new_id

unfoldable pub get_for_user : ℤ → String → Exec Store Job
get_for_user user job_id = elim (positive? user) [
  | none ↦ raise invalid_job_user_id
  | some u ↦
      let id = trim_space job_id in
      if is_empty id then raise invalid_job_id else find_by_id_for_user id u
]
