-- ===== src/Job/Model.antt =====
-- internal/job/model.go. A row of `background_jobs`; times are numbers on the clock of the database.
use cloud_box.Base.{ℕ, String, Option, List, Bool, true, false}

pub data Status : Type 0 where
  queued running succeeded failed : Status

abbrev pub default_max_attempts : ℕ
default_max_attempts = 3

pub record Job : Type 0 where
  pub id : String
  pub user_id : Option ℕ
  pub job_type : String
  pub payload : String
  pub status : Status
  pub attempts : ℕ
  pub max_attempts : ℕ
  pub run_at : ℕ
  pub locked_at : Option ℕ
  pub last_error : Option String
  pub created_at : ℕ
  pub updated_at : ℕ

-- The table, the identifiers of `users`, and `CURRENT_TIMESTAMP`.
pub record Store : Type 0 where
  pub users : List ℕ
  pub jobs : List Job
  pub clock : ℕ

abbrev pub is_queued : Status → Bool
is_queued queued = true
is_queued _ = false

abbrev pub is_running : Status → Bool
is_running running = true
is_running _ = false
