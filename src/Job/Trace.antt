-- ===== src/Job/Trace.antt =====
-- Histories of `background_jobs`: any number of API requests and workers send their statements, each
-- atomic, in any order. The claims below hold of every history.
pub mod Invariant
pub mod Attempts
pub mod Final
use cloud_box.Base.{ℕ, ◌+◌, String, Bool, true, false, Option, List, [], ◌∷◌, if◌then◌else◌}
use cloud_box.Fail.{Result, ok, err}
use cloud_box.Job.Model.{Job, Store}
use cloud_box.Job.Repository.{insert_job, claim, finish, retry, has_id}
use cloud_box.Job.Service.{new_job}

pub data Event : Type 0 where
  -- Service.schedule: user, id, type, payload, time to run
  schedules : Option ℕ → String → String → String → ℕ → Event
  -- Repository.ClaimNext, MarkSucceeded and RetryOrFail
  claims : ℕ → Event
  finishes : String → Event
  retries : String → String → ℕ → Event
  -- a new row of `users`
  registers : ℕ → Event
  -- the clock of the database
  passes : ℕ → Event

unfoldable pub step : Store → Event → Store
unfolding insert_job claim finish retry
step s (schedules user id kind payload run_at) =
    (insert_job (new_job user id kind payload run_at) s).1
step s (claims now) = (claim now s).1
step s (finishes id) = (finish id s).1
step s (retries id last_error next_run_at) = (retry id last_error next_run_at s).1
step s (registers user) = record s { users = user ∷ s.users }
step s (passes n) = record s { clock = s.clock + n }

unfoldable pub run : Store → List Event → Store
run s [] = s
run s (e ∷ es) = run (step s e) es

-- Empty tables.
abbrev pub start : ℕ → Store
start clock = record { users = []; jobs = []; clock = clock }

-- Whether an event hands the job of this identifier to a worker.
abbrev pub hands_out : String → Result Job → Bool
hands_out id (ok j) = has_id id j
hands_out id (err e) = false

unfoldable pub is_claim_of : String → Store → Event → Bool
unfolding claim
is_claim_of id s (claims now) = hands_out id (claim now s).0
is_claim_of id s _ = false

-- How often a history hands the job to a worker.
unfoldable pub claims_of : String → Store → List Event → ℕ
claims_of id s [] = 0
claims_of id s (e ∷ es) = (if is_claim_of id s e then 1 else 0) + claims_of id (step s e) es
