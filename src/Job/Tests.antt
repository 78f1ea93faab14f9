-- ===== src/Job/Tests.antt =====
-- Runs of the queue, and the theorems at concrete inputs.
use cloud_box.Base.{
  ◌+◌, ◌≤◌, ◌≡◌, ◌≢◌, refl, String, Option, none, some, List, [], ◌∷◌, arith, true, All, ◌⊎◌,
}
use Prim.Native.Nat.{◌*◌, min}
use cloud_box.Fail.{ok, err, external, no_job_available}
use cloud_box.Exec.{works, raise}
use cloud_box.Sql.{find_where, update_where, returning}
use cloud_box.Text.{is_blank}
use cloud_box.Job.Model.{Job, Store, queued, running, succeeded}
use cloud_box.Job.Repository.{claim, claim_next, first_due}
use cloud_box.Job.Runner.{Runner, Handler, process_next, report, default_retry_delay, second}
use cloud_box.Job.Trace.{
  Event, registers, schedules, claims, finishes, retries, passes, step, run, start, claims_of,
  is_claim_of,
}
use cloud_box.Job.Trace.Invariant.{IsQueue, run-start-IsQueue, step-IsQueue}
use cloud_box.Job.Trace.Attempts.{attempts_exact, claims_bounded, claims_exclusive}
use cloud_box.Job.Trace.Final.{row, run_final}
use cloud_box.Job.Claim.{claim_next_lem, claim-works, IsFirstDue, IsReady, started}
use cloud_box.Job.Round.{process_next_lem, settled, Handled, ran}
use cloud_box.Base.{pos, if◌then◌else◌, ◌==◌}
use cloud_box.Fail.{job_not_found}
use cloud_box.Text.{trim_space}
use cloud_box.Job.Service.{schedule_for_user, get_for_user}
use cloud_box.Job.Lookup.{scheduled, with_job, get_for_user-schedule_for_user}
use cloud_box.Job.Delay.{default_retry_delay-suc}

-- Two jobs, the second to run first.
abbrev two_jobs : List Event
two_jobs =
    registers 7
    ∷ schedules (some 7) "a" "file.verify" "{}" 20
    ∷ passes 30
    ∷ schedules (some 7) "b" "file.scan" "{}" 10
    ∷ []

abbrev queue : Store
queue = run (start 5) two_jobs

abbrev job_b : Job
job_b = record {
  id = "b";
  user_id = some 7;
  job_type = "file.scan";
  payload = "{}";
  status = queued;
  attempts = 0;
  max_attempts = 3;
  run_at = 10;
  locked_at = none;
  last_error = none;
  created_at = 35;
  updated_at = 35;
}

queue-IsQueue : IsQueue queue
queue-IsQueue = run-start-IsQueue 5 two_jobs

queue_b : row "b" queue ≡ some job_b
unfolding run step find_where update_where returning is_blank
queue_b = refl

-- Three failing attempts.
abbrev three_failures : List Event
three_failures =
    claims 40
    ∷ retries "b" "no scanner" 50
    ∷ claims 45
    ∷ finishes "a"
    ∷ claims 60
    ∷ retries "b" "no scanner" 70
    ∷ claims 80
    ∷ retries "b" "no scanner" 90
    ∷ claims 100
    ∷ []

claims_of_b : claims_of "b" queue three_failures ≡ 3
unfolding claims_of is_claim_of run step find_where update_where returning is_blank
claims_of_b = refl

run-start-IsQueue_example : IsQueue (run (start 5) two_jobs)
run-start-IsQueue_example = run-start-IsQueue 5 two_jobs

attempts_exact_example :
    (k : Job) × (row "b" (run queue three_failures) ≡ some k)
    × (k.attempts ≡ 0 + claims_of "b" queue three_failures)
    × (k.max_attempts ≡ 3)
attempts_exact_example = attempts_exact "b" queue three_failures job_b queue-IsQueue queue_b

claims_bounded_example : 0 + claims_of "b" queue three_failures ≤ 3
claims_bounded_example = claims_bounded "b" queue three_failures job_b queue-IsQueue queue_b

abbrev claimed_b : List Event
claimed_b =
    registers 7
    ∷ schedules (some 7) "a" "file.verify" "{}" 20
    ∷ schedules (some 7) "b" "file.scan" "{}" 10
    ∷ claims 40
    ∷ []

abbrev running_b : Job
running_b = record job_b {
  status = running;
  attempts = 1;
  locked_at = some 5;
  created_at = 5;
  updated_at = 5;
}

row-running_b : row "b" (run (start 5) claimed_b) ≡ some running_b
unfolding run step find_where update_where returning is_blank
row-running_b = refl

claims_exclusive_example :
    claims_of "b" (run (start 5) claimed_b) (claims 50 ∷ retries "a" "x" 60 ∷ claims 70 ∷ []) ≡ 0
claims_exclusive_example =
    claims_exclusive "b" (run (start 5) claimed_b) (claims 50 ∷ retries "a" "x" 60 ∷ claims 70 ∷ [])
      running_b (run-start-IsQueue 5 claimed_b) row-running_b refl (refl, (refl, (refl, tt)))

abbrev claims_and_finish : List Event
claims_and_finish =
    registers 7
    ∷ schedules (some 7) "a" "file.verify" "{}" 20
    ∷ schedules (some 7) "b" "file.scan" "{}" 10
    ∷ claims 40
    ∷ finishes "b"
    ∷ []

abbrev succeeded_b : Job
succeeded_b = record running_b { status = succeeded; locked_at = none }

row-succeeded_b : row "b" (run (start 5) (claims_and_finish)) ≡ some succeeded_b
unfolding run step find_where update_where returning is_blank
row-succeeded_b = refl

run_final_example :
    row "b" (run (run (start 5) claims_and_finish) (claims 90 ∷ retries "b" "x" 95 ∷ []))
    ≡ some succeeded_b
run_final_example =
    run_final "b" (run (start 5) claims_and_finish) (claims 90 ∷ retries "b" "x" 95 ∷ [])
      succeeded_b row-succeeded_b refl

claim_next_lem_example :
    (All (λ j. ¬ IsReady 30 j) queue.jobs
      × (claim_next 30 (works queue) ≡ (err no_job_available, works queue)))
    ⊎ ((due : Job) × (t : Store) × IsFirstDue 30 queue due
        × (claim_next 30 (works queue) ≡ (ok (started queue.clock due), works t))
        × (row due.id t ≡ some (started queue.clock due))
        × ((id : String) → id ≢ due.id → row id t ≡ row id queue))
claim_next_lem_example = claim_next_lem 30 queue queue-IsQueue

-- A worker whose only handler fails.
abbrev failing : Handler
failing job = raise (external "no scanner")

abbrev handlers_of : String → Option Handler
handlers_of kind = some failing

abbrev worker : Runner
worker = record {
  handlers = handlers_of;
  worker_count = 1;
  poll_interval = second;
  retry_delay = default_retry_delay;
}

due_b : first_due 30 queue.jobs ≡ some job_b
unfolding first_due run step find_where update_where returning is_blank
due_b = refl

claim_b : claim_next 30 (works queue) ≡ (ok (started 35 job_b), works (claim 30 queue).1)
unfolding run step find_where is_blank
claim_b = claim-works 30 queue queue-IsQueue job_b due_b

claimed_queue-IsQueue : IsQueue (claim 30 queue).1
unfolding step
claimed_queue-IsQueue = step-IsQueue queue (claims 30) queue-IsQueue

claimed-queue_b : row "b" (claim 30 queue).1 ≡ some (started 35 job_b)
unfolding claim run step find_where update_where returning is_blank
claimed-queue_b = refl

failing-Handled :
    Handled worker
      (started 35 job_b)
      (claim 30 queue).1
      (claim 30 queue).1
      (err (external "no scanner"))
unfolding raise
failing-Handled = ran failing refl refl

process_next_lem_example :
    ((process_next worker none 30 40 (works queue)).0 ≡ ok (report true none))
    × (row "b" (process_next worker none 30 40 (works queue)).1.store
        ≡ some (
            settled worker
              (claim 30 queue).1.clock
              40
              (err (external "no scanner"))
              (started 35 job_b)))
process_next_lem_example =
    process_next_lem worker 30 40 queue (claim 30 queue).1 (claim 30 queue).1 (started 35 job_b)
      (err (external "no scanner")) queue-IsQueue claim_b failing-Handled claimed_queue-IsQueue
      claimed-queue_b

default_retry_delay-suc_example :
    (default_retry_delay 1 ≡ second)
    × (default_retry_delay 8 ≡ min (2 * default_retry_delay 7) (32 * second))
default_retry_delay-suc_example = default_retry_delay-suc 7 (omega arith)

-- The user 7, without jobs.
abbrev one_user : Store
one_user = record { users = 7 ∷ []; jobs = []; clock = 5 }

get_for_user-schedule_for_user_example :
    (schedule_for_user (pos 7) " file.scan " (ok "{}") 20 4 "c" (works one_user) ≡ (
      ok (scheduled one_user 7 "c" " file.scan " "{}" 20 4),
      works (with_job one_user (scheduled one_user 7 "c" " file.scan " "{}" 20 4)),
    ))
    × ((get_for_user
          (pos 8)
          "c"
          (schedule_for_user (pos 7) " file.scan " (ok "{}") 20 4 "c" (works one_user)).1).0
        ≡ (if 7 == 8
            then ok (scheduled one_user 7 "c" " file.scan " "{}" 20 4)
            else err job_not_found))
unfolding find_where trim_space
get_for_user-schedule_for_user_example =
    get_for_user-schedule_for_user one_user 7 8 "c" " file.scan " "{}" 20 4 (ground arith)
      (ground arith) refl refl refl refl refl
