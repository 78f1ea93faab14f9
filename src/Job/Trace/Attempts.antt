-- ===== src/Job/Trace/Attempts.antt =====
-- How often a history hands one job to a worker.
use cloud_box.Base.{
  and_left, ℕ, ◌+◌, ◌≤◌, String, ◌≡◌, refl, Bool, true, false, Option, none, some, List, [], ◌∷◌,
  arith, eq_iff, str_eq, str_eq→eq, Bool-cases, Option-cases, inl, inr, if◌then◌else◌, ap, ◌∙◌, sym,
  All, subst,
}
use cloud_box.Sql.{find_where}
use cloud_box.Sql.Laws.{returning-find_where, find_where-holds, find_where-none, find_where-All}
use cloud_box.Sql.Keys.{find_where-Unique}
use cloud_box.Job.Model.{Job, Store, is_queued}
use cloud_box.Job.Repository.{has_id, is_queued_with, claimed, claim_due, first_due}
use cloud_box.Job.Trace.{
  Event, claims, finishes, retries, step, run, hands_out, is_claim_of, claims_of,
}
use cloud_box.Job.Trace.Invariant.{IsSound, IsQueue, job_id, step-IsQueue, run-IsQueue}
use cloud_box.Job.Trace.Final.{row, row_step, claim_row, row-step}

-- Whether a claim of `due` takes the row.
abbrev takes : Option Job → Job → Bool
takes none j = false
takes (some due) j = is_queued_with due.id j

row_id : (id : String) (s : Store) (j : Job) → row id s ≡ some j → j.id ≡ id
row_id id s j h = str_eq→eq j.id id (find_where-holds (has_id id) s.jobs j h)

module _ (id : String) (s : Store) (q : IsQueue s) (j : Job) (h : row id s ≡ some j) where
  missed :
      (due : Job)
      → find_where (is_queued_with due.id) s.jobs ≡ none
      → is_queued_with due.id j ≡ false
  missed due e =
      find_where-All (λ r. is_queued_with due.id r ≡ false) (has_id id) s.jobs j
        (find_where-none (is_queued_with due.id) s.jobs e) h

  -- The row that the claim finds has the identifier exactly if it is the row of the identifier.
  met :
      (due r : Job)
      → find_where (is_queued_with due.id) s.jobs ≡ some r
      → has_id id r ≡ is_queued_with due.id j
  met due r e = elim (Bool-cases (has_id id r)) [
    | inl t ↦
        let same : some r ≡ some j =
          sym (find_where-Unique str_eq eq_iff job_id (is_queued_with due.id) s.jobs r q.unique e)
          ∙ (rw (str_eq→eq r.id id t) h) in
        let equal : r ≡ j = cc (same) in
        t ∙ sym (subst (λ x. is_queued_with due.id x ≡ true) equal taken)
    | inr t ↦ elim (Bool-cases (is_queued_with due.id j)) [
      | inr f ↦ t ∙ sym f
      | inl p ↦
          let mine : j.id ≡ due.id = str_eq→eq j.id due.id (and_left _ _ p) in
          let theirs : r.id ≡ due.id = str_eq→eq r.id due.id (and_left _ _ taken) in
          cc (t, (eq_iff r.id id).1 (theirs ∙ sym mine ∙ row_id id s j h))
    ]
  ]
    where
      taken : is_queued_with due.id r ≡ true
      taken = find_where-holds (is_queued_with due.id) s.jobs r e

  handed_out : (due : Option Job) → hands_out id (claim_due due s).0 ≡ takes due j
  unfolding claim_due
  handed_out none = refl
  handed_out (some due) = elim (Option-cases (find_where (is_queued_with due.id) s.jobs)) [
    | inl e ↦
        rw (returning-find_where (is_queued_with due.id) (claimed s.clock) s.jobs, e)
          (sym (missed due e))
    | inr (r, e) ↦
        rw (returning-find_where (is_queued_with due.id) (claimed s.clock) s.jobs, e) (met due r e)
  ]

  claim_row-takes :
      (due : Option Job)
      → (claim_row due s.clock j).attempts ≡ j.attempts + (if takes due j then 1 else 0)
  unfolding claim_row
  claim_row-takes none = omega arith
  claim_row-takes (some due) = ground arith

  -- One event raises the count of attempts by the claims of the job in it.
  attempts_step :
      (e : Event) → (row_step s e j).attempts ≡ j.attempts + (if is_claim_of id s e then 1 else 0)
  unfolding row_step is_claim_of
  attempts_step (claims now) =
      rw (handed_out (first_due now s.jobs)) (claim_row-takes (first_due now s.jobs))
  attempts_step (finishes other) = ground arith
  attempts_step (retries other e next) = ground arith
  attempts_step _ = omega arith

claim_row_limit :
    (due : Option Job) (clock : ℕ) (j : Job) → (claim_row due clock j).max_attempts ≡ j.max_attempts
unfolding claim_row
claim_row_limit none clock j = refl
claim_row_limit (some due) clock j = ground arith

limit_step : (s : Store) (e : Event) (j : Job) → (row_step s e j).max_attempts ≡ j.max_attempts
unfolding row_step
limit_step s (claims now) j = claim_row_limit (first_due now s.jobs) s.clock j
limit_step s (finishes other) j = ground arith
limit_step s (retries other e next) j = ground arith
limit_step s _ j = refl

-- The count in the row is exact: after a history it has grown by the number of times that the
-- history handed the job to a worker.
pub attempts_exact :
    (id : String) (s : Store) (es : List Event) (j : Job)
    → IsQueue s
    → row id s ≡ some j
    → (k : Job) × (row id (run s es) ≡ some k)
      × (k.attempts ≡ j.attempts + claims_of id s es)
      × (k.max_attempts ≡ j.max_attempts)
unfolding run claims_of
attempts_exact id s [] j q h = (j, h, omega arith, refl)
attempts_exact id s (e ∷ es) j q h =
    let rest =
      attempts_exact id (step s e) es (row_step s e j) (step-IsQueue s e q) (row-step id s e j h) in
    (rest.0, rest.1, omega (arith, rest.2, attempts_step id s q j h e), rest.3 ∙ limit_step s e j)

-- Whatever the history, a job in a well-formed queue is handed to workers at most as often as its
-- limit has attempts left.
pub claims_bounded :
    (id : String) (s : Store) (es : List Event) (j : Job)
    → IsQueue s
    → row id s ≡ some j
    → j.attempts + claims_of id s es ≤ j.max_attempts
claims_bounded id s es j q h =
    let last = attempts_exact id s es j q h in
    let sound : IsSound last.0 =
      find_where-All IsSound (has_id id) _ _ (run-IsQueue s es q).sound last.1 in
    omega (arith, last.2, last.3, sound.attempts_bounded)

-- Whether an event puts the job back into the queue.
abbrev pub is_retry_of : String → Event → Bool
is_retry_of id (retries other e next) = str_eq id other
is_retry_of id _ = false

stays_taken :
    (id : String) (s : Store) (e : Event) (j : Job)
    → j.id ≡ id
    → is_retry_of id e ≡ false
    → is_queued j.status ≡ false
    → is_queued (row_step s e j).status ≡ false
unfolding row_step
stays_taken id s (claims now) j i r f = claim_row_taken (first_due now s.jobs)
  where
    claim_row_taken : (due : Option Job) → is_queued (claim_row due s.clock j).status ≡ false
    claim_row_taken none = f
    claim_row_taken (some due) = ground arith
stays_taken id s (finishes other) j i r f = ground arith
stays_taken id s (retries other e next) j i r f = ground (arith, ap (λ t. str_eq t other) i)
stays_taken id s _ j i r f = f

takes_queued : (due : Option Job) (j : Job) → is_queued j.status ≡ false → takes due j ≡ false
takes_queued none j f = refl
takes_queued (some due) j f = ground arith

not_claimed :
    (id : String) (s : Store) (e : Event) (j : Job)
    → IsQueue s
    → row id s ≡ some j
    → is_queued j.status ≡ false
    → is_claim_of id s e ≡ false
unfolding is_claim_of
not_claimed id s (claims now) j q h f =
    handed_out id s q j h (first_due now s.jobs) ∙ takes_queued (first_due now s.jobs) j f
not_claimed id s _ j q h f = refl

-- While a job runs no other worker gets it: once it has left the queue, a history with no
-- RetryOrFail of the job hands it to nobody.
pub claims_exclusive :
    (id : String) (s : Store) (es : List Event) (j : Job)
    → IsQueue s
    → row id s ≡ some j
    → is_queued j.status ≡ false
    → All (λ e. is_retry_of id e ≡ false) es
    → claims_of id s es ≡ 0
unfolding claims_of
claims_exclusive id s [] j q h f none_retried = refl
claims_exclusive id s (e ∷ es) j q h f none_retried =
    let rest : claims_of id (step s e) es ≡ 0 =
      (claims_exclusive id (step s e) es (row_step s e j) (step-IsQueue s e q) (row-step id s e j h)
        (stays_taken id s e j (row_id id s j h) none_retried.0 f) none_retried.1) in
    rw (not_claimed id s e j q h f) (omega arith)
