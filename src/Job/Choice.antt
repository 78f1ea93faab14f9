-- ===== src/Job/Choice.antt =====
-- Which job a claim takes, and what it leaves.
use cloud_box.Base.{
  ℕ, ◌≡◌, true, false, Option, none, some, List, [], ◌∷◌, arith, All, All-map, Has, inl, inr,
  Bool-cases, if◌then◌else◌,
}
use cloud_box.Job.Model.{Job}
use cloud_box.Job.Repository.{is_due, earlier, first_due}

-- `j` may be started before `k`: it does not come after it in the order of the statement.
abbrev pub NotAfter : Job → Job → Type 0
NotAfter j k = earlier k j ≡ false

NotAfter-trans : (a b c : Job) → NotAfter a b → NotAfter b c → NotAfter a c
NotAfter-trans a b c h k = ground arith

earlier-NotAfter : (a b : Job) → earlier a b ≡ true → NotAfter a b
earlier-NotAfter a b h = ground arith

-- A row is due only if it does not come before `j`.
abbrev pub Waits : ℕ → Job → Job → Type 0
Waits now j k = is_due now k ≡ true → NotAfter j k

-- `first_due` has a row exactly when one is due, and then the first in the statement's order.
abbrev pub Picks : ℕ → List Job → Option Job → Type 0
Picks now jobs none = All (λ k. is_due now k ≡ false) jobs
Picks now jobs (some j) = (is_due now j ≡ true) × All (Waits now j) jobs

pick_step :
    (now : ℕ) (j : Job) (jobs : List Job) (rest : Option Job)
    → Picks now jobs rest
    → is_due now j ≡ true
    → Picks now
        (j ∷ jobs)
        (elim rest [ none ↦ some j | some k ↦ if earlier k j then some k else some j ])
pick_step now j jobs none p d = (d, (λ _. ground arith, All-map _ _ (λ k f. λ t. cc (f, t)) jobs p))
pick_step now j jobs (some k) p d = elim (Bool-cases (earlier k j)) [
  | inl e ↦ rw e (p.0, (λ _. earlier-NotAfter k j e, p.1))
  | inr e ↦
      rw e (d, (λ _. ground arith, All-map _ _ (λ l w t. NotAfter-trans j k l e (w t)) jobs p.1))
]

skip_step :
    (now : ℕ) (j : Job) (jobs : List Job) (rest : Option Job)
    → Picks now jobs rest
    → is_due now j ≡ false
    → Picks now (j ∷ jobs) rest
skip_step now j jobs none p d = (d, p)
skip_step now j jobs (some k) p d = (p.0, (λ t. cc (d, t), p.1))

pub first_due-Picks : (now : ℕ) (jobs : List Job) → Picks now jobs (first_due now jobs)
unfolding first_due
first_due-Picks now [] = tt
first_due-Picks now (j ∷ jobs) = elim (Bool-cases (is_due now j)) [
  | inl d ↦ rw d (pick_step now j jobs (first_due now jobs) (first_due-Picks now jobs) d)
  | inr d ↦ rw d (skip_step now j jobs (first_due now jobs) (first_due-Picks now jobs) d)
]

pick_Has :
    (j : Job) (jobs : List Job) (rest : Option Job) (k : Job)
    → ((l : Job) → rest ≡ some l → Has l jobs)
    → (elim rest [ none ↦ some j | some k ↦ if earlier k j then some k else some j ]) ≡ some k
    → Has k (j ∷ jobs)
pick_Has j jobs none k ih e = inl (cc (e))
pick_Has j jobs (some l) k ih e = elim (Bool-cases (earlier l j)) [
  | inl t ↦ inr (ih k (rw t at e))
  | inr t ↦ inl (cc (rw t at e))
]

pub first_due-Has : (now : ℕ) (jobs : List Job) (k : Job) → first_due now jobs ≡ some k → Has k jobs
unfolding first_due
first_due-Has now [] k e = cc
first_due-Has now (j ∷ jobs) k e = elim (Bool-cases (is_due now j)) [
  | inl d ↦ pick_Has j jobs (first_due now jobs) k (λ l. first_due-Has now jobs l) (rw d at e)
  | inr d ↦ inr (first_due-Has now jobs k (rw d at e))
]
