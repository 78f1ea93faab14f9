-- ===== src/Share/Access.antt =====
-- What the checks of a visitor leave as it was, where all calls work.
use cloud_box.Base.{ℕ, ◌≡◌, refl, String, true, Option, none, some}
use cloud_box.Fail.{Error, Result, ok, err, is_ok}
use cloud_box.Exec.{Exec, works, write}
use cloud_box.Exec.Works.{
  Works, Post, Post-same, pure-Works, raise-Works, call-Works, bind-Works, attempt-Works,
}
use cloud_box.Share.Model.{AccessAction, AccessResult, Store}
use cloud_box.Share.Repository.{record_share_access}
use cloud_box.Share.Service.{on_control, audit, refuse, or_refuse, or_deny}

-- A policy whose calls work where all calls do.
abbrev pub PolicyRuns : {G : Type 0} → Option (ℕ → Exec G (Unit {0})) → Type 0
PolicyRuns none = Unit {0}
PolicyRuns (some check) =
    (id : ℕ) (g : _) → (check id (works g)).1 ≡ works (check id (works g)).1.store

-- The policy, if there is one, has allowed the object.
abbrev pub Permitted : {G : Type 0} → Option (ℕ → Exec G (Unit {0})) → ℕ → Type 0
Permitted none id = Unit {0}
Permitted {G} (some check) id = (g : G) × (is_ok (check id (works g)).0 ≡ true)

module _ {C G : Type 0} where
  -- The tables other than the audits, and the clock.
  pub record Same (s0 s : Store C G) : Type 0 where
    pub shares : s.shares ≡ s0.shares
    pub user_files : s.user_files ≡ s0.user_files
    pub objects : s.objects ≡ s0.objects
    pub previews : s.previews ≡ s0.previews
    pub clock : s.clock ≡ s0.clock

  -- And no audit has been written.
  abbrev pub Silent : Store C G → Store C G → Type 0
  Silent s0 s = Same s0 s × (s.audits ≡ s0.audits)

  pub Same-refl : (s : Store C G) → Same s s
  Same-refl s = record {
    shares = refl;
    user_files = refl;
    objects = refl;
    previews = refl;
    clock = refl;
  }

  pub on_control-Works :
      {A : Type 0} {s0 : Store C G} (f : ℕ → C → Result A × C)
      → Works (Silent s0) (on_control f) (λ a s. Silent s0 s) (λ e s. Silent s0 s)
  unfolding on_control
  on_control-Works {A} {s0} f = record {
    at = λ s p. (refl, Post-same (Silent s0) (f s.clock s.control).0 _ (moved s p));
  }
    where
      moved :
          (s : Store C G) → Silent s0 s → Silent s0 (record s { control = (f s.clock s.control).1 })
      moved s (p, a) = (
        record {
          shares = p.shares;
          user_files = p.user_files;
          objects = p.objects;
          previews = p.previews;
          clock = p.clock;
        },
        a,
      )

  pub audit-Works :
      {s0 : Store C G} (token ip : String) (action : AccessAction) (result : AccessResult)
      → Works (Same s0) (audit token ip action result) (λ a s. Same s0 s) (λ e s. ⊥)
  unfolding audit record_share_access write
  audit-Works token ip action result = call-Works _ λ s p. record {
    shares = p.shares;
    user_files = p.user_files;
    objects = p.objects;
    previews = p.previews;
    clock = p.clock;
  }

  pub refuse-Works :
      {A : Type 0} {Q : A → Store C G → Type 0} {s0 : Store C G} (token ip : String)
      (action : AccessAction) (result : AccessResult) (e : Error)
      → Works (Same s0) (refuse {A = A} token ip action result e) Q (λ e s. Same s0 s)
  unfolding refuse
  refuse-Works {s0 = s0} token ip action result e =
      bind-Works _ _ (attempt-Works _ _ (audit-Works token ip action result))
        λ r. raise-Works e (kept r)
    where
      kept :
          (r : Result (Unit {0})) (s : Store C G)
          → Post (λ _ t. Same s0 t) (λ _ t. ⊥) r s
          → Same s0 s
      kept (ok a) s p = p
      kept (err a) s p = absurd p

  pub or_refuse-Works :
      {A : Type 0} {Q : A → Store C G → Type 0} {s0 : Store C G} (token ip : String)
      (action : AccessAction) (r : Result A)
      → Works
          (λ s. Post Q (λ e t. Same s0 t) r s)
          (or_refuse token ip action r)
          Q
          (λ e s. Same s0 s)
  unfolding or_refuse
  or_refuse-Works token ip action (ok a) = pure-Works a λ s q. q
  or_refuse-Works token ip action (err e) = refuse-Works token ip action _ e

  pub or_deny-Works :
      {A : Type 0} {Q : A → Store C G → Type 0} {s0 : Store C G} (token ip : String)
      (action : AccessAction) (r : Result A)
      → Works (λ s. Post Q (λ e t. Same s0 t) r s) (or_deny token ip action r) Q (λ e s. Same s0 s)
  unfolding or_deny
  or_deny-Works token ip action (ok a) = pure-Works a λ s q. q
  or_deny-Works token ip action (err e) = refuse-Works token ip action _ e
