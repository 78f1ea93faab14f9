-- ===== src/Share/Visit.antt =====
-- What a visitor has shown to reach the file of a share, where all calls work.
pub mod Find
use cloud_box.Base.{
  ℕ, ◌≡◌, ◌<◌, ◌⊎◌, refl, ◌∙◌, ap, subst, String, Bool, true, false, ◌&&◌, Option, none, some,
  Option-cases, Bool-cases, inl, inr, arith,
}
use cloud_box.Fail.{
  Error, Result, ok, err, message, detailed, shared_file_unavailable, share_password_locked,
}
use cloud_box.Exec.{Exec, works, pure, raise, gets, on_error, ◌>>=◌, ◌>>◌}
use cloud_box.Exec.Works.{
  Works, Post, pure-Works, raise-Works, query-Works, if-Works, bind-Works, post-Works,
  on_error-Works, gets-Works,
}
use cloud_box.Sql.{find_where}
use cloud_box.File.Model.{UserFile}
use cloud_box.Text.{is_empty}
use cloud_box.Share.Model.{Share, SharedFile, Store}
use cloud_box.Share.Repository.{
  has_token, find_by_token, find_active_file_by_share_token, shared_user_file, object_of, unexpired,
}
use cloud_box.Share.Service.{
  Setup, on_control, on_workspace, check_policy, count_failure, count_password,
  find_accessible_file, validate_share_access, check_password, then_slot, limit_reached,
  is_password_invalid, access_control_error,
}
use cloud_box.Share.Checks.{IsBefore, Opens, IsBelow}
use cloud_box.Share.Access.{PolicyRuns, Permitted, Silent, on_control-Works}

module _ {C G : Type 0} (s0 : Store C G) where
  workspace_works :
      (check : ℕ → Exec G (Unit {0})) (id : ℕ)
      → ((g : G) → (check id (works g)).1 ≡ works (check id (works g)).1.store)
      → Works
          (Silent s0)
          (on_workspace (check id))
          (λ _ s. Silent s0 s × Permitted (some check) id)
          (λ e s. Silent s0 s)
  unfolding on_workspace
  workspace_works check id runs = record {
    at = λ s p. (
      ap
          (λ v. record {
            outcomes = v.outcomes;
            store = record s { workspace = (check id (works s.workspace)).1.store };
          })
          (runs s.workspace),
      by_result s p (check id (works s.workspace)).0 refl,
    );
  }
    where
      moved : (s : Store C G) (g : G) → Silent s0 s → Silent s0 (record s { workspace = g })
      moved s g (p, a) = (
        record {
          shares = p.shares;
          user_files = p.user_files;
          objects = p.objects;
          previews = p.previews;
          clock = p.clock;
        },
        a,
      )

      by_result :
          (s : Store C G)
          → Silent s0 s
          → (r : Result (Unit {0})) → (check id (works s.workspace)).0 ≡ r
          → Post
              (λ _ t. Silent s0 t × Permitted (some check) id)
              (λ e t. Silent s0 t)
              r
              (record s { workspace = (check id (works s.workspace)).1.store })
      by_result s p (ok tt) e = (moved s _ p, (s.workspace, rw e refl))
      by_result s p (err x) e = moved s _ p

  policy_works :
      (policy : Option (ℕ → Exec G (Unit {0})))
      → PolicyRuns policy
      → (id : ℕ)
      → Works
          (Silent s0)
          (elim policy [
            | none ↦ pure tt
            | some check ↦
                on_error
                  (λ e. detailed shared_file_unavailable (message e))
                  (on_workspace (check id))
          ])
          (λ _ s. Silent s0 s × Permitted policy id)
          (λ e s. Silent s0 s)
  policy_works none runs id = pure-Works tt λ s p. (p, tt)
  policy_works (some check) runs id = on_error-Works _ _ (workspace_works check id (runs id))

module _ {C G : Type 0} (setup : Setup C G) (s0 : Store C G) where
  -- What a visitor has shown.
  pub record Accessible (token password : String) (require : Bool) (file : SharedFile)
      : Type 0 where
    pub share : Share
    pub found : find_where (has_token token) s0.shares ≡ some share
    pub unexpired : IsBefore s0.clock share.expires_at
    pub opened : Opens setup.matches share.password_hash password
    pub slot : IsBelow require share.max_downloads share.download_count
    pub joined : object_of (shared_user_file (some share) s0) s0 ≡ ok file
    pub permitted : Permitted setup.policy file.object_id

module _ {C G : Type 0} (setup : Setup C G) (runs : PolicyRuns setup.policy) (s0 : Store C G) where
  pub check_policy-Works :
      (id : ℕ)
      → Works
          (Silent s0)
          (check_policy setup id)
          (λ _ s. Silent s0 s × Permitted setup.policy id)
          (λ e s. Silent s0 s)
  unfolding check_policy on_workspace
  check_policy-Works id = policy_works s0 setup.policy runs id

  pub count_failure-Works :
      (token ip : String) (e : Error)
      → Works (Silent s0) (count_failure setup token ip e) (λ _ s. Silent s0 s) (λ e s. Silent s0 s)
  unfolding count_failure
  count_failure-Works token ip e =
      if-Works (is_password_invalid e)
        (on_error access_control_error
          (on_control (setup.control.record_password_failure token ip)))
        (pure tt) (λ _. on_error-Works access_control_error _ (on_control-Works _))
        (λ _. pure-Works _ λ s p. p)

  pub count_password-Works :
      (token ip : String) (r : Result (Unit {0}))
      → Works
          (Silent s0)
          (count_password setup token ip r)
          (λ _ s. Silent s0 s × (r ≡ ok tt))
          (λ e s. Silent s0 s)
  unfolding count_password
  count_password-Works token ip (ok tt) =
      post-Works _ (λ _ s p. (p, refl)) (λ e s p. p)
        (on_error-Works access_control_error _ (on_control-Works _))
  count_password-Works token ip (err e) =
      bind-Works _ _ (count_failure-Works token ip e) λ _. raise-Works e λ s p. p

  pub find_by_token-Works :
      (token : String)
      → Works
          (Silent s0)
          (find_by_token token)
          (λ share s. Silent s0 s × (find_where (has_token token) s0.shares ≡ some share))
          (λ e s. Silent s0 s)
  unfolding find_by_token
  find_by_token-Works token = query-Works _ λ s p.
      elim (Option-cases (find_where (has_token token) s0.shares)) [
        | inl e ↦ rw (ap (find_where (has_token token)) p.0.shares ∙ e) p
        | inr (share, e) ↦ rw (ap (find_where (has_token token)) p.0.shares ∙ e) (p, e)
      ]

  object_same : (s : Store C G) (o : Option UserFile) → Silent s0 s → object_of o s ≡ object_of o s0
  object_same s none p = refl
  object_same s (some f) p = rw p.0.objects refl

  file_same :
      (s : Store C G) (o : Option Share)
      → Silent s0 s
      → shared_user_file o s ≡ shared_user_file o s0
  file_same s none p = refl
  file_same s (some h) p = rw p.0.user_files refl

  pub find_file-Works :
      (token : String) (share : Share)
      → find_where (has_token token) s0.shares ≡ some share
      → Works
          (Silent s0)
          (find_active_file_by_share_token token)
          (λ file s. Silent s0 s × (object_of (shared_user_file (some share) s0) s0 ≡ ok file))
          (λ e s. Silent s0 s)
  unfolding find_active_file_by_share_token
  find_file-Works token share found = query-Works _ λ s p.
      let e : object_of (shared_user_file (find_where (has_token token) s.shares) s) s
          ≡ object_of (shared_user_file (some share) s0) s0 =
        object_same s _ p
        ∙ ap (λ o. object_of o s0)
            (file_same s _ p
              ∙ ap (λ o. shared_user_file o s0)
                  (ap (find_where (has_token token)) p.0.shares ∙ found)) in
      rw e (by_result s p _ refl)
    where
      by_result :
          (s : Store C G)
          → Silent s0 s
          → (r : Result SharedFile) → object_of (shared_user_file (some share) s0) s0 ≡ r
          → Post
              (λ file t. Silent s0 t × (object_of (shared_user_file (some share) s0) s0 ≡ ok file))
              (λ e t. Silent s0 t)
              r
              s
      by_result s p (ok f) e = (p, e)
      by_result s p (err x) e = p

  pub locked_Works :
      (token ip : String)
      → Works
          (Silent s0)
          (on_error access_control_error (on_control (setup.control.password_locked token ip)))
          (λ _ s. Silent s0 s)
          (λ e s. Silent s0 s)
  locked_Works token ip = on_error-Works access_control_error _ (on_control-Works _)
