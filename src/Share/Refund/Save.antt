-- ===== src/Share/Refund/Save.antt =====
-- `SaveToUserFilesFromIP` of internal/share/service.go from its checks to its result, where all calls work.
use cloud_box.Base.{
  ℕ, ◌≡◌, refl, sym, ap, subst, String, true, not, Option, none, some, if◌then◌else◌,
}
use cloud_box.Fail.{
  Result, ok, err, share_save_unavailable, share_password_locked, share_download_rate_limit,
}
use cloud_box.Exec.{Exec, works, raise, gets, attempt, on_error, ◌>>=◌}
use cloud_box.Exec.Works.{
  Works, Post, raise-Works, gets-Works, if-Works, bind-Works, attempt-Works, pre-Works, post-Works,
  on_error-Works,
}
use cloud_box.File.Model.{UserFile}
use cloud_box.Sql.{find_where}
use cloud_box.Share.Model.{Share, Store, save, rate_limited, locked}
use cloud_box.Share.Repository.{has_token, find_by_token}
use cloud_box.Share.Repository.Limit.{UniqueTokens}
use cloud_box.Share.Service.{
  Setup, on_control, refuse, or_refuse, access_control_error, validate_share_access,
}
use cloud_box.Share.Save.{pass_password, save_accessible, save_to_user_files_from_ip}
use cloud_box.Share.Access.{
  PolicyRuns, Same, Silent, Same-refl, on_control-Works, refuse-Works, or_refuse-Works,
  or_deny-Works,
}
use cloud_box.Share.Visit.{
  find_by_token-Works, find_file-Works, check_policy-Works, count_failure-Works, locked_Works,
}
use cloud_box.Share.Download.{Taken, allow_download-Works}
use cloud_box.Share.Refund.{Saver, SaverRuns, Whole, Slot, whole, save_reserved-Works}

module _ {C G : Type 0} (setup : Setup C G) (runs : PolicyRuns setup.policy) (s0 : Store C G)
    (unique : UniqueTokens s0.shares) (token password ip : String) where
  pass_password-Works :
      (r : Result (Unit {0}))
      → Works
          (Silent s0)
          (pass_password setup token ip r)
          (λ _ s. Silent s0 s)
          (λ e s. (Whole setup runs s0 unique token password ip) s)
  unfolding pass_password
  pass_password-Works (ok done) = on_error-Works access_control_error _ (
      post-Works _ (λ a s p. p) (λ e s p. (whole setup runs s0 unique token password ip) s p.0)
        (on_control-Works _))
  pass_password-Works (err e) =
      bind-Works _ _
        (post-Works _ (λ a s p. p) (λ x s p. (whole setup runs s0 unique token password ip) s p.0)
          (count_failure-Works setup runs s0 token ip e))
        λ _.
          post-Works _ (λ a s p. absurd p)
            (λ x s p. (whole setup runs s0 unique token password ip) s p)
            (pre-Works _ _ (λ s p. p.0) (or_deny-Works {Q = λ _ _. ⊥} token ip save (err e)))

  save_accessible-Works :
      (saver : Saver G) (user : ℕ) (parent : Option ℕ) (checked : Result (Unit {0})) (share : Share)
      → SaverRuns (some saver)
      → find_where (has_token token) s0.shares ≡ some share
      → Works
          (Silent s0)
          (save_accessible setup saver user token parent ip checked)
          (λ _ s. (Slot setup runs s0 unique token password ip) s)
          (λ e s. (Whole setup runs s0 unique token password ip) s)
  unfolding save_accessible
  save_accessible-Works saver user parent checked share saves found =
      bind-Works _ _ (pass_password-Works checked) λ _.
        bind-Works _ _
          (attempt-Works _ _ (
            post-Works _ (λ f s p. p.0) (λ e s p. p.0)
              (find_file-Works setup runs s0 token share found)))
          λ looked.
            bind-Works _ _
              (post-Works _ (λ f s p. p)
                (λ e s p. (whole setup runs s0 unique token password ip) s p)
                (or_refuse-Works token ip save looked))
              λ file.
                bind-Works _ _
                  (attempt-Works _ _ (
                    post-Works _ (λ f s p. p.0) (λ e s p. p.0)
                      (check_policy-Works setup runs s0 file.object_id)))
                  λ permitted.
                    bind-Works _ _
                      (post-Works _ (λ f s p. p)
                        (λ e s p. (whole setup runs s0 unique token password ip) s p)
                        (or_refuse-Works token ip save permitted))
                      λ _.
                        bind-Works _ _
                          (post-Works _ (λ a s p. p)
                            (λ e s p. (whole setup runs s0 unique token password ip) s p)
                            (allow_download-Works setup runs s0 unique token password ip))
                          λ may.
                            if-Works (not may)
                              (refuse token ip save rate_limited share_download_rate_limit) _
                              (λ _.
                                post-Works _ (λ a s p. p)
                                  (λ e s p. (whole setup runs s0 unique token password ip) s p)
                                  (pre-Works _ _ (λ s p. p.0)
                                    (refuse-Works token ip save rate_limited
                                      share_download_rate_limit)))
                              (λ _.
                                (save_reserved-Works setup runs s0 unique token password ip) saver
                                  user parent file saves)

  -- From the lookup of the share on.
  abbrev looked_up : Saver G → ℕ → Option ℕ → Exec (Store C G) UserFile
  looked_up saver user parent = do
    found ← attempt (find_by_token token)
    share ← or_refuse token ip save found
    is_locked ← on_error access_control_error (on_control (setup.control.password_locked token ip))
    if is_locked then refuse token ip save locked share_password_locked else do
      now ← gets (λ s. s.clock)
      save_accessible setup saver user token parent ip
          (validate_share_access setup.matches now share password true)

  looked_up-Works :
      (saver : Saver G) (user : ℕ) (parent : Option ℕ)
      → SaverRuns (some saver)
      → Works
          (λ s. s ≡ s0)
          (looked_up saver user parent)
          (λ _ s. (Slot setup runs s0 unique token password ip) s)
          (λ e s. (Whole setup runs s0 unique token password ip) s)
  looked_up-Works saver user parent saves =
      bind-Works _ _
        (attempt-Works _ _ (
          pre-Works _ _ (λ s e. (subst (Same s0) (sym e) (Same-refl s0), ap (λ t. t.audits) e))
            (post-Works _ (λ h s p. p) (λ e s p. p.0) (find_by_token-Works setup runs s0 token))))
        λ found.
          bind-Works _ _
            (post-Works _ (λ h s p. p) (λ e s p. (whole setup runs s0 unique token password ip) s p)
              (or_refuse-Works token ip save found))
            λ share. record { at = λ s (p, row). (rest share row).at s p }
    where
      rest :
          (share : Share)
          → find_where (has_token token) s0.shares ≡ some share
          → Works
              (Silent s0)
              (do
                is_locked ←
                    on_error access_control_error
                      (on_control (setup.control.password_locked token ip))
                if is_locked then refuse token ip save locked share_password_locked else do
                  now ← gets (λ s. s.clock)
                  save_accessible setup saver user token parent ip
                      (validate_share_access setup.matches now share password true))
              (λ _ s. (Slot setup runs s0 unique token password ip) s)
              (λ e s. (Whole setup runs s0 unique token password ip) s)
      rest share row =
          bind-Works _ _
            (post-Works _ (λ b s p. p)
              (λ e s p. (whole setup runs s0 unique token password ip) s p.0)
              (locked_Works setup runs s0 token ip))
            λ is_locked.
              if-Works is_locked (refuse token ip save locked share_password_locked) _
                (λ _.
                  post-Works _ (λ a s p. p)
                    (λ e s p. (whole setup runs s0 unique token password ip) s p)
                    (pre-Works _ _ (λ s p. p.0)
                      (refuse-Works token ip save locked share_password_locked)))
                (λ _.
                  bind-Works _ _ (gets-Works (λ s. s.clock) λ s p. p)
                    λ now. save_accessible-Works saver user parent _ share saves row)

  abbrev chosen : Option (Saver G) → ℕ → Option ℕ → Exec (Store C G) UserFile
  chosen saver user parent = elim saver [
    | none ↦ raise share_save_unavailable
    | some f ↦ looked_up f user parent
  ]

  by_saver :
      (saver : Option (Saver G)) (user : ℕ) (parent : Option ℕ)
      → SaverRuns saver
      → Works
          (λ s. s ≡ s0)
          (chosen saver user parent)
          (λ _ s. (Slot setup runs s0 unique token password ip) s)
          (λ e s. (Whole setup runs s0 unique token password ip) s)
  by_saver none user parent saves = raise-Works share_save_unavailable λ s e. ap (λ t. t.shares) e
  by_saver (some saver) user parent saves = looked_up-Works saver user parent saves

  -- Where all calls of the database work, those of the policy and of the file service included, and no
  -- two shares have the same token: saving a shared file takes just one slot of its share if it
  -- succeeds; if it fails, for what the visitor has shown, in the policy, for want of a slot, or in the
  -- file service after the reservation, the shares are as they were.
  pub save_to_user_files_lem :
      (user : ℕ) (parent : Option ℕ)
      → SaverRuns setup.saver
      → Post
          (λ file s. Taken setup s0 token password ip s)
          (λ e s. s.shares ≡ s0.shares)
          (save_to_user_files_from_ip setup user token password parent ip (works s0)).0
          (save_to_user_files_from_ip setup user token password parent ip (works s0)).1.store
  unfolding save_to_user_files_from_ip
  save_to_user_files_lem user parent saves = ((by_saver setup.saver user parent saves).at s0 refl).1
