-- ===== src/Share/Visit/Find.antt =====
-- `findAccessibleFile` of internal/share/service.go as a whole, where all calls work.
use cloud_box.Base.{ℕ, ◌≡◌, subst, String, Bool, some}
use cloud_box.Fail.{ok, share_password_locked}
use cloud_box.Exec.{pure, raise, gets, ◌>>=◌, ◌>>◌}
use cloud_box.Exec.Works.{Works, pure-Works, raise-Works, if-Works, bind-Works, gets-Works}
use cloud_box.Sql.{find_where}
use cloud_box.Share.Model.{Share, Store}
use cloud_box.Share.Repository.{has_token, find_active_file_by_share_token}
use cloud_box.Share.Service.{
  Setup, check_policy, count_password, find_accessible_file, validate_share_access,
}
use cloud_box.Share.Access.{PolicyRuns, Silent}
use cloud_box.Share.Checks.{IsBefore, Opens, IsBelow, validated}
use cloud_box.Share.Visit.{
  Accessible, check_policy-Works, count_password-Works, find_by_token-Works, find_file-Works,
  locked_Works,
}

module _ {C G : Type 0} (setup : Setup C G) (runs : PolicyRuns setup.policy) (s0 : Store C G) where
  valid_at :
      (share : Share) (password : String) (require : Bool) (now : ℕ)
      → now ≡ s0.clock
      → validate_share_access setup.matches now share password require ≡ ok tt
      → validate_share_access setup.matches s0.clock share password require ≡ ok tt
  valid_at share password require now same v =
      subst (λ n. validate_share_access setup.matches n share password require ≡ ok tt) same v

  pub find_accessible_file-Works :
      (token password : String) (require : Bool) (ip : String)
      → Works
          (Silent s0)
          (find_accessible_file setup token password require ip)
          (λ file s. Silent s0 s × Accessible setup s0 token password require file)
          (λ e s. Silent s0 s)
  unfolding find_accessible_file
  find_accessible_file-Works token password require ip =
      bind-Works _ _ ((locked_Works setup runs s0) token ip) λ is_locked.
        if-Works is_locked (raise share_password_locked) _
          (λ _. raise-Works share_password_locked λ s p. p)
          (λ _.
            bind-Works _ _ ((find_by_token-Works setup runs s0) token)
              λ share. bind-Works _ _ (clock_read share) λ now. after_clock share now)
    where
      checked :
          (share : Share) (now : ℕ)
          → now ≡ s0.clock
          → validate_share_access setup.matches now share password require ≡ ok tt
          → IsBefore s0.clock share.expires_at
            × Opens setup.matches share.password_hash password
            × IsBelow require share.max_downloads share.download_count
      checked share now same v =
          validated setup.matches s0.clock share password require
            (valid_at share password require now same v)

      clock_read :
          (share : Share)
          → Works
              (λ s. Silent s0 s × (find_where (has_token token) s0.shares ≡ some share))
              (gets (λ s. s.clock))
              (λ now s.
                Silent s0 s
                × (find_where (has_token token) s0.shares ≡ some share)
                × (now ≡ s0.clock))
              (λ e s. Silent s0 s)
      clock_read share = gets-Works _ λ s p. (p.0, p.1, p.0.0.clock)

      after_clock :
          (share : Share) (now : ℕ)
          → Works
              (λ s.
                Silent s0 s
                × (find_where (has_token token) s0.shares ≡ some share)
                × (now ≡ s0.clock))
              (do
                count_password setup token ip
                    (validate_share_access setup.matches now share password require)
                file ← find_active_file_by_share_token token
                check_policy setup file.object_id
                pure file)
              (λ file s. Silent s0 s × Accessible setup s0 token password require file)
              (λ e s. Silent s0 s)
      after_clock share now = record {
        at = λ s (p, found, same).
            (bind-Works _ _ ((count_password-Works setup runs s0) token ip _) λ _. record {
              at = λ t (q, v).
                  (bind-Works _ _ ((find_file-Works setup runs s0) token share found) λ file.
                      record {
                        at = λ u (k, joined).
                            (bind-Works _ _ ((check_policy-Works setup runs s0) file.object_id) λ _.
                                pure-Works file λ z (m, permitted). (
                                  m,
                                  record {
                                    share = share;
                                    found = found;
                                    unexpired = (checked share now same v).0;
                                    opened = (checked share now same v).1;
                                    slot = (checked share now same v).2;
                                    joined = joined;
                                    permitted = permitted;
                                  },
                                )).at
                              u k;
                      }).at
                    t q;
            }).at
              s p;
      }
