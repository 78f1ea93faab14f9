-- ===== src/Share/Refund.antt =====
-- `SaveToUserFilesFromIP` of internal/share/service.go: its slot, where all calls work.
pub mod Save
use cloud_box.Base.{
  ℕ, ◌≡◌, refl, sym, ◌∙◌, ap, subst, String, Bool, true, false, not, Option, none, some,
  if◌then◌else◌,
}
use cloud_box.Fail.{
  Error, Result, ok, err, share_save_unavailable, share_password_locked, share_download_rate_limit,
  download_limit_reached,
}
use cloud_box.Exec.{Exec, works, raise, gets, attempt, on_error, ◌>>=◌, write}
use cloud_box.Exec.Works.{
  Works, Post, Post-same, pure-Works, raise-Works, gets-Works, call-Works, if-Works, bind-Works,
  attempt-Works, pre-Works, post-Works, on_error-Works,
}
use cloud_box.File.Model.{UserFile}
use cloud_box.Sql.{find_where, update_where}
use cloud_box.Share.Model.{
  Share, SharedFile, AccessResult, Store, save, allowed, denied, rate_limited, locked,
}
use cloud_box.Share.Repository.{
  has_token, may_release, one_less, release, release_download_reservation, record_share_access,
  find_by_token,
}
use cloud_box.Share.Repository.Limit.{UniqueTokens, release-reserve}
use cloud_box.Share.Service.{
  Setup, on_control, on_workspace, audit, refuse, or_refuse, access_control_error,
  validate_share_access,
}
use cloud_box.Share.Save.{
  release_and_refuse, conclude, pass_password, save_reserved, save_accessible,
  save_to_user_files_from_ip,
}
use cloud_box.Share.Access.{
  PolicyRuns, Same, Silent, Same-refl, on_control-Works, refuse-Works, or_refuse-Works,
  or_deny-Works,
}
use cloud_box.Share.Visit.{
  find_by_token-Works, find_file-Works, check_policy-Works, count_failure-Works, locked_Works,
}
use cloud_box.Share.Download.{Taken, Reserved, reserve_download-Works, allow_download-Works}

abbrev pub Saver : Type 0 → Type 0
Saver G = ℕ → Option ℕ → String → String → Exec G UserFile

-- A file service whose calls work where all calls do.
abbrev pub SaverRuns : {G : Type 0} → Option (Saver G) → Type 0
SaverRuns none = Unit {0}
SaverRuns {G} (some saver) =
    (user : ℕ) (parent : Option ℕ) (name hash : String) (g : G)
    → (saver user parent name hash (works g)).1
      ≡ works (saver user parent name hash (works g)).1.store

module _ {C G : Type 0} where
  -- A call of the file service leaves the tables of the shares alone.
  on_workspace-Works :
      {A : Type 0} (P : Store C G → Type 0) (m : Exec G A)
      → ((g : G) → (m (works g)).1 ≡ works (m (works g)).1.store)
      → ((s : Store C G) (g : G) → P s → P (record s { workspace = g }))
      → Works P (on_workspace m) (λ _ s. P s) (λ e s. P s)
  unfolding on_workspace
  on_workspace-Works P m runs moved = record {
    at = λ s p. (
      ap
          (λ v. record {
            outcomes = v.outcomes;
            store = record s { workspace = (m (works s.workspace)).1.store };
          })
          (runs s.workspace),
      Post-same P (m (works s.workspace)).0 _ (moved s _ p),
    );
  }

module _ {C G : Type 0} (setup : Setup C G) (runs : PolicyRuns setup.policy) (s0 : Store C G)
    (unique : UniqueTokens s0.shares) (token password ip : String) where
  -- The rows are as they were, and the rows after one slot has been taken.
  abbrev pub Whole : Store C G → Type 0
  Whole s = s.shares ≡ s0.shares

  abbrev pub Slot : Store C G → Type 0
  Slot s = Taken setup s0 token password ip s

  pub whole : (s : Store C G) → Same s0 s → Whole s
  whole s p = p.shares

  audited :
      (P : Store C G → Type 0) (result : AccessResult)
      → ((s : Store C G) (a : _) → P s → P (record s { audits = a }))
      → Works P (audit token ip save result) (λ _ s. P s) (λ e s. ⊥)
  unfolding audit record_share_access write
  audited P result moved = call-Works _ λ s p. moved s _ p

  refused :
      {A : Type 0} {Q : A → Store C G → Type 0} (e : Error)
      → Works Whole (refuse {A = A} token ip save denied e) Q (λ e s. Whole s)
  unfolding refuse
  refused e =
      bind-Works _ _ (attempt-Works _ _ (audited Whole denied λ s a p. p))
        λ r. raise-Works e (left r)
    where
      left :
          (r : Result (Unit {0})) (s : Store C G) → Post (λ _ t. Whole t) (λ _ t. ⊥) r s → Whole s
      left (ok a) s p = p
      left (err a) s p = absurd p

  released : Works Slot (release_download_reservation token) (λ _ s. Whole s) (λ e s. ⊥)
  unfolding release_download_reservation release write
  released = call-Works _ λ s t.
      ap (update_where (may_release token) one_less) t.shares
      ∙ release-reserve token s0.clock s0.shares unique t.one

  release_and_refuse-Works :
      {A : Type 0} {Q : A → Store C G → Type 0} (e : Error) (r : Result (Unit {0}))
      → Works
          (Post (λ _ s. Whole s) (λ e s. ⊥) r)
          (release_and_refuse {A = A} token ip e r)
          Q
          (λ e s. Whole s)
  unfolding release_and_refuse
  release_and_refuse-Works e (ok done) = refused e
  release_and_refuse-Works e (err x) = record { at = λ s p. absurd p }

  conclude-Works :
      (r : Result UserFile)
      → Works
          (Post (λ _ s. Slot s) (λ _ s. Slot s) r)
          (conclude token ip r)
          (λ _ s. Slot s)
          (λ e s. Whole s)
  unfolding conclude
  conclude-Works (ok file) =
      bind-Works _ _
        (post-Works _ (λ a s p. p) (λ e s p. absurd p)
          (audited Slot allowed λ s a t. record { one = t.one; shares = t.shares }))
        λ _. pure-Works file λ s p. p
  conclude-Works (err e) =
      bind-Works _ _ (attempt-Works _ _ released) λ r. release_and_refuse-Works e r

  pub save_reserved-Works :
      (saver : Saver G) (user : ℕ) (parent : Option ℕ) (file : SharedFile)
      → SaverRuns (some saver)
      → Works
          (Silent s0)
          (save_reserved setup saver user token parent ip file)
          (λ _ s. Slot s)
          (λ e s. Whole s)
  unfolding save_reserved
  save_reserved-Works saver user parent file saves =
      bind-Works _ _
        (attempt-Works _ _ (reserve_download-Works setup runs s0 unique token password ip))
        λ answer.
          bind-Works _ _
            (post-Works _ (λ b s p. p) (λ e s p. whole s p)
              (pre-Works _ _ (λ s p. weaken answer s p) (or_refuse-Works token ip save answer)))
            λ reserved. taken reserved
    where
      weaken :
          (r : Result Bool) (s : Store C G)
          → Post (λ b t. Reserved setup s0 token password ip b t) (λ e t. ⊥) r s
          → Post (λ b t. Reserved setup s0 token password ip b t) (λ e t. Same s0 t) r s
      weaken (ok b) s p = p
      weaken (err e) s p = absurd p

      taken :
          (reserved : Bool)
          → Works
              (Reserved setup s0 token password ip reserved)
              (if not reserved then refuse token ip save denied download_limit_reached else (do
                saved ← attempt (on_workspace (saver user parent file.original_name file.file_hash))
                conclude token ip saved))
              (λ _ s. Slot s)
              (λ e s. Whole s)
      taken false = pre-Works _ _ (λ s p. whole s p.0) (refused download_limit_reached)
      taken true =
          bind-Works _ _
            (attempt-Works _ _ (
              pre-Works _ _ (λ s p. p.0)
                (on_workspace-Works Slot _ (saves user parent file.original_name file.file_hash)
                  λ s g t. record { one = t.one; shares = t.shares })))
            λ saved. conclude-Works saved
