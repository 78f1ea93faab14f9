-- ===== src/Share/Save.antt =====
-- internal/share/service.go: SaveToUserFilesFromIP.
use cloud_box.Base.{ℕ, String, true, not, Option, none, some, if◌then◌else◌}
use Prim.Native.String.{◌++◌}
use cloud_box.Fail.{
  Error, Result, ok, err, message, prefixed, detailed, share_save_unavailable,
  share_password_locked, share_download_rate_limit, download_limit_reached,
}
use cloud_box.Exec.{Exec, pure, raise, gets, attempt, on_error, ◌>>=◌, ◌>>◌}
use cloud_box.File.Model.{UserFile}
use cloud_box.Share.Model.{SharedFile, Store, save, allowed, denied, rate_limited, locked}
use cloud_box.Share.Repository.{
  find_by_token, find_active_file_by_share_token, reserve_download, release_download_reservation,
}
use cloud_box.Share.Service.{
  Setup, on_control, on_workspace, audit, refuse, or_refuse, or_deny, allow_download, check_policy,
  count_failure, validate_share_access, access_control_error,
}

module _ {C G : Type 0} where
  -- A failed save, with what the release of its slot gave.
  unfoldable pub release_and_refuse :
      {A : Type 0} → String → String → Error → Result (Unit {0}) → Exec (Store C G) A
  release_and_refuse token ip e (ok done) = refuse token ip save denied e
  release_and_refuse token ip e (err r) =
      refuse token ip save denied
        (detailed (prefixed "save shared file" e) ("release reservation: " ++ message r))

  -- From the result of InstantUploadIntoFolder on.
  unfoldable pub conclude : String → String → Result UserFile → Exec (Store C G) UserFile
  conclude token ip (ok file) = do audit token ip save allowed; pure file
  conclude token ip (err e) = do
    released ← attempt (release_download_reservation token)
    release_and_refuse token ip e released

module _ {C G : Type 0} (setup : Setup C G) where
  -- `if err := validateShareAccess(...)` with the calls of the access controller.
  unfoldable pub pass_password : String → String → Result (Unit {0}) → Exec (Store C G) (Unit {0})
  pass_password token ip (ok done) =
      on_error access_control_error
        (on_control (λ now. setup.control.clear_password_failures token ip))
  pass_password token ip (err e) = do count_failure setup token ip e; or_deny token ip save (err e)

  -- From the reservation on.
  unfoldable pub save_reserved :
      (ℕ → Option ℕ → String → String → Exec G UserFile)
      → ℕ
      → String
      → Option ℕ
      → String
      → SharedFile
      → Exec (Store C G) UserFile
  save_reserved saver user token parent ip file = do
    answer ← attempt (reserve_download token)
    reserved ← or_refuse token ip save answer
    if not reserved then refuse token ip save denied download_limit_reached else do
      saved ← attempt (on_workspace (saver user parent file.original_name file.file_hash))
      conclude token ip saved

  -- From the check of the password on.
  unfoldable pub save_accessible :
      (ℕ → Option ℕ → String → String → Exec G UserFile)
      → ℕ
      → String
      → Option ℕ
      → String
      → Result (Unit {0})
      → Exec (Store C G) UserFile
  save_accessible saver user token parent ip checked = do
    pass_password token ip checked
    looked ← attempt (find_active_file_by_share_token token)
    file ← or_refuse token ip save looked
    permitted ← attempt (check_policy setup file.object_id)
    or_refuse token ip save permitted
    may ← allow_download setup token ip
    if not may
        then refuse token ip save rate_limited share_download_rate_limit
        else save_reserved saver user token parent ip file

  unfoldable pub save_to_user_files_from_ip :
      ℕ → String → String → Option ℕ → String → Exec (Store C G) UserFile
  save_to_user_files_from_ip user token password parent ip = elim setup.saver [
    | none ↦ raise share_save_unavailable
    | some saver ↦ (do
      found ← attempt (find_by_token token)
      share ← or_refuse token ip save found
      is_locked ←
          on_error access_control_error (on_control (setup.control.password_locked token ip))
      if is_locked then refuse token ip save locked share_password_locked else do
        now ← gets (λ s. s.clock)
        save_accessible saver user token parent ip
            (validate_share_access setup.matches now share password true))
  ]

  unfoldable pub save_to_user_files : ℕ → String → String → Option ℕ → Exec (Store C G) UserFile
  unfolding save_to_user_files_from_ip
  save_to_user_files user token password parent =
      save_to_user_files_from_ip user token password parent ""
