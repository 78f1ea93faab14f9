-- ===== src/Share/Service.antt =====
-- internal/share/service.go, for shares of one file. Parameters: the access controller, `storage.Open` as
-- what it reads at a path, the download policy and the file saver, which are options of the service
-- and work on the state of the file service, `bcrypt` with its two functions, and the token that is
-- drawn. The auditor is the repository, as NewService has it. A call that only closes a reader, or an audit
-- whose error is dropped, is an attempt.
use cloud_box.Base.{
  ℕ, ◌*◌, String, Bool, true, false, ◌&&◌, not, Option, none, some, leb, if◌then◌else◌,
}
use cloud_box.Fail.{
  Error, Result, ok, err, cause, message, detailed, share_expired, share_password_required,
  share_password_invalid, download_limit_reached, shared_file_unavailable, share_password_locked,
  share_download_rate_limit, share_access_control_unavailable,
}
use cloud_box.Exec.{Exec, pure, raise, gets, query, attempt, on_error, ◌>>=◌, ◌>>◌}
use cloud_box.Text.{is_empty}
use cloud_box.Disk.{Bytes}
use cloud_box.File.Model.{UserFile}
use cloud_box.Share.Model.{
  Share, SharedFile, AccessAction, AccessResult, AccessController, Store, denied, rate_limited,
  locked,
}
use cloud_box.Share.Repository.{
  find_by_token, find_active_file_by_share_token, record_share_access, unexpired,
}

-- 7 * 24 * time.Hour, in nanoseconds
abbrev pub default_share_lifetime : ℕ
default_share_lifetime = 7 * 24 * (60 * (60 * 1000000000))

abbrev pub access_control_error : Error → Error
access_control_error e = detailed share_access_control_unavailable (message e)

-- `errors.Is(err, ErrSharePasswordLocked)`, then `ErrShareDownloadRateLimit`
abbrev pub result_of_cause : Error → AccessResult
result_of_cause share_password_locked = locked
result_of_cause share_download_rate_limit = rate_limited
result_of_cause _ = denied

unfoldable pub access_result : Error → AccessResult
access_result e = result_of_cause (cause e)

abbrev pub is_password_invalid : Error → Bool
is_password_invalid share_password_invalid = true
is_password_invalid _ = false

-- `bcrypt.CompareHashAndPassword` is `matches`, which says whether there is no error.
abbrev pub check_password : (String → String → Bool) → String → String → Result (Unit {0})
check_password matches stored password =
    if is_empty stored
    then ok tt
    else if is_empty password
    then err share_password_required
    else if matches stored password
    then ok tt
    else err share_password_invalid

abbrev pub limit_reached : Option ℕ → ℕ → Bool
limit_reached none count = false
limit_reached (some limit) count = leb limit count

abbrev pub then_slot : Result (Unit {0}) → Bool → Share → Result (Unit {0})
then_slot (err e) require share = err e
then_slot (ok done) require share =
    if require && limit_reached share.max_downloads share.download_count
    then err download_limit_reached
    else ok tt

unfoldable pub validate_share_access :
    (String → String → Bool) → ℕ → Share → String → Bool → Result (Unit {0})
validate_share_access matches now share password require =
    if not (unexpired now share.expires_at)
    then err share_expired
    else then_slot (check_password matches share.password_hash password) require share

-- What the service is made with.
pub record Setup (C G : Type 0) : Type 0 where
  pub control : AccessController C
  pub opens : String → Result Bytes
  pub policy : Option (ℕ → Exec G (Unit {0}))
  pub saver : Option (ℕ → Option ℕ → String → String → Exec G UserFile)
  pub matches : String → String → Bool
  pub hash_password : String → Result String

module _ {C G : Type 0} where
  -- A call of the access controller: an error is the controller's own.
  unfoldable pub on_control : {A : Type 0} → (ℕ → C → Result A × C) → Exec (Store C G) A
  on_control f w =
      let (r, c) = f w.store.clock w.store.control in
      (r, record w { store = record w.store { control = c } })

  unfoldable pub on_workspace : {A : Type 0} → Exec G A → Exec (Store C G) A
  on_workspace m w =
      let (r, v) = m (record { outcomes = w.outcomes; store = w.store.workspace }) in
      (r, record { outcomes = v.outcomes; store = record w.store { workspace = v.store } })

  unfoldable pub audit : String → String → AccessAction → AccessResult → Exec (Store C G) (Unit {0})
  audit token ip action result =
      record_share_access (record { token = token; ip_hash = ip; action = action; result = result })

  -- `_ = s.audit(...); return nil, err`
  unfoldable pub refuse :
      {A : Type 0} → String → String → AccessAction → AccessResult → Error → Exec (Store C G) A
  refuse token ip action result e = do attempt (audit token ip action result); raise e

  -- The result, or the refusal of what went wrong.
  unfoldable pub or_refuse :
      {A : Type 0} → String → String → AccessAction → Result A → Exec (Store C G) A
  or_refuse token ip action (ok a) = pure a
  or_refuse token ip action (err e) = refuse token ip action denied e

  -- The same, with the result that the error stands for.
  unfoldable pub or_deny :
      {A : Type 0} → String → String → AccessAction → Result A → Exec (Store C G) A
  or_deny token ip action (ok a) = pure a
  or_deny token ip action (err e) = refuse token ip action (access_result e) e

  unfoldable pub close_reader : Exec (Store C G) (Unit {0})
  close_reader = query (λ s. ok tt)

module _ {C G : Type 0} (setup : Setup C G) where
  unfoldable pub allow_download : String → String → Exec (Store C G) Bool
  allow_download token ip =
      on_error access_control_error (on_control (setup.control.allow_download token ip))

  unfoldable pub check_policy : ℕ → Exec (Store C G) (Unit {0})
  check_policy object = elim setup.policy [
    | none ↦ pure tt
    | some check ↦
        on_error (λ e. detailed shared_file_unavailable (message e)) (on_workspace (check object))
  ]

  unfoldable pub count_failure : String → String → Error → Exec (Store C G) (Unit {0})
  count_failure token ip e =
      if is_password_invalid e
      then on_error access_control_error
          (on_control (setup.control.record_password_failure token ip))
      else pure tt

  -- The failure is counted for a wrong password, and the failures are cleared for a right one.
  unfoldable pub count_password : String → String → Result (Unit {0}) → Exec (Store C G) (Unit {0})
  count_password token ip (ok done) =
      on_error access_control_error
        (on_control (λ now. setup.control.clear_password_failures token ip))
  count_password token ip (err e) = do count_failure token ip e; raise e

  unfoldable pub find_accessible_file :
      String → String → Bool → String → Exec (Store C G) SharedFile
  find_accessible_file token password require ip = do
    is_locked ← on_error access_control_error (on_control (setup.control.password_locked token ip))
    if is_locked then raise share_password_locked else do
      share ← find_by_token token
      now ← gets (λ s. s.clock)
      count_password token ip (validate_share_access setup.matches now share password require)
      file ← find_active_file_by_share_token token
      check_policy file.object_id
      pure file
