-- ===== src/File/Service/Jobs.antt =====
-- internal/file/scan_job.go, verify_job.go and thumbnail_job.go: the handlers of the background jobs. A
-- payload is the file identifier that `json.Unmarshal` reads, or its error.
use cloud_box.Base.{ℕ, ℤ, Bool, true, false, Option, none, some, positive?, if◌then◌else◌}
use cloud_box.Fail.{
  Error, Result, ok, err, cause, prefixed, file_not_found, thumb_unsupported_content_type,
  video_thumbnail_unavailable, scan_file_id_required, scan_file_user_id_required,
  verify_file_id_required, thumbnail_file_id_required,
}
use cloud_box.Exec.{Exec, pure, raise, attempt, ◌>>=◌}
use cloud_box.File.Tables.{Store}
use cloud_box.File.Service.{Setup}
use cloud_box.File.Service.Scan.{
  scan_active_file, verify_active_file, generate_thumbnail_for_active_file,
}

-- An error after which the job is done.
abbrev pub is_file_gone : Error → Bool
is_file_gone file_not_found = true
is_file_gone _ = false

abbrev pub is_no_thumbnail : Error → Bool
is_no_thumbnail file_not_found = true
is_no_thumbnail thumb_unsupported_content_type = true
is_no_thumbnail video_thumbnail_unavailable = true
is_no_thumbnail _ = false

module _ {E C : Type 0} (setup : Setup E C) where
  abbrev pub forgive : (Error → Bool) → Result (Unit {0}) → Exec (Store E) (Unit {0})
  forgive is_done (ok u) = pure tt
  forgive is_done (err e) = if is_done (cause e) then pure tt else raise e

  abbrev pub scan_for : Option ℕ → Option ℕ → Exec (Store E) (Unit {0})
  scan_for none user = raise scan_file_id_required
  scan_for (some file) none = raise scan_file_user_id_required
  scan_for (some file) (some user) = do
    r ← attempt (scan_active_file setup user file)
    forgive is_file_gone r

  abbrev pub owner_of : Option ℤ → Option ℕ
  owner_of none = none
  owner_of (some user) = positive? user

  unfoldable pub scan_file_job_handler : Result ℤ → Option ℤ → Exec (Store E) (Unit {0})
  scan_file_job_handler (err e) user = raise (prefixed "decode file scan job payload" e)
  scan_file_job_handler (ok file) user = scan_for (positive? file) (owner_of user)

  abbrev pub verify_for : Option ℕ → Exec (Store E) (Unit {0})
  verify_for none = raise verify_file_id_required
  verify_for (some file) = do r ← attempt (verify_active_file setup file); forgive is_file_gone r

  unfoldable pub verify_file_job_handler : Result ℤ → Exec (Store E) (Unit {0})
  verify_file_job_handler (err e) = raise (prefixed "decode verify file job payload" e)
  verify_file_job_handler (ok file) = verify_for (positive? file)

  abbrev pub thumbnail_for : Option ℕ → Exec (Store E) (Unit {0})
  thumbnail_for none = raise thumbnail_file_id_required
  thumbnail_for (some file) = do
    r ← attempt (generate_thumbnail_for_active_file setup file)
    forgive is_no_thumbnail r

  unfoldable pub thumbnail_job_handler : Result ℤ → Exec (Store E) (Unit {0})
  thumbnail_job_handler (err e) = raise (prefixed "decode thumbnail job payload" e)
  thumbnail_job_handler (ok file) = thumbnail_for (positive? file)
