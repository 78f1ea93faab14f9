-- ===== src/File/Service/Access.antt =====
-- internal/file/service.go: whether a file may be read, and the functions that open one.
use cloud_box.Base.{
  ℕ, ◌+◌, String, not, Option, none, some, List, [], ◌∷◌, is_some, ltb, if◌then◌else◌,
}
use cloud_box.Fail.{
  Result, ok, err, cause, file_scan_incomplete, file_infected, inline_preview_unsupported,
}
use cloud_box.Exec.{Exec, pure, raise, query, attempt, ◌>>=◌, ◌>>◌}
use cloud_box.Text.MediaType.{supports_inline_preview}
use cloud_box.File.Model.{
  UserFile, FilePreview, FileScan, ScanStatus, pending, scanning, clean, infected, failed,
  Availability, ready, processing, unavailable, SearchFilter, is_active,
}
use cloud_box.File.Tables.{Store}
use cloud_box.File.Repository.Files.{find_active_by_id, find_object_for_active_file}
use cloud_box.File.Repository.Files
use cloud_box.File.Repository.Scans.{
  find_file_scan_by_object_id, find_file_preview_for_active_file, is_scan_not_found,
}
use cloud_box.File.Service.{Setup, AvailableFile, validate_folder}

-- The switch of withAvailability.
abbrev pub availability_of : ScanStatus → Availability
availability_of pending = processing
availability_of scanning = processing
availability_of clean = ready
availability_of infected = unavailable
availability_of failed = processing

abbrev pub with : UserFile → Availability → AvailableFile
with f a = record { file = f; availability = a; cleanup_at = none }

-- The switch of CheckFileObjectDownload.
abbrev pub download_verdict : {E : Type 0} → ScanStatus → Exec (Store E) (Unit {0})
download_verdict pending = raise file_scan_incomplete
download_verdict scanning = raise file_scan_incomplete
download_verdict clean = pure tt
download_verdict infected = raise file_infected
download_verdict failed = raise file_scan_incomplete

module _ {E C : Type 0} (setup : Setup E C) where
  abbrev pub scanned_availability : UserFile → Result FileScan → Exec (Store E) AvailableFile
  scanned_availability f (ok c) = pure (with f (availability_of c.status))
  scanned_availability f (err e) =
      if is_scan_not_found (cause e) then pure (with f processing) else raise e

  unfoldable pub with_availability : UserFile → Exec (Store E) AvailableFile
  with_availability f =
      if not (is_active f.status)
      then pure (with f unavailable)
      else if not (is_some setup.virus_scanner)
      then pure (with f ready)
      else (do
        o ← find_object_for_active_file f.id
        r ← attempt (find_file_scan_by_object_id o.id)
        scanned_availability f r)

  -- The loop over a list of files; the first error ends it.
  unfoldable pub with_availabilities : List UserFile → Exec (Store E) (List AvailableFile)
  unfolding with_availability
  with_availabilities [] = pure []
  with_availabilities (f ∷ fs) = do
    a ← with_availability f
    rest ← with_availabilities fs
    pure (a ∷ rest)

  unfoldable pub search_active : ℕ → SearchFilter → Exec (Store E) (List AvailableFile)
  unfolding with_availabilities
  search_active user filter = do
    files ← Files.search_active setup.dialect user filter
    with_availabilities files

  unfoldable pub list_active_in_folder : ℕ → Option ℕ → Exec (Store E) (List AvailableFile)
  unfolding with_availabilities
  list_active_in_folder user parent = do
    validate_folder user parent
    files ← Files.list_active_in_folder user parent
    with_availabilities files

  unfoldable pub list_active : ℕ → Exec (Store E) (List AvailableFile)
  unfolding list_active_in_folder
  list_active user = list_active_in_folder user none

  abbrev pub cleanup_time : Option ℕ → Option ℕ
  cleanup_time none = none
  cleanup_time (some t) =
      if ltb 0 setup.trash_retention then some (t + setup.trash_retention) else none

  -- The loop of ListDeleted.
  unfoldable pub with_cleanup : List UserFile → Exec (Store E) (List AvailableFile)
  unfolding with_availability
  with_cleanup [] = pure []
  with_cleanup (f ∷ fs) = do
    a ← with_availability f
    rest ← with_cleanup fs
    pure (record a { cleanup_at = cleanup_time f.deleted_at } ∷ rest)

  unfoldable pub list_deleted : ℕ → Exec (Store E) (List AvailableFile)
  unfolding with_cleanup
  list_deleted user = do files ← Files.list_deleted user; with_cleanup files

  abbrev pub verdict_of : Result FileScan → Exec (Store E) (Unit {0})
  verdict_of (ok c) = download_verdict c.status
  verdict_of (err e) = if is_scan_not_found (cause e) then raise file_scan_incomplete else raise e

  unfoldable pub check_file_object_download : ℕ → Exec (Store E) (Unit {0})
  check_file_object_download object =
      if not (is_some setup.virus_scanner)
      then pure tt
      else (do r ← attempt (find_file_scan_by_object_id object); verdict_of r)

  abbrev pub open_at : String → Exec (Store E) C
  open_at path = query (λ s. setup.storage.open_file path s.env)

  unfoldable pub open_for_download : ℕ → ℕ → Exec (Store E) (UserFile × C)
  unfolding check_file_object_download
  open_for_download user file = do
    f ← find_active_by_id user file
    o ← find_object_for_active_file file
    check_file_object_download o.id
    content ← open_at f.storage_path
    pure (f, content)

  unfoldable pub open_thumbnail_for_download : ℕ → ℕ → Exec (Store E) (FilePreview × C)
  unfolding check_file_object_download
  open_thumbnail_for_download user file = do
    p ← find_file_preview_for_active_file user file
    check_file_object_download p.file_object_id
    content ← open_at p.storage_path
    pure (p, content)

  unfoldable pub open_inline_preview : ℕ → ℕ → Exec (Store E) (UserFile × C)
  unfolding check_file_object_download
  open_inline_preview user file = do
    f ← find_active_by_id user file
    if not (supports_inline_preview f.content_type) then raise inline_preview_unsupported else (do
      o ← find_object_for_active_file file
      check_file_object_download o.id
      content ← open_at f.storage_path
      pure (f, content))
