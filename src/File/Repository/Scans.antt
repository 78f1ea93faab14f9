-- ===== src/File/Repository/Scans.antt =====
-- internal/file/repository.go: previews and virus scans, one row at most for a content.
use cloud_box.Base.{
  ℕ, String, Bool, true, false, not, ◌&&◌, Option, none, some, ◌==◌, ltb, is_some, if◌then◌else◌,
}
use cloud_box.Fail.{
  Error, Result, ok, err, external, cause, file_preview_not_found, file_scan_not_found,
}
use cloud_box.Exec.{Exec, pure, raise, call, query, attempt, ◌>>=◌}
use cloud_box.Sql.{find_where, update_where, returning, insert_row}
use cloud_box.File.Model.{
  UserFile, FilePreview, FileScan, ScanStatus, pending, scanning, clean, infected, failed, active,
}
use cloud_box.File.Tables.{Store, scan_row, preview_of, scan_of, object_exists}
use cloud_box.File.Repository.Files.{is_file}

abbrev pub scan_file_preview : Option FilePreview → Result FilePreview
scan_file_preview = scan_row file_preview_not_found

abbrev pub scan_file_scan : Option FileScan → Result FileScan
scan_file_scan = scan_row file_scan_not_found

-- status IN ('pending', 'failed')
abbrev pub is_claimable : ScanStatus → Bool
is_claimable pending = true
is_claimable scanning = false
is_claimable clean = false
is_claimable infected = false
is_claimable failed = true

abbrev pub is_scanning : ScanStatus → Bool
is_scanning pending = false
is_scanning scanning = true
is_scanning clean = false
is_scanning infected = false
is_scanning failed = false

abbrev pub is_scan_not_found : Error → Bool
is_scan_not_found file_scan_not_found = true
is_scan_not_found _ = false

-- CASE WHEN $3 THEN CURRENT_TIMESTAMP ELSE NULL END
abbrev pub time_if : Bool → ℕ → Option ℕ
time_if true now = some now
time_if false now = none

abbrev pub joined_preview {ℓ} : {A : Type ℓ} → Option UserFile → (ℕ → Option A) → Option A
joined_preview none find = none
joined_preview (some f) find = elim f.object_id [ none ↦ none | some o ↦ find o ]

abbrev pub claimable : ℕ → FileScan → Bool
claimable object c = scan_of object c && is_claimable c.status

abbrev pub claimed_at : ℕ → FileScan → FileScan
claimed_at now c = record c {
  status = scanning;
  signature = none;
  scanned_at = none;
  updated_at = now;
}

abbrev pub running : ℕ → FileScan → Bool
running object c = scan_of object c && is_scanning c.status

abbrev pub ended_at : ScanStatus → Option String → Bool → ℕ → FileScan → FileScan
ended_at status signature completed now c = record c {
  status = status;
  signature = signature;
  scanned_at = time_if completed now;
  updated_at = now;
}

module _ {E : Type 0} where
  unfoldable pub find_file_preview_by_object_id : ℕ → Exec (Store E) FilePreview
  find_file_preview_by_object_id object =
      query (λ s. scan_file_preview (find_where (preview_of object) s.previews))

  unfoldable pub find_file_preview_for_active_file : ℕ → ℕ → Exec (Store E) FilePreview
  find_file_preview_for_active_file user file = query (λ s. scan_file_preview (
      joined_preview (find_where (is_file user file active) s.user_files)
        (λ o. find_where (preview_of o) s.previews)))

  -- INSERT ... ON CONFLICT (file_object_id) DO NOTHING, with the number of rows.
  unfoldable pub insert_preview : FilePreview → Store E → Result ℕ × Store E
  insert_preview p s =
      if not (ltb 0 p.width && ltb 0 p.height)
      then (err (external "CHECK constraint failed: file_previews"), s)
      else if is_some (find_where (preview_of p.file_object_id) s.previews)
      then (ok 0, s)
      else if object_exists (some p.file_object_id) s
      then (ok 1, record s { previews = insert_row (record p { created_at = s.clock }) s.previews })
      else (err (external "FOREIGN KEY constraint failed"), s)

  unfoldable pub create_file_preview : FilePreview → Exec (Store E) Bool
  create_file_preview p = do n ← call (insert_preview p); rows ← query (λ s. ok n); pure (rows == 1)

  unfoldable pub find_file_scan_by_object_id : ℕ → Exec (Store E) FileScan
  find_file_scan_by_object_id object =
      query (λ s. scan_file_scan (find_where (scan_of object) s.scans))

  unfoldable pub insert_scan : ℕ → Store E → Result ℕ × Store E
  insert_scan object s =
      if is_some (find_where (scan_of object) s.scans)
      then (ok 0, s)
      else if object_exists (some object) s
      then (
        ok 1,
        record s {
          scans =
              insert_row
                (record {
                  file_object_id = object;
                  status = pending;
                  signature = none;
                  scanned_at = none;
                  created_at = s.clock;
                  updated_at = s.clock;
                })
                s.scans;
        },
      )
      else (err (external "FOREIGN KEY constraint failed"), s)

  unfoldable pub create_pending_file_scan : ℕ → Exec (Store E) (FileScan × Bool)
  create_pending_file_scan object = do
    n ← call (insert_scan object)
    rows ← query (λ s. ok n)
    c ← find_file_scan_by_object_id object
    pure (c, rows == 1)

  -- UPDATE file_scans SET ... WHERE ... RETURNING ..., as scanFileScan reads it.
  unfoldable pub update_scans :
      (FileScan → Bool) → (ℕ → FileScan → FileScan) → Store E → Result FileScan × Store E
  update_scans p f s = (
    scan_file_scan (returning p (f s.clock) s.scans),
    record s { scans = update_where p (f s.clock) s.scans },
  )

  abbrev pub unclaimed : ℕ → Result FileScan → Exec (Store E) (FileScan × Bool)
  unclaimed object (ok c) = pure (c, true)
  unclaimed object (err e) =
      if is_scan_not_found (cause e)
      then (do existing ← find_file_scan_by_object_id object; pure (existing, false))
      else raise e

  unfoldable pub claim_file_scan : ℕ → Exec (Store E) (FileScan × Bool)
  claim_file_scan object = do
    r ← attempt (call (update_scans (claimable object) claimed_at))
    unclaimed object r

  unfoldable pub update_running_file_scan :
      ℕ → ScanStatus → Option String → Bool → Exec (Store E) FileScan
  update_running_file_scan object status signature completed =
      call (update_scans (running object) (ended_at status signature completed))

  unfoldable pub complete_file_scan : ℕ → Bool → String → Exec (Store E) FileScan
  unfolding update_running_file_scan
  complete_file_scan object is_infected signature =
      if is_infected
      then update_running_file_scan object infected (some signature) true
      else update_running_file_scan object clean none true

  unfoldable pub fail_file_scan : ℕ → Exec (Store E) FileScan
  unfolding update_running_file_scan
  fail_file_scan object = update_running_file_scan object failed none false
