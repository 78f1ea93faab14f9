-- ===== src/File/Repository/Removal.antt =====
-- internal/file/repository.go: PermanentlyDeleteDeleted, which gives up a content with its last file.
use cloud_box.Base.{
  ℕ, ◌-◌, Bool, true, false, not, ◌&&◌, Option, none, some, ◌==◌, ltb, is_some, if◌then◌else◌,
}
use cloud_box.Fail.{
  Error, Result, ok, err, external, cause, file_not_found, file_object_not_found,
  file_preview_not_found,
}
use cloud_box.Exec.{Exec, pure, raise, call, query, write, attempt, transaction, ◌>>=◌, ◌>>◌}
use cloud_box.Sql.{find_where, update_where, returning, delete_where, affected}
use cloud_box.File.Model.{FileObject, FilePreview, UnreferencedFileObject, deleted}
use cloud_box.File.Tables.{Store, scan_row, file_of, object_has_id, preview_of, scan_of}
use cloud_box.File.Repository.Files.{is_file, joined_object, shares_file, delete_shares}
use cloud_box.File.Repository.Scans.{scan_file_preview}

abbrev pub one_reference_less : FileObject → FileObject
one_reference_less o = record o { reference_count = o.reference_count - 1 }

abbrev pub is_referenced : ℕ → FileObject → Bool
is_referenced object o = object_has_id object o && ltb 0 o.reference_count

abbrev pub is_unreferenced : ℕ → FileObject → Bool
is_unreferenced object o = object_has_id object o && o.reference_count == 0

abbrev pub is_preview_not_found : Error → Bool
is_preview_not_found file_preview_not_found = true
is_preview_not_found _ = false

module _ {E : Type 0} where
  -- DELETE FROM user_files: refused while a share refers to the row; with the number of rows.
  unfoldable pub delete_files : ℕ → ℕ → Store E → Result ℕ × Store E
  delete_files user file s =
      let hits = affected (is_file user file deleted) s.user_files in
      if ltb 0 hits && is_some (find_where (shares_file file) s.shares)
      then (err (external "FOREIGN KEY constraint failed"), s)
      else (
        ok hits,
        record s { user_files = delete_where (is_file user file deleted) s.user_files },
      )

  -- UPDATE ... SET reference_count = reference_count - 1 ... RETURNING reference_count
  unfoldable pub drop_reference : ℕ → Store E → Result ℕ × Store E
  drop_reference object s = (
    elim (returning (is_referenced object) one_reference_less s.objects) [
      | none ↦ err file_object_not_found
      | some o ↦ ok o.reference_count
    ],
    record s { objects = update_where (is_referenced object) one_reference_less s.objects },
  )

  -- DELETE FROM file_objects: refused while a file refers to the row; previews and scans go with it.
  unfoldable pub delete_objects : ℕ → Store E → Result ℕ × Store E
  delete_objects object s =
      let hits = affected (is_unreferenced object) s.objects in
      if ltb 0 hits && is_some (find_where (file_of object) s.user_files)
      then (err (external "FOREIGN KEY constraint failed"), s)
      else if ltb 0 hits
      then (
        ok hits,
        record s {
          objects = delete_where (is_unreferenced object) s.objects;
          previews = delete_where (preview_of object) s.previews;
          scans = delete_where (scan_of object) s.scans;
        },
      )
      else (ok hits, s)

  abbrev pub optional_preview : Result FilePreview → Exec (Store E) (Option FilePreview)
  optional_preview (ok p) = pure (some p)
  optional_preview (err e) = if is_preview_not_found (cause e) then pure none else raise e

  -- The end of PermanentlyDeleteDeleted for the last reference.
  unfoldable pub delete_unreferenced : FileObject → Exec (Store E) (Option UnreferencedFileObject)
  delete_unreferenced o = do
    r ← attempt (query (λ s. scan_file_preview (find_where (preview_of o.id) s.previews)))
    preview ← optional_preview r
    n ← call (delete_objects o.id)
    rows ← query (λ s. ok n)
    if not (rows == 1)
        then raise file_object_not_found
        else (pure (some (record { object = o; preview = preview })))

  unfoldable pub permanently_delete_body : ℕ → ℕ → Exec (Store E) (Option UnreferencedFileObject)
  unfolding delete_unreferenced
  permanently_delete_body user file = do
    o ← query (λ s.
        scan_row file_not_found
          (joined_object (find_where (is_file user file deleted) s.user_files) s.objects))
    write (delete_shares file)
    n ← call (delete_files user file)
    rows ← query (λ s. ok n)
    if not (rows == 1) then raise file_not_found else (do
      remaining ← call (drop_reference o.id)
      if ltb 0 remaining then pure none else delete_unreferenced o)

  unfoldable pub permanently_delete_deleted : ℕ → ℕ → Exec (Store E) (Option UnreferencedFileObject)
  unfolding permanently_delete_body
  permanently_delete_deleted user file = transaction (permanently_delete_body user file)
