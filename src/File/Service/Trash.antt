-- ===== src/File/Service/Trash.antt =====
-- internal/file/service.go: the trash, and what is deleted from the storage with it.
use cloud_box.Base.{ℕ, suc, Bool, Option, none, some, List, [], ◌∷◌, if◌then◌else◌}
use cloud_box.Fail.{Error, Result, ok, err, cause}
use cloud_box.Exec.{Exec, pure, attempt, ◌>>=◌, ◌>>◌}
use cloud_box.File.Model.{UserFile, FilePreview, UnreferencedFileObject}
use cloud_box.File.Tables.{Store}
use cloud_box.File.Repository.Files
use cloud_box.File.Repository.Files.{list_deleted_before}
use cloud_box.File.Repository.Removal.{permanently_delete_deleted}
use cloud_box.File.Service.{Setup, outside, ignore, invalidate_storage_usage_cache}
use cloud_box.File.Service.Jobs.{is_file_gone}

module _ {E C : Type 0} (setup : Setup E C) where
  unfoldable pub soft_delete : ℕ → ℕ → Exec (Store E) (Unit {0})
  soft_delete user file = Files.soft_delete user file

  unfoldable pub soft_delete_with_share_option : ℕ → ℕ → Bool → Exec (Store E) (Unit {0})
  soft_delete_with_share_option user file keep_shares =
      Files.soft_delete_with_share_option user file keep_shares

  unfoldable pub restore : ℕ → ℕ → Exec (Store E) (Unit {0})
  restore user file = Files.restore user file

  abbrev pub delete_preview : Option FilePreview → Exec (Store E) (Unit {0})
  delete_preview none = pure tt
  delete_preview (some p) = ignore (outside (setup.storage.delete p.storage_path))

  -- An error of the storage is logged only.
  abbrev pub delete_contents : Option UnreferencedFileObject → Exec (Store E) (Unit {0})
  delete_contents none = pure tt
  delete_contents (some u) = do
    ignore (outside (setup.storage.delete u.object.storage_path))
    delete_preview u.preview

  unfoldable pub permanently_delete : ℕ → ℕ → Exec (Store E) (Unit {0})
  permanently_delete user file = do
    unreferenced ← permanently_delete_deleted user file
    invalidate_storage_usage_cache setup user
    delete_contents unreferenced

  -- The number of files that are gone, and the error that ended the loop.
  abbrev pub Cleaned : Type 0
  Cleaned = ℕ × Option Error

  abbrev pub cleaned_on :
      Result (Unit {0}) → ℕ → (ℕ → Exec (Store E) Cleaned) → Exec (Store E) Cleaned
  cleaned_on (ok u) cleaned rest = rest (suc cleaned)
  cleaned_on (err e) cleaned rest =
      if is_file_gone (cause e) then rest cleaned else pure (cleaned, some e)

  -- The loop of CleanupDeletedBefore.
  unfoldable pub cleanup_files : List UserFile → ℕ → Exec (Store E) Cleaned
  unfolding permanently_delete
  cleanup_files [] cleaned = pure (cleaned, none)
  cleanup_files (f ∷ files) cleaned = do
    r ← attempt (permanently_delete f.user_id f.id)
    cleaned_on r cleaned (λ n. cleanup_files files n)

  abbrev pub cleanup_listed : Result (List UserFile) → Exec (Store E) Cleaned
  cleanup_listed (ok files) = cleanup_files files 0
  cleanup_listed (err e) = pure (0, some e)

  unfoldable pub cleanup_deleted_before : ℕ → Exec (Store E) Cleaned
  unfolding cleanup_files
  cleanup_deleted_before before = do r ← attempt (list_deleted_before before); cleanup_listed r
