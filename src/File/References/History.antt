-- ===== src/File/References/History.antt =====
-- The books of internal/file/repository.go over any history of calls.
use cloud_box.Base.{
  ℕ, String, Option, none, List, ◌==◌, ◌≡◌, refl, sym, subst, inl, inr, Bool-cases, arith, ◌||◌,
}
use cloud_box.Fail.{Result, ok, err}
use cloud_box.Exec.{World}
use cloud_box.Exec.Ensures.{transaction-Keeps}
use cloud_box.File.Model.{UserFile, FileObject, FilePreview, active, deleted}
use cloud_box.File.Tables.{Store, folder_exists}
use cloud_box.File.Repository.Files.{
  new_file, insert_file, update_files, is_file, delete_shares, moved_to_trash, taken_from_trash,
}
use cloud_box.File.Repository.Scans.{insert_preview, insert_scan, update_scans}
use cloud_box.File.Repository.Folders.{
  insert_folder, rename_folders, move_folders, delete_folders, move_files,
}
use cloud_box.File.History.{Operation, run}
use cloud_box.File.History.Units.{Units, run-Units}
use cloud_box.File.References.{IsConsistent, Books, Balanced}
use cloud_box.Exec.Works.{Post}
use cloud_box.Sql.{affected}
use cloud_box.File.References.Statements.{
  insert_file-Balanced, update_files-Balanced, insert_object-Balanced,
}
use cloud_box.File.References.Transactions.{reference_file-Ensures, create_many_body-Ensures}
use cloud_box.File.References.Doomed.{permanently_delete_body-Ensures}

module _ {E : Type 0} where
  abbrev books : Store E → List FileObject × List UserFile × ℕ × ℕ
  books s = (s.objects, s.user_files, s.next_object_id, s.next_file_id)

  -- What leaves the books alone.
  same_books : (t s : Store E) → books t ≡ books s → IsConsistent s → IsConsistent t
  same_books t s same c = subst (λ b. Books none none b.0 b.1 b.2 b.3) (sym same) c

  insert_preview-books : (p : FilePreview) (s : Store E) → books (insert_preview p s).1 ≡ books s
  unfolding insert_preview
  insert_preview-books p s = ground arith

  insert_scan-books : (object : ℕ) (s : Store E) → books (insert_scan object s).1 ≡ books s
  unfolding insert_scan
  insert_scan-books object s = ground arith

  insert_folder-books :
      (user : ℕ) (parent : Option ℕ) (name : String) (s : Store E)
      → books (insert_folder user parent name s).1 ≡ books s
  unfolding insert_folder
  insert_folder-books user parent name s = ground arith

  delete_folders-books :
      (user folder : ℕ) (s : Store E) → books (delete_folders user folder s).1 ≡ books s
  unfolding delete_folders
  delete_folders-books user folder s = ground arith

  rename_folders-books :
      (user folder : ℕ) (name : String) (s : Store E)
      → books (rename_folders user folder name s).1 ≡ books s
  unfolding rename_folders
  rename_folders-books user folder name s = ground arith

  move_folders-books :
      (user folder : ℕ) (parent : Option ℕ) (s : Store E)
      → books (move_folders user folder parent s).1 ≡ books s
  unfolding move_folders
  move_folders-books user folder parent s = ground arith

  inserted :
      (f : UserFile)
      → f.object_id ≡ none
      → (s : Store E) → IsConsistent s
      → IsConsistent (insert_file f s).1
  inserted f no_object s c = either (insert_file f s) (
      subst
        (λ o.
          Post (λ _ t. Balanced o none t) (λ _ t. t ≡ s) (insert_file f s).0 (insert_file f s).1)
        no_object (insert_file-Balanced f s c))
    where
      either :
          (r : Result UserFile × Store E)
          → Post (λ _ t. IsConsistent t) (λ _ t. t ≡ s) r.0 r.1
          → IsConsistent r.1
      either (ok f, t) k = k
      either (err e, t) k = subst IsConsistent (sym k) c

  move_files-IsConsistent :
      (user file : ℕ) (parent : Option ℕ) (s : Store E)
      → IsConsistent s
      → IsConsistent (move_files user file parent s).1
  unfolding move_files
  move_files-IsConsistent user file parent s c =
      elim (Bool-cases
        (folder_exists parent s || affected (is_file user file active) s.user_files == 0)) [
          | inr t ↦ rw t c
          | inl t ↦ rw t (
              update_files-Balanced (is_file user file active)
                (λ f. record f { parent_id = parent }) s (λ f. refl) (λ f. refl) c)
        ]

  units : Units {E = E} IsConsistent
  unfolding update_files delete_shares update_scans
  units = record {
    inserts =
        λ user name path size type. inserted (new_file user none none name path size type) refl;
    inserts_object = insert_object-Balanced;
    references_one =
        λ user parent name o. transaction-Keeps _ (reference_file-Ensures user parent name o);
    references_all = λ user parent objects names quota.
        transaction-Keeps _ (create_many_body-Ensures user parent objects names quota);
    removal = λ user file. transaction-Keeps _ (permanently_delete_body-Ensures user file);
    trashes = λ user file s.
        update_files-Balanced (is_file user file active) (moved_to_trash s) s (λ f. refl)
          (λ f. refl);
    unshares = λ file s c. c;
    untrashes = λ user file s.
        update_files-Balanced (is_file user file deleted) (taken_from_trash s) s (λ f. refl)
          (λ f. refl);
    renames_file = λ user file name s.
        update_files-Balanced (is_file user file active) _ s (λ f. refl) (λ f. refl);
    moves_file = move_files-IsConsistent;
    inserts_preview = λ p s. same_books (insert_preview p s).1 s (insert_preview-books p s);
    inserts_scan = λ object s. same_books (insert_scan object s).1 s (insert_scan-books object s);
    claims = λ object s c. c;
    ends = λ object t signature completed s c. c;
    inserts_folder = λ user parent name s.
        same_books (insert_folder user parent name s).1 s (insert_folder-books user parent name s);
    renames_row = λ user folder name s.
        same_books (rename_folders user folder name s).1 s
          (rename_folders-books user folder name s);
    moves_row = λ user folder parent s.
        same_books (move_folders user folder parent s).1 s
          (move_folders-books user folder parent s);
    deletes_row = λ user folder s.
        same_books (delete_folders user folder s).1 s (delete_folders-books user folder s);
  }

  -- Whatever calls of the repository are made, and wherever the database fails in them: every content
  -- counts exactly the files that refer to it, no file refers to a content that is gone, and
  -- identifiers and hashes stay unique, if all this holds at first.
  pub run-IsConsistent :
      (os : List Operation) (w : World (Store E))
      → IsConsistent w.store
      → IsConsistent ((run os w).1).store
  run-IsConsistent os w c = (run-Units units os).at w c
