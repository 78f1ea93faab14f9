-- ===== src/File/Verdicts/History.antt =====
-- The verdicts of internal/file/repository.go over any history of calls.
use cloud_box.Base.{
  ℕ, ◌<◌, ◌≡◌, refl, sym, subst, Bool, true, false, Option, none, some, List, arith, String,
}
use cloud_box.Exec.{World}
use cloud_box.Sql.{find_where}
use cloud_box.File.Model.{UserFile, FileObject, FileScan, FilePreview, ScanStatus}
use cloud_box.File.Tables.{Store, scan_of, object_has_id}
use cloud_box.File.Repository.Files.{new_file, insert_file, update_files, delete_shares}
use cloud_box.File.Repository.Scans.{
  insert_preview, update_scans, claimable, claimed_at, running, ended_at,
}
use cloud_box.File.Repository.Objects.{update_objects, one_reference_more}
use cloud_box.File.Repository.Removal.{
  delete_files, drop_reference, is_referenced, one_reference_less,
}
use cloud_box.File.Repository.Folders.{
  insert_folder, rename_folders, move_folders, delete_folders, move_files,
}
use cloud_box.File.History.{Operation, run}
use cloud_box.File.History.Units.{Units, run-Units}
use cloud_box.File.History.Single.{
  Single, reference_file-Keeps, create_many_body-Keeps, permanently_delete_body-Keeps,
}
use cloud_box.File.References.{IsConsistent}
use cloud_box.File.Verdicts.{
  Standing, judged, Settles, is_verdict, update_scans-Settles, update_objects-Settles,
  not_claimable, not_scanning,
}
use cloud_box.File.Verdicts.Statements.{
  Settled, insert_scan-Settled, insert_object-Settled, delete_objects-Settled,
}

module _ {E : Type 0} where
  abbrev tables : Store E → List FileObject × List FileScan × ℕ
  tables s = (s.objects, s.scans, s.next_object_id)

  insert_file-tables : (f : UserFile) (s : Store E) → tables (insert_file f s).1 ≡ tables s
  unfolding insert_file
  insert_file-tables f s = ground arith

  delete_files-tables :
      (user file : ℕ) (s : Store E) → tables (delete_files user file s).1 ≡ tables s
  unfolding delete_files
  delete_files-tables user file s = ground arith

  move_files-tables :
      (user file : ℕ) (parent : Option ℕ) (s : Store E)
      → tables (move_files user file parent s).1 ≡ tables s
  unfolding move_files
  move_files-tables user file parent s = ground arith

  insert_preview-tables : (p : FilePreview) (s : Store E) → tables (insert_preview p s).1 ≡ tables s
  unfolding insert_preview
  insert_preview-tables p s = ground arith

  insert_folder-tables :
      (user : ℕ) (parent : Option ℕ) (name : String) (s : Store E)
      → tables (insert_folder user parent name s).1 ≡ tables s
  unfolding insert_folder
  insert_folder-tables user parent name s = ground arith

  rename_folders-tables :
      (user folder : ℕ) (name : String) (s : Store E)
      → tables (rename_folders user folder name s).1 ≡ tables s
  unfolding rename_folders
  rename_folders-tables user folder name s = ground arith

  move_folders-tables :
      (user folder : ℕ) (parent : Option ℕ) (s : Store E)
      → tables (move_folders user folder parent s).1 ≡ tables s
  unfolding move_folders
  move_folders-tables user folder parent s = ground arith

  delete_folders-tables :
      (user folder : ℕ) (s : Store E) → tables (delete_folders user folder s).1 ≡ tables s
  unfolding delete_folders
  delete_folders-tables user folder s = ground arith

module _ {E : Type 0} (object : ℕ) (verdict : ScanStatus) (final : is_verdict verdict ≡ true) where
  same_tables :
      (t s : Store E) → tables t ≡ tables s → Settled object verdict s → Settled object verdict t
  same_tables t s same h = subst (λ b. Settles object verdict b.0 b.1 b.2) (sym same) h

  claims-Settled :
      (k : ℕ) (s : Store E)
      → Settled object verdict s
      → Settled object verdict (update_scans (claimable k) claimed_at s).1
  unfolding update_scans
  claims-Settled k s h =
      update_scans-Settles object verdict final (claimable k) (claimed_at s.clock) s.objects s.scans
        s.next_object_id (λ c. refl) apart h
    where
      apart : (c : FileScan) → c.status ≡ verdict → claimable k c ≡ false
      apart c e = ground (arith, not_claimable object verdict final c.status e)

  ends-Settled :
      (k : ℕ) (t : ScanStatus) (signature : Option String) (completed : Bool) (s : Store E)
      → Settled object verdict s
      → Settled object verdict (update_scans (running k) (ended_at t signature completed) s).1
  unfolding update_scans
  ends-Settled k t signature completed s h =
      update_scans-Settles object verdict final (running k) (ended_at t signature completed s.clock)
        s.objects s.scans s.next_object_id (λ c. refl) apart h
    where
      apart : (c : FileScan) → c.status ≡ verdict → running k c ≡ false
      apart c e = ground (arith, not_scanning object verdict final c.status e)

  single : Single {E = E} (Settled object verdict)
  unfolding update_objects delete_shares drop_reference
  single = record {
    inserts_file = λ f s. same_tables (insert_file f s).1 s (insert_file-tables f s);
    adds = λ k s.
        update_objects-Settles object verdict final (object_has_id k) one_reference_more s.objects
          s.scans s.next_object_id (λ o. refl);
    unshares_one = λ file s h. h;
    deletes_file =
        λ user file s. same_tables (delete_files user file s).1 s (delete_files-tables user file s);
    drops = λ k s.
        update_objects-Settles object verdict final (is_referenced k) one_reference_less s.objects
          s.scans s.next_object_id (λ o. refl);
    deletes_object = delete_objects-Settled object verdict;
  }

  units : Units {E = E} (Settled object verdict)
  unfolding update_files delete_shares
  units = record {
    inserts = λ user name path size type s.
        single.inserts_file (new_file user none none name path size type) s;
    inserts_object = insert_object-Settled object verdict;
    references_one = reference_file-Keeps single;
    references_all = create_many_body-Keeps single;
    removal = permanently_delete_body-Keeps single;
    trashes = λ user file s h. h;
    unshares = λ file s h. h;
    untrashes = λ user file s h. h;
    renames_file = λ user file name s h. h;
    moves_file = λ user file parent s.
        same_tables (move_files user file parent s).1 s (move_files-tables user file parent s);
    inserts_preview = λ p s. same_tables (insert_preview p s).1 s (insert_preview-tables p s);
    inserts_scan = insert_scan-Settled object verdict;
    claims = claims-Settled;
    ends = ends-Settled;
    inserts_folder = λ user parent name s.
        same_tables (insert_folder user parent name s).1 s
          (insert_folder-tables user parent name s);
    renames_row = λ user folder name s.
        same_tables (rename_folders user folder name s).1 s
          (rename_folders-tables user folder name s);
    moves_row = λ user folder parent s.
        same_tables (move_folders user folder parent s).1 s
          (move_folders-tables user folder parent s);
    deletes_row = λ user folder s.
        same_tables (delete_folders user folder s).1 s (delete_folders-tables user folder s);
  }

  -- In any history of a consistent store, with any failures: a content whose scan has come to a
  -- verdict, clean or infected, keeps this verdict, or the content and its scan are gone.
  pub run-Standing :
      (os : List Operation) (w : World (Store E)) (c : FileScan)
      → IsConsistent w.store
      → object < (w.store).next_object_id
      → find_where (scan_of object) (w.store).scans ≡ some c
      → c.status ≡ verdict
      → Standing object verdict ((run os w).1.store).objects ((run os w).1.store).scans
  run-Standing os w c consistent known e t =
      ((run-Units units os).at w (record {
        object_ids = consistent.object_ids;
        object_fresh = consistent.object_fresh;
        known = known;
        standing = judged c e t;
      })).standing
