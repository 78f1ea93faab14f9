-- ===== src/File/History/Units.antt =====
-- What keeps a property of the tables over any history: it is enough that each statement keeps it, and
-- each transaction that breaks it on the way.
use cloud_box.Base.{ℕ, String, Bool, Option, none, some, List, ◌==◌, if◌then◌else◌, true, false}
use cloud_box.Fail.{
  Error, cause, Result, ok, err, file_not_found, file_object_not_found, folder_not_found,
}
use cloud_box.Exec.{Exec, pure, raise, query, ◌>>=◌, ◌>>◌}
use cloud_box.Exec.Keeps.{
  Keeps, pure-Keeps, raise-Keeps, call-Keeps, query-Keeps, attempt-Keeps, if-Keeps, guard-Keeps,
  bind-Keeps, write-Keeps,
}
use cloud_box.Exec.Ensures.{transaction-Keeps, kept-Ensures}
use cloud_box.File.Model.{
  FileObject, FilePreview, FileScan, active, deleted, ScanStatus, infected, clean, failed,
}
use cloud_box.File.Tables.{Store}
use cloud_box.File.Repository.Files.{
  create, find_active_by_id, find_by_id_and_status, soft_delete_with_share_option, restore,
  rename_active, new_file, insert_file, update_files, is_file, delete_shares, moved_to_trash,
  taken_from_trash,
}
use cloud_box.File.Repository.Objects.{
  create_file_object, create_with_object_in_folder, create_many_with_objects_in_folder,
  find_file_object_by_hash, insert_object,
}
use cloud_box.File.Repository.Removal.{permanently_delete_deleted}
use cloud_box.File.Repository.Scans.{
  insert_preview, insert_scan, create_file_preview, create_pending_file_scan, claim_file_scan,
  complete_file_scan, fail_file_scan, update_running_file_scan, update_scans, unclaimed, claimable,
  claimed_at, running, ended_at, find_file_scan_by_object_id, is_scan_not_found,
}
use cloud_box.File.Repository.Folders.{
  find_folder_by_id, insert_folder, rename_folders, move_folders, delete_folders, create_folder,
  rename_folder, move_folder, move_files, move_active, delete_empty_folder,
}
use cloud_box.File.History.{
  Operation, creates, creates_object, references, references_many, soft_deletes, restores, removes,
  renames, moves, previews, queues_scan, claims_scan, completes_scan, fails_scan, creates_folder,
  renames_folder, moves_folder, deletes_folder, perform, perform,
}
use cloud_box.File.Repository.Objects.{reference_file, create_many_body}
use cloud_box.File.Repository.Removal.{permanently_delete_body}
use cloud_box.Exec.{transaction}
use cloud_box.File.History.{run, run-Keeps}

module _ {E : Type 0} where
  pub record Units (P : Store E → Type 0) : Type 0 where
    pub inserts :
        (user : ℕ) (name path : String) (size : ℕ) (type : String) (s : Store E)
        → P s
        → P (insert_file (new_file user none none name path size type) s).1
    pub inserts_object :
        (hash path : String) (size : ℕ) (type : String) (s : Store E)
        → P s
        → P (insert_object hash path size type s).1
    pub references_one :
        (user : ℕ) (parent : Option ℕ) (name : String) (o : FileObject)
        → Keeps P (transaction (reference_file user parent name o))
    pub references_all :
        (user : ℕ) (parent : Option ℕ) (objects : List FileObject) (names : List String) (quota : ℕ)
        → Keeps P (transaction (create_many_body user parent objects names quota))
    pub removal : (user file : ℕ) → Keeps P (transaction (permanently_delete_body user file))
    pub trashes :
        (user file : ℕ) (s : Store E)
        → P s
        → P (update_files (λ s. is_file user file active) moved_to_trash s).1
    pub unshares : (file : ℕ) (s : Store E) → P s → P (delete_shares file s)
    pub untrashes :
        (user file : ℕ) (s : Store E)
        → P s
        → P (update_files (λ s. is_file user file deleted) taken_from_trash s).1
    pub renames_file :
        (user file : ℕ) (name : String) (s : Store E)
        → P s
        → P
            (update_files
              (λ s. is_file user file active)
              (λ s f. record f { original_name = name })
              s).1
    pub moves_file :
        (user file : ℕ) (parent : Option ℕ) (s : Store E)
        → P s
        → P (move_files user file parent s).1
    pub inserts_preview : (p : FilePreview) (s : Store E) → P s → P (insert_preview p s).1
    pub inserts_scan : (object : ℕ) (s : Store E) → P s → P (insert_scan object s).1
    pub claims :
        (object : ℕ) (s : Store E) → P s → P (update_scans (claimable object) claimed_at s).1
    pub ends :
        (object : ℕ) (t : ScanStatus) (signature : Option String) (completed : Bool) (s : Store E)
        → P s
        → P (update_scans (running object) (ended_at t signature completed) s).1
    pub inserts_folder :
        (user : ℕ) (parent : Option ℕ) (name : String) (s : Store E)
        → P s
        → P (insert_folder user parent name s).1
    pub renames_row :
        (user folder : ℕ) (name : String) (s : Store E)
        → P s
        → P (rename_folders user folder name s).1
    pub moves_row :
        (user folder : ℕ) (parent : Option ℕ) (s : Store E)
        → P s
        → P (move_folders user folder parent s).1
    pub deletes_row : (user folder : ℕ) (s : Store E) → P s → P (delete_folders user folder s).1

  discard-Keeps :
      {A : Type 0} {P : Store E → Type 0} (m : Exec (Store E) A)
      → Keeps P m
      → Keeps P (do m; pure tt)
  discard-Keeps m k = bind-Keeps m (λ _. pure tt) k (λ _. pure-Keeps tt)

  find-Keeps : {P : Store E → Type 0} (user file : ℕ) → Keeps P (find_active_by_id user file)
  unfolding find_active_by_id find_by_id_and_status
  find-Keeps user file = query-Keeps _

  -- The number of rows of a statement decides what follows.
  rows-Keeps :
      {A : Type 0} {P : Store E → Type 0} (n : ℕ) (e : Error) (m : Exec (Store E) A)
      → Keeps P m
      → Keeps P (do rows ← query (λ s. ok n); if rows == 0 then raise e else m)
  rows-Keeps n e m k =
      bind-Keeps (query (λ s. ok n)) (λ rows. if rows == 0 then raise e else m)
        (query-Keeps (λ s. ok n)) (λ rows. guard-Keeps (rows == 0) e m k)

  unclaimed-Keeps :
      {P : Store E → Type 0} (object : ℕ) (r : Result FileScan) → Keeps P (unclaimed object r)
  unfolding find_file_scan_by_object_id
  unclaimed-Keeps object (ok c) = pure-Keeps (c, true)
  unclaimed-Keeps object (err e) =
      if-Keeps (is_scan_not_found (cause e)) _ _
        (bind-Keeps _ _ (query-Keeps _) (λ existing. pure-Keeps (existing, false))) (raise-Keeps e)

  perform-Units : {P : Store E → Type 0} → Units P → (o : Operation) → Keeps P (perform o)
  unfolding create create_file_object create_with_object_in_folder
      create_many_with_objects_in_folder find_file_object_by_hash restore rename_active
      permanently_delete_deleted move_active create_file_preview create_pending_file_scan
      find_file_scan_by_object_id claim_file_scan find_folder_by_id complete_file_scan
      fail_file_scan update_running_file_scan create_folder rename_folder move_folder
      delete_empty_folder soft_delete_with_share_option delete_shares
  perform-Units u (creates user name path size type) = discard-Keeps _ (
      bind-Keeps _ _
        (call-Keeps (insert_file (new_file user none none name path size type))
          (u.inserts user name path size type))
        (λ f. find-Keeps user f.id))
  perform-Units u (creates_object hash path size type) = discard-Keeps _ (
      bind-Keeps _ _
        (call-Keeps (insert_object hash path size type) (u.inserts_object hash path size type))
        (λ _. query-Keeps _))
  perform-Units u (references user parent name o) =
      discard-Keeps _
        (bind-Keeps _ _ (u.references_one user parent name o) (λ f. find-Keeps user f.id))
  perform-Units u (references_many user parent objects names quota) =
      discard-Keeps _
        (guard-Keeps _ file_object_not_found _ (u.references_all user parent objects names quota))
  perform-Units u (removes user file) = discard-Keeps _ (u.removal user file)
  perform-Units u (soft_deletes user file keep) = transaction-Keeps _ (
      kept-Ensures _ (
        bind-Keeps _ _ (call-Keeps _ (u.trashes user file)) (λ n. rows-Keeps n file_not_found _ (
          if-Keeps keep _ _ (pure-Keeps tt) (write-Keeps (delete_shares file) (u.unshares file))))))
  perform-Units u (restores user file) =
      bind-Keeps _ _ (call-Keeps _ (u.untrashes user file))
        (λ n. rows-Keeps n file_not_found _ (pure-Keeps tt))
  perform-Units u (renames user file name) = discard-Keeps _ (
      bind-Keeps _ _ (call-Keeps _ (u.renames_file user file name))
        (λ n. rows-Keeps n file_not_found _ (find-Keeps user file)))
  perform-Units u (moves user file parent) = discard-Keeps _ (
      bind-Keeps _ _ (call-Keeps (move_files user file parent) (u.moves_file user file parent))
        (λ n. rows-Keeps n file_not_found _ (find-Keeps user file)))
  perform-Units u (previews p) = discard-Keeps _ (
      bind-Keeps _ _ (call-Keeps (insert_preview p) (u.inserts_preview p))
        (λ n. bind-Keeps _ _ (query-Keeps _) (λ rows. pure-Keeps (rows == 1))))
  perform-Units u (queues_scan object) = discard-Keeps _ (
      bind-Keeps _ _ (call-Keeps (insert_scan object) (u.inserts_scan object)) (λ n.
        bind-Keeps _ _ (query-Keeps _)
          (λ rows. bind-Keeps _ _ (query-Keeps _) (λ c. pure-Keeps (c, rows == 1)))))
  perform-Units u (claims_scan object) =
      discard-Keeps _
        (bind-Keeps _ _ (attempt-Keeps _ (call-Keeps _ (u.claims object))) (unclaimed-Keeps object))
  perform-Units u (completes_scan object is_infected signature) = discard-Keeps _ (
      if-Keeps is_infected _ _ (call-Keeps _ (u.ends object infected (some signature) true))
        (call-Keeps _ (u.ends object clean none true)))
  perform-Units u (fails_scan object) =
      discard-Keeps _ (call-Keeps _ (u.ends object failed none false))
  perform-Units u (creates_folder user parent name) = discard-Keeps _ (
      bind-Keeps _ _
        (call-Keeps (insert_folder user parent name) (u.inserts_folder user parent name))
        (λ id. query-Keeps _))
  perform-Units u (renames_folder user folder name) = discard-Keeps _ (
      bind-Keeps _ _ (call-Keeps (rename_folders user folder name) (u.renames_row user folder name))
        (λ n. rows-Keeps n folder_not_found _ (query-Keeps _)))
  perform-Units u (moves_folder user folder parent) = discard-Keeps _ (
      bind-Keeps _ _ (call-Keeps (move_folders user folder parent) (u.moves_row user folder parent))
        (λ n. rows-Keeps n folder_not_found _ (query-Keeps _)))
  perform-Units u (deletes_folder user folder) = discard-Keeps _ (
      bind-Keeps _ _ (call-Keeps (delete_folders user folder) (u.deletes_row user folder))
        (λ n. bind-Keeps _ _ (query-Keeps _) (λ rows. pure-Keeps (rows == 1))))

  pub run-Units : {P : Store E → Type 0} → Units P → (os : List Operation) → Keeps P (run os)
  run-Units {P} u os = run-Keeps P (perform-Units u) os
