-- ===== src/File/History.antt =====
-- Histories of calls of internal/file/repository.go, any of which may fail at any of its statements.
pub mod Units
pub mod Single
use cloud_box.Base.{ℕ, String, Bool, Option, List, [], ◌∷◌}
use cloud_box.Exec.{Exec, pure, attempt, ◌>>◌}
use cloud_box.Exec.Keeps.{Keeps, pure-Keeps, attempt-Keeps, bind-Keeps}
use cloud_box.File.Model.{FileObject, FilePreview}
use cloud_box.File.Tables.{Store}
use cloud_box.File.Repository.Files.{create, soft_delete_with_share_option, restore, rename_active}
use cloud_box.File.Repository.Objects.{
  create_file_object, create_with_object_in_folder, create_many_with_objects_in_folder,
}
use cloud_box.File.Repository.Removal.{permanently_delete_deleted}
use cloud_box.File.Repository.Scans.{
  create_file_preview, create_pending_file_scan, claim_file_scan, complete_file_scan,
  fail_file_scan,
}
use cloud_box.File.Repository.Folders.{
  create_folder, rename_folder, move_folder, move_active, delete_empty_folder,
}

-- The functions that change the tables, with their arguments.
pub data Operation : Type 0 where
  creates : ℕ → String → String → ℕ → String → Operation
  creates_object : String → String → ℕ → String → Operation
  references : ℕ → Option ℕ → String → FileObject → Operation
  references_many : ℕ → Option ℕ → List FileObject → List String → ℕ → Operation
  soft_deletes : ℕ → ℕ → Bool → Operation
  restores : ℕ → ℕ → Operation
  removes : ℕ → ℕ → Operation
  renames : ℕ → ℕ → String → Operation
  moves : ℕ → ℕ → Option ℕ → Operation
  previews : FilePreview → Operation
  queues_scan : ℕ → Operation
  claims_scan : ℕ → Operation
  completes_scan : ℕ → Bool → String → Operation
  fails_scan : ℕ → Operation
  creates_folder : ℕ → Option ℕ → String → Operation
  renames_folder : ℕ → ℕ → String → Operation
  moves_folder : ℕ → ℕ → Option ℕ → Operation
  deletes_folder : ℕ → ℕ → Operation

module _ {E : Type 0} where
  abbrev pub perform : Operation → Exec (Store E) (Unit {0})
  perform (creates user name path size type) = do create user name path size type; pure tt
  perform (creates_object hash path size type) = do create_file_object hash path size type; pure tt
  perform (references user parent name o) = do
    create_with_object_in_folder user parent name o
    pure tt
  perform (references_many user parent objects names quota) = do
    create_many_with_objects_in_folder user parent objects names quota
    pure tt
  perform (soft_deletes user file keep) = soft_delete_with_share_option user file keep
  perform (restores user file) = restore user file
  perform (removes user file) = do permanently_delete_deleted user file; pure tt
  perform (renames user file name) = do rename_active user file name; pure tt
  perform (moves user file parent) = do move_active user file parent; pure tt
  perform (previews p) = do create_file_preview p; pure tt
  perform (queues_scan object) = do create_pending_file_scan object; pure tt
  perform (claims_scan object) = do claim_file_scan object; pure tt
  perform (completes_scan object infected signature) = do
    complete_file_scan object infected signature
    pure tt
  perform (fails_scan object) = do fail_file_scan object; pure tt
  perform (creates_folder user parent name) = do create_folder user parent name; pure tt
  perform (renames_folder user folder name) = do rename_folder user folder name; pure tt
  perform (moves_folder user folder parent) = do move_folder user folder parent; pure tt
  perform (deletes_folder user folder) = do delete_empty_folder user folder; pure tt

  -- The callers go on after an error.
  abbrev pub run : List Operation → Exec (Store E) (Unit {0})
  run [] = pure tt
  run (o ∷ os) = do attempt (perform o); run os

  -- What each operation keeps, a history keeps.
  pub run-Keeps :
      (P : Store E → Type 0)
      → ((o : Operation) → Keeps P (perform o))
      → (os : List Operation) → Keeps P (run os)
  run-Keeps P each [] = pure-Keeps tt
  run-Keeps P each (o ∷ os) =
      bind-Keeps (attempt (perform o)) (λ _. run os) (attempt-Keeps (perform o) (each o))
        (λ _. run-Keeps P each os)
