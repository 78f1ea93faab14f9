-- ===== src/Upload/Trace.antt =====
-- Histories of the operations on uploads: one after another, each with any of its calls failing.
use cloud_box.Base.{
  ℕ, ℤ, ◌+◌, ◌≡◌, refl, ◌∙◌, String, Bool, true, false, Option, some, List, [], ◌∷◌, arith, str_eq,
  eq_iff,
}
use cloud_box.Exec.{World}
use cloud_box.Sql.{find_where}
use cloud_box.Sql.Laws.{find_where-update}
use cloud_box.Sql.Keys.{find_where-insert}
use cloud_box.Disk.{Bytes, Reader}
use cloud_box.Upload.Model.{
  Task, Status, Store, FileService, uploading, completed, failed, same_status,
}
use cloud_box.Upload.Repository.{has_id, is_task_in, with_status}
use cloud_box.Upload.Service.{cancel, cleanup_expired, init_in_folder, upload_chunk}
use cloud_box.Upload.Complete.{complete}
use cloud_box.Upload.Status.{task_id}
use cloud_box.Upload.Moves.{Kept, Edge, begins, ends, returns, stops, cancel-Keeps}
use cloud_box.Upload.Moves.Operations.{
  init_in_folder-Keeps, upload_chunk-Keeps, complete-Keeps, cleanup_expired-Keeps,
}

pub data Operation : Type 0 where
  -- InitInFolder: user, folder, name, type, size, size of a chunk, hash, identifier
  inits : ℕ → Option ℕ → String → String → ℤ → ℤ → String → String → Operation
  -- UploadChunk, Complete, Cancel, CleanupExpired
  uploads : ℕ → String → ℤ → Option Reader → Operation
  completes : ℕ → String → String → Operation
  cancels : ℕ → String → Operation
  cleans : ℕ → Operation
  -- the clock of the database
  passes : ℕ → Operation

module _ {F : Type 0} (service : FileService F) (hash : Bytes → String) (base_dir : String) where
  unfoldable pub apply : Operation → World (Store F) → World (Store F)
  unfolding init_in_folder upload_chunk complete cancel cleanup_expired
  apply (inits user parent name kind size chunk digest id) w =
      (init_in_folder service hash base_dir user parent name kind size chunk digest id w).1
  apply (uploads user id number source) w =
      (upload_chunk service hash base_dir user id number source w).1
  apply (completes user id name) w = (complete service hash user id name w).1
  apply (cancels user id) w = (cancel user id w).1
  apply (cleans before) w = (cleanup_expired before w).1
  apply (passes n) w = record w { store = record w.store { clock = w.store.clock + n } }

  unfoldable pub run : World (Store F) → List Operation → World (Store F)
  run w [] = w
  run w (o ∷ os) = run (apply o w) os

  module _ (Q : List Task → Type 0) (kept : Kept Q) where
    apply_keeps :
        (o : Operation) (w : World (Store F)) → Q w.store.tasks → Q (apply o w).store.tasks
    unfolding apply
    apply_keeps (inits user parent name kind size chunk digest id) w q =
        (init_in_folder-Keeps Q kept service hash base_dir user parent name kind size chunk digest
            id).at
          w q
    apply_keeps (uploads user id number source) w q =
        (upload_chunk-Keeps Q kept service hash base_dir user id number source).at w q
    apply_keeps (completes user id name) w q =
        (complete-Keeps Q kept hash service user id name).at w q
    apply_keeps (cancels user id) w q = (cancel-Keeps Q kept user id).at w q
    apply_keeps (cleans before) w q = (cleanup_expired-Keeps Q kept before).at w q
    apply_keeps (passes n) w q = q

    run_keeps :
        (os : List Operation) (w : World (Store F)) → Q w.store.tasks → Q (run w os).store.tasks
    unfolding run
    run_keeps [] w q = q
    run_keeps (o ∷ os) w q = run_keeps os (apply o w) (apply_keeps o w q)

abbrev pub is_final : Status → Bool
is_final completed = true
is_final failed = true
is_final _ = false

-- The row of an identifier is this one.
abbrev pub Row : String → Task → List Task → Type 0
Row id t tasks = find_where (has_id id) tasks ≡ some t

from_live : {from to : Status} → Edge from to → is_final from ≡ false
from_live begins = refl
from_live ends = refl
from_live returns = refl
from_live stops = refl

apart_status : (a b : Status) → is_final a ≡ true → is_final b ≡ false → same_status a b ≡ false
apart_status a b f l = ground arith

not_in :
    (user : ℕ) (id : String) (from : Status) (t : Task)
    → is_final t.status ≡ true
    → is_final from ≡ false
    → is_task_in user id from t ≡ false
not_in user id from t f l = rw (apart_status t.status from f l) (ground arith)

Row-kept : (id : String) (t : Task) → is_final t.status ≡ true → Kept (Row id t)
Row-kept id t final = record {
  moves = λ user clock other from to tasks edge q.
      find_where-update (is_task_in user other from) (has_id id) (with_status clock to) tasks
        (λ r. refl)
      ∙ rw (q, not_in user other from t final (from_live edge)) refl;
  touches = λ user clock other tasks q.
      find_where-update (is_task_in user other uploading) (has_id id)
        (λ u. record u { updated_at = clock }) tasks (λ r. refl)
      ∙ rw (q, not_in user other uploading t final refl) refl;
  inserts = λ new tasks fresh q.
      rw (find_where-insert str_eq eq_iff task_id (has_id id) tasks new, q) refl;
}

module _ {F : Type 0} (service : FileService F) (hash : Bytes → String) (base_dir : String) where
  -- A task that is completed or failed stays so: whatever operations follow, and whichever of their
  -- calls fail, its row stays as it is, in every column.
  pub run_final_task :
      (w : World (Store F)) (os : List Operation) (id : String) (t : Task)
      → Row id t w.store.tasks
      → is_final t.status ≡ true
      → Row id t (run service hash base_dir w os).store.tasks
  run_final_task w os id t row final =
      run_keeps service hash base_dir (Row id t) (Row-kept id t final) os w row
