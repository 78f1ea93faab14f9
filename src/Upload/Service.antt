-- ===== src/Upload/Service.antt =====
-- internal/upload/service.go, without `Complete` and its merge, which `Complete` has. `new_id` is the
-- identifier that the uuid package draws, `hash` SHA-256 with its hexadecimal print, as a function of
-- the bytes. Deferred calls whose errors the code drops are attempts.
use cloud_box.Base.{
  ℕ, ◌+◌, ℤ, pos, negsuc, ◌==◌, positive?, String, true, false, not, Option, none, some, List, [],
  ◌∷◌, ltb, if◌then◌else◌,
}
use Prim.Native.String.{◌++◌}
use cloud_box.Fail.{
  Error, Result, ok, err, original_name_required, file_size_invalid, chunk_size_invalid,
  chunk_content_required, task_not_uploading, chunk_number_invalid, chunk_size_mismatch,
}
use cloud_box.Exec.{Exec, pure, raise, call, query, attempt, write, ◌>>=◌, ◌>>◌}
use cloud_box.Text.{trim_space, is_empty}
use cloud_box.Disk.{
  Disk, Bytes, Reader, FileName, part, part_tmp, mkdir_all, remove_all, create_file, append_file,
  remove_file, rename_file,
}
use cloud_box.Base.{length}
use cloud_box.Upload.Model.{
  Task, Chunk, UploadStatus, FileService, Store, uploading, failed, same_status, on_files,
}
use cloud_box.Upload.Repository.{
  create, find_by_id, list_uploading_by_user, upsert_chunk, list_chunks, transition_status,
  touch_uploading, list_expired_uploading,
}
use cloud_box.Upload.Plan.{total_chunks, expected_chunk_size}

-- `chunkNumber < 0 || chunkNumber >= task.TotalChunks`
abbrev pub chunk_index : Task → ℤ → Option ℕ
chunk_index task (pos n) = if ltb n task.total_chunks then some n else none
chunk_index task (negsuc n) = none

module _ {F : Type 0} where
  -- A call of package os on the disk.
  abbrev pub on_disk : {A : Type 0} → (Disk → Result A × Disk) → Store F → Result A × Store F
  on_disk f s = let (r, d) = f s.disk in (r, record s { disk = d })

  unfoldable pub make_dir : String → Exec (Store F) (Unit {0})
  make_dir dir = write (λ s. record s { disk = mkdir_all dir s.disk })

  unfoldable pub remove_dir : String → Exec (Store F) (Unit {0})
  remove_dir dir = write (λ s. record s { disk = remove_all dir s.disk })

  unfoldable pub remove_path : String → FileName → Exec (Store F) (Unit {0})
  remove_path dir name = call (on_disk (remove_file dir name))

  unfoldable pub list_uploading : ℕ → Exec (Store F) (List Task)
  unfolding list_uploading_by_user
  list_uploading user = list_uploading_by_user user

  unfoldable pub get_status : ℕ → String → Exec (Store F) UploadStatus
  get_status user id = do
    task ← find_by_id user id
    chunks ← list_chunks task.id
    pure (record { upload = task; chunks = chunks })

  -- `_ = os.Remove(tempPath); return nil, err`
  unfoldable pub discard : {A : Type 0} → Task → ℕ → Error → Exec (Store F) A
  discard task number e = do attempt (remove_path task.temp_dir (part_tmp number)); raise e

  -- `io.Copy`: what the reader gives goes to the file, and its error, if any, comes back.
  unfoldable pub copy_from : Reader → String → FileName → Exec (Store F) ℕ
  copy_from source dir name = call (λ s. (
    elim source.fault [ none ↦ ok (length source.bytes) | some e ↦ err e ],
    record s { disk = append_file dir name source.bytes s.disk },
  ))

  unfoldable pub close_file : Exec (Store F) (Unit {0})
  close_file = query (λ s. ok tt)

  -- `os.Rename(tempPath, chunkPath)` and the return of its error.
  unfoldable pub keep_part : Task → ℕ → Result (Unit {0}) → Exec (Store F) (Unit {0})
  keep_part task number (err e) = discard task number e
  keep_part task number (ok done) = pure done

  unfoldable pub check_received :
      Task → ℕ → Result ℕ → Result (Unit {0}) → Exec (Store F) (Unit {0})
  check_received task number (err e) closed = discard task number e
  check_received task number (ok size) (err e) = discard task number e
  check_received task number (ok size) (ok done) =
      if size == expected_chunk_size task number
      then (do
        renamed ←
            attempt (call (on_disk (rename_file task.temp_dir (part_tmp number) (part number))))
        keep_part task number renamed)
      else discard task number chunk_size_mismatch

  -- From `os.Create(tempPath)` to the rename.
  unfoldable pub receive_part : Task → ℕ → Reader → Exec (Store F) (Unit {0})
  receive_part task number source = do
    call (on_disk (create_file task.temp_dir (part_tmp number)))
    copied ← attempt (copy_from source task.temp_dir (part_tmp number))
    closed ← attempt close_file
    check_received task number copied closed

  unfoldable pub cancel : ℕ → String → Exec (Store F) (Unit {0})
  cancel user id = do
    task ← find_by_id user id
    cancelled ← transition_status user task.id uploading failed
    if cancelled then remove_dir task.temp_dir else raise task_not_uploading

-- The pair that `CleanupExpired` returns.
pub record Cleanup : Type 0 where
  pub cleaned : ℕ
  pub error : Option Error

abbrev pub cleanup_result : ℕ → Option Error → Cleanup
cleanup_result n e = record { cleaned = n; error = e }

module _ {F : Type 0} where
  unfoldable pub cleanup_loop : ℕ → List Task → Exec (Store F) Cleanup
  cleanup_loop cleaned [] = pure (cleanup_result cleaned none)
  cleanup_loop cleaned (task ∷ tasks) = do
    expired ← attempt (transition_status task.user_id task.id uploading failed)
    elim expired [
      | err e ↦ pure (cleanup_result cleaned (some e))
      | ok did ↦ elim did [
        | false ↦ cleanup_loop cleaned tasks
        | true ↦ (do
          removed ← attempt (remove_dir task.temp_dir)
          elim removed [
            | err e ↦ pure (cleanup_result cleaned (some e))
            | ok done ↦ cleanup_loop (cleaned + 1) tasks
          ])
      ]
    ]

  unfoldable pub start_cleanup : Result (List Task) → Exec (Store F) Cleanup
  unfolding cleanup_loop
  start_cleanup (err e) = pure (cleanup_result 0 (some e))
  start_cleanup (ok tasks) = cleanup_loop 0 tasks

  unfoldable pub cleanup_expired : ℕ → Exec (Store F) Cleanup
  cleanup_expired before = do tasks ← attempt (list_expired_uploading before); start_cleanup tasks

-- The fields of a task from the arguments of a call, after its checks.
abbrev pub new_task : String → String → ℕ → Option ℕ → String → String → ℕ → ℕ → String → Task
new_task base_dir new_id user parent name kind file_size chunk_size file_hash = record {
  id = new_id;
  user_id = user;
  parent_id = parent;
  original_name = name;
  content_type = if is_empty kind then "application/octet-stream" else kind;
  file_size = file_size;
  chunk_size = chunk_size;
  total_chunks = total_chunks file_size chunk_size;
  file_hash = if is_empty file_hash then none else some file_hash;
  status = uploading;
  temp_dir = base_dir ++ "/" ++ new_id;
  created_at = 0;
  updated_at = 0;
}

module _ {F : Type 0} (service : FileService F) (hash : Bytes → String) (base_dir : String) where
  -- From `ValidateFolder` on.
  unfoldable pub register : Task → Exec (Store F) Task
  register task = do
    on_files (service.ensure_storage_quota task.user_id task.file_size)
    make_dir task.temp_dir
    created ← attempt (create task)
    elim created [ ok row ↦ pure row | err e ↦ (do attempt (remove_dir task.temp_dir); raise e) ]

  unfoldable pub init_in_folder :
      ℕ → Option ℕ → String → String → ℤ → ℤ → String → String → Exec (Store F) Task
  init_in_folder user parent original_name content_type file_size chunk_size file_hash new_id =
      let name = trim_space original_name in
      let kind = trim_space content_type in
      let digest = trim_space file_hash in
      if is_empty name then raise original_name_required else elim (positive? file_size) [
        | none ↦ raise file_size_invalid
        | some size ↦ elim (positive? chunk_size) [
          | none ↦ raise chunk_size_invalid
          | some chunk ↦ (do
            on_files (service.validate_folder user parent)
            register (new_task base_dir new_id user parent name kind size chunk digest))
        ]
      ]

  unfoldable pub init : ℕ → String → String → ℤ → ℤ → String → String → Exec (Store F) Task
  unfolding init_in_folder
  init user = init_in_folder user none

  unfoldable pub store_chunk : ℕ → Task → ℕ → Reader → Exec (Store F) Chunk
  store_chunk user task number source = do
    receive_part task number source
    chunk ← upsert_chunk (record {
      upload_id = task.id;
      number = number;
      size = length source.bytes;
      hash = some (hash source.bytes);
      created_at = 0;
    })
    touched ← touch_uploading user task.id
    if touched then pure chunk else raise task_not_uploading

  unfoldable pub upload_chunk : ℕ → String → ℤ → Option Reader → Exec (Store F) Chunk
  upload_chunk user id chunk_number none = raise chunk_content_required
  upload_chunk user id chunk_number (some source) = do
    task ← find_by_id user id
    if not (same_status task.status uploading)
        then raise task_not_uploading
        else elim (chunk_index task chunk_number) [
          | none ↦ raise chunk_number_invalid
          | some number ↦ store_chunk user task number source
        ]
