-- ===== src/Upload/Complete.antt =====
-- internal/upload/service.go: `mergeChunks` and `Complete`. `merged_name` is what os.CreateTemp puts
-- for the star of "merged-*". A deferred call whose error is dropped is an attempt after the part of
-- the function that follows the `defer`.
use cloud_box.Base.{
  ℕ, ◌+◌, String, Bool, true, false, ◌&&◌, not, Option, none, some, List, [], ◌∷◌, ◌++◌, ◌==◌,
  str_eq, length, if◌then◌else◌,
}
use cloud_box.Fail.{
  Result, ok, err, external, chunks_incomplete, chunk_hash_mismatch, file_hash_mismatch,
  task_not_uploading,
}
use cloud_box.Exec.{Exec, pure, raise, lift, call, query, attempt, ◌>>=◌, ◌>>◌}
use cloud_box.Disk.{Bytes, part, merged, read, create_file, append_file}
use cloud_box.File.Model.{UserFile}
use cloud_box.Upload.Model.{
  Task, Chunk, FileService, Store, uploading, completing, completed, same_status, on_files,
}
use cloud_box.Upload.Repository.{find_by_id, list_chunks, transition_status}
use cloud_box.Upload.Plan.{expected_chunk_size}
use cloud_box.Upload.Service.{on_disk, remove_dir, remove_path, close_file}

-- `!chunk.Hash.Valid || chunk.Hash.String != chunkHash`
abbrev pub hash_differs : Option String → String → Bool
hash_differs none h = true
hash_differs (some recorded) h = not (str_eq recorded h)

-- `task.FileHash.Valid && task.FileHash.String != fileHash`
abbrev pub declared_differs : Option String → String → Bool
declared_differs none h = false
declared_differs (some declared) h = not (str_eq declared h)

-- `errors.Is(err, os.ErrNotExist)` at the opening of a part.
abbrev pub opened_part : Option Bytes → Result Bytes
opened_part none = err chunks_incomplete
opened_part (some content) = ok content

abbrev pub opened_file : Option Bytes → Result Bytes
opened_file none = err (external "no such file or directory")
opened_file (some content) = ok content

-- What the loop of `mergeChunks` has written and counted.
pub record Merged : Type 0 where
  pub content : Bytes
  pub total_size : ℕ

module _ {F : Type 0} where
  unfoldable pub open_part : Task → ℕ → Exec (Store F) Bytes
  open_part task number = query (λ s. opened_part (read task.temp_dir (part number) s.disk))

  -- `io.Copy(io.MultiWriter(mergedFile, fileHasher, chunkHasher), chunkFile)`
  unfoldable pub copy_part : Task → String → Bytes → Exec (Store F) ℕ
  copy_part task merged_name content = call (λ s. (
    ok (length content),
    record s { disk = append_file task.temp_dir (merged merged_name) content s.disk },
  ))

module _ {F : Type 0} (hash : Bytes → String) where
  -- The checks after the copy of one part: its errors, its size, its hash.
  unfoldable pub check_part :
      Task → ℕ → Chunk → Bytes → Result ℕ → Result (Unit {0}) → Exec (Store F) (Unit {0})
  check_part task number chunk content (err e) closed = raise e
  check_part task number chunk content (ok size) (err e) = raise e
  check_part task number chunk content (ok size) (ok done) =
      if not (size == expected_chunk_size task number)
      then raise chunks_incomplete
      else if hash_differs chunk.hash (hash content)
      then raise chunk_hash_mismatch
      else pure tt

  -- One round of the loop: the bytes of the part.
  unfoldable pub merge_part : Task → String → ℕ → Chunk → Exec (Store F) Bytes
  merge_part task merged_name number chunk =
      if not (chunk.number == number && chunk.size == expected_chunk_size task number)
      then raise chunks_incomplete
      else (do
        content ← open_part task number
        copied ← attempt (copy_part task merged_name content)
        closed ← attempt close_file
        check_part task number chunk content copied closed
        pure content)

  -- The list has as many chunks as the task, so a walk over it is the loop over their numbers.
  unfoldable pub merge_loop : Task → String → ℕ → Merged → List Chunk → Exec (Store F) Merged
  merge_loop task merged_name number done [] = pure done
  merge_loop task merged_name number done (chunk ∷ chunks) = do
    content ← merge_part task merged_name number chunk
    merge_loop task merged_name (number + 1)
        (record {
          content = done.content ++ content;
          total_size = done.total_size + length content;
        })
        chunks

  unfoldable pub merge_body : Task → String → List Chunk → Exec (Store F) String
  merge_body task merged_name chunks = do
    done ← merge_loop task merged_name 0 (record { content = []; total_size = 0 }) chunks
    if not (done.total_size == task.file_size)
        then raise chunks_incomplete
        else do close_file; pure (hash done.content)

  -- The deferred function of `mergeChunks`.
  unfoldable pub keep_merged : Task → String → Result String → Exec (Store F) String
  keep_merged task merged_name (ok h) = pure h
  keep_merged task merged_name (err e) = do
    attempt close_file
    attempt (remove_path task.temp_dir (merged merged_name))
    raise e

  unfoldable pub merge_chunks : Task → String → List Chunk → Exec (Store F) String
  merge_chunks task merged_name chunks =
      if not (length chunks == task.total_chunks) then raise chunks_incomplete else do
        call (on_disk (create_file task.temp_dir (merged merged_name)))
        h ← attempt (merge_body task merged_name chunks)
        keep_merged task merged_name h

module _ {F : Type 0} where
  -- The deferred function of `Complete`.
  unfoldable pub restore_on_error : ℕ → String → Result UserFile → Exec (Store F) UserFile
  restore_on_error user id (ok file) = pure file
  restore_on_error user id (err e) = do
    attempt (transition_status user id completing uploading)
    raise e

module _ {F : Type 0} (service : FileService F) (hash : Bytes → String) where
  -- From the upload of the merged file to the removal of the directory.
  unfoldable pub hand_over : ℕ → String → Task → Bytes → Exec (Store F) UserFile
  hand_over user id task content = do
    file ← on_files (
        service.upload_into_folder user task.parent_id task.original_name task.content_type
          (record { bytes = content; fault = none }))
    done ← transition_status user id completing completed
    if not done then raise task_not_uploading else do attempt (remove_dir task.temp_dir); pure file

  -- From the check of the declared hash on, with the deferred close of the merged file.
  unfoldable pub use_merged : ℕ → String → Task → String → String → Exec (Store F) UserFile
  use_merged user id task merged_name file_hash =
      if declared_differs task.file_hash file_hash then raise file_hash_mismatch else do
        content ← query (λ s. opened_file (read task.temp_dir (merged merged_name) s.disk))
        result ← attempt (hand_over user id task content)
        attempt close_file
        lift result

  -- After the transition to `completing`, with the deferred removal of the merged file.
  unfoldable pub complete_body : ℕ → String → Task → String → Exec (Store F) UserFile
  complete_body user id task merged_name = do
    chunks ← list_chunks id
    file_hash ← merge_chunks hash task merged_name chunks
    result ← attempt (use_merged user id task merged_name file_hash)
    attempt (remove_path task.temp_dir (merged merged_name))
    lift result

  unfoldable pub complete : ℕ → String → String → Exec (Store F) UserFile
  complete user id merged_name = do
    task ← find_by_id user id
    if not (same_status task.status uploading) then raise task_not_uploading else do
      transitioned ← transition_status user task.id uploading completing
      if not transitioned then raise task_not_uploading else do
        result ← attempt (complete_body user id task merged_name)
        restore_on_error user id result
