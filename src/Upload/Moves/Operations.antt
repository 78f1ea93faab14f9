-- ===== src/Upload/Moves/Operations.antt =====
-- The same of the operations of the service.
use cloud_box.Base.{
  ℕ, ℤ, ◌+◌, String, Bool, true, false, Option, none, some, List, [], ◌∷◌, positive?,
}
use cloud_box.Fail.{Result, ok, err}
use cloud_box.Exec.{Exec}
use cloud_box.Exec.Keeps.{
  keeps_rules, pure-Keeps, raise-Keeps, query-Keeps, attempt-Keeps, guard-Keeps, result-Keeps,
  option-Keeps, bind-Keeps,
}
use cloud_box.Disk.{Bytes, Reader}
use cloud_box.File.Model.{UserFile}
use cloud_box.Upload.Model.{
  Task, Chunk, Store, FileService, uploading, completing, completed, failed,
}
use cloud_box.Upload.Repository.{list_chunks, list_expired_uploading}
use cloud_box.Upload.Service.{
  cleanup_loop, start_cleanup, cleanup_expired, Cleanup, cleanup_result, chunk_index, register,
  init_in_folder, store_chunk, upload_chunk,
}
use cloud_box.Upload.Complete.{
  open_part, check_part, merge_part, Merged, merge_loop, merge_body, keep_merged, merge_chunks,
  hand_over, use_merged, complete_body, restore_on_error, complete,
}
use cloud_box.Upload.Moves.{
  Kept, Ok, begins, ends, returns, stops, transition_status-Keeps, touch_uploading-Keeps,
  on_files-Keeps, upsert_chunk-Keeps, find_by_id-Keeps, create-Keeps, make_dir-Keeps,
  remove_dir-Keeps, on_disk-Keeps, remove_path-Keeps, copy_part-Keeps, close_file-Keeps,
  receive_part-Keeps,
}

module _ {F : Type 0} (Q : List Task → Type 0) (kept : Kept Q) where
  abbrev Fine : {A : Type 0} → Exec (Store F) A → Type 0
  Fine m = Ok Q kept m

  cleanup_loop-Keeps : (n : ℕ) (tasks : List Task) → Fine (cleanup_loop n tasks)
  unfolding cleanup_loop
  cleanup_loop-Keeps n [] = search keeps_rules
  cleanup_loop-Keeps n (task ∷ tasks) =
      let skipped = cleanup_loop-Keeps n tasks in
      let counted = cleanup_loop-Keeps (n + 1) tasks in
      bind-Keeps _ _
        (attempt-Keeps _
          (transition_status-Keeps Q kept task.user_id task.id uploading failed stops))
        λ r.
          result-Keeps r _ _
            (λ did. moved_on did skipped (
              bind-Keeps _ _ (attempt-Keeps _ (remove_dir-Keeps Q kept task.temp_dir)) λ q.
                result-Keeps q _ _ (λ done. counted) (λ e. pure-Keeps (cleanup_result n (some e)))))
            (λ e. pure-Keeps (cleanup_result n (some e)))
    where
      moved_on :
          {m l : Exec (Store F) Cleanup} (did : Bool)
          → Fine m
          → Fine l
          → Fine (elim did [ false ↦ m | true ↦ l ])
      moved_on false k h = k
      moved_on true k h = h

  start_cleanup-Keeps : (r : Result (List Task)) → Fine (start_cleanup r)
  unfolding start_cleanup
  start_cleanup-Keeps (err e) = search keeps_rules
  start_cleanup-Keeps (ok tasks) = cleanup_loop-Keeps 0 tasks

  pub cleanup_expired-Keeps : (before : ℕ) → Fine (cleanup_expired before)
  unfolding cleanup_expired list_expired_uploading
  cleanup_expired-Keeps before = search (keeps_rules, start_cleanup-Keeps)

  module _ (service : FileService F) (hash : Bytes → String) (base_dir : String) where
    register-Keeps : (task : Task) → Fine (register service hash base_dir task)
    unfolding register
    register-Keeps task = bind-Keeps _ _ (on_files-Keeps Q kept _) λ q.
        bind-Keeps _ _ (make_dir-Keeps Q kept task.temp_dir) λ d.
          bind-Keeps _ _ (attempt-Keeps _ (create-Keeps Q kept task)) λ r.
            result-Keeps r _ _ (λ row. pure-Keeps row)
              (λ e.
                bind-Keeps _ _ (attempt-Keeps _ (remove_dir-Keeps Q kept task.temp_dir))
                  λ n. raise-Keeps e)

    pub init_in_folder-Keeps :
        (user : ℕ) (parent : Option ℕ) (name kind : String) (file_size chunk_size : ℤ)
        (digest id : String)
        → Fine (
            init_in_folder service hash base_dir user parent name kind file_size chunk_size digest
              id)
    unfolding init_in_folder
    init_in_folder-Keeps user parent name kind file_size chunk_size digest id = guard-Keeps _ _ _ (
        option-Keeps (positive? file_size) _ _
          (λ size.
            option-Keeps (positive? chunk_size) _ _
              (λ chunk. bind-Keeps _ _ (on_files-Keeps Q kept _) λ q. register-Keeps _)
              (raise-Keeps _))
          (raise-Keeps _))

    store_chunk-Keeps :
        (user : ℕ) (task : Task) (number : ℕ) (source : Reader)
        → Fine (store_chunk service hash base_dir user task number source)
    unfolding store_chunk
    store_chunk-Keeps user task number source =
        bind-Keeps _ _ (receive_part-Keeps Q kept task number source) λ p.
          bind-Keeps _ _ (upsert_chunk-Keeps Q kept _)
            λ c. bind-Keeps _ _ (touch_uploading-Keeps Q kept user task.id) λ t. search keeps_rules

    pub upload_chunk-Keeps :
        (user : ℕ) (id : String) (number : ℤ) (source : Option Reader)
        → Fine (upload_chunk service hash base_dir user id number source)
    unfolding upload_chunk
    upload_chunk-Keeps user id number none = search keeps_rules
    upload_chunk-Keeps user id number (some source) =
        bind-Keeps _ _ (find_by_id-Keeps Q kept user id) λ task. guard-Keeps _ _ _ (
          option-Keeps (chunk_index task number) _ _ (λ n. store_chunk-Keeps user task n source)
            (raise-Keeps _))

  module _ (hash : Bytes → String) where
    check_part-Keeps :
        (task : Task) (number : ℕ) (chunk : Chunk) (content : Bytes) (copied : Result ℕ)
        (closed : Result (Unit {0}))
        → Fine (check_part hash task number chunk content copied closed)
    unfolding check_part
    check_part-Keeps task number chunk content (err e) closed = search keeps_rules
    check_part-Keeps task number chunk content (ok size) (err e) = search keeps_rules
    check_part-Keeps task number chunk content (ok size) (ok done) = search keeps_rules

    merge_part-Keeps :
        (task : Task) (name : String) (number : ℕ) (chunk : Chunk)
        → Fine (merge_part hash task name number chunk)
    unfolding merge_part open_part
    merge_part-Keeps task name number chunk = guard-Keeps _ _ _ (
        bind-Keeps _ _ (query-Keeps _) λ content.
          bind-Keeps _ _ (attempt-Keeps _ (copy_part-Keeps Q kept task name content)) λ copied.
            bind-Keeps _ _ (attempt-Keeps _ (close_file-Keeps Q kept)) λ closed.
              bind-Keeps _ _ (check_part-Keeps task number chunk content copied closed)
                λ d. search keeps_rules)

    merge_loop-Keeps :
        (task : Task) (name : String) (number : ℕ) (done : Merged) (chunks : List Chunk)
        → Fine (merge_loop hash task name number done chunks)
    unfolding merge_loop
    merge_loop-Keeps task name number done [] = search keeps_rules
    merge_loop-Keeps task name number done (chunk ∷ chunks) =
        bind-Keeps _ _ (merge_part-Keeps task name number chunk)
          λ content. merge_loop-Keeps task name (number + 1) _ chunks

    merge_body-Keeps :
        (task : Task) (name : String) (chunks : List Chunk)
        → Fine (merge_body hash task name chunks)
    unfolding merge_body
    merge_body-Keeps task name chunks =
        bind-Keeps _ _ (merge_loop-Keeps task name 0 _ chunks) λ done.
          guard-Keeps _ _ _ (bind-Keeps _ _ (close_file-Keeps Q kept) λ c. search keeps_rules)

    keep_merged-Keeps :
        (task : Task) (name : String) (r : Result String) → Fine (keep_merged hash task name r)
    unfolding keep_merged
    keep_merged-Keeps task name (ok h) = search keeps_rules
    keep_merged-Keeps task name (err e) =
        bind-Keeps _ _ (attempt-Keeps _ (close_file-Keeps Q kept)) λ c.
          bind-Keeps _ _ (attempt-Keeps _ (remove_path-Keeps Q kept task.temp_dir _))
            λ d. search keeps_rules

    merge_chunks-Keeps :
        (task : Task) (name : String) (chunks : List Chunk)
        → Fine (merge_chunks hash task name chunks)
    unfolding merge_chunks
    merge_chunks-Keeps task name chunks = guard-Keeps _ _ _ (
        bind-Keeps _ _ (on_disk-Keeps Q kept _) λ c.
          bind-Keeps _ _ (attempt-Keeps _ (merge_body-Keeps task name chunks))
            λ h. keep_merged-Keeps task name h)

    module _ (service : FileService F) where
      hand_over-Keeps :
          (user : ℕ) (id : String) (task : Task) (content : Bytes)
          → Fine (hand_over service hash user id task content)
      unfolding hand_over
      hand_over-Keeps user id task content = bind-Keeps _ _ (on_files-Keeps Q kept _) λ file.
          bind-Keeps _ _ (transition_status-Keeps Q kept user id completing completed ends) λ done.
            guard-Keeps _ _ _ (
              bind-Keeps _ _ (attempt-Keeps _ (remove_dir-Keeps Q kept task.temp_dir))
                λ d. pure-Keeps file)

      use_merged-Keeps :
          (user : ℕ) (id : String) (task : Task) (name h : String)
          → Fine (use_merged service hash user id task name h)
      unfolding use_merged
      use_merged-Keeps user id task name h = guard-Keeps _ _ _ (
          bind-Keeps _ _ (query-Keeps _) λ content.
            bind-Keeps _ _ (attempt-Keeps _ (hand_over-Keeps user id task content)) λ r.
              bind-Keeps _ _ (attempt-Keeps _ (close_file-Keeps Q kept)) λ c. search keeps_rules)

      complete_body-Keeps :
          (user : ℕ) (id : String) (task : Task) (name : String)
          → Fine (complete_body service hash user id task name)
      unfolding complete_body list_chunks
      complete_body-Keeps user id task name = bind-Keeps _ _ (query-Keeps _) λ chunks.
          bind-Keeps _ _ (merge_chunks-Keeps task name chunks) λ h.
            bind-Keeps _ _ (attempt-Keeps _ (use_merged-Keeps user id task name h)) λ r.
              bind-Keeps _ _ (attempt-Keeps _ (remove_path-Keeps Q kept task.temp_dir _))
                λ d. search keeps_rules

      restore_on_error-Keeps :
          (user : ℕ) (id : String) (r : Result UserFile) → Fine (restore_on_error user id r)
      unfolding restore_on_error
      restore_on_error-Keeps user id (ok file) = search keeps_rules
      restore_on_error-Keeps user id (err e) =
          bind-Keeps _ _
            (attempt-Keeps _ (transition_status-Keeps Q kept user id completing uploading returns))
            λ t. search keeps_rules

      pub complete-Keeps : (user : ℕ) (id name : String) → Fine (complete service hash user id name)
      unfolding complete
      complete-Keeps user id name = bind-Keeps _ _ (find_by_id-Keeps Q kept user id) λ task.
          guard-Keeps _ _ _ (
            bind-Keeps _ _ (transition_status-Keeps Q kept user task.id uploading completing begins)
              λ t. guard-Keeps _ _ _ (
                bind-Keeps _ _ (attempt-Keeps _ (complete_body-Keeps user id task name))
                  λ r. restore_on_error-Keeps user id r))
