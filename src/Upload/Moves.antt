-- ===== src/Upload/Moves.antt =====
-- The moves of a task: what every operation of the service does to the table of tasks, on every
-- branch, whatever calls fail.
pub mod Operations
use cloud_box.Base.{
  ℕ, ℤ, ◌≡◌, refl, String, Bool, true, false, Option, none, some, List, [], ◌∷◌, arith, ltb,
  is_some, Option-cases, Bool-cases, inl, inr, if◌then◌else◌, positive?,
}
use cloud_box.Fail.{Error, Result, ok, err}
use cloud_box.Exec.{World, Exec, pure, raise, lift, call, query, write, attempt, ◌>>=◌, ◌>>◌}
use cloud_box.Exec.Keeps.{
  Keeps, keeps_rules, pure-Keeps, raise-Keeps, lift-Keeps, call-Keeps, query-Keeps, attempt-Keeps,
  if-Keeps, bind-Keeps, write-Keeps,
}
use cloud_box.Sql.{find_where, update_where, insert_row}
use cloud_box.Text.{trim_space, is_empty}
use cloud_box.Disk.{Bytes, Reader, Disk, FileName}
use cloud_box.File.Model.{UserFile}
use cloud_box.Upload.Model.{
  Task, Chunk, Status, Store, FileService, uploading, completing, completed, failed, on_files,
}
use cloud_box.Upload.Repository.{
  has_id, is_task_in, with_status, insert_task, put_chunk, set_status, touch, create, find_by_id,
  upsert_chunk, find_chunk, list_chunks, transition_status, touch_uploading, list_expired_uploading,
  row_allowed,
}
use cloud_box.Upload.Service.{
  make_dir, remove_dir, remove_path, discard, copy_from, close_file, keep_part, check_received,
  receive_part, cancel, cleanup_loop, start_cleanup, cleanup_expired, chunk_index, new_task,
  register, init_in_folder, store_chunk, upload_chunk, on_disk,
}
use cloud_box.Upload.Complete.{
  open_part, copy_part, check_part, merge_part, Merged, merge_loop, merge_body, keep_merged,
  merge_chunks, hand_over, use_merged, complete_body, restore_on_error, complete,
}

-- The moves that the code asks for.
pub data Edge : Status → Status → Type 0 where
  begins : Edge uploading completing
  ends : Edge completing completed
  returns : Edge completing uploading
  stops : Edge uploading failed

-- A property of the table that the statements keep.
pub record Kept (Q : List Task → Type 0) : Type 0 where
  pub moves :
      (user clock : ℕ) (id : String) (from to : Status) (tasks : List Task)
      → Edge from to
      → Q tasks
      → Q (update_where (is_task_in user id from) (with_status clock to) tasks)
  pub touches :
      (user clock : ℕ) (id : String) (tasks : List Task)
      → Q tasks
      → Q (update_where (is_task_in user id uploading) (λ t. record t { updated_at = clock }) tasks)
  pub inserts :
      (t : Task) (tasks : List Task)
      → find_where (has_id t.id) tasks ≡ none
      → Q tasks
      → Q (insert_row t tasks)

module _ {F : Type 0} (Q : List Task → Type 0) (kept : Kept Q) where
  abbrev pub On : Store F → Type 0
  On s = Q s.tasks

  abbrev pub Ok : {A : Type 0} → Exec (Store F) A → Type 0
  Ok m = Keeps On m

  pub transition_status-Keeps :
      (user : ℕ) (id : String) (from to : Status)
      → Edge from to
      → Ok (transition_status user id from to)
  unfolding transition_status set_status
  transition_status-Keeps user id from to edge =
      bind-Keeps _ _ (call-Keeps _ λ s q. kept.moves user s.clock id from to s.tasks edge q)
        λ n. search keeps_rules

  pub touch_uploading-Keeps : (user : ℕ) (id : String) → Ok (touch_uploading user id)
  unfolding touch_uploading touch
  touch_uploading-Keeps user id =
      bind-Keeps _ _ (call-Keeps _ λ s q. kept.touches user s.clock id s.tasks q)
        λ n. search keeps_rules

  pub on_files-Keeps : {A : Type 0} (m : Exec F A) → Ok (on_files m)
  unfolding on_files
  on_files-Keeps m = record { at = λ w q. q }

  put_chunk_tasks : (c : Chunk) (s : Store F) → (put_chunk c s).tasks ≡ s.tasks
  unfolding put_chunk
  put_chunk_tasks c s = ground arith

  pub upsert_chunk-Keeps : (c : Chunk) → Ok (upsert_chunk c)
  unfolding upsert_chunk find_chunk
  upsert_chunk-Keeps c =
      bind-Keeps _ _ (write-Keeps _ λ s q. rw (put_chunk_tasks c s) q) λ n. search keeps_rules

  insert_task_keeps : (t : Task) (s : Store F) → On s → On (insert_task t s).1
  unfolding insert_task
  insert_task_keeps t s q = elim (Option-cases (find_where (has_id t.id) s.tasks)) [
    | inr (old, e) ↦ rw e q
    | inl e ↦ rw e (elim (Bool-cases (row_allowed t)) [
      | inl y ↦ rw y (kept.inserts _ s.tasks e q)
      | inr n ↦ rw n q
    ])
  ]

  pub find_by_id-Keeps : (user : ℕ) (id : String) → Ok (find_by_id user id)
  unfolding find_by_id
  find_by_id-Keeps user id = search keeps_rules

  pub create-Keeps : (t : Task) → Ok (create t)
  unfolding create
  create-Keeps t =
      bind-Keeps _ _ (call-Keeps _ (insert_task_keeps t)) λ n. find_by_id-Keeps t.user_id t.id

  pub make_dir-Keeps : (dir : String) → Ok (make_dir dir)
  unfolding make_dir
  make_dir-Keeps dir = write-Keeps _ λ s q. q

  pub remove_dir-Keeps : (dir : String) → Ok (remove_dir dir)
  unfolding remove_dir
  remove_dir-Keeps dir = write-Keeps _ λ s q. q

  pub on_disk-Keeps : {A : Type 0} (f : Disk → Result A × Disk) → Ok (call (on_disk f))
  on_disk-Keeps f = call-Keeps _ λ s q. q

  pub remove_path-Keeps : (dir : String) (name : FileName) → Ok (remove_path dir name)
  unfolding remove_path
  remove_path-Keeps dir name = on_disk-Keeps _

  pub copy_from-Keeps :
      (source : Reader) (dir : String) (name : FileName) → Ok (copy_from source dir name)
  unfolding copy_from
  copy_from-Keeps source dir name = call-Keeps _ λ s q. q

  pub copy_part-Keeps :
      (task : Task) (name : String) (content : Bytes) → Ok (copy_part task name content)
  unfolding copy_part
  copy_part-Keeps task name content = call-Keeps _ λ s q. q

  pub close_file-Keeps : Ok close_file
  unfolding close_file
  close_file-Keeps = query-Keeps _

  pub discard-Keeps :
      {A : Type 0} (task : Task) (number : ℕ) (e : Error) → Ok (discard {A = A} task number e)
  unfolding discard
  discard-Keeps task number e = search (keeps_rules, remove_path-Keeps)

  pub keep_part-Keeps :
      (task : Task) (number : ℕ) (r : Result (Unit {0})) → Ok (keep_part task number r)
  unfolding keep_part
  keep_part-Keeps task number (ok done) = search keeps_rules
  keep_part-Keeps task number (err e) = discard-Keeps task number e

  pub check_received-Keeps :
      (task : Task) (number : ℕ) (size : Result ℕ) (closed : Result (Unit {0}))
      → Ok (check_received task number size closed)
  unfolding check_received
  check_received-Keeps task number (ok size) (ok done) =
      search (keeps_rules, on_disk-Keeps, keep_part-Keeps, discard-Keeps)
  check_received-Keeps task number (ok size) (err e) = discard-Keeps task number e
  check_received-Keeps task number (err e) closed = discard-Keeps task number e

  pub receive_part-Keeps :
      (task : Task) (number : ℕ) (source : Reader) → Ok (receive_part task number source)
  unfolding receive_part
  receive_part-Keeps task number source =
      search (keeps_rules, on_disk-Keeps, copy_from-Keeps, close_file-Keeps, check_received-Keeps)

  pub cancel-Keeps : (user : ℕ) (id : String) → Ok (cancel user id)
  unfolding cancel
  cancel-Keeps user id = bind-Keeps _ _ (find_by_id-Keeps user id) λ task.
      bind-Keeps _ _ (transition_status-Keeps user task.id uploading failed stops)
        λ done. search (keeps_rules, remove_dir-Keeps)
