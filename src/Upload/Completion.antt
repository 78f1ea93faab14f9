-- ===== src/Upload/Completion.antt =====
-- `Complete` of internal/upload/service.go, from the request to its result, where all calls work.
use cloud_box.Base.{ℕ, ◌≡◌, refl, sym, ◌∙◌, ap, subst, String, Bool, true, some}
use cloud_box.Fail.{Error, Result, ok, err}
use cloud_box.Exec.{World, works, ◌>>=◌, query-works}
use cloud_box.Exec.Works.{Works, Post, pure-Works, raise-Works, bind-Works, attempt-Works}
use cloud_box.Sql.{update_where}
use cloud_box.Disk.{Bytes, has_dir, read, part}
use cloud_box.File.Model.{UserFile}
use cloud_box.Upload.Model.{Task, Store, FileService, same_status, uploading, completing}
use cloud_box.Upload.Repository.{with_status, set_status, is_task_in, find_by_id, transition_status}
use cloud_box.Upload.Complete.{complete, complete_body, restore_on_error}
use cloud_box.Upload.Status.{
  UniqueTasks, task_of, transition_works, moved, set_status-UniqueTasks, same_id, set_status_rest,
}
use cloud_box.Upload.Outcome.{Runs}
use cloud_box.Upload.Finish.Body.{complete_body-Works}
use cloud_box.Upload.Finish.{Finished, Reason, spoilt, mismatched, turned_down, Unfinished}

module _ {F : Type 0} (user : ℕ) (id : String) (s : Store F) (task : Task) where
  -- The store after the transition to `completing`, and the row of the task there.
  abbrev pub begun : Store F
  begun = record s {
    tasks = update_where (is_task_in user id uploading) (with_status s.clock completing) s.tasks;
  }

  abbrev pub begun_task : Task
  begun_task = with_status s.clock completing task

module _ {F : Type 0} (service : FileService F) (hash : Bytes → String) (user : ℕ)
    (id name : String) (s : Store F) (task : Task) where
  abbrev pub Success : UserFile → Store F → Type 0
  Success file t =
      Finished service hash user id name (begun user id s task) task (begun_task user id s task)
        file t

  -- The task accepts chunks again, its chunks and parts are those it had, and there is a reason.
  pub record Restored (e : Error) (t : Store F) : Type 0 where
    pub reason :
        Reason service hash user id name (begun user id s task) task (begun_task user id s task) e t
    pub task_row : task_of user id t ≡ some (with_status s.clock uploading task)
    pub chunks : t.chunks ≡ s.chunks
    pub parts : (n : ℕ) → read task.temp_dir (part n) t.disk ≡ read task.temp_dir (part n) s.disk

  abbrev Why : Error → Store F → Type 0
  Why e t =
      Reason service hash user id name (begun user id s task) task (begun_task user id s task) e t

  -- A reason is about no more of a store than the file service.
  same_reason : (e : Error) (t u : Store F) → u.files ≡ t.files → Why e t → Why e u
  same_reason e t u same (spoilt x f) = spoilt x (same ∙ f)
  same_reason e t u same (mismatched x w d f) = mismatched x w d (same ∙ f)
  same_reason e t u same (turned_down x w r f) = turned_down x w r (same ∙ f)

module _ {F : Type 0} (service : FileService F) (runs : Runs service) (hash : Bytes → String)
    (user : ℕ) (id name : String) (s : Store F) (task : Task) (unique : UniqueTasks s.tasks)
    (found : task_of user id s ≡ some task) (ready : same_status task.status uploading ≡ true)
    (there : has_dir task.temp_dir s.disk ≡ true) where
  -- What the first transition makes of the store.
  begun_lem :
      transition_status user task.id uploading completing (works s)
      ≡ (ok true, works (begun user id s task))
  unfolding set_status
  begun_lem =
      ap (λ i. transition_status user i uploading completing (works s))
        (same_id user id s task unique found)
      ∙ transition_works user id s task unique found uploading completing ready

  begun_unique : UniqueTasks (begun user id s task).tasks
  unfolding set_status
  begun_unique = set_status-UniqueTasks user id s task unique found uploading completing

  begun_found : task_of user id (begun user id s task) ≡ some (begun_task user id s task)
  unfolding set_status
  begun_found = moved user id s task unique found uploading completing ready

  abbrev Undone : Error → Store F → Type 0
  Undone e t =
      Unfinished service hash user id name (begun user id s task) task (begun_task user id s task) e
        t

  restored :
      (e : Error) (t : Store F)
      → Undone e t
      → (transition_status user id completing uploading (works t)
          ≡ (ok true, works (set_status user id completing uploading t).1))
        × Restored service hash user id name s task e (set_status user id completing uploading t).1
  restored e t (reason, k) = (
    transition_works user id t (begun_task user id s task) unique_t found_t completing uploading
        refl,
    record {
      reason =
          same_reason service hash user id name s task e t _
            (set_status_rest user id completing uploading t).2 reason;
      task_row =
          moved user id t (begun_task user id s task) unique_t found_t completing uploading refl
          ∙ ap (λ c. some (with_status c uploading (begun_task user id s task))) k.clock;
      chunks = (set_status_rest user id completing uploading t).0 ∙ k.chunks;
      parts = λ n.
          ap (read task.temp_dir (part n)) (set_status_rest user id completing uploading t).1
          ∙ k.parts n;
    },
  )
    where
      unique_t : UniqueTasks t.tasks
      unique_t = subst UniqueTasks (sym k.tasks) begun_unique

      found_t : task_of user id t ≡ some (begun_task user id s task)
      found_t = rw k.tasks begun_found

  restore_on_error-Works :
      (r : Result UserFile)
      → Works
          (Post (Success service hash user id name s task) Undone r)
          (restore_on_error user id r)
          (Success service hash user id name s task)
          (Restored service hash user id name s task)
  unfolding restore_on_error
  restore_on_error-Works (ok file) = pure-Works file λ t p. p
  restore_on_error-Works (err e) =
      bind-Works _ _ (attempt-Works _ _ back) λ r. raise-Works e (given r)
    where
      back :
          Works
            (Undone e)
            (transition_status user id completing uploading)
            (λ _ t. Restored service hash user id name s task e t)
            (λ _ t. ⊥)
      back = record { at = λ t u. rw ((restored e t u).0) (refl, (restored e t u).1) }

      given :
          (r : Result Bool) (t : Store F)
          → Post (λ _ u. Restored service hash user id name s task e u) (λ _ u. ⊥) r t
          → Restored service hash user id name s task e t
      given (ok a) t p = p
      given (err a) t p = absurd p

  ran :
      ((complete_body service hash user id task name (works (begun user id s task))).1
        ≡ works
            (complete_body service hash user id task name (works (begun user id s task))).1.store)
      × Post
          (Success service hash user id name s task)
          Undone
          (complete_body service hash user id task name (works (begun user id s task))).0
          (complete_body service hash user id task name (works (begun user id s task))).1.store
  ran =
      (complete_body-Works service runs hash user id name (begun user id s task) task
          (begun_task user id s task) begun_unique begun_found refl there).at
        (begun user id s task) refl

  Restored-run :
      (w : World (Store F))
      → w ≡ works w.store
      → (r : Result UserFile) → Post (Success service hash user id name s task) Undone r w.store
      → Post
          (Success service hash user id name s task)
          (Restored service hash user id name s task)
          (restore_on_error user id r w).0
          (restore_on_error user id r w).1.store
  Restored-run w clean r p = rw clean (((restore_on_error-Works r).at w.store p).1)

  -- Where all calls work, those of the file service included, no two tasks share an identifier, and
  -- the user has an upload in status `uploading` whose directory exists,
  -- `Complete` answers in one of two ways. With a file: the parts on the disk are all there, in
  -- order, each of its size and hash, together of the size of the file, and of the declared hash if
  -- there is one; the file service accepted exactly their bytes and made that file; the task is
  -- `completed`, and no part of it is left on the disk. Or with an error: the parts are not whole,
  -- or their hash is not the declared one, and the file service was not called; or the service
  -- turned the bytes down with that error; the task is `uploading` again, and its chunks and parts
  -- are those it had.
  pub complete_lem :
      Post
        (Success service hash user id name s task)
        (Restored service hash user id name s task)
        (complete service hash user id name (works s)).0
        (complete service hash user id name (works s)).1.store
  unfolding complete find_by_id ◌>>=◌
  complete_lem = rw (query-works, found, ready, begun_lem) (Restored-run _ ran.0 _ ran.1)
