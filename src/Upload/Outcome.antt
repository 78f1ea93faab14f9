-- ===== src/Upload/Outcome.antt =====
-- What `Complete` leaves, where all calls work.
use cloud_box.Base.{ℕ, ◌≡◌, refl, sym, ◌∙◌, ap, subst, String, true, not, none, some}
use cloud_box.Fail.{Error, Result, ok, err, task_not_uploading}
use cloud_box.Exec.{World, Exec, works, raise, write}
use cloud_box.Exec.Works.{
  Works, Post, pure-Works, raise-Works, call-Works, if-Works, bind-Works, attempt-Works, pre-Works,
  post-Works,
}
use cloud_box.Disk.{Bytes, part, read}
use cloud_box.Disk.Laws.{read-remove_all}
use cloud_box.File.Model.{UserFile}
use cloud_box.Upload.Model.{Task, Store, FileService, same_status, completing, completed, on_files}
use cloud_box.Upload.Repository.{with_status, transition_status}
use cloud_box.Upload.Service.{remove_dir}
use cloud_box.Upload.Complete.{hand_over}
use cloud_box.Upload.Status.{UniqueTasks, task_of, transition_works, moved, set_status_rest}
use cloud_box.Upload.Merge.{Frame}

-- The upload of the file service, for one file and content.
abbrev pub upload : {F : Type 0} → FileService F → ℕ → Task → Bytes → Exec F UserFile
upload service user task content =
    service.upload_into_folder user task.parent_id task.original_name task.content_type
      (record { bytes = content; fault = none })

-- Where all calls work, those of the file service work too.
abbrev pub Runs : {F : Type 0} → FileService F → Type 0
Runs {F} service =
    (user : ℕ) (task : Task) (content : Bytes) (f : F)
    → (upload service user task content (works f)).1
      ≡ works (upload service user task content (works f)).1.store

module _ {F A : Type 0} {P : Store F → Type 0} {Q : A → Store F → Type 0}
    {E : Error → Store F → Type 0} where
  on_files-Works :
      (m : Exec F A)
      → ((f : F) → (m (works f)).1 ≡ works (m (works f)).1.store)
      → ((s : Store F)
          → P s
          → Post Q E (m (works s.files)).0 (record s { files = (m (works s.files)).1.store }))
      → Works P (on_files m) Q E
  unfolding on_files
  on_files-Works m runs step = record {
    at = λ s p. (
      ap
          (λ v. record {
            outcomes = v.outcomes;
            store = record s { files = (m (works s.files)).1.store };
          })
          (runs s.files),
      step s p,
    );
  }

module _ {F : Type 0} (service : FileService F) (user : ℕ) (s1 : Store F) (task : Task) where
  abbrev pub uploaded : Bytes → Result UserFile × World F
  uploaded content = upload service user task content (works s1.files)

module _ {F : Type 0} (service : FileService F) (user : ℕ) (id : String) (s1 : Store F)
    (task t1 : Task) where
  -- The upload went through: the task is completed and its directory is gone.
  pub record Completed (content : Bytes) (file : UserFile) (s : Store F) : Type 0 where
    pub accepted : (uploaded service user s1 task content).0 ≡ ok file
    pub files : s.files ≡ (uploaded service user s1 task content).1.store
    pub task_row : task_of user id s ≡ some (with_status s1.clock completed t1)
    pub cleared : (n : ℕ) → read task.temp_dir (part n) s.disk ≡ none

  -- The file service refused it: tasks, chunks and parts are as they were.
  pub record Refused (content : Bytes) (e : Error) (s : Store F) : Type 0 where
    pub refused : (uploaded service user s1 task content).0 ≡ err e
    pub files : s.files ≡ (uploaded service user s1 task content).1.store
    pub tasks : s.tasks ≡ s1.tasks
    pub chunks : s.chunks ≡ s1.chunks
    pub clock : s.clock ≡ s1.clock
    pub parts : (n : ℕ) → read task.temp_dir (part n) s.disk ≡ read task.temp_dir (part n) s1.disk

  -- The state after the file service has accepted.
  pub record Accepted (content : Bytes) (file : UserFile) (s : Store F) : Type 0 where
    accepted : (uploaded service user s1 task content).0 ≡ ok file
    files : s.files ≡ (uploaded service user s1 task content).1.store
    tasks : s.tasks ≡ s1.tasks
    clock : s.clock ≡ s1.clock

  -- The state after the last transition.
  pub record Moved (content : Bytes) (file : UserFile) (s : Store F) : Type 0 where
    accepted : (uploaded service user s1 task content).0 ≡ ok file
    files : s.files ≡ (uploaded service user s1 task content).1.store
    task_row : task_of user id s ≡ some (with_status s1.clock completed t1)

module _ {F : Type 0} (service : FileService F) (runs : Runs service) (hash : Bytes → String)
    (user : ℕ) (id name : String) (s1 : Store F) (task t1 : Task) (unique : UniqueTasks s1.tasks)
    (found : task_of user id s1 ≡ some t1) (taken : same_status t1.status completing ≡ true) where
  upload-Works :
      (content : Bytes)
      → Works
          (Frame hash task name s1 content)
          (on_files (upload service user task content))
          (Accepted service user id s1 task t1 content)
          (Refused service user id s1 task t1 content)
  upload-Works content =
      on_files-Works _ (runs user task content)
        λ s f. by_result s f (uploaded service user s1 task content).0 refl
    where
      by_result :
          (s : Store F)
          → Frame hash task name s1 content s
          → (r : Result UserFile) → (uploaded service user s1 task content).0 ≡ r
          → Post
              (Accepted service user id s1 task t1 content)
              (Refused service user id s1 task t1 content)
              (upload service user task content (works s.files)).0
              (record s { files = (upload service user task content (works s.files)).1.store })
      by_result s f (ok file) e =
          rw (f.side.files, e)
            (record { accepted = e; files = refl; tasks = f.side.tasks; clock = f.side.clock })
      by_result s f (err x) e =
          rw (f.side.files, e)
            (record {
              refused = e;
              files = refl;
              tasks = f.side.tasks;
              chunks = f.side.chunks;
              clock = f.side.clock;
              parts = f.side.parts;
            })

  transition-Works :
      (content : Bytes) (file : UserFile)
      → Works
          (Accepted service user id s1 task t1 content file)
          (transition_status user id completing completed)
          (λ done s. (done ≡ true) × Moved service user id s1 task t1 content file s)
          (λ e s. ⊥)
  transition-Works content file = record { at = λ s a. step s a }
    where
      unique_in :
          (s : Store F) → Accepted service user id s1 task t1 content file s → UniqueTasks s.tasks
      unique_in s a = subst UniqueTasks (sym a.tasks) unique

      found_in :
          (s : Store F)
          → Accepted service user id s1 task t1 content file s
          → task_of user id s ≡ some t1
      found_in s a = rw a.tasks found

      step :
          (s : Store F)
          → Accepted service user id s1 task t1 content file s
          → ((transition_status user id completing completed (works s)).1
              ≡ works (transition_status user id completing completed (works s)).1.store)
            × Post
                (λ done t. (done ≡ true) × Moved service user id s1 task t1 content file t)
                (λ e t. ⊥)
                (transition_status user id completing completed (works s)).0
                (transition_status user id completing completed (works s)).1.store
      step s a =
          rw
            (transition_works user id s t1 (unique_in s a) (found_in s a) completing completed
              taken)
            (
              refl,
              (
                refl,
                record {
                  accepted = a.accepted;
                  files = (set_status_rest user id completing completed s).2 ∙ a.files;
                  task_row =
                      moved user id s t1 (unique_in s a) (found_in s a) completing completed taken
                      ∙ ap (λ c. some (with_status c completed t1)) a.clock;
                },
              ),
            )

  clear-Works :
      (content : Bytes) (file : UserFile)
      → Works
          (Moved service user id s1 task t1 content file)
          (remove_dir task.temp_dir)
          (λ _ s. Completed service user id s1 task t1 content file s)
          (λ e s. ⊥)
  unfolding remove_dir write
  clear-Works content file = call-Works _ λ s m. record {
    accepted = m.accepted;
    files = m.files;
    task_row = m.task_row;
    cleared = λ n. read-remove_all task.temp_dir (part n) s.disk;
  }

  settle_file :
      (content : Bytes) (file : UserFile) (r : Result (Unit {0})) (s : Store F)
      → Post (λ _ t. Completed service user id s1 task t1 content file t) (λ e t. ⊥) r s
      → Completed service user id s1 task t1 content file s
  settle_file content file (ok a) s p = p
  settle_file content file (err a) s p = absurd p

  pub hand_over-Works :
      (content : Bytes)
      → Works
          (Frame hash task name s1 content)
          (hand_over service hash user id task content)
          (Completed service user id s1 task t1 content)
          (Refused service user id s1 task t1 content)
  unfolding hand_over
  hand_over-Works content = bind-Works _ _ (upload-Works content) λ file.
      bind-Works _ _
        (post-Works _ (λ done s q. q) (λ e s p. absurd p) (transition-Works content file))
        λ done.
          if-Works (not done) (raise task_not_uploading) _
            (λ not_done. raise-Works task_not_uploading λ s q. cc (q.0, not_done))
            (λ _.
              bind-Works _ _
                (attempt-Works _ _ (pre-Works _ _ (λ s q. q.1) (clear-Works content file)))
                λ r. pure-Works file (settle_file content file r))
