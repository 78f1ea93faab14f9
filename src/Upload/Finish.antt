-- ===== src/Upload/Finish.antt =====
-- What `Complete` leaves, from the transition to `completing` on, where all calls work.
pub mod Body
use cloud_box.Base.{
  ℕ, ◌≡◌, refl, sym, ◌∙◌, ap, subst, String, true, false, Option, none, some, List, arith, str_eq,
  str_eq→eq, str_eq_refl,
}
use cloud_box.Fail.{Error, Result, ok, err}
use cloud_box.Exec.{works, query}
use cloud_box.Exec.Works.{
  Works, Post, Post-same, raise-Works, lift-Works, call-Works, query-Works, if-Works, bind-Works,
  attempt-Works, post-Works,
}
use cloud_box.Disk.{Bytes, part, merged, read, has_dir, remove_file}
use cloud_box.Disk.Laws.{read-remove_file_other}
use cloud_box.File.Model.{UserFile}
use cloud_box.Upload.Model.{Task, Chunk, Store, FileService, same_status, completing}
use cloud_box.Upload.Repository.{list_chunks, chunks_of}
use cloud_box.Upload.Service.{remove_path, on_disk}
use cloud_box.Upload.Complete.{
  declared_differs, hand_over, use_merged, complete_body, merge_chunks, opened_file,
}
use cloud_box.Upload.Status.{UniqueTasks, task_of}
use cloud_box.Upload.Merge.Part.{close_file-Works}
use cloud_box.Upload.Merge.{Side, Frame}
use cloud_box.Upload.Merge.Whole.{IsWhole, Merges, merge_chunks-Works}
use cloud_box.Upload.Outcome.{Runs, uploaded, Completed, Refused, hand_over-Works}

-- The hash is the one that the client has declared, if it has declared one.
abbrev pub IsDeclared : Option String → String → Type 0
IsDeclared none h = Unit {0}
IsDeclared (some declared) h = declared ≡ h

differs-IsDeclared :
    (o : Option String) (h : String) → declared_differs o h ≡ false → IsDeclared o h
differs-IsDeclared none h e = tt
differs-IsDeclared (some declared) h e = str_eq→eq declared h (ground arith)

not_declared : (o : Option String) (h : String) → declared_differs o h ≡ true → ¬ IsDeclared o h
not_declared none h e same = cc
not_declared (some declared) h e same = cc (rw same at e, str_eq_refl h)

module _ {F : Type 0} (service : FileService F) (hash : Bytes → String) (user : ℕ)
    (id name : String) (s1 : Store F) (task t1 : Task) where
  abbrev Whole : Bytes → Type 0
  Whole bytes = IsWhole hash task name s1 (chunks_of id s1.chunks) bytes

  -- The file that the task is about has been made, of exactly the bytes of its chunks.
  pub record Finished (file : UserFile) (s : Store F) : Type 0 where
    pub bytes : Bytes
    pub whole : Whole bytes
    pub matches : IsDeclared task.file_hash (hash bytes)
    pub done : Completed service user id s1 task t1 bytes file s

  -- Why there is no file, and what the file service has been asked.
  pub data Reason (e : Error) (s : Store F) : Type 0 where
    spoilt : ((bytes : Bytes) → ¬ Whole bytes) → s.files ≡ s1.files → Reason e s
    mismatched :
        (bytes : Bytes)
        → Whole bytes
        → (¬ IsDeclared task.file_hash (hash bytes))
        → s.files ≡ s1.files
        → Reason e s
    turned_down :
        (bytes : Bytes)
        → Whole bytes
        → (uploaded service user s1 task bytes).0 ≡ err e
        → s.files ≡ (uploaded service user s1 task bytes).1.store
        → Reason e s

  -- Tasks, chunks and parts are as they were.
  pub record Kept (s : Store F) : Type 0 where
    pub tasks : s.tasks ≡ s1.tasks
    pub chunks : s.chunks ≡ s1.chunks
    pub clock : s.clock ≡ s1.clock
    pub parts : (n : ℕ) → read task.temp_dir (part n) s.disk ≡ read task.temp_dir (part n) s1.disk

  abbrev pub Unfinished : Error → Store F → Type 0
  Unfinished e s = Reason e s × Kept s

module _ {F : Type 0} (service : FileService F) (runs : Runs service) (hash : Bytes → String)
    (user : ℕ) (id name : String) (s1 : Store F) (task t1 : Task) (unique : UniqueTasks s1.tasks)
    (found : task_of user id s1 ≡ some t1) (taken : same_status t1.status completing ≡ true) where
  abbrev pub Done : UserFile → Store F → Type 0
  Done file s = Finished service hash user id name s1 task t1 file s

  abbrev pub Undone : Error → Store F → Type 0
  Undone e s = Unfinished service hash user id name s1 task t1 e s

  abbrev pub MergedAs : String → Store F → Type 0
  MergedAs h s = Merges hash task name s1 (chunks_of id s1.chunks) h s

  pub kept : (s : Store F) → Side hash task name s1 s → Kept service hash user id name s1 task t1 s
  kept s side = record {
    tasks = side.tasks;
    chunks = side.chunks;
    clock = side.clock;
    parts = side.parts;
  }

  -- Where all parts have been merged, and the hash is the declared one.
  record Matched (bytes : Bytes) (s : Store F) : Type 0 where
    whole : IsWhole hash task name s1 (chunks_of id s1.chunks) bytes
    matches : declared_differs task.file_hash (hash bytes) ≡ false
    frame : Frame hash task name s1 bytes s

  opened-Works :
      (bytes : Bytes)
      → Works
          (Matched bytes)
          (query (λ s. opened_file (read task.temp_dir (merged name) s.disk)))
          (λ content s. (content ≡ bytes) × Matched bytes s)
          (λ e s. ⊥)
  opened-Works bytes = query-Works _ λ s m. rw m.frame.written (refl, m)

  settled : (file : UserFile) (s : Store F) → Done file s → Done file s
  settled file s d = d

  outcome :
      (bytes : Bytes) (w : Store F)
      → Matched bytes w
      → (r : Result UserFile) (s : Store F)
      → Post
          (Completed service user id s1 task t1 bytes)
          (Refused service user id s1 task t1 bytes)
          r
          s
      → Post Done Undone r s
  outcome bytes w m (ok file) s c = record {
    bytes = bytes;
    whole = m.whole;
    matches = differs-IsDeclared task.file_hash (hash bytes) m.matches;
    done = c;
  }
  outcome bytes w m (err e) s c = (
    turned_down bytes m.whole c.refused c.files,
    record { tasks = c.tasks; chunks = c.chunks; clock = c.clock; parts = c.parts },
  )

  after_close :
      (r : Result UserFile) (c : Result (Unit {0})) (s : Store F)
      → Post (λ _ t. Post Done Undone r t) (λ e t. ⊥) c s
      → Post Done Undone r s
  after_close r (ok a) s p = p
  after_close r (err e) s p = absurd p

  handed :
      (bytes content : Bytes)
      → Works
          (λ s. (content ≡ bytes) × Matched bytes s)
          (hand_over service hash user id task content)
          Done
          Undone
  handed bytes content = record { at = λ s p. subst (λ c. Ran c s) (sym p.0) (ran s p.1) }
    where
      Ran : Bytes → Store F → Type 0
      Ran c s =
          ((hand_over service hash user id task c (works s)).1
            ≡ works (hand_over service hash user id task c (works s)).1.store)
          × Post Done Undone (hand_over service hash user id task c (works s)).0
              (hand_over service hash user id task c (works s)).1.store

      ran : (s : Store F) → Matched bytes s → Ran bytes s
      ran s m =
          let run =
            (hand_over-Works service runs hash user id name s1 task t1 unique found taken bytes).at
              s m.frame in
          (run.0, outcome bytes s m _ _ run.1)

  pub use_merged-Works :
      (h : String) → Works (MergedAs h) (use_merged service hash user id task name h) Done Undone
  unfolding use_merged
  use_merged-Works h =
      if-Works _ _ _
        (λ differs. raise-Works _ λ s (bytes, whole, e, f). (
          mismatched bytes whole
              (not_declared task.file_hash (hash bytes)
                (ap (declared_differs task.file_hash) (sym e) ∙ differs))
              f.side.files,
          kept s f.side,
        ))
        (λ matches. record {
          at = λ s (bytes, whole, e, f).
              (bind-Works _ _ (post-Works _ (λ c t q. q) (λ x t q. absurd q) (opened-Works bytes))
                  λ content. bind-Works _ _ (attempt-Works _ _ (handed bytes content)) λ result.
                    bind-Works _ _ (attempt-Works _ _ (close_file-Works hash task name s1 _))
                      λ closed. lift-Works result (after_close result closed)).at
                s
                (record {
                  whole = whole;
                  matches = ap (declared_differs task.file_hash) (sym e) ∙ matches;
                  frame = f;
                });
        })
