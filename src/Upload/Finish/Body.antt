-- ===== src/Upload/Finish/Body.antt =====
-- The removal of the merged file, and `Complete` after its first transition, where all calls work.
use cloud_box.Base.{ℕ, ◌≡◌, refl, sym, ◌∙◌, ap, subst, String, true, some, List}
use cloud_box.Fail.{Result, ok, err}
use cloud_box.Exec.Works.{
  Works, Post, Post-same, lift-Works, call-Works, query-Works, bind-Works, attempt-Works,
  post-Works,
}
use cloud_box.Disk.{Bytes, part, merged, has_dir, remove_file}
use cloud_box.Disk.Laws.{read-remove_file_other}
use cloud_box.File.Model.{UserFile}
use cloud_box.Upload.Model.{Task, Chunk, Store, FileService, same_status, completing}
use cloud_box.Upload.Repository.{list_chunks, chunks_of}
use cloud_box.Upload.Service.{remove_path, on_disk}
use cloud_box.Upload.Complete.{complete_body, merge_chunks}
use cloud_box.Upload.Status.{UniqueTasks, task_of}
use cloud_box.Upload.Merge.Whole.{IsWhole, merge_chunks-Works}
use cloud_box.Upload.Outcome.{Runs}
use cloud_box.Upload.Finish.{
  spoilt, mismatched, turned_down, Reason, Done, Undone, MergedAs, kept, use_merged-Works,
}

module _ {F : Type 0} (service : FileService F) (runs : Runs service) (hash : Bytes → String)
    (user : ℕ) (id name : String) (s1 : Store F) (task t1 : Task) (unique : UniqueTasks s1.tasks)
    (found : task_of user id s1 ≡ some t1) (taken : same_status t1.status completing ≡ true) where
  swept-Works :
      (r : Result UserFile)
      → Works
          (Post
            (Done service runs hash user id name s1 task t1 unique found taken)
            (Undone service runs hash user id name s1 task t1 unique found taken)
            r)
          (remove_path task.temp_dir (merged name))
          (λ _ s.
            Post
              (Done service runs hash user id name s1 task t1 unique found taken)
              (Undone service runs hash user id name s1 task t1 unique found taken)
              r
              s)
          (λ _ s.
            Post
              (Done service runs hash user id name s1 task t1 unique found taken)
              (Undone service runs hash user id name s1 task t1 unique found taken)
              r
              s)
  unfolding remove_path
  swept-Works r = call-Works _ λ s p.
      Post-same
        (Post (Done service runs hash user id name s1 task t1 unique found taken)
          (Undone service runs hash user id name s1 task t1 unique found taken) r)
        _ _ (swept r s p)
    where
      swept :
          (r : Result UserFile) (s : Store F)
          → Post
              (Done service runs hash user id name s1 task t1 unique found taken)
              (Undone service runs hash user id name s1 task t1 unique found taken)
              r
              s
          → Post
              (Done service runs hash user id name s1 task t1 unique found taken)
              (Undone service runs hash user id name s1 task t1 unique found taken)
              r
              (on_disk (remove_file task.temp_dir (merged name)) s).1
      swept (ok file) s d = record {
        bytes = d.bytes;
        whole = d.whole;
        matches = d.matches;
        done = record {
          accepted = d.done.accepted;
          files = d.done.files;
          task_row = d.done.task_row;
          cleared = λ n.
              read-remove_file_other task.temp_dir (merged name) (part n) s.disk refl
              ∙ d.done.cleared n;
        };
      }
      swept (err e) s (reason, k) = (
        moved_reason reason,
        record {
          tasks = k.tasks;
          chunks = k.chunks;
          clock = k.clock;
          parts = λ n.
              read-remove_file_other task.temp_dir (merged name) (part n) s.disk refl ∙ k.parts n;
        },
      )
        where
          moved_reason :
              Reason service hash user id name s1 task t1 e s
              → Reason service hash user id name s1 task t1 e
                  (on_disk (remove_file task.temp_dir (merged name)) s).1
          moved_reason (spoilt b f) = spoilt b f
          moved_reason (mismatched b w d f) = mismatched b w d f
          moved_reason (turned_down b w u f) = turned_down b w u f

  swept_result :
      (r : Result UserFile) (removed : Result (Unit {0})) (s : Store F)
      → Post
          (λ _ t.
            Post
              (Done service runs hash user id name s1 task t1 unique found taken)
              (Undone service runs hash user id name s1 task t1 unique found taken)
              r
              t)
          (λ _ t.
            Post
              (Done service runs hash user id name s1 task t1 unique found taken)
              (Undone service runs hash user id name s1 task t1 unique found taken)
              r
              t)
          removed
          s
      → Post
          (Done service runs hash user id name s1 task t1 unique found taken)
          (Undone service runs hash user id name s1 task t1 unique found taken)
          r
          s
  swept_result r (ok a) s p = p
  swept_result r (err e) s p = p

  pub complete_body-Works :
      has_dir task.temp_dir s1.disk ≡ true
      → Works
          (λ s. s ≡ s1)
          (complete_body service hash user id task name)
          (Done service runs hash user id name s1 task t1 unique found taken)
          (Undone service runs hash user id name s1 task t1 unique found taken)
  unfolding complete_body list_chunks
  complete_body-Works there =
      bind-Works _ _ (query-Works _ λ s e. (ap (λ t. chunks_of id t.chunks) e, e)) λ chunks.
        bind-Works _ _ (merged_chunks chunks) λ h.
          bind-Works _ _
            (attempt-Works _ _
              ((use_merged-Works service runs hash user id name s1 task t1 unique found taken) h))
            λ result.
              bind-Works _ _ (attempt-Works _ _ (swept-Works result))
                λ removed. lift-Works result (swept_result result removed)
    where
      merged_chunks :
          (chunks : List Chunk)
          → Works
              (λ s. (chunks ≡ chunks_of id s1.chunks) × (s ≡ s1))
              (merge_chunks hash task name chunks)
              (MergedAs service runs hash user id name s1 task t1 unique found taken)
              (Undone service runs hash user id name s1 task t1 unique found taken)
      merged_chunks chunks = record {
        at = λ s p.
            (post-Works _
                (λ h t (bytes, whole, e, f).
                  (bytes, subst (λ c. IsWhole hash task name s1 c bytes) p.0 whole, e, f))
                (λ e t q. (
                  spoilt
                      (λ bytes w.
                        q.0 bytes (subst (λ c. IsWhole hash task name s1 c bytes) (sym p.0) w))
                      q.1.files,
                  (kept service runs hash user id name s1 task t1 unique found taken) t q.1,
                ))
                (merge_chunks-Works hash task name s1 chunks there)).at
              s p.1;
      }
