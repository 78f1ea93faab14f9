-- ===== src/Upload/Receive.antt =====
-- `UploadChunk` of internal/upload/service.go: what an accepted chunk leaves for `Complete`, where all
-- calls work.
use cloud_box.Base.{
  ℕ, ◌≡◌, ◌≢◌, refl, sym, ◌∙◌, subst, true, Option, none, some, [], ◌==◌, ==_iff, arith, length,
}
use cloud_box.Fail.{Error, Result, ok, err}
use cloud_box.Exec.{call}
use cloud_box.Exec.Works.{
  Works, Post, Post-same, pure-Works, raise-Works, call-Works, query-Works, if-Works, bind-Works,
  attempt-Works, pre-Works,
}
use cloud_box.Disk.{
  Bytes, Reader, part, part_tmp, read, has_dir, create_file, append_file, rename_file,
}
use cloud_box.Disk.Laws.{
  read-append_file, read-append_file_other, read-put_file, read-put_file_other,
  read-remove_file_other, read-delete_file_other, rename_file_lem,
}
use cloud_box.Upload.Model.{Task, Store}
use cloud_box.Upload.Plan.{expected_chunk_size}
use cloud_box.Upload.Service.{
  on_disk, discard, remove_path, copy_from, close_file, keep_part, check_received, receive_part,
}

module _ {F : Type 0} (task : Task) (s0 : Store F) where
  -- The tables, and all parts, are as they were.
  pub record Untouched (s : Store F) : Type 0 where
    pub tasks : s.tasks ≡ s0.tasks
    pub chunks : s.chunks ≡ s0.chunks
    pub clock : s.clock ≡ s0.clock
    pub parts : (n : ℕ) → read task.temp_dir (part n) s.disk ≡ read task.temp_dir (part n) s0.disk

module _ {F : Type 0} (task : Task) (number : ℕ) (source : Reader) (s0 : Store F) where
  -- And the temporary file has this content.
  abbrev Holds : Bytes → Store F → Type 0
  Holds content s =
      (Untouched task s0) s × (read task.temp_dir (part_tmp number) s.disk ≡ some content)

  -- The part is on the disk, of the size that the task expects, and the others are as they were.
  pub record Received (s : Store F) : Type 0 where
    pub tasks : s.tasks ≡ s0.tasks
    pub chunks : s.chunks ≡ s0.chunks
    pub clock : s.clock ≡ s0.clock
    pub stored : read task.temp_dir (part number) s.disk ≡ some source.bytes
    pub complete : length source.bytes ≡ expected_chunk_size task number
    pub others :
        (n : ℕ)
        → n ≢ number
        → read task.temp_dir (part n) s.disk ≡ read task.temp_dir (part n) s0.disk

  create-Works :
      has_dir task.temp_dir s0.disk ≡ true
      → Works
          (λ s. s ≡ s0)
          (call (on_disk (create_file task.temp_dir (part_tmp number))))
          (λ _ s. Holds [] s)
          (λ e s. (Untouched task s0) s)
  unfolding create_file
  create-Works there = call-Works _ λ s e. subst Made (sym e) made
    where
      Made : Store F → Type 0
      Made t =
          Post (λ _ s. Holds [] s) (λ e s. (Untouched task s0) s)
            (on_disk (create_file task.temp_dir (part_tmp number)) t).0
            (on_disk (create_file task.temp_dir (part_tmp number)) t).1

      made : Made s0
      made = rw there (
        record {
          tasks = refl;
          chunks = refl;
          clock = refl;
          parts = λ n. read-put_file_other task.temp_dir (part_tmp number) (part n) [] s0.disk refl;
        },
        read-put_file task.temp_dir (part_tmp number) [] s0.disk,
      )

  copy-Works :
      Works
        (Holds [])
        (copy_from source task.temp_dir (part_tmp number))
        (λ size s. (size ≡ length source.bytes) × Holds source.bytes s)
        (λ e s. (Untouched task s0) s)
  unfolding copy_from
  copy-Works = call-Works _ λ s h. by_fault source.fault s h
    where
      kept :
          (s : Store F)
          → (Untouched task s0) s
          → (Untouched task s0)
              (record s { disk = append_file task.temp_dir (part_tmp number) source.bytes s.disk })
      kept s u = record {
        tasks = u.tasks;
        chunks = u.chunks;
        clock = u.clock;
        parts = λ n.
            read-append_file_other task.temp_dir (part_tmp number) (part n) source.bytes s.disk refl
            ∙ u.parts n;
      }

      by_fault :
          (fault : Option Error) (s : Store F)
          → Holds [] s
          → Post
              (λ size t. (size ≡ length source.bytes) × Holds source.bytes t)
              (λ e t. (Untouched task s0) t)
              (elim fault [ none ↦ ok (length source.bytes) | some e ↦ err e ])
              (record s { disk = append_file task.temp_dir (part_tmp number) source.bytes s.disk })
      by_fault none s (u, w) = (
        refl,
        (kept s u, read-append_file task.temp_dir (part_tmp number) source.bytes [] s.disk w),
      )
      by_fault (some e) s (u, w) = kept s u

  discard-Works :
      {A : Type 0} {Q : A → Store F → Type 0} (e : Error)
      → Works (Untouched task s0) (discard {A = A} task number e) Q (λ e s. (Untouched task s0) s)
  unfolding discard remove_path
  discard-Works e =
      bind-Works _ _
        (attempt-Works _ _ (
          call-Works _ λ s u. Post-same (Untouched task s0) _ _ (record {
            tasks = u.tasks;
            chunks = u.chunks;
            clock = u.clock;
            parts = λ n.
                read-remove_file_other task.temp_dir (part_tmp number) (part n) s.disk refl
                ∙ u.parts n;
          })))
        λ r. raise-Works e (left r)
    where
      left :
          (r : Result (Unit {0})) (s : Store F)
          → Post (λ _ t. (Untouched task s0) t) (λ _ t. (Untouched task s0) t) r s
          → (Untouched task s0) s
      left (ok a) s u = u
      left (err a) s u = u

  rename-Works :
      length source.bytes ≡ expected_chunk_size task number
      → Works
          (Holds source.bytes)
          (call (on_disk (rename_file task.temp_dir (part_tmp number) (part number))))
          (λ _ s. Received s)
          (λ e s. ⊥)
  rename-Works sized = call-Works _ λ s (u, w).
      rw (rename_file_lem task.temp_dir (part_tmp number) (part number) source.bytes s.disk w)
        (record {
          tasks = u.tasks;
          chunks = u.chunks;
          clock = u.clock;
          stored = read-put_file task.temp_dir (part number) source.bytes _;
          complete = sized;
          others = λ n apart.
              read-put_file_other task.temp_dir (part number) (part n) source.bytes _ (ground arith)
              ∙ read-delete_file_other task.temp_dir (part_tmp number) (part n) s.disk refl
              ∙ u.parts n;
        })

  keep_part-Works :
      (r : Result (Unit {0}))
      → Works
          (Post (λ _ s. Received s) (λ e s. ⊥) r)
          (keep_part task number r)
          (λ _ s. Received s)
          (λ e s. (Untouched task s0) s)
  unfolding keep_part
  keep_part-Works (ok done) = pure-Works done λ s p. p
  keep_part-Works (err e) = record { at = λ s p. absurd p }

  abbrev Copied : Result ℕ → Store F → Type 0
  Copied r s =
      Post (λ size t. (size ≡ length source.bytes) × Holds source.bytes t)
        (λ e t. (Untouched task s0) t) r s

  check_received-Works :
      (size : Result ℕ) (closed : Result (Unit {0}))
      → Works
          (Post (λ _ s. Copied size s) (λ e s. ⊥) closed)
          (check_received task number size closed)
          (λ _ s. Received s)
          (λ e s. (Untouched task s0) s)
  unfolding check_received
  check_received-Works size (err e) = record { at = λ s p. absurd p }
  check_received-Works (err e) (ok done) = discard-Works e
  check_received-Works (ok size) (ok done) =
      if-Works (size == expected_chunk_size task number) _ _
        (λ fits. record {
          at = λ s (e, h).
              (bind-Works _ _
                  (attempt-Works _ _
                    (rename-Works (sym e ∙ (==_iff size (expected_chunk_size task number)).0 fits)))
                  λ r. keep_part-Works r).at
                s h;
        })
        (λ differs. pre-Works _ _ (λ s p. p.1.0) (discard-Works _))

  close-Works : (P : Store F → Type 0) → Works P close_file (λ _ s. P s) (λ e s. ⊥)
  unfolding close_file
  close-Works P = query-Works _ λ s p. p

  pub receive_part-Works :
      has_dir task.temp_dir s0.disk ≡ true
      → Works
          (λ s. s ≡ s0)
          (receive_part task number source)
          (λ _ s. Received s)
          (λ e s. (Untouched task s0) s)
  unfolding receive_part
  receive_part-Works there = bind-Works _ _ (create-Works there) λ _.
      bind-Works _ _ (attempt-Works _ _ copy-Works) λ copied.
        bind-Works _ _ (attempt-Works _ _ (close-Works (Copied copied)))
          λ closed. check_received-Works copied closed
