-- ===== src/Upload/Merge/Whole.antt =====
-- The loop of `mergeChunks` and the function as a whole, where all calls work.
use cloud_box.Base.{
  ℕ, ◌+◌, ◌≡◌, refl, sym, ◌∙◌, ap, subst, String, true, false, not, List, [], ◌∷◌, ◌==◌, arith,
  length, eq_of_not_ne, ne_of_ne,
}
use cloud_box.Fail.{Error, Result, ok, err}
use cloud_box.Exec.{works}
use cloud_box.Exec.Works.{
  Works, Post, Post-same, pure-Works, raise-Works, call-Works, if-Works, bind-Works, attempt-Works,
  post-Works,
}
use cloud_box.Disk.{Bytes, part, merged, has_dir, create_file}
use cloud_box.Disk.Laws.{read-remove_file_other, read-put_file, read-put_file_other}
use cloud_box.Upload.Model.{Task, Chunk, Store}
use cloud_box.Upload.Service.{remove_path, on_disk}
use cloud_box.Upload.Complete.{Merged, merge_body, merge_chunks, keep_merged}
use cloud_box.Upload.Merge.Loop.{Intact, Appended, merge_loop-Works}
use cloud_box.Upload.Merge.Part.{close_file-Works}
use cloud_box.Upload.Merge.{Side, Frame}

module _ {F : Type 0} (hash : Bytes → String) (task : Task) (name : String) (s0 : Store F) where
  -- All chunks of the task are recorded, and their parts are on the disk, in order and unspoilt;
  -- together they are `bytes`, of the size of the file.
  pub record IsWhole (chunks : List Chunk) (bytes : Bytes) : Type 0 where
    pub counted : length chunks ≡ task.total_chunks
    pub intact : Intact hash task name s0 0 chunks bytes
    pub sized : length bytes ≡ task.file_size

  abbrev pub NotWhole : List Chunk → Type 0
  NotWhole chunks = (bytes : Bytes) → ¬ IsWhole chunks bytes

  -- A list of chunks in order has parts of one content only.
  Intact-unique :
      (number : ℕ) (chunks : List Chunk) (a b : Bytes)
      → Intact hash task name s0 number chunks a
      → Intact hash task name s0 number chunks b
      → a ≡ b
  Intact-unique number [] a b h k = h ∙ sym k
  Intact-unique number (chunk ∷ chunks) a b (f, r, p, i, e) (f', r', p', i', e') =
      let heads : f ≡ f' = cc (p.stored, p'.stored) in
      cc (e, e', heads, Intact-unique (number + 1) chunks r r' i i')

  abbrev Hashed : List Chunk → String → Store F → Type 0
  Hashed chunks h s =
      (bytes : Bytes) × Intact hash task name s0 0 chunks bytes
      × (length bytes ≡ task.file_size)
      × (h ≡ hash bytes)
      × Frame hash task name s0 bytes s

  abbrev Unsized : List Chunk → Type 0
  Unsized chunks =
      (bytes : Bytes) → Intact hash task name s0 0 chunks bytes → ¬ (length bytes ≡ task.file_size)

  merge_body-Works :
      (chunks : List Chunk)
      → Works
          (Frame hash task name s0 [])
          (merge_body hash task name chunks)
          (Hashed chunks)
          (λ e s. Unsized chunks × Side hash task name s0 s)
  unfolding merge_body
  merge_body-Works chunks =
      bind-Works _ _
        (post-Works _ (λ out s q. q) (λ e s q. ((λ b i _. q.0 b i), q.1))
          (merge_loop-Works hash task name s0 0 (record { content = []; total_size = 0 }) chunks))
        λ out.
          if-Works _ _ _ (λ short. raise-Works _ λ s q. (unsized out s short q, q.4.side))
            (λ fits.
              bind-Works _ _
                (post-Works _ (λ _ s p. p) (λ e s p. absurd p)
                  (close_file-Works hash task name s0 _))
                λ _. pure-Works _ λ s q. (
                  q.0,
                  q.1,
                  sized out s fits q,
                  ap hash q.2,
                  subst (λ c. Frame hash task name s0 c s) q.2 q.4,
                ))
    where
      start : Merged
      start = record { content = []; total_size = 0 }

      sized :
          (out : Merged) (s : Store F)
          → not (out.total_size == task.file_size) ≡ false
          → (q : Appended hash task name s0 start 0 chunks out s) → length q.0 ≡ task.file_size
      sized out s fits q = omega (arith, q.3, eq_of_not_ne out.total_size task.file_size fits)

      unsized :
          (out : Merged) (s : Store F)
          → not (out.total_size == task.file_size) ≡ true
          → Appended hash task name s0 start 0 chunks out s
          → Unsized chunks
      unsized out s short (bytes, intact, joined, counted, f) other i e =
          ne_of_ne out.total_size task.file_size short
            (omega (arith, counted, e, ap length (Intact-unique 0 chunks other bytes i intact)))

  remove_merged-Works :
      (P : Store F → Type 0)
      → ((s : Store F) → P s → Side hash task name s0 s)
      → Works P
          (remove_path task.temp_dir (merged name))
          (λ _ s. Side hash task name s0 s)
          (λ e s. Side hash task name s0 s)
  unfolding remove_path
  remove_merged-Works P weaken = call-Works _ λ s p.
      Post-same (Side hash task name s0) _ _ (record {
        tasks = (weaken s p).tasks;
        chunks = (weaken s p).chunks;
        files = (weaken s p).files;
        clock = (weaken s p).clock;
        parts = λ n.
            read-remove_file_other task.temp_dir (merged name) (part n) s.disk refl
            ∙ (weaken s p).parts n;
      })

  abbrev pub Merges : List Chunk → String → Store F → Type 0
  Merges chunks h s =
      (bytes : Bytes) × IsWhole chunks bytes × (h ≡ hash bytes) × Frame hash task name s0 bytes s

  keep_merged-Works :
      (chunks : List Chunk) (h : Result String)
      → length chunks ≡ task.total_chunks
      → Works
          (Post (Hashed chunks) (λ e s. Unsized chunks × Side hash task name s0 s) h)
          (keep_merged hash task name h)
          (Merges chunks)
          (λ e s. NotWhole chunks × Side hash task name s0 s)
  unfolding keep_merged
  keep_merged-Works chunks (ok h) n = pure-Works h λ s (bytes, intact, sized, e, f).
      (bytes, record { counted = n; intact = intact; sized = sized }, e, f)
  keep_merged-Works chunks (err e) n = record {
    at = λ s p.
        (bind-Works _ _
            (attempt-Works _ _ (close_file-Works hash task name s0 (Side hash task name s0)))
            λ closed.
              bind-Works _ _
                (attempt-Works _ _ (remove_merged-Works _ (λ t q. closed_Side closed t q)))
                λ removed.
                  raise-Works _
                    λ t q. ((λ bytes w. p.0 bytes w.intact w.sized), removed_Side removed t q)).at
          s p.1;
  }
    where
      closed_Side :
          (r : Result (Unit {0})) (t : Store F)
          → Post (λ _ u. Side hash task name s0 u) (λ _ u. ⊥) r t
          → Side hash task name s0 t
      closed_Side (ok a) t q = q
      closed_Side (err a) t q = absurd q

      removed_Side :
          (r : Result (Unit {0})) (t : Store F)
          → Post (λ _ u. Side hash task name s0 u) (λ _ u. Side hash task name s0 u) r t
          → Side hash task name s0 t
      removed_Side (ok a) t q = q
      removed_Side (err a) t q = q

  created_Frame :
      (E : Error → Store F → Type 0)
      → has_dir task.temp_dir s0.disk ≡ true
      → Post
          (λ _ s. Frame hash task name s0 [] s)
          E
          (on_disk (create_file task.temp_dir (merged name)) s0).0
          (on_disk (create_file task.temp_dir (merged name)) s0).1
  unfolding create_file
  created_Frame E there = rw there (record {
    side = record {
      tasks = refl;
      chunks = refl;
      files = refl;
      clock = refl;
      parts = λ n. read-put_file_other task.temp_dir (merged name) (part n) [] s0.disk refl;
    };
    written = read-put_file task.temp_dir (merged name) [] s0.disk;
  })

  pub merge_chunks-Works :
      (chunks : List Chunk)
      → has_dir task.temp_dir s0.disk ≡ true
      → Works
          (λ s. s ≡ s0)
          (merge_chunks hash task name chunks)
          (Merges chunks)
          (λ e s. NotWhole chunks × Side hash task name s0 s)
  unfolding merge_chunks
  merge_chunks-Works chunks there =
      if-Works _ _ _
        (λ few. raise-Works _ λ s e. ((λ bytes w. ne_of_ne _ _ few w.counted), unchanged s e))
        (λ enough.
          bind-Works _ _ (call-Works _ λ s e. subst (λ t. Made t) (sym e) (created_Frame _ there))
            λ _.
              bind-Works _ _ (attempt-Works _ _ (merge_body-Works chunks))
                λ h. keep_merged-Works chunks h (eq_of_not_ne _ _ enough))
    where
      unchanged : (s : Store F) → s ≡ s0 → Side hash task name s0 s
      unchanged s e =
          rw e
            (record { tasks = refl; chunks = refl; files = refl; clock = refl; parts = λ n. refl })

      Made : Store F → Type 0
      Made t =
          Post (λ _ s. Frame hash task name s0 [] s)
            (λ e s. NotWhole chunks × Side hash task name s0 s)
            (on_disk (create_file task.temp_dir (merged name)) t).0
            (on_disk (create_file task.temp_dir (merged name)) t).1

  -- Where all calls work and the directory of the task exists, `mergeChunks` succeeds exactly if the
  -- chunks are whole; the merged file then has their bytes, the result is their hash, and in either
  -- case the tables, the file service and the parts on the disk are as before.
  pub merge_chunks_lem :
      (chunks : List Chunk)
      → has_dir task.temp_dir s0.disk ≡ true
      → Post
          (Merges chunks)
          (λ e s. NotWhole chunks × Side hash task name s0 s)
          (merge_chunks hash task name chunks (works s0)).0
          (merge_chunks hash task name chunks (works s0)).1.store
  merge_chunks_lem chunks there = ((merge_chunks-Works chunks there).at s0 refl).1
