-- ===== src/Upload/Merge.antt =====
-- What `mergeChunks` accepts, and what it produces, where all calls work.
pub mod Loop
pub mod Whole
pub mod Part
use cloud_box.Base.{
  ℕ, zero, suc, ◌+◌, ◌≤◌, ◌<◌, ◌≡◌, ◌≢◌, refl, sym, ◌∙◌, ap, subst, String, Bool, true, false, not,
  ◌&&◌, Option, none, some, List, [], ◌∷◌, ◌++◌, ◌==◌, ==_iff, arith, length, length-append,
  Bool-cases, Option-cases, inl, inr, ◌⊎◌, and_left, and_right, str_eq, str_eq→eq, str_eq_refl,
  if◌then◌else◌,
}
use cloud_box.Fail.{Error, Result, ok, err}
use cloud_box.Exec.{World, Exec, works, pure, raise, attempt, ◌>>=◌, ◌>>◌}
use cloud_box.Exec.Works.{
  Works, Post, pure-Works, raise-Works, call-Works, query-Works, if-Works, bind-Works,
  attempt-Works, pre-Works,
}
use cloud_box.Disk.{Bytes, Disk, FileName, part, merged, read, append_file}
use cloud_box.Disk.Laws.{read-append_file, read-append_file_other}
use cloud_box.Upload.Model.{Task, Chunk, Store}
use cloud_box.Upload.Plan.{expected_chunk_size}
use cloud_box.Upload.Service.{close_file}
use cloud_box.Upload.Complete.{
  Merged, hash_differs, open_part, opened_part, copy_part, check_part, merge_part, merge_loop,
}

module _ {F : Type 0} (hash : Bytes → String) (task : Task) (name : String) (s0 : Store F) where
  -- A recorded chunk, and the part on the disk, are those of this place in the file.
  pub record PartOk (number : ℕ) (chunk : Chunk) (bytes : Bytes) : Type 0 where
    pub numbered : chunk.number ≡ number
    pub sized : chunk.size ≡ expected_chunk_size task number
    pub stored : read task.temp_dir (part number) s0.disk ≡ some bytes
    pub complete : length bytes ≡ expected_chunk_size task number
    pub hashed : chunk.hash ≡ some (hash bytes)

  -- What else the merge leaves as it was.
  pub record Side (s : Store F) : Type 0 where
    pub tasks : s.tasks ≡ s0.tasks
    pub chunks : s.chunks ≡ s0.chunks
    pub files : s.files ≡ s0.files
    pub clock : s.clock ≡ s0.clock
    pub parts : (n : ℕ) → read task.temp_dir (part n) s.disk ≡ read task.temp_dir (part n) s0.disk

  -- The merged file so far.
  pub record Frame (content : Bytes) (s : Store F) : Type 0 where
    pub side : Side s
    pub written : read task.temp_dir (merged name) s.disk ≡ some content

  pub copy_part-Works :
      (content bytes : Bytes)
      → Works
          (Frame content)
          (copy_part task name bytes)
          (λ size s. (size ≡ length bytes) × Frame (content ++ bytes) s)
          (λ e s. ⊥)
  unfolding copy_part
  copy_part-Works content bytes = call-Works _ λ s f. (
    refl,
    record {
      side = record {
        tasks = f.side.tasks;
        chunks = f.side.chunks;
        files = f.side.files;
        clock = f.side.clock;
        parts = λ n.
            read-append_file_other task.temp_dir (merged name) (part n) bytes s.disk refl
            ∙ f.side.parts n;
      };
      written = read-append_file task.temp_dir (merged name) bytes content s.disk f.written;
    },
  )

  -- No content makes this chunk the one of its place.
  abbrev pub Broken : ℕ → Chunk → Type 0
  Broken number chunk = (bytes : Bytes) → ¬ PartOk number chunk bytes

  abbrev pub Stored : ℕ → Bytes → Type 0
  Stored number bytes = read task.temp_dir (part number) s0.disk ≡ some bytes

  missing_Broken :
      (number : ℕ) (chunk : Chunk)
      → read task.temp_dir (part number) s0.disk ≡ none
      → Broken number chunk
  missing_Broken number chunk e bytes p = cc (e, p.stored)

  pub open_part-Works :
      (content : Bytes) (number : ℕ) (chunk : Chunk)
      → Works
          (Frame content)
          (open_part task number)
          (λ bytes s. Stored number bytes × Frame content s)
          (λ e s. Broken number chunk × Side s)
  unfolding open_part
  open_part-Works content number chunk = query-Works _ λ s f.
      elim (Option-cases (read task.temp_dir (part number) s0.disk)) [
        | inl e ↦ rw (f.side.parts number, e) (missing_Broken number chunk e, f.side)
        | inr (bytes, e) ↦ rw (f.side.parts number, e) (refl, f)
      ]

  -- The bytes that a stored part has are no other part's.
  same_bytes :
      (number : ℕ) (chunk : Chunk) (bytes other : Bytes)
      → Stored number bytes
      → PartOk number chunk other
      → bytes ≡ other
  same_bytes number chunk bytes other s p = cc (s, p.stored)

  hash_matches :
      (recorded : Option String) (h : String) → hash_differs recorded h ≡ false → recorded ≡ some h
  hash_matches none h e = cc
  hash_matches (some r) h e = ap some (str_eq→eq r h (ground arith))

  hash_same :
      (recorded : Option String) (h : String) → recorded ≡ some h → hash_differs recorded h ≡ false
  hash_same recorded h e = rw (e, hash_differs, str_eq_refl h) refl

  pub check_part-Works :
      (number : ℕ) (chunk : Chunk) (bytes content : Bytes)
      → Stored number bytes
      → chunk.number ≡ number
      → chunk.size ≡ expected_chunk_size task number
      → Works
          (Frame content)
          (check_part hash task number chunk bytes (ok (length bytes)) (ok tt))
          (λ _ s. PartOk number chunk bytes × Frame content s)
          (λ e s. Broken number chunk × Side s)
  unfolding check_part
  check_part-Works number chunk bytes content stored numbered sized =
      if-Works _ _ _ (λ short. raise-Works _ λ s f. (too_short short, f.side))
        (λ fits.
          if-Works _ _ _ (λ differs. raise-Works _ λ s f. (other_hash differs, f.side))
            (λ same. pure-Works _ λ s f. (
              record {
                numbered = numbered;
                sized = sized;
                stored = stored;
                complete = ground (arith);
                hashed = hash_matches chunk.hash (hash bytes) same;
              },
              f,
            )))
    where
      too_short : not (length bytes == expected_chunk_size task number) ≡ true → Broken number chunk
      too_short short other p =
          ground (arith, p.complete, same_bytes number chunk bytes other stored p)

      other_hash : hash_differs chunk.hash (hash bytes) ≡ true → Broken number chunk
      other_hash differs other p =
          let recorded : chunk.hash ≡ some (hash bytes) =
            p.hashed
            ∙ ap (λ b. some (hash b)) (sym (same_bytes number chunk bytes other stored p)) in
          cc (differs, hash_same chunk.hash (hash bytes) recorded)
