-- ===== src/Upload/Merge/Part.antt =====
-- One round of the loop of `mergeChunks`, where all calls work.
use cloud_box.Base.{ℕ, ◌≡◌, String, Bool, true, false, not, ◌&&◌, ◌++◌, ◌==◌, arith, length}
use cloud_box.Fail.{Result, ok, err}
use cloud_box.Exec.{pure, attempt, ◌>>=◌, ◌>>◌}
use cloud_box.Exec.Works.{
  Works, Post, pure-Works, raise-Works, query-Works, if-Works, bind-Works, attempt-Works,
}
use cloud_box.Disk.{Bytes}
use cloud_box.Upload.Model.{Task, Chunk, Store}
use cloud_box.Upload.Plan.{expected_chunk_size}
use cloud_box.Upload.Service.{close_file}
use cloud_box.Upload.Complete.{copy_part, check_part, merge_part}
use cloud_box.Upload.Merge.{
  PartOk, Side, Frame, copy_part-Works, Broken, Stored, open_part-Works, check_part-Works,
}

module _ {F : Type 0} (hash : Bytes → String) (task : Task) (name : String) (s0 : Store F) where
  -- The results of the copy and of the close, where both work.
  abbrev Copied : Bytes → Bytes → Result ℕ → Store F → Type 0
  Copied content bytes =
      Post (λ size s. (size ≡ length bytes) × (Frame hash task name s0) content s) (λ e s. ⊥)

  pub close_file-Works : (P : Store F → Type 0) → Works P close_file (λ _ s. P s) (λ e s. ⊥)
  unfolding close_file
  close_file-Works P = query-Works _ λ s p. p

  check_both-Works :
      (number : ℕ) (chunk : Chunk) (bytes content : Bytes) (copied : Result ℕ)
      (closed : Result (Unit {0}))
      → (Stored hash task name s0) number bytes
      → chunk.number ≡ number
      → chunk.size ≡ expected_chunk_size task number
      → Works
          (λ s. Post (λ _ t. Copied content bytes copied t) (λ e t. ⊥) closed s)
          (check_part hash task number chunk bytes copied closed)
          (λ _ s.
            (PartOk hash task name s0) number chunk bytes × (Frame hash task name s0) content s)
          (λ e s. (Broken hash task name s0) number chunk × (Side hash task name s0) s)
  check_both-Works number chunk bytes content (ok size) (ok done) stored numbered sized = record {
    at = λ s p. rw p.0 (
        ((check_part-Works hash task name s0) number chunk bytes content stored numbered sized).at s
          p.1);
  }
  check_both-Works number chunk bytes content (err e) (ok done) stored numbered sized = record {
    at = λ s p. absurd p;
  }
  check_both-Works number chunk bytes content copied (err e) stored numbered sized = record {
    at = λ s p. absurd p;
  }

  abbrev misplaced_test : ℕ → Chunk → Bool
  misplaced_test number chunk =
      not (chunk.number == number && chunk.size == expected_chunk_size task number)

  misplaced_Broken :
      (number : ℕ) (chunk : Chunk)
      → misplaced_test number chunk ≡ true
      → (Broken hash task name s0) number chunk
  misplaced_Broken number chunk t bytes p = ground (arith, p.numbered, p.sized)

  in_place :
      (number : ℕ) (chunk : Chunk)
      → misplaced_test number chunk ≡ false
      → (chunk.number ≡ number) × (chunk.size ≡ expected_chunk_size task number)
  in_place number chunk t = ground arith

  -- One round: the part is in order and its bytes are at the end of the merged file, or the code
  -- refuses it, and then no content would be in order.
  pub merge_part-Works :
      (content : Bytes) (number : ℕ) (chunk : Chunk)
      → Works
          ((Frame hash task name s0) content)
          (merge_part hash task name number chunk)
          (λ bytes s.
            (PartOk hash task name s0) number chunk bytes
            × (Frame hash task name s0) (content ++ bytes) s)
          (λ e s. (Broken hash task name s0) number chunk × (Side hash task name s0) s)
  unfolding merge_part
  merge_part-Works content number chunk =
      if-Works _ _ _
        (λ misplaced. raise-Works _ λ s f. (misplaced_Broken number chunk misplaced, f.side))
        (λ placed.
          bind-Works _ _ ((open_part-Works hash task name s0) content number chunk) λ bytes.
            record {
              at = λ s p.
                  (copy_and_check bytes p.0 (in_place number chunk placed).0
                      (in_place number chunk placed).1).at
                    s p.1;
            })
    where
      copy_and_check :
          (bytes : Bytes)
          → (Stored hash task name s0) number bytes
          → chunk.number ≡ number
          → chunk.size ≡ expected_chunk_size task number
          → Works
              ((Frame hash task name s0) content)
              (do
                copied ← attempt (copy_part task name bytes)
                closed ← attempt close_file
                check_part hash task number chunk bytes copied closed
                pure bytes)
              (λ out s.
                (PartOk hash task name s0) number chunk out
                × (Frame hash task name s0) (content ++ out) s)
              (λ e s. (Broken hash task name s0) number chunk × (Side hash task name s0) s)
      copy_and_check bytes stored numbered sized =
          bind-Works _ _ (attempt-Works _ _ ((copy_part-Works hash task name s0) content bytes))
            λ copied. bind-Works _ _ (attempt-Works _ _ (close_file-Works _)) λ closed.
              bind-Works _ _
                (check_both-Works number chunk bytes (content ++ bytes) copied closed stored
                  numbered sized)
                λ _. pure-Works bytes λ s p. p
