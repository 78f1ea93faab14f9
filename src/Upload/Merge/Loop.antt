-- ===== src/Upload/Merge/Loop.antt =====
-- The loop of `mergeChunks`, where all calls work.
use cloud_box.Base.{
  ℕ, ◌+◌, ◌≡◌, refl, sym, ◌∙◌, String, List, [], ◌∷◌, ◌++◌, arith, length, length-append,
}
use mathlib.Core.List.{append_assoc, append-nil}
use cloud_box.Exec.Works.{Works, pure-Works, bind-Works, post-Works}
use cloud_box.Disk.{Bytes}
use cloud_box.Upload.Model.{Task, Chunk, Store}
use cloud_box.Upload.Complete.{Merged, merge_loop}
use cloud_box.Upload.Merge.Part.{merge_part-Works}
use cloud_box.Upload.Merge.{PartOk, Side, Frame, Broken}

module _ {F : Type 0} (hash : Bytes → String) (task : Task) (name : String) (s0 : Store F) where
  -- The chunks from `number` on are in order, and their parts make up these bytes.
  abbrev pub Intact : ℕ → List Chunk → Bytes → Type 0
  Intact number [] bytes = bytes ≡ []
  Intact number (chunk ∷ chunks) bytes =
      (first : Bytes) × (rest : Bytes) × PartOk hash task name s0 number chunk first
      × Intact (number + 1) chunks rest
      × (bytes ≡ first ++ rest)

  abbrev pub Shattered : ℕ → List Chunk → Type 0
  Shattered number chunks = (bytes : Bytes) → ¬ Intact number chunks bytes

  abbrev pub Appended : Merged → ℕ → List Chunk → Merged → Store F → Type 0
  Appended done number chunks out s =
      (bytes : Bytes) × Intact number chunks bytes
      × (out.content ≡ done.content ++ bytes)
      × (out.total_size ≡ done.total_size + length bytes)
      × Frame hash task name s0 out.content s

  -- The state of the loop after a part.
  abbrev pub grown : Merged → Bytes → Merged
  grown done content = record {
    content = done.content ++ content;
    total_size = done.total_size + length content;
  }

  Appended-step :
      (done : Merged) (number : ℕ) (chunk : Chunk) (chunks : List Chunk) (content : Bytes)
      → PartOk hash task name s0 number chunk content
      → (out : Merged) (s : Store F) → Appended (grown done content) (number + 1) chunks out s
      → Appended done number (chunk ∷ chunks) out s
  Appended-step done number chunk chunks content ok_part out s (bytes, intact, joined, counted, f) =
      (
        content ++ bytes,
        (content, bytes, ok_part, intact, refl),
        joined ∙ append_assoc done.content content bytes,
        omega (arith, counted, length-append content bytes),
        f,
      )

  Broken-Shattered :
      (number : ℕ) (chunk : Chunk) (chunks : List Chunk)
      → Broken hash task name s0 number chunk
      → Shattered number (chunk ∷ chunks)
  Broken-Shattered number chunk chunks broken bytes (first, rest, ok_part, intact, joined) =
      broken first ok_part

  rest_Shattered :
      (number : ℕ) (chunk : Chunk) (chunks : List Chunk)
      → Shattered (number + 1) chunks
      → Shattered number (chunk ∷ chunks)
  rest_Shattered number chunk chunks shattered bytes (first, rest, ok_part, intact, joined) =
      shattered rest intact

  pub merge_loop-Works :
      (number : ℕ) (done : Merged) (chunks : List Chunk)
      → Works
          (Frame hash task name s0 done.content)
          (merge_loop hash task name number done chunks)
          (λ out s. Appended done number chunks out s)
          (λ e s. Shattered number chunks × Side hash task name s0 s)
  unfolding merge_loop
  merge_loop-Works number done [] =
      pure-Works done λ s f. ([], refl, sym (append-nil done.content), omega arith, f)
  merge_loop-Works number done (chunk ∷ chunks) =
      bind-Works _ _
        (post-Works _ (λ bytes s q. q) (λ e s q. (Broken-Shattered number chunk chunks q.0, q.1))
          (merge_part-Works hash task name s0 done.content number chunk))
        λ content. record {
          at = λ s p.
              (post-Works _ (Appended-step done number chunk chunks content p.0)
                  (λ e t q. (rest_Shattered number chunk chunks q.0, q.1))
                  (merge_loop-Works (number + 1) (grown done content) chunks)).at
                s p.1;
        }
