-- ===== src/Upload/Accept.antt =====
-- `UploadChunk` of internal/upload/service.go from the request to its result, where all calls work.
use cloud_box.Base.{
  ℕ, ℤ, ◌≡◌, ◌≢◌, refl, sym, ◌∙◌, ap, subst, String, true, Option, none, some, length, pos, negsuc,
  ◌<◌, ltb, Bool-cases, inl, inr, arith,
}
use cloud_box.Fail.{ok, task_not_uploading, chunk_number_invalid}
use cloud_box.Exec.{Exec, works, pure, raise, call, write, ◌>>=◌, query-works}
use cloud_box.Exec.Works.{
  Works, Post, pure-Works, raise-Works, call-Works, query-Works, if-Works, bind-Works, post-Works,
}
use cloud_box.Sql.{find_where}
use cloud_box.Disk.{Bytes, Reader, part, read, has_dir}
use cloud_box.Upload.Model.{Task, Chunk, Store, FileService, same_status, uploading}
use cloud_box.Upload.Repository.{
  is_chunk, put_chunk, upsert_chunk, find_chunk, touch, touch_uploading, find_by_id, is_task,
}
use cloud_box.Upload.Service.{chunk_index, store_chunk, upload_chunk}
use cloud_box.Upload.Status.{UniqueTasks, task_of, touch-works, same_id}
use cloud_box.Upload.Merge.{PartOk}
use cloud_box.Upload.Receive.{Untouched, Received, receive_part-Works}
use cloud_box.Upload.Record.{put_chunk_lem, put_chunk_rest}

-- A chunk that has been accepted: its part is the one that `Complete` will look for at its place, its
-- row is recorded, and the other parts are as they were.
pub record Accepted {F : Type 0} (hash : Bytes → String) (task : Task) (s0 : Store F) (number : ℕ)
    (bytes : Bytes) (chunk : Chunk) (s : Store F) : Type 0 where
  pub part_ok : (name : String) → PartOk hash task name s number chunk bytes
  pub row : find_where (is_chunk task.id number) s.chunks ≡ some chunk
  pub others :
      (n : ℕ)
      → n ≢ number
      → read task.temp_dir (part n) s.disk ≡ read task.temp_dir (part n) s0.disk

chunk_index-below :
    (task : Task) (n : ℤ) (number : ℕ)
    → chunk_index task n ≡ some number
    → (n ≡ pos number) × (number < task.total_chunks)
chunk_index-below task (pos n) number e = elim (Bool-cases (ltb n task.total_chunks)) [
  | inl t ↦
      let same : some n ≡ some number = rw t at e in
      let equal : n ≡ number = cc same in (ap pos equal, ground arith)
  | inr t ↦ cc (rw t at e)
]
chunk_index-below task (negsuc n) number e = cc

module _ {F : Type 0} (hash : Bytes → String) (s0 : Store F) (task : Task) where
  -- The number is one of the task's, and the chunk has been accepted for it.
  abbrev pub Answer : ℤ → Reader → Chunk → Store F → Type 0
  Answer n source chunk s =
      (number : ℕ) × (n ≡ pos number)
      × (number < task.total_chunks)
      × Accepted hash task s0 number source.bytes chunk s

module _ {F : Type 0} (service : FileService F) (hash : Bytes → String) (base_dir : String)
    (user : ℕ) (id : String) (s0 : Store F) (task : Task) (unique : UniqueTasks s0.tasks)
    (task_found : task_of user id s0 ≡ some task) (ready : same_status task.status uploading ≡ true)
    (there : has_dir task.temp_dir s0.disk ≡ true) where
  module _ (number : ℕ) (source : Reader) where
    -- The chunk that the code records.
    abbrev given : Chunk
    given = record {
      upload_id = task.id;
      number = number;
      size = length source.bytes;
      hash = some (hash source.bytes);
      created_at = 0;
    }

    abbrev Accepts : Chunk → Store F → Type 0
    Accepts chunk s = Accepted hash task s0 number source.bytes chunk s

    -- The chunk after it has been recorded, before the time of the task is renewed.
    abbrev Noted : Chunk → Store F → Type 0
    Noted chunk s = Accepts chunk s × (s.tasks ≡ s0.tasks)

    noted :
        (s : Store F) → Received task number source s0 s → (r : Chunk) × Noted r (put_chunk given s)
    noted s p =
        let (r, c) = put_chunk_lem given s in
        let disk = (put_chunk_rest given s).1 in
        (
          r,
          (
            record {
              part_ok = λ name. record {
                numbered = c.number;
                sized = c.size ∙ p.complete;
                stored = ap (read task.temp_dir (part number)) disk ∙ p.stored;
                complete = p.complete;
                hashed = c.hash;
              };
              row = c.row;
              others = λ n apart. ap (read task.temp_dir (part n)) disk ∙ p.others n apart;
            },
            (put_chunk_rest given s).0 ∙ p.tasks,
          ),
        )

    upsert_chunk-Works :
        Works (Received task number source s0) (upsert_chunk given) (λ r s. Noted r s) (λ e s. ⊥)
    unfolding upsert_chunk find_chunk write
    upsert_chunk-Works = bind-Works _ _ put λ _. query-Works _ λ s (r, n). rw (n.0.row) n
      where
        put :
            Works
              (Received task number source s0)
              (call (λ s. (ok tt, put_chunk given s)))
              (λ _ s. (r : Chunk) × Noted r s)
              (λ e s. ⊥)
        put = call-Works _ λ s p. noted s p

    renewed : (r : Chunk) (s : Store F) → Noted r s → Accepts r (touch user task.id s).1
    unfolding touch
    renewed r s (a, same) = record {
      part_ok = λ name.
          let k = a.part_ok name in
          record {
            numbered = k.numbered;
            sized = k.sized;
            stored = k.stored;
            complete = k.complete;
            hashed = k.hashed;
          };
      row = a.row;
      others = a.others;
    }

    touch-Works :
        (r : Chunk)
        → Works
            (Noted r)
            (touch_uploading user task.id)
            (λ b s. (b ≡ true) × Accepts r s)
            (λ e s. ⊥)
    touch-Works r = record { at = λ s n. rw (worked s n) (refl, (refl, renewed r s n)) }
      where
        worked :
            (s : Store F)
            → Noted r s
            → touch_uploading user task.id (works s) ≡ (ok true, works (touch user task.id s).1)
        worked s n =
            subst (λ i. touch_uploading user i (works s) ≡ (ok true, works (touch user i s).1))
              (sym (same_id user id s0 task unique task_found))
              (touch-works user id s task (subst UniqueTasks (sym n.1) unique)
                (ap (find_where (is_task user id)) n.1 ∙ task_found) ready)

    store_chunk-Works :
        Works
          (λ s. s ≡ s0)
          (store_chunk service hash base_dir user task number source)
          Accepts
          (λ e s. Untouched task s0 s)
    unfolding store_chunk
    store_chunk-Works = bind-Works _ _ (receive_part-Works task number source s0 there) λ _.
        bind-Works _ _ (post-Works _ (λ r s p. p) (λ e s p. absurd p) upsert_chunk-Works) λ r.
          bind-Works _ _ (post-Works _ (λ b s p. p) (λ e s p. absurd p) (touch-Works r)) λ b.
            if-Works b (pure r) (raise task_not_uploading) (λ _. pure-Works r λ s p. p.1)
              (λ no. raise-Works task_not_uploading λ s p. cc (p.0, no))

  -- From the test of the number on.
  abbrev indexed : Reader → Option ℕ → Exec (Store F) Chunk
  indexed source i = elim i [
    | none ↦ raise chunk_number_invalid
    | some number ↦ store_chunk service hash base_dir user task number source
  ]

  indexed_lem :
      (n : ℤ) (source : Reader) (i : Option ℕ)
      → chunk_index task n ≡ i
      → Post
          (Answer hash s0 task n source)
          (λ e s. Untouched task s0 s)
          (indexed source i (works s0)).0
          (indexed source i (works s0)).1.store
  unfolding raise
  indexed_lem n source none e = record {
    tasks = refl;
    chunks = refl;
    clock = refl;
    parts = λ k. refl;
  }
  indexed_lem n source (some number) e =
      ((post-Works _ (λ r s a. let k = chunk_index-below task n number e in (number, k.0, k.1, a))
          (λ x s u. u) (store_chunk-Works number source)).at
        s0 refl).1

  -- Where all calls work, no two tasks share an identifier, and the user has an upload in status
  -- `uploading` whose directory exists, `UploadChunk` accepts or refuses. Accepted, the number is one of
  -- the task's, and the chunk is the one that `Complete` will take for it: its part has just the bytes
  -- that were sent, as many as the task expects there, and its row has their size and their hash;
  -- the other parts are as they were. Refused, the tables and all parts are as they were.
  pub upload_chunk_lem :
      (n : ℤ) (source : Reader)
      → Post
          (Answer hash s0 task n source)
          (λ e s. Untouched task s0 s)
          (upload_chunk service hash base_dir user id n (some source) (works s0)).0
          (upload_chunk service hash base_dir user id n (some source) (works s0)).1.store
  unfolding upload_chunk find_by_id ◌>>=◌
  upload_chunk_lem n source =
      rw (query-works, task_found, ready) (indexed_lem n source (chunk_index task n) refl)
