-- ===== src/Upload/Repository.antt =====
-- internal/upload/repository.go. Each function is one statement, with the reading of its result.
use cloud_box.Base.{
  ℕ, String, Bool, ◌&&◌, Option, none, some, List, ◌==◌, ltb, leb, str_eq, is_some, if◌then◌else◌,
}
use cloud_box.Fail.{Result, ok, err, external, task_not_found, chunk_not_found}
use cloud_box.Exec.{Exec, pure, call, query, write, ◌>>=◌, ◌>>◌}
use cloud_box.Sql.{find_where, select_where, update_where, affected, insert_row, order_by}
use cloud_box.Upload.Model.{Task, Chunk, Status, Store, uploading, same_status}

abbrev pub has_id : String → Task → Bool
has_id id t = str_eq t.id id

-- WHERE id = $1 AND user_id = $2
abbrev pub is_task : ℕ → String → Task → Bool
is_task user id t = has_id id t && t.user_id == user

-- WHERE id = $2 AND user_id = $3 AND status = $4
abbrev pub is_task_in : ℕ → String → Status → Task → Bool
is_task_in user id status t = is_task user id t && same_status t.status status

abbrev pub is_chunk : String → ℕ → Chunk → Bool
is_chunk id number c = str_eq c.upload_id id && c.number == number

abbrev pub scan_task : Option Task → Result Task
scan_task none = err task_not_found
scan_task (some t) = ok t

abbrev pub scan_chunk : Option Chunk → Result Chunk
scan_chunk none = err chunk_not_found
scan_chunk (some c) = ok c

-- The CHECK clauses on the sizes.
abbrev pub row_allowed : Task → Bool
row_allowed t = ltb 0 t.file_size && ltb 0 t.chunk_size && ltb 0 t.total_chunks

-- SET status = $1, updated_at = CURRENT_TIMESTAMP
abbrev pub with_status : ℕ → Status → Task → Task
with_status clock to t = record t { status = to; updated_at = clock }

-- The time is passed as text with whole seconds, which is how the column is kept.
abbrev pub is_expired : ℕ → Task → Bool
is_expired before t = same_status t.status uploading && ltb t.updated_at before

-- WHERE upload_id = $1 ORDER BY chunk_number
abbrev pub chunks_of : String → List Chunk → List Chunk
chunks_of id chunks =
    order_by (λ c d. leb c.number d.number) (select_where (λ c. str_eq c.upload_id id) chunks)

module _ {F : Type 0} where
  unfoldable pub find_by_id : ℕ → String → Exec (Store F) Task
  find_by_id user id = query (λ s. scan_task (find_where (is_task user id) s.tasks))

  unfoldable pub insert_task : Task → Store F → Result (Unit {0}) × Store F
  insert_task t s =
      if is_some (find_where (has_id t.id) s.tasks)
      then (err (external "UNIQUE constraint failed: upload_tasks.id"), s)
      else if row_allowed t
      then (
        ok tt,
        record s {
          tasks = insert_row (record t { created_at = s.clock; updated_at = s.clock }) s.tasks;
        },
      )
      else (err (external "CHECK constraint failed: upload_tasks"), s)

  unfoldable pub create : Task → Exec (Store F) Task
  create t = do call (insert_task t); find_by_id t.user_id t.id

  unfoldable pub list_uploading_by_user : ℕ → Exec (Store F) (List Task)
  list_uploading_by_user user = query (λ s. ok (
      order_by (λ t u. leb u.updated_at t.updated_at)
        (select_where (λ t. t.user_id == user && same_status t.status uploading) s.tasks)))

  unfoldable pub find_chunk : String → ℕ → Exec (Store F) Chunk
  find_chunk id number = query (λ s. scan_chunk (find_where (is_chunk id number) s.chunks))

  -- ON CONFLICT(upload_id, chunk_number) DO UPDATE SET size, chunk_hash
  unfoldable pub put_chunk : Chunk → Store F → Store F
  put_chunk c s =
      if is_some (find_where (is_chunk c.upload_id c.number) s.chunks)
      then record s {
        chunks =
            update_where (is_chunk c.upload_id c.number)
              (λ old. record old { size = c.size; hash = c.hash }) s.chunks;
      }
      else record s { chunks = insert_row (record c { created_at = s.clock }) s.chunks }

  unfoldable pub upsert_chunk : Chunk → Exec (Store F) Chunk
  upsert_chunk c = do write (put_chunk c); find_chunk c.upload_id c.number

  unfoldable pub list_chunks : String → Exec (Store F) (List Chunk)
  list_chunks id = query (λ s. ok (chunks_of id s.chunks))

  unfoldable pub set_status : ℕ → String → Status → Status → Store F → Result ℕ × Store F
  set_status user id from to s = (
    ok (affected (is_task_in user id from) s.tasks),
    record s { tasks = update_where (is_task_in user id from) (with_status s.clock to) s.tasks },
  )

  -- `result.RowsAffected()` may fail too.
  unfoldable pub transition_status : ℕ → String → Status → Status → Exec (Store F) Bool
  transition_status user id from to = do
    n ← call (set_status user id from to)
    rows ← query (λ s. ok n)
    pure (rows == 1)

  unfoldable pub touch : ℕ → String → Store F → Result ℕ × Store F
  touch user id s = (
    ok (affected (is_task_in user id uploading) s.tasks),
    record s {
      tasks =
          update_where (is_task_in user id uploading) (λ t. record t { updated_at = s.clock })
            s.tasks;
    },
  )

  unfoldable pub touch_uploading : ℕ → String → Exec (Store F) Bool
  touch_uploading user id = do n ← call (touch user id); rows ← query (λ s. ok n); pure (rows == 1)

  unfoldable pub list_expired_uploading : ℕ → Exec (Store F) (List Task)
  list_expired_uploading before = query (λ s.
      ok (
        order_by (λ t u. leb t.updated_at u.updated_at) (select_where (is_expired before) s.tasks)))
