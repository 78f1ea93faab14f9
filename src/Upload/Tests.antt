-- ===== src/Upload/Tests.antt =====
-- An upload of five bytes in two chunks, and the theorems on it.
use cloud_box.Base.{
  ℕ, ◌*◌, ◌-◌, ◌≤◌, ◌<◌, ◌≡◌, refl, String, none, some, List, [], ◌∷◌, arith, length,
}
use cloud_box.Fail.{ok}
use cloud_box.Exec.{World, works}
use cloud_box.Exec.Works.{Post}
use cloud_box.Sql.{find_where}
use cloud_box.Disk.{Bytes, part, File}
use cloud_box.File.Model.{UserFile, active}
use cloud_box.Upload.Model.{Task, Chunk, Store, FileService, uploading, failed}
use cloud_box.Upload.Trace.{
  Operation, inits, completes, cancels, cleans, passes, run, Row, run_final_task,
}
use cloud_box.Base.{pos}
use cloud_box.Upload.Complete.{complete, merge_chunks}
use cloud_box.Upload.Plan.{total_chunks, expected_chunk_size}
use cloud_box.Upload.Plan.Sizes.{IsPlanned, sum_sizes, sum_sizes-total_chunks}
use cloud_box.Upload.Merge.Whole.{Merges, NotWhole, merge_chunks_lem}
use cloud_box.Upload.Merge.{Side}
use cloud_box.Upload.Receive.{Untouched}
use cloud_box.Upload.Accept.{Answer, upload_chunk_lem}
use cloud_box.Upload.Service.{upload_chunk}
use cloud_box.Disk.{Reader}
use cloud_box.Upload.Completion.{Success, Restored, complete_lem}

abbrev file_of : ℕ → String → Bytes → UserFile
file_of user name content = record {
  id = 1;
  user_id = user;
  parent_id = none;
  object_id = some 1;
  original_name = name;
  storage_path = "user_1/x.txt";
  size = length content;
  content_type = "text/plain";
  status = active;
  created_at = 0;
  deleted_at = none;
}

-- A file service that keeps the contents it has been given.
abbrev shelf : FileService (List Bytes)
shelf = record {
  validate_folder = λ user parent w. (ok tt, w);
  ensure_storage_quota = λ user size w. (ok tt, w);
  upload_into_folder = λ user parent name kind source w. (
    ok (file_of user name source.bytes),
    record { outcomes = w.outcomes; store = source.bytes ∷ w.store },
  );
}

abbrev digest : Bytes → String
digest [] = "empty"
digest (b ∷ bs) = "full"

abbrev task : Task
task = record {
  id = "u";
  user_id = 1;
  parent_id = none;
  original_name = "x.txt";
  content_type = "text/plain";
  file_size = 5;
  chunk_size = 3;
  total_chunks = 2;
  file_hash = some "full";
  status = uploading;
  temp_dir = "chunks/u";
  created_at = 1;
  updated_at = 1;
}

abbrev chunk_of : ℕ → ℕ → Chunk
chunk_of number size = record {
  upload_id = "u";
  number = number;
  size = size;
  hash = some "full";
  created_at = 1;
}

abbrev part_file : ℕ → Bytes → File
part_file number bytes = record { dir = "chunks/u"; name = part number; content = bytes }

abbrev ready : Store (List Bytes)
ready = record {
  tasks = task ∷ [];
  chunks = chunk_of 0 3 ∷ chunk_of 1 2 ∷ [];
  disk = record {
    dirs = "chunks/u" ∷ [];
    files = part_file 0 (1 ∷ 2 ∷ 3 ∷ []) ∷ part_file 1 (4 ∷ 5 ∷ []) ∷ [];
  };
  files = [];
  clock = 9;
}

task-IsPlanned : IsPlanned task
unfolding total_chunks
task-IsPlanned = record { file_pos = omega arith; chunk_pos = omega arith; total = refl }

sum_sizes-total_chunks_example :
    (sum_sizes task 2 ≡ 5)
    × ((n : ℕ) → n < 2 → (1 ≤ expected_chunk_size task n) × (expected_chunk_size task n ≤ 3))
    × (1 ≤ 2)
    × (2 ≤ 5)
    × (3 * (2 - 1) < 5)
sum_sizes-total_chunks_example = sum_sizes-total_chunks task task-IsPlanned

merge_chunks_lem_example :
    Post
      (Merges digest task "m" ready ready.chunks)
      (λ e s. NotWhole digest task "m" ready ready.chunks × Side digest task "m" ready s)
      (merge_chunks digest task "m" ready.chunks (works ready)).0
      (merge_chunks digest task "m" ready.chunks (works ready)).1.store
unfolding find_where
merge_chunks_lem_example = merge_chunks_lem digest task "m" ready ready.chunks refl

complete_lem_example :
    Post
      (Success shelf digest 1 "u" "m" ready task)
      (Restored shelf digest 1 "u" "m" ready task)
      (complete shelf digest 1 "u" "m" (works ready)).0
      (complete shelf digest 1 "u" "m" (works ready)).1.store
unfolding find_where
complete_lem_example =
    complete_lem shelf (λ u t c f. refl) digest 1 "u" "m" ready task (refl, tt) refl refl refl

-- The upload above after it has been cancelled.
abbrev cancelled : Task
cancelled = record task { status = failed }

abbrev cancelled_store : World (Store (List Bytes))
cancelled_store = record {
  outcomes = none ∷ some "disk full" ∷ [];
  store = record ready { tasks = cancelled ∷ [] };
}

-- The owner tries to finish and to cancel it, another upload starts, and the old ones are cleaned.
abbrev attempts : List Operation
attempts =
    completes 1 "u" "m"
    ∷ passes 20
    ∷ inits 1 none "y.txt" "" (pos 8) (pos 4) "" "v"
    ∷ cancels 1 "u"
    ∷ cleans 100
    ∷ []

run_final_task_example :
    Row "u" cancelled (run shelf digest "chunks" cancelled_store attempts).store.tasks
unfolding find_where
run_final_task_example =
    run_final_task shelf digest "chunks" cancelled_store attempts "u" cancelled refl refl

-- The second chunk, sent again with other bytes.
abbrev sent : Reader
sent = record { bytes = 6 ∷ 7 ∷ []; fault = none }

upload_chunk_lem_example :
    Post
      (Answer digest ready task (pos 1) sent)
      (λ e s. Untouched task ready s)
      (upload_chunk shelf digest "chunks" 1 "u" (pos 1) (some sent) (works ready)).0
      (upload_chunk shelf digest "chunks" 1 "u" (pos 1) (some sent) (works ready)).1.store
unfolding find_where
upload_chunk_lem_example =
    upload_chunk_lem shelf digest "chunks" 1 "u" ready task (refl, tt) refl refl refl (pos 1) sent
