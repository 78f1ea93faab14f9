-- ===== src/Upload/Plan.antt =====
-- How a file is divided into chunks: the sizes in internal/upload/service.go.
pub mod Sizes
use cloud_box.Base.{ℕ, ◌+◌, ◌-◌, ◌*◌, ◌/◌, ◌==◌, if◌then◌else◌}
use cloud_box.Upload.Model.{Task}

-- `(fileSize-1)/chunkSize + 1`, for positive sizes
unfoldable pub total_chunks : ℕ → ℕ → ℕ
total_chunks file_size chunk_size = (file_size - 1) / chunk_size + 1

-- `expectedChunkSize`. A task has at least one chunk, so `number == total - 1` is `number + 1 == total`.
unfoldable pub expected_chunk_size : Task → ℕ → ℕ
expected_chunk_size task number =
    if number + 1 == task.total_chunks
    then task.file_size - task.chunk_size * (task.total_chunks - 1)
    else task.chunk_size
