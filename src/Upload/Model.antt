-- ===== src/Upload/Model.antt =====
-- internal/upload/model.go, and the interface that an upload has to the files of users.
use cloud_box.Base.{ℕ, String, Option, List, Bool, true, false}
use cloud_box.Exec.{Exec}
use cloud_box.Disk.{Disk, Reader}
use cloud_box.File.Model.{UserFile}

pub data Status : Type 0 where
  uploading completing completed failed : Status

abbrev pub same_status : Status → Status → Bool
same_status uploading uploading = true
same_status completing completing = true
same_status completed completed = true
same_status failed failed = true
same_status _ _ = false

-- Sizes and counts have been checked to be positive before a task is made.
pub record Task : Type 0 where
  pub id : String
  pub user_id : ℕ
  pub parent_id : Option ℕ
  pub original_name : String
  pub content_type : String
  pub file_size : ℕ
  pub chunk_size : ℕ
  pub total_chunks : ℕ
  pub file_hash : Option String
  pub status : Status
  pub temp_dir : String
  pub created_at : ℕ
  pub updated_at : ℕ

pub record Chunk : Type 0 where
  pub upload_id : String
  pub number : ℕ
  pub size : ℕ
  pub hash : Option String
  pub created_at : ℕ

pub record UploadStatus : Type 0 where
  pub upload : Task
  pub chunks : List Chunk

-- The interface `FileService` of service.go, over the state `F` of its implementation.
pub record FileService (F : Type 0) : Type 0 where
  pub validate_folder : ℕ → Option ℕ → Exec F (Unit {0})
  pub ensure_storage_quota : ℕ → ℕ → Exec F (Unit {0})
  pub upload_into_folder : ℕ → Option ℕ → String → String → Reader → Exec F UserFile

-- The two tables, the directory of chunks, the state of the file service, and the database's clock.
pub record Store (F : Type 0) : Type 0 where
  pub tasks : List Task
  pub chunks : List Chunk
  pub disk : Disk
  pub files : F
  pub clock : ℕ

-- A call of the file service.
unfoldable pub on_files : {F A : Type 0} → Exec F A → Exec (Store F) A
on_files m w =
    let (r, v) = m (record { outcomes = w.outcomes; store = w.store.files }) in
    (r, record { outcomes = v.outcomes; store = record w.store { files = v.store } })
