-- ===== src/File/Model.antt =====
-- internal/file/model.go. Identifiers are row numbers, sizes are numbers of bytes, times are numbers
-- on the clock of the database.
use cloud_box.Base.{ℕ, String, Option, Bool, true, false}

pub data FileStatus : Type 0 where
  active deleted : FileStatus

pub record UserFile : Type 0 where
  pub id : ℕ
  pub user_id : ℕ
  pub parent_id : Option ℕ
  -- the column `object_id`, which the Go struct does not carry
  pub object_id : Option ℕ
  pub original_name : String
  pub storage_path : String
  pub size : ℕ
  pub content_type : String
  pub status : FileStatus
  pub created_at : ℕ
  pub deleted_at : Option ℕ

pub record FileObject : Type 0 where
  pub id : ℕ
  pub file_hash : String
  pub storage_path : String
  pub size : ℕ
  pub content_type : String
  pub reference_count : ℕ
  pub created_at : ℕ

pub record FilePreview : Type 0 where
  pub file_object_id : ℕ
  pub storage_path : String
  pub size : ℕ
  pub content_type : String
  pub width : ℕ
  pub height : ℕ
  pub created_at : ℕ

abbrev pub is_active : FileStatus → Bool
is_active active = true
is_active deleted = false

abbrev pub is_deleted : FileStatus → Bool
is_deleted active = false
is_deleted deleted = true

pub data Availability : Type 0 where
  ready processing unavailable : Availability

pub data ScanStatus : Type 0 where
  pending scanning clean infected failed : ScanStatus

-- The size is a column that only ListFolders computes.
pub record Folder : Type 0 where
  pub id : ℕ
  pub user_id : ℕ
  pub parent_id : Option ℕ
  pub name : String
  pub size : ℕ
  pub created_at : ℕ
  pub updated_at : ℕ

pub record StorageUsage : Type 0 where
  pub used_bytes : ℕ
  pub quota_bytes : ℕ
  pub available_bytes : ℕ

pub record InstantUploadInput : Type 0 where
  pub original_name : String
  pub file_hash : String

-- The zero time is `none`.
pub record SearchFilter : Type 0 where
  pub query : String
  pub kind : String
  pub created_after : Option ℕ
  pub created_before : Option ℕ

pub record FileScan : Type 0 where
  pub file_object_id : ℕ
  pub status : ScanStatus
  pub signature : Option String
  pub scanned_at : Option ℕ
  pub created_at : ℕ
  pub updated_at : ℕ

pub record UnreferencedFileObject : Type 0 where
  pub object : FileObject
  pub preview : Option FilePreview
