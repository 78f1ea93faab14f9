-- ===== src/Fail.antt =====
-- The sentinel errors of internal/job, internal/upload, internal/file and internal/share, with their
-- messages, and the result of a call that may fail. An error of the database, of a disk, or of
-- another library is `external` with its message; `fmt.Errorf("<prefix>: %w", e)` is `prefixed`, and
-- `fmt.Errorf("%w: <text>", e)` is `detailed`. Both keep the cause, as `errors.Is` sees it.
use Prim.Native.String.{◌++◌}
use cloud_box.Base.{String, Bool, true, false}

pub data Error : Type 0 where
  external : String → Error
  prefixed : String → Error → Error
  detailed : Error → String → Error
  -- internal/job
  invalid_job_type invalid_job_user_id invalid_job_id : Error
  job_not_found no_job_available job_not_running job_type_not_registered : Error
  -- internal/upload
  file_size_invalid chunk_size_invalid chunk_content_required chunk_number_invalid : Error
  chunk_size_mismatch task_not_uploading chunks_incomplete chunk_hash_mismatch : Error
  file_hash_mismatch task_not_found chunk_not_found : Error
  -- internal/file
  original_name_required content_required file_hash_required folder_name_required : Error
  folder_already_exists folder_move_cycle folder_not_empty storage_quota_exceeded : Error
  file_not_found file_object_not_found folder_not_found file_preview_not_found : Error
  file_scan_not_found file_integrity_mismatch virus_scanner_unavailable : Error
  file_scan_incomplete file_infected inline_preview_unsupported job_queue_unavailable : Error
  thumb_unsupported_content_type video_thumbnail_unavailable thumbnail_file_id_required : Error
  scan_file_id_required scan_file_user_id_required verify_file_id_required : Error
  -- internal/share
  share_expiration_invalid download_limit_invalid share_expired share_password_required : Error
  share_password_invalid download_limit_reached shared_file_unavailable : Error
  share_save_unavailable share_password_locked share_download_rate_limit : Error
  share_access_control_unavailable share_collection_empty share_not_found : Error

pub data Result {ℓ} (A : Type ℓ) : Type ℓ where
  ok : A → Result A
  err : Error → Result A

-- `errors.Is(err, target)` looks through wrapping: the sentinel at the bottom.
pub cause : Error → Error
cause (prefixed s e) = cause e
cause (detailed e s) = cause e
cause e = e

abbrev pub is_ok {ℓ} : {A : Type ℓ} → Result A → Bool
is_ok (ok a) = true
is_ok (err e) = false

-- The error as a caller passes it on.
abbrev pub rename_error {ℓ} : {A : Type ℓ} → (Error → Error) → Result A → Result A
rename_error f (ok a) = ok a
rename_error f (err e) = err (f e)

-- `err.Error()`, for the errors that a job handler returns.
unfoldable pub message : Error → String
message (external s) = s
message (prefixed s e) = s ++ ": " ++ message e
message (detailed e s) = message e ++ ": " ++ s
message job_type_not_registered = "job type is not registered"
message invalid_job_type = "job type is required"
message invalid_job_user_id = "job user ID must be positive"
message invalid_job_id = "job ID is required"
message job_not_found = "background job not found"
message no_job_available = "no background job available"
message job_not_running = "background job is not running"
message original_name_required = "original name is required"
message file_size_invalid = "file size must be greater than zero"
message chunk_size_invalid = "chunk size must be greater than zero"
message chunk_content_required = "chunk content is required"
message chunk_number_invalid = "chunk number is invalid"
message chunk_size_mismatch = "chunk size does not match expected size"
message task_not_uploading = "upload task is not accepting chunks"
message chunks_incomplete = "upload chunks are incomplete"
message chunk_hash_mismatch = "upload chunk hash does not match content"
message file_hash_mismatch = "file hash does not match uploaded content"
message task_not_found = "upload task not found"
message chunk_not_found = "upload chunk not found"
message content_required = "file content is required"
message file_hash_required = "file hash is required"
message folder_name_required = "folder name is required"
message folder_already_exists = "folder already exists"
message folder_move_cycle = "folder cannot be moved into itself or its descendant"
message folder_not_empty = "folder is not empty"
message storage_quota_exceeded = "storage quota exceeded"
message file_integrity_mismatch = "file content does not match stored hash"
message job_queue_unavailable = "background job queue is unavailable"
message virus_scanner_unavailable = "virus scanner is unavailable"
message file_scan_incomplete = "file is unavailable until virus scan completes"
message file_infected = "file is infected"
message thumb_unsupported_content_type = "file type does not support thumbnail"
message video_thumbnail_unavailable = "video thumbnail generator is unavailable"
message thumbnail_file_id_required = "thumbnail job requires a file ID"
message scan_file_id_required = "file scan job requires a file ID"
message scan_file_user_id_required = "file scan job requires a user ID"
message verify_file_id_required = "verify file job requires a file ID"
message inline_preview_unsupported = "file type does not support inline preview"
message file_not_found = "file not found"
message file_object_not_found = "file object not found"
message folder_not_found = "folder not found"
message file_preview_not_found = "file preview not found"
message file_scan_not_found = "file scan not found"
message share_expiration_invalid = "share expiration must be in the future"
message download_limit_invalid = "download limit must be greater than zero"
message share_expired = "share has expired"
message share_password_required = "share password is required"
message share_password_invalid = "share password is invalid"
message download_limit_reached = "share download limit reached"
message shared_file_unavailable = "shared file is unavailable"
message share_save_unavailable = "shared file save is unavailable"
message share_password_locked = "share password attempts are temporarily locked"
message share_download_rate_limit = "share download rate limit reached"
message share_access_control_unavailable = "share access control is temporarily unavailable"
message share_collection_empty = "share collection requires at least two files"
message share_not_found = "share not found"
