-- ===== src/File/Service/Scan.antt =====
-- internal/file/service.go and thumbnail.go: the work on a content that the background jobs do.
-- `check_context` is `ctx.Err()`.
use Prim.Native.String.{◌++◌}
use cloud_box.Base.{
  ℕ, ◌*◌, ◌/◌, String, Bool, not, ◌&&◌, none, some, str_eq, leb, ltb, if◌then◌else◌,
}
use cloud_box.Fail.{
  Error, Result, ok, err, cause, prefixed, detailed, message, virus_scanner_unavailable,
  file_integrity_mismatch, job_queue_unavailable, thumb_unsupported_content_type,
  video_thumbnail_unavailable,
}
use cloud_box.Exec.{Exec, pure, raise, query, attempt, on_error, ◌>>=◌, ◌>>◌}
use cloud_box.Text.MediaType.{supports_thumbnail, lower_has_prefix}
use cloud_box.File.Model.{FileObject, FilePreview, FileScan}
use cloud_box.File.Tables.{Store}
use cloud_box.File.Repository.Files.{find_active_by_id, find_object_for_active_file}
use cloud_box.File.Repository.Removal.{is_preview_not_found}
use cloud_box.File.Repository.Scans.{
  create_pending_file_scan, claim_file_scan, complete_file_scan, fail_file_scan,
  find_file_preview_by_object_id, create_file_preview,
}
use cloud_box.File.Service.{
  Setup, ScanResult, verify_file, outside, ignore, enqueue_thumbnail_if_supported,
}
use cloud_box.File.Service.Access.{open_at}

abbrev pub check_context : {E : Type 0} → Exec (Store E) (Unit {0})
check_context = query (λ s. ok tt)

-- thumbnailDimensions
abbrev pub at_least_one : ℕ → ℕ
at_least_one n = if ltb n 1 then 1 else n

unfoldable pub thumbnail_dimensions : ℕ → ℕ → ℕ → ℕ × ℕ
thumbnail_dimensions width height max_dimension =
    if leb width max_dimension && leb height max_dimension
    then (width, height)
    else if leb height width
    then (max_dimension, at_least_one (height * max_dimension / width))
    else (at_least_one (width * max_dimension / height), max_dimension)

-- The row of CreateFilePreview; the time is the table's to give.
abbrev pub preview_row : ℕ → String → ℕ → ℕ → ℕ → FilePreview
preview_row object path size width height = record {
  file_object_id = object;
  storage_path = path;
  size = size;
  content_type = "image/png";
  width = width;
  height = height;
  created_at = 0;
}

module _ {E C : Type 0} (setup : Setup E C) where
  unfoldable pub verify_active_file : ℕ → Exec (Store E) (Unit {0})
  verify_active_file file = do
    check_context
    o ← find_object_for_active_file file
    content ← open_at setup o.storage_path
    check_context
    if not (str_eq (setup.hash_of content) o.file_hash)
        then raise file_integrity_mismatch
        else pure tt

  abbrev pub scan_failed : Error → Result FileScan → Exec (Store E) (Unit {0})
  scan_failed failure (ok c) = raise failure
  scan_failed failure (err e) = raise (detailed failure ("mark file scan failed: " ++ message e))

  unfoldable pub mark_file_scan_failed : ℕ → Error → Exec (Store E) (Unit {0})
  mark_file_scan_failed object failure = do
    r ← attempt (fail_file_scan object)
    scan_failed failure r

  -- The verdict is recorded; only a clean content goes on to the thumbnail.
  abbrev pub record_verdict : ℕ → ℕ → FileObject → Result ScanResult → Exec (Store E) (Unit {0})
  record_verdict user file o (err e) = mark_file_scan_failed o.id (prefixed "scan file content" e)
  record_verdict user file o (ok result) = do
    on_error (prefixed "complete file scan")
        (complete_file_scan o.id result.is_infected result.signature)
    if result.is_infected then pure tt else enqueue_thumbnail_if_supported setup user file o

  abbrev pub scan_content :
      ℕ → ℕ → FileObject → (C → E → Result ScanResult × E) → Result C → Exec (Store E) (Unit {0})
  scan_content user file o scan (err e) =
      mark_file_scan_failed o.id (prefixed "open file for virus scan" e)
  scan_content user file o scan (ok content) = do
    r ← attempt (outside (scan content))
    record_verdict user file o r

  abbrev pub scan_with : ℕ → ℕ → (C → E → Result ScanResult × E) → Exec (Store E) (Unit {0})
  scan_with user file scan = do
    f ← find_active_by_id user file
    o ← find_object_for_active_file file
    on_error (prefixed "create file scan") (create_pending_file_scan o.id)
    (c, claimed) ← on_error (prefixed "claim file scan") (claim_file_scan o.id)
    if not claimed
        then pure tt
        else (do r ← attempt (open_at setup o.storage_path); scan_content f.user_id f.id o scan r)

  unfoldable pub scan_active_file : ℕ → ℕ → Exec (Store E) (Unit {0})
  unfolding mark_file_scan_failed
  scan_active_file user file = do
    check_context
    elim setup.virus_scanner [
      | none ↦ raise virus_scanner_unavailable
      | some scan ↦ scan_with user file scan
    ]

  unfoldable pub enqueue_file_verification : ℕ → ℕ → Exec (Store E) (Unit {0})
  enqueue_file_verification user file = do
    find_active_by_id user file
    elim setup.job_enqueuer [
      | none ↦ raise job_queue_unavailable
      | some enqueue_for_user ↦ outside (enqueue_for_user user verify_file file)
    ]

  -- generateThumbnail: the encoded image and its dimensions.
  unfoldable pub generate_thumbnail_of : String → C → Exec (Store E) (C × ℕ × ℕ)
  generate_thumbnail_of content_type content =
      if lower_has_prefix content_type "video/"
      then elim setup.video_thumbnail [
        | none ↦ raise video_thumbnail_unavailable
        | some extract ↦ query (λ s. extract content s.env)
      ]
      else (do t ← query (λ s. setup.image_thumbnail content); check_context; pure t)

  -- The preview is not kept twice: what has been saved in vain is deleted.
  abbrev pub settle_preview : String → Result Bool → Exec (Store E) (Unit {0})
  settle_preview path (err e) = do ignore (outside (setup.storage.delete path)); raise e
  settle_preview path (ok created) =
      if not created then outside (setup.storage.delete path) else pure tt

  abbrev pub save_preview : FileObject → Exec (Store E) (Unit {0})
  save_preview o = do
    content ← open_at setup o.storage_path
    (encoded, width, height) ← generate_thumbnail_of o.content_type content
    (path, size, hash) ← outside (setup.storage.save encoded "thumbnail.png")
    r ← attempt (create_file_preview (preview_row o.id path size width height))
    settle_preview path r

  abbrev pub unless_preview : FileObject → Result FilePreview → Exec (Store E) (Unit {0})
  unless_preview o (ok p) = pure tt
  unless_preview o (err e) =
      if not (is_preview_not_found (cause e)) then raise e else save_preview o

  unfoldable pub generate_thumbnail_for_active_file : ℕ → Exec (Store E) (Unit {0})
  unfolding generate_thumbnail_of
  generate_thumbnail_for_active_file file = do
    check_context
    o ← find_object_for_active_file file
    if not (supports_thumbnail o.content_type)
        then raise thumb_unsupported_content_type
        else (do r ← attempt (find_file_preview_by_object_id o.id); unless_preview o r)
