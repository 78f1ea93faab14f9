-- ===== src/File/Service.antt =====
-- internal/file/service.go. `Setup` holds the options of the service and what it uses beside the
-- repository, over the state `E` of those parts and the contents `C` that a reader gives.
pub mod Access
pub mod Upload
pub mod Scan
pub mod Jobs
pub mod Trash
pub mod Folders
use cloud_box.Base.{
  ℕ, ◌-◌, String, Bool, true, false, not, ◌&&◌, ◌||◌, Option, none, some, List, [], ◌∷◌, ltb,
  is_some, if◌then◌else◌,
}
use cloud_box.Fail.{Error, Result, ok, err, cause, storage_quota_exceeded}
use cloud_box.Exec.{Exec, pure, raise, call, query, attempt, ◌>>=◌, ◌>>◌}
use cloud_box.Text.MediaType.{supports_thumbnail}
use cloud_box.File.Model.{
  UserFile, FileObject, FilePreview, StorageUsage, Availability, ScanStatus, pending, failed,
  FileScan,
}
use cloud_box.File.Tables.{Store, Dialect}
use cloud_box.File.Repository.Files.{total_file_size_by_user}
use cloud_box.File.Repository.Objects.{over_quota}
use cloud_box.File.Repository.Removal.{is_preview_not_found}
use cloud_box.File.Repository.Folders.{find_folder_by_id}
use cloud_box.File.Repository.Scans.{
  create_pending_file_scan, find_file_preview_by_object_id, is_claimable,
}

-- The interface StorageUsageCache; `get` gives nothing on a miss, `set` takes the time to live too.
pub record UsageCache (E : Type 0) : Type 0 where
  pub get : ℕ → E → Result (Option ℕ)
  pub set : ℕ → ℕ → ℕ → E → Result (Unit {0}) × E
  pub remove : ℕ → E → Result (Unit {0}) × E

-- The interface Storage: Save gives the path, the size and the hash.
pub record Storage (E C : Type 0) : Type 0 where
  pub save : C → String → E → Result (String × ℕ × String) × E
  pub open_file : String → E → Result C
  pub delete : String → E → Result (Unit {0}) × E

pub data JobType : Type 0 where
  scan_file verify_file generate_thumbnail : JobType

-- What a scanner says of a content.
pub record ScanResult : Type 0 where
  pub is_infected : Bool
  pub signature : String

-- A file with the fields that the service computes.
pub record AvailableFile : Type 0 where
  pub file : UserFile
  pub availability : Availability
  pub cleanup_at : Option ℕ

-- The option that is not given is `none`, and 0 for a duration.
pub record Setup (E C : Type 0) : Type 0 where
  pub dialect : Dialect
  pub storage : Storage E C
  pub hash_of : C → String
  pub storage_quota_bytes : ℕ
  pub storage_usage_cache : Option (UsageCache E)
  pub storage_usage_cache_ttl : ℕ
  pub storage_quota_provider : Option (ℕ → E → Result ℕ)
  pub trash_retention : ℕ
  pub job_enqueuer : Option (ℕ → JobType → ℕ → E → Result (Unit {0}) × E)
  pub virus_scanner : Option (C → E → Result ScanResult × E)
  -- ExtractFirstFrame with the dimensions that DecodeConfig reads, and the reduced image of a picture
  pub video_thumbnail : Option (C → E → Result (C × ℕ × ℕ))
  pub image_thumbnail : C → Result (C × ℕ × ℕ)

module _ {E : Type 0} where
  abbrev pub on_env : {A : Type 0} → (E → Result A × E) → Store E → Result A × Store E
  on_env f s = let (r, e) = f s.env in (r, record s { env = e })

  -- A call of a part beside the repository.
  unfoldable pub outside : {A : Type 0} → (E → Result A × E) → Exec (Store E) A
  outside f = call (on_env f)

  -- `_ = f()`
  abbrev pub ignore : {A : Type 0} → Exec (Store E) A → Exec (Store E) (Unit {0})
  ignore m = do attempt m; pure tt

  -- ValidateFolder
  unfoldable pub validate_folder : ℕ → Option ℕ → Exec (Store E) (Unit {0})
  validate_folder user none = pure tt
  validate_folder user (some p) = do find_folder_by_id user p; pure tt

module _ {E C : Type 0} (setup : Setup E C) where
  unfoldable pub storage_quota_for_user : ℕ → Exec (Store E) ℕ
  storage_quota_for_user user = elim setup.storage_quota_provider [
    | none ↦ pure setup.storage_quota_bytes
    | some quota ↦ query (λ s. quota user s.env)
  ]

  unfoldable pub ensure_storage_quota : ℕ → ℕ → Exec (Store E) (Unit {0})
  ensure_storage_quota user additional = do
    quota ← storage_quota_for_user user
    used ← total_file_size_by_user user
    if over_quota quota used additional then raise storage_quota_exceeded else pure tt

  abbrev pub new_storage_usage : ℕ → ℕ → StorageUsage
  new_storage_usage used quota = record {
    used_bytes = used;
    quota_bytes = quota;
    available_bytes = quota - used;
  }

  unfoldable pub invalidate_storage_usage_cache : ℕ → Exec (Store E) (Unit {0})
  unfolding outside
  invalidate_storage_usage_cache user = elim setup.storage_usage_cache [
    | none ↦ pure tt
    | some cache ↦ ignore (outside (cache.remove user))
  ]

  -- The lookup of GetStorageUsage; an error of the cache is a miss.
  abbrev pub cached_usage : ℕ → Exec (Store E) (Option ℕ)
  cached_usage user = elim setup.storage_usage_cache [
    | none ↦ pure none
    | some cache ↦ do
      r ← attempt (query (λ s. cache.get user s.env))
      pure (elim r [ ok found ↦ found | err e ↦ none ])
  ]

  abbrev pub remember_usage : ℕ → ℕ → Exec (Store E) (Unit {0})
  remember_usage user used = elim setup.storage_usage_cache [
    | none ↦ pure tt
    | some cache ↦ ignore (outside (cache.set user used setup.storage_usage_cache_ttl))
  ]

  abbrev pub usage_of : ℕ → ℕ → Option ℕ → Exec (Store E) StorageUsage
  usage_of user quota (some used) = pure (new_storage_usage used quota)
  usage_of user quota none = do
    used ← total_file_size_by_user user
    remember_usage user used
    pure (new_storage_usage used quota)

  unfoldable pub get_storage_usage : ℕ → Exec (Store E) StorageUsage
  get_storage_usage user = do
    quota ← storage_quota_for_user user
    cached ← cached_usage user
    usage_of user quota cached

  -- A job for a file; an error is logged by the callers.
  abbrev pub enqueue : ℕ → JobType → ℕ → Exec (Store E) (Unit {0})
  enqueue user job_type file = elim setup.job_enqueuer [
    | none ↦ pure tt
    | some enqueue_for_user ↦ ignore (outside (enqueue_for_user user job_type file))
  ]

  abbrev pub enqueue_scan_for : ℕ → ℕ → Result (FileScan × Bool) → Exec (Store E) (Unit {0})
  enqueue_scan_for user file (err e) = pure tt
  enqueue_scan_for user file (ok (c, created)) =
      if is_claimable c.status then enqueue user scan_file file else pure tt

  unfoldable pub enqueue_file_scan_if_enabled : ℕ → ℕ → FileObject → Exec (Store E) (Unit {0})
  enqueue_file_scan_if_enabled user file o =
      if not (is_some setup.virus_scanner) || not (is_some setup.job_enqueuer)
      then pure tt
      else (do r ← attempt (create_pending_file_scan o.id); enqueue_scan_for user file r)

  abbrev pub enqueue_thumbnail_for : ℕ → ℕ → Result FilePreview → Exec (Store E) (Unit {0})
  enqueue_thumbnail_for user file (ok p) = pure tt
  enqueue_thumbnail_for user file (err e) =
      if is_preview_not_found (cause e) then enqueue user generate_thumbnail file else pure tt

  unfoldable pub enqueue_thumbnail_if_supported : ℕ → ℕ → FileObject → Exec (Store E) (Unit {0})
  enqueue_thumbnail_if_supported user file o =
      if not (is_some setup.job_enqueuer) || not (supports_thumbnail o.content_type)
      then pure tt
      else (do r ← attempt (find_file_preview_by_object_id o.id); enqueue_thumbnail_for user file r)
