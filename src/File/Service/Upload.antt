-- ===== src/File/Service/Upload.antt =====
-- internal/file/service.go: the functions that add files. A content that there is already is shared.
use cloud_box.Base.{
  ℕ, String, Bool, true, false, not, Option, none, some, List, [], ◌∷◌, is_some, if◌then◌else◌,
}
use cloud_box.Text.{trim_space, is_empty}
use cloud_box.Fail.{
  Error, Result, ok, err, cause, original_name_required, content_required, file_hash_required,
  file_object_not_found,
}
use cloud_box.Exec.{Exec, pure, raise, attempt, ◌>>=◌, ◌>>◌}
use cloud_box.File.Model.{UserFile, FileObject, InstantUploadInput}
use cloud_box.File.Tables.{Store}
use cloud_box.File.Repository.Objects.{
  find_file_object_by_hash, create_file_object, create_with_object_in_folder,
  create_many_with_objects_in_folder,
}
use cloud_box.File.Service.{
  Setup, AvailableFile, outside, ignore, validate_folder, ensure_storage_quota,
  storage_quota_for_user, invalidate_storage_usage_cache, enqueue_thumbnail_if_supported,
  enqueue_file_scan_if_enabled,
}
use cloud_box.File.Service.Access.{with_availability}

abbrev pub is_object_not_found : Error → Bool
is_object_not_found file_object_not_found = true
is_object_not_found _ = false

module _ {E C : Type 0} (setup : Setup E C) where
  abbrev pub delete_content : String → Exec (Store E) (Unit {0})
  delete_content path = outside (setup.storage.delete path)

  -- The content that another upload has stored in the meantime, or the error of the insertion.
  abbrev pub existing_object : String → Error → Result FileObject → Exec (Store E) FileObject
  existing_object path failure (ok o) = do delete_content path; pure o
  existing_object path failure (err e) = do ignore (delete_content path); raise failure

  abbrev pub created_object : String → String → Result FileObject → Exec (Store E) FileObject
  created_object hash path (ok o) = pure o
  created_object hash path (err failure) = do
    r ← attempt (find_file_object_by_hash hash)
    existing_object path failure r

  abbrev pub found_object :
      String → String → ℕ → String → Result FileObject → Exec (Store E) FileObject
  found_object hash path size content_type (ok o) = do delete_content path; pure o
  found_object hash path size content_type (err e) =
      if is_object_not_found (cause e)
      then (do
        r ← attempt (create_file_object hash path size content_type)
        created_object hash path r)
      else (do ignore (delete_content path); raise e)

  -- The content of a hash: the one of the table, or the one that has just been saved.
  unfoldable pub place_object : String → String → ℕ → String → Exec (Store E) FileObject
  place_object hash path size content_type = do
    r ← attempt (find_file_object_by_hash hash)
    found_object hash path size content_type r

  -- The jobs for a new file.
  abbrev pub announce : ℕ → ℕ → FileObject → Exec (Store E) (Unit {0})
  announce user file o =
      if not (is_some setup.virus_scanner)
      then enqueue_thumbnail_if_supported setup user file o
      else enqueue_file_scan_if_enabled setup user file o

  abbrev pub add_file : ℕ → Option ℕ → String → FileObject → Exec (Store E) AvailableFile
  add_file user parent name o = do
    f ← create_with_object_in_folder user parent name o
    invalidate_storage_usage_cache setup user
    announce user f.id o
    with_availability setup f

  abbrev pub discard_over_quota : String → Result (Unit {0}) → Exec (Store E) (Unit {0})
  discard_over_quota path (ok u) = pure tt
  discard_over_quota path (err e) = do ignore (delete_content path); raise e

  abbrev pub upload_content :
      ℕ → Option ℕ → String → String → Option C → Exec (Store E) AvailableFile
  upload_content user parent name content_type none = raise content_required
  upload_content user parent name content_type (some content) = do
    validate_folder user parent
    (path, size, hash) ← outside (setup.storage.save content name)
    r ← attempt (ensure_storage_quota setup user size)
    discard_over_quota path r
    o ← place_object hash path size content_type
    add_file user parent name o

  unfoldable pub upload_into_folder :
      ℕ → Option ℕ → String → String → Option C → Exec (Store E) AvailableFile
  unfolding place_object
  upload_into_folder user parent name content_type reader =
      if is_empty name
      then raise original_name_required
      else upload_content user parent name content_type reader

  unfoldable pub upload : ℕ → String → String → Option C → Exec (Store E) AvailableFile
  unfolding upload_into_folder
  upload user name content_type reader = upload_into_folder user none name content_type reader

  abbrev pub instant_upload_trimmed : ℕ → Option ℕ → String → String → Exec (Store E) AvailableFile
  instant_upload_trimmed user parent name hash =
      if is_empty name
      then raise original_name_required
      else if is_empty hash
      then raise file_hash_required
      else (do
        validate_folder user parent
        o ← find_file_object_by_hash hash
        ensure_storage_quota setup user o.size
        add_file user parent name o)

  unfoldable pub instant_upload_into_folder :
      ℕ → Option ℕ → String → String → Exec (Store E) AvailableFile
  instant_upload_into_folder user parent name hash =
      instant_upload_trimmed user parent (trim_space name) (trim_space hash)

  unfoldable pub instant_upload : ℕ → String → String → Exec (Store E) AvailableFile
  unfolding instant_upload_into_folder
  instant_upload user name hash = instant_upload_into_folder user none name hash

  -- The loop that looks the contents up: the contents and the names.
  unfoldable pub find_objects :
      List InstantUploadInput → Exec (Store E) (List FileObject × List String)
  find_objects [] = pure ([], [])
  find_objects (i ∷ inputs) =
      let name = trim_space i.original_name in
      let hash = trim_space i.file_hash in
      let rest = find_objects inputs in
      if is_empty name
      then raise original_name_required
      else if is_empty hash
      then raise file_hash_required
      else (do
        o ← find_file_object_by_hash hash
        (objects, names) ← rest
        pure (o ∷ objects, name ∷ names))

  -- The loop over the files that have been created, each with its content.
  unfoldable pub announce_files :
      ℕ → List UserFile → List FileObject → Exec (Store E) (List AvailableFile)
  announce_files user [] objects = pure []
  announce_files user (f ∷ files) [] = pure []
  announce_files user (f ∷ files) (o ∷ objects) = do
    announce user f.id o
    a ← with_availability setup f
    rest ← announce_files user files objects
    pure (a ∷ rest)

  abbrev pub is_nil : List InstantUploadInput → Bool
  is_nil [] = true
  is_nil (i ∷ inputs) = false

  unfoldable pub instant_upload_many_into_folder :
      ℕ → Option ℕ → List InstantUploadInput → Exec (Store E) (List AvailableFile)
  unfolding find_objects announce_files
  instant_upload_many_into_folder user parent inputs =
      if is_nil inputs then raise file_hash_required else (do
        (objects, names) ← find_objects inputs
        quota ← storage_quota_for_user setup user
        files ← create_many_with_objects_in_folder user parent objects names quota
        invalidate_storage_usage_cache setup user
        announce_files user files objects)
