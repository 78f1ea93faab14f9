-- ===== src/File/Repository/Objects.antt =====
-- internal/file/repository.go: contents, and the files that refer to them. `reference_count` counts
-- these files, so that a content is given up with its last file.
use cloud_box.Base.{
  ℕ, ◌+◌, ◌-◌, ◌%◌, ◌^◌, suc, String, Bool, not, ◌&&◌, ◌||◌, Option, none, some, List, [], ◌∷◌,
  ◌==◌, ltb, str_eq, is_some, length, if◌then◌else◌,
}
use cloud_box.Fail.{
  Result, ok, err, external, file_not_found, file_object_not_found, folder_not_found,
  storage_quota_exceeded,
}
use cloud_box.Exec.{Exec, pure, raise, call, query, transaction, ◌>>=◌, ◌>>◌}
use cloud_box.Sql.{find_where, select_where, update_where, affected, insert_row}
use cloud_box.File.Model.{UserFile, FileObject, active}
use cloud_box.File.Tables.{Store, scan_row, sum_of, object_has_id, folder_has_id, is_user}
use cloud_box.File.Repository.Files.{belongs_to, new_file, insert_file, find_active_by_id}

abbrev pub has_hash : String → FileObject → Bool
has_hash hash o = str_eq o.file_hash hash

abbrev pub one_reference_more : FileObject → FileObject
one_reference_more o = record o { reference_count = o.reference_count + 1 }

-- `a > b` for an int64 sum that may wrap to a negative number; `b` is not negative.
abbrev pub int64_exceeds : ℕ → ℕ → Bool
int64_exceeds a b = let w = a % 2 ^ 64 in ltb w (2 ^ 63) && ltb b w

-- usedBytes > quotaBytes || additionalBytes > quotaBytes-usedBytes
abbrev pub over_quota : ℕ → ℕ → ℕ → Bool
over_quota quota used additional = ltb quota used || int64_exceeds additional (quota - used)

module _ {E : Type 0} where
  unfoldable pub insert_object :
      String → String → ℕ → String → Store E → Result (Unit {0}) × Store E
  insert_object hash path size content_type s =
      if is_some (find_where (has_hash hash) s.objects)
      then (err (external "UNIQUE constraint failed: file_objects.file_hash"), s)
      else (
        ok tt,
        record s {
          objects =
              insert_row
                (record {
                  id = s.next_object_id;
                  file_hash = hash;
                  storage_path = path;
                  size = size;
                  content_type = content_type;
                  reference_count = 0;
                  created_at = s.clock;
                })
                s.objects;
          next_object_id = suc s.next_object_id;
        },
      )

  unfoldable pub find_file_object_by_hash : String → Exec (Store E) FileObject
  find_file_object_by_hash hash =
      query (λ s. scan_row file_object_not_found (find_where (has_hash hash) s.objects))

  unfoldable pub create_file_object : String → String → ℕ → String → Exec (Store E) FileObject
  create_file_object hash path size content_type = do
    call (insert_object hash path size content_type)
    find_file_object_by_hash hash

  -- UPDATE file_objects SET ... WHERE ..., with the number of rows.
  unfoldable pub update_objects :
      (FileObject → Bool) → (FileObject → FileObject) → Store E → Result ℕ × Store E
  update_objects p f s =
      (ok (affected p s.objects), record s { objects = update_where p f s.objects })

  unfoldable pub add_reference : ℕ → Exec (Store E) ℕ
  add_reference object = do
    n ← call (update_objects (object_has_id object) one_reference_more)
    query (λ s. ok n)

  unfoldable pub insert_reference :
      ℕ → Option ℕ → String → FileObject → Store E → Result UserFile × Store E
  unfolding insert_file
  insert_reference user parent name o =
      insert_file (new_file user parent (some o.id) name o.storage_path o.size o.content_type)

  unfoldable pub reference_file : ℕ → Option ℕ → String → FileObject → Exec (Store E) UserFile
  reference_file user parent name o = do
    f ← call (insert_reference user parent name o)
    rows ← add_reference o.id
    if rows == 0 then raise file_object_not_found else pure f

  unfoldable pub create_with_object_in_folder :
      ℕ → Option ℕ → String → FileObject → Exec (Store E) UserFile
  create_with_object_in_folder user parent name o = do
    f ← transaction (reference_file user parent name o)
    find_active_by_id user f.id

  unfoldable pub create_with_object : ℕ → String → FileObject → Exec (Store E) UserFile
  unfolding create_with_object_in_folder
  create_with_object user name o = create_with_object_in_folder user none name o

  -- The loop of CreateManyWithObjectsInFolder, over objects and names of the same length.
  unfoldable pub reference_files :
      ℕ → Option ℕ → List FileObject → List String → Exec (Store E) (List UserFile)
  reference_files user parent [] names = pure []
  reference_files user parent (o ∷ objects) [] = pure []
  reference_files user parent (o ∷ objects) (name ∷ names) = do
    f ← call (insert_reference user parent name o)
    rows ← add_reference o.id
    if not (rows == 1)
        then raise file_object_not_found
        else (do rest ← reference_files user parent objects names; pure (f ∷ rest))

  abbrev pub check_parent : ℕ → Option ℕ → Exec (Store E) (Unit {0})
  check_parent user none = pure tt
  check_parent user (some p) = do
    exists ←
        query
          (λ s. ok (is_some (find_where (λ d. folder_has_id p d && d.user_id == user) s.folders)))
    if not exists then raise folder_not_found else pure tt

  abbrev pub active_size : ℕ → Store E → ℕ
  active_size user s = sum_of (λ f. f.size) (select_where (belongs_to user active) s.user_files)

  unfoldable pub create_many_body :
      ℕ → Option ℕ → List FileObject → List String → ℕ → Exec (Store E) (List UserFile)
  unfolding reference_files
  create_many_body user parent objects names quota = do
    n ← query (λ s. ok (affected (is_user user) s.users))
    users ← query (λ s. ok n)
    if not (users == 1) then raise file_not_found else (do
      check_parent user parent
      used ← query (λ s. ok (active_size user s))
      if over_quota quota used (sum_of (λ o. o.size) objects)
          then raise storage_quota_exceeded
          else (reference_files user parent objects names))

  unfoldable pub create_many_with_objects_in_folder :
      ℕ → Option ℕ → List FileObject → List String → ℕ → Exec (Store E) (List UserFile)
  unfolding create_many_body
  create_many_with_objects_in_folder user parent objects names quota =
      if length objects == 0 || not (length objects == length names)
      then raise file_object_not_found
      else transaction (create_many_body user parent objects names quota)
