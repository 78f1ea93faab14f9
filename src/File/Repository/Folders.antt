-- ===== src/File/Repository/Folders.antt =====
-- internal/file/repository.go: folders. The subtree of a folder is walked on fuel; the number of
-- folders is enough where no folder contains itself.
use cloud_box.Base.{
  ℕ, ◌+◌, zero, suc, String, Bool, not, ◌&&◌, ◌||◌, Option, none, some, List, map, ◌==◌, leb,
  str_eq, is_some, length, if◌then◌else◌,
}
use cloud_box.Fail.{Result, ok, err, external, file_not_found, folder_not_found}
use cloud_box.Exec.{Exec, pure, raise, call, query, ◌>>=◌}
use cloud_box.Sql.{
  find_where, select_where, update_where, delete_where, affected, insert_row, order_by,
}
use cloud_box.Text.{is_blank}
use cloud_box.File.Model.{UserFile, Folder, active}
use cloud_box.File.Tables.{
  Store, Dialect, scan_row, sum_of, is_user, folder_has_id, refers, stands_in, folder_exists,
}
use cloud_box.File.Repository.Files.{is_file, has_status, find_active_by_id}

abbrev pub scan_folder : Option Folder → Result Folder
scan_folder = scan_row folder_not_found

-- id = $1 AND user_id = $2
abbrev pub is_folder : ℕ → ℕ → Folder → Bool
is_folder user folder d = folder_has_id folder d && d.user_id == user

-- COALESCE(parent_id, 0)
abbrev pub parent_key : Option ℕ → ℕ
parent_key none = 0
parent_key (some p) = p

-- The columns of the UNIQUE index.
abbrev pub same_place : ℕ → Option ℕ → String → Folder → Bool
same_place user parent name d =
    (d.user_id == user && parent_key d.parent_id == parent_key parent) && str_eq d.name name

abbrev pub folder_refers : ℕ → Folder → Bool
folder_refers parent d = refers d.parent_id parent

abbrev pub file_refers : ℕ → UserFile → Bool
file_refers folder f = refers f.parent_id folder

-- WHERE user_id = $1 AND parent_id IS NULL, or = $2
abbrev pub is_child : ℕ → Option ℕ → Folder → Bool
is_child user parent d = d.user_id == user && stands_in parent d.parent_id

-- The sizes of the active files of a folder itself.
abbrev pub own_size : ℕ → List UserFile → ℕ → ℕ
own_size user files folder =
    sum_of (λ f. f.size)
      (select_where (λ f. (file_refers folder f && f.user_id == user) && has_status active f) files)

-- The rows of `descendant_folders` for a folder, each with the sizes of its files.
unfoldable pub subtree_size : ℕ → ℕ → List Folder → List UserFile → ℕ → ℕ
subtree_size zero user folders files folder = own_size user files folder
subtree_size (suc n) user folders files folder =
    own_size user files folder
    + sum_of (λ d. subtree_size n user folders files d.id)
        (select_where (is_child user (some folder)) folders)

-- ORDER BY lower(lf.name), lf.id
abbrev pub name_before : Dialect → Folder → Folder → Bool
name_before d a b =
    if str_eq (d.lower a.name) (d.lower b.name)
    then leb a.id b.id
    else d.before (d.lower a.name) (d.lower b.name)

module _ {E : Type 0} where
  unfoldable pub insert_folder : ℕ → Option ℕ → String → Store E → Result ℕ × Store E
  insert_folder user parent name s =
      if is_blank name
      then (err (external "CHECK constraint failed: folders"), s)
      else if is_some (find_where (same_place user parent name) s.folders)
      then (err (external "UNIQUE constraint failed: index 'idx_folders_user_parent_name'"), s)
      else if is_some (find_where (is_user user) s.users) && folder_exists parent s
      then (
        ok s.next_folder_id,
        record s {
          folders =
              insert_row
                (record {
                  id = s.next_folder_id;
                  user_id = user;
                  parent_id = parent;
                  name = name;
                  size = 0;
                  created_at = s.clock;
                  updated_at = s.clock;
                })
                s.folders;
          next_folder_id = suc s.next_folder_id;
        },
      )
      else (err (external "FOREIGN KEY constraint failed"), s)

  unfoldable pub find_folder_by_id : ℕ → ℕ → Exec (Store E) Folder
  find_folder_by_id user folder =
      query (λ s. scan_folder (find_where (is_folder user folder) s.folders))

  unfoldable pub create_folder : ℕ → Option ℕ → String → Exec (Store E) Folder
  create_folder user parent name = do
    id ← call (insert_folder user parent name)
    find_folder_by_id user id

  abbrev pub with_size : Store E → Folder → Folder
  with_size s d = record d {
    size = subtree_size (length s.folders) d.user_id s.folders s.user_files d.id;
  }

  unfoldable pub list_folders : Dialect → ℕ → Option ℕ → Exec (Store E) (List Folder)
  unfolding subtree_size
  list_folders dialect user parent = query (λ s. ok (
      order_by (name_before dialect)
        (map (with_size s) (select_where (is_child user parent) s.folders))))

  -- UPDATE user_files SET parent_id = $1 ..., with the number of rows.
  unfoldable pub move_files : ℕ → ℕ → Option ℕ → Store E → Result ℕ × Store E
  move_files user file parent s =
      if folder_exists parent s || affected (is_file user file active) s.user_files == 0
      then (
        ok (affected (is_file user file active) s.user_files),
        record s {
          user_files =
              update_where (is_file user file active) (λ f. record f { parent_id = parent })
                s.user_files;
        },
      )
      else (err (external "FOREIGN KEY constraint failed"), s)

  unfoldable pub move_active : ℕ → ℕ → Option ℕ → Exec (Store E) UserFile
  move_active user file parent = do
    n ← call (move_files user file parent)
    rows ← query (λ s. ok n)
    if rows == 0 then raise file_not_found else find_active_by_id user file

  abbrev pub set_folders : ℕ → ℕ → (Folder → Folder) → Store E → Result ℕ × Store E
  set_folders user folder f s = (
    ok (affected (is_folder user folder) s.folders),
    record s { folders = update_where (is_folder user folder) f s.folders },
  )

  -- The row that an UPDATE for `folder` changes, unless another row has the place it takes.
  abbrev pub place_taken : ℕ → ℕ → Option ℕ → String → Store E → Bool
  place_taken user folder parent name s =
      is_some
        (find_where (λ d. not (folder_has_id folder d) && same_place user parent name d) s.folders)

  abbrev pub rename_found : ℕ → ℕ → String → Option Folder → Store E → Result ℕ × Store E
  rename_found user folder name none s = (ok 0, s)
  rename_found user folder name (some d) s =
      if is_blank name
      then (err (external "CHECK constraint failed: folders"), s)
      else if place_taken user folder d.parent_id name s
      then (err (external "UNIQUE constraint failed: index 'idx_folders_user_parent_name'"), s)
      else set_folders user folder (λ r. record r { name = name; updated_at = s.clock }) s

  unfoldable pub rename_folders : ℕ → ℕ → String → Store E → Result ℕ × Store E
  rename_folders user folder name s =
      rename_found user folder name (find_where (is_folder user folder) s.folders) s

  unfoldable pub rename_folder : ℕ → ℕ → String → Exec (Store E) Folder
  rename_folder user folder name = do
    n ← call (rename_folders user folder name)
    rows ← query (λ s. ok n)
    if rows == 0 then raise folder_not_found else find_folder_by_id user folder

  abbrev pub move_found : ℕ → ℕ → Option ℕ → Option Folder → Store E → Result ℕ × Store E
  move_found user folder parent none s = (ok 0, s)
  move_found user folder parent (some d) s =
      if place_taken user folder parent d.name s
      then (err (external "UNIQUE constraint failed: index 'idx_folders_user_parent_name'"), s)
      else if folder_exists parent s
      then set_folders user folder (λ r. record r { parent_id = parent; updated_at = s.clock }) s
      else (err (external "FOREIGN KEY constraint failed"), s)

  unfoldable pub move_folders : ℕ → ℕ → Option ℕ → Store E → Result ℕ × Store E
  move_folders user folder parent s =
      move_found user folder parent (find_where (is_folder user folder) s.folders) s

  unfoldable pub move_folder : ℕ → ℕ → Option ℕ → Exec (Store E) Folder
  move_folder user folder parent = do
    n ← call (move_folders user folder parent)
    rows ← query (λ s. ok n)
    if rows == 0 then raise folder_not_found else find_folder_by_id user folder

  -- The WHERE clause of DeleteEmptyFolder.
  abbrev pub is_empty_folder : ℕ → ℕ → Store E → Folder → Bool
  is_empty_folder user folder s d =
      (is_folder user folder d
        && not (is_some (find_where (λ c. c.user_id == user && folder_refers folder c) s.folders)))
      && not (is_some (find_where (λ f. f.user_id == user && file_refers folder f) s.user_files))

  -- Whether a row of another table, or of another user, still refers to the folder.
  abbrev pub folder_in_use : ℕ → Store E → Bool
  folder_in_use folder s =
      (is_some (find_where (folder_refers folder) s.folders)
        || is_some (find_where (file_refers folder) s.user_files))
      || is_some (find_where (λ p. p == folder) s.task_folders)

  unfoldable pub delete_folders : ℕ → ℕ → Store E → Result ℕ × Store E
  delete_folders user folder s =
      if is_some (find_where (is_empty_folder user folder s) s.folders) && folder_in_use folder s
      then (err (external "FOREIGN KEY constraint failed"), s)
      else (
        ok (affected (is_empty_folder user folder s) s.folders),
        record s { folders = delete_where (is_empty_folder user folder s) s.folders },
      )

  unfoldable pub delete_empty_folder : ℕ → ℕ → Exec (Store E) Bool
  delete_empty_folder user folder = do
    n ← call (delete_folders user folder)
    rows ← query (λ s. ok n)
    pure (rows == 1)
