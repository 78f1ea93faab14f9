-- ===== src/File/Service/Folders.antt =====
-- internal/file/service.go: folders. The walk to the root of MoveFolder is on fuel.
use cloud_box.Base.{
  ℕ, zero, suc, String, Bool, false, not, ◌&&◌, Option, none, some, List, ◌==◌, str_eq, is_some,
  if◌then◌else◌,
}
use cloud_box.Text.{trim_space, is_empty}
use cloud_box.Fail.{
  external, original_name_required, folder_name_required, folder_already_exists, folder_move_cycle,
  folder_not_empty,
}
use cloud_box.Exec.{Exec, pure, raise, ◌>>=◌, ◌>>◌}
use cloud_box.Sql.{find_where}
use cloud_box.File.Model.{UserFile, Folder}
use cloud_box.File.Tables.{Store}
use cloud_box.File.Repository.Files
use cloud_box.File.Repository.Folders
use cloud_box.File.Repository.Folders.{find_folder_by_id, delete_empty_folder}
use cloud_box.File.Service.{Setup, validate_folder}

-- The loops over siblings, which end at the first of the name.
abbrev pub is_named : String → Folder → Bool
is_named name d = str_eq d.name name

abbrev pub is_other_named : ℕ → String → Folder → Bool
is_other_named folder name d = not (d.id == folder) && str_eq d.name name

-- `*parentID == folderID`
abbrev pub is_itself : ℕ → Option ℕ → Bool
is_itself folder none = false
is_itself folder (some p) = p == folder

module _ {E : Type 0} where
  -- The loop of MoveFolder: from the new parent to the root, with an error at the folder itself. An
  -- error of its own stands for a walk that the fuel does not suffice for.
  unfoldable pub check_ancestors : ℕ → ℕ → ℕ → Option ℕ → Exec (Store E) (Unit {0})
  check_ancestors fuel user folder none = pure tt
  check_ancestors zero user folder (some p) = raise (external "walk not ended")
  check_ancestors (suc fuel) user folder (some p) = do
    current ← find_folder_by_id user p
    if current.id == folder
        then raise folder_move_cycle
        else (check_ancestors fuel user folder current.parent_id)

module _ {E C : Type 0} (setup : Setup E C) where
  abbrev pub create_folder_trimmed : ℕ → Option ℕ → String → Exec (Store E) Folder
  create_folder_trimmed user parent name = if is_empty name then raise folder_name_required else (do
    validate_folder user parent
    siblings ← Folders.list_folders setup.dialect user parent
    if is_some (find_where (is_named name) siblings)
        then raise folder_already_exists
        else (Folders.create_folder user parent name))

  unfoldable pub create_folder : ℕ → Option ℕ → String → Exec (Store E) Folder
  create_folder user parent name = create_folder_trimmed user parent (trim_space name)

  unfoldable pub list_folders : ℕ → Option ℕ → Exec (Store E) (List Folder)
  list_folders user parent = do
    validate_folder user parent
    Folders.list_folders setup.dialect user parent

  unfoldable pub move_active : ℕ → ℕ → Option ℕ → Exec (Store E) UserFile
  move_active user file parent = do
    validate_folder user parent
    Folders.move_active user file parent

  abbrev pub rename_active_trimmed : ℕ → ℕ → String → Exec (Store E) UserFile
  rename_active_trimmed user file name =
      if is_empty name then raise original_name_required else Files.rename_active user file name

  unfoldable pub rename_active : ℕ → ℕ → String → Exec (Store E) UserFile
  rename_active user file name = rename_active_trimmed user file (trim_space name)

  abbrev pub rename_folder_trimmed : ℕ → ℕ → String → Exec (Store E) Folder
  rename_folder_trimmed user folder name = if is_empty name then raise folder_name_required else (do
    d ← find_folder_by_id user folder
    siblings ← Folders.list_folders setup.dialect user d.parent_id
    if is_some (find_where (is_other_named d.id name) siblings)
        then raise folder_already_exists
        else (Folders.rename_folder user folder name))

  unfoldable pub rename_folder : ℕ → ℕ → String → Exec (Store E) Folder
  rename_folder user folder name = rename_folder_trimmed user folder (trim_space name)

  unfoldable pub move_folder : ℕ → ℕ → ℕ → Option ℕ → Exec (Store E) Folder
  unfolding check_ancestors
  move_folder fuel user folder parent = do
    d ← find_folder_by_id user folder
    if is_itself folder parent then raise folder_move_cycle else (do
      check_ancestors fuel user folder parent
      siblings ← Folders.list_folders setup.dialect user parent
      if is_some (find_where (is_other_named d.id d.name) siblings)
          then raise folder_already_exists
          else (Folders.move_folder user folder parent))

  unfoldable pub delete_folder : ℕ → ℕ → Exec (Store E) (Unit {0})
  delete_folder user folder = do
    find_folder_by_id user folder
    deleted ← delete_empty_folder user folder
    if not deleted then raise folder_not_empty else pure tt
