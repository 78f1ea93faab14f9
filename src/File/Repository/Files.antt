-- ===== src/File/Repository/Files.antt =====
-- internal/file/repository.go: the rows of `user_files`.
use cloud_box.Base.{
  ℕ, suc, String, Bool, true, false, not, ◌&&◌, ◌||◌, Option, none, some, List, ◌==◌, ltb, leb,
  str_eq, if◌then◌else◌,
}
use Prim.Native.String.{◌++◌}
use cloud_box.Text.{is_empty}
use cloud_box.Fail.{Result, ok, err, external, file_not_found}
use cloud_box.Exec.{Exec, pure, raise, call, query, write, transaction, ◌>>=◌}
use cloud_box.Sql.{
  find_where, select_where, update_where, delete_where, affected, insert_row, order_by,
}
use cloud_box.Share.Model.{Share}
use cloud_box.File.Model.{
  UserFile, FileObject, FileStatus, active, deleted, SearchFilter, is_active, is_deleted,
}
use cloud_box.File.Tables.{
  Store, Dialect, scan_row, sum_of, stands_in, file_has_id, refers, file_references,
}

abbrev pub has_status : FileStatus → UserFile → Bool
has_status active f = is_active f.status
has_status deleted f = is_deleted f.status

-- id = $1 AND user_id = $2 AND status = $3
abbrev pub is_file : ℕ → ℕ → FileStatus → UserFile → Bool
is_file user file status f = (file_has_id file f && f.user_id == user) && has_status status f

-- user_id = $1 AND status = $2
abbrev pub belongs_to : ℕ → FileStatus → UserFile → Bool
belongs_to user status f = f.user_id == user && has_status status f

-- ORDER BY created_at DESC
abbrev pub newer : UserFile → UserFile → Bool
newer a b = leb b.created_at a.created_at

-- A NULL comes first in ascending order.
abbrev pub time_before : Option ℕ → Option ℕ → Bool
time_before none b = true
time_before (some t) none = false
time_before (some t) (some u) = leb t u

-- The row of an INSERT; the identifier and the time are the table's to give.
abbrev pub new_file : ℕ → Option ℕ → Option ℕ → String → String → ℕ → String → UserFile
new_file user parent object name path size content_type = record {
  id = 0;
  user_id = user;
  parent_id = parent;
  object_id = object;
  original_name = name;
  storage_path = path;
  size = size;
  content_type = content_type;
  status = active;
  created_at = 0;
  deleted_at = none;
}

-- The clauses of SearchActive that `filter.Kind` adds.
abbrev pub of_kind : Dialect → String → String → Bool
of_kind d kind content_type =
    if str_eq kind "image"
    then d.like "image/%" content_type
    else if str_eq kind "video"
    then d.like "video/%" content_type
    else if str_eq kind "other"
    then not (d.like "image/%" content_type) && not (d.like "video/%" content_type)
    else true

abbrev pub since : Option ℕ → ℕ → Bool
since none t = true
since (some from) t = leb from t

abbrev pub until : Option ℕ → ℕ → Bool
until none t = true
until (some end) t = ltb t end

abbrev pub matches : Dialect → SearchFilter → UserFile → Bool
matches d filter f =
    (is_empty filter.query
      || d.like (d.lower ("%" ++ filter.query ++ "%")) (d.lower f.original_name))
    && of_kind d filter.kind f.content_type
    && since filter.created_after f.created_at
    && until filter.created_before f.created_at

-- The WHERE clause of ListDeletedBefore.
abbrev pub expired_before : ℕ → Option ℕ → Bool
expired_before before none = false
expired_before before (some t) = ltb t before

abbrev pub shares_file : ℕ → Share → Bool
shares_file file h = h.user_file_id == file

-- The row of the JOIN: the object's key gives one row at most.
abbrev pub joined_object : Option UserFile → List FileObject → Option FileObject
joined_object none objects = none
joined_object (some f) objects = find_where (λ o. refers f.object_id o.id) objects

module _ {E : Type 0} where
  unfoldable pub insert_file : UserFile → Store E → Result UserFile × Store E
  insert_file f s =
      let row = record f { id = s.next_file_id; created_at = s.clock } in
      if file_references f s
      then (
        ok row,
        record s { user_files = insert_row row s.user_files; next_file_id = suc s.next_file_id },
      )
      else (err (external "FOREIGN KEY constraint failed"), s)

  unfoldable pub find_by_id_and_status : ℕ → ℕ → FileStatus → Exec (Store E) UserFile
  find_by_id_and_status user file status =
      query (λ s. scan_row file_not_found (find_where (is_file user file status) s.user_files))

  unfoldable pub find_active_by_id : ℕ → ℕ → Exec (Store E) UserFile
  unfolding find_by_id_and_status
  find_active_by_id user file = find_by_id_and_status user file active

  unfoldable pub find_deleted_by_id : ℕ → ℕ → Exec (Store E) UserFile
  unfolding find_by_id_and_status
  find_deleted_by_id user file = find_by_id_and_status user file deleted

  unfoldable pub create : ℕ → String → String → ℕ → String → Exec (Store E) UserFile
  create user name path size content_type = do
    f ← call (insert_file (new_file user none none name path size content_type))
    find_active_by_id user f.id

  unfoldable pub find_object_for_active_file : ℕ → Exec (Store E) FileObject
  find_object_for_active_file file = query (λ s. scan_row file_not_found (
      joined_object (find_where (λ f. file_has_id file f && is_active f.status) s.user_files)
        s.objects))

  unfoldable pub list_active_in_folder : ℕ → Option ℕ → Exec (Store E) (List UserFile)
  list_active_in_folder user parent = query (λ s. ok (
      order_by newer (
        select_where (λ f. belongs_to user active f && stands_in parent f.parent_id) s.user_files)))

  unfoldable pub list_active : ℕ → Exec (Store E) (List UserFile)
  unfolding list_active_in_folder
  list_active user = list_active_in_folder user none

  unfoldable pub search_active : Dialect → ℕ → SearchFilter → Exec (Store E) (List UserFile)
  search_active d user filter = query (λ s. ok (
      order_by newer
        (select_where (λ f. belongs_to user active f && matches d filter f) s.user_files)))

  unfoldable pub list_by_status : ℕ → FileStatus → Exec (Store E) (List UserFile)
  list_by_status user status =
      query (λ s. ok (order_by newer (select_where (belongs_to user status) s.user_files)))

  unfoldable pub list_deleted : ℕ → Exec (Store E) (List UserFile)
  unfolding list_by_status
  list_deleted user = list_by_status user deleted

  unfoldable pub list_deleted_before : ℕ → Exec (Store E) (List UserFile)
  list_deleted_before before = query (λ s. ok (
      order_by (λ a b. time_before a.deleted_at b.deleted_at)
        (select_where (λ f. is_deleted f.status && expired_before before f.deleted_at)
          s.user_files)))

  -- UPDATE user_files SET ... WHERE ..., with the number of rows.
  unfoldable pub update_files :
      (Store E → UserFile → Bool) → (Store E → UserFile → UserFile) → Store E → Result ℕ × Store E
  update_files p f s = (
    ok (affected (p s) s.user_files),
    record s { user_files = update_where (p s) (f s) s.user_files },
  )

  unfoldable pub delete_shares : ℕ → Store E → Store E
  delete_shares file s = record s { shares = delete_where (shares_file file) s.shares }

  abbrev pub moved_to_trash : Store E → UserFile → UserFile
  moved_to_trash s f = record f { status = deleted; deleted_at = some s.clock }

  abbrev pub taken_from_trash : Store E → UserFile → UserFile
  taken_from_trash s f = record f { status = active; deleted_at = none }

  unfoldable pub soft_delete_with_share_option : ℕ → ℕ → Bool → Exec (Store E) (Unit {0})
  soft_delete_with_share_option user file keep_shares = transaction (do
    n ← call (update_files (λ s. is_file user file active) moved_to_trash)
    rows ← query (λ s. ok n)
    if rows == 0
        then raise file_not_found
        else (if keep_shares then pure tt else write (delete_shares file)))

  unfoldable pub soft_delete : ℕ → ℕ → Exec (Store E) (Unit {0})
  unfolding soft_delete_with_share_option
  soft_delete user file = soft_delete_with_share_option user file false

  unfoldable pub restore : ℕ → ℕ → Exec (Store E) (Unit {0})
  restore user file = do
    n ← call (update_files (λ s. is_file user file deleted) taken_from_trash)
    rows ← query (λ s. ok n)
    if rows == 0 then raise file_not_found else pure tt

  unfoldable pub rename_active : ℕ → ℕ → String → Exec (Store E) UserFile
  unfolding find_active_by_id
  rename_active user file name = do
    n ←
        call
          (update_files (λ s. is_file user file active) (λ s f. record f { original_name = name }))
    rows ← query (λ s. ok n)
    if rows == 0 then raise file_not_found else find_active_by_id user file

  unfoldable pub total_file_size_by_user : ℕ → Exec (Store E) ℕ
  total_file_size_by_user user =
      query (λ s. ok (sum_of (λ f. f.size) (select_where (λ f. f.user_id == user) s.user_files)))
