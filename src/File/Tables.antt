-- ===== src/File/Tables.antt =====
-- The tables that internal/file/repository.go uses, as migrations/ declares them, and the tests of
-- their constraints. `env` is what the service uses beside the database.
use cloud_box.Base.{
  ℕ, ◌+◌, String, Bool, true, false, ◌&&◌, Option, none, some, List, [], ◌∷◌, ◌==◌, is_some,
}
use cloud_box.Fail.{Error, Result, ok, err}
use cloud_box.Sql.{find_where}
use cloud_box.File.Model.{UserFile, FileObject, FilePreview, FileScan, Folder}
use cloud_box.Share.Model.{Share}

-- `next_*_id` are the counters of AUTOINCREMENT; `task_folders` is the column `parent_id` of
-- `upload_tasks`, which refers to folders too.
pub record Store (E : Type 0) : Type 0 where
  pub users : List ℕ
  pub user_files : List UserFile
  pub objects : List FileObject
  pub folders : List Folder
  pub previews : List FilePreview
  pub scans : List FileScan
  pub shares : List Share
  pub task_folders : List ℕ
  pub next_file_id : ℕ
  pub next_object_id : ℕ
  pub next_folder_id : ℕ
  pub clock : ℕ
  pub env : E

-- What SQLite and PostgreSQL each have of their own: LIKE, with the pattern first, LOWER, and the
-- order of texts.
pub record Dialect : Type 0 where
  pub like : String → String → Bool
  pub lower : String → String
  pub before : String → String → Bool

-- The row as the caller gets it, or the error for `sql.ErrNoRows`.
abbrev pub scan_row : {A : Type 0} → Error → Option A → Result A
scan_row e none = err e
scan_row e (some a) = ok a

-- `COALESCE(SUM(size), 0)`
abbrev pub sum_of : {A : Type 0} → (A → ℕ) → List A → ℕ
sum_of f [] = 0
sum_of f (a ∷ rows) = f a + sum_of f rows

abbrev pub is_user : ℕ → ℕ → Bool
is_user id u = u == id

abbrev pub file_has_id : ℕ → UserFile → Bool
file_has_id id f = f.id == id

abbrev pub object_has_id : ℕ → FileObject → Bool
object_has_id id o = o.id == id

abbrev pub folder_has_id : ℕ → Folder → Bool
folder_has_id id d = d.id == id

abbrev pub preview_of : ℕ → FilePreview → Bool
preview_of object p = p.file_object_id == object

abbrev pub scan_of : ℕ → FileScan → Bool
scan_of object c = c.file_object_id == object

-- `column = id`, which NULL does not satisfy.
abbrev pub refers : Option ℕ → ℕ → Bool
refers none id = false
refers (some k) id = k == id

-- `column IS NULL` or `column = id`, by which the queries for a folder differ.
abbrev pub stands_in : Option ℕ → Option ℕ → Bool
stands_in none none = true
stands_in none (some p) = false
stands_in (some p) q = refers q p

abbrev pub file_of : ℕ → UserFile → Bool
file_of object f = refers f.object_id object

module _ {E : Type 0} where
  abbrev pub folder_exists : Option ℕ → Store E → Bool
  folder_exists none s = true
  folder_exists (some p) s = is_some (find_where (folder_has_id p) s.folders)

  abbrev pub object_exists : Option ℕ → Store E → Bool
  object_exists none s = true
  object_exists (some o) s = is_some (find_where (object_has_id o) s.objects)

  -- The FOREIGN KEY clauses of `user_files`.
  abbrev pub file_references : UserFile → Store E → Bool
  file_references f s =
      is_some (find_where (is_user f.user_id) s.users)
      && folder_exists f.parent_id s
      && object_exists f.object_id s
