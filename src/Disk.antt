-- ===== src/Disk.antt =====
-- The part of the file system that an upload uses: directories, and the files in them, with
-- package os's calls. Contents are lists of bytes. `Reader` is an io.Reader that has been read to its
-- end: its bytes, and the error that stopped it, if any.
pub mod Laws
use cloud_box.Base.{
  ℕ, String, Bool, true, false, ◌&&◌, not, Option, none, some, List, [], ◌∷◌, ◌++◌, ◌==◌, str_eq,
  is_some, if◌then◌else◌,
}
use cloud_box.Fail.{Error, Result, ok, err, external}
use cloud_box.Sql.{find_where, update_where, delete_where}

abbrev pub Bytes : Type 0
Bytes = List ℕ

pub record Reader : Type 0 where
  pub bytes : Bytes
  pub fault : Option Error

-- "%06d.part", "%06d.part.tmp" and "merged-*"
pub data FileName : Type 0 where
  part part_tmp : ℕ → FileName
  merged : String → FileName

abbrev pub same_name : FileName → FileName → Bool
same_name (part m) (part n) = m == n
same_name (part_tmp m) (part_tmp n) = m == n
same_name (merged s) (merged t) = str_eq s t
same_name _ _ = false

pub record File : Type 0 where
  pub dir : String
  pub name : FileName
  pub content : Bytes

pub record Disk : Type 0 where
  pub dirs : List String
  pub files : List File

abbrev pub is_at : String → FileName → File → Bool
is_at dir name f = str_eq f.dir dir && same_name f.name name

abbrev pub content_of : Option File → Option Bytes
content_of none = none
content_of (some f) = some f.content

-- What stands at a path.
unfoldable pub read : String → FileName → Disk → Option Bytes
read dir name d = content_of (find_where (is_at dir name) d.files)

-- os.MkdirAll
unfoldable pub mkdir_all : String → Disk → Disk
mkdir_all dir d =
    if is_some (find_where (λ e. str_eq e dir) d.dirs) then d else record d { dirs = dir ∷ d.dirs }

-- os.RemoveAll: no error if nothing is there.
unfoldable pub remove_all : String → Disk → Disk
remove_all dir d = record {
  dirs = delete_where (λ e. str_eq e dir) d.dirs;
  files = delete_where (λ f. str_eq f.dir dir) d.files;
}

unfoldable pub delete_file : String → FileName → Disk → Disk
delete_file dir name d = record d { files = delete_where (is_at dir name) d.files }

-- A file in place of what stood there.
unfoldable pub put_file : String → FileName → Bytes → Disk → Disk
unfolding delete_file
put_file dir name content d = record d {
  files = record { dir = dir; name = name; content = content } ∷ (delete_file dir name d).files;
}

abbrev pub has_dir : String → Disk → Bool
has_dir dir d = is_some (find_where (λ e. str_eq e dir) d.dirs)

-- os.Create and os.CreateTemp: an empty file, in a directory that exists.
unfoldable pub create_file : String → FileName → Disk → Result (Unit {0}) × Disk
create_file dir name d =
    if has_dir dir d
    then (ok tt, put_file dir name [] d)
    else (err (external "no such file or directory"), d)

-- What is written to an open file goes to its end.
unfoldable pub append_file : String → FileName → Bytes → Disk → Disk
append_file dir name bytes d = record d {
  files = update_where (is_at dir name) (λ f. record f { content = f.content ++ bytes }) d.files;
}

-- os.Remove
unfoldable pub remove_file : String → FileName → Disk → Result (Unit {0}) × Disk
unfolding delete_file
remove_file dir name d =
    if is_some (find_where (is_at dir name) d.files)
    then (ok tt, delete_file dir name d)
    else (err (external "no such file or directory"), d)

unfoldable pub renamed :
    String → FileName → FileName → Disk → Option Bytes → Result (Unit {0}) × Disk
renamed dir old new d none = (err (external "no such file or directory"), d)
renamed dir old new d (some content) = (ok tt, put_file dir new content (delete_file dir old d))

-- os.Rename within a directory, over what stands at the new name.
unfoldable pub rename_file : String → FileName → FileName → Disk → Result (Unit {0}) × Disk
unfolding renamed
rename_file dir old new d = renamed dir old new d (read dir old d)
