-- ===== src/Disk/Laws.antt =====
-- What a call on one path does to what stands at another.
use cloud_box.Base.{
  String, ◌≡◌, refl, sym, ◌∙◌, ap, Bool, true, false, Option, none, some, List, [], ◌∷◌, ◌++◌,
  str_eq, str_eq_refl, str_eq→eq, and_left, and_right, arith, Bool-cases, Option-cases, inl, inr,
  if◌then◌else◌, is_some,
}
use mathlib.Core.Option
use cloud_box.Fail.{ok}
use cloud_box.Sql.{find_where, delete_where}
use cloud_box.Sql.Laws.{find_where-update, find_where-holds}
use cloud_box.Disk.{
  Bytes, Disk, content_of, File, FileName, part, part_tmp, merged, same_name, is_at, read,
  append_file, delete_file, remove_file, rename_file, remove_all, put_file,
}

same_name_refl : (n : FileName) → same_name n n ≡ true
same_name_refl (part n) = ground arith
same_name_refl (part_tmp n) = ground arith
same_name_refl (merged s) = str_eq_refl s

-- A name is found at one place only.
same_name_trans :
    (a b c : FileName) → same_name a b ≡ true → same_name a c ≡ true → same_name b c ≡ true
same_name_trans (part a) (part b) (part c) h k = ground arith
same_name_trans (part_tmp a) (part_tmp b) (part_tmp c) h k = ground arith
same_name_trans (merged a) (merged b) (merged c) h k = rw (← str_eq→eq a b h) k
same_name_trans _ _ _ h k = cc

-- A file that stands at one path does not stand at another.
is_at-apart :
    (dir : String) (a b : FileName) (f : File)
    → same_name a b ≡ false
    → is_at dir a f ≡ true
    → is_at dir b f ≡ false
is_at-apart dir a b f apart h = elim (Bool-cases (is_at dir b f)) [
  | inr e ↦ e
  | inl e ↦
      let t : same_name a b ≡ true =
        same_name_trans f.name a b (and_right (str_eq f.dir dir) (same_name f.name a) h)
          (and_right (str_eq f.dir dir) (same_name f.name b) e) in
      cc (apart, t)
]

find_where-delete_other :
    (k p : File → Bool) (files : List File)
    → ((f : File) → p f ≡ true → k f ≡ false)
    → find_where k (delete_where p files) ≡ find_where k files
unfolding find_where delete_where
find_where-delete_other k p [] apart = refl
find_where-delete_other k p (f ∷ files) apart =
    ground (arith, apart f, find_where-delete_other k p files apart)

find_where-delete_all :
    (k p : File → Bool) (files : List File)
    → ((f : File) → k f ≡ true → p f ≡ true)
    → find_where k (delete_where p files) ≡ none
unfolding find_where delete_where
find_where-delete_all k p [] covers = refl
find_where-delete_all k p (f ∷ files) covers =
    ground (arith, covers f, find_where-delete_all k p files covers)

appended : (bytes : Bytes) → File → File
appended bytes f = record f { content = f.content ++ bytes }

module _ (dir : String) (a b : FileName) (bytes : Bytes) (d : Disk)
    (apart : same_name a b ≡ false) where
  kept_content :
      (o : Option File)
      → o ≡ find_where (is_at dir b) d.files
      → content_of (Option.map (λ f. if is_at dir a f then appended bytes f else f) o)
        ≡ content_of o
  unfolding appended
  kept_content none e = refl
  kept_content (some f) e =
      let here : is_at dir b f ≡ true = find_where-holds (is_at dir b) d.files f (sym e) in
      let not_there : is_at dir a f ≡ false = elim (Bool-cases (is_at dir a f)) [
        | inr n ↦ n
        | inl y ↦ cc (is_at-apart dir a b f apart y, here)
      ] in
      rw not_there refl

  -- Writing to one file leaves the others alone.
  pub read-append_file_other : read dir b (append_file dir a bytes d) ≡ read dir b d
  unfolding append_file read appended
  read-append_file_other =
      ap content_of
        (find_where-update (is_at dir a) (is_at dir b) (appended bytes) d.files (λ f. refl))
      ∙ kept_content (find_where (is_at dir b) d.files) refl

-- What is written to a file stands at its end.
pub read-append_file :
    (dir : String) (a : FileName) (bytes old : Bytes) (d : Disk)
    → read dir a d ≡ some old
    → read dir a (append_file dir a bytes d) ≡ some (old ++ bytes)
unfolding append_file read
read-append_file dir a bytes old d e = elim (Option-cases (find_where (is_at dir a) d.files)) [
  | inl n ↦ cc (rw n at e)
  | inr (f, p) ↦
      let here : is_at dir a f ≡ true = find_where-holds (is_at dir a) d.files f p in
      let same : some f.content ≡ some old = rw p at e in
      rw
        (
          find_where-update (is_at dir a) (is_at dir a)
              (λ g. record g { content = g.content ++ bytes }) d.files (λ g. refl),
          p,
          here,
        )
        (ap (Option.map (λ c. c ++ bytes)) same)
]

-- Deleting one file leaves the others alone, and nothing at its own path.
pub read-delete_file_other :
    (dir : String) (a b : FileName) (d : Disk)
    → same_name a b ≡ false
    → read dir b (delete_file dir a d) ≡ read dir b d
unfolding delete_file read
read-delete_file_other dir a b d apart = ap content_of (
    find_where-delete_other (is_at dir b) (is_at dir a) d.files
      (λ f h. is_at-apart dir a b f apart h))

pub read-delete_file :
    (dir : String) (a : FileName) (d : Disk) → read dir a (delete_file dir a d) ≡ none
unfolding delete_file read
read-delete_file dir a d =
    ap content_of (find_where-delete_all (is_at dir a) (is_at dir a) d.files (λ f h. h))

-- After RemoveAll nothing stands in the directory.
pub read-remove_all :
    (dir : String) (a : FileName) (d : Disk) → read dir a (remove_all dir d) ≡ none
unfolding remove_all read
read-remove_all dir a d = ap content_of (
    find_where-delete_all (is_at dir a) (λ f. str_eq f.dir dir) d.files
      (λ f h. and_left (str_eq f.dir dir) (same_name f.name a) h))

find_where-skip :
    (p : File → Bool) (f : File) (files : List File)
    → p f ≡ false
    → find_where p (f ∷ files) ≡ find_where p files
unfolding find_where
find_where-skip p f files e = rw e refl

pub read-put_file :
    (dir : String) (a : FileName) (content : Bytes) (d : Disk)
    → read dir a (put_file dir a content d) ≡ some content
unfolding put_file read find_where
read-put_file dir a content d = rw (str_eq_refl dir, same_name_refl a) refl

pub read-put_file_other :
    (dir : String) (a b : FileName) (content : Bytes) (d : Disk)
    → same_name a b ≡ false
    → read dir b (put_file dir a content d) ≡ read dir b d
unfolding put_file read
read-put_file_other dir a b content d apart =
    ap content_of (find_where-skip (is_at dir b) _ _ (rw (apart, str_eq_refl dir) refl))
    ∙ read-delete_file_other dir a b d apart

-- A rename moves what stands at the old name to the new one, and leaves other names alone.
pub rename_file_lem :
    (dir : String) (old new : FileName) (bytes : Bytes) (d : Disk)
    → read dir old d ≡ some bytes
    → (rename_file dir old new d ≡ (ok tt, put_file dir new bytes (delete_file dir old d)))
unfolding rename_file
rename_file_lem dir old new bytes d e = rw e refl

-- os.Remove of one file, whether or not it is there, leaves the others alone.
pub read-remove_file_other :
    (dir : String) (a b : FileName) (d : Disk)
    → same_name a b ≡ false
    → read dir b (remove_file dir a d).1 ≡ read dir b d
unfolding remove_file
read-remove_file_other dir a b d apart =
    elim (Bool-cases (is_some (find_where (is_at dir a) d.files))) [
      | inl y ↦ rw y (read-delete_file_other dir a b d apart)
      | inr n ↦ rw n refl
    ]
