-- ===== src/File/References/View.antt =====
-- PermanentlyDeleteDeleted of internal/file/repository.go against a specification that knows no counts:
-- which files there are, and which contents. A content stays exactly while a file refers to it.
use cloud_box.Base.{
  ℕ, ◌-◌, ◌≡◌, refl, sym, ap, subst, ◌∙◌, Bool, true, false, ◌&&◌, Option, none, some, List, ◌==◌,
  ==_iff, arith, inl, inr, Option-cases, Bool-cases, ltb, is_some, if◌then◌else◌,
}
use mathlib.Core.Option
use cloud_box.Exec.Works.{Post}
use cloud_box.Exec.Ensures.{Anything}
use cloud_box.Sql.Keys.{Unique}
use cloud_box.Sql.{find_where, delete_where, update_where, affected}
use cloud_box.Sql.Laws.{
  affected-zero, find_where-holds, find_where-delete_other, find_where-update, returning-find_where,
}
use cloud_box.File.Model.{UserFile, FileObject, deleted}
use cloud_box.File.Tables.{Store, file_of, object_has_id, refers}
use cloud_box.File.Repository.Files.{is_file, shares_file}
use cloud_box.File.Repository.Removal.{
  delete_files, drop_reference, delete_objects, is_referenced, is_unreferenced, one_reference_less,
}
use cloud_box.File.References.{object_id, IsConsistent, count_of, count_found, count_of-update}
use cloud_box.File.References.Removal.{referenced_row}
use cloud_box.File.References.Doomed.{Doomed}
use cloud_box.File.References.Gone.{delete_objects-files}

pub record View : Type 0 where
  pub files : List UserFile
  pub has : ℕ → Bool

-- The column `object_id` of the row, if there is one.
abbrev pub content_of : Option UserFile → Option ℕ
content_of none = none
content_of (some f) = f.object_id

-- The specification: the file goes, and its content with it unless another file refers to it.
abbrev pub remove_file : ℕ → ℕ → View → View
remove_file user file v =
    let files = delete_where (is_file user file deleted) v.files in
    record {
      files = files;
      has = λ k.
          if refers (content_of (find_where (is_file user file deleted) v.files)) k
          then is_some (find_where (file_of k) files)
          else v.has k;
    }

abbrev pub has_content : List FileObject → ℕ → Bool
has_content objects k = is_some (find_where (object_has_id k) objects)

-- What the tables are an implementation of.
abbrev pub view : {E : Type 0} → Store E → View
view s = record { files = s.user_files; has = has_content s.objects }

module _ {E : Type 0} (user file : ℕ) (s0 : Store E) where
  -- Only the content `object` may be another than before.
  pub record Frame (object : ℕ) (s : Store E) : Type 0 where
    pub files : s.user_files ≡ delete_where (is_file user file deleted) s0.user_files
    pub others :
        (k : ℕ) → (object == k) ≡ false → has_content s.objects k ≡ has_content s0.objects k

  pub delete_objects-Frame :
      (object : ℕ) (s : Store E) → Frame object s → Frame object (delete_objects object s).1
  unfolding delete_objects
  delete_objects-Frame object s f = record {
    files = delete_objects-files object s ∙ f.files;
    others = λ k apart. ap is_some (same k apart) ∙ f.others k apart;
  }
    where
      apart_rows :
          (k : ℕ)
          → (object == k) ≡ false
          → (o : FileObject) → object_has_id k o ≡ true
          → is_unreferenced object o ≡ false
      apart_rows k apart o t = ground arith

      same :
          (k : ℕ)
          → (object == k) ≡ false
          → find_where (object_has_id k) (delete_objects object s).1.objects
            ≡ find_where (object_has_id k) s.objects
      same k apart = elim (Bool-cases (ltb 0 (affected (is_unreferenced object) s.objects))) [
        | inr t ↦ rw t refl
        | inl t ↦ rw t (elim (Bool-cases (is_some (find_where (file_of object) s.user_files))) [
          | inl u ↦ rw u refl
          | inr u ↦ rw u (
              find_where-delete_other (is_unreferenced object) (object_has_id k) s.objects
                (apart_rows k apart))
        ])
      ]

  map_some :
      (p : FileObject → Bool) (f : FileObject → FileObject) (o : Option FileObject)
      → is_some (Option.map (λ r. if p r then f r else r) o) ≡ is_some o
  map_some p f none = refl
  map_some p f (some r) = refl

  pub drop_reference-Frame :
      (object : ℕ) (s : Store E) → Frame object s → Frame object (drop_reference object s).1
  unfolding drop_reference
  drop_reference-Frame object s f = record {
    files = f.files;
    others = λ k apart.
        ap is_some (
          find_where-update (is_referenced object) (object_has_id k) one_reference_less s.objects
            (λ o. refl))
        ∙ map_some (is_referenced object) one_reference_less
            (find_where (object_has_id k) s.objects)
        ∙ f.others k apart;
  }

  -- After `reference_count - 1`: the count that is returned is the count of the table.
  pub drop_reference-count :
      (object : ℕ) (s : Store E)
      → Unique ◌==◌ ==_iff object_id s.objects
      → Post
          (λ n t. n ≡ count_of t.objects object)
          Anything
          (drop_reference object s).0
          (drop_reference object s).1
  unfolding drop_reference
  drop_reference-count object s u =
      rw (Post, returning-find_where (is_referenced object) one_reference_less s.objects)
        (elim (Option-cases (find_where (is_referenced object) s.objects)) [
          | inl e ↦ rw e tt
          | inr (o, e) ↦ rw e (sym (count o e))
        ])
    where
      count :
          (o : FileObject)
          → find_where (is_referenced object) s.objects ≡ some o
          → count_of (update_where (is_referenced object) one_reference_less s.objects) object
            ≡ o.reference_count - 1
      count o e =
          count_of-update (is_referenced object) one_reference_less s.objects object (λ o. refl)
          ∙ rw
              (
                referenced_row object s.objects o u e,
                find_where-holds (is_referenced object) s.objects o e,
              )
              refl

  -- The end of the transaction.
  abbrev pub Done : ℕ → Store E → Type 0
  Done object s =
      Frame object s
      × (has_content s.objects object ≡ is_some (find_where (file_of object) s.user_files))

  -- A content that counts a file is there, and so is a file.
  pub still_there :
      (object n : ℕ) (s : Store E)
      → IsConsistent s
      → n ≡ count_of s.objects object
      → ltb 0 n ≡ true
      → has_content s.objects object ≡ is_some (find_where (file_of object) s.user_files)
  still_there object n s c e t = elim (Option-cases (find_where (object_has_id object) s.objects)) [
    | inl missing ↦ absurd (positive (e ∙ ap count_found missing))
    | inr (o, there) ↦ elim (Option-cases (find_where (file_of object) s.user_files)) [
      | inr (f, found) ↦ rw (there, found) refl
      | inl missing ↦ absurd (counts (affected-zero (file_of object) s.user_files missing))
    ]
  ]
    where
      positive : n ≡ 0 → ⊥
      positive zero = ground arith

      counts : affected (file_of object) s.user_files ≡ 0 → ⊥
      counts zero = positive (omega (arith, e, c.counted object, zero))

  pub delete_files-Frame :
      (object : ℕ) (s : Store E)
      → s.user_files ≡ s0.user_files
      → s.objects ≡ s0.objects
      → Post
          (λ _ t. Frame object t)
          Anything
          (delete_files user file s).0
          (delete_files user file s).1
  unfolding delete_files
  delete_files-Frame object s same_files same_objects =
      elim (Bool-cases (
        ltb 0 (affected (is_file user file deleted) s.user_files)
        && is_some (find_where (shares_file file) s.shares))) [
          | inl t ↦ rw t tt
          | inr t ↦ rw t (record {
            files = ap (delete_where (is_file user file deleted)) same_files;
            others = λ k apart. ap (λ o. has_content o k) same_objects;
          })
        ]

  -- The specification, from the parts.
  pub view-Done :
      (o : FileObject) (s : Store E)
      → Doomed user file o s0
      → Done o.id s
      → view s ≡ remove_file user file (view s0)
  view-Done o s d (f, own) = λ i. record { files = f.files i; has = λ k. q k i }
    where
      named :
          (k : ℕ)
          → refers (content_of (find_where (is_file user file deleted) s0.user_files)) k
            ≡ (o.id == k)
      named k = ap (λ x. refers (content_of x) k) d.found ∙ ap (λ x. refers x k) d.content

      mine :
          (k : ℕ)
          → o.id ≡ k
          → has_content s.objects k
            ≡ is_some
                (find_where (file_of k) (delete_where (is_file user file deleted) s0.user_files))
      mine k same =
          subst
            (λ i.
              has_content s.objects i
              ≡ is_some
                  (find_where (file_of i) (delete_where (is_file user file deleted) s0.user_files)))
            same (own ∙ ap (λ r. is_some (find_where (file_of o.id) r)) f.files)

      q :
          (k : ℕ)
          → has_content s.objects k ≡ (
              if refers (content_of (find_where (is_file user file deleted) s0.user_files)) k
              then is_some
                  (find_where (file_of k) (delete_where (is_file user file deleted) s0.user_files))
              else has_content s0.objects k)
      q k = elim (Bool-cases (o.id == k)) [
        | inl t ↦ rw (named k, t) (mine k ((==_iff o.id k).0 t))
        | inr t ↦ rw (named k, t) (f.others k t)
      ]
