-- ===== src/File/References/Removal.antt =====
-- PermanentlyDeleteDeleted of internal/file/repository.go: each statement keeps the books, and the
-- content is given up exactly with its last file.
use cloud_box.Base.{
  ℕ, ◌+◌, ◌≡◌, refl, sym, ap, ◌∙◌, true, ◌&&◌, none, some, List, ◌==◌, ==_iff, str_eq, eq_iff,
  arith, inl, inr, Option-cases, Bool-cases, if◌then◌else◌, ltb, is_some, and_left, and_right,
}
use cloud_box.Exec.Works.{Post}
use cloud_box.Sql.{find_where, update_where, affected}
use cloud_box.Sql.Laws.{find_where-holds, returning-find_where}
use cloud_box.Sql.Keys.{
  Unique, delete-Unique, update-Unique, find_where-update_none, find_where-delete_none,
  find_where-Unique,
}
use cloud_box.Sql.Counts.{to_ℕ, affected-delete}
use cloud_box.File.Model.{UserFile, FileObject, deleted}
use cloud_box.File.Tables.{Store, file_has_id, object_has_id, file_of}
use cloud_box.File.Repository.Files.{is_file, has_status, shares_file}
use cloud_box.File.Repository.Removal.{
  delete_files, drop_reference, delete_objects, one_reference_less, is_referenced, is_unreferenced,
}
use cloud_box.File.References.{
  Balanced, IsConsistent, count_of, count_found, count_of-delete, count_of-update, object_id,
  object_hash, file_id,
}

-- The row that the WHERE clause meets is the row of the key.
pub referenced_row :
    (object : ℕ) (rows : List FileObject) (o : FileObject)
    → Unique ◌==◌ ==_iff object_id rows
    → find_where (is_referenced object) rows ≡ some o
    → find_where (object_has_id object) rows ≡ some o
referenced_row object rows o u e =
    let holds : is_referenced object o ≡ true = find_where-holds (is_referenced object) rows o e in
    let same : o.id ≡ object =
      (==_iff o.id object).0 (and_left (object_has_id object o) (ltb 0 o.reference_count) holds) in
    let found : find_where (object_has_id o.id) rows ≡ some o =
      find_where-Unique ◌==◌ ==_iff object_id (is_referenced object) rows o u e in
    ap (λ i. find_where (object_has_id i) rows) (sym same) ∙ found

-- What the counts are after `reference_count - 1`.
count_of-less :
    (object k : ℕ) (rows : List FileObject) (o : FileObject)
    → Unique ◌==◌ ==_iff object_id rows
    → find_where (is_referenced object) rows ≡ some o
    → count_of (update_where (is_referenced object) one_reference_less rows) k + to_ℕ (object == k)
      ≡ count_of rows k
count_of-less object k rows o u e =
    ap (λ n. n + to_ℕ (object == k))
      (count_of-update (is_referenced object) one_reference_less rows k (λ o. refl))
    ∙ elim (Option-cases (find_where (object_has_id k) rows)) [
      | inl n ↦ rw n (elim (Bool-cases (object == k)) [
        | inl t ↦ absurd (missing ((==_iff object k).0 t) n)
        | inr t ↦ rw t refl
      ])
      | inr (r, n) ↦
          rw n (less r (find_where-holds (object_has_id k) rows r n) (λ same. positive r same n))
    ]
  where
    row : find_where (object_has_id object) rows ≡ some o
    row = referenced_row object rows o u e

    missing : object ≡ k → find_where (object_has_id k) rows ≡ none → ⊥
    missing same n = cc (row, rw (← same) at n)

    positive :
        (r : FileObject)
        → object ≡ k
        → find_where (object_has_id k) rows ≡ some r
        → ltb 0 r.reference_count ≡ true
    positive r same n =
        let found : some o ≡ some r = sym row ∙ (rw (← same) at n) in
        let t : ltb 0 o.reference_count ≡ true =
          and_right (object_has_id object o) (ltb 0 o.reference_count)
            (find_where-holds (is_referenced object) rows o e) in
        let count : count_found (some o) ≡ count_found (some r) = ap count_found found in
        rw (← count) t

    less :
        (r : FileObject)
        → (r.id == k) ≡ true
        → (object ≡ k → ltb 0 r.reference_count ≡ true)
        → (if is_referenced object r then one_reference_less r else r).reference_count
            + to_ℕ (object == k)
          ≡ r.reference_count
    less r t positive = ground arith

module _ {E : Type 0} where
  -- The file is gone, and its content still counts it.
  pub delete_files-Balanced :
      (user file : ℕ) (f : UserFile) (s : Store E)
      → IsConsistent s
      → find_where (is_file user file deleted) s.user_files ≡ some f
      → Post
          (λ _ t. Balanced none f.object_id t)
          (λ _ _. Unit {0})
          (delete_files user file s).0
          (delete_files user file s).1
  unfolding delete_files
  delete_files-Balanced user file f s c e =
      elim (Bool-cases (
        ltb 0 (affected (is_file user file deleted) s.user_files)
        && is_some (find_where (shares_file file) s.shares))) [
          | inl t ↦ rw t tt
          | inr t ↦ rw t (record {
            object_ids = c.object_ids;
            object_hashes = c.object_hashes;
            file_ids =
                delete-Unique ◌==◌ ==_iff file_id (is_file user file deleted) s.user_files
                  c.file_ids;
            object_fresh = c.object_fresh;
            file_fresh = λ k later.
                find_where-delete_none ◌==◌ ==_iff file_id (file_has_id k)
                  (is_file user file deleted) s.user_files (c.file_fresh k later);
            counted = λ k. omega (
              arith,
              c.counted k,
              affected-delete ◌==◌ ==_iff file_id (file_of k) (is_file user file deleted)
                  s.user_files f c.file_ids one e,
            );
          })
        ]
    where
      of_id : (x : UserFile) → is_file user file deleted x ≡ true → x.id ≡ file
      of_id x h = (==_iff x.id file).0 (
          and_left (file_has_id file x) (x.user_id == user)
            (and_left (file_has_id file x && x.user_id == user) (has_status deleted x) h))

      one :
          (x y : UserFile)
          → is_file user file deleted x ≡ true
          → is_file user file deleted y ≡ true
          → x.id ≡ y.id
      one x y h k = of_id x h ∙ sym (of_id y k)

  -- The content does not count it any more.
  pub drop_reference-Balanced :
      (object : ℕ) (s : Store E)
      → Balanced none (some object) s
      → Post
          (λ _ t. IsConsistent t)
          (λ _ _. Unit {0})
          (drop_reference object s).0
          (drop_reference object s).1
  unfolding drop_reference
  drop_reference-Balanced object s c =
      rw (Post, returning-find_where (is_referenced object) one_reference_less s.objects)
        (elim (Option-cases (find_where (is_referenced object) s.objects)) [
          | inl e ↦ rw e tt
          | inr (o, e) ↦ rw e (record {
            object_ids =
                update-Unique ◌==◌ ==_iff object_id (is_referenced object) one_reference_less
                  s.objects (λ o. refl) c.object_ids;
            object_hashes =
                update-Unique str_eq eq_iff object_hash (is_referenced object) one_reference_less
                  s.objects (λ o. refl) c.object_hashes;
            file_ids = c.file_ids;
            object_fresh = λ k later.
                find_where-update_none ◌==◌ ==_iff object_id k (is_referenced object)
                  one_reference_less s.objects (λ o. refl) (c.object_fresh k later);
            file_fresh = c.file_fresh;
            counted =
                λ k. omega (arith, c.counted k, count_of-less object k s.objects o c.object_ids e);
          })
        ])

  -- A content that is deleted counts nothing.
  pub delete_objects-Balanced :
      (object : ℕ) (s : Store E) → IsConsistent s → IsConsistent (delete_objects object s).1
  unfolding delete_objects
  delete_objects-Balanced object s c =
      elim (Bool-cases (ltb 0 (affected (is_unreferenced object) s.objects))) [
        | inr t ↦ rw t c
        | inl t ↦ rw t (elim (Bool-cases (is_some (find_where (file_of object) s.user_files))) [
          | inl u ↦ rw u c
          | inr u ↦ rw u (record {
            object_ids =
                delete-Unique ◌==◌ ==_iff object_id (is_unreferenced object) s.objects c.object_ids;
            object_hashes =
                delete-Unique str_eq eq_iff object_hash (is_unreferenced object) s.objects
                  c.object_hashes;
            file_ids = c.file_ids;
            object_fresh = λ k later.
                find_where-delete_none ◌==◌ ==_iff object_id (object_has_id k)
                  (is_unreferenced object) s.objects (c.object_fresh k later);
            file_fresh = c.file_fresh;
            counted = λ k. omega (
              arith,
              c.counted k,
              count_of-delete (is_unreferenced object) s.objects k c.object_ids empty,
            );
          })
        ])
      ]
    where
      empty : (o : FileObject) → is_unreferenced object o ≡ true → o.reference_count ≡ 0
      empty o h =
          (==_iff o.reference_count 0).0
            (and_right (object_has_id object o) (o.reference_count == 0) h)
