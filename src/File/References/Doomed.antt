-- ===== src/File/References/Doomed.antt =====
-- The transaction of PermanentlyDeleteDeleted of internal/file/repository.go keeps the books.
use cloud_box.Base.{
  ℕ, ◌≡◌, refl, subst, ap, true, not, Option, none, some, ◌==◌, ==_iff, arith, inl, inr,
  Option-cases, ltb,
}
use cloud_box.Fail.{Result, ok, err, cause, file_not_found, file_object_not_found}
use cloud_box.Exec.{pure, raise, call, query, write, attempt}
use cloud_box.Exec.Works.{Post}
use cloud_box.Exec.Keeps.{attempt-Keeps, call-Keeps, query-Keeps, write-Keeps}
use cloud_box.Exec.Ensures.{
  Ensures, Anything, bind-Ensures, call-Ensures, query-Ensures, pure-Ensures, raise-Ensures,
  if-Ensures, kept-Ensures,
}
use cloud_box.Sql.Laws.{find_where-holds}
use cloud_box.Sql.{find_where}
use cloud_box.File.Model.{UserFile, FileObject, FilePreview, deleted}
use cloud_box.File.Tables.{Store, refers, scan_row, preview_of}
use cloud_box.File.Repository.Files.{is_file, joined_object, delete_shares}
use cloud_box.File.Repository.Removal.{
  delete_files, drop_reference, delete_objects, optional_preview, is_preview_not_found,
  delete_unreferenced, permanently_delete_body,
}
use cloud_box.File.Repository.Scans.{scan_file_preview}
use cloud_box.File.References.{Balanced, IsConsistent}
use cloud_box.File.References.Removal.{
  delete_files-Balanced, drop_reference-Balanced, delete_objects-Balanced,
}
use cloud_box.File.References.Transactions.{read-Ensures}

refers_eq : (p : Option ℕ) (k : ℕ) → refers p k ≡ true → p ≡ some k
refers_eq none k h = ground arith
refers_eq (some q) k h = ap some ((==_iff q k).0 h)

module _ {E : Type 0} where
  pub optional_preview-Ensures :
      {P : Store E → Type 0} (r : Result FilePreview)
      → Ensures P (optional_preview r) (λ _ s. P s) Anything
  optional_preview-Ensures (ok p) = pure-Ensures (some p) (λ s c. c)
  optional_preview-Ensures (err e) =
      if-Ensures (is_preview_not_found (cause e)) (pure none) (raise e)
        (λ _. pure-Ensures none (λ s c. c)) (λ _. raise-Ensures e (λ _ _. tt))

  -- What PermanentlyDeleteDeleted has read: the file, and its content.
  pub record Doomed (user file : ℕ) (o : FileObject) (s : Store E) : Type 0 where
    pub row : UserFile
    pub found : find_where (is_file user file deleted) s.user_files ≡ some row
    pub content : row.object_id ≡ some o.id

  delete_unreferenced-Ensures :
      (o : FileObject)
      → Ensures {S = Store E} IsConsistent (delete_unreferenced o) (λ _ s. IsConsistent s) Anything
  unfolding delete_unreferenced
  delete_unreferenced-Ensures o =
      bind-Ensures (attempt (query find)) _
        (kept-Ensures (attempt (query find)) (attempt-Keeps (query find) (query-Keeps find)))
        (λ r. bind-Ensures (optional_preview r) _ (optional_preview-Ensures r) (λ preview.
          bind-Ensures (call (delete_objects o.id)) _
            (kept-Ensures (call (delete_objects o.id))
              (call-Keeps (delete_objects o.id) (delete_objects-Balanced o.id)))
            (λ n. bind-Ensures _ _ (read-Ensures n) (λ rows.
              if-Ensures (not (rows == 1)) _ _
                (λ _. raise-Ensures file_object_not_found (λ _ _. tt))
                (λ _. pure-Ensures _ (λ s c. c.1))))))
    where
      find : Store E → Result FilePreview
      find s = scan_file_preview (find_where (preview_of o.id) s.previews)

  -- The first statement.
  pub scanned :
      (user file : ℕ) (s : Store E)
      → IsConsistent s
      → (f : Option UserFile) → find_where (is_file user file deleted) s.user_files ≡ f
      → Post
          (λ o t. IsConsistent t × Doomed user file o t)
          Anything
          (scan_row file_not_found (joined_object f s.objects))
          s
  scanned user file s c none e = tt
  scanned user file s c (some f) e =
      elim (Option-cases (find_where (λ o. refers f.object_id o.id) s.objects)) [
        | inl n ↦ rw n tt
        | inr (o, n) ↦ rw n (
          c,
          record {
            row = f;
            found = e;
            content =
                refers_eq f.object_id o.id
                  (find_where-holds (λ o. refers f.object_id o.id) s.objects o n);
          },
        )
      ]

  -- The deletion of the file.
  pub removed :
      (user file : ℕ) (o : FileObject) (s : Store E)
      → IsConsistent s × Doomed user file o s
      → Post
          (λ _ t. Balanced none (some o.id) t)
          (λ _ _. Unit {0})
          (delete_files user file s).0
          (delete_files user file s).1
  removed user file o s (c, d) =
      subst
        (λ k.
          Post (λ _ t. Balanced none k t) (λ _ _. Unit {0}) (delete_files user file s).0
            (delete_files user file s).1)
        d.content (delete_files-Balanced user file d.row s c d.found)

  pub permanently_delete_body-Ensures :
      (user file : ℕ)
      → Ensures {S = Store E} IsConsistent
          (permanently_delete_body user file)
          (λ _ s. IsConsistent s)
          Anything
  unfolding permanently_delete_body delete_shares
  permanently_delete_body-Ensures user file =
      bind-Ensures {R = λ o s. IsConsistent s × Doomed user file o s} (query find) _
        (query-Ensures find (λ s c. scanned user file s c _ refl) (λ _ _ _. tt))
        (λ o.
          bind-Ensures {R = λ _ s. IsConsistent s × Doomed user file o s}
            (write (delete_shares file)) _
            (kept-Ensures (write (delete_shares file)) (write-Keeps (delete_shares file) unshared))
            (λ _.
              bind-Ensures {R = λ _ s. Balanced none (some o.id) s} (call (delete_files user file))
                _ (call-Ensures (delete_files user file) (removed user file o) (λ _ _ _. tt))
                (λ n. bind-Ensures _ _ (read-Ensures n) (λ rows.
                  if-Ensures (not (rows == 1)) _ _ (λ _. raise-Ensures file_not_found (λ _ _. tt))
                    (λ _.
                      bind-Ensures (call (drop_reference o.id)) _
                        (call-Ensures (drop_reference o.id)
                          (λ s c. drop_reference-Balanced o.id s c.1) (λ _ _ _. tt))
                        (λ remaining.
                          if-Ensures (ltb 0 remaining) (pure none) (delete_unreferenced o)
                            (λ _. pure-Ensures none (λ s c. c))
                            (λ _. delete_unreferenced-Ensures o)))))))
    where
      find : Store E → Result FileObject
      find s =
          scan_row file_not_found
            (joined_object (find_where (is_file user file deleted) s.user_files) s.objects)

      unshared :
          {o : FileObject} (s : Store E)
          → IsConsistent s × Doomed user file o s
          → IsConsistent (delete_shares file s) × Doomed user file o (delete_shares file s)
      unshared s (c, d) = (c, record { row = d.row; found = d.found; content = d.content })
