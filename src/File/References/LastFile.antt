-- ===== src/File/References/LastFile.antt =====
-- What PermanentlyDeleteDeleted of internal/file/repository.go leaves, by its result. The service
-- deletes from the storage what the content that it returns has there.
use cloud_box.Base.{
  ℕ, ◌≡◌, refl, sym, subst, ap, ◌∙◌, not, ◌&&◌, Option, none, some, ◌==◌, ==_iff, inl, inr,
  Bool-cases, ltb, is_some,
}
use cloud_box.Fail.{Result, ok, err, file_not_found}
use cloud_box.Exec.{World, pure, call, query, write}
use cloud_box.Exec.Works.{Post}
use cloud_box.Exec.Keeps.{call-Keeps, write-Keeps}
use cloud_box.Exec.Ensures.{
  Ensures, Anything, bind-Ensures, call-Ensures, query-Ensures, pure-Ensures, raise-Ensures,
  if-Ensures, kept-Ensures, transaction-Ensures, post-Ensures, pre-Ensures,
}
use cloud_box.Sql.{find_where, affected}
use cloud_box.Sql.Laws.{find_where-deleted}
use cloud_box.Sql.Keys.{Unique, update-Unique}
use cloud_box.File.Model.{FileObject, UnreferencedFileObject, deleted}
use cloud_box.File.Tables.{Store, scan_row}
use cloud_box.File.Repository.Files.{is_file, shares_file, delete_shares, joined_object}
use cloud_box.File.Repository.Removal.{
  delete_files, drop_reference, delete_unreferenced, permanently_delete_body,
  permanently_delete_deleted, is_referenced, one_reference_less,
}
use cloud_box.File.References.{IsConsistent, object_id}
use cloud_box.File.References.Transactions.{read-Ensures}
use cloud_box.File.References.Gone.{Gone, Returned, delete_unreferenced-Gone, delete_objects-files}

module _ {E : Type 0} where
  -- The file is not in the trash of the user.
  abbrev pub Absent : ℕ → ℕ → Store E → Type 0
  Absent user file s = find_where (is_file user file deleted) s.user_files ≡ none

  abbrev pub Removed : ℕ → ℕ → Option UnreferencedFileObject → Store E → Type 0
  Removed user file none s = Absent user file s
  Removed user file (some u) s = Absent user file s × Gone u.object.id s

  -- The rest of the transaction, once the file is out of the table.
  Left : ℕ → ℕ → Store E → Type 0
  Left user file s = Unique ◌==◌ ==_iff object_id s.objects × Absent user file s

  delete_files-Left :
      (user file : ℕ) (s : Store E)
      → Unique ◌==◌ ==_iff object_id s.objects
      → Post
          (λ _. Left user file)
          (λ _ _. Unit {0})
          (delete_files user file s).0
          (delete_files user file s).1
  unfolding delete_files Left
  delete_files-Left user file s u =
      elim (Bool-cases (
        ltb 0 (affected (is_file user file deleted) s.user_files)
        && is_some (find_where (shares_file file) s.shares))) [
          | inl t ↦ rw t tt
          | inr t ↦ rw t (u, find_where-deleted (is_file user file deleted) s.user_files)
        ]

  drop_reference-Left :
      (user file object : ℕ) (s : Store E)
      → Left user file s
      → Left user file (drop_reference object s).1
  unfolding drop_reference Left
  drop_reference-Left user file object s (u, a) = (
    update-Unique ◌==◌ ==_iff object_id (is_referenced object) one_reference_less s.objects
        (λ o. refl) u,
    a,
  )

  permanently_delete_body-Removed :
      (user file : ℕ)
      → Ensures {S = Store E}
          (λ s. Unique ◌==◌ ==_iff object_id s.objects)
          (permanently_delete_body user file)
          (Removed user file)
          Anything
  unfolding permanently_delete_body delete_shares Left
  permanently_delete_body-Removed user file =
      bind-Ensures {R = λ _. ids} (query find) _ (query-Ensures find scanned (λ _ _ _. tt)) (λ o.
        bind-Ensures {R = λ _. ids} (write (delete_shares file)) _
          (kept-Ensures _ (write-Keeps (delete_shares file) (λ s u. u)))
          (λ _.
            bind-Ensures {R = λ _. Left user file} (call (delete_files user file)) _
              (call-Ensures (delete_files user file) (delete_files-Left user file) (λ _ _ _. tt))
              (λ n. bind-Ensures _ _ (read-Ensures n) (λ rows.
                if-Ensures (not (rows == 1)) _ _ (λ _. raise-Ensures file_not_found (λ _ _. tt))
                  (λ _.
                    bind-Ensures {R = λ _. Left user file} (call (drop_reference o.id)) _
                      (pre-Ensures _ _ (λ s k. k.1)
                        (kept-Ensures _
                          (call-Keeps (drop_reference o.id) (drop_reference-Left user file o.id))))
                      (λ remaining.
                        if-Ensures (ltb 0 remaining) (pure none) (delete_unreferenced o)
                          (λ _. pure-Ensures none (λ s k. k.1))
                          (λ _.
                            post-Ensures _ (removed o) (λ _ _ _. tt)
                              (delete_unreferenced-Gone o (Absent user file) (λ s a.
                                ap (find_where (is_file user file deleted))
                                  (delete_objects-files o.id s)
                                ∙ a)))))))))
    where
      removed :
          (o : FileObject) (r : Option UnreferencedFileObject) (s : Store E)
          → Returned (Absent user file) o r s
          → Removed user file r s
      removed o none s k = absurd k
      removed o (some u) s (same, a, g) = (a, subst (λ i. Gone i s) (sym same) g)

      ids : Store E → Type 0
      ids s = Unique ◌==◌ ==_iff object_id s.objects

      find : Store E → Result FileObject
      find s =
          scan_row file_not_found
            (joined_object (find_where (is_file user file deleted) s.user_files) s.objects)

      scanned : (s : Store E) → ids s → Post (λ _. ids) Anything (find s) s
      scanned s u = either (find s)
        where
          either : (r : Result FileObject) → Post (λ _. ids) Anything r s
          either (ok o) = u
          either (err e) = tt

  -- A call of PermanentlyDeleteDeleted, of which any statement may fail: with an error nothing has
  -- changed; else the file is out of the trash, and if a content is returned, that content and every
  -- reference to it are out of the tables.
  pub permanently_delete_deleted_lem :
      (user file : ℕ) (w : World (Store E))
      → IsConsistent w.store
      → Post
          (Removed user file)
          (λ _ s. s ≡ w.store)
          (permanently_delete_deleted user file w).0
          ((permanently_delete_deleted user file w).1).store
  unfolding permanently_delete_deleted
  permanently_delete_deleted_lem user file w c =
      (post-Ensures _ (λ _ _ q. q) (λ _ _ q. q.0)
          (transaction-Ensures {P = λ s. (s ≡ w.store) × Unique ◌==◌ ==_iff object_id s.objects} _
            (pre-Ensures _ _ (λ s k. k.1) (permanently_delete_body-Removed user file)))).at
        w (refl, c.object_ids)
