-- ===== src/File/References/Refinement.antt =====
-- PermanentlyDeleteDeleted of internal/file/repository.go refines its specification.
use cloud_box.Base.{ℕ, ◌≡◌, refl, sym, ap, subst, ◌∙◌, not, Option, none, some, ◌==◌, ltb, is_some}
use cloud_box.Fail.{Result, ok, file_not_found}
use cloud_box.Exec.{World, pure, call, query, write}
use cloud_box.Exec.Works.{Post}
use cloud_box.Exec.Ensures.{
  Ensures, Anything, bind-Ensures, call-Ensures, query-Ensures, pure-Ensures, raise-Ensures,
  if-Ensures, transaction-Ensures, post-Ensures, pre-Ensures,
}
use cloud_box.Sql.{find_where}
use cloud_box.File.Model.{FileObject, UnreferencedFileObject, deleted}
use cloud_box.File.Tables.{Store, scan_row}
use cloud_box.File.Repository.Files.{is_file, joined_object, delete_shares}
use cloud_box.File.Repository.Removal.{
  delete_files, drop_reference, delete_unreferenced, permanently_delete_body,
  permanently_delete_deleted,
}
use cloud_box.File.References.{IsConsistent, Balanced, count_of}
use cloud_box.File.References.Removal.{drop_reference-Balanced}
use cloud_box.File.References.Transactions.{read-Ensures}
use cloud_box.File.References.Doomed.{Doomed, scanned, removed}
use cloud_box.File.References.Gone.{Post-and, Post-three, Returned, delete_unreferenced-Gone}
use cloud_box.File.References.View.{
  view, remove_file, Frame, delete_objects-Frame, drop_reference-Frame, drop_reference-count,
  still_there, delete_files-Frame, view-Done,
}

module _ {E : Type 0} (user file : ℕ) (s0 : Store E) where
  Before : Store E → Type 0
  Before s = (s ≡ s0) × IsConsistent s

  -- Everything that the statements leave, on the way.
  Unshared : FileObject → Store E → Type 0
  Unshared o s =
      (s.user_files ≡ s0.user_files)
      × (s.objects ≡ s0.objects)
      × IsConsistent s
      × Doomed user file o s
      × Doomed user file o s0

  Rest : FileObject → Store E → Type 0
  Rest o s = Frame user file s0 o.id s × Doomed user file o s0

  unshared :
      {o : FileObject} (s : Store E)
      → Before s × (IsConsistent s × Doomed user file o s)
      → Unshared o (delete_shares file s)
  unfolding Before Unshared delete_shares
  unshared {o} s ((same, c), (c', d)) = (
    ap (λ t. t.user_files) same,
    ap (λ t. t.objects) same,
    c,
    record { row = d.row; found = d.found; content = d.content },
    subst (Doomed user file o) same d,
  )

  returned :
      (o : FileObject) (r : Option UnreferencedFileObject) (s : Store E)
      → Returned (Rest o) o r s
      → view s ≡ remove_file user file (view s0)
  unfolding Rest
  returned o none s k = absurd k
  returned o (some u) s (same, (f, d), g) =
      view-Done user file s0 o s d (f, ap is_some g.0 ∙ sym (ap is_some g.1))

  permanently_delete_body-view :
      Ensures Before
        (permanently_delete_body user file)
        (λ _ s. view s ≡ remove_file user file (view s0))
        Anything
  unfolding permanently_delete_body delete_shares write Before Unshared Rest
  permanently_delete_body-view =
      bind-Ensures {R = λ o s. Before s × (IsConsistent s × Doomed user file o s)} (query find) _
        (query-Ensures find
          (λ s k.
            Post-and Before (λ o t. IsConsistent t × Doomed user file o t) k (find s)
              (scanned user file s k.1 _ refl))
          (λ _ _ _. tt))
        (λ o.
          bind-Ensures {R = λ _ s. Unshared o s} (write (delete_shares file)) _
            (call-Ensures (λ s. (ok tt, delete_shares file s)) unshared (λ _ _ _. tt))
            (λ _.
              bind-Ensures
                {R = λ _ s.
                  Balanced none (some o.id) s × Frame user file s0 o.id s × Doomed user file o s0}
                (call (delete_files user file)) _
                (call-Ensures (delete_files user file)
                  (λ s k.
                    Post-three (λ _ t. Balanced none (some o.id) t) (λ _. Frame user file s0 o.id)
                      (λ _. Doomed user file o s0) (delete_files user file s).0 _
                      (removed user file o s (k.2, k.3))
                      (delete_files-Frame user file s0 o.id s k.0 k.1) k.4)
                  (λ _ _ _. tt))
                (λ n. bind-Ensures _ _ (read-Ensures n) (λ rows.
                  if-Ensures (not (rows == 1)) _ _ (λ _. raise-Ensures file_not_found (λ _ _. tt))
                    (λ _.
                      bind-Ensures
                        {R = λ m s. IsConsistent s × (m ≡ count_of s.objects o.id) × Rest o s}
                        (call (drop_reference o.id)) _
                        (call-Ensures (drop_reference o.id)
                          (λ s k.
                            Post-three (λ _ t. IsConsistent t) (λ m t. m ≡ count_of t.objects o.id)
                              (Rest o) (drop_reference o.id s).0 _
                              (drop_reference-Balanced o.id s k.1.0)
                              (drop_reference-count user file s0 o.id s k.1.0.object_ids)
                              (drop_reference-Frame user file s0 o.id s k.1.1, k.1.2))
                          (λ _ _ _. tt))
                        (λ m.
                          if-Ensures (ltb 0 m) (pure none) (delete_unreferenced o)
                            (λ t. pure-Ensures none (λ s k.
                              view-Done user file s0 o s k.2.1
                                (k.2.0, still_there user file s0 o.id m s k.0 k.1 t)))
                            (λ _.
                              post-Ensures (delete_unreferenced o) (returned o) (λ _ _ _. tt)
                                (pre-Ensures _ _ (λ s k. (k.0.object_ids, k.2))
                                  (delete_unreferenced-Gone o (Rest o) (λ s f.
                                    (delete_objects-Frame user file s0 o.id s f.0, f.1)))))))))))
    where
      find : Store E → Result FileObject
      find s =
          scan_row file_not_found
            (joined_object (find_where (is_file user file deleted) s.user_files) s.objects)

-- A call of PermanentlyDeleteDeleted, of which any statement may fail, refines the specification: with
-- an error nothing has changed; else, as to which files and which contents there are, it has done what
-- `remove_file` says, by which the content of the file stays if and only if another file refers to it.
pub permanently_delete_deleted-view :
    {E : Type 0} (user file : ℕ) (w : World (Store E))
    → IsConsistent w.store
    → Post
        (λ _ s. view s ≡ remove_file user file (view w.store))
        (λ _ s. s ≡ w.store)
        (permanently_delete_deleted user file w).0
        ((permanently_delete_deleted user file w).1).store
unfolding permanently_delete_deleted Before
permanently_delete_deleted-view user file w c =
    (post-Ensures _ (λ _ _ q. q) (λ _ _ q. q.0)
        (transaction-Ensures _ (permanently_delete_body-view user file w.store))).at
      w (refl, c)
