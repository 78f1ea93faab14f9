-- ===== src/File/History/Single.antt =====
-- What every single statement keeps, the transactions of internal/file/repository.go keep.
use cloud_box.Base.{ℕ, String, Option, none, some, [], ◌∷◌, not, ltb, List, ◌==◌}
use cloud_box.Fail.{
  cause, Result, ok, err, file_not_found, file_object_not_found, folder_not_found,
  storage_quota_exceeded,
}
use cloud_box.Exec.{call}
use cloud_box.Exec.Keeps.{
  Keeps, pure-Keeps, raise-Keeps, call-Keeps, query-Keeps, attempt-Keeps, if-Keeps, guard-Keeps,
  bind-Keeps, write-Keeps,
}
use cloud_box.Exec.Ensures.{transaction-Keeps, kept-Ensures}
use cloud_box.File.Model.{UserFile, FileObject, FilePreview}
use cloud_box.File.Tables.{Store}
use cloud_box.File.Repository.Files.{new_file, insert_file, delete_shares}
use cloud_box.File.Repository.Objects.{
  reference_file, reference_files, create_many_body, check_parent, insert_reference, add_reference,
  update_objects, one_reference_more, over_quota,
}
use cloud_box.File.Repository.Removal.{
  permanently_delete_body, delete_unreferenced, delete_files, drop_reference, delete_objects,
  optional_preview, is_preview_not_found,
}
use cloud_box.Exec.{transaction}
use cloud_box.File.Tables.{object_has_id}

module _ {E : Type 0} where
  -- The statements that stand in a transaction with others.
  pub record Single (P : Store E → Type 0) : Type 0 where
    pub inserts_file : (f : UserFile) (s : Store E) → P s → P (insert_file f s).1
    pub adds :
        (object : ℕ) (s : Store E)
        → P s
        → P (update_objects (object_has_id object) one_reference_more s).1
    pub unshares_one : (file : ℕ) (s : Store E) → P s → P (delete_shares file s)
    pub deletes_file : (user file : ℕ) (s : Store E) → P s → P (delete_files user file s).1
    pub drops : (object : ℕ) (s : Store E) → P s → P (drop_reference object s).1
    pub deletes_object : (object : ℕ) (s : Store E) → P s → P (delete_objects object s).1

module _ {E : Type 0} {P : Store E → Type 0} where
  reference-Keeps :
      Single P
      → (user : ℕ) (parent : Option ℕ) (name : String) (o : FileObject)
      → Keeps P (call (insert_reference user parent name o))
  unfolding insert_reference
  reference-Keeps u user parent name o =
      call-Keeps (insert_reference user parent name o) (
        u.inserts_file (new_file user parent (some o.id) name o.storage_path o.size o.content_type))

  add_reference-Keeps : Single P → (object : ℕ) → Keeps P (add_reference object)
  unfolding add_reference
  add_reference-Keeps u object = bind-Keeps _ _ (call-Keeps _ (u.adds object)) (λ n. query-Keeps _)

  pub reference_file-Keeps :
      Single P
      → (user : ℕ) (parent : Option ℕ) (name : String) (o : FileObject)
      → Keeps P (transaction (reference_file user parent name o))
  unfolding reference_file
  reference_file-Keeps u user parent name o = transaction-Keeps _ (
      kept-Ensures _ (
        bind-Keeps _ _ (reference-Keeps u user parent name o) (λ f.
          bind-Keeps _ _ (add_reference-Keeps u o.id)
            (λ rows. guard-Keeps (rows == 0) file_object_not_found _ (pure-Keeps f)))))

  reference_files-Keeps :
      Single P
      → (user : ℕ) (parent : Option ℕ) (objects : List FileObject) (names : List String)
      → Keeps P (reference_files user parent objects names)
  unfolding reference_files
  reference_files-Keeps u user parent [] names = pure-Keeps []
  reference_files-Keeps u user parent (o ∷ objects) [] = pure-Keeps []
  reference_files-Keeps u user parent (o ∷ objects) (name ∷ names) =
      bind-Keeps _ _ (reference-Keeps u user parent name o) (λ f.
        bind-Keeps _ _ (add_reference-Keeps u o.id) (λ rows.
          guard-Keeps (not (rows == 1)) file_object_not_found _ (
            bind-Keeps _ _ (reference_files-Keeps u user parent objects names)
              (λ rest. pure-Keeps (f ∷ rest)))))

  check_parent-Keeps : (user : ℕ) (parent : Option ℕ) → Keeps P (check_parent user parent)
  check_parent-Keeps user none = pure-Keeps tt
  check_parent-Keeps user (some p) =
      bind-Keeps _ _ (query-Keeps _)
        (λ exists. guard-Keeps (not exists) folder_not_found _ (pure-Keeps tt))

  pub create_many_body-Keeps :
      Single P
      → (user : ℕ) (parent : Option ℕ) (objects : List FileObject) (names : List String) (quota : ℕ)
      → Keeps P (transaction (create_many_body user parent objects names quota))
  unfolding create_many_body
  create_many_body-Keeps u user parent objects names quota = transaction-Keeps _ (
      kept-Ensures _ (
        bind-Keeps _ _ (query-Keeps _) (λ n. bind-Keeps _ _ (query-Keeps _) (λ users.
          guard-Keeps (not (users == 1)) file_not_found _ (
            bind-Keeps _ _ (check_parent-Keeps user parent) (λ _.
              bind-Keeps _ _ (query-Keeps _) (λ used.
                guard-Keeps (over_quota quota used _) storage_quota_exceeded _
                  (reference_files-Keeps u user parent objects names))))))))

  optional_preview-Keeps : (r : Result FilePreview) → Keeps P (optional_preview r)
  optional_preview-Keeps (ok p) = pure-Keeps (some p)
  optional_preview-Keeps (err e) =
      if-Keeps (is_preview_not_found (cause e)) _ _ (pure-Keeps none) (raise-Keeps e)

  pub permanently_delete_body-Keeps :
      Single P → (user file : ℕ) → Keeps P (transaction (permanently_delete_body user file))
  unfolding permanently_delete_body delete_unreferenced
  permanently_delete_body-Keeps u user file = transaction-Keeps _ (
      kept-Ensures _ (
        bind-Keeps _ _ (query-Keeps _) (λ o.
          bind-Keeps _ _ (write-Keeps (delete_shares file) (u.unshares_one file)) (λ _.
            bind-Keeps _ _ (call-Keeps _ (u.deletes_file user file)) (λ n.
              bind-Keeps _ _ (query-Keeps _) (λ rows.
                guard-Keeps (not (rows == 1)) file_not_found _ (
                  bind-Keeps _ _ (call-Keeps _ (u.drops o.id)) (λ remaining.
                    if-Keeps (ltb 0 remaining) _ _ (pure-Keeps none) (
                      bind-Keeps _ _ (attempt-Keeps _ (query-Keeps _)) (λ r.
                        bind-Keeps _ _ (optional_preview-Keeps r) (λ preview.
                          bind-Keeps _ _ (call-Keeps _ (u.deletes_object o.id)) (λ m.
                            bind-Keeps _ _ (query-Keeps _) (λ gone.
                              guard-Keeps (not (gone == 1)) file_object_not_found _
                                (pure-Keeps _))))))))))))))
