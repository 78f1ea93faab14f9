-- ===== src/File/References/Transactions.antt =====
-- The transactions of internal/file/repository.go keep the books, whatever fails in them.
use cloud_box.Base.{
  ℕ, ◌≡◌, refl, false, not, Option, none, some, List, [], ◌∷◌, ◌==◌, arith, String,
}
use cloud_box.Fail.{
  Error, Result, ok, err, file_not_found, file_object_not_found, folder_not_found,
  storage_quota_exceeded,
}
use cloud_box.Exec.{Exec, pure, raise, call, query, ◌>>=◌}
use cloud_box.Exec.Works.{Post}
use cloud_box.Exec.Ensures.{
  Ensures, Anything, bind-Ensures, call-Ensures, query-Ensures, pure-Ensures, raise-Ensures,
  if-Ensures, pre-Ensures,
}
use cloud_box.File.Model.{UserFile, FileObject}
use cloud_box.File.Tables.{Store, object_has_id}
use cloud_box.File.Repository.Files.{new_file, insert_file}
use cloud_box.File.Repository.Objects.{
  insert_reference, reference_file, add_reference, update_objects, one_reference_more,
  reference_files, check_parent, create_many_body, over_quota,
}
use cloud_box.File.References.{Balanced, IsConsistent}
use cloud_box.File.References.Statements.{insert_file-Balanced, add_reference-Balanced}

-- The error does not matter where a transaction rolls back.
Post-any :
    {S A : Type 0} (Q : A → S → Type 0) (F : Error → S → Type 0) (r : Result A × S)
    → Post Q F r.0 r.1
    → Post Q Anything r.0 r.1
Post-any Q F (ok a, t) q = q
Post-any Q F (err e, t) q = tt

some_rows : (n : ℕ) → (n == 0) ≡ false → n ≡ 0 → ⊥
some_rows n t e = ground arith

one_row : (n : ℕ) → not (n == 1) ≡ false → n ≡ 0 → ⊥
one_row n t e = ground arith

module _ {E : Type 0} where
  -- A read of a value that a call has given.
  pub read-Ensures :
      {A : Type 0} {P : Store E → Type 0} (a : A)
      → Ensures P (query (λ s. ok a)) (λ b s. (b ≡ a) × P s) Anything
  read-Ensures a = query-Ensures (λ s. ok a) (λ s p. (refl, p)) (λ _ _ _. tt)

  -- The count after an insertion.
  add_reference-Ensures :
      (object : ℕ)
      → Ensures {S = Store E}
          (Balanced (some object) none)
          (add_reference object)
          (λ n s. ¬ (n ≡ 0) → IsConsistent s)
          Anything
  unfolding add_reference update_objects
  add_reference-Ensures object =
      bind-Ensures (call (update_objects (object_has_id object) one_reference_more))
        (λ n. query (λ s. ok n)) counted (λ n. query-Ensures (λ s. ok n) (λ s k. k) (λ _ _ _. tt))
    where
      counted :
          Ensures {S = Store E}
            (Balanced (some object) none)
            (call (update_objects (object_has_id object) one_reference_more))
            (λ n s. ¬ (n ≡ 0) → IsConsistent s)
            Anything
      counted =
          call-Ensures (update_objects (object_has_id object) one_reference_more)
            (λ s b k. add_reference-Balanced object s b k) (λ _ _ _. tt)

  insert_reference-Ensures :
      (user : ℕ) (parent : Option ℕ) (name : String) (o : FileObject)
      → Ensures {S = Store E} IsConsistent
          (call (insert_reference user parent name o))
          (λ f s. Balanced (some o.id) none s)
          Anything
  unfolding insert_reference
  insert_reference-Ensures user parent name o =
      call-Ensures (insert_reference user parent name o)
        (λ s c.
          Post-any (λ _ t. Balanced (some o.id) none t) (λ _ t. t ≡ s) (insert_file row s)
            (insert_file-Balanced row s c))
        (λ _ _ _. tt)
    where
      row : UserFile
      row = new_file user parent (some o.id) name o.storage_path o.size o.content_type

  pub reference_file-Ensures :
      (user : ℕ) (parent : Option ℕ) (name : String) (o : FileObject)
      → Ensures {S = Store E} IsConsistent
          (reference_file user parent name o)
          (λ f s. IsConsistent s)
          Anything
  unfolding reference_file
  reference_file-Ensures user parent name o =
      bind-Ensures (call (insert_reference user parent name o)) _
        (insert_reference-Ensures user parent name o)
        (λ f. bind-Ensures (add_reference o.id) _ (add_reference-Ensures o.id) (λ rows.
          if-Ensures (rows == 0) (raise file_object_not_found) (pure f)
            (λ _. raise-Ensures file_object_not_found (λ _ _. tt))
            (λ t. pure-Ensures f (λ s k. k (λ e. some_rows rows t e)))))

  reference_files-Ensures :
      (user : ℕ) (parent : Option ℕ) (objects : List FileObject) (names : List String)
      → Ensures {S = Store E} IsConsistent
          (reference_files user parent objects names)
          (λ fs s. IsConsistent s)
          Anything
  unfolding reference_files
  reference_files-Ensures user parent [] names = pure-Ensures [] (λ s c. c)
  reference_files-Ensures user parent (o ∷ objects) [] = pure-Ensures [] (λ s c. c)
  reference_files-Ensures user parent (o ∷ objects) (name ∷ names) =
      bind-Ensures (call (insert_reference user parent name o)) _
        (insert_reference-Ensures user parent name o)
        (λ f. bind-Ensures (add_reference o.id) _ (add_reference-Ensures o.id) (λ rows.
          if-Ensures (not (rows == 1)) (raise file_object_not_found) (others f)
            (λ _. raise-Ensures file_object_not_found (λ _ _. tt))
            (λ t.
              pre-Ensures _ (others f) (λ s k. k (one_row rows t))
                (rest f (reference_files-Ensures user parent objects names)))))
    where
      others : UserFile → Exec (Store E) (List UserFile)
      others f = do fs ← reference_files user parent objects names; pure (f ∷ fs)

      rest :
          (f : UserFile)
          → Ensures
              (IsConsistent {E = E})
              (reference_files user parent objects names)
              (λ fs s. IsConsistent s)
              Anything
          → Ensures (IsConsistent {E = E}) (others f) (λ fs s. IsConsistent s) Anything
      rest f k =
          bind-Ensures (reference_files user parent objects names) (λ fs. pure (f ∷ fs)) k
            (λ fs. pure-Ensures (f ∷ fs) (λ s c. c))

  pub check_parent-Ensures :
      {P : Store E → Type 0} (user : ℕ) (parent : Option ℕ)
      → Ensures P (check_parent user parent) (λ _ s. P s) Anything
  check_parent-Ensures user none = pure-Ensures tt (λ s c. c)
  check_parent-Ensures {P} user (some p) =
      bind-Ensures _ _ (query-Ensures _ (λ s c. c) (λ _ _ _. tt)) (λ exists.
        if-Ensures (not exists) (raise folder_not_found) (pure tt)
          (λ _. raise-Ensures folder_not_found (λ _ _. tt)) (λ _. pure-Ensures tt (λ s c. c)))

  -- `reference_files` in its frame, with what the quota check has found.
  pub create_many_body-Ensures :
      (user : ℕ) (parent : Option ℕ) (objects : List FileObject) (names : List String) (quota : ℕ)
      → Ensures {S = Store E} IsConsistent
          (create_many_body user parent objects names quota)
          (λ fs s. IsConsistent s)
          Anything
  unfolding create_many_body
  create_many_body-Ensures user parent objects names quota =
      bind-Ensures _ _ (query-Ensures _ (λ s c. c) (λ _ _ _. tt)) (λ n.
        bind-Ensures _ _ (query-Ensures _ (λ s c. c) (λ _ _ _. tt)) (λ users.
          if-Ensures (not (users == 1)) _ _ (λ _. raise-Ensures file_not_found (λ _ _. tt))
            (λ _. bind-Ensures _ _ (check_parent-Ensures user parent) (λ _.
              bind-Ensures _ _ (query-Ensures _ (λ s c. c) (λ _ _ _. tt)) (λ used.
                if-Ensures (over_quota quota used _) _ _
                  (λ _. raise-Ensures storage_quota_exceeded (λ _ _. tt))
                  (λ _. reference_files-Ensures user parent objects names))))))
