-- ===== src/File/Quota.antt =====
-- The quota of CreateManyWithObjectsInFolder of internal/file/repository.go: it bounds the sizes of the
-- active files.
use cloud_box.Base.{
  ℕ, ◌+◌, ◌^◌, ◌%◌, ◌≤◌, ◌<◌, ◌≡◌, refl, ◌∙◌, Bool, false, not, ◌||◌, Option, some, List, [], ◌∷◌,
  ◌++◌, ◌==◌, arith, inl, inr, Bool-cases, if◌then◌else◌, String, length,
}
use cloud_box.Fail.{file_not_found, file_object_not_found, storage_quota_exceeded}
use cloud_box.Exec.{World, pure, raise, call}
use cloud_box.Exec.Works.{Post}
use cloud_box.Exec.Keeps.{call-Keeps, query-Keeps, bind-Keeps}
use cloud_box.Exec.Ensures.{
  Ensures, Anything, bind-Ensures, call-Ensures, query-Ensures, pure-Ensures, raise-Ensures,
  if-Ensures, kept-Ensures, transaction-Ensures, post-Ensures, pre-Ensures,
}
use cloud_box.Sql.{select_where}
use cloud_box.File.Model.{UserFile, FileObject, active}
use cloud_box.File.Tables.{Store, sum_of, file_references, object_has_id}
use cloud_box.File.Repository.Files.{belongs_to, insert_file, new_file}
use cloud_box.File.Repository.Objects.{
  insert_reference, add_reference, update_objects, one_reference_more, reference_files,
  create_many_body, create_many_with_objects_in_folder, active_size, over_quota,
}
use cloud_box.File.References.Transactions.{check_parent-Ensures}

-- The sum over the rows of a search, with one row more.
sum_of-insert :
    {A : Type 0} (p : A → Bool) (size : A → ℕ) (rows : List A) (r : A)
    → sum_of size (select_where p (rows ++ r ∷ []))
      ≡ sum_of size (select_where p rows) + (if p r then size r else 0)
unfolding select_where
sum_of-insert p size [] r = ground arith
sum_of-insert p size (q ∷ rows) r = ground (arith, sum_of-insert p size rows r)

abbrev pub sizes : List FileObject → ℕ
sizes = sum_of (λ o. o.size)

-- A sum that does not wrap is within what is left.
fits :
    (quota used additional : ℕ)
    → additional < 2 ^ 63
    → over_quota quota used additional ≡ false
    → used + additional ≤ quota
fits quota used additional small h = ground (arith, whole)
  where
    whole : additional % 2 ^ 64 ≡ additional
    whole = omega (arith, small)

module _ {E : Type 0} (user : ℕ) (quota : ℕ) where
  -- What there is and what is still to come are within the quota.
  Within : ℕ → Store E → Type 0
  Within more s = active_size user s + more ≤ quota

  insert_reference-Within :
      (parent : Option ℕ) (name : String) (o : FileObject) (more : ℕ) (s : Store E)
      → Within (o.size + more) s
      → Post
          (λ _. Within more)
          (λ _ _. Unit {0})
          (insert_reference user parent name o s).0
          (insert_reference user parent name o s).1
  unfolding insert_reference insert_file Within
  insert_reference-Within parent name o more s w = elim (Bool-cases (file_references row s)) [
    | inr t ↦ rw t tt
    | inl t ↦ rw t (omega (arith, w, added))
  ]
    where
      row : UserFile
      row = new_file user parent (some o.id) name o.storage_path o.size o.content_type

      placed : UserFile
      placed = record row { id = s.next_file_id; created_at = s.clock }

      added :
          sum_of (λ f. f.size) (select_where (belongs_to user active) (s.user_files ++ placed ∷ []))
          ≡ active_size user s + o.size
      added =
          sum_of-insert (belongs_to user active) (λ f. f.size) s.user_files placed ∙ ground arith

  add_reference-Within :
      (object more : ℕ)
      → Ensures {S = Store E} (Within more) (add_reference object) (λ _. Within more) Anything
  unfolding add_reference update_objects Within
  add_reference-Within object more = kept-Ensures _ (
      bind-Keeps _ _
        (call-Keeps (update_objects (object_has_id object) one_reference_more) (λ s w. w))
        (λ n. query-Keeps _))

  reference_files-Within :
      (parent : Option ℕ) (objects : List FileObject) (names : List String)
      → Ensures {S = Store E}
          (Within (sizes objects))
          (reference_files user parent objects names)
          (λ _ s. active_size user s ≤ quota)
          Anything
  unfolding reference_files Within
  reference_files-Within parent [] names = pure-Ensures [] (λ s w. omega (arith, w))
  reference_files-Within parent (o ∷ objects) [] = pure-Ensures [] (λ s w. omega (arith, w))
  reference_files-Within parent (o ∷ objects) (name ∷ names) =
      bind-Ensures {R = λ _. Within (sizes objects)} (call (insert_reference user parent name o)) _
        (call-Ensures (insert_reference user parent name o)
          (insert_reference-Within parent name o (sizes objects)) (λ _ _ _. tt))
        (λ f.
          bind-Ensures {R = λ _. Within (sizes objects)} (add_reference o.id) _
            (add_reference-Within o.id (sizes objects))
            (λ rows.
              if-Ensures (not (rows == 1)) (raise file_object_not_found) _
                (λ _. raise-Ensures file_object_not_found (λ _ _. tt))
                (λ _.
                  bind-Ensures {R = λ _ s. active_size user s ≤ quota}
                    (reference_files user parent objects names) (λ rest. pure (f ∷ rest))
                    (reference_files-Within parent objects names)
                    (λ rest. pure-Ensures (f ∷ rest) (λ s w. w)))))

  create_many_body-Within :
      (parent : Option ℕ) (objects : List FileObject) (names : List String)
      → sizes objects < 2 ^ 63
      → Ensures {S = Store E}
          (λ _. Unit {0})
          (create_many_body user parent objects names quota)
          (λ _ s. active_size user s ≤ quota)
          Anything
  unfolding create_many_body Within
  create_many_body-Within parent objects names small =
      bind-Ensures {R = λ _ _. Unit {0}} _ _ (query-Ensures _ (λ s c. c) (λ _ _ _. tt)) (λ n.
        bind-Ensures {R = λ _ _. Unit {0}} _ _ (query-Ensures _ (λ s c. c) (λ _ _ _. tt)) (λ users.
          if-Ensures (not (users == 1)) _ _ (λ _. raise-Ensures file_not_found (λ _ _. tt))
            (λ _. bind-Ensures {R = λ _ _. Unit {0}} _ _ (check_parent-Ensures user parent) (λ _.
              bind-Ensures {R = λ used s. used ≡ active_size user s} _ _
                (query-Ensures _ (λ s c. refl) (λ _ _ _. tt))
                (λ used.
                  if-Ensures (over_quota quota used (sizes objects)) _ _
                    (λ _. raise-Ensures storage_quota_exceeded (λ _ _. tt))
                    (λ t.
                      pre-Ensures _ _
                        (λ s e. omega (arith, e, fits quota used (sizes objects) small t))
                        (reference_files-Within parent objects names)))))))

  -- Whatever fails on the way: if CreateManyWithObjectsInFolder returns files, the active files of the
  -- user are within the quota that it was given, where the sizes to be added do not overflow an int64.
  pub create_many_with_objects_in_folder-quota :
      (parent : Option ℕ) (objects : List FileObject) (names : List String) (w : World (Store E))
      → sizes objects < 2 ^ 63
      → Post
          (λ _ s. active_size user s ≤ quota)
          Anything
          (create_many_with_objects_in_folder user parent objects names quota w).0
          (((create_many_with_objects_in_folder user parent objects names quota w).1).store)
  unfolding create_many_with_objects_in_folder
  create_many_with_objects_in_folder-quota parent objects names w small =
      (if-Ensures {P = λ _. Unit {0}} (length objects == 0 || not (length objects == length names))
          (raise file_object_not_found) _ (λ _. raise-Ensures file_object_not_found (λ _ _. tt))
          (λ _.
            post-Ensures _ (λ _ _ q. q) (λ _ _ _. tt)
              (transaction-Ensures _ (create_many_body-Within parent objects names small)))).at
        w tt
