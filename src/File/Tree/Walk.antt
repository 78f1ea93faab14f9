-- ===== src/File/Tree/Walk.antt =====
-- MoveFolder of internal/file/service.go: no folder comes to contain itself.
use cloud_box.Base.{
  ℕ, zero, suc, ◌≡◌, sym, ap, subst, ◌∙◌, false, Option, none, some, ◌==◌, inl, inr, Option-cases,
  Bool-cases, is_some,
}
use cloud_box.Fail.{ok, external, folder_not_found, folder_move_cycle, folder_already_exists}
use cloud_box.Exec.{World, raise, call, query}
use cloud_box.Exec.Works.{Post, Post-same}
use cloud_box.Exec.Ensures.{
  Ensures, bind-Ensures, call-Ensures, query-Ensures, pure-Ensures, raise-Ensures, if-Ensures,
  post-Ensures, ensures-Keeps,
}
use cloud_box.Sql.{find_where}
use cloud_box.File.Model.{Folder}
use cloud_box.File.Tables.{Store, folder_exists}
use cloud_box.File.Repository.Folders
use cloud_box.File.Repository.Folders.{
  is_folder, find_folder_by_id, list_folders, move_folders, scan_folder, place_taken,
}
use cloud_box.File.Service.{Setup}
use cloud_box.File.Service.Folders.{check_ancestors, is_itself, move_folder, is_other_named}
use cloud_box.File.Tree.Moves.{Free, elsewhere, moved-IsForest}
use cloud_box.File.Tree.{Contains, itself, above, IsForest, folder_row, parent_of}

module _ {E : Type 0} (user folder : ℕ) where
  abbrev pub Forest : Store E → Type 0
  Forest s = IsForest user s.folders

  abbrev Clear : Option ℕ → Store E → Type 0
  Clear parent s = Free user folder s.folders parent

  find_folder-Ensures :
      (id : ℕ) {P : Store E → Type 0}
      → Ensures P
          (find_folder_by_id user id)
          (λ d s. P s × (find_where (is_folder user id) s.folders ≡ some d))
          (λ _ s. P s)
  unfolding find_folder_by_id
  find_folder-Ensures id {P} = query-Ensures _ (λ s p. read s p) (λ _ s p. p)
    where
      read :
          (s : Store E)
          → P s
          → Post
              (λ d t. P t × (find_where (is_folder user id) t.folders ≡ some d))
              (λ _ t. P t)
              (scan_folder (find_where (is_folder user id) s.folders))
              s
      read s p = elim (Option-cases (find_where (is_folder user id) s.folders)) [
        | inl n ↦ rw n p
        | inr (d, n) ↦ rw n (p, n)
      ]

  -- A folder that is another one and whose parent is clear of the folder is clear itself.
  outside :
      (s : Store E) (id : ℕ) (d : Folder)
      → find_where (is_folder user id) s.folders ≡ some d
      → (d.id == folder) ≡ false
      → Clear d.parent_id s
      → ¬ Contains user s.folders folder id
  outside s id d e t clear (itself i same) =
      absurd
        (elsewhere user folder none 0 s.folders d.id t (folder_row user id s.folders d e ∙ same))
  outside s id d e t clear (above i q c found up inside) =
      (subst (λ o. Clear o s) (ap parent_of (sym e ∙ found) ∙ up) clear).1 inside

  -- A walk that ends without an error has met no folder that is to be moved.
  check_ancestors-Ensures :
      (fuel : ℕ) (parent : Option ℕ) {P : Store E → Type 0}
      → Ensures P
          (check_ancestors fuel user folder parent)
          (λ _ s. P s × Clear parent s)
          (λ _ s. P s)
  unfolding check_ancestors
  check_ancestors-Ensures fuel none = pure-Ensures tt (λ s p. (p, tt))
  check_ancestors-Ensures zero (some p) = raise-Ensures (external "walk not ended") (λ s k. k)
  check_ancestors-Ensures (suc fuel) (some p) {P} =
      bind-Ensures (find_folder_by_id user p) _ (find_folder-Ensures p) (λ d.
        if-Ensures (d.id == folder) (raise folder_move_cycle)
          (check_ancestors fuel user folder d.parent_id)
          (λ _. raise-Ensures folder_move_cycle (λ s k. k.0))
          (λ t.
            post-Ensures (check_ancestors fuel user folder d.parent_id)
              (λ _ s k. (k.0.0, ((d, k.0.1), outside s p d k.0.1 t k.1))) (λ _ s k. k.0)
              (check_ancestors-Ensures fuel d.parent_id)))

  -- The statement of MoveFolder.
  move_folders-Forest :
      (parent : Option ℕ) (s : Store E)
      → Forest s
      → Clear parent s
      → Forest (move_folders user folder parent s).1
  unfolding move_folders
  move_folders-Forest parent s forest clear =
      elim (Option-cases (find_where (is_folder user folder) s.folders)) [
        | inl n ↦ rw n forest
        | inr (d, n) ↦ elim (Bool-cases (place_taken user folder parent d.name s)) [
          | inl t ↦ rw (n, t) forest
          | inr t ↦ elim (Bool-cases (folder_exists parent s)) [
            | inl u ↦
                rw (n, t, u) (moved-IsForest user folder parent s.clock s.folders forest clear)
            | inr u ↦ rw (n, t, u) forest
          ]
        ]
      ]

  move_row-Ensures :
      (parent : Option ℕ)
      → Ensures
          (λ s. Forest s × Clear parent s)
          (Folders.move_folder user folder parent)
          (λ _ s. Forest s)
          (λ _ s. Forest s)
  unfolding Folders.move_folder
  move_row-Ensures parent =
      bind-Ensures {R = λ _. Forest} (call (move_folders user folder parent)) _
        (call-Ensures (move_folders user folder parent)
          (λ s k. Post-same Forest _ _ (move_folders-Forest parent s k.0 k.1)) (λ _ s k. k.0))
        (λ n.
          bind-Ensures {R = λ _. Forest} (query (λ s. ok n)) _
            (query-Ensures (λ s. ok n) (λ s f. f) (λ _ s f. f))
            (λ rows.
              if-Ensures (rows == 0) (raise folder_not_found) (find_folder_by_id user folder)
                (λ _. raise-Ensures folder_not_found (λ s f. f))
                (λ _. post-Ensures _ (λ _ s k. k.0) (λ _ s k. k) (find_folder-Ensures folder))))

module _ {E C : Type 0} (setup : Setup E C) where
  siblings-Ensures :
      (user : ℕ) (parent : Option ℕ) {P : Store E → Type 0}
      → Ensures P (list_folders setup.dialect user parent) (λ _ s. P s) (λ _ s. P s)
  unfolding list_folders
  siblings-Ensures user parent = query-Ensures _ (λ s p. p) (λ _ s p. p)

  move_folder-Ensures :
      (fuel user folder : ℕ) (parent : Option ℕ)
      → Ensures
          (Forest user folder)
          (move_folder setup fuel user folder parent)
          (λ _ s. Forest user folder s)
          (λ _ s. Forest user folder s)
  unfolding move_folder
  move_folder-Ensures fuel user folder parent =
      bind-Ensures (find_folder_by_id user folder) _ (find_folder-Ensures user folder folder) (λ d.
        if-Ensures (is_itself folder parent) (raise folder_move_cycle) _
          (λ _. raise-Ensures folder_move_cycle (λ s k. k.0))
          (λ _.
            bind-Ensures (check_ancestors fuel user folder parent) _
              (post-Ensures _ (λ _ s k. (k.0.0, k.1)) (λ _ s k. k.0)
                (check_ancestors-Ensures user folder fuel parent))
              (λ _.
                bind-Ensures (list_folders setup.dialect user parent) _
                  (post-Ensures _ (λ _ s k. k) (λ _ s k. k.0) (siblings-Ensures user parent))
                  (λ siblings.
                    if-Ensures (is_some (find_where (is_other_named d.id d.name) siblings))
                      (raise folder_already_exists) (Folders.move_folder user folder parent)
                      (λ _. raise-Ensures folder_already_exists (λ s k. k.0))
                      (λ _. move_row-Ensures user folder parent)))))

  -- Whatever fails in it: if every folder of the user is below a root, so that none contains itself,
  -- this is so after MoveFolder too.
  pub move_folder-IsForest :
      (fuel user folder : ℕ) (parent : Option ℕ) (w : World (Store E))
      → IsForest user (w.store).folders
      → IsForest user (((move_folder setup fuel user folder parent w).1).store).folders
  move_folder-IsForest fuel user folder parent w forest =
      (ensures-Keeps _ (move_folder-Ensures fuel user folder parent)).at w forest
