-- ===== src/File/Tree/Moves.antt =====
-- A folder that is moved below one that it does not contain: the folders stay a forest.
use cloud_box.Base.{
  ℕ, suc, ◌≡◌, refl, sym, ap, subst, ◌∙◌, false, Option, none, some, List, ◌==◌, ==_iff, arith, inl,
  inr, Option-cases, Bool-cases, if◌then◌else◌,
}
use mathlib.Core.Option
use cloud_box.Sql.{find_where, update_where}
use cloud_box.Sql.Laws.{find_where-update, find_where-holds}
use cloud_box.File.Model.{Folder}
use cloud_box.File.Repository.Folders.{is_folder}
use cloud_box.File.Tree.{Rooted, root, below, Contains, itself, above, IsForest, folder_row}

module _ (user folder : ℕ) (folders : List Folder) where
  -- The new parent is a folder of the user that the folder does not contain, or the root.
  abbrev pub Free : Option ℕ → Type 0
  Free none = Unit {0}
  Free (some p) =
      ((d : Folder) × (find_where (is_folder user p) folders ≡ some d))
      × ¬ Contains user folders folder p

module _ (user folder : ℕ) (parent : Option ℕ) (time : ℕ) (folders : List Folder) where
  abbrev pub moved : Folder → Folder
  moved d = record d { parent_id = parent; updated_at = time }

  abbrev pub after : List Folder
  after = update_where (is_folder user folder) moved folders

  found :
      (id : ℕ)
      → find_where (is_folder user id) after
        ≡ Option.map
            (λ d. if is_folder user folder d then moved d else d)
            (find_where (is_folder user id) folders)
  found id = find_where-update (is_folder user folder) (is_folder user id) moved folders (λ d. refl)

  found_other :
      (id : ℕ) (d : Folder)
      → find_where (is_folder user id) folders ≡ some d
      → (id ≡ folder → ⊥)
      → find_where (is_folder user id) after ≡ some d
  found_other id d e apart = found id ∙ rw (e, miss) refl
    where
      miss : is_folder user folder d ≡ false
      miss = ground (arith, folder_row user id folders d e, apart)

  found_folder :
      (d : Folder)
      → find_where (is_folder user folder) folders ≡ some d
      → find_where (is_folder user folder) after ≡ some (moved d)
  found_folder d e =
      found folder ∙ rw (e, find_where-holds (is_folder user folder) folders d e) refl

  -- What does not contain the folder on its way to the root stays where it is.
  stays :
      (id depth : ℕ)
      → Rooted user folders id depth
      → (Contains user folders folder id → ⊥)
      → Rooted user after id depth
  stays id depth (root i d e top) apart =
      root i d (found_other i d e (λ same. apart (itself i same))) top
  stays id depth (below i p n d e up r) apart =
      below i p n d (found_other i d e (λ same. apart (itself i same))) up
        (stays p n r (λ c. apart (above i p d e up c)))

  moved_down :
      (d : Folder)
      → find_where (is_folder user folder) folders ≡ some d
      → IsForest user folders
      → (q : Option ℕ) → parent ≡ q
      → Free user folder folders q
      → (depth : ℕ) × Rooted user after folder depth
  moved_down d e forest none at free = (0, root folder (moved d) (found_folder d e) at)
  moved_down d e forest (some p) at ((row, there), apart) =
      let (n, r) = forest p row there in
      (suc n, below folder p n (moved d) (found_folder d e) at (stays p n r apart))

  here :
      (id : ℕ) (d : Folder)
      → IsForest user folders
      → Free user folder folders parent
      → find_where (is_folder user id) folders ≡ some d
      → id ≡ folder
      → (n : ℕ) × Rooted user after id n
  here id d forest free e same =
      subst (λ k. (n : ℕ) × Rooted user after k n) (sym same)
        (moved_down d (ap (λ k. find_where (is_folder user k) folders) (sym same) ∙ e) forest parent
          refl free)

  pub elsewhere : (id : ℕ) → (id == folder) ≡ false → id ≡ folder → ⊥
  elsewhere id t same = ground (arith, same)

  rooted :
      (IsForest user folders)
      → Free user folder folders parent
      → (id depth : ℕ) → Rooted user folders id depth
      → (n : ℕ) × Rooted user after id n
  rooted forest free id depth (root i d e top) = elim (Bool-cases (i == folder)) [
    | inl t ↦ here i d forest free e ((==_iff i folder).0 t)
    | inr t ↦ (0, root i d (found_other i d e (elsewhere i t)) top)
  ]
  rooted forest free id depth (below i p n d e up r) = elim (Bool-cases (i == folder)) [
    | inl t ↦ here i d forest free e ((==_iff i folder).0 t)
    | inr t ↦
        let (m, q) = rooted forest free p n r in
        (suc m, below i p m d (found_other i d e (elsewhere i t)) up q)
  ]

  -- All folders of the user that are found were found before.
  pub moved-IsForest : IsForest user folders → Free user folder folders parent → IsForest user after
  moved-IsForest forest free id d e = elim (Option-cases (find_where (is_folder user id) folders)) [
    | inl n ↦ absurd (missing n)
    | inr (old, n) ↦ let (depth, r) = forest id old n in rooted forest free id depth r
  ]
    where
      missing : find_where (is_folder user id) folders ≡ none → ⊥
      missing n = let f = found id ∙ ap (Option.map _) n in cc (f, e)
