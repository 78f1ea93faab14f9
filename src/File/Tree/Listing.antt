-- ===== src/File/Tree/Listing.antt =====
-- ListFolders of internal/file/repository.go on a forest of folders.
use cloud_box.Base.{
  ℕ, zero, suc, ◌+◌, ◌≤◌, ◌⊎◌, ◌≡◌, refl, sym, ap, ◌∙◌, subst, Bool, true, Option, some, List, [],
  ◌∷◌, ◌==◌, ==_iff, arith, inl, inr, Bool-cases, length, Has, All, map, and_left, and_right,
}
use cloud_box.Fail.{ok}
use cloud_box.Exec.{works, query-works}
use cloud_box.Sql.{find_where, select_where, order_by, sort_insert}
use cloud_box.Sql.Keys.{Unique, Has-find_where, find_where-keyed}
use cloud_box.File.Model.{Folder}
use cloud_box.File.Tables.{Store, Dialect, stands_in, folder_has_id}
use cloud_box.File.Repository.Folders.{
  is_folder, is_child, with_size, name_before, list_folders, subtree_size,
}
use cloud_box.File.Tree.{Rooted, below, IsForest}
use cloud_box.File.Tree.Depth.{Rooted-length}
use cloud_box.File.Tree.Sizes.{TreeSize, EndsWithin, children, subtree_size-TreeSize, refers-some}

abbrev folder_id : Folder → ℕ
folder_id d = d.id

module _ {A : Type 0} where
  select_where-Has :
      (p : A → Bool) (rows : List A) (r : A)
      → Has r (select_where p rows)
      → (p r ≡ true) × Has r rows
  unfolding select_where
  select_where-Has p [] r h = absurd h
  select_where-Has p (q ∷ rows) r h = elim (Bool-cases (p q)) [
    | inr t ↦ let k = select_where-Has p rows r (rw t at h) in (k.0, inr k.1)
    | inl t ↦ elim (has_or (rw t at h)) [
      | inl e ↦ (ap p e ∙ t, inl e)
      | inr m ↦ let k = select_where-Has p rows r m in (k.0, inr k.1)
    ]
  ]
    where
      has_or : Has r (q ∷ select_where p rows) → (r ≡ q) ⊎ Has r (select_where p rows)
      has_or h = h

  no_elements : (xs : List A) → ((a : A) → Has a xs → ⊥) → xs ≡ []
  no_elements [] h = refl
  no_elements (a ∷ xs) h = absurd (h a (inl refl))

  All-elements : {P : A → Type 0} (xs : List A) → ((a : A) → Has a xs → P a) → All P xs
  All-elements [] h = tt
  All-elements (a ∷ xs) h = (h a (inl refl), All-elements xs (λ b m. h b (inr m)))

  All-sort_insert :
      (P : A → Type 0) (before : A → A → Bool) (a : A) (rows : List A)
      → P a
      → All P rows
      → All P (sort_insert before a rows)
  unfolding sort_insert
  All-sort_insert P before a [] p h = (p, tt)
  All-sort_insert P before a (q ∷ rows) p h = elim (Bool-cases (before a q)) [
    | inl t ↦ rw t (p, h)
    | inr t ↦ rw t (h.0, All-sort_insert P before a rows p h.1)
  ]

  All-order_by :
      (P : A → Type 0) (before : A → A → Bool) (rows : List A)
      → All P rows
      → All P (order_by before rows)
  unfolding order_by
  All-order_by P before [] h = tt
  All-order_by P before (a ∷ rows) h =
      All-sort_insert P before a (order_by before rows) h.0 (All-order_by P before rows h.1)

  All-map_of :
      {B : Type 0} (P : B → Type 0) (f : A → B) (rows : List A)
      → All (λ a. P (f a)) rows
      → All P (map f rows)
  All-map_of P f [] h = tt
  All-map_of P f (a ∷ rows) h = (h.0, All-map_of P f rows h.1)

module _ (user : ℕ) (folders : List Folder) (unique : Unique ◌==◌ ==_iff folder_id folders) where
  own_row :
      (d : Folder)
      → Has d folders
      → d.user_id ≡ user
      → find_where (is_folder user d.id) folders ≡ some d
  own_row d m u =
      find_where-keyed ◌==◌ ==_iff folder_id (is_folder user d.id) folders d unique
        (Has-find_where ◌==◌ ==_iff folder_id folders d unique m)
        (λ q t. (==_iff q.id d.id).0 (and_left (folder_has_id d.id q) (q.user_id == user) t))
        (rw ((==_iff d.id d.id).1 refl, (==_iff d.user_id user).1 u) refl)

  child_Rooted :
      (id depth : ℕ) (d : Folder)
      → Has d (children user folders id)
      → Rooted user folders id depth
      → Rooted user folders d.id (suc depth)
  child_Rooted id depth d m r =
      let k = select_where-Has (is_child user (some id)) folders d m in
      below d.id id depth d (own_row d k.1 ((==_iff d.user_id user).0 (and_left _ _ k.0)))
        (refers-some d.parent_id id (and_right _ _ k.0)) r

  -- Fuel that is not below what the depth leaves of the number of rows is enough.
  Rooted-EndsWithin :
      (n depth id : ℕ)
      → Rooted user folders id depth
      → length folders ≤ suc (n + depth)
      → EndsWithin user folders n id
  unfolding EndsWithin
  Rooted-EndsWithin zero depth id r le = no_elements (children user folders id) (λ d m.
      let deep = Rooted-length user folders d.id (suc depth) (child_Rooted id depth d m r) in
      omega (arith, deep, le))
  Rooted-EndsWithin (suc n) depth id r le = All-elements (children user folders id) (λ d m.
      Rooted-EndsWithin n (suc depth) d.id (child_Rooted id depth d m r) (omega (arith, le)))

-- Where the database works, the folders have different identifiers, and every folder of the user is
-- below a root, ListFolders returns folders of the user that stand in the one asked for, and the size
-- of each is that of all active files of the user in it and in the folders below it, to any depth.
pub list_folders_lem :
    {E : Type 0} (dialect : Dialect) (user : ℕ) (parent : Option ℕ) (s : Store E)
    → Unique ◌==◌ ==_iff folder_id s.folders
    → IsForest user s.folders
    → (rows : List Folder) × (list_folders dialect user parent (works s) ≡ (ok rows, works s))
      × All
          (λ d.
            (d.user_id ≡ user)
            × (stands_in parent d.parent_id ≡ true)
            × TreeSize user s.folders s.user_files d.id d.size)
          rows
unfolding list_folders
list_folders_lem dialect user parent s unique forest = (
  order_by (name_before dialect)
      (map (with_size s) (select_where (is_child user parent) s.folders)),
  query-works _ s,
  All-order_by _ (name_before dialect) _ (
      All-map_of _ (with_size s) _
        (All-elements (select_where (is_child user parent) s.folders) sized)),
)
  where
    sized :
        (d : Folder)
        → Has d (select_where (is_child user parent) s.folders)
        → (d.user_id ≡ user)
          × (stands_in parent d.parent_id ≡ true)
          × TreeSize user s.folders s.user_files d.id (with_size s d).size
    sized d m =
        let k = select_where-Has (is_child user parent) s.folders d m in
        let mine : d.user_id ≡ user =
          (==_iff d.user_id user).0 (and_left _ (stands_in parent d.parent_id) k.0) in
        let r = forest d.id d (own_row user s.folders unique d k.1 mine) in
        (
          mine,
          and_right (d.user_id == user) _ k.0,
          subst
              (λ u.
                TreeSize user s.folders s.user_files d.id
                  (subtree_size (length s.folders) u s.folders s.user_files d.id))
              (sym mine)
              (subtree_size-TreeSize user s.folders s.user_files (length s.folders) d.id (
                Rooted-EndsWithin user s.folders unique (length s.folders) r.0 d.id r.1
                  (omega arith))),
        )
