-- ===== src/File/Tree/Sizes.antt =====
-- The sizes of folders that the recursive query of ListFolders in internal/file/repository.go sums.
use cloud_box.Base.{
  ℕ, suc, zero, ◌+◌, subst, ◌≡◌, ◌≢◌, ◌⊎◌, refl, ap, true, false, ◌&&◌, ◌==◌, ==_iff, Option, none,
  some, arith, List, [], ◌∷◌, All, All-map, inl, inr, Bool-cases, and_left, and_right,
}
use cloud_box.Sql.{select_where}
use cloud_box.File.Model.{UserFile, Folder, FileStatus, active, deleted, is_active}
use cloud_box.File.Tables.{sum_of, refers}
use cloud_box.File.Repository.Files.{has_status}
use cloud_box.File.Repository.Folders.{subtree_size, own_size, is_child, file_refers}

-- The sum of the sizes of the files of a list that are active, of the user and in the folder.
pub data FilesIn (user folder : ℕ) : List UserFile → ℕ → Type 0 where
  no_file : FilesIn user folder [] 0
  counted :
      (f : UserFile) (files : List UserFile) (n : ℕ)
      → f.user_id ≡ user
      → f.parent_id ≡ some folder
      → f.status ≡ active
      → FilesIn user folder files n
      → FilesIn user folder (f ∷ files) (f.size + n)
  passed :
      (f : UserFile) (files : List UserFile) (n : ℕ)
      → ((f.user_id ≢ user) ⊎ ((f.parent_id ≢ some folder) ⊎ (f.status ≢ active)))
      → FilesIn user folder files n
      → FilesIn user folder (f ∷ files) n

mutual
  -- The size of all that is in a folder and in the folders of the user below it, to any depth.
  pub data TreeSize (user : ℕ) (folders : List Folder) (files : List UserFile)
      : ℕ → ℕ → Type 0 where
    tree :
        (folder own inner : ℕ)
        → FilesIn user folder files own
        → InnerSize user folders files folder folders inner
        → TreeSize user folders files folder (own + inner)

  -- The sum of the sizes of those folders of a list that stand in a folder.
  pub data InnerSize (user : ℕ) (folders : List Folder) (files : List UserFile)
      : ℕ → List Folder → ℕ → Type 0 where
    no_folder : (folder : ℕ) → InnerSize user folders files folder [] 0
    child :
        (folder : ℕ) (d : Folder) (ds : List Folder) (size rest : ℕ)
        → d.user_id ≡ user
        → d.parent_id ≡ some folder
        → TreeSize user folders files d.id size
        → InnerSize user folders files folder ds rest
        → InnerSize user folders files folder (d ∷ ds) (size + rest)
    other :
        (folder : ℕ) (d : Folder) (ds : List Folder) (rest : ℕ)
        → ((d.user_id ≢ user) ⊎ (d.parent_id ≢ some folder))
        → InnerSize user folders files folder ds rest
        → InnerSize user folders files folder (d ∷ ds) rest

pub refers-some : (o : Option ℕ) (id : ℕ) → refers o id ≡ true → o ≡ some id
refers-some none id t = cc
refers-some (some k) id t = ap some ((==_iff k id).0 t)

refers-other : (o : Option ℕ) (id : ℕ) → refers o id ≡ false → o ≢ some id
refers-other o id t e = cc (rw e at t, (==_iff id id).1 refl)

module _ (user : ℕ) where
  is_active-active : (t : FileStatus) → is_active t ≡ true → t ≡ active
  is_active-active active h = refl
  is_active-active deleted h = cc

  same_user : (k : ℕ) → (k == user) ≡ true → k ≡ user
  same_user k t = (==_iff k user).0 t

  apart_user : (k : ℕ) → (k == user) ≡ false → k ≢ user
  apart_user k t e = cc (t, (==_iff k user).1 e)

  why_passed :
      (folder : ℕ) (f : UserFile)
      → ((file_refers folder f && f.user_id == user) && has_status active f) ≡ false
      → ((f.user_id ≢ user) ⊎ ((f.parent_id ≢ some folder) ⊎ (f.status ≢ active)))
  why_passed folder f t = elim (Bool-cases (refers f.parent_id folder)) [
    | inr r ↦ inr (inl (refers-other f.parent_id folder r))
    | inl r ↦ elim (Bool-cases (f.user_id == user)) [
      | inr u ↦ inl (apart_user f.user_id u)
      | inl u ↦ inr (inr (λ a. cc (rw (r, u) at t, ap is_active a)))
    ]
  ]

  own_size-FilesIn :
      (folder : ℕ) (files : List UserFile) → FilesIn user folder files (own_size user files folder)
  unfolding select_where
  own_size-FilesIn folder [] = no_file
  own_size-FilesIn folder (f ∷ files) =
      elim (Bool-cases ((file_refers folder f && f.user_id == user) && has_status active f)) [
        | inl t ↦
            let left = and_left (file_refers folder f && f.user_id == user) _ t in
            rw t (
              counted f files _ (same_user f.user_id (and_right _ _ left))
                (refers-some f.parent_id folder (and_left _ _ left))
                (is_active-active f.status (and_right _ _ t)) (own_size-FilesIn folder files))
        | inr t ↦ rw t (passed f files _ (why_passed folder f t) (own_size-FilesIn folder files))
      ]

  module _ (folders : List Folder) (files : List UserFile) (size_of : Folder → ℕ) where
    inner_size :
        (folder : ℕ) (ds : List Folder)
        → All
            (λ d. TreeSize user folders files d.id (size_of d))
            (select_where (is_child user (some folder)) ds)
        → InnerSize user folders files folder ds
            (sum_of size_of (select_where (is_child user (some folder)) ds))
    unfolding select_where
    inner_size folder [] h = no_folder folder
    inner_size folder (d ∷ ds) h = elim (Bool-cases (d.user_id == user)) [
      | inr u ↦
          rw u
            (other folder d ds _ (inl (apart_user d.user_id u)) (inner_size folder ds (rw u at h)))
      | inl u ↦ elim (Bool-cases (refers d.parent_id folder)) [
        | inr r ↦
            rw (u, r)
              (other folder d ds _ (inr (refers-other d.parent_id folder r))
                (inner_size folder ds (rw (u, r) at h)))
        | inl r ↦
            let k = rw (u, r) at h in
            rw (u, r)
              (child folder d ds _ _ (same_user d.user_id u) (refers-some d.parent_id folder r) k.0
                (inner_size folder ds k.1))
      ]
    ]

  abbrev pub children : List Folder → ℕ → List Folder
  children folders id = select_where (is_child user (some id)) folders

  -- The folders below a folder end within such a depth.
  unfoldable pub EndsWithin : List Folder → ℕ → ℕ → Type 0
  EndsWithin folders zero id = children folders id ≡ []
  EndsWithin folders (suc n) id = All (λ d. EndsWithin folders n d.id) (children folders id)

  pub subtree_size-TreeSize :
      (folders : List Folder) (files : List UserFile) (n id : ℕ)
      → EndsWithin folders n id
      → TreeSize user folders files id (subtree_size n user folders files id)
  unfolding EndsWithin subtree_size
  subtree_size-TreeSize folders files zero id e =
      subst (TreeSize user folders files id) (omega arith) (
        tree id (own_size user files id) 0 (own_size-FilesIn id files)
          (rw e at (inner_size folders files (λ d. 0) id folders (rw e tt))))
  subtree_size-TreeSize folders files (suc n) id e =
      tree id (own_size user files id) _ (own_size-FilesIn id files) (
        inner_size folders files (λ d. subtree_size n user folders files d.id) id folders
          (All-map _ _ (λ d h. subtree_size-TreeSize folders files n d.id h) (children folders id)
            e))
