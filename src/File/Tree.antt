-- ===== src/File/Tree.antt =====
-- The folders of a user as a forest, and MoveFolder of internal/file/service.go on it: the walk to the
-- root ends, and no folder comes to contain itself.
pub mod Moves
pub mod Walk
pub mod Sizes
pub mod Depth
pub mod Listing
use cloud_box.Base.{
  ℕ, zero, suc, ◌+◌, ◌≤◌, ◌<◌, ◌≡◌, ◌⊎◌, refl, sym, ap, subst, ◌∙◌, Bool, true, false, not, ◌&&◌,
  Option, none, some, List, [], ◌∷◌, ◌==◌, ==_iff, arith, inl, inr, Option-cases, Bool-cases,
  if◌then◌else◌, is_some, and_left, and_right,
}
use mathlib.Core.Option
use cloud_box.Fail.{Error, Result, ok, err, folder_move_cycle}
use cloud_box.Exec.{World, Exec, works, pure, raise, call, query, next, ◌>>=◌, ◌>>◌}
use cloud_box.Sql.{find_where, update_where}
use cloud_box.Sql.Laws.{find_where-update, find_where-holds}
use cloud_box.File.Model.{Folder}
use cloud_box.File.Tables.{Store, folder_has_id}
use cloud_box.File.Repository.Folders.{is_folder, find_folder_by_id}
use cloud_box.File.Service.{Setup}
use cloud_box.File.Service.Folders.{check_ancestors}

module _ (user : ℕ) (folders : List Folder) where
  -- The folder of the user is `depth` steps below a root.
  pub data Rooted : ℕ → ℕ → Type 0 where
    root :
        (id : ℕ) (d : Folder)
        → find_where (is_folder user id) folders ≡ some d
        → d.parent_id ≡ none
        → Rooted id 0
    below :
        (id parent depth : ℕ) (d : Folder)
        → find_where (is_folder user id) folders ≡ some d
        → d.parent_id ≡ some parent
        → Rooted parent depth
        → Rooted id (suc depth)

  -- `folder` is the folder `id` or contains it.
  pub data Contains (folder : ℕ) : ℕ → Type 0 where
    itself : (id : ℕ) → id ≡ folder → Contains folder id
    above :
        (id parent : ℕ) (d : Folder)
        → find_where (is_folder user id) folders ≡ some d
        → d.parent_id ≡ some parent
        → Contains folder parent
        → Contains folder id

  -- Every folder of the user is below a root, so that none contains itself.
  abbrev pub IsForest : Type 0
  IsForest =
      (id : ℕ) (d : Folder)
      → find_where (is_folder user id) folders ≡ some d
      → (depth : ℕ) × Rooted id depth

-- The row of a search has the identifier searched for.
pub folder_row :
    (user id : ℕ) (folders : List Folder) (d : Folder)
    → find_where (is_folder user id) folders ≡ some d
    → d.id ≡ id
folder_row user id folders d e = (==_iff d.id id).0 (
    and_left (folder_has_id id d) (d.user_id == user)
      (find_where-holds (is_folder user id) folders d e))

abbrev pub parent_of : Option Folder → Option ℕ
parent_of none = none
parent_of (some d) = d.parent_id

module _ {E : Type 0} (user folder : ℕ) (s : Store E) where
  -- What the walk has found out, where all calls work.
  abbrev pub Decided : ℕ → Result (Unit {0}) × World (Store E) → Type 0
  Decided p r =
      ((r ≡ (err folder_move_cycle, works s)) × Contains user s.folders folder p)
      ⊎ ((r ≡ (ok tt, works s)) × ¬ Contains user s.folders folder p)

  hit :
      (id : ℕ) (d : Folder)
      → find_where (is_folder user id) s.folders ≡ some d
      → (d.id == folder) ≡ true
      → id ≡ folder
  hit id d e t = sym (folder_row user id s.folders d e) ∙ (==_iff d.id folder).0 t

  -- A folder that contains another one contains its parent.
  inner :
      (id parent : ℕ) (d : Folder)
      → find_where (is_folder user id) s.folders ≡ some d
      → (d.id == folder) ≡ false
      → d.parent_id ≡ some parent
      → Contains user s.folders folder id
      → Contains user s.folders folder parent
  inner id parent d e t up (itself i same) = absurd (miss (folder_row user id s.folders d e ∙ same))
    where
      miss : d.id ≡ folder → ⊥
      miss k = ground (arith, k)
  inner id parent d e t up (above i q c found up' inside) =
      subst (Contains user s.folders folder) (sym same) inside
    where
      same : parent ≡ q
      same =
          let eq : some parent ≡ some q = sym up ∙ ap parent_of (sym e ∙ found) ∙ up' in
          ground arith

  at_root :
      (id : ℕ) (d : Folder)
      → find_where (is_folder user id) s.folders ≡ some d
      → (d.id == folder) ≡ false
      → d.parent_id ≡ none
      → ¬ Contains user s.folders folder id
  at_root id d e t top (itself i same) = absurd (miss (folder_row user id s.folders d e ∙ same))
    where
      miss : d.id ≡ folder → ⊥
      miss k = ground (arith, k)
  at_root id d e t top (above i q c found up inside) =
      let eq : none ≡ some q = sym top ∙ ap parent_of (sym e ∙ found) ∙ up in cc

  -- If no call fails and the fuel is more than the depth of a folder, the walk from that folder ends:
  -- with the error for a cycle if the folder to be moved contains it, without one if not.
  pub check_ancestors_lem :
      (fuel p depth : ℕ)
      → Rooted user s.folders p depth
      → depth < fuel
      → Decided p (check_ancestors fuel user folder (some p) (works s))
  unfolding check_ancestors find_folder_by_id query call next pure raise ◌>>=◌
  check_ancestors_lem zero p depth r more = absurd (omega (arith, more))
  check_ancestors_lem (suc fuel) p depth (root id d e top) more =
      elim (Bool-cases (d.id == folder)) [
        | inl t ↦ rw (e, t) (inl (refl, itself id (hit id d e t)))
        | inr t ↦ rw (e, t, top) (inr (refl, at_root id d e t top))
      ]
  check_ancestors_lem (suc fuel) p depth (below id parent n d e up r) more =
      elim (Bool-cases (d.id == folder)) [
        | inl t ↦ rw (e, t) (inl (refl, itself id (hit id d e t)))
        | inr t ↦
            rw (e, t, up)
              (step id parent d e t up (check_ancestors_lem fuel parent n r (omega (arith, more))))
      ]
    where
      step :
          (id parent : ℕ) (d : Folder)
          → find_where (is_folder user id) s.folders ≡ some d
          → (d.id == folder) ≡ false
          → d.parent_id ≡ some parent
          → {r : Result (Unit {0}) × World (Store E)} → Decided parent r
          → Decided id r
      step id parent d e t up (inl (same, c)) = inl (same, above id parent d e up c)
      step id parent d e t up (inr (same, apart)) =
          inr (same, λ c. apart (inner id parent d e t up c))
