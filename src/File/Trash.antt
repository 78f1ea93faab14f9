-- ===== src/File/Trash.antt =====
-- SoftDelete and Restore of internal/file/repository.go: the trash.
use cloud_box.Base.{
  ℕ, suc, ◌≡◌, refl, sym, ap, ◌∙◌, Bool, true, false, ◌&&◌, Option, none, some, List, [], ◌∷◌, ◌==◌,
  arith, inl, inr, Bool-cases, Option-cases, ==_iff, sym, if◌then◌else◌, All, and_left, and_right,
}
use cloud_box.Fail.{ok}
use cloud_box.Exec.{works, call, query, next, transaction, write, pure, ◌>>=◌, ◌>>◌}
use cloud_box.Sql.{find_where, update_where, delete_where, affected}
use cloud_box.Sql.Laws.{affected-pos}
use cloud_box.Sql.Keys.{Unique, find_where-Unique}
use cloud_box.File.References.{file_id}
use cloud_box.Sql.Laws.{find_where-holds}
use cloud_box.File.Model.{UserFile, FileStatus, active, deleted, is_active, is_deleted}
use cloud_box.File.Tables.{Store, file_has_id}
use cloud_box.File.Repository.Files.{
  is_file, has_status, update_files, moved_to_trash, taken_from_trash,
  soft_delete_with_share_option, restore, delete_shares, shares_file,
}

-- A file has a time of deletion exactly when it is in the trash.
abbrev pub IsDated : UserFile → Type 0
IsDated f = is_active f.status ≡ true → f.deleted_at ≡ none

same_file :
    (f : UserFile) (status : FileStatus) (time : Option ℕ)
    → f.status ≡ status
    → f.deleted_at ≡ time
    → record f { status = status; deleted_at = time } ≡ f
same_file f status time p q =
    ap (λ x. record f { status = x; deleted_at = time }) (sym p)
    ∙ ap (λ t. record f { deleted_at = t }) (sym q)

active_status : (t : FileStatus) → is_active t ≡ true → t ≡ active
active_status active e = refl
active_status deleted e = ground arith

abbrev status_of : Option UserFile → FileStatus
status_of none = active
status_of (some f) = f.status

clash : (t : FileStatus) → is_active t ≡ true → is_deleted t ≡ true → ⊥
clash active a d = ground arith
clash deleted a d = ground arith

module _ {E : Type 0} (user file : ℕ) (s : Store E) where
  -- The two updates together.
  update_where-trash :
      (rows : List UserFile)
      → find_where (is_file user file deleted) rows ≡ none
      → All IsDated rows
      → update_where
          (is_file user file deleted)
          (taken_from_trash s)
          (update_where (is_file user file active) (moved_to_trash s) rows)
        ≡ rows
  unfolding update_where find_where
  update_where-trash [] e dated = refl
  update_where-trash (f ∷ rows) e dated = elim (Bool-cases (is_file user file active f)) [
    | inl t ↦
        let mine : (file_has_id file f && f.user_id == user) ≡ true =
          and_left _ (is_active f.status) t in
        let status : is_active f.status ≡ true =
          and_right (file_has_id file f && f.user_id == user) _ t in
        rw (t, mine)
          (ap (λ x. x ∷ both rows)
              (same_file f active none (active_status f.status status) (dated.0 status))
            ∙ ap (λ r. f ∷ r) (update_where-trash rows (ground arith) dated.1))
    | inr t ↦
        let rest : find_where (is_file user file deleted) rows ≡ none = ground arith in
        let other : is_file user file deleted f ≡ false = ground arith in
        rw (t, other) (ap (λ r. f ∷ r) (update_where-trash rows rest dated.1))
  ]
    where
      both : List UserFile → List UserFile
      both r =
          update_where (is_file user file deleted) (taken_from_trash s)
            (update_where (is_file user file active) (moved_to_trash s) r)

  hit :
      (f : UserFile)
      → find_where (is_file user file active) s.user_files ≡ some f
      → (affected (is_file user file active) s.user_files == 0) ≡ false
  hit f e = ground (arith, affected-pos (is_file user file active) s.user_files f e)

  -- The second statement meets what the first has changed.
  affected-trash :
      (rows : List UserFile)
      → find_where (is_file user file deleted) rows ≡ none
      → affected
          (is_file user file deleted)
          (update_where (is_file user file active) (moved_to_trash s) rows)
        ≡ affected (is_file user file active) rows
  unfolding update_where find_where affected
  affected-trash [] e = refl
  affected-trash (f ∷ rows) e = elim (Bool-cases (is_file user file active f)) [
    | inl t ↦
        let mine : (file_has_id file f && f.user_id == user) ≡ true =
          and_left _ (is_active f.status) t in
        rw (t, mine) (ap suc (affected-trash rows (ground arith)))
    | inr t ↦
        let rest : find_where (is_file user file deleted) rows ≡ none = ground arith in
        let other : is_file user file deleted f ≡ false = ground arith in
        rw (t, other) (affected-trash rows rest)
  ]

  -- A file that is active is not in the trash too.
  not_deleted :
      (f : UserFile)
      → Unique ◌==◌ ==_iff file_id s.user_files
      → find_where (is_file user file active) s.user_files ≡ some f
      → find_where (is_file user file deleted) s.user_files ≡ none
  not_deleted f u e = elim (Option-cases (find_where (is_file user file deleted) s.user_files)) [
    | inl n ↦ n
    | inr (g, n) ↦ absurd (apart g n)
  ]
    where
      row :
          (t : FileStatus) (h : UserFile)
          → find_where (is_file user file t) s.user_files ≡ some h
          → find_where (file_has_id file) s.user_files ≡ some h
      row t h found =
          let holds = find_where-holds (is_file user file t) s.user_files h found in
          let same : h.id ≡ file = (==_iff h.id file).0 (
            and_left (file_has_id file h) (h.user_id == user)
              (and_left (file_has_id file h && h.user_id == user) (has_status t h) holds)) in
          ap (λ k. find_where (file_has_id k) s.user_files) (sym same)
          ∙ find_where-Unique ◌==◌ ==_iff file_id (is_file user file t) s.user_files h u found

      apart : (g : UserFile) → find_where (is_file user file deleted) s.user_files ≡ some g → ⊥
      apart g n =
          let same : some f ≡ some g = sym (row active f e) ∙ row deleted g n in
          let mine : is_active f.status ≡ true =
            and_right (file_has_id file f && f.user_id == user) _
              (find_where-holds (is_file user file active) s.user_files f e) in
          let other : is_deleted g.status ≡ true =
            and_right (file_has_id file g && g.user_id == user) _
              (find_where-holds (is_file user file deleted) s.user_files g n) in
          both f.status (ap status_of same) mine (other)
        where
          both :
              (t : FileStatus) → t ≡ g.status → is_active t ≡ true → is_deleted g.status ≡ true → ⊥
          both t same a d = clash t a (ap is_deleted same ∙ d)

  -- Where no call fails, an active file that goes to the trash and is restored is the file that it
  -- was, and so is every other; its shares are revoked unless they are to be kept.
  pub restore-soft_delete :
      (keep : Bool) (f : UserFile)
      → find_where (is_file user file active) s.user_files ≡ some f
      → Unique ◌==◌ ==_iff file_id s.user_files
      → All IsDated s.user_files
      → (do soft_delete_with_share_option user file keep; restore user file) (works s) ≡ (
        ok tt,
        works (record s {
          shares = if keep then s.shares else delete_where (shares_file file) s.shares;
        }),
      )
  unfolding soft_delete_with_share_option restore transaction call query next write update_files
      delete_shares pure ◌>>=◌
  restore-soft_delete true f found u dated =
      let e = not_deleted f u found in
      rw
        (
          hit f found,
          affected-trash s.user_files e,
          hit f found,
          update_where-trash s.user_files e dated,
        )
        refl
  restore-soft_delete false f found u dated =
      let e = not_deleted f u found in
      rw
        (
          hit f found,
          affected-trash s.user_files e,
          hit f found,
          update_where-trash s.user_files e dated,
        )
        refl
