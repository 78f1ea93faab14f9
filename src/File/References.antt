-- ===== src/File/References.antt =====
-- `reference_count` of internal/file/repository.go: what a content has beside the number of its files.
-- `Balanced more less` is the invariant in the middle of a transaction: one file of the content `more`
-- is not counted yet, one of `less` is gone but still counted.
pub mod Statements
pub mod Removal
pub mod Transactions
pub mod Doomed
pub mod History
pub mod Gone
pub mod LastFile
pub mod View
pub mod Refinement
use cloud_box.Base.{
  ℕ, ◌+◌, suc, ◌≤◌, ◌≡◌, refl, sym, ap, ◌∙◌, ◌↔◌, Bool, true, false, Option, none, some, List, [],
  ◌∷◌, ◌++◌, ◌==◌, ==_iff, str_eq, eq_iff, arith, inl, inr, Option-cases, Bool-cases, if◌then◌else◌,
  String,
}
use mathlib.Core.Option
use cloud_box.Sql.{find_where, update_where, delete_where, affected}
use cloud_box.Sql.Laws.{find_where-update, find_where-holds}
use cloud_box.Sql.Keys.{Unique, find_where-insert, find_where-delete_none}
use cloud_box.Sql.Counts.{to_ℕ}
use cloud_box.File.Model.{UserFile, FileObject}
use cloud_box.File.Tables.{Store, file_has_id, object_has_id, file_of, refers}

abbrev pub object_id : FileObject → ℕ
object_id o = o.id

abbrev pub object_hash : FileObject → String
object_hash o = o.file_hash

abbrev pub file_id : UserFile → ℕ
file_id f = f.id

-- The count of the content `k`, or 0.
abbrev pub count_found : Option FileObject → ℕ
count_found none = 0
count_found (some o) = o.reference_count

abbrev pub count_of : List FileObject → ℕ → ℕ
count_of objects k = count_found (find_where (object_has_id k) objects)

pub record Books (more less : Option ℕ) (objects : List FileObject) (files : List UserFile)
    (next_object next_file : ℕ) : Type 0 where
  pub object_ids : Unique ◌==◌ ==_iff object_id objects
  pub object_hashes : Unique str_eq eq_iff object_hash objects
  pub file_ids : Unique ◌==◌ ==_iff file_id files
  pub object_fresh : (k : ℕ) → next_object ≤ k → find_where (object_has_id k) objects ≡ none
  pub file_fresh : (k : ℕ) → next_file ≤ k → find_where (file_has_id k) files ≡ none
  pub counted :
      (k : ℕ)
      → affected (file_of k) files + to_ℕ (refers less k)
        ≡ count_of objects k + to_ℕ (refers more k)

abbrev pub Balanced : {E : Type 0} → Option ℕ → Option ℕ → Store E → Type 0
Balanced more less s = Books more less s.objects s.user_files s.next_object_id s.next_file_id

-- Every content counts the files that refer to it, so that no file refers to a content that is gone;
-- keys and hashes are unique, and the next ones are new.
abbrev pub IsConsistent : {E : Type 0} → Store E → Type 0
IsConsistent = Balanced none none

-- A change of contents that leaves their identifiers and hashes alone.
module _ (p : FileObject → Bool) (f : FileObject → FileObject) (rows : List FileObject) (k : ℕ)
    (kept : (o : FileObject) → (f o).id ≡ o.id) where
  pub count_of-update :
      count_of (update_where p f rows) k
      ≡ count_found (Option.map (λ o. if p o then f o else o) (find_where (object_has_id k) rows))
  count_of-update =
      ap count_found (find_where-update p (object_has_id k) f rows (λ o. ap (λ i. i == k) (kept o)))

-- A new content counts nothing.
pub count_of-insert :
    (rows : List FileObject) (o : FileObject) (k : ℕ)
    → o.reference_count ≡ 0
    → count_of (rows ++ o ∷ []) k ≡ count_of rows k
count_of-insert rows o k e =
    ap count_found (find_where-insert ◌==◌ ==_iff object_id (object_has_id k) rows o)
    ∙ elim (Option-cases (find_where (object_has_id k) rows)) [
      | inl n ↦ rw n (elim (Bool-cases (object_has_id k o)) [ inl t ↦ rw t e | inr t ↦ rw t refl ])
      | inr (r, n) ↦ rw n refl
    ]

-- A content that counts nothing is not missed.
pub count_of-delete :
    (p : FileObject → Bool) (rows : List FileObject) (k : ℕ)
    → Unique ◌==◌ ==_iff object_id rows
    → ((o : FileObject) → p o ≡ true → o.reference_count ≡ 0)
    → count_of (delete_where p rows) k ≡ count_of rows k
unfolding find_where delete_where
count_of-delete p [] k u empty = refl
count_of-delete p (o ∷ rows) k u empty = elim (Bool-cases (p o)) [
  | inl t ↦ elim (Bool-cases (o.id == k)) [
    | inl hit ↦
        let e : o.id ≡ k = (==_iff o.id k).0 hit in
        let gone : find_where (object_has_id o.id) (delete_where p rows) ≡ none =
          find_where-delete_none ◌==◌ ==_iff object_id (object_has_id o.id) p rows u.0 in
        let gone' : find_where (object_has_id k) (delete_where p rows) ≡ none = rw e at gone in
        rw (t, hit, gone') (sym (empty o t))
    | inr miss ↦ rw (t, miss) (count_of-delete p rows k u.1 empty)
  ]
  | inr t ↦ elim (Bool-cases (o.id == k)) [
    | inl hit ↦ rw (t, hit) refl
    | inr miss ↦ rw (t, miss) (count_of-delete p rows k u.1 empty)
  ]
]
