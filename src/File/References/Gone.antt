-- ===== src/File/References/Gone.antt =====
-- The end of PermanentlyDeleteDeleted of internal/file/repository.go, for the last file of a content: the
-- content that is returned is out of the tables.
use cloud_box.Base.{
  ℕ, ◌≡◌, ◌⊎◌, refl, sym, ap, ◌∙◌, Bool, true, false, not, Option, none, some, List, [], ◌∷◌, ◌==◌,
  ==_iff, arith, inl, inr, Option-cases, Bool-cases, ltb, and_left,
}
use cloud_box.Fail.{Result, ok, err, file_object_not_found}
use cloud_box.Exec.{call, query, attempt}
use cloud_box.Exec.Works.{Post}
use cloud_box.Exec.Keeps.{query-Keeps, attempt-Keeps}
use cloud_box.Exec.Ensures.{
  Ensures, Anything, bind-Ensures, call-Ensures, pure-Ensures, raise-Ensures, if-Ensures,
  kept-Ensures,
}
use cloud_box.Sql.{find_where, delete_where, affected}
use cloud_box.Sql.Laws.{affected-zero, affected-pos, find_where-narrow}
use cloud_box.Sql.Keys.{Unique, find_where-delete_none}
use cloud_box.File.Model.{FileObject, UnreferencedFileObject, FilePreview}
use cloud_box.File.Tables.{Store, file_of, object_has_id, preview_of}
use cloud_box.File.Repository.Scans.{scan_file_preview}
use cloud_box.File.Repository.Removal.{
  delete_objects, delete_unreferenced, is_unreferenced, optional_preview,
}
use cloud_box.File.References.{object_id}
use cloud_box.File.References.Doomed.{optional_preview-Ensures}
use cloud_box.File.References.Transactions.{read-Ensures}

-- The key of the row that a deletion meets is not left.
pub find_where-delete_key :
    (k : ℕ) (p : FileObject → Bool) (rows : List FileObject) (o : FileObject)
    → Unique ◌==◌ ==_iff object_id rows
    → ((q : FileObject) → p q ≡ true → q.id ≡ k)
    → find_where p rows ≡ some o
    → find_where (object_has_id k) (delete_where p rows) ≡ none
unfolding find_where delete_where
find_where-delete_key k p [] o u narrow e = refl
find_where-delete_key k p (q ∷ rows) o u narrow e = elim (Bool-cases (p q)) [
  | inl t ↦ rw t (
      ap (λ i. find_where (object_has_id i) (delete_where p rows)) (sym (narrow q t))
      ∙ find_where-delete_none ◌==◌ ==_iff object_id (object_has_id q.id) p rows u.0)
  | inr f ↦ elim (Bool-cases (q.id == k)) [
    | inr miss ↦ rw (f, miss) (find_where-delete_key k p rows o u.1 narrow (ground arith))
    | inl hit ↦ absurd (apart ((==_iff q.id k).0 hit) (ground arith))
  ]
]
  where
    apart : q.id ≡ k → find_where p rows ≡ some o → ⊥
    apart same found =
        let missing : find_where p rows ≡ none =
          find_where-narrow (object_has_id q.id) p rows u.0
            (λ r h. (==_iff r.id q.id).1 (narrow r h ∙ sym same)) in
        cc (missing, found)

pub Post-and :
    {S A : Type 0} (F : S → Type 0) (Q : A → S → Type 0) {s : S}
    → F s
    → (r : Result A) → Post Q Anything r s
    → Post (λ a t. F t × Q a t) Anything r s
Post-and F Q f (ok a) q = (f, q)
Post-and F Q f (err e) q = tt

pub Post-three :
    {S A : Type 0} (Q R : A → S → Type 0) (X : S → Type 0) (r : Result A) (s : S)
    → Post Q Anything r s
    → Post R Anything r s
    → X s
    → Post (λ a t. Q a t × R a t × X t) Anything r s
Post-three Q R X (ok a) s q k x = (q, k, x)
Post-three Q R X (err e) s q k x = tt

module _ {E : Type 0} where
  -- Neither the content nor a file of it is in the tables.
  abbrev pub Gone : ℕ → Store E → Type 0
  Gone object s =
      (find_where (object_has_id object) s.objects ≡ none)
      × (find_where (file_of object) s.user_files ≡ none)

  delete_objects-Gone :
      (object : ℕ) (s : Store E)
      → Unique ◌==◌ ==_iff object_id s.objects
      → Post
          (λ n t. (n ≡ 0) ⊎ Gone object t)
          (λ _ _. Unit {0})
          (delete_objects object s).0
          (delete_objects object s).1
  unfolding delete_objects
  delete_objects-Gone object s u =
      elim (Option-cases (find_where (is_unreferenced object) s.objects)) [
        | inl e ↦ rw (affected-zero (is_unreferenced object) s.objects e) (inl refl)
        | inr (o, e) ↦
            rw (positive o e) (elim (Option-cases (find_where (file_of object) s.user_files)) [
              | inr (f, n) ↦ rw n tt
              | inl n ↦ rw n (inr (gone o e, n))
            ])
      ]
    where
      positive :
          (o : FileObject)
          → find_where (is_unreferenced object) s.objects ≡ some o
          → ltb 0 (affected (is_unreferenced object) s.objects) ≡ true
      positive o e = ground (arith, affected-pos (is_unreferenced object) s.objects o e)

      gone :
          (o : FileObject)
          → find_where (is_unreferenced object) s.objects ≡ some o
          → find_where (object_has_id object) (delete_where (is_unreferenced object) s.objects)
            ≡ none
      gone o e =
          find_where-delete_key object (is_unreferenced object) s.objects o u
            (λ q h.
              (==_iff q.id object).0 (and_left (object_has_id object q) (q.reference_count == 0) h))
            e

  -- The content is returned, and gone.
  abbrev pub Returned :
      (Store E → Type 0) → FileObject → Option UnreferencedFileObject → Store E → Type 0
  Returned F o none s = ⊥
  Returned F o (some u) s = (u.object.id ≡ o.id) × F s × Gone o.id s

  -- The last statements, with `F` for what they leave alone.
  pub delete_unreferenced-Gone :
      (o : FileObject) (F : Store E → Type 0)
      → ((s : Store E) → F s → F (delete_objects o.id s).1)
      → Ensures {S = Store E}
          (λ s. Unique ◌==◌ ==_iff object_id s.objects × F s)
          (delete_unreferenced o)
          (Returned F o)
          Anything
  unfolding delete_unreferenced
  delete_unreferenced-Gone o F kept =
      bind-Ensures {R = λ _. Rest} (attempt (query find)) _
        (kept-Ensures (attempt (query find)) (attempt-Keeps (query find) (query-Keeps find)))
        (λ r.
          bind-Ensures {R = λ _. Rest} (optional_preview r) _ (optional_preview-Ensures r)
            (λ preview.
              bind-Ensures {R = λ n s. F s × ((n ≡ 0) ⊎ Gone o.id s)} (call (delete_objects o.id)) _
                (call-Ensures (delete_objects o.id)
                  (λ s k.
                    Post-and F (λ n t. (n ≡ 0) ⊎ Gone o.id t) (kept s k.1) (delete_objects o.id s).0
                      (delete_objects-Gone o.id s k.0))
                  (λ _ _ _. tt))
                (λ n. bind-Ensures _ _ (read-Ensures n) (λ rows.
                  if-Ensures (not (rows == 1)) _ _
                    (λ _. raise-Ensures file_object_not_found (λ _ _. tt))
                    (λ one. pure-Ensures _ (λ s k. (refl, k.1.0, settled n rows one k.0 k.1.1)))))))
    where
      Rest : Store E → Type 0
      Rest s = Unique ◌==◌ ==_iff object_id s.objects × F s

      find : Store E → Result FilePreview
      find s = scan_file_preview (find_where (preview_of o.id) s.previews)

      settled : {P : Type 0} (n rows : ℕ) → not (rows == 1) ≡ false → rows ≡ n → (n ≡ 0) ⊎ P → P
      settled n rows one same (inr p) = p
      settled n rows one same (inl zero) = absurd (ground arith)

  pub delete_objects-files :
      (object : ℕ) (s : Store E) → (delete_objects object s).1.user_files ≡ s.user_files
  unfolding delete_objects
  delete_objects-files object s = ground arith
