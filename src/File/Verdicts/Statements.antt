-- ===== src/File/Verdicts/Statements.antt =====
-- The statements of internal/file/repository.go on contents and scans leave a verdict alone.
use cloud_box.Base.{
  ℕ, ◌≡◌, refl, sym, ap, ◌∙◌, true, false, none, some, [], ◌∷◌, ◌++◌, ◌==◌, ==_iff, arith, inl, inr,
  Option-cases, Bool-cases, if◌then◌else◌, String, is_some, ltb, and_left,
}
use cloud_box.Sql.{find_where, delete_where, affected}
use cloud_box.Sql.Laws.{find_where-deleted, find_where-delete_other, affected-zero}
use cloud_box.Sql.Keys.{find_where-insert, find_where-delete_none, insert-Unique, delete-Unique}
use cloud_box.File.Model.{FileObject, FileScan, ScanStatus, pending}
use cloud_box.File.Tables.{Store, scan_of, object_has_id, file_of}
use cloud_box.File.Repository.Scans.{insert_scan}
use cloud_box.File.Repository.Objects.{insert_object, has_hash}
use cloud_box.File.Repository.Removal.{delete_objects, is_unreferenced}
use cloud_box.File.References.{object_id}
use cloud_box.File.References.Statements.{fresh-insert}
use cloud_box.File.References.Gone.{find_where-delete_key}
use cloud_box.File.Verdicts.{Standing, judged, gone, Settles}

scan_key : FileScan → ℕ
scan_key c = c.file_object_id

module _ {E : Type 0} (object : ℕ) (verdict : ScanStatus) where
  abbrev pub Settled : Store E → Type 0
  Settled s = Settles object verdict s.objects s.scans s.next_object_id

  -- A scan that is queued takes a content that has none.
  pub insert_scan-Settled : (k : ℕ) (s : Store E) → Settled s → Settled (insert_scan k s).1
  unfolding insert_scan
  insert_scan-Settled k s h = elim (Option-cases (find_where (scan_of k) s.scans)) [
    | inr (c, e) ↦ rw e h
    | inl e ↦ elim (Option-cases (find_where (object_has_id k) s.objects)) [
      | inl n ↦ rw (e, n) h
      | inr (o, n) ↦
          rw (e, n)
            (record {
              object_ids = h.object_ids;
              object_fresh = h.object_fresh;
              known = h.known;
              standing = stands o e n h.standing;
            })
    ]
  ]
    where
      row : FileScan
      row = record {
        file_object_id = k;
        status = pending;
        signature = none;
        scanned_at = none;
        created_at = s.clock;
        updated_at = s.clock;
      }

      inserted : find_where (scan_of object) (s.scans ++ row ∷ []) ≡ (
          if is_some (find_where (scan_of object) s.scans)
          then find_where (scan_of object) s.scans
          else if k == object
          then some row
          else none)
      inserted = find_where-insert ◌==◌ ==_iff scan_key (scan_of object) s.scans row

      stands :
          (o : FileObject)
          → find_where (scan_of k) s.scans ≡ none
          → find_where (object_has_id k) s.objects ≡ some o
          → Standing object verdict s.objects s.scans
          → Standing object verdict s.objects (s.scans ++ row ∷ [])
      stands o e n (judged c f t) = judged c (inserted ∙ rw f refl) t
      stands o e n (gone f m) = gone f (
          inserted
          ∙ rw m (elim (Bool-cases (k == object)) [
            | inl t ↦ absurd (apart ((==_iff k object).0 t))
            | inr t ↦ rw t refl
          ]))
        where
          apart : k ≡ object → ⊥
          apart same = cc (n, f, ap (λ i. find_where (object_has_id i) s.objects) same)

  -- A new content is another one.
  pub insert_object-Settled :
      (hash path : String) (size : ℕ) (type : String) (s : Store E)
      → Settled s
      → Settled (insert_object hash path size type s).1
  unfolding insert_object
  insert_object-Settled hash path size type s h =
      elim (Option-cases (find_where (has_hash hash) s.objects)) [
        | inr (o, e) ↦ rw e h
        | inl e ↦ rw e (record {
          object_ids =
              insert-Unique ◌==◌ ==_iff object_id s.objects row
                (h.object_fresh s.next_object_id (omega arith)) h.object_ids;
          object_fresh = fresh-insert object_id s.objects row s.next_object_id h.object_fresh refl;
          known = omega (arith, h.known);
          standing = stands h.standing;
        })
      ]
    where
      row : FileObject
      row = record {
        id = s.next_object_id;
        file_hash = hash;
        storage_path = path;
        size = size;
        content_type = type;
        reference_count = 0;
        created_at = s.clock;
      }

      other : (s.next_object_id == object) ≡ false
      other = ground (arith, h.known)

      stands :
          Standing object verdict s.objects s.scans
          → Standing object verdict (s.objects ++ row ∷ []) s.scans
      stands (judged c f t) = judged c f t
      stands (gone f m) =
          gone
            (find_where-insert ◌==◌ ==_iff object_id (object_has_id object) s.objects row
              ∙ rw (f, other) refl)
            m

  -- A content that is deleted takes its scan along.
  pub delete_objects-Settled : (k : ℕ) (s : Store E) → Settled s → Settled (delete_objects k s).1
  unfolding delete_objects
  delete_objects-Settled k s h = elim (Option-cases (find_where (is_unreferenced k) s.objects)) [
    | inl e ↦ rw (affected-zero (is_unreferenced k) s.objects e) h
    | inr (o, e) ↦ elim (Bool-cases (ltb 0 (affected (is_unreferenced k) s.objects))) [
      | inr t ↦ rw t h
      | inl t ↦ rw t (elim (Bool-cases (is_some (find_where (file_of k) s.user_files))) [
        | inl u ↦ rw u h
        | inr u ↦ rw u (record {
          object_ids =
              delete-Unique ◌==◌ ==_iff object_id (is_unreferenced k) s.objects h.object_ids;
          object_fresh = λ i later. kept i (h.object_fresh i later);
          known = h.known;
          standing = stands o e h.standing;
        })
      ])
    ]
  ]
    where
      of_key : (q : FileObject) → is_unreferenced k q ≡ true → q.id ≡ k
      of_key q t = (==_iff q.id k).0 (and_left (object_has_id k q) (q.reference_count == 0) t)

      kept :
          (i : ℕ)
          → find_where (object_has_id i) s.objects ≡ none
          → find_where (object_has_id i) (delete_where (is_unreferenced k) s.objects) ≡ none
      kept i e =
          find_where-delete_none ◌==◌ ==_iff object_id (object_has_id i) (is_unreferenced k)
            s.objects e

      lost :
          (o : FileObject)
          → find_where (is_unreferenced k) s.objects ≡ some o
          → k ≡ object
          → Standing object verdict
              (delete_where (is_unreferenced k) s.objects)
              (delete_where (scan_of k) s.scans)
      lost o e same =
          gone
            (find_where-delete_key object (is_unreferenced k) s.objects o h.object_ids
              (λ q t. of_key q t ∙ same) e)
            (ap (λ i. find_where (scan_of i) (delete_where (scan_of k) s.scans)) (sym same)
              ∙ find_where-deleted (scan_of k) s.scans)

      other :
          (k == object) ≡ false
          → find_where (scan_of object) (delete_where (scan_of k) s.scans)
            ≡ find_where (scan_of object) s.scans
      other t = find_where-delete_other (scan_of k) (scan_of object) s.scans (λ c u. ground arith)

      stands :
          (o : FileObject)
          → find_where (is_unreferenced k) s.objects ≡ some o
          → Standing object verdict s.objects s.scans
          → Standing object verdict
              (delete_where (is_unreferenced k) s.objects)
              (delete_where (scan_of k) s.scans)
      stands o e (judged c f t) = elim (Bool-cases (k == object)) [
        | inl same ↦ lost o e ((==_iff k object).0 same)
        | inr miss ↦ judged c (other miss ∙ f) t
      ]
      stands o e (gone f m) = elim (Bool-cases (k == object)) [
        | inl same ↦ lost o e ((==_iff k object).0 same)
        | inr miss ↦ gone (kept object f) (other miss ∙ m)
      ]
