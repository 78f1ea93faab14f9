-- ===== src/File/Verdicts/Scanned.antt =====
-- ScanActiveFile of internal/file/service.go, when the calls of the database work.
use cloud_box.Base.{ℕ, ◌≡◌, refl, true, ◌&&◌, some, inl, inr, Option-cases, is_some}
use cloud_box.Fail.{Error, Result, ok, err, prefixed, file_not_found}
use cloud_box.Exec.{Exec, works}
use cloud_box.Exec.Works.{Works, Post, bind-Works, query-Works, on_error-Works, post-Works}
use cloud_box.Sql.{find_where}
use cloud_box.File.Model.{FileObject, active, is_active}
use cloud_box.File.Tables.{Store, file_has_id, scan_row}
use cloud_box.File.Repository.Files.{
  is_file, find_active_by_id, find_by_id_and_status, find_object_for_active_file, joined_object,
}
use cloud_box.File.Service.{Setup, ScanResult}
use cloud_box.File.Service.Scan.{scan_with, scan_active_file}
use cloud_box.File.Verdicts.Ends.{HasScan, is_idle, is_over}
use cloud_box.File.Verdicts.Begins.{
  Claim, IsScannable, create_pending_file_scan-Works, claim_file_scan-Works,
}
use cloud_box.File.Verdicts.Claimed.{claimed-Works}

-- Given an equation, not a state.
given-Works :
    {S A X : Type 0} {x y : X} {P : S → Type 0} {Q : A → S → Type 0} {F : Error → S → Type 0}
    (m : Exec S A)
    → (x ≡ y → Works P m Q F)
    → Works (λ s. P s × (x ≡ y)) m Q F
given-Works m k = record { at = λ s p. (k p.1).at s p.0 }

module _ {E C : Type 0} (setup : Setup E C) (scan : C → E → Result ScanResult × E) (user file : ℕ)
    (o : FileObject) where
  -- The active file has this content.
  abbrev pub HasContent : Store E → Type 0
  HasContent s =
      joined_object (find_where (λ f. file_has_id file f && is_active f.status) s.user_files)
        s.objects
      ≡ some o

  abbrev Ended : {A : Type 0} → A → Store E → Type 0
  Ended _ s = HasScan o.id is_over s

  scan_with-Works :
      Works
        (λ s.
          (is_some (find_where (is_file user file active) s.user_files) ≡ true)
          × HasContent s
          × IsScannable o.id s)
        (scan_with setup user file scan)
        Ended
        Ended
  unfolding find_active_by_id find_by_id_and_status find_object_for_active_file
  scan_with-Works =
      bind-Works {R = λ _ s. HasContent s × IsScannable o.id s} (find_active_by_id user file) _
        (query-Works _ active_file)
        (λ f.
          bind-Works {R = λ a s. IsScannable o.id s × (a ≡ o)} (find_object_for_active_file file) _
            (query-Works _ (λ s h. rw h.0 (h.1, refl)))
            (λ a. given-Works _ (λ same. rw same (
              bind-Works {R = λ _ s. HasScan o.id is_idle s} _ _
                (on_error-Works (prefixed "create file scan") _ (
                  post-Works _ (λ _ _ h. h) (λ _ _ h. absurd h)
                    (create_pending_file_scan-Works o.id)))
                (λ _.
                  bind-Works {R = λ c s. Claim o.id c.1 s} _ _
                    (on_error-Works (prefixed "claim file scan") _ (claim_file_scan-Works o.id))
                    (λ c. claimed-Works setup f.user_id f.id o f scan c.1))))))
    where
      active_file :
          (s : Store E)
          → (is_some (find_where (is_file user file active) s.user_files) ≡ true)
            × HasContent s
            × IsScannable o.id s
          → Post
              (λ _ s. HasContent s × IsScannable o.id s)
              Ended
              (scan_row file_not_found (find_where (is_file user file active) s.user_files))
              s
      active_file s h = elim (Option-cases (find_where (is_file user file active) s.user_files)) [
        | inl n ↦ absurd (cc (n, h.0))
        | inr (f, n) ↦ rw n (h.1, h.2)
      ]

  over : (r : Result (Unit {0})) (s : Store E) → Post Ended Ended r s → HasScan o.id is_over s
  over (ok u) s h = h
  over (err e) s h = h

  -- If the calls of the database work, there is a virus scanner, the file is active with a content,
  -- and the content has no scan yet or one that does not run, then ScanActiveFile leaves the content
  -- with one scan, which is over (clean, infected or failed), whatever the storage, the scanner and
  -- the job queue do.
  pub scan_active_file-HasScan :
      (s : Store E)
      → setup.virus_scanner ≡ some scan
      → is_some (find_where (is_file user file active) s.user_files) ≡ true
      → HasContent s
      → IsScannable o.id s
      → HasScan o.id is_over ((scan_active_file setup user file (works s)).1).store
  unfolding scan_active_file
  scan_active_file-HasScan s enabled found content scannable =
      over _ _ ((ends.at s (found, content, scannable)).1)
    where
      ends :
          Works
            (λ s.
              (is_some (find_where (is_file user file active) s.user_files) ≡ true)
              × HasContent s
              × IsScannable o.id s)
            (scan_active_file setup user file)
            Ended
            Ended
      ends = rw enabled (bind-Works _ _ (query-Works _ (λ s h. h)) (λ _. scan_with-Works))
