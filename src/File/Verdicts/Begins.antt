-- ===== src/File/Verdicts/Begins.antt =====
-- The statements of internal/file/repository.go by which a scan begins, when they work.
use cloud_box.Base.{
  ℕ, ◌≡◌, refl, Bool, true, false, not, ◌&&◌, none, some, ==_iff, if◌then◌else◌, [],
}
use cloud_box.Fail.{Error, Result, ok, err, file_scan_not_found, cause}
use cloud_box.Exec.{call}
use cloud_box.Exec.Works.{
  Works, Post, bind-Works, query-Works, call-Works, pure-Works, if-Works, attempt-Works, pre-Works,
  raise-Works,
}
use cloud_box.Sql.{select_where}
use cloud_box.Sql.Sole.{find_where-select_none, find_where-select, select_where-insert}
use cloud_box.File.Model.{FileScan, ScanStatus, pending, scanning, clean, infected, failed}
use cloud_box.File.Tables.{Store, scan_of, object_exists}
use cloud_box.File.Repository.Scans.{
  is_scanning, is_claimable, insert_scan, claimed_at, unclaimed, claim_file_scan,
  create_pending_file_scan, find_file_scan_by_object_id, is_scan_not_found,
}
use cloud_box.File.Verdicts.Ends.{HasScan, HasScan-map, update_scans-Works, is_idle, is_over}

module _ {E : Type 0} (object : ℕ) where
  find_file_scan-Works :
      (t : ScanStatus → Bool) (F : Error → Store E → Type 0)
      → Works {S = Store E}
          (HasScan object t)
          (find_file_scan_by_object_id object)
          (λ _ s. HasScan object t s)
          F
  unfolding find_file_scan_by_object_id
  find_file_scan-Works t F =
      query-Works _
        (λ s h. rw (find_where-select (scan_of object) (λ _. true) s.scans h.scan h.only) h)

  -- What ClaimFileScan has made of an idle scan, by its second result.
  abbrev pub Claim : Bool → Store E → Type 0
  Claim claimed s = if claimed then HasScan object is_scanning s else HasScan object is_over s

  pub claim_file_scan-Works :
      Works {S = Store E}
        (HasScan object is_idle)
        (claim_file_scan object)
        (λ a s. Claim a.1 s)
        (λ _ s. HasScan object is_over s)
  unfolding claim_file_scan
  claim_file_scan-Works =
      bind-Works _ _
        (attempt-Works _ (λ _ s. HasScan object is_over s)
          (update_scans-Works object is_claimable is_idle is_scanning claimed_at (λ _ _. refl)
            (λ _ _. refl)))
        decide
    where
      judged : (v : ScanStatus) → (is_idle v && not (is_claimable v)) ≡ true → is_over v ≡ true
      judged pending e = cc
      judged scanning e = cc
      judged clean e = refl
      judged infected e = refl
      judged failed e = refl

      decide :
          (r : Result FileScan)
          → Works {S = Store E}
              (Post
                (λ _ s. HasScan object is_scanning s)
                (λ e s.
                  (e ≡ file_scan_not_found)
                  × HasScan object (λ v. is_idle v && not (is_claimable v)) s)
                r)
              (unclaimed object r)
              (λ a s. Claim a.1 s)
              (λ _ s. HasScan object is_over s)
      decide (ok c) = pure-Works _ (λ _ h. h)
      decide (err e) =
          if-Works (is_scan_not_found (cause e)) _ _
            (λ _.
              pre-Works {P = λ s. HasScan object is_over s} _ _
                (λ _ h. HasScan-map object judged h.1)
                (bind-Works _ _ (find_file_scan-Works is_over _)
                  (λ c. pure-Works (c, false) (λ _ h. h))))
            (λ _. raise-Works e (λ _ h. HasScan-map object judged h.1))

-- The content can be scanned: it has no scan and is there, or it has one scan that does not run.
pub data IsScannable {E : Type 0} (object : ℕ) (s : Store E) : Type 0 where
  unscanned :
      select_where (scan_of object) s.scans ≡ []
      → object_exists (some object) s ≡ true
      → IsScannable object s
  scanned : HasScan object is_idle s → IsScannable object s

module _ {E : Type 0} (object : ℕ) where
  insert_scan-Works :
      Works {S = Store E}
        (λ s. IsScannable object s)
        (call (insert_scan object))
        (λ _ s. HasScan object is_idle s)
        (λ _ _. ⊥)
  unfolding insert_scan
  insert_scan-Works = call-Works _ step
    where
      step :
          (s : Store E)
          → IsScannable object s
          → Post
              (λ _ s. HasScan object is_idle s)
              (λ _ _. ⊥)
              (insert_scan object s).0
              (insert_scan object s).1
      step s (scanned h) =
          rw (find_where-select (scan_of object) (λ _. true) s.scans h.scan h.only) h
      step s (unscanned e known) =
          rw (find_where-select_none (scan_of object) (λ _. true) s.scans e, known)
            (record {
              scan = record {
                file_object_id = object;
                status = pending;
                signature = none;
                scanned_at = none;
                created_at = s.clock;
                updated_at = s.clock;
              };
              only =
                  select_where-insert (scan_of object) (λ _. true) s.scans _ e
                    ((==_iff object object).1 refl);
              status = refl;
            })

  pub create_pending_file_scan-Works :
      Works {S = Store E}
        (λ s. IsScannable object s)
        (create_pending_file_scan object)
        (λ _ s. HasScan object is_idle s)
        (λ _ _. ⊥)
  unfolding create_pending_file_scan
  create_pending_file_scan-Works = bind-Works _ _ insert_scan-Works (λ n.
      bind-Works _ _ (query-Works {Q = λ _ s. HasScan object is_idle s} _ (λ _ h. h)) (λ rows.
        bind-Works _ _ (find_file_scan-Works object is_idle _) (λ c. pure-Works _ (λ _ h. h))))
