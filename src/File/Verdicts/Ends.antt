-- ===== src/File/Verdicts/Ends.antt =====
-- The statements of internal/file/repository.go by which a scan ends, when they work.
use cloud_box.Base.{
  ℕ, ◌≡◌, ◌≢◌, Option, refl, Bool, true, false, not, ◌&&◌, none, some, inl, inr, Bool-cases, [],
  ◌∷◌, String,
}
use cloud_box.Fail.{file_scan_not_found}
use cloud_box.Exec.{call}
use cloud_box.Exec.Works.{Works, Post, call-Works, post-Works}
use cloud_box.Sql.{select_where}
use cloud_box.Sql.Sole.{returning-select, select_where-update}
use cloud_box.File.Model.{FileScan, ScanStatus, pending, scanning, clean, infected, failed}
use cloud_box.File.Tables.{Store, scan_of}
use cloud_box.File.Repository.Scans.{
  is_scanning, update_scans, ended_at, complete_file_scan, fail_file_scan, update_running_file_scan,
}

-- A scan that does not run.
abbrev pub is_idle : ScanStatus → Bool
is_idle t = not (is_scanning t)

-- A scan that is over, with a verdict or as a failure.
abbrev pub is_over : ScanStatus → Bool
is_over pending = false
is_over scanning = false
is_over clean = true
is_over infected = true
is_over failed = true

-- The content has one scan, and its status is such.
pub record HasScan {E : Type 0} (object : ℕ) (t : ScanStatus → Bool) (s : Store E) : Type 0 where
  pub scan : FileScan
  pub only : select_where (scan_of object) s.scans ≡ scan ∷ []
  pub status : t scan.status ≡ true

module _ {E : Type 0} (object : ℕ) where
  pub HasScan-map :
      {t u : ScanStatus → Bool} {s : Store E}
      → ((v : ScanStatus) → t v ≡ true → u v ≡ true)
      → HasScan object t s
      → HasScan object u s
  HasScan-map step h = record { scan = h.scan; only = h.only; status = step h.scan.status h.status }

  -- An UPDATE with RETURNING of the scan, if its status is in `q`.
  pub update_scans-Works :
      (q t u : ScanStatus → Bool) (f : ℕ → FileScan → FileScan)
      → ((now : ℕ) (c : FileScan) → scan_of object (f now c) ≡ scan_of object c)
      → ((now : ℕ) (c : FileScan) → u (f now c).status ≡ true)
      → Works {S = Store E}
          (HasScan object t)
          (call (update_scans (λ c. scan_of object c && q c.status) f))
          (λ _ s. HasScan object u s)
          (λ e s. (e ≡ file_scan_not_found) × HasScan object (λ v. t v && not (q v)) s)
  unfolding update_scans
  update_scans-Works q t u f same ends = call-Works _ step
    where
      step :
          (s : Store E)
          → HasScan object t s
          → Post
              (λ _ s. HasScan object u s)
              (λ e s. (e ≡ file_scan_not_found) × HasScan object (λ v. t v && not (q v)) s)
              (update_scans (λ c. scan_of object c && q c.status) f s).0
              (update_scans (λ c. scan_of object c && q c.status) f s).1
      step s h =
          let by_status : FileScan → Bool = λ c. q c.status in
          let row =
            select_where-update (scan_of object) by_status (f s.clock) s.scans h.scan (same s.clock)
              h.only in
          let read =
            returning-select (scan_of object) by_status (f s.clock) s.scans h.scan h.only in
          elim (Bool-cases (q h.scan.status)) [
            | inl v ↦
                rw (read, v)
                  (record {
                    scan = f s.clock h.scan;
                    only = rw (row, v) refl;
                    status = ends s.clock h.scan;
                  })
            | inr v ↦
                rw (read, v)
                  (
                    refl,
                    record {
                      scan = h.scan;
                      only = rw (row, v) refl;
                      status = rw (h.status, v) refl;
                    },
                  )
          ]

  -- The end of a running scan.
  ended-Works :
      (t : ScanStatus) (signature : Option String) (completed : Bool)
      → is_over t ≡ true
      → Works {S = Store E}
          (HasScan object is_scanning)
          (update_running_file_scan object t signature completed)
          (λ _ s. HasScan object is_over s)
          (λ _ s. HasScan object is_over s)
  unfolding update_running_file_scan
  ended-Works t signature completed over =
      post-Works _ (λ _ _ h. h)
        (λ _ _ h. HasScan-map (λ v m. absurd (running_or_not (is_scanning v) m)) h.1)
        (update_scans-Works is_scanning is_scanning is_over (ended_at t signature completed)
          (λ _ _. refl) (λ _ _. over))
    where
      running_or_not : (b : Bool) → (b && not b) ≢ true
      running_or_not true e = cc
      running_or_not false e = cc

  pub complete_file_scan-Works :
      (is_infected : Bool) (signature : String)
      → Works {S = Store E}
          (HasScan object is_scanning)
          (complete_file_scan object is_infected signature)
          (λ _ s. HasScan object is_over s)
          (λ _ s. HasScan object is_over s)
  unfolding complete_file_scan
  complete_file_scan-Works true signature = ended-Works infected (some signature) true refl
  complete_file_scan-Works false signature = ended-Works clean none true refl

  pub fail_file_scan-Works :
      Works {S = Store E}
        (HasScan object is_scanning)
        (fail_file_scan object)
        (λ _ s. HasScan object is_over s)
        (λ _ s. HasScan object is_over s)
  unfolding fail_file_scan
  fail_file_scan-Works = ended-Works failed none false refl
