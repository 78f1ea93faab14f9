-- ===== src/File/Clean.antt =====
-- With a virus scanner, internal/file/service.go gives out a content only after a clean scan.
use cloud_box.Base.{ℕ, ◌≡◌, refl, ◌&&◌, Option, some, inl, inr, Option-cases}
use cloud_box.Fail.{
  Error, Result, ok, err, cause, file_scan_incomplete, file_infected, file_not_found,
}
use cloud_box.Exec.{World, raise, query, attempt}
use cloud_box.Exec.Works.{Post}
use cloud_box.Exec.Ensures.{
  Ensures, Anything, bind-Ensures, query-Ensures, pure-Ensures, raise-Ensures, if-Ensures,
  attempt-Ensures, post-Ensures,
}
use cloud_box.Sql.{find_where}
use cloud_box.File.Model.{
  FileObject, FileScan, ScanStatus, pending, scanning, clean, infected, failed, is_active,
}
use cloud_box.File.Tables.{Store, scan_of, file_has_id, scan_row}
use cloud_box.File.Repository.Files.{
  find_active_by_id, find_by_id_and_status, find_object_for_active_file, joined_object,
}
use cloud_box.File.Repository.Scans.{find_file_scan_by_object_id, is_scan_not_found}
use cloud_box.File.Service.{Setup, ScanResult}
use cloud_box.File.Service.Access.{
  check_file_object_download, verdict_of, download_verdict, open_for_download, open_at,
}

module _ {E : Type 0} where
  -- The scan of the content has come out clean.
  pub record IsClean (object : ℕ) (s : Store E) : Type 0 where
    pub scan : FileScan
    pub found : find_where (scan_of object) s.scans ≡ some scan
    pub status : scan.status ≡ clean

  -- The content of the active file has.
  pub record IsServable (file : ℕ) (s : Store E) : Type 0 where
    pub object : FileObject
    pub found :
        joined_object
          (find_where (λ f. file_has_id file f && is_active f.status) s.user_files)
          s.objects
        ≡ some object
    pub is_clean : IsClean object.id s

  abbrev Found : ℕ → FileScan → Store E → Type 0
  Found object c s = find_where (scan_of object) s.scans ≡ some c

  found_row :
      {A : Type 0} {P : Store E → Type 0} (e : Error) (find : Store E → Option A)
      → Ensures P (query (λ s. scan_row e (find s))) (λ a s. P s × (find s ≡ some a)) Anything
  found_row {P = P} e find = query-Ensures _ (λ s p. read s p) (λ _ _ _. tt)
    where
      read :
          (s : Store E)
          → P s
          → Post (λ a t. P t × (find t ≡ some a)) Anything (scan_row e (find s)) s
      read s p = elim (Option-cases (find s)) [ inl n ↦ rw n tt | inr (a, n) ↦ rw n (p, n) ]

  verdict-Ensures :
      (object : ℕ) {P : Store E → Type 0} (c : FileScan) (t : ScanStatus)
      → c.status ≡ t
      → Ensures
          (λ s. P s × Found object c s)
          (download_verdict t)
          (λ _ s. P s × IsClean object s)
          Anything
  verdict-Ensures object c pending e = raise-Ensures file_scan_incomplete (λ _ _. tt)
  verdict-Ensures object c scanning e = raise-Ensures file_scan_incomplete (λ _ _. tt)
  verdict-Ensures object c infected e = raise-Ensures file_infected (λ _ _. tt)
  verdict-Ensures object c failed e = raise-Ensures file_scan_incomplete (λ _ _. tt)
  verdict-Ensures object c clean e =
      pure-Ensures tt (λ s k. (k.0, record { scan = c; found = k.1; status = e }))

module _ {E C : Type 0} (setup : Setup E C) (scan : C → E → Result ScanResult × E)
    (enabled : setup.virus_scanner ≡ some scan) where
  check-Ensures :
      (object : ℕ) {P : Store E → Type 0}
      → Ensures P (check_file_object_download setup object) (λ _ s. P s × IsClean object s) Anything
  unfolding check_file_object_download find_file_scan_by_object_id
  check-Ensures object {P} = rw enabled (
      bind-Ensures {R = λ r s. Post (λ c t. P t × Found object c t) Anything r s}
        (attempt (find_file_scan_by_object_id object)) _
        (attempt-Ensures _ (found_row _ (λ s. find_where (scan_of object) s.scans))) decide)
    where
      decide :
          (r : Result FileScan)
          → Ensures
              (λ s. Post (λ c t. P t × Found object c t) Anything r s)
              (verdict_of setup r)
              (λ _ s. P s × IsClean object s)
              Anything
      decide (ok c) = verdict-Ensures object c c.status refl
      decide (err e) =
          if-Ensures (is_scan_not_found (cause e)) (raise file_scan_incomplete) (raise e)
            (λ _. raise-Ensures file_scan_incomplete (λ _ _. tt)) (λ _. raise-Ensures e (λ _ _. tt))

  opened :
      (P : Store E → Type 0) (r : Result C) (s : Store E) → P s → Post (λ _ t. P t) Anything r s
  opened P (ok content) s p = p
  opened P (err e) s p = tt

  -- Whatever fails in it: if the service has a virus scanner and OpenForDownload returns a file and a
  -- reader, then the file is active, has a content, and the scan of this content has come out clean.
  pub open_for_download-IsServable :
      (user file : ℕ) (w : World (Store E))
      → Post
          (λ _ s. IsServable file s)
          Anything
          (open_for_download setup user file w).0
          ((open_for_download setup user file w).1).store
  unfolding open_for_download find_active_by_id find_by_id_and_status find_object_for_active_file
  open_for_download-IsServable user file w =
      (bind-Ensures {P = λ _. Unit {0}} {R = λ _ _. Unit {0}} _ _
          (post-Ensures _ (λ _ _ _. tt) (λ _ _ _. tt) (found_row {P = λ _. Unit {0}} _ _))
          (λ f. bind-Ensures _ _ (found_row file_not_found _) (λ o.
            bind-Ensures (check_file_object_download setup o.id) _ (check-Ensures o.id) (λ _.
              bind-Ensures {R = λ _ s. IsServable file s} (open_at setup f.storage_path) _
                (query-Ensures _
                  (λ s k.
                    opened (IsServable file) _ s
                      (record { object = o; found = k.0.1; is_clean = k.1 }))
                  (λ _ _ _. tt))
                (λ content. pure-Ensures (f, content) (λ s k. k)))))).at
        w tt
