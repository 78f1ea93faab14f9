-- ===== src/File/Verdicts/Claimed.antt =====
-- ScanActiveFile of internal/file/service.go once it has claimed a scan, when the calls of the
-- database work.
use cloud_box.Base.{
  ℕ, Bool, true, false, not, ◌||◌, inl, inr, Option-cases, is_some, if◌then◌else◌, String,
}
use cloud_box.Fail.{Error, Result, ok, err, cause}
use cloud_box.Exec.{Exec, attempt, pure, ◌>>=◌}
use cloud_box.Exec.Works.{
  Works, Post, Post-same, bind-Works, query-Works, call-Works, pure-Works, raise-Works, if-Works,
  attempt-Works, on_error-Works, post-Works,
}
use cloud_box.Text.MediaType.{supports_thumbnail}
use cloud_box.File.Model.{UserFile, FileObject, FileScan, FilePreview, ScanStatus}
use cloud_box.File.Tables.{Store}
use cloud_box.File.Repository.Scans.{is_scanning, find_file_preview_by_object_id}
use cloud_box.File.Repository.Removal.{is_preview_not_found}
use cloud_box.File.Service.{
  Setup, ScanResult, generate_thumbnail, outside, enqueue, enqueue_thumbnail_for,
  enqueue_thumbnail_if_supported,
}
use cloud_box.File.Service.Access.{open_at}
use cloud_box.File.Service.Scan.{mark_file_scan_failed, scan_failed, record_verdict, scan_content}
use cloud_box.File.Verdicts.Ends.{HasScan, is_over, complete_file_scan-Works, fail_file_scan-Works}
use cloud_box.File.Verdicts.Begins.{Claim}

module _ {E C : Type 0} (setup : Setup E C) (user file : ℕ) (o : FileObject) where
  abbrev Over : {A : Type 0} → A → Store E → Type 0
  Over _ s = HasScan o.id is_over s

  -- A call beside the repository leaves the scans alone.
  outside-Works :
      {A : Type 0} (t : ScanStatus → Bool) (f : E → Result A × E)
      → Works {S = Store E}
          (λ s. HasScan o.id t s)
          (outside f)
          (λ _ s. HasScan o.id t s)
          (λ _ s. HasScan o.id t s)
  unfolding outside
  outside-Works t f = call-Works _ step
    where
      step :
          (s : Store E)
          → HasScan o.id t s
          → Post
              (λ _ s. HasScan o.id t s)
              (λ _ s. HasScan o.id t s)
              (f s.env).0
              (record s { env = (f s.env).1 })
      step s h =
          Post-same (λ r. HasScan o.id t r) (f s.env).0 _
            (record { scan = h.scan; only = h.only; status = h.status })

  open_at-Works :
      (t : ScanStatus → Bool) (path : String)
      → Works {S = Store E}
          (λ s. HasScan o.id t s)
          (open_at setup path)
          (λ _ s. HasScan o.id t s)
          (λ _ s. HasScan o.id t s)
  open_at-Works t path = query-Works _ (λ s h. Post-same (λ r. HasScan o.id t r) _ s h)

  mark_failed-Works :
      (failure : Error)
      → Works (λ s. HasScan o.id is_scanning s) (mark_file_scan_failed setup o.id failure) Over Over
  unfolding mark_file_scan_failed
  mark_failed-Works failure =
      bind-Works _ _ (attempt-Works _ (λ _ s. HasScan o.id is_over s) (fail_file_scan-Works o.id))
        failing
    where
      failing :
          (r : Result FileScan) → Works (Post Over Over r) (scan_failed setup failure r) Over Over
      failing (ok c) = raise-Works failure (λ _ h. h)
      failing (err e) = raise-Works _ (λ _ h. h)

  -- What holds whatever a call returns.
  settled-Works :
      {A : Type 0} {t : ScanStatus → Bool} (m : Exec (Store E) A)
      → Works (λ s. HasScan o.id t s) m (λ _ s. HasScan o.id t s) (λ _ s. HasScan o.id t s)
      → Works (λ s. HasScan o.id t s) (attempt m) (λ _ s. HasScan o.id t s) Over
  settled-Works {A} {t} m k = post-Works _ either (λ _ _ h. h) (attempt-Works m Over k)
    where
      either :
          (r : Result A) (s : Store E)
          → Post (λ _ s. HasScan o.id t s) (λ _ s. HasScan o.id t s) r s
          → HasScan o.id t s
      either (ok a) s h = h
      either (err e) s h = h

  enqueue_thumbnail-Works :
      Works
        (λ s. HasScan o.id is_over s)
        (enqueue_thumbnail_if_supported setup user file o)
        Over
        Over
  unfolding enqueue_thumbnail_if_supported find_file_preview_by_object_id
  enqueue_thumbnail-Works =
      if-Works (not (is_some setup.job_enqueuer) || not (supports_thumbnail o.content_type)) _ _
        (λ _. pure-Works tt (λ _ h. h))
        (λ _.
          bind-Works _ _
            (settled-Works (find_file_preview_by_object_id o.id)
              (query-Works _ (λ s h. Post-same (λ r. HasScan o.id is_over r) _ s h)))
            queue)
    where
      queued :
          Works (λ s. HasScan o.id is_over s) (enqueue setup user generate_thumbnail file) Over Over
      queued = elim (Option-cases setup.job_enqueuer) [
        | inl n ↦ rw n (pure-Works tt (λ _ h. h))
        | inr (enqueue_for_user, n) ↦ rw n (
            bind-Works _ _
              (settled-Works _
                (outside-Works is_over (enqueue_for_user user generate_thumbnail file)))
              (λ _. pure-Works tt (λ _ h. h)))
      ]

      queue :
          (r : Result FilePreview)
          → Works (λ s. HasScan o.id is_over s) (enqueue_thumbnail_for setup user file r) Over Over
      queue (ok p) = pure-Works tt (λ _ h. h)
      queue (err e) =
          if-Works (is_preview_not_found (cause e)) _ _ (λ _. queued)
            (λ _. pure-Works tt (λ _ h. h))

  record_verdict-Works :
      (r : Result ScanResult)
      → Works (λ s. HasScan o.id is_scanning s) (record_verdict setup user file o r) Over Over
  record_verdict-Works (err e) = mark_failed-Works _
  record_verdict-Works (ok result) =
      bind-Works _ _
        (on_error-Works _ _ (complete_file_scan-Works o.id result.is_infected result.signature))
        (λ c.
          if-Works result.is_infected _ _ (λ _. pure-Works tt (λ _ h. h))
            (λ _. enqueue_thumbnail-Works))

  scan_content-Works :
      (scan : C → E → Result ScanResult × E) (r : Result C)
      → Works (λ s. HasScan o.id is_scanning s) (scan_content setup user file o scan r) Over Over
  scan_content-Works scan (err e) = mark_failed-Works _
  scan_content-Works scan (ok content) =
      bind-Works {R = λ _ s. HasScan o.id is_scanning s} _ _
        (settled-Works (outside (scan content)) (outside-Works is_scanning (scan content)))
        record_verdict-Works

  -- From an idle scan on, or from none.
  pub claimed-Works :
      (f : UserFile) (scan : C → E → Result ScanResult × E) (claimed : Bool)
      → Works
          (Claim o.id claimed)
          (if not claimed then pure tt else (do
            r ← attempt (open_at setup o.storage_path)
            scan_content setup user file o scan r))
          Over
          Over
  claimed-Works f scan false = pure-Works tt (λ _ h. h)
  claimed-Works f scan true =
      bind-Works {R = λ _ s. HasScan o.id is_scanning s} _ _
        (settled-Works _ (open_at-Works is_scanning o.storage_path)) (scan_content-Works scan)
