-- ===== src/File/Verdicts.antt =====
-- The states of a virus scan in internal/file/repository.go. A verdict, once it is recorded for a
-- content, is final: a scan is claimed only if it waits or has failed, and ended only while it runs.
pub mod Statements
pub mod History
pub mod Ends
pub mod Begins
pub mod Claimed
pub mod Scanned
use cloud_box.Base.{
  ℕ, suc, ◌≤◌, ◌<◌, ◌≡◌, ◌≢◌, ◌⊎◌, refl, sym, ap, ◌∙◌, Bool, true, false, not, ◌&&◌, Option, none,
  some, List, [], ◌∷◌, ◌++◌, ◌==◌, ==_iff, arith, inl, inr, Option-cases, Bool-cases, if◌then◌else◌,
  String, is_some, ltb,
}
use mathlib.Core.Option
use cloud_box.Exec.{World}
use cloud_box.Exec.Keeps.{Keeps}
use cloud_box.Sql.{find_where, update_where, delete_where, affected}
use cloud_box.Sql.Laws.{find_where-update, find_where-holds, find_where-narrow}
use cloud_box.Sql.Keys.{
  Unique, find_where-insert, find_where-delete_none, update-Unique, find_where-update_none,
}
use cloud_box.File.References.{object_id}
use cloud_box.File.Model.{
  UserFile, FileObject, FileScan, FilePreview, ScanStatus, pending, scanning, clean, infected,
  failed,
}
use cloud_box.File.Tables.{Store, scan_of, object_has_id}
use cloud_box.File.Repository.Scans.{
  is_claimable, is_scanning, insert_scan, update_scans, claimable, claimed_at, running, ended_at,
}
use cloud_box.File.History.{Operation, run}
use cloud_box.File.History.Units.{Units, run-Units}
use cloud_box.File.History.Single.{
  Single, reference_file-Keeps, create_many_body-Keeps, permanently_delete_body-Keeps,
}

-- The verdicts: the content is clean, or it is infected.
abbrev pub is_verdict : ScanStatus → Bool
is_verdict pending = false
is_verdict scanning = false
is_verdict clean = true
is_verdict infected = true
is_verdict failed = false

-- No statement that changes a scan asks for a verdict.
verdict_claimable : (t : ScanStatus) → is_verdict t ≡ true → is_claimable t ≡ false
verdict_claimable pending v = cc
verdict_claimable scanning v = cc
verdict_claimable clean v = refl
verdict_claimable infected v = refl
verdict_claimable failed v = cc

verdict_scanning : (t : ScanStatus) → is_verdict t ≡ true → is_scanning t ≡ false
verdict_scanning pending v = cc
verdict_scanning scanning v = cc
verdict_scanning clean v = refl
verdict_scanning infected v = refl
verdict_scanning failed v = cc

-- The content has the verdict, or it is gone.
pub data Standing (object : ℕ) (verdict : ScanStatus) (objects : List FileObject)
    (scans : List FileScan) : Type 0 where
  judged :
      (c : FileScan)
      → find_where (scan_of object) scans ≡ some c
      → c.status ≡ verdict
      → Standing object verdict objects scans
  gone :
      find_where (object_has_id object) objects ≡ none
      → find_where (scan_of object) scans ≡ none
      → Standing object verdict objects scans

-- Identifiers are unique and are not used again, so that a content that is gone is gone for good.
pub record Settles (object : ℕ) (verdict : ScanStatus) (objects : List FileObject)
    (scans : List FileScan) (next : ℕ) : Type 0 where
  pub object_ids : Unique ◌==◌ ==_iff object_id objects
  pub object_fresh : (k : ℕ) → next ≤ k → find_where (object_has_id k) objects ≡ none
  pub known : object < next
  pub standing : Standing object verdict objects scans

module _ (object : ℕ) (verdict : ScanStatus) (final : is_verdict verdict ≡ true) where
  update_objects-Settles :
      (p : FileObject → Bool) (f : FileObject → FileObject) (objects : List FileObject)
      (scans : List FileScan) (next : ℕ)
      → ((o : FileObject) → (f o).id ≡ o.id)
      → Settles object verdict objects scans next
      → Settles object verdict (update_where p f objects) scans next
  update_objects-Settles p f objects scans next same h = record {
    object_ids = update-Unique ◌==◌ ==_iff object_id p f objects same h.object_ids;
    object_fresh = λ k later. missing k (h.object_fresh k later);
    known = h.known;
    standing = stands h.standing;
  }
    where
      missing :
          (k : ℕ)
          → find_where (object_has_id k) objects ≡ none
          → find_where (object_has_id k) (update_where p f objects) ≡ none
      missing k e = find_where-update_none ◌==◌ ==_iff object_id k p f objects same e

      stands :
          Standing object verdict objects scans
          → Standing object verdict (update_where p f objects) scans
      stands (judged c e t) = judged c e t
      stands (gone e n) = gone (missing object e) n

  update_scans-Settles :
      (p : FileScan → Bool) (f : FileScan → FileScan) (objects : List FileObject)
      (scans : List FileScan) (next : ℕ)
      → ((c : FileScan) → (f c).file_object_id ≡ c.file_object_id)
      → ((c : FileScan) → c.status ≡ verdict → p c ≡ false)
      → Settles object verdict objects scans next
      → Settles object verdict objects (update_where p f scans) next
  update_scans-Settles p f objects scans next same apart h = record {
    object_ids = h.object_ids;
    object_fresh = h.object_fresh;
    known = h.known;
    standing = stands h.standing;
  }
    where
      found :
          find_where (scan_of object) (update_where p f scans)
          ≡ Option.map (λ c. if p c then f c else c) (find_where (scan_of object) scans)
      found = find_where-update p (scan_of object) f scans (λ c. ap (λ i. i == object) (same c))

      stands :
          Standing object verdict objects scans
          → Standing object verdict objects (update_where p f scans)
      stands (judged c e t) = judged c (found ∙ rw (e, apart c t) refl) t
      stands (gone e n) = gone e (found ∙ rw n refl)

  -- The states that a statement for a scan asks for are no verdicts.
  not_claimable : (t : ScanStatus) → t ≡ verdict → is_claimable t ≡ false
  not_claimable t e = rw e (verdict_claimable verdict final)

  not_scanning : (t : ScanStatus) → t ≡ verdict → is_scanning t ≡ false
  not_scanning t e = rw e (verdict_scanning verdict final)
