-- ===== src/Share/Download/Serve.antt =====
-- `OpenForDownloadFromIP` of internal/share/service.go: from the slot that was reserved to the answer.
use cloud_box.Base.{
  ◌≡◌, refl, sym, ap, subst, String, Bool, true, false, not, [], ◌∷◌, ◌++◌, if◌then◌else◌,
}
use cloud_box.Fail.{Result, ok, err, share_download_rate_limit}
use cloud_box.Exec.{works, pure, query, attempt, ◌>>=◌, write}
use cloud_box.Exec.Works.{
  Works, Post, pure-Works, gets-Works, call-Works, query-Works, if-Works, bind-Works, attempt-Works,
  pre-Works, post-Works,
}
use cloud_box.Disk.{Bytes}
use cloud_box.Sql.{find_where, insert_row}
use cloud_box.Share.Model.{Share, SharedFile, Store, download, allowed, denied, rate_limited}
use cloud_box.Share.Repository.{
  has_token, reserve_download, find_by_token, scan_share, record_share_access,
}
use cloud_box.Share.Repository.Limit.{UniqueTokens}
use cloud_box.Share.Service.{Setup, audit, refuse, or_refuse, close_reader, allow_download}
use cloud_box.Share.Public.{close_and_raise, say_why, take_slot, open_for_download_from_ip}
use cloud_box.Share.Access.{
  PolicyRuns, Same, Silent, Same-refl, refuse-Works, or_refuse-Works, or_deny-Works,
}
use cloud_box.Share.Visit.{Accessible}
use cloud_box.Share.Visit.Find.{find_accessible_file-Works}
use cloud_box.Share.Download.{
  allowed_audit, Taken, Gave, Reserved, reserve_download-Works, allow_download-Works,
}

module _ {C G : Type 0} (setup : Setup C G) (runs : PolicyRuns setup.policy) (s0 : Store C G)
    (unique : UniqueTokens s0.shares) (token password ip : String) where
  recorded :
      Works
        (λ s. Taken setup s0 token password ip s × (s.audits ≡ s0.audits))
        (audit token ip download allowed)
        (λ _ s.
          Taken setup s0 token password ip s
          × (s.audits ≡ s0.audits ++ allowed_audit token ip ∷ []))
        (λ e s. ⊥)
  unfolding audit record_share_access write
  recorded = call-Works _ λ s (t, a).
      (record { one = t.one; shares = t.shares }, ap (λ l. insert_row (allowed_audit token ip) l) a)

  close_reader-Works : (P : Store C G → Type 0) → Works P close_reader (λ _ s. P s) (λ e s. ⊥)
  unfolding close_reader
  close_reader-Works P = query-Works _ λ s p. p

  closed :
      (P : Store C G → Type 0) (r : Result (Unit {0})) (s : Store C G)
      → Post (λ _ t. P t) (λ _ t. ⊥) r s
      → P s
  closed P (ok a) s p = p
  closed P (err e) s p = absurd p

  say_why-Works :
      (latest : Share)
      → Works
          (Same s0)
          (say_why token ip latest)
          (Gave setup s0 token password ip)
          (λ e s. Same s0 s)
  unfolding say_why
  say_why-Works latest =
      bind-Works _ _ (gets-Works (λ s. s.clock) λ s p. p)
        λ now. refuse-Works token ip download denied _

  find_latest : Works (Same s0) (find_by_token token) (λ share s. Same s0 s) (λ e s. Same s0 s)
  unfolding find_by_token
  find_latest = query-Works _ λ s p. either (scan_share (find_where (has_token token) s.shares)) s p
    where
      either :
          (r : Result Share) (s : Store C G)
          → Same s0 s
          → Post (λ _ t. Same s0 t) (λ _ t. Same s0 t) r s
      either (ok h) s p = p
      either (err e) s p = p

  take_slot-Works :
      (file : SharedFile) (reader : Bytes) (r : Result Bool)
      → Accessible setup s0 token password true file
      → setup.opens file.storage_path ≡ ok reader
      → Works
          (Post (λ b s. Reserved setup s0 token password ip b s) (λ e s. ⊥) r)
          (take_slot token ip file reader r)
          (Gave setup s0 token password ip)
          (λ e s. Same s0 s)
  unfolding take_slot
  take_slot-Works file reader (err e) access opened = record { at = λ s p. absurd p }
  take_slot-Works file reader (ok false) access opened =
      bind-Works _ _ (attempt-Works _ _ (pre-Works _ _ (λ s p. p.0) (close_reader-Works (Same s0))))
        λ c.
          bind-Works _ _ (attempt-Works _ _ (pre-Works _ _ (closed (Same s0) c) find_latest))
            λ found.
              bind-Works _ _ (or_refuse-Works token ip download found)
                λ latest. say_why-Works latest
  take_slot-Works file reader (ok true) access opened =
      bind-Works _ _ (attempt-Works _ _ recorded) λ r. finished r
    where
      finished :
          (r : Result (Unit {0}))
          → Works
              (Post
                (λ _ s.
                  Taken setup s0 token password ip s
                  × (s.audits ≡ s0.audits ++ allowed_audit token ip ∷ []))
                (λ e s. ⊥)
                r)
              (elim r [ ok done ↦ pure (file, reader) | err e ↦ close_and_raise e ])
              (Gave setup s0 token password ip)
              (λ e s. Same s0 s)
      finished (ok tt) =
          pure-Works (file, reader)
            λ s (t, a). record { accessible = access; read = opened; taken = t; audited = a }
      finished (err e) = record { at = λ s p. absurd p }

  opened_at :
      (file : SharedFile)
      → Works
          (Silent s0)
          (query (λ s. setup.opens file.storage_path))
          (λ reader s. Silent s0 s × (setup.opens file.storage_path ≡ ok reader))
          (λ e s. Same s0 s)
  opened_at file = query-Works _ λ s p. by_result (setup.opens file.storage_path) refl s p
    where
      by_result :
          (r : Result Bytes)
          → setup.opens file.storage_path ≡ r
          → (s : Store C G) → Silent s0 s
          → Post
              (λ reader t. Silent s0 t × (setup.opens file.storage_path ≡ ok reader))
              (λ e t. Same s0 t)
              r
              s
      by_result (ok b) e s p = (p, e)
      by_result (err x) e s p = p.0

  after_open :
      (file : SharedFile) (r : Result Bytes)
      → Accessible setup s0 token password true file
      → Works
          (Post
            (λ reader s. Silent s0 s × (setup.opens file.storage_path ≡ ok reader))
            (λ e s. Same s0 s)
            r)
          (do
            reader ← or_refuse token ip download r
            reserved ← attempt (reserve_download token)
            take_slot token ip file reader reserved)
          (Gave setup s0 token password ip)
          (λ e s. Same s0 s)
  after_open file r access = bind-Works _ _ (or_refuse-Works token ip download r) λ reader. record {
    at = λ s (p, opened).
        (bind-Works _ _
            (attempt-Works _ _ (reserve_download-Works setup runs s0 unique token password ip))
            λ reserved. take_slot-Works file reader reserved access opened).at
          s p;
  }

  after_access :
      (file : SharedFile)
      → Accessible setup s0 token password true file
      → Works
          (Silent s0)
          (do
            may ← allow_download setup token ip
            if not may then refuse token ip download rate_limited share_download_rate_limit else do
              opened ← attempt (query (λ s. setup.opens file.storage_path))
              reader ← or_refuse token ip download opened
              reserved ← attempt (reserve_download token)
              take_slot token ip file reader reserved)
          (Gave setup s0 token password ip)
          (λ e s. Same s0 s)
  after_access file access =
      bind-Works _ _ (allow_download-Works setup runs s0 unique token password ip) λ may.
        if-Works (not may) (refuse token ip download rate_limited share_download_rate_limit) _
          (λ _.
            pre-Works _ _ (λ s p. p.0)
              (refuse-Works token ip download rate_limited share_download_rate_limit))
          (λ _. bind-Works _ _ (attempt-Works _ _ (opened_at file)) λ r. after_open file r access)

  open_Works :
      Works
        (λ s. s ≡ s0)
        (open_for_download_from_ip setup token password ip)
        (Gave setup s0 token password ip)
        (λ e s. Same s0 s)
  unfolding open_for_download_from_ip
  open_Works =
      bind-Works _ _
        (attempt-Works _ _ (
          pre-Works _ _ (λ s e. (subst (Same s0) (sym e) (Same-refl s0), ap (λ t. t.audits) e))
            (post-Works _ (λ file s p. p) (λ e s p. p.0)
              (find_accessible_file-Works setup runs s0 token password true ip))))
        λ r.
          bind-Works _ _ (or_deny-Works token ip download r)
            λ file. record { at = λ s (p, access). (after_access file access).at s p }

  -- Where all calls work, those of the policy included, and no two shares have the same token,
  -- a download ends in one of two ways. It serves a file: the share of the token exists, it has not
  -- expired, a download is left, and it has no password or the given one is not empty and matches its
  -- hash; its file is active, and the policy, if there is one, has allowed its object; the bytes are
  -- those that the storage has for it; just one slot has been taken, and one audit, of the allowed
  -- download, has been written. Or it ends with an error, and the shares and files are as they were.
  pub open_for_download_lem :
      Post
        (Gave setup s0 token password ip)
        (λ e s. Same s0 s)
        (open_for_download_from_ip setup token password ip (works s0)).0
        (open_for_download_from_ip setup token password ip (works s0)).1.store
  open_for_download_lem = (open_Works.at s0 refl).1
