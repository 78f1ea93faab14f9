-- ===== src/Share/Repository.antt =====
-- internal/share/repository.go, for shares of one file. Each function is one statement, with the reading
-- of its result.
pub mod Limit
use cloud_box.Base.{
  ℕ, ◌+◌, ◌-◌, String, Bool, true, false, ◌&&◌, ◌||◌, not, Option, none, some, List, [], ◌∷◌, ◌==◌,
  ltb, leb, str_eq, is_some, if◌then◌else◌,
}
use cloud_box.Fail.{Result, ok, err, external, share_not_found, file_not_found}
use cloud_box.Exec.{Exec, pure, raise, call, query, write, ◌>>=◌, ◌>>◌}
use cloud_box.Sql.{
  find_where, select_where, update_where, delete_where, affected, insert_row, order_by,
}
use cloud_box.Text.{is_empty}
use cloud_box.File.Model.{UserFile, FileObject, FilePreview, is_active}
use cloud_box.Share.Model.{Share, ListedShare, SharedFile, SharedPreview, AccessAudit, Store}

abbrev pub has_token : String → Share → Bool
has_token token s = str_eq s.token token

abbrev pub file_has_id : ℕ → UserFile → Bool
file_has_id id f = f.id == id

-- max_downloads IS NULL OR download_count < max_downloads
abbrev pub has_slot : Option ℕ → ℕ → Bool
has_slot none count = true
has_slot (some limit) count = ltb count limit

-- expires_at IS NULL OR expires_at > CURRENT_TIMESTAMP
abbrev pub unexpired : ℕ → Option ℕ → Bool
unexpired now none = true
unexpired now (some t) = ltb now t

-- The WHERE clause of ReserveDownload.
abbrev pub may_reserve : String → ℕ → Share → Bool
may_reserve token now s =
    (has_token token s && unexpired now s.expires_at) && has_slot s.max_downloads s.download_count

abbrev pub one_more : Share → Share
one_more s = record s { download_count = s.download_count + 1 }

abbrev pub one_less : Share → Share
one_less s = record s { download_count = s.download_count - 1 }

-- The WHERE clause of ReleaseDownloadReservation.
abbrev pub may_release : String → Share → Bool
may_release token s = has_token token s && ltb 0 s.download_count

abbrev pub limit_allowed : Option ℕ → Bool
limit_allowed none = true
limit_allowed (some n) = ltb 0 n

abbrev pub scan_share : Option Share → Result Share
scan_share none = err share_not_found
scan_share (some s) = ok s

-- A token is the primary key, so that each join finds one row at most.
abbrev pub joined_object : UserFile → Option FileObject → Result SharedFile
joined_object f none = err file_not_found
joined_object f (some o) = ok (record {
  object_id = o.id;
  id = f.id;
  original_name = f.original_name;
  storage_path = f.storage_path;
  size = f.size;
  content_type = f.content_type;
  file_hash = o.file_hash;
})

abbrev pub joined_preview : Option FilePreview → Result SharedPreview
joined_preview none = err file_not_found
joined_preview (some p) = ok (record {
  storage_path = p.storage_path;
  content_type = p.content_type;
  created_at = p.created_at;
})

-- `uf.object_id = o`, which NULL satisfies for no row.
abbrev pub is_object : Option ℕ → ℕ → Bool
is_object none id = false
is_object (some o) id = o == id

-- The files of the rows by the join, then the columns of each.
abbrev pub listed : List UserFile → List FilePreview → List Share → List ListedShare
listed files previews [] = []
listed files previews (h ∷ hs) =
    let rest = listed files previews hs in
    elim (find_where (file_has_id h.user_file_id) files) [
      | none ↦ rest
      | some f ↦
          record {
            share = h;
            original_name = f.original_name;
            size = f.size;
            content_type = f.content_type;
            has_preview =
                is_some (find_where (λ p. is_object f.object_id p.file_object_id) previews);
          }
          ∷ rest
    ]

-- The WHERE clause of DeleteByToken.
abbrev pub is_owned : ℕ → String → List UserFile → Share → Bool
is_owned user token files h =
    has_token token h
    && is_some (find_where (λ f. file_has_id h.user_file_id f && f.user_id == user) files)

module _ {C G : Type 0} where
  abbrev pub object_of : Option UserFile → Store C G → Result SharedFile
  object_of none s = err file_not_found
  object_of (some f) s = joined_object f (find_where (λ o. is_object f.object_id o.id) s.objects)

  abbrev pub preview_of : Option UserFile → Store C G → Result SharedPreview
  preview_of none s = err file_not_found
  preview_of (some f) s =
      joined_preview (find_where (λ p. is_object f.object_id p.file_object_id) s.previews)

  -- The active file of a share.
  abbrev pub shared_user_file : Option Share → Store C G → Option UserFile
  shared_user_file none s = none
  shared_user_file (some h) s =
      find_where (λ f. file_has_id h.user_file_id f && is_active f.status) s.user_files

  -- The key, the foreign key and the CHECK clauses.
  unfoldable pub insert_share : Share → Store C G → Result (Unit {0}) × Store C G
  insert_share h s =
      if is_some (find_where (has_token h.token) s.shares)
      then (err (external "UNIQUE constraint failed: file_shares.token"), s)
      else if is_empty h.token || not (limit_allowed h.max_downloads)
      then (err (external "CHECK constraint failed: file_shares"), s)
      else if is_some (find_where (file_has_id h.user_file_id) s.user_files)
      then (
        ok tt,
        record s {
          shares = insert_row (record h { download_count = 0; created_at = s.clock }) s.shares;
        },
      )
      else (err (external "FOREIGN KEY constraint failed"), s)

  unfoldable pub find_by_token : String → Exec (Store C G) Share
  find_by_token token = query (λ s. scan_share (find_where (has_token token) s.shares))

  unfoldable pub create : Share → Exec (Store C G) Share
  create h = do call (insert_share h); find_by_token h.token

  unfoldable pub has_active_file : ℕ → ℕ → Exec (Store C G) Bool
  has_active_file user file = query (λ s. ok (
      is_some (
        find_where (λ f. (file_has_id file f && f.user_id == user) && is_active f.status)
          s.user_files)))

  unfoldable pub find_active_file_by_share_token : String → Exec (Store C G) SharedFile
  find_active_file_by_share_token token =
      query (λ s. object_of (shared_user_file (find_where (has_token token) s.shares) s) s)

  unfoldable pub find_preview_by_share_token : String → Exec (Store C G) SharedPreview
  find_preview_by_share_token token =
      query (λ s. preview_of (shared_user_file (find_where (has_token token) s.shares) s) s)

  unfoldable pub reserve : String → Store C G → Result ℕ × Store C G
  reserve token s = (
    ok (affected (may_reserve token s.clock) s.shares),
    record s { shares = update_where (may_reserve token s.clock) one_more s.shares },
  )

  -- `result.RowsAffected()` may fail too.
  unfoldable pub reserve_download : String → Exec (Store C G) Bool
  reserve_download token = do n ← call (reserve token); rows ← query (λ s. ok n); pure (rows == 1)

  unfoldable pub release : String → Store C G → Store C G
  release token s = record s { shares = update_where (may_release token) one_less s.shares }

  unfoldable pub release_download_reservation : String → Exec (Store C G) (Unit {0})
  release_download_reservation token = write (release token)

  unfoldable pub list_by_user : ℕ → Exec (Store C G) (List ListedShare)
  list_by_user user = query (λ s. ok (
      order_by (λ a b. leb b.share.created_at a.share.created_at)
        (listed (select_where (λ f. f.user_id == user) s.user_files) s.previews s.shares)))

  unfoldable pub delete_share : ℕ → String → Store C G → Result ℕ × Store C G
  delete_share user token s = (
    ok (affected (is_owned user token s.user_files) s.shares),
    record s { shares = delete_where (is_owned user token s.user_files) s.shares },
  )

  unfoldable pub delete_by_token : ℕ → String → Exec (Store C G) (Unit {0})
  delete_by_token user token = do
    n ← call (delete_share user token)
    rows ← query (λ s. ok n)
    if rows == 0 then raise share_not_found else pure tt

  unfoldable pub record_share_access : AccessAudit → Exec (Store C G) (Unit {0})
  record_share_access a = write (λ s. record s { audits = insert_row a s.audits })
