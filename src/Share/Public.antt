-- ===== src/Share/Public.antt =====
-- internal/share/service.go: what a visitor and an owner may call.
use cloud_box.Base.{
  ℕ, ◌+◌, String, Bool, true, false, not, Option, none, some, List, ltb, if◌then◌else◌, ℤ,
  positive?,
}
use cloud_box.Fail.{
  Error, Result, ok, err, cause, file_not_found, share_expiration_invalid, download_limit_invalid,
  share_expired, download_limit_reached, share_download_rate_limit,
}
use cloud_box.Exec.{Exec, pure, raise, lift, gets, query, attempt, ◌>>=◌, ◌>>◌}
use cloud_box.Text.{is_empty}
use cloud_box.Disk.{Bytes}
use cloud_box.Share.Model.{
  Share, ListedShare, SharedFile, SharedPreview, PublicFile, Store, info, preview, download,
  allowed, denied, rate_limited,
}
use cloud_box.Share.Repository.{
  create, find_by_token, has_active_file, find_preview_by_share_token, reserve_download,
  list_by_user, delete_by_token, unexpired,
}
use cloud_box.Share.Service.{
  Setup, audit, refuse, or_refuse, or_deny, close_reader, allow_download, find_accessible_file,
  default_share_lifetime,
}

-- `err == nil`, and the error unless it is ErrFileNotFound.
abbrev pub preview_found : Result SharedPreview → Result Bool
preview_found (ok p) = ok true
preview_found (err e) = not_missing (cause e) e
  where
    not_missing : Error → Error → Result Bool
    not_missing file_not_found e = ok false
    not_missing _ e = err e

-- `*maxDownloads <= 0`
abbrev pub limit_of : Option ℤ → Result (Option ℕ)
limit_of none = ok none
limit_of (some n) = elim (positive? n) [ none ↦ err download_limit_invalid | some m ↦ ok (some m) ]

abbrev pub expiry_of : ℕ → Option ℕ → ℕ
expiry_of now none = now + default_share_lifetime
expiry_of now (some t) = t

module _ {C G : Type 0} where
  -- `password != ""` and its hash.
  unfoldable pub hash_given : Setup C G → String → Result String
  hash_given setup password = if is_empty password then ok "" else setup.hash_password password

  unfoldable pub list : ℕ → Exec (Store C G) (List ListedShare)
  unfolding list_by_user
  list user = list_by_user user

  unfoldable pub revoke : ℕ → String → Exec (Store C G) (Unit {0})
  unfolding delete_by_token
  revoke user token = delete_by_token user token

  -- `_ = reader.Close(); _ = s.audit(...); return nil, nil, err`
  unfoldable pub close_and_refuse : {A : Type 0} → String → String → Error → Exec (Store C G) A
  close_and_refuse token ip e = do attempt close_reader; refuse token ip download denied e

  unfoldable pub close_and_raise : {A : Type 0} → Error → Exec (Store C G) A
  close_and_raise e = do attempt close_reader; raise e

  -- What is said where no slot could be reserved.
  unfoldable pub say_why : {A : Type 0} → String → String → Share → Exec (Store C G) A
  say_why token ip latest = do
    now ← gets (λ s. s.clock)
    refuse token ip download denied
        (if not (unexpired now latest.expires_at) then share_expired else download_limit_reached)

  -- From the result of ReserveDownload on.
  unfoldable pub take_slot :
      String → String → SharedFile → Bytes → Result Bool → Exec (Store C G) (SharedFile × Bytes)
  take_slot token ip file reader (err e) = close_and_refuse token ip e
  take_slot token ip file reader (ok false) = do
    attempt close_reader
    found ← attempt (find_by_token token)
    latest ← or_refuse token ip download found
    say_why token ip latest
  take_slot token ip file reader (ok true) = do
    audited ← attempt (audit token ip download allowed)
    elim audited [ ok done ↦ pure (file, reader) | err e ↦ close_and_raise e ]

module _ {C G : Type 0} (setup : Setup C G) where
  unfoldable pub create_share :
      ℕ → ℕ → String → Option ℕ → Option ℤ → Result String → Exec (Store C G) Share
  create_share user file password expires_at max_downloads token = do
    has_file ← has_active_file user file
    if not has_file then raise file_not_found else do
      now ← gets (λ s. s.clock)
      if not (ltb now (expiry_of now expires_at)) then raise share_expiration_invalid else do
        limit ← lift (limit_of max_downloads)
        password_hash ← lift (hash_given setup password)
        drawn ← lift token
        create (record {
          token = drawn;
          user_file_id = file;
          password_hash = password_hash;
          expires_at = some (expiry_of now expires_at);
          max_downloads = limit;
          download_count = 0;
          created_at = 0;
        })

  unfoldable pub get_public_file_from_ip : String → String → String → Exec (Store C G) PublicFile
  get_public_file_from_ip token password ip = do
    access ← attempt (find_accessible_file setup token password false ip)
    file ← or_deny token ip info access
    looked ← attempt (find_preview_by_share_token token)
    has_preview ← or_refuse token ip info (preview_found looked)
    audit token ip info allowed
    pure (record {
      original_name = file.original_name;
      size = file.size;
      content_type = file.content_type;
      has_preview = has_preview;
    })

  unfoldable pub open_public_preview_from_ip :
      String → String → String → Exec (Store C G) (SharedPreview × Bytes)
  open_public_preview_from_ip token password ip = do
    access ← attempt (find_accessible_file setup token password false ip)
    or_deny token ip preview access
    looked ← attempt (find_preview_by_share_token token)
    shown ← or_refuse token ip preview looked
    opened ← attempt (query (λ s. setup.opens shown.storage_path))
    reader ← or_refuse token ip preview opened
    audited ← attempt (audit token ip preview allowed)
    elim audited [ ok done ↦ pure (shown, reader) | err e ↦ close_and_raise e ]

  unfoldable pub open_for_download_from_ip :
      String → String → String → Exec (Store C G) (SharedFile × Bytes)
  open_for_download_from_ip token password ip = do
    access ← attempt (find_accessible_file setup token password true ip)
    file ← or_deny token ip download access
    may ← allow_download setup token ip
    if not may then refuse token ip download rate_limited share_download_rate_limit else do
      opened ← attempt (query (λ s. setup.opens file.storage_path))
      reader ← or_refuse token ip download opened
      reserved ← attempt (reserve_download token)
      take_slot token ip file reader reserved

  -- The calls without an address.
  unfoldable pub get_public_file : String → String → Exec (Store C G) PublicFile
  unfolding get_public_file_from_ip
  get_public_file token password = get_public_file_from_ip token password ""

  unfoldable pub open_public_preview : String → String → Exec (Store C G) (SharedPreview × Bytes)
  unfolding open_public_preview_from_ip
  open_public_preview token password = open_public_preview_from_ip token password ""

  unfoldable pub open_for_download : String → String → Exec (Store C G) (SharedFile × Bytes)
  unfolding open_for_download_from_ip
  open_for_download token password = open_for_download_from_ip token password ""
