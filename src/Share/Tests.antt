-- ===== src/Share/Tests.antt =====
-- One share, and the theorems on it.
use cloud_box.Base.{
  ℕ, ◌+◌, ◌*◌, ◌<◌, ◌≡◌, refl, true, false, none, some, List, [], ◌∷◌, All, arith, length, ltb,
}
use Prim.Native.Nat.{min}
use cloud_box.Fail.{err, storage_quota_exceeded, ok}
use cloud_box.Exec.{works}
use cloud_box.Exec.Works.{Post}
use cloud_box.Sql.{find_where, update_where, affected}
use cloud_box.File.Model.{UserFile, FileObject, active}
use cloud_box.Share.Model.{Share, Store}
use cloud_box.Share.Control.{
  AccessKey, AccessControl, access_key, no_control, in_memory, password_locked,
  record_password_failure, clear_password_failures,
}
use cloud_box.Share.Control.Rate.{Request, allowed_to, requests_of, allowed_lem}
use cloud_box.Share.Control.Lock.{fail_at, password_locked_lem}
use cloud_box.Share.Repository.{may_reserve, may_release, one_more, one_less}
use cloud_box.Share.Repository.Limit.{
  Statement, inserts, reserves, releases, deletes, passes, run, IsWithin, run-IsWithin,
  release-reserve,
}
use cloud_box.Share.Service.{Setup}
use cloud_box.Share.Access.{Same}
use cloud_box.Share.Public.{open_for_download_from_ip}
use cloud_box.Base.{pos}
use cloud_box.Share.Creation.{Created}
use cloud_box.Share.Creation.Whole.{create_share_lem}
use cloud_box.Share.Public.{create_share}
use cloud_box.Share.Save.{save_to_user_files_from_ip}
use cloud_box.Share.Refund.Save.{save_to_user_files_lem}
use cloud_box.Share.Download.Serve.{open_for_download_lem}
use cloud_box.Share.Download.{Taken, Gave}

abbrev visitor : AccessKey
visitor = access_key "t" "ip"

abbrev other_visitor : AccessKey
other_visitor = access_key "t" "other"

abbrev request : AccessKey → ℕ → Request
request key at = record { key = key; at = at }

abbrev requests : List Request
requests = request visitor 5 ∷ request other_visitor 6 ∷ request visitor 7 ∷ []

allowed_lem_example : allowed_to visitor no_control requests ≡ min (requests_of visitor requests) 20
unfolding find_where
allowed_lem_example =
    allowed_lem visitor 5 no_control requests tt
      ((omega arith, omega arith), ((omega arith, omega arith), ((omega arith, omega arith), tt)))

abbrev four_times : List ℕ
four_times = 1 ∷ 2 ∷ 3 ∷ 4 ∷ []

password_locked_lem_example :
    (length four_times < 5
      → password_locked visitor 9
          (fail_at visitor four_times (clear_password_failures visitor no_control))
        ≡ false)
    × ((last : ℕ)
        → length four_times + 1 ≡ 5
        → (password_locked visitor 9 (
              record_password_failure visitor last
                (fail_at visitor four_times (clear_password_failures visitor no_control)))
            ≡ ltb 9 (last + 10 * (60 * 1000000000))))
    × (password_locked visitor 9 no_control ≡ true
        → record_password_failure visitor 9 no_control ≡ no_control)
password_locked_lem_example = password_locked_lem visitor no_control four_times 9

abbrev shared : Share
shared = record {
  token = "t";
  user_file_id = 1;
  password_hash = "h";
  expires_at = some 100;
  max_downloads = some 2;
  download_count = 1;
  created_at = 1;
}

abbrev report : UserFile
report = record {
  id = 1;
  user_id = 7;
  parent_id = none;
  object_id = some 4;
  original_name = "report.txt";
  storage_path = "user_7/report.txt";
  size = 3;
  content_type = "text/plain";
  status = active;
  created_at = 1;
  deleted_at = none;
}

abbrev report_object : FileObject
report_object = record {
  id = 4;
  file_hash = "d";
  storage_path = "user_7/report.txt";
  size = 3;
  content_type = "text/plain";
  reference_count = 1;
  created_at = 1;
}

abbrev store : Store AccessControl (Unit {0})
store = record {
  shares = shared ∷ [];
  user_files = report ∷ [];
  objects = report_object ∷ [];
  previews = [];
  audits = [];
  control = no_control;
  workspace = tt;
  clock = 50;
}

abbrev setup : Setup AccessControl (Unit {0})
setup = record {
  control = in_memory;
  opens = λ path. ok (1 ∷ 2 ∷ 3 ∷ []);
  policy = none;
  saver = none;
  matches = λ hash password. true;
  hash_password = λ password. ok "h";
}

abbrev traffic : List (Statement AccessControl (Unit {0}))
traffic =
    reserves "t" ∷ reserves "t" ∷ releases "t" ∷ inserts shared ∷ passes 10 ∷ deletes 7 "t" ∷ []

run-IsWithin_example : All IsWithin (run store traffic).shares
run-IsWithin_example = run-IsWithin store traffic (omega arith, tt)

release-reserve_example :
    update_where
      (may_release "t")
      one_less
      (update_where (may_reserve "t" 50) one_more store.shares)
    ≡ store.shares
unfolding find_where affected
release-reserve_example = release-reserve "t" 50 store.shares (refl, tt) refl

open_for_download_lem_example :
    Post
      (Gave setup store "t" "secret" "ip")
      (λ e s. Same store s)
      (open_for_download_from_ip setup "t" "secret" "ip" (works store)).0
      (open_for_download_from_ip setup "t" "secret" "ip" (works store)).1.store
unfolding find_where
open_for_download_lem_example = open_for_download_lem setup tt store (refl, tt) "t" "secret" "ip"

-- The same service with a file service that has no room.
abbrev full_setup : Setup AccessControl (Unit {0})
full_setup = record setup {
  saver = some (λ user parent name hash w. (err storage_quota_exceeded, w));
}

save_to_user_files_lem_example :
    Post
      (λ file s. Taken full_setup store "t" "secret" "ip" s)
      (λ e s. s.shares ≡ store.shares)
      (save_to_user_files_from_ip full_setup 9 "t" "secret" none "ip" (works store)).0
      (save_to_user_files_from_ip full_setup 9 "t" "secret" none "ip" (works store)).1.store
unfolding find_where
save_to_user_files_lem_example =
    save_to_user_files_lem full_setup tt store (refl, tt) "t" "secret" "ip" 9 none
      (λ user parent name hash g. refl)

create_share_lem_example :
    Post
      (Created setup 7 1 "pw" none (some (pos 3)) (ok "new") store)
      (λ e s. s.shares ≡ store.shares)
      (create_share setup 7 1 "pw" none (some (pos 3)) (ok "new") (works store)).0
      (create_share setup 7 1 "pw" none (some (pos 3)) (ok "new") (works store)).1.store
create_share_lem_example = create_share_lem setup 7 1 "pw" none (some (pos 3)) (ok "new") store
