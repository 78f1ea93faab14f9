-- ===== src/File/Tests.antt =====
-- One file with its content, in one folder, and the theorems on them.
use cloud_box.Base.{
  ◌≤◌, All, ◌≡◌, refl, true, false, none, some, List, [], ◌∷◌, arith, Bool-cases, inl, inr, String,
}
use cloud_box.Fail.{ok}
use cloud_box.Exec.{World, works, ◌>>◌}
use cloud_box.Exec.Works.{Post}
use cloud_box.Exec.Ensures.{Anything}
use cloud_box.Sql.{find_where, affected, select_where}
use cloud_box.File.Model.{UserFile, FileObject, FileScan, Folder, active, deleted, clean}
use cloud_box.File.Tables.{Store}
use cloud_box.File.Repository.Files.{soft_delete_with_share_option, restore}
use cloud_box.File.Repository.Objects.{create_many_with_objects_in_folder, active_size}
use cloud_box.File.Repository.Removal.{permanently_delete_deleted}
use cloud_box.File.History.{Operation, removes, soft_deletes, references, claims_scan, run}
use cloud_box.File.References.{IsConsistent}
use cloud_box.File.References.History.{run-IsConsistent}
use cloud_box.File.References.LastFile.{Removed, permanently_delete_deleted_lem}
use cloud_box.File.References.View.{view, remove_file}
use cloud_box.File.References.Refinement.{permanently_delete_deleted-view}
use cloud_box.File.Trash.{restore-soft_delete}
use cloud_box.File.Verdicts.{Standing}
use cloud_box.File.Verdicts.History.{run-Standing}
use cloud_box.File.Verdicts.Ends.{HasScan, is_over}
use cloud_box.File.Verdicts.Begins.{unscanned}
use cloud_box.File.Verdicts.Scanned.{scan_active_file-HasScan}
use cloud_box.File.Service.Scan.{scan_active_file}
use cloud_box.File.Quota.{create_many_with_objects_in_folder-quota}
use cloud_box.File.Tree.{root, below, Decided, IsForest, check_ancestors_lem}
use cloud_box.File.Tree.Sizes.{TreeSize}
use cloud_box.File.Tree.Listing.{list_folders_lem}
use cloud_box.File.Repository.Folders.{list_folders}
use cloud_box.File.Tables.{stands_in}
use cloud_box.File.Tree.Walk.{move_folder-IsForest}
use cloud_box.File.Clean.{IsServable, open_for_download-IsServable}
use cloud_box.File.Service.{Setup, Storage}
use cloud_box.File.Service.Access.{open_for_download}
use cloud_box.File.Repository.Folders.{is_folder}
use cloud_box.File.Service.Folders.{check_ancestors, move_folder}
use cloud_box.File.Service.Scan.{thumbnail_dimensions}
use cloud_box.File.Thumbnails.{IsSide, thumbnail_dimensions-IsSide}

abbrev picture : UserFile
picture = record {
  id = 1;
  user_id = 7;
  parent_id = none;
  object_id = some 4;
  original_name = "picture.png";
  storage_path = "ab.png";
  size = 3;
  content_type = "image/png";
  status = active;
  created_at = 1;
  deleted_at = none;
}

abbrev picture_object : FileObject
picture_object = record {
  id = 4;
  file_hash = "ab";
  storage_path = "ab.png";
  size = 3;
  content_type = "image/png";
  reference_count = 1;
  created_at = 1;
}

abbrev picture_scan : FileScan
picture_scan = record {
  file_object_id = 4;
  status = clean;
  signature = none;
  scanned_at = some 2;
  created_at = 1;
  updated_at = 2;
}

abbrev album : Folder
album = record {
  id = 2;
  user_id = 7;
  parent_id = none;
  name = "album";
  size = 0;
  created_at = 1;
  updated_at = 1;
}

abbrev store : Store (Unit {0})
store = record {
  users = 7 ∷ [];
  user_files = picture ∷ [];
  objects = picture_object ∷ [];
  folders = album ∷ [];
  previews = [];
  scans = picture_scan ∷ [];
  shares = [];
  task_folders = [];
  next_file_id = 2;
  next_object_id = 5;
  next_folder_id = 3;
  clock = 50;
  env = tt;
}

abbrev storage : Storage (Unit {0}) String
storage = record {
  save = λ content name s. (ok ("cd.png", 3, "cd"), s);
  open_file = λ path s. ok "...";
  delete = λ path s. (ok tt, s);
}

abbrev setup : Setup (Unit {0}) String
setup = record {
  dialect = record { like = λ pattern text. true; lower = λ text. text; before = λ a b. true };
  storage = storage;
  hash_of = λ content. "ab";
  storage_quota_bytes = 10;
  storage_usage_cache = none;
  storage_usage_cache_ttl = 0;
  storage_quota_provider = none;
  trash_retention = 0;
  job_enqueuer = none;
  virus_scanner = some (λ content s. (ok (record { is_infected = false; signature = "" }), s));
  video_thumbnail = none;
  image_thumbnail = λ content. ok (content, 1, 1);
}

store-IsConsistent : IsConsistent store
unfolding find_where affected
store-IsConsistent = record {
  object_ids = (refl, tt);
  object_hashes = (refl, tt);
  file_ids = (refl, tt);
  object_fresh = λ k later. ground arith;
  file_fresh = λ k later. ground arith;
  counted = λ k. ground arith;
}

abbrev operations : List Operation
operations =
    references 7 none "copy.png" picture_object
    ∷ soft_deletes 7 1 false
    ∷ removes 7 1
    ∷ claims_scan 4
    ∷ []

abbrev failing : World (Store (Unit {0}))
failing = record { outcomes = none ∷ none ∷ none ∷ some "connection lost" ∷ []; store = store }

run-IsConsistent_example : IsConsistent ((run operations failing).1).store
run-IsConsistent_example = run-IsConsistent operations failing store-IsConsistent

run-Standing_example :
    Standing 4 clean
      ((run operations failing).1.store).objects
      ((run operations failing).1.store).scans
unfolding find_where
run-Standing_example =
    run-Standing 4 clean refl operations failing picture_scan store-IsConsistent (omega arith) refl
      refl

permanently_delete_deleted_lem_example :
    Post
      (Removed 7 1)
      (λ _ s. s ≡ store)
      (permanently_delete_deleted 7 1 (works store)).0
      ((permanently_delete_deleted 7 1 (works store)).1).store
permanently_delete_deleted_lem_example =
    permanently_delete_deleted_lem 7 1 (works store) store-IsConsistent

-- The picture in the trash, its content counted once.
abbrev trash_store : Store (Unit {0})
trash_store = record store {
  user_files = record picture { status = deleted; deleted_at = some 3 } ∷ [];
}

trash_store-IsConsistent : IsConsistent trash_store
unfolding find_where affected
trash_store-IsConsistent = record {
  object_ids = (refl, tt);
  object_hashes = (refl, tt);
  file_ids = (refl, tt);
  object_fresh = λ k later. ground arith;
  file_fresh = λ k later. ground arith;
  counted = λ k. ground arith;
}

permanently_delete_deleted-view_example :
    Post
      (λ _ s. view s ≡ remove_file 7 1 (view trash_store))
      (λ _ s. s ≡ trash_store)
      (permanently_delete_deleted 7 1 (works trash_store)).0
      ((permanently_delete_deleted 7 1 (works trash_store)).1).store
permanently_delete_deleted-view_example =
    permanently_delete_deleted-view 7 1 (works trash_store) trash_store-IsConsistent

restore-soft_delete_example :
    (do soft_delete_with_share_option 7 1 true; restore 7 1) (works store) ≡ (ok tt, works store)
unfolding find_where
restore-soft_delete_example =
    restore-soft_delete 7 1 store true picture refl (refl, tt) ((λ _. refl), tt)

create_many_with_objects_in_folder-quota_example :
    Post
      (λ _ s. active_size 7 s ≤ 10)
      Anything
      (create_many_with_objects_in_folder 7 none
        (picture_object ∷ [])
        ("a" ∷ [])
        10
        (works store)).0
      ((create_many_with_objects_in_folder 7 none
          (picture_object ∷ [])
          ("a" ∷ [])
          10
          (works store)).1
        ).store
create_many_with_objects_in_folder-quota_example =
    create_many_with_objects_in_folder-quota 7 10 none (picture_object ∷ []) ("a" ∷ [])
      (works store) (omega arith)

check_ancestors_lem_example : Decided 7 5 store 2 (check_ancestors 1 7 5 (some 2) (works store))
unfolding find_where
check_ancestors_lem_example =
    check_ancestors_lem 7 5 store 1 2 0 (root 2 album refl refl) (omega arith)

store-IsForest : IsForest 7 store.folders
unfolding find_where
store-IsForest id d e = elim (Bool-cases (is_folder 7 id album)) [
  | inl t ↦ (0, root id album (rw t refl) refl)
  | inr t ↦ absurd (missing (rw t at e))
]
  where
    missing : none ≡ some d → ⊥
    missing e = cc

move_folder-IsForest_example :
    IsForest 7 (((move_folder setup 1 7 2 none (works store)).1).store).folders
move_folder-IsForest_example = move_folder-IsForest setup 1 7 2 none (works store) store-IsForest

open_for_download-IsServable_example :
    Post
      (λ _ s. IsServable 1 s)
      Anything
      (open_for_download setup 7 1 (works store)).0
      ((open_for_download setup 7 1 (works store)).1).store
open_for_download-IsServable_example =
    open_for_download-IsServable setup
      (λ content s. (ok (record { is_infected = false; signature = "" }), s)) refl 7 1 (works store)

thumbnail_dimensions-IsSide_example :
    IsSide 320 (thumbnail_dimensions 640 1 320).0 × IsSide 320 (thumbnail_dimensions 640 1 320).1
thumbnail_dimensions-IsSide_example =
    thumbnail_dimensions-IsSide 640 1 320 (omega arith) (omega arith) (omega arith)

abbrev new_store : Store (Unit {0})
new_store = record store { scans = [] }

scan_active_file-HasScan_example :
    HasScan 4 is_over ((scan_active_file setup 7 1 (works new_store)).1).store
unfolding find_where select_where
scan_active_file-HasScan_example =
    scan_active_file-HasScan setup
      (λ content s. (ok (record { is_infected = false; signature = "" }), s)) 7 1 picture_object
      new_store refl refl refl (unscanned refl refl)

abbrev inner : Folder
inner = record album { id = 3; parent_id = some 2 }

abbrev nested : List Folder
nested = album ∷ inner ∷ []

abbrev nested_store : Store (Unit {0})
nested_store = record store {
  folders = nested;
  user_files = record picture { parent_id = some 3 } ∷ [];
}

nested-IsForest : IsForest 7 nested_store.folders
unfolding find_where
nested-IsForest id d e = elim (Bool-cases (is_folder 7 id album)) [
  | inl t ↦ (0, root id album (rw t refl) refl)
  | inr t ↦ elim (Bool-cases (is_folder 7 id inner)) [
    | inl u ↦ (1, below id 2 0 inner (rw (t, u) refl) refl (root 2 album refl refl))
    | inr u ↦ absurd (missing (rw (t, u) at e))
  ]
]
  where
    missing : none ≡ some d → ⊥
    missing e = cc

list_folders_lem_example :
    (rows : List Folder) × (list_folders setup.dialect 7 none (works nested_store)
      ≡ (ok rows, works nested_store))
    × All
        (λ d.
          (d.user_id ≡ 7)
          × (stands_in none d.parent_id ≡ true)
          × TreeSize 7 nested_store.folders nested_store.user_files d.id d.size)
        rows
unfolding find_where
list_folders_lem_example =
    list_folders_lem setup.dialect 7 none nested_store (refl, (refl, tt)) nested-IsForest
