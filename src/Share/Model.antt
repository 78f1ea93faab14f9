-- ===== src/Share/Model.antt =====
-- internal/share/model.go and the types of access_control.go.
use cloud_box.Base.{ℕ, String, Option, List, Bool}
use cloud_box.Fail.{Result}
use cloud_box.File.Model.{UserFile, FileObject, FilePreview}

-- The column `password_hash` is NULL where the field is "".
pub record Share : Type 0 where
  pub token : String
  pub user_file_id : ℕ
  pub password_hash : String
  pub expires_at : Option ℕ
  pub max_downloads : Option ℕ
  pub download_count : ℕ
  pub created_at : ℕ

-- A share with the columns that ListByUser adds.
pub record ListedShare : Type 0 where
  pub share : Share
  pub original_name : String
  pub size : ℕ
  pub content_type : String
  pub has_preview : Bool

pub record SharedFile : Type 0 where
  pub object_id : ℕ
  pub id : ℕ
  pub original_name : String
  pub storage_path : String
  pub size : ℕ
  pub content_type : String
  pub file_hash : String

pub record PublicFile : Type 0 where
  pub original_name : String
  pub size : ℕ
  pub content_type : String
  pub has_preview : Bool

pub record SharedPreview : Type 0 where
  pub storage_path : String
  pub content_type : String
  pub created_at : ℕ

pub data AccessAction : Type 0 where
  info preview download save : AccessAction

pub data AccessResult : Type 0 where
  allowed denied rate_limited locked : AccessResult

pub record AccessAudit : Type 0 where
  pub token : String
  pub ip_hash : String
  pub action : AccessAction
  pub result : AccessResult

-- The interface AccessController, over the state `C` of its implementation; the clock is passed.
pub record AccessController (C : Type 0) : Type 0 where
  pub allow_download : String → String → ℕ → C → Result Bool × C
  pub password_locked : String → String → ℕ → C → Result Bool × C
  pub record_password_failure : String → String → ℕ → C → Result (Unit {0}) × C
  pub clear_password_failures : String → String → C → Result (Unit {0}) × C

-- The tables that shares use, the state of the access controller, that of the file service, and the
-- clock, which the database and the process share.
pub record Store (C G : Type 0) : Type 0 where
  pub shares : List Share
  pub user_files : List UserFile
  pub objects : List FileObject
  pub previews : List FilePreview
  pub audits : List AccessAudit
  pub control : C
  pub workspace : G
  pub clock : ℕ
