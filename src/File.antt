-- ===== src/File.antt =====
-- internal/file: the files, folders, contents, previews and virus scans of users.
pub mod Model
pub mod Tables
pub mod Repository
pub mod History
pub mod Trash
pub mod Service
pub mod Tree
mod Tests
pub mod Clean
pub mod Quota
pub mod Thumbnails
pub mod Verdicts
pub mod References
