-- ===== src/File/Repository.antt =====
-- internal/file/repository.go, by the tables that the functions are about. A function is the sequence
-- of its statements, with the reading of their results; a result's `RowsAffected()` may fail too.
pub mod Files
pub mod Objects
pub mod Removal
pub mod Scans
pub mod Folders
