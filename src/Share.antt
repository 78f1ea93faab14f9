-- ===== src/Share.antt =====
-- internal/share, for shares of one file: model.go, access_control.go without Redis, repository.go and
-- service.go. Collections and the HTTP handlers are not here.
pub mod Model
pub mod Control
pub mod Repository
pub mod Service
pub mod Public
pub mod Save
pub mod Access
pub mod Checks
pub mod Visit
pub mod Download
pub mod Refund
pub mod Creation
mod Tests
