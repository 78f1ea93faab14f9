-- ===== src/Upload.antt =====
-- internal/upload: uploads in chunks. `Model` has the rows, `Repository` the statements, `Plan` the sizes of
-- chunks, `Service` and `Complete` the operations; the other modules hold the proofs.
pub mod Model
pub mod Repository
pub mod Plan
pub mod Service
pub mod Complete
pub mod Status
pub mod Outcome
pub mod Merge
pub mod Finish
pub mod Completion
pub mod Moves
pub mod Receive
pub mod Record
pub mod Accept
pub mod Trace
mod Tests
