-- ===== src/Job.antt =====
-- internal/job: the persistent queue of background jobs. `Model` has the row, `Repository` the
-- statements, `Service` what enqueues and looks up, `Runner` what a worker does. The other modules
-- hold the proofs: over any interleaving of statements (`Trace` and below), about the choice of a
-- claim, about a worker's round and about the delay between attempts.
pub mod Model
pub mod Repository
pub mod Service
pub mod Runner
pub mod Trace
pub mod Choice
pub mod Claim
pub mod Round
pub mod Lookup
pub mod Delay
mod Tests
