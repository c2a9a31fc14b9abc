-- ===== src/Jobs.antt =====
-- Conversion jobs: src/modules/conversions/infrastructure/mongo-conversion-job.repository.ts and
-- the queue worker in conversion-worker.runner.ts beside it.
pub mod Types
pub mod Repository
pub mod Calls
pub mod Changes
pub mod Kept
pub mod Worker
pub mod Leases
pub mod Generations
pub mod Deliveries
pub mod Fencing
pub mod Invariant
pub mod Completions
mod Tests
