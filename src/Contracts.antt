-- ===== src/Contracts.antt =====
-- The contract aggregate: src/modules/crm.
pub mod Types
pub mod Store
pub mod Drafting
pub mod Revising
pub mod Review
pub mod Viewing
pub mod Evidence
pub mod Documents
pub mod Activation
pub mod Signing
pub mod Envelopes
pub mod Invariant
pub mod Steps
pub mod Writes
pub mod RevisingSteps
pub mod ReviewSteps
pub mod EvidenceSteps
pub mod SigningSteps
pub mod Trace
pub mod Idempotence
pub mod Access
pub mod FourEyes
pub mod Archiving
pub mod Freshness
pub mod Reopening
mod Tests
