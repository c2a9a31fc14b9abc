-- ===== src/Validation.antt =====
-- The human review of validation findings: src/modules/validation.
pub mod Findings
pub mod Review
pub mod Transitions
mod Tests
