-- ===== src/Phone.antt =====
-- The one-time codes that verify a phone number: src/modules/auth.
pub mod Repository
pub mod Service
pub mod Tables
pub mod Outcomes
pub mod Calls
pub mod Single
pub mod Guesses
pub mod Windows
pub mod Limits
pub mod Removal
pub mod Answers
mod Tests
