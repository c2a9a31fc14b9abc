-- ===== src/Leads.antt =====
-- The status of a sales lead and its log of phone calls: src/modules/leads.
pub mod Types
pub mod Repository
pub mod Status
pub mod PhoneCalls
pub mod Steps
pub mod Moves
pub mod Logging
pub mod Calls
pub mod Replays
mod Tests
