-- ===== src/Copybooks.antt =====
-- The copybook dependencies of the programs in an upload:
-- src/modules/conversions/domain/copybook-dependency-resolver.ts.
pub mod Units
pub mod Statements
pub mod Names
pub mod Entries
pub mod Resolver
pub mod Reference
pub mod Paths
pub mod Literal
pub mod Extracted
pub mod Lines
pub mod Candidates
pub mod Agreement
pub mod Descent
pub mod Answers
pub mod Correct
pub mod Indexed
pub mod Bundle
pub mod Current
pub mod Blockers
mod Tests
