-- ===== src/Support.antt =====
-- The support context: src/modules/support/domain/support-context.entity.ts.
pub mod Context
pub mod Lifetime
mod Tests
