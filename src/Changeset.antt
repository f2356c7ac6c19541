-- ===== src/Changeset.antt =====
-- The module base_changeset: field rules, recorded changes, and their approval or rejection.
pub mod Orm
pub mod Rules
pub mod Values
pub mod State
pub mod Add
pub mod Base
pub mod Apply
mod Samples
mod Tests
