-- ===== src/Compare.antt =====
-- internal/replaycompare/compare.go: two executions of the same operations. A map is an association
-- list, and a shape's index is its name. The interner hands back its argument and is left out.
pub mod Outcomes
pub mod Operations
pub mod Feed
pub mod Books
pub mod Conserved
pub mod Kept
pub mod Overall
pub mod Listed
pub mod Prefix
pub mod Itself
pub mod Identity
pub mod Refused
mod Examples
