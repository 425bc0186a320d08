-- ===== src/OutcomeFile.antt =====
-- internal/workloadrec/outcome.go: the files that the outcomes of a run are written to, and read
-- from by a comparison. The file is its lines; a JSON encoder and decoder of the three kinds of line
-- is a parameter (Lines), beside the byte functions of the recordings. A nil OutcomeWriter, on which
-- Write, Snapshot and Close do nothing, is left out, and so are opening and closing for the reader.
pub mod Lines
pub mod Writer
pub mod Closing
pub mod Reader
pub mod Kept
pub mod Runs
pub mod Ended
pub mod Readback
pub mod Roundtrip
pub mod Cutting
pub mod Torn
pub mod Undisturbed
mod Sample
mod Examples
