-- ===== src/Recording.antt =====
-- internal/workloadrec: workload recordings. The records of format.go and outcome.go, the codec that
-- the source takes from the Go library and the BSON driver, the recorder (writer.go), the readers
-- (reader.go), and the comparison of data fingerprints (fingerprint.go). A JSON map keyed by the
-- decimal form of a number is a map keyed by the number. Sizes and counts that a program reaches by
-- counting up are natural numbers; the uint64 counters wrap.
pub mod Format
pub mod Codec
pub mod Reader
pub mod Writer
pub mod Fingerprint
pub mod Reading
pub mod Accepted
pub mod Roundtrip
pub mod Sums
pub mod Sorted
pub mod Hashes
mod Examples
