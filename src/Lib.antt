-- ===== src/Lib.antt =====
-- Percona Load Generator for MongoDB: a model of the parts that decide how much load is asked for,
-- what is recorded of it, what is counted, and how two executions differ.
--
-- LoadProfile (internal/loadprofile/loadprofile.go): `compile` is Compile, `target_at` is
--   Schedule.TargetAt. Durations are int64 nanoseconds and wrap; what the ramp and the sine compute in
--   floating point, and what ParseDuration answers, are arguments.
-- Recording (internal/workloadrec): Format is the lines of format.go and outcome.go; Writer the
--   Recorder of writer.go (Steps: Record, Fail, SetIteration and a round of run; Open: NewRecorder;
--   Close: Close); Reader is Scan and Stream of reader.go; Codec what they take from encoding/json,
--   SHA-256 and the BSON driver, with the laws that the proofs use. A run is a list of events of
--   workers and of the writer in any order; the disk's answers are arguments, and a failed write
--   adds nothing. `written` is what the buffered writer was given, `file` what a flush has brought to
--   the file for certain: the header's, and Close's. Reading, Accepted and Roundtrip bring the two
--   sides together; Sums, Sorted and Hashes are about the workers' sums in the commands hash.
--   Fingerprint is CompareDataFingerprints of fingerprint.go.
-- OperationMode (internal/webui/operation_mode.go, config.DataFingerprintMode): applyOperationMode
--   and inferDashboardMode on the settings that they read and set.
-- RecordPool (internal/mongo/recordpool.go): the documents kept per namespace.
-- Impact (internal/stats/impact.go): impactState.record, and in View the rows and the coverage of
--   buildImpactView.
-- Sweep (internal/webui/sweep.go): parseSweepWorkers and runSweep over what each level does.
-- Compare (internal/replaycompare/compare.go): Outcomes is `result` with toResult and outcome;
--   Operations the comparer with pair, addDiff and trimDiffs; Feed the passes of Compare over both
--   files; Overall is mergeTotals; Identity is Compare with checkIdentity and the refusals. Books,
--   Conserved, Kept, Listed, Prefix, Itself and Refused are proofs.
-- WorkloadTargets (internal/config/workload_targets.go): ParseReplayTargets, TargetPath and
--   ValidateWorkloadTargets.
-- MultiTarget (internal/multitarget/multitarget.go, cmd/plgm/multitarget.go): NewPlan, the run of a
--   target, both loops of Plan.Run (a concurrent run is a relation of the goroutines' steps), compare
--   and the exit code. Schedule, Statuses, Finished, Plans and Ends are proofs.
-- OutcomeFile (internal/workloadrec/outcome.go): Writer is the OutcomeWriter while a run goes on
--   (Write waits for a round of the goroutine where the queue is full), Closing its Close, Reader
--   StreamOutcomes; Lines has the JSON codec of the lines with its laws. Kept, Runs, Ended, Readback,
--   Roundtrip, Cutting and Torn (a file whose writer was not closed, which holds a first part of the
--   bytes written) and Undisturbed are proofs.
-- Replay (internal/mongo/workload_replay.go): the callback, the queues and the workers of
--   runWorkloadReplay as steps in any order, and the status; Hash is its commands hash and the
--   comparison with the trailer's. Totals, Moves, Changes, Held, Turns, Order, Complete, Barrier,
--   Bounded, Progress and Skipped are proofs.
-- Prelude: tests, lists, results, int64, maps as association lists, and text.
--
-- The web interface starts a run in a mode (OperationMode), at a load (LoadProfile), possibly once
-- for each worker count (Sweep); its workers choose documents (RecordPool), record what they do
-- (Recording) or its outcome (OutcomeFile), and are counted (Impact); one run can have several
-- targets (WorkloadTargets, MultiTarget); a recording is replayed (Replay), and two recordings or
-- outcome files are compared (Compare). Loops go over a list, and the only list that the source
-- does not bound is a run's events. The only fuel is that of the decimal digits of an int32, which
-- are ten at most. Mutexes and atomics are not modelled: a step is one critical section, or what a
-- worker does between two sends. Not modelled are the calls of the MongoDB driver
-- (live and deterministic workloads, the raw injector, execution of operations), whose behaviour is
-- outside the repository; the HTTP handlers and pages; the reports (of a comparison: its texts,
-- latencies and commands; trends, insights, index advice), which are floating-point statistics,
-- heuristics and texts; random data; the loading of configurations and definitions; the compression
-- of recordings; and peeking at a recording, which reads bytes where the model has lines.
mod Prelude
pub mod LoadProfile
pub mod Recording
pub mod OperationMode
pub mod RecordPool
pub mod Impact
pub mod Sweep
pub mod Compare
pub mod WorkloadTargets
pub mod MultiTarget
pub mod OutcomeFile
pub mod Replay
