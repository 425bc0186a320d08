-- ===== src/Recording/Writer.antt =====
-- writer.go: the Recorder. Each method is a function on its state; the methods run by workers and
-- the rounds of the writer goroutine are steps, and a run is a list of them. A worker's state test,
-- encoding and send are one step. A send into a full queue under backpressure block waits until the
-- writer takes an entry: the step makes the writer's round first. What the disk answers is an
-- argument (`none` is success).
pub mod State
pub mod Open
pub mod Steps
pub mod Close
pub mod Run
pub mod Lines
pub mod Faithful
pub mod Offers
pub mod Stopped
pub mod Finished
