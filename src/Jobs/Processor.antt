-- ===== src/Jobs/Processor.antt =====
-- app/jobs/processor.py: the processing of one claimed job.
pub mod Retry
pub mod Persisted
pub mod Outcome
pub mod ShortPause
pub mod RestRequest
pub mod WaitField
pub mod Dispatch
pub mod Settled
pub mod Finished
pub mod Delays
pub mod Checkpoint
pub mod Refinement
pub mod Robots
pub mod Waiting
mod Scenarios
