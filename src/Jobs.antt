-- ===== src/Jobs.antt =====
-- The durable queue of automation jobs: app/models/job.py and app/jobs.
pub mod Model
pub mod Repository
pub mod Operations
pub mod Processor
pub mod Service
pub mod Worker
mod Scenarios
