-- ===== src/Jobs.antt =====
-- Durable background work (src/blitzecdn/capabilities/jobs): the job and schedule tables, the
-- queue over them, the scheduler and the worker's loop.
pub mod Domain
pub mod Backoff
pub mod Store
pub mod Queue
pub mod Schedule
pub mod Scheduler
pub mod Runner
pub mod Operations
mod Examples
mod ScheduleExamples
