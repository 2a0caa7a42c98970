-- ===== src/Supervisor.antt =====
-- internal/supervisor: the service that runs jobs, one turn at a time each.
pub mod State
pub mod Records
pub mod Fifo
pub mod Recover
pub mod Turn
pub mod Calls
pub mod Plan
pub mod Cancel
pub mod Pump
pub mod Watchdog
pub mod Idle
pub mod View
pub mod Agreement
pub mod Durable
pub mod Starting
pub mod Staleness
pub mod Busy
pub mod Loaded
pub mod Saved
pub mod BusySteps
pub mod Exclusion
pub mod Decisions
pub mod Decided
pub mod Delivery
pub mod Jobs
pub mod Wait
pub mod Deleted
pub mod Accepting
pub mod Broadcast
pub mod Approvals
pub mod Targets
pub mod Cancellation
pub mod Restart
pub mod AcceptedWork
pub mod Outcomes
mod Samples
mod Runs
mod Examples
mod JobExamples
pub mod Release
pub mod Stalls
pub mod Watched
pub mod ViewEpochs
