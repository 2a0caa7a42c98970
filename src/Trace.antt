-- ===== src/Trace.antt =====
-- internal/trace: the trace of what happens to jobs.
pub mod State
pub mod Redact
pub mod Emit
pub mod Read
pub mod Sequences
pub mod Numbers
pub mod Whole
pub mod Appends
pub mod Follow
pub mod Reader
pub mod Reopen
pub mod Secrets
pub mod Rotate
mod Examples
