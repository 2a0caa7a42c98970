-- ===== src/Protocol.antt =====
-- internal/protocol: the data that the supervisor, the store and the clients share.
pub mod State
pub mod Job
pub mod TaskState
pub mod Contract
pub mod Group
