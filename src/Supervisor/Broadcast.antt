-- ===== src/Supervisor/Broadcast.antt =====
-- internal/supervisor/coordinator.go and service.go: what is broadcast with a write.
use grok_mcp.Prelude.{◌≡◌, length}
use grok_mcp.Protocol.Job.{Job}
use grok_mcp.Store.Tables.{Store}
use grok_mcp.Supervisor.State.{Runtime}

-- What clients are shown of a job: its own fields, and those of its runtime.
pub record Shows (rt : Runtime) (job shown : Job) : Type 0 where
  pub job_id : shown.job_id ≡ job.job_id
  pub state : shown.state ≡ job.state
  pub request_id : shown.request_id ≡ job.request_id
  pub pause_reason : shown.pause_reason ≡ job.pause_reason
  pub approval_id : shown.approval_id ≡ job.approval_id
  pub approval_delivery : shown.approval_delivery ≡ job.approval_delivery
  pub approved : shown.approved ≡ job.approved
  pub plan_version : shown.plan_version ≡ job.plan_version
  pub plan_summary : shown.plan_summary ≡ job.plan_summary
  pub last_summary : shown.last_summary ≡ job.last_summary
  pub view_mode : shown.view_mode ≡ job.view_mode
  pub input_owner : shown.input_owner ≡ job.input_owner
  pub event_cursor : shown.event_cursor ≡ job.event_cursor
  pub busy : shown.busy ≡ rt.busy
  pub turn : shown.active_turn_id ≡ rt.turn_id
  pub queue_length : shown.queue_length ≡ length rt.queue
  pub stalled : shown.stalled ≡ rt.stalled
