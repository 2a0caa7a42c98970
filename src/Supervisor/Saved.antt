-- ===== src/Supervisor/Saved.antt =====
-- internal/supervisor/coordinator.go: what a job that was saved reads back as.
use grok_mcp.Prelude.{◌!=◌, String_eq, if◌then◌else◌, ◌≡◌}
use grok_mcp.Protocol.State.{ViewMode_eq}
use grok_mcp.Protocol.Job.{Job}
use grok_mcp.Store.Tables.{Store, desired_view}

-- What a write may fill in: the phase of a request that is new to the job, and the view that is
-- wished for, where the job has none.
pub record Fills (old a b : Job) : Type 0 where
  pub phase :
      b.request_phase ≡ (if a.request_id != old.request_id then "queued" else a.request_phase)
  pub wished : b.desired_view_mode ≡ desired_view a

-- The same of a job on its way to the table.
record Filled (old a b : Job) : Type 0 where
  phase : b.request_phase ≡ (if a.request_id != old.request_id then "queued" else a.request_phase)
  wished : desired_view b ≡ desired_view a
