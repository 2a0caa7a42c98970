-- ===== src/Protocol/Job.antt =====
-- internal/protocol/types.go: `Job`, and the requests of clients. A time is a number of
-- nanoseconds, and 0 is Go's zero time. `Result`, which only `Status` fills, is not kept here.
use grok_mcp.Prelude.{ℕ, String, Bool, false, List, [], ◌==◌, ℕ_eq}
use grok_mcp.Protocol.State.{JobState, ViewMode, InputOwner, PlanDecision}

pub record Job : Type 0 where
  pub request_phase : String
  pub approval_id : String
  pub approval_connection_id : String
  pub approval_supports_notes : Bool
  pub approval_delivery : String
  pub pause_reason : String
  pub result_turn_id : String
  pub accepted_request_id : String
  pub queued_request_ids : List String
  pub request_id : String
  pub approved : Bool
  pub plan_version : ℕ
  pub plan_turn_id : String
  pub event_cursor : ℕ
  pub last_activity_at : ℕ
  pub activity_kind : String
  pub wait_reason : String
  pub job_id : String
  pub codex_thread_id : String
  pub grok_session_id : String
  pub cwd : String
  pub project_id : String
  pub project : String
  pub title : String
  pub state : JobState
  pub view_mode : ViewMode
  pub desired_view_mode : ViewMode
  pub input_owner : InputOwner
  pub plan_digest : String
  pub plan_summary : String
  pub last_action : String
  pub last_summary : String
  pub busy : Bool
  pub user_cancelled : Bool
  pub created_at : ℕ
  pub updated_at : ℕ
  pub archived_at : ℕ
  pub elapsed_seconds : ℕ
  pub debug_enabled : Bool
  pub debug_cursor : ℕ
  pub queue_length : ℕ
  pub active_turn_id : String
  pub terminal_pid : ℕ
  pub terminal_window_id : String
  pub stalled : Bool
  pub stalled_reason : String

-- Go's `Job{}`.
abbrev pub zero_job : Job
zero_job = record {
  request_phase = "";
  approval_id = "";
  approval_connection_id = "";
  approval_supports_notes = false;
  approval_delivery = "";
  pause_reason = "";
  result_turn_id = "";
  accepted_request_id = "";
  queued_request_ids = [];
  request_id = "";
  approved = false;
  plan_version = 0;
  plan_turn_id = "";
  event_cursor = 0;
  last_activity_at = 0;
  activity_kind = "";
  wait_reason = "";
  job_id = "";
  codex_thread_id = "";
  grok_session_id = "";
  cwd = "";
  project_id = "";
  project = "";
  title = "";
  state = JobState.unset;
  view_mode = ViewMode.unset;
  desired_view_mode = ViewMode.unset;
  input_owner = InputOwner.unset;
  plan_digest = "";
  plan_summary = "";
  last_action = "";
  last_summary = "";
  busy = false;
  user_cancelled = false;
  created_at = 0;
  updated_at = 0;
  archived_at = 0;
  elapsed_seconds = 0;
  debug_enabled = false;
  debug_cursor = 0;
  queue_length = 0;
  active_turn_id = "";
  terminal_pid = 0;
  terminal_window_id = "";
  stalled = false;
  stalled_reason = "";
}

pub record PlanDecideRequest : Type 0 where
  pub approval_id : String
  pub request_id : String
  pub turn_id : String
  pub plan_version : ℕ
  pub job_id : String
  pub decide : PlanDecision
  pub notes : String

abbrev pub is_zero : ℕ → Bool
is_zero t = t == 0

-- One second of Go's `time.Duration`.
abbrev pub second : ℕ
second = 1_000_000_000
