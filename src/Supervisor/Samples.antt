-- ===== src/Supervisor/Samples.antt =====
-- Sample jobs, requests and services of the tests.
use grok_mcp.Prelude.{String, Bool, true, false, [], ◌∷◌, none, some}
use grok_mcp.Protocol.State.{
  JobState, TaskMarker, executing, plan_ready, headless, headed, supervisor, approve,
}
use grok_mcp.Protocol.Job.{Job, zero_job, PlanDecideRequest}
use grok_mcp.Protocol.TaskState.{TaskState}
use grok_mcp.Store.Tables.{Record, scan_job}
use grok_mcp.Supervisor.State.{Queued, Handle, Service}
use grok_mcp.Supervisor.Records.{load, ensure_runtime, touch, or_job}
use grok_mcp.Supervisor.Turn.{PromptResult, apply_prompt_result}
use grok_mcp.Supervisor.Cancel.{cancel_begin}
use grok_mcp.Supervisor.Watchdog.{check_job_stall}
use grok_mcp.Supervisor.View.{set_view}
use grok_mcp.Supervisor.Plan.{PlanRequest, on_approval, plan_delivered, plan_decide, submitted}
use grok_mcp.Supervisor.Fifo.{enqueue, pump_begin}

-- A job that was created and runs headless.
abbrev pub fresh_job : Job
fresh_job = record zero_job {
  job_id = "j1";
  grok_session_id = "g1";
  request_id = "r1";
  cwd = "/w";
  state = executing;
  view_mode = headless;
  desired_view_mode = headless;
  input_owner = supervisor;
}

abbrev pub service_of : Job → Service
service_of job = record {
  store = record {
    readable = true;
    writable = true;
    jobs =
        record { lifecycle = job; created_at = 0; missing_marker_count = 0; recover_fails = [] }
        ∷ [];
    notifications = [];
    last_notification = 0;
    events = [];
    work_requests = [];
    turn_results = [];
    project_names = [];
    project_name = λ cwd. "w";
  };
  rt = [];
  closed = false;
  active_operations = 0;
  idle_since = 0;
  idle_done = false;
  idle_timeout = 0;
  pumps = [];
  sent = [];
  worker_alive = none;
}

abbrev pub request_item : Queued
request_item = record {
  accepted_job = none;
  connect = false;
  kind = "prompt";
  text = "go on";
  gen = 0;
  turn_id = "";
  request_id = "r1";
  planning = false;
}

abbrev pub quiet_service : Service
quiet_service = service_of fresh_job

-- The service after a request was accepted, and after its turn began.
abbrev pub accepted_service : Service
accepted_service = (enqueue 10 "u1" "j1" request_item quiet_service).0

abbrev pub running_service : Service
running_service = (pump_begin 20 "t1" "d" "j1" accepted_service).0

abbrev pub running_item : Queued
running_item = record request_item { turn_id = "t1" }

-- A job whose plan waits for a decision.
abbrev pub planned_job : Job
planned_job = record fresh_job {
  state = plan_ready;
  approval_id = "a1";
  approval_connection_id = "c1";
  approval_delivery = "pending";
  plan_version = 1;
  plan_turn_id = "t0";
  plan_summary = "1. do it";
}

abbrev pub decision : PlanDecideRequest
decision = record {
  approval_id = "a1";
  request_id = "r1";
  turn_id = "t0";
  plan_version = 1;
  job_id = "j1";
  decide = approve;
  notes = "";
}

abbrev pub pending_plan : PlanRequest
pending_plan = record {
  id = "a1";
  connection_id = "c1";
  request_id = "r1";
  turn_id = "t0";
  session_id = "g1";
  content = "1. do it";
  supports_notes = false;
  created_at = 5;
}

abbrev pub next_item : Queued
next_item = record request_item { request_id = "r2" }

abbrev pub queued_service : Service
queued_service = (enqueue 25 "u2" "j1" next_item running_service).0

abbrev pub cancelled_service : Service
cancelled_service = (cancel_begin 30 "j1" "t1" queued_service).0

abbrev pub planned_service : Service
planned_service = service_of planned_job

abbrev pub sent_decision : Job
sent_decision = touch 10 (ensure_runtime "j1" planned_service) (submitted approve planned_job)

abbrev pub decided_service : Service
decided_service = (plan_decide 10 decision (some pending_plan) planned_service).0

abbrev pub loaded : Service → Job
loaded s = or_job (load s "j1") zero_job

abbrev pub answer : PromptResult
answer = record { text = "done"; stop_reason = "end_turn" }

abbrev pub done_block : TaskState
done_block = record { state = TaskMarker.completed; summary = "all done"; next = "" }

abbrev pub completed_service : Service
completed_service =
    apply_prompt_result 40 "u4" "j1" running_item answer (some done_block) quiet_service

abbrev pub sent_record : Record
sent_record = record {
  request_phase = "sent";
  accepted = none;
  result = none;
  job = fresh_job;
  missing_marker_count = 0;
  recover_fails = [];
}

abbrev pub unused_service : Service
unused_service = record (service_of (record fresh_job { state = JobState.completed })) {
  idle_since = 1;
}

abbrev pub no_session : String → Bool
no_session session = false

-- A job that executes without a turn, and what the watchdog makes of it at its first check.
abbrev pub lone_service : Service
lone_service = service_of (record fresh_job { state = executing })

abbrev pub stuck_service : Service
stuck_service = check_job_stall 5 "j1" lone_service

abbrev pub hidden_service : Service
hidden_service = (set_view 10 "j1" headless quiet_service).0

abbrev pub terminal : Handle
terminal = record { pid = 7; window_id = "w1" }

abbrev pub headed_copy : Job
headed_copy = record fresh_job { view_mode = headed; state = plan_ready }

abbrev pub stored_record : Record
stored_record =
    scan_job quiet_service.store (record {
      lifecycle = fresh_job;
      created_at = 0;
      missing_marker_count = 0;
      recover_fails = [];
    })

abbrev pub same_text : String → String
same_text text = text

-- The approval that the running turn asks for.
abbrev pub asked_plan : PlanRequest
asked_plan = record pending_plan { turn_id = "t1" }

abbrev pub asked_service : Service
asked_service = (on_approval same_text same_text 30 asked_plan "" running_service).0

abbrev pub doubtful_service : Service
doubtful_service = (plan_delivered 20 decision false decided_service).0
