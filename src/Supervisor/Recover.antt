-- ===== src/Supervisor/Recover.antt =====
-- internal/supervisor/recover.go: lost connections, and the restart of the process.
use grok_mcp.Prelude.{
  ℕ, String, Bool, true, false, not, ◌&&◌, ◌||◌, List, [], ◌∷◌, map, Option, none, some, ◌==◌, ◌!=◌,
  String_eq, if◌then◌else◌,
}
use grok_mcp.Protocol.State.{
  supervisor, tui, handoff, plan_ready, disconnected, headless, is_active, JobState_eq, ViewMode_eq,
  InputOwner_eq,
}
use grok_mcp.Protocol.Job.{Job}
use grok_mcp.Store.Tables.{JobRow, get_job, scan_job}
use grok_mcp.Store.Queries.{list_jobs}
use grok_mcp.Supervisor.State.{
  Runtime, Service, runtime, set_runtime, next_u64, Err, persistence, not_found, connection,
}
use grok_mcp.Supervisor.Records.{load, touch, save, write, emit}

-- The job as a restart leaves it: nothing runs, and what was underway is in doubt.
abbrev pub expired_plan : Job → Job
expired_plan job =
    if job.state == plan_ready
    then record job { pause_reason = "approval_expired"; approval_delivery = "expired" }
    else job

abbrev pub doubted_delivery : Job → Job
doubted_delivery job =
    if job.approval_delivery == "submitted"
    then record job {
      approval_delivery = "unknown";
      pause_reason = "approval_delivery_unknown";
      approved = false;
    }
    else job

abbrev pub was_active : Job → Bool
was_active job = is_active job.state || job.state == disconnected

abbrev pub resume_reason : Job → String
resume_reason job =
    if job.pause_reason == ""
    then (if job.request_phase == "queued" || job.request_phase == "preparing"
        then "request_not_sent"
        else "execution_unknown")
    else job.pause_reason

abbrev pub parked : Job → Job
parked job =
    if was_active job
    then record job {
      state = disconnected;
      last_action = "等待手动恢复";
      pause_reason = resume_reason job;
    }
    else job

abbrev pub headless_job : Job → Job
headless_job job = record job {
  view_mode = headless;
  desired_view_mode = headless;
  input_owner = supervisor;
}

-- Whether a restart has nothing to change: the test is made after the approval was looked at.
abbrev pub at_rest : Job → Bool
at_rest job =
    not (was_active job)
    && job.state != plan_ready
    && job.view_mode == headless
    && job.desired_view_mode == headless
    && job.input_owner == supervisor

abbrev pub resumed : Job → Job
resumed job = headless_job (parked (doubted_delivery (expired_plan job)))

-- `markAwaitingResume`
unfoldable pub mark_awaiting_resume : ℕ → String → Service → Service × Option Err
mark_awaiting_resume now id s = elim (get_job s.store id) [
  | none ↦ (s, some not_found)
  | some rec ↦
      if rec.job.user_cancelled || at_rest (doubted_delivery (expired_plan rec.job))
      then (s, none)
      else elim (write (record rec { job = touch now s (resumed rec.job) }) s) [
        | none ↦ (s, some persistence)
        | some t ↦ (emit now (touch now s (resumed rec.job)) t, none)
      ]
]

abbrev pub disconnected_runtime : Runtime → Runtime
disconnected_runtime rt = record rt {
  gen = next_u64 rt.gen;
  cancelled_turn = true;
  queue = [];
  term = none;
  view_requested = false;
  attach_gen = next_u64 rt.attach_gen;
  wait_cancel = false;
}

abbrev pub disconnected_job : String → Job → Job
disconnected_job reason job = record (delivery (down (headless_job job))) {
  last_action = "连接已断开，请手动继续";
  last_summary = reason;
}
  where
    down : Job → Job
    down j = if j.state != plan_ready then record j { state = disconnected } else j

    delivery : Job → Job
    delivery j = if j.approval_delivery == "submitted" then doubted_delivery j else expired_plan j

-- `disconnectLocked`
unfoldable pub disconnect_locked : ℕ → String → String → Service → Service
disconnect_locked now id reason s = elim (load s id) [
  | none ↦ s
  | some job ↦
      if job.user_cancelled
      then s
      else (save now (touch now s (disconnected_job reason job))
          (set_runtime id (disconnected_runtime (runtime s id)) s)).0
]

-- `connectionLost`: the jobs that are disconnected, in the order of the listing.
abbrev pub loses_connection : Job → Bool
loses_connection job =
    is_active job.state
    || job.state == plan_ready
    || job.input_owner == tui
    || job.input_owner == handoff

unfoldable pub disconnect_all : ℕ → List Job → Service → Service
disconnect_all now [] s = s
disconnect_all now (job ∷ jobs) s =
    disconnect_all now jobs
      (if loses_connection job then disconnect_locked now job.job_id "连接已断开，请手动继续" s else s)

unfoldable pub connection_lost : ℕ → Service → Service
connection_lost now s = if s.closed then s else elim (list_jobs s.store) [
  | none ↦ s
  | some rows ↦
      let t = disconnect_all now (map (λ (row : JobRow). (scan_job s.store row).job) rows) s in
      record t { sent = connection ∷ t.sent }
]
