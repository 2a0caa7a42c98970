-- ===== src/Supervisor/Records.antt =====
-- internal/supervisor/service.go and coordinator.go: reading a job, writing it, and broadcasting it.
-- Traces (`emitTrace`, the debug fields of `decorate`) are not modelled.
use grok_mcp.Prelude.{
  ℕ, ◌-◌, ◌*◌, String, Bool, true, false, not, ◌&&◌, ◌||◌, List, ◌∷◌, ◌++◌, map, Option, none, some,
  ◌==◌, ◌!=◌, ℕ_eq, String_eq, if◌then◌else◌, ltb, length,
}
use grok_mcp.Protocol.State.{
  ViewMode, headless, tui, handoff, plan_ready, failed, state_text, JobState_eq, ViewMode_eq,
  InputOwner_eq,
}
use grok_mcp.Protocol.Job.{Job, zero_job, second, is_zero}
use grok_mcp.Store.Tables.{Store, Record, get_job}
use grok_mcp.Store.Put.{put_job}
use grok_mcp.Text.{elapsed_seconds}
use grok_mcp.Supervisor.State.{
  Queued, Handle, Runtime, job_changed, Service, find_runtime, runtime, set_runtime,
}

unfoldable pub load : Service → String → Option Job
load s id = elim (get_job s.store id) [ none ↦ none | some rec ↦ some rec.job ]

unfoldable pub ensure_runtime : String → Service → Service
ensure_runtime id s = set_runtime id (runtime s id) s

abbrev pub default_project : Service → Job → Job
default_project s j = record j {
  project = if j.project == "" then s.store.project_name j.cwd else j.project;
}

unfoldable pub touch : ℕ → Service → Job → Job
touch now s j = record (default_project s j) {
  updated_at = now;
  elapsed_seconds = elapsed_seconds j.created_at now;
}

-- The wait reason of `decorate`, by its `switch`.
unfoldable pub wait_reason : ℕ → Runtime → Job → String
wait_reason now rt j =
    let qlen = length rt.queue in
    if rt.stalled
    then rt.stalled_reason
    else if j.input_owner == tui
    then "tui_active"
    else if j.input_owner == handoff
    then "handoff"
    else if j.pause_reason != ""
    then j.pause_reason
    else if j.state == plan_ready
    then "approval"
    else if ltb 0 qlen && not rt.busy
    then "queued"
    else if rt.busy
        && (is_zero j.last_activity_at || ltb (5 * 60 * second) (now - j.last_activity_at))
    then "no_recent_activity"
    else if rt.busy
    then "running"
    else state_text j.state

abbrev pub with_activity : Runtime → Job → Job
with_activity rt j =
    if is_zero rt.last_activity
    then j
    else record j { last_activity_at = rt.last_activity; activity_kind = rt.activity_kind }

abbrev pub handle_pid : Option Handle → ℕ → ℕ
handle_pid none d = d
handle_pid (some h) d = h.pid

abbrev pub handle_window : Option Handle → String → String
handle_window none d = d
handle_window (some h) d = h.window_id

unfoldable pub decorate : ℕ → Service → Job → Job
decorate now s job = record j {
  queued_request_ids = job.queued_request_ids ++ map (λ (q : Queued). q.request_id) rt.queue;
  busy = rt.busy;
  queue_length = length rt.queue;
  active_turn_id = rt.turn_id;
  stalled = rt.stalled;
  stalled_reason = rt.stalled_reason;
  wait_reason = wait_reason now rt j;
  desired_view_mode =
      if j.desired_view_mode == ViewMode.unset then headless else j.desired_view_mode;
  terminal_pid = handle_pid rt.term j.terminal_pid;
  terminal_window_id = handle_window rt.term j.terminal_window_id;
  project = if j.project == "" then s.store.project_name j.cwd else j.project;
  elapsed_seconds = elapsed_seconds j.created_at now;
}
  where
    rt : Runtime
    rt = runtime s job.job_id

    j : Job
    j = with_activity rt job

unfoldable pub snapshot : ℕ → Service → String → Job
snapshot now s id = elim (load s id) [
  | none ↦ record zero_job { job_id = id; state = failed }
  | some j ↦ decorate now s j
]

abbrev pub or_job : Option Job → Job → Job
or_job none j = j
or_job (some latest) j = latest

-- Broadcasts the job as the store has it.
unfoldable pub emit : ℕ → Job → Service → Service
emit now job s = record s {
  sent = job_changed (decorate now s (or_job (load s job.job_id) job)) ∷ s.sent;
}

-- The error's text is `persistence_failed: ` and the database's message, left out here.
unfoldable pub persistence_failed : ℕ → String → Service → Service
persistence_failed now id s =
    let marked =
      set_runtime id
        (record (runtime s id) { stalled = true; stalled_reason = "persistence_failed: " }) s in
    elim (load marked id) [ none ↦ marked | some job ↦ emit now job marked ]

-- What the runtime knows better than the caller.
abbrev pub with_runtime : Option Runtime → Job → Job
with_runtime none j = j
with_runtime (some rt) j = record j {
  last_activity_at = rt.last_activity;
  activity_kind = rt.activity_kind;
  active_turn_id = rt.turn_id;
}

-- `put`: the record that is written, and the service after it (`none` if the store refuses).
abbrev pub put_record : Job → ℕ → List ℕ → Service → Record
put_record job missing fails s = record {
  request_phase = "";
  accepted = none;
  result = none;
  job = with_runtime (find_runtime job.job_id s.rt) (default_project s job);
  missing_marker_count = missing;
  recover_fails = fails;
}

abbrev pub with_store : Service → Option Store → Option Service
with_store s none = none
with_store s (some t) = some (record s { store = t })

unfoldable pub write : Record → Service → Option Service
write rec s = with_store s (put_job rec s.store)

unfoldable pub put : Job → ℕ → List ℕ → Service → Option Service
put job missing fails s = write (put_record job missing fails s) s

-- A write and its broadcast, with the shared handling of a failed write.
unfoldable pub commit : ℕ → Record → Service → Service × Bool
commit now rec s = elim (write rec s) [
  | none ↦ (persistence_failed now rec.job.job_id s, false)
  | some t ↦ (emit now rec.job t, true)
]

-- `save`: whether the job was written.
unfoldable pub save : ℕ → Job → Service → Service × Bool
save now job s = elim (get_job s.store job.job_id) [
  | none ↦ (s, false)
  | some rec ↦ elim (put job rec.missing_marker_count rec.recover_fails s) [
    | none ↦ (persistence_failed now job.job_id s, false)
    | some t ↦ (emit now job t, true)
  ]
]

-- The job as `fail` saves it: a decision that was sent is in doubt.
abbrev pub failed_job : String → Job → Job
failed_job reason job = record (doubt (record job { state = failed })) {
  last_summary = reason;
  last_action = "Failed";
}
  where
    doubt : Job → Job
    doubt j =
        if j.approval_delivery == "submitted"
        then record j {
          approval_delivery = "unknown";
          pause_reason = "approval_delivery_unknown";
          approved = false;
        }
        else j

unfoldable pub fail : ℕ → Job → String → Service → Service
fail now job reason s = (save now (touch now s (failed_job reason job)) s).0

-- `saveViewLocked`: only the fields of the view are merged into what the store has.
unfoldable pub save_view_locked : ℕ → Job → Service → Service
save_view_locked now view s = elim (load s view.job_id) [
  | none ↦ s
  | some job ↦
      (save now
        (touch now s (record job {
          view_mode = view.view_mode;
          desired_view_mode = view.desired_view_mode;
          input_owner = view.input_owner;
          last_action =
              if job.request_id == view.request_id && job.state == view.state
              then view.last_action
              else job.last_action;
        }))
        s).0
]
