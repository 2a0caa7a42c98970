-- ===== src/Supervisor/Turn.antt =====
-- internal/supervisor/turn.go: what the answer of a turn does to its job, and the client's calls
-- that start another turn. The agent's answer comes parsed: `parsed` is what
-- `protocol.ParseTaskState` says of its text.
use grok_mcp.Prelude.{
  ℕ, String, Bool, true, false, not, ◌&&◌, ◌||◌, Option, none, some, ◌==◌, ◌!=◌, ℕ_eq, String_eq,
  if◌then◌else◌, length, ltb,
}
use grok_mcp.Protocol.State.{
  JobState, TaskMarker, InputOwner, supervisor, executing, cancelled, failed, JobState_eq,
  InputOwner_eq,
}
use grok_mcp.Protocol.Job.{Job}
use grok_mcp.Protocol.TaskState.{TaskState}
use grok_mcp.Protocol.Contract.{continue_prompt}
use grok_mcp.Store.Tables.{Record, get_job}
use grok_mcp.Store.Queries.{request_state}
use grok_mcp.Supervisor.State.{Queued, Runtime, Service, runtime, Err}
use grok_mcp.Supervisor.Records.{touch, commit, persistence_failed}
use grok_mcp.Supervisor.Fifo.{current_gen, enqueue}

-- `acceptsTurnControl`
abbrev pub accepts_turn_control : Job → Bool
accepts_turn_control job =
    not job.user_cancelled
    && not (job.state == cancelled || job.state == JobState.completed || job.state == failed)

-- `agent.PromptResult`
pub record PromptResult : Type 0 where
  pub text : String
  pub stop_reason : String

abbrev pub continuation : String → Queued
continuation request_id = record {
  accepted_job = none;
  connect = false;
  kind = "continue";
  text = continue_prompt;
  gen = 0;
  turn_id = "";
  request_id = request_id;
  planning = false;
}

-- The state and the action that a status block asks for; no block asks for a review.
abbrev pub marked_job : Option TaskState → Job → Job
marked_job none j = record j {
  state = JobState.needs_input;
  pause_reason = "review_required";
  last_action = "最终回答待验收";
  last_summary = "本轮已返回最终回答，请读取当前请求结果并验收";
}
marked_job (some ts) j = go ts.state (record j { last_summary = ts.summary })
  where
    go : TaskMarker → Job → Job
    go TaskMarker.working job = record job { state = executing; last_action = "Working" }
    go TaskMarker.needs_input job = record job {
      state = JobState.needs_input;
      last_action = "Needs input";
    }
    go TaskMarker.blocked job = record job { state = JobState.blocked; last_action = "Blocked" }
    go TaskMarker.completed job = record job {
      state = JobState.completed;
      last_action = "Completed";
    }

-- The job as the turn returned it.
abbrev pub returned_job : Queued → Runtime → Job → Job
returned_job item rt job = record job {
  active_turn_id = "";
  result_turn_id = item.turn_id;
  pause_reason = "";
  approval_delivery =
      if job.approval_delivery == "submitted" then "confirmed" else job.approval_delivery;
  last_activity_at = rt.last_activity;
  activity_kind = rt.activity_kind;
}

-- A completed request does not complete the job while others wait.
abbrev pub requeued_job : Bool → Job → Job
requeued_job pending j =
    if j.state == JobState.completed && pending
    then record j { state = executing; last_action = "Queued"; last_summary = "当前请求已完成，等待处理下一请求" }
    else j

abbrev pub summary_of : Option TaskState → String
summary_of none = ""
summary_of (some ts) = ts.summary

abbrev pub is_working : Option TaskState → Bool
is_working none = false
is_working (some ts) = elim ts.state [ TaskMarker.working ↦ true | _ ↦ false ]

abbrev pub result_record :
    ℕ → Queued → PromptResult → Option TaskState → Record → Service → Runtime → Record
result_record now item res parsed rec s rt =
    let marked = marked_job parsed (returned_job item rt rec.job) in
    record rec {
      request_phase = "returned";
      result = some (record {
        request_id = item.request_id;
        turn_id = item.turn_id;
        summary = summary_of parsed;
        text = res.text;
        stop_reason = res.stop_reason;
        state = marked.state;
      });
      job = touch now s (requeued_job (ltb 0 (length rt.queue)) marked);
      missing_marker_count = 0;
    }

-- Whether the runtime has moved on to another turn or request.
abbrev pub moved_on : Queued → Runtime → Bool
moved_on item rt =
    (rt.turn_id != "" && rt.turn_id != item.turn_id)
    || (rt.busy && rt.request_id != "" && rt.request_id != item.request_id)

abbrev pub is_cancelled_state : Option String → Bool
is_cancelled_state none = false
is_cancelled_state (some state) = state == "cancelled"

abbrev pub continue_after : ℕ → String → Service × Option Err → Service
continue_after now id (t, none) = t
continue_after now id (t, some e) = persistence_failed now id t

abbrev pub after_result :
    ℕ → String → String → Queued → Option TaskState → InputOwner → Service × Bool → Service
after_result now uuid id item parsed owner (s, false) = s
after_result now uuid id item parsed owner (s, true) =
    if is_working parsed && owner == supervisor
    then continue_after now id (enqueue now uuid id (continuation item.request_id) s)
    else s

-- `applyPromptResult`
unfoldable pub apply_prompt_result :
    ℕ → String → String → Queued → PromptResult → Option TaskState → Service → Service
apply_prompt_result now uuid id item res parsed s =
    let rt = runtime s id in
    if item.gen != current_gen s id
      || is_cancelled_state (request_state id item.request_id s.store)
      || moved_on item rt
    then s
    else elim (get_job s.store id) [
      | none ↦ s
      | some rec ↦
          if rec.job.user_cancelled
          then s
          else after_result now uuid id item parsed rec.job.input_owner
              (commit now (result_record now item res parsed rec s rt) s)
    ]
