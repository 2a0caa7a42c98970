-- ===== src/Supervisor/Plan.antt =====
-- internal/supervisor/plan.go: the native approval of a plan, and the decision on it.
-- `Digest` and `TruncateTitle` are arguments; the plan file is read by the caller of `on_approval`.
use grok_mcp.Prelude.{
  ℕ, ◌+◌, String, Bool, true, false, not, ◌&&◌, ◌||◌, [], Option, none, some, ◌==◌, ◌!=◌, ℕ_eq,
  String_eq, if◌then◌else◌, find,
}
use grok_mcp.Protocol.State.{
  JobState, PlanDecision, approve, revise, cancel, plan_ready, planning, executing, cancelled,
  JobState_eq, PlanDecision_eq,
}
use grok_mcp.Protocol.Job.{Job, PlanDecideRequest}
use grok_mcp.Store.Tables.{JobRow}
use grok_mcp.Store.Queries.{list_jobs, newest_first, put_newest}
pub use grok_mcp.Agent.Types.{PlanRequest}
use grok_mcp.Supervisor.State.{
  Runtime, Service, runtime, set_runtime, next_u64, Err, closed, not_found, persistence,
  not_waiting, stale_decision, bad_decision, no_plan_content, approval_expired, stale_connection,
  no_notes, incomplete_identity, unknown_session, stale_turn, Result, ok, err,
}
use grok_mcp.Supervisor.Records.{load, touch, save, ensure_runtime}

-- The guards of `PlanDecide`, one test for each of its errors.
abbrev pub is_not_waiting : Job → Bool
is_not_waiting job = job.state != plan_ready || job.approval_delivery == "submitted"

abbrev pub is_stale_decision : PlanDecideRequest → Job → Bool
is_stale_decision req job =
    req.approval_id == ""
    || req.approval_id != job.approval_id
    || req.request_id != job.request_id
    || req.turn_id != job.plan_turn_id
    || req.plan_version != job.plan_version

abbrev pub is_unknown_decision : PlanDecision → Bool
is_unknown_decision d = d != approve && d != revise && d != cancel

abbrev pub lacks_content : PlanDecideRequest → Job → Bool
lacks_content req job = req.decide == approve && job.plan_summary == ""

abbrev pub is_other_connection : PlanRequest → Job → Bool
is_other_connection p job =
    p.connection_id != job.approval_connection_id
    || p.request_id != job.request_id
    || p.turn_id != job.plan_turn_id
    || p.session_id != job.grok_session_id

abbrev pub lacks_notes : PlanDecideRequest → PlanRequest → Bool
lacks_notes req p = req.notes != "" && not p.supports_notes

-- The guards in their order; `pending` is `agent.PendingApproval`'s answer.
unfoldable pub decision_error : PlanDecideRequest → Job → Option PlanRequest → Option Err
decision_error req job pending =
    if is_not_waiting job
    then some not_waiting
    else if is_stale_decision req job
    then some stale_decision
    else if is_unknown_decision req.decide
    then some bad_decision
    else if lacks_content req job
    then some no_plan_content
    else elim pending [
      | none ↦ some approval_expired
      | some p ↦
          if is_other_connection p job
          then some stale_connection
          else if lacks_notes req p
          then some no_notes
          else none
    ]

abbrev pub decided : PlanDecision → Job → Job
decided approve j = record j { state = executing; approved = true }
decided revise j = record j { state = planning; approved = false }
decided cancel j = record j { state = cancelled; user_cancelled = true }
decided PlanDecision.unset j = j

-- The job as the decision is recorded, before the agent is told.
abbrev pub submitted : PlanDecision → Job → Job
submitted d job = decided d (record job {
  approval_delivery = "submitted";
  pause_reason = "approval_delivery";
  last_action = "审批决定已记录，等待 Grok 响应";
})

-- `PlanDecide`, up to the unlock before `ResolveApproval`: the job that was saved.
unfoldable pub plan_decide :
    ℕ → PlanDecideRequest → Option PlanRequest → Service → Service × Result Job
plan_decide now req pending s₀ =
    let s = ensure_runtime req.job_id s₀ in
    if s₀.closed then (s₀, err closed) else elim (load s req.job_id) [
      | none ↦ (s, err not_found)
      | some job ↦ elim (decision_error req job pending) [
        | some e ↦ (s, err e)
        | none ↦
            let next = touch now s (submitted req.decide job) in
            let (t, saved) = save now next s in if saved then (t, ok next) else (t, err persistence)
      ]
    ]

abbrev pub undelivered : Job → Job
undelivered job = record job {
  approval_delivery = "unknown";
  pause_reason = "approval_delivery_unknown";
  state = JobState.needs_input;
  approved = false;
  last_action = "审批交付未确认，不会自动重发";
}

abbrev pub dropped_turn : Runtime → Runtime
dropped_turn rt = record rt { gen = next_u64 rt.gen; cancelled_turn = true; queue = [] }

-- Whether the decision that was sent is still the job's, and was not delivered.
abbrev pub is_undelivered : String → Bool → Job → Bool
is_undelivered approval_id delivered job =
    job.approval_id == approval_id && job.approval_delivery == "submitted" && not delivered

-- `PlanDecide`, after `ResolveApproval` answered: a decision is never sent again.
unfoldable pub plan_delivered : ℕ → PlanDecideRequest → Bool → Service → Service × Option Err
plan_delivered now req delivered s = elim (load s req.job_id) [
  | none ↦ (drop s, none)
  | some job ↦
      if is_undelivered req.approval_id delivered job
      then (let (t, saved) = save now (touch now s (undelivered job)) s in
          if saved then (drop t, none) else (t, some persistence))
      else (drop s, none)
]
  where
    drop : Service → Service
    drop t =
        if req.decide == cancel
        then set_runtime req.job_id (dropped_turn (runtime t req.job_id)) t
        else t

-- `jobIDForSession`: the first job of the listing with that session.
abbrev pub has_session : String → JobRow → Bool
has_session session row = row.lifecycle.grok_session_id == session

unfoldable pub job_for_session : Service → String → String
unfolding list_jobs newest_first put_newest
job_for_session s session = elim (list_jobs s.store) [
  | none ↦ ""
  | some rows ↦ elim (find (has_session session) rows) [
    | none ↦ ""
    | some row ↦ row.lifecycle.job_id
  ]
]

abbrev pub is_complete : PlanRequest → Bool
is_complete p =
    p.id != ""
    && p.connection_id != ""
    && p.request_id != ""
    && p.turn_id != ""
    && p.session_id != ""

-- Whether the approval is of the turn that runs.
abbrev pub is_current_turn : PlanRequest → Runtime → Job → Bool
is_current_turn p rt job =
    rt.busy
    && rt.turn_id == p.turn_id
    && rt.request_id == p.request_id
    && not rt.cancelled_turn
    && not job.user_cancelled
    && job.request_id == p.request_id

-- The activity that an approval is.
abbrev pub plan_activity : PlanRequest → Runtime → Runtime
plan_activity p rt = record rt { last_activity = p.created_at; activity_kind = "plan_permission" }

module _ (digest : String → String) (title : String → String) where
  abbrev pub plan_job : PlanRequest → String → Job → Job
  plan_job p content job = record job {
    state = plan_ready;
    approved = false;
    plan_version = job.plan_version + 1;
    plan_turn_id = p.turn_id;
    approval_id = p.id;
    approval_connection_id = p.connection_id;
    approval_supports_notes = p.supports_notes;
    approval_delivery = "pending";
    pause_reason = if content == "" then "plan_content_missing" else "approval";
    plan_summary = content;
    plan_digest = digest content;
    last_action = "Plan ready";
    last_summary = if content == "" then "已收到原生审批请求，但本次方案正文缺失" else title content;
  }

  -- `onApproval`. `file` is the plan file's text if it was written by this turn, else empty.
  unfoldable pub on_approval : ℕ → PlanRequest → String → Service → Service × Option Err
  on_approval now p file s₀ =
      let id = job_for_session s₀ p.session_id in
      let s = ensure_runtime id s₀ in
      if not (is_complete p)
      then (s₀, some incomplete_identity)
      else if id == ""
      then (s₀, some unknown_session)
      else elim (load s id) [
        | none ↦ (s, some not_found)
        | some job ↦
            if not (is_current_turn p (runtime s id) job)
            then (s, some stale_turn)
            else if p.id == job.approval_id
            then (s, none)
            else let content = if p.content == "" then file else p.content in
              let t = set_runtime id (plan_activity p (runtime s id)) s in
              let (u, saved) = save now (touch now t (plan_job p content job)) t in
              (u, if saved then none else some persistence)
      ]
