-- ===== src/Supervisor/Calls.antt =====
-- internal/supervisor/turn.go: `Followup` and `Continue`, after `beginOperation`.
-- `trim` is strings.TrimSpace.
use grok_mcp.Prelude.{
  ℕ, String, Bool, true, false, not, ◌&&◌, ◌||◌, List, [], ◌∷◌, Option, none, some, ◌==◌, ◌!=◌,
  ℕ_eq, String_eq, if◌then◌else◌, any, length, concat, contains,
}
use grok_mcp.Protocol.State.{plan_ready, planning, executing, cancelled, JobState_eq}
use grok_mcp.Protocol.Job.{Job}
use grok_mcp.Protocol.Contract.{continue_prompt, execute_contract, task_contract, resolve_planning}
use grok_mcp.Store.Tables.{WorkRequest}
use grok_mcp.Store.Queries.{request, queued_requests}
use grok_mcp.Supervisor.State.{
  Queued, Runtime, Service, runtime, Err, inactive, plan_pending, prompt_required, bad_planning,
  not_found, no_query, closed,
}
use grok_mcp.Supervisor.Records.{load, touch, ensure_runtime}
use grok_mcp.Supervisor.Fifo.{enqueue, session_held_by_tui}
use grok_mcp.Supervisor.Turn.{accepts_turn_control}

pub record FollowupRequest : Type 0 where
  pub replan : Bool
  pub planning : String
  pub job_id : String
  pub prompt : String

abbrev pub awaits_decision : Job → Bool
awaits_decision job = job.state == plan_ready && job.pause_reason != "approval_expired"

abbrev pub planned : Job → Job
planned job = record job { state = planning; approved = false; plan_summary = ""; plan_digest = "" }

-- The job that a follow-up makes of an idle one.
abbrev pub followed : ℕ → Service → String → Bool → Job → Job
followed now s request_id is_planning job =
    touch now s (if is_planning then planned fresh else fresh)
  where
    fresh : Job
    fresh = record job {
      request_id = request_id;
      last_summary = "";
      last_action = "Accepted";
      pause_reason = "";
      result_turn_id = "";
      state = executing;
    }

module _ (trim : String → String) where
  -- The item that a follow-up queues; a busy or held job is left as it is.
  unfoldable pub followup_item : ℕ → String → FollowupRequest → Bool → Job → Service → Queued
  followup_item now uuid req is_planning job s =
      let free = not (runtime s req.job_id).busy && not (session_held_by_tui s job) in
      let next = followed now s uuid is_planning job in
      record {
        accepted_job = if free then some next else none;
        connect = true;
        kind = "followup";
        text =
            (if is_planning then task_contract trim else execute_contract trim) job.cwd job.title
              req.prompt;
        gen = 0;
        turn_id = "";
        request_id = uuid;
        planning = is_planning;
      }

  unfoldable pub followup : ℕ → String → FollowupRequest → Service → Service × Option Err
  followup now uuid req s₀ =
      let s = ensure_runtime req.job_id s₀ in
      if s₀.closed
      then (s₀, some closed)
      else if trim req.prompt == ""
      then (s₀, some prompt_required)
      else elim (resolve_planning trim req.planning req.replan) [
        | none ↦ (s₀, some bad_planning)
        | some is_planning ↦ elim (load s req.job_id) [
          | none ↦ (s, some not_found)
          | some job ↦
              if job.state == cancelled
              then (s, some inactive)
              else if awaits_decision job
              then (s, some plan_pending)
              else enqueue now uuid req.job_id (followup_item now uuid req is_planning job s) s
        ]
      ]

-- The text and the mode with which a job goes on.
abbrev pub was_planning : Option WorkRequest → Bool
was_planning none = false
was_planning (some r) = r.planning

abbrev pub text_to_resume : Option WorkRequest → String
text_to_resume none = continue_prompt
text_to_resume (some r) =
    if r.phase == "queued" || r.phase == "preparing" then r.prompt else continue_prompt

abbrev pub resume_text : Bool → String → String
resume_text is_planning text =
    if is_planning && not (contains text "exit_plan_mode")
    then concat
        "Resume this original session. Reconcile work already performed; do not repeat side effects. Present the existing or revised plan using the native exit_plan_mode approval request before implementation.\n"
        text
    else text

abbrev pub resume_item : Option Job → Option WorkRequest → Job → Queued
resume_item accepted prior job = record {
  accepted_job = accepted;
  connect = true;
  kind = "continue";
  text = resume_text (was_planning prior) (text_to_resume prior);
  gen = 0;
  turn_id = "";
  request_id = job.request_id;
  planning = was_planning prior;
}

abbrev pub restored_item : WorkRequest → Queued
restored_item r = record {
  accepted_job = none;
  connect = true;
  kind = "followup";
  text = r.prompt;
  gen = 0;
  turn_id = "";
  request_id = r.request_id;
  planning = r.planning;
}

-- Queues again the requests that only the store remembers, but for the job's own.
unfoldable pub restore :
    ℕ → String → String → String → List WorkRequest → Service → Service × Option Err
restore now uuid id current [] s = (s, none)
restore now uuid id current (r ∷ rs) s =
    let (t, failure) =
      if r.request_id == current then (s, none) else enqueue now uuid id (restored_item r) s in
    elim failure [ some e ↦ (t, some e) | none ↦ restore now uuid id current rs t ]

unfoldable pub request_queued : String → Service → String → Bool
request_queued id s request_id =
    request_id != "" && any (λ (q : Queued). q.request_id == request_id) (runtime s id).queue

-- The job that goes on.
abbrev pub continued : ℕ → Service → Bool → Job → Job
continued now s is_planning job =
    touch now s
      (record (if is_planning
        then record job { state = planning; approved = false }
        else record job { state = executing }) { pause_reason = ""; approval_delivery = "" })

abbrev pub has_to_restore : Runtime → Bool
has_to_restore rt = length rt.queue == 0 && (not rt.busy || rt.cancelled_turn)

-- `Continue`, once the job may go on and no terminal holds its session.
unfoldable pub continue_free :
    ℕ → String → String → Option WorkRequest → Job → Service → Service × Option Err
continue_free now uuid id prior job s = elim (queued_requests id s.store) [
  | none ↦ (s, some no_query)
  | some pending ↦
      let (t, failure) =
        enqueue now uuid id
          (resume_item (some (continued now s (was_planning prior) job)) prior job) s in
      elim failure [
        | some e ↦ (t, some e)
        | none ↦
            if has_to_restore (runtime s id)
            then restore now uuid id job.request_id pending t
            else (t, none)
      ]
]

unfoldable pub continue_job : ℕ → String → String → Service → Service × Option Err
continue_job now uuid id s₀ =
    let s = ensure_runtime id s₀ in
    if s₀.closed then (s₀, some closed) else elim (load s id) [
      | none ↦ (s, some not_found)
      | some job ↦
          let prior = request id job.request_id s.store in
          if not (accepts_turn_control job)
          then (s, some inactive)
          else if awaits_decision job
          then (s, some plan_pending)
          else if session_held_by_tui s job
          then (if request_queued id s job.request_id
              then (s, none)
              else enqueue now uuid id (resume_item none prior job) s)
          else continue_free now uuid id prior job s
    ]
