-- ===== src/Supervisor/Fifo.antt =====
-- internal/supervisor/fifo.go: the queue of a job and its pump. One turn of `pump` is four steps,
-- cut where the source gives up the locks to call the agent: `pump_begin`, `item_start` and
-- `item_send` before and after the agent loads the session, and `pump_end`.
use grok_mcp.Prelude.{
  ℕ, String, Bool, true, false, not, ◌&&◌, ◌||◌, List, [], ◌∷◌, ◌++◌, Option, none, some, ◌==◌,
  ◌!=◌, ℕ_eq, String_eq, if◌then◌else◌, ltb, length,
}
use grok_mcp.Protocol.State.{
  supervisor, tui, handoff, plan_ready, planning, executing, detaching, JobState_eq, ViewMode_eq,
  InputOwner_eq,
}
use grok_mcp.Protocol.Job.{Job, zero_job}
use grok_mcp.Store.Tables.{WorkRequest, get_job}
use grok_mcp.Supervisor.State.{
  Queued, Handle, Runtime, Service, runtime, set_runtime, next_u64, Err, closed, not_found,
  persistence,
}
use grok_mcp.Supervisor.Records.{
  load, ensure_runtime, commit, write, emit, persistence_failed, or_job,
}

unfoldable pub current_gen : Service → String → ℕ
current_gen s id = (runtime s id).gen

-- Where a new item goes: a continuation goes first, unless it has to connect.
abbrev pub insert_item : Queued → List Queued → List Queued
insert_item q queue = if q.kind == "continue" && not q.connect then q ∷ queue else queue ++ q ∷ []

abbrev pub job_request_id : Option Job → String
job_request_id none = ""
job_request_id (some j) = j.request_id

abbrev pub or_else : String → String → String
or_else a b = if a == "" then b else a

-- The item as it enters the queue.
abbrev pub stamped : Service → String → String → Queued → Queued
stamped s id uuid q = record q {
  gen = (runtime s id).gen;
  request_id =
      or_else
        (or_else (or_else q.request_id (job_request_id (load s id))) (runtime s id).request_id)
        uuid;
}

abbrev pub accepted_request : Queued → WorkRequest
accepted_request q = record {
  request_id = q.request_id;
  prompt = q.text;
  phase = "";
  planning = q.planning;
}

abbrev pub start_pump : String → Bool → Service → Service
start_pump id busy s = if busy then s else record s { pumps = id ∷ s.pumps }

-- `enqueue`, once the row is written.
abbrev pub push : ℕ → String → Queued → Service → Service
push now id q s =
    let rt = runtime s id in
    let t = set_runtime id (record rt { queue = insert_item q rt.queue }) s in
    start_pump id rt.busy (emit now (or_job (load t id) zero_job) t)

unfoldable pub enqueue : ℕ → String → String → Queued → Service → Service × Option Err
enqueue now uuid id q₀ s₀ =
    let s = ensure_runtime id s₀ in
    let q = stamped s id uuid q₀ in
    if s.closed then (s, some closed) else elim (get_job s.store id) [
      | none ↦ (s, some not_found)
      | some rec ↦
          elim (write
            (record rec {
              job = or_job q.accepted_job rec.job;
              accepted = some (accepted_request q);
            })
            s) [
              | none ↦ (persistence_failed now id s, some persistence)
              | some t ↦ (push now id q t, none)
            ]
    ]

unfoldable pub kick : String → Service → Service
kick id s =
    let rt = runtime s id in
    if s.closed || rt.busy || length rt.queue == 0 then s else record s { pumps = id ∷ s.pumps }

-- The launcher's answer if it has one, else whether a terminal is open.
abbrev pub handle_live : Option Handle → Bool
handle_live none = false
handle_live (some h) = ltb 0 h.pid

unfoldable pub live_grok : Service → String → Bool
live_grok s id = go s.worker_alive (load s id)
  where
    go : Option (String → Bool) → Option Job → Bool
    go (some alive) (some j) = alive j.grok_session_id
    go _ _ = handle_live (runtime s id).term

unfoldable pub session_held_by_tui : Service → Job → Bool
session_held_by_tui s job =
    if job.input_owner == tui || job.input_owner == handoff then true else live_grok s job.job_id

unfoldable pub is_idle : Service → String → Bool
is_idle s id = elim (load s id) [
  | none ↦ false
  | some job ↦
      let rt = runtime s id in
      if job.input_owner != supervisor || job.view_mode == detaching
      then false
      else not rt.busy && length rt.queue == 0
]

-- `commitPhase`: writes the job with a new phase of its request.
unfoldable pub commit_phase : ℕ → Job → String → Service → Service × Bool
commit_phase now job phase s = elim (get_job s.store job.job_id) [
  | none ↦ (s, false)
  | some rec ↦ commit now (record rec { job = job; request_phase = phase }) s
]

-- Why a pump stopped.
pub data Stop : Type 0 where
  not_running approval view_detaching tui_owns nothing_to_do not_saved : Stop

pub data PumpStep : Type 0 where
  stopped : Stop → PumpStep
  started : Queued → PumpStep

-- The job as its next item starts.
abbrev pub starting_job : Queued → Job → Job
starting_job item j = record (phase (fresh j)) { pause_reason = ""; active_turn_id = item.turn_id }
  where
    fresh : Job → Job
    fresh job =
        if item.request_id != job.request_id
        then record job {
          request_id = item.request_id;
          last_summary = "";
          last_action = "Accepted";
        }
        else job

    phase : Job → Job
    phase job =
        if item.planning
        then record job { state = planning; approved = false; plan_summary = ""; plan_digest = "" }
        else record job { state = if job.state != plan_ready then executing else job.state }

abbrev pub running_runtime : ℕ → String → Job → Queued → List Queued → Runtime → Runtime
running_runtime now digest job item rest rt = record rt {
  queue = rest;
  busy = true;
  cancelled_turn = false;
  turn_seq = next_u64 rt.turn_seq;
  turn_id = item.turn_id;
  request_id = item.request_id;
  session_id = job.grok_session_id;
  last_activity = now;
  activity_kind = "prompt_started";
  turn_started_at = now;
  plan_file_digest = digest;
  cancel = true;
}

abbrev pub idle_runtime : Runtime → Runtime
idle_runtime rt = record rt { busy = false; cancel = false; turn_id = "" }

abbrev pub after_phase : String → Queued → Service × Bool → Service × PumpStep
after_phase id item (s, true) = (s, started item)
after_phase id item (s, false) = (set_runtime id (idle_runtime (runtime s id)) s, stopped not_saved)

-- Takes the first item and writes that its request is being prepared.
unfoldable pub pump_take :
    ℕ → String → String → String → Job → List Queued → Service → Service × PumpStep
pump_take now turn_id digest id job [] s = (s, stopped nothing_to_do)
pump_take now turn_id digest id job (q ∷ rest) s =
    let item = record q { turn_id = turn_id } in
    after_phase id item (
      commit_phase now (starting_job item job) "preparing"
        (set_runtime id (running_runtime now digest job item rest (runtime s id)) s))

abbrev pub waits_for_approval : Job → Bool
waits_for_approval job =
    job.state == plan_ready
    || job.pause_reason == "review_required"
    || job.approval_delivery == "unknown"

-- The checks of `pump` about the job, made only if it could be read and items wait.
unfoldable pub pump_stop : Service → Option Job → Bool → Option Stop
pump_stop s none waiting = none
pump_stop s (some job) waiting =
    if waits_for_approval job && waiting
    then some approval
    else if job.view_mode == detaching && waiting
    then some view_detaching
    else if session_held_by_tui s job && waiting
    then some tui_owns
    else none

-- `pump`, up to the unlock before `runItem`. `digest` is that of the plan file before the turn.
unfoldable pub pump_begin : ℕ → String → String → String → Service → Service × PumpStep
pump_begin now turn_id digest id s₀ =
    let s = ensure_runtime id s₀ in
    let rt = runtime s id in
    if s.closed || rt.control_pending
    then (s, stopped not_running)
    else elim (pump_stop s (load s id) (ltb 0 (length rt.queue))) [
      | some why ↦ (s, stopped why)
      | none ↦
          if rt.busy
          then (s, stopped nothing_to_do)
          else pump_take now turn_id digest id (or_job (load s id) zero_job) rt.queue s
    ]
