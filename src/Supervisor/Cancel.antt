-- ===== src/Supervisor/Cancel.antt =====
-- internal/supervisor/cancel.go: cancelling a queued request, and the turn that runs.
use grok_mcp.Prelude.{
  ℕ, String, Bool, true, false, not, ◌&&◌, ◌||◌, map, Option, none, some, ◌==◌, ◌!=◌, ℕ_eq,
  String_eq, if◌then◌else◌, any, keep,
}
use grok_mcp.Protocol.State.{JobState}
use grok_mcp.Protocol.Job.{Job}
use grok_mcp.Store.Tables.{WorkRequest}
use grok_mcp.Store.Queries.{request, cancel_queued_request}
use grok_mcp.Supervisor.State.{
  Queued, Runtime, Service, runtime, set_runtime, next_u64, Err, not_found, inactive, persistence,
  stale_cancel, target_mismatch, unknown_request, agent_failed, Result, ok, err,
}
use grok_mcp.Supervisor.Records.{load, touch, save, emit, ensure_runtime}
use grok_mcp.Supervisor.Fifo.{kick}
use grok_mcp.Supervisor.Turn.{accepts_turn_control}

abbrev pub item_of : String → Queued → Bool
item_of request_id item = item.request_id == request_id

abbrev pub is_phase_queued : Option WorkRequest → Bool
is_phase_queued none = false
is_phase_queued (some r) = r.phase == "queued"

-- What `CancelRequest` is asked to cancel.
pub data Target : Type 0 where
  refuse : Err → Target
  queued_request active_turn : Target

abbrev pub waits_in_queue : Service → String → String → Bool
waits_in_queue s id request_id =
    request_id != ""
    && (any (item_of request_id) (runtime s id).queue
        || is_phase_queued (request id request_id s.store))

-- The tests of `CancelRequest`, in its order.
unfoldable pub cancel_target : Service → String → String → String → Job → Target
cancel_target s id request_id turn_id job =
    let rt = runtime s id in
    let is_active_request = rt.busy && request_id == rt.request_id in
    if not (accepts_turn_control job)
    then refuse inactive
    else if request_id != "" && turn_id != "" && not (is_active_request && turn_id == rt.turn_id)
    then refuse target_mismatch
    else if request_id != ""
        && turn_id == ""
        && waits_in_queue s id request_id
        && not is_active_request
    then queued_request
    else if request_id != "" && not is_active_request
    then refuse unknown_request
    else active_turn

-- `cancelQueuedLocked`
unfoldable pub cancel_queued_locked : ℕ → String → String → Service → Service × Option Err
cancel_queued_locked now id request_id s = elim (cancel_queued_request id request_id s.store) [
  | none ↦ (s, some persistence)
  | some (store, found) ↦
      let t = record s { store = store } in
      let rt = runtime t id in
      let u =
        set_runtime id
          (record rt { queue = keep (λ (q : Queued). q.request_id != request_id) rt.queue }) t in
      if found
      then elim (load u id) [ none ↦ (u, none) | some job ↦ (emit now job u, none) ]
      else (t, some unknown_request)
]

-- The queue goes on under the new generation; the turn that runs does not.
abbrev pub restamp : ℕ → Queued → Queued
restamp gen item = record item { gen = gen }

abbrev pub cancelled_runtime : Runtime → Runtime
cancelled_runtime rt = record rt {
  gen = next_u64 rt.gen;
  cancelled_turn = true;
  control_pending = true;
  queue = map (restamp (next_u64 rt.gen)) rt.queue;
}

abbrev pub cancelling_job : Job → Job
cancelling_job job = record job {
  state = JobState.needs_input;
  pause_reason = "cancel_delivery";
  last_action = "正在取消当前 turn";
}

-- `cancelActiveTurn`, up to the unlock before the agent is told: the new generation and whether the
-- job was saved.
unfoldable pub cancel_begin : ℕ → String → String → Service → Service × Result (ℕ × Bool)
cancel_begin now id expected_turn s₀ =
    let s = ensure_runtime id s₀ in
    let rt = runtime s id in
    elim (load s id) [
      | none ↦ (s, err not_found)
      | some job ↦
          if not (accepts_turn_control job)
          then (s, err inactive)
          else if rt.control_pending || (expected_turn != "" && expected_turn != rt.turn_id)
          then (s, err stale_cancel)
          else let (t, saved) =
              save now (touch now s (cancelling_job job))
                (set_runtime id (cancelled_runtime rt) s) in
            (t, ok (next_u64 rt.gen, saved))
    ]

-- What a call of `CancelRequest` that is not refused does.
pub data Cancelling : Type 0 where
  removed : Cancelling
  stopping : ℕ → Bool → Cancelling

abbrev pub as_removed : Service × Option Err → Service × Result Cancelling
as_removed (s, none) = (s, ok removed)
as_removed (s, some e) = (s, err e)

abbrev pub as_stopping : Service × Result (ℕ × Bool) → Service × Result Cancelling
as_stopping (s, ok (generation, saved)) = (s, ok (stopping generation saved))
as_stopping (s, err e) = (s, err e)

abbrev pub cancel_at : ℕ → String → String → String → Target → Service → Service × Result Cancelling
cancel_at now id request_id turn_id (refuse e) s = (s, err e)
cancel_at now id request_id turn_id queued_request s =
    as_removed (cancel_queued_locked now id request_id s)
cancel_at now id request_id turn_id active_turn s = as_stopping (cancel_begin now id turn_id s)

-- `CancelRequest`, up to the unlock before the agent is told, with nothing between its unlock and the
-- lock of `cancelActiveTurn`.
unfoldable pub cancel_request : ℕ → String → String → String → Service → Service × Result Cancelling
cancel_request now id request_id turn_id s₀ =
    let s = ensure_runtime id s₀ in
    elim (load s id) [
      | none ↦ (s, err not_found)
      | some job ↦ cancel_at now id request_id turn_id (cancel_target s id request_id turn_id job) s
    ]

abbrev pub cancelled_job : Bool → Job → Job
cancelled_job told job = record job {
  pause_reason = if told then "" else "cancel_delivery_unknown";
  last_action = if told then "Turn cancelled" else "取消交付未确认";
  last_summary = "turn cancelled";
}

abbrev pub cancel_finish : String → Service → Bool → Service × Option Err
cancel_finish id s true = (kick id s, none)
cancel_finish id s false = (s, some agent_failed)

-- `cancelActiveTurn`, after the agent answered (`told`): the control is free again, and the queue
-- goes on.
unfoldable pub cancel_end : ℕ → String → ℕ → Bool → Service → Service × Option Err
cancel_end now id generation told s =
    let t = set_runtime id (record (runtime s id) { control_pending = false }) s in
    if (runtime t id).gen == generation
    then elim (load t id) [
      | none ↦ cancel_finish id t told
      | some job ↦
          let (u, saved) = save now (touch now t (cancelled_job told job)) t in
          cancel_finish id u (told && saved)
    ]
    else cancel_finish id t told
