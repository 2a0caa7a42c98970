-- ===== src/Supervisor/View.antt =====
-- internal/supervisor/view.go: showing and hiding a terminal. Each request of a view has an epoch,
-- and a step of an older epoch changes nothing. Opening and closing terminals is not modelled.
use grok_mcp.Prelude.{
  ℕ, String, Bool, true, false, not, ◌&&◌, ◌||◌, Option, none, some, ◌==◌, ◌!=◌, ℕ_eq, String_eq,
  if◌then◌else◌,
}
use grok_mcp.Protocol.State.{
  JobState, ViewMode, supervisor, tui, handoff, headless, headed, attaching, detaching, plan_ready,
  executing, planning, starting, JobState_eq, ViewMode_eq, InputOwner_eq,
}
use grok_mcp.Protocol.Job.{Job}
use grok_mcp.Store.Tables.{get_job}
use grok_mcp.Supervisor.State.{
  Handle, Runtime, Service, runtime, set_runtime, next_u64, Err, bad_view, not_found, persistence,
  Result, ok, err,
}
use grok_mcp.Supervisor.Records.{load, touch, save_view_locked, ensure_runtime, commit}
use grok_mcp.Supervisor.Fifo.{kick}

abbrev pub requested_runtime : Bool → Runtime → Runtime
requested_runtime wanted rt = record rt {
  view_requested = wanted;
  view_epoch = next_u64 rt.view_epoch;
}

abbrev pub headed_request : Job → Job
headed_request job = record job {
  desired_view_mode = headed;
  input_owner = if job.input_owner == supervisor then handoff else job.input_owner;
  view_mode = if job.view_mode == headless then attaching else job.view_mode;
}

-- `SetView`, up to the unlock: the epoch of the request, with which the terminal is opened or closed.
unfoldable pub set_view : ℕ → String → ViewMode → Service → Service × Result ℕ
set_view now id view s₀ =
    let s = ensure_runtime id s₀ in
    elim (load s id) [
      | none ↦ (s, err not_found)
      | some job ↦ elim view [
        | headed ↦
            let t = set_runtime id (requested_runtime true (runtime s id)) s in
            (
              save_view_locked now (touch now t (headed_request job)) t,
              ok (runtime t id).view_epoch,
            )
        | headless ↦
            let t = set_runtime id (requested_runtime false (runtime s id)) s in
            (
              save_view_locked now (touch now t (record job { desired_view_mode = headless })) t,
              ok (runtime t id).view_epoch,
            )
        | _ ↦ (s, err bad_view)
      ]
    ]

unfoldable pub view_request_current : Service → String → ℕ → Bool
view_request_current s id epoch =
    let rt = runtime s id in rt.view_requested && rt.view_epoch == epoch

-- `saveRequestedView`: whether the view was saved.
unfoldable pub save_requested_view : ℕ → Job → ℕ → Service → Service × Bool
save_requested_view now job epoch s =
    if view_request_current s job.job_id epoch
    then (save_view_locked now job s, true)
    else (s, false)

-- `approvalHoldsTurn` and `deferInteractiveAttach`
abbrev pub approval_holds_turn : Job → Bool
approval_holds_turn job =
    job.state == plan_ready
    || job.pause_reason == "approval"
    || job.pause_reason == "plan_content_missing"

unfoldable pub defer_interactive_attach : Service → Job → Bool
defer_interactive_attach s job =
    if approval_holds_turn job then false else (runtime s job.job_id).busy

-- `yieldInFlightTurn`, up to the unlock: whether a turn was cancelled.
unfoldable pub yield_in_flight_turn : Job → Service → Service × Bool
yield_in_flight_turn job s =
    let rt = runtime s job.job_id in
    if approval_holds_turn job && rt.busy
    then (
      set_runtime job.job_id (record rt { cancelled_turn = true; gen = next_u64 rt.gen }) s,
      true,
    )
    else (s, false)

abbrev pub is_underway : JobState → Bool
is_underway plan_ready = true
is_underway executing = true
is_underway planning = true
is_underway starting = true
is_underway _ = false

abbrev pub yielded_job : Job → Job
yielded_job job = record job {
  approval_delivery =
      if job.state == plan_ready || job.approval_delivery == "pending"
      then "expired"
      else job.approval_delivery;
  state = if is_underway job.state then JobState.needs_input else job.state;
  pause_reason = "execution_unknown";
  active_turn_id = "";
  last_action = "交互交接已让出未完成的 ACP turn";
  last_summary = "原 ACP 请求结果未知，TUI 输入不会写成该请求的回答";
}

-- `markYieldedRequest`: a record that was read names no phase, so the phase is always `unknown`.
unfoldable pub mark_yielded_request : ℕ → String → Service → Service × Option Err
mark_yielded_request now id s = elim (get_job s.store id) [
  | none ↦ (s, some not_found)
  | some rec ↦
      let (t, saved) =
        commit now
          (record rec {
            job = touch now s (yielded_job rec.job);
            request_phase = yielded_phase rec.request_phase;
          })
          s in
      (t, if saved then none else some persistence)
]
  where
    yielded_phase : String → String
    yielded_phase phase =
        if phase == "" || phase == "queued" || phase == "preparing" || phase == "sent"
        then "unknown"
        else phase

-- `commitHeaded`, once the terminal is ready: the terminal is kept only for the current request.
abbrev pub attached_runtime : Handle → Runtime → Runtime
attached_runtime h rt = record rt {
  term = some h;
  wait_cancel = true;
  attach_gen = next_u64 rt.attach_gen;
}

unfoldable pub commit_headed : ℕ → Job → Handle → ℕ → Service → Service × Bool
commit_headed now job h epoch s =
    if s.closed || not (view_request_current s job.job_id epoch)
    then (s, false)
    else let t = set_runtime job.job_id (attached_runtime h (runtime s job.job_id)) s in
      (
        save_view_locked now (touch now t (record job { view_mode = headed; input_owner = tui })) t,
        true,
      )

-- What `failHeadless` notes of a worker that lives on: its generation, if the launcher knows it.
abbrev pub noted_worker : String → Bool → Option String → Service → Service
noted_worker id true (some generation) s =
    set_runtime id (record (runtime s id) { worker_generation = generation }) s
noted_worker id _ _ s = s

-- `failHeadless`; `alive` says that the worker lives on without a window, and `generation` is the
-- answer of `WorkerGeneration`.
unfoldable pub fail_headless : ℕ → Job → ℕ → Bool → Option String → String → Service → Service
fail_headless now job epoch alive generation message s₀ =
    let s = noted_worker job.job_id alive generation s₀ in
    if view_request_current s job.job_id epoch
    then save_view_locked now
        (touch now s (record job {
          view_mode = headless;
          desired_view_mode = headless;
          input_owner = if alive then tui else supervisor;
          last_summary = message;
        }))
        (set_runtime job.job_id (requested_runtime false (runtime s job.job_id)) s)
    else s

abbrev pub detached_runtime : Bool → Runtime → Runtime
detached_runtime from_close rt =
    if from_close
    then record rt { wait_cancel = false }
    else record rt { wait_cancel = false; attach_gen = next_u64 rt.attach_gen; term = none }

-- How a detach went on: with the generation that its end has to match, or not at all.
pub data Detach : Type 0 where
  stale missing at_once : Detach
  closing : ℕ → Detach

-- `detachExpected`, up to the unlock; epoch 0 stands for any.
unfoldable pub detach_expected : ℕ → String → Bool → ℕ → Service → Service × Detach
detach_expected now id from_close epoch s₀ =
    let s = ensure_runtime id s₀ in
    if epoch != 0 && (runtime s id).view_epoch != epoch
    then (s, stale)
    else let t = set_runtime id (requested_runtime false (runtime s id)) s in
      elim (load t id) [
        | none ↦ (t, missing)
        | some job ↦
            if not from_close && job.view_mode == headless && job.input_owner == supervisor
            then (
              if job.desired_view_mode != headless
                  then save_view_locked now
                      (touch now t (record job { desired_view_mode = headless })) t
                  else t,
              at_once,
            )
            else let u =
                save_view_locked now
                  (touch now t (record job { desired_view_mode = headless; view_mode = detaching }))
                  t in
              let v = set_runtime id (detached_runtime from_close (runtime u id)) u in
              (v, closing (runtime v id).attach_gen)
      ]

abbrev pub is_detaching : Service → String → ℕ → Bool
is_detaching s id gen = (runtime s id).attach_gen == gen && not (runtime s id).view_requested

-- `finishDetach`, under its first lock: the worker may live on, and then keeps the input. `true` if
-- the session is to be loaded again.
unfoldable pub finish_detach : ℕ → String → ℕ → Bool → Service → Service × Bool
finish_detach now id gen alive s =
    if not (is_detaching s id gen) then (s, false) else elim (load s id) [
      | none ↦ (s, false)
      | some job ↦
          if alive
          then (
            save_view_locked now
                (touch now s (record job {
                  view_mode = headless;
                  input_owner = tui;
                  last_action = "查看窗口已关闭，交互会话继续在后台运行";
                }))
                s,
            false,
          )
          else (s, true)
    ]

-- The outcome of loading the session, if the job has one.
unfoldable pub reclaimed : String → Bool → Service → Service
reclaimed id loaded s =
    if loaded
    then (if rt.stalled_reason == "session_load_failed"
        then set_runtime id (record rt { stalled = false; stalled_reason = "" }) s
        else s)
    else set_runtime id (record rt { stalled = true; stalled_reason = "session_load_failed" }) s
  where
    rt : Runtime
    rt = runtime s id

-- `finishDetach`, under its last lock: the input goes back to the supervisor, and the queue goes on.
unfoldable pub return_input : ℕ → String → ℕ → Service → Service
return_input now id gen s = if not (is_detaching s id gen) then s else elim (load s id) [
  | none ↦ s
  | some job ↦ kick id (
      save_view_locked now
        (touch now s (record job { view_mode = headless; input_owner = supervisor })) s)
]
