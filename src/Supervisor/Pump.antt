-- ===== src/Supervisor/Pump.antt =====
-- internal/supervisor/fifo.go: `runItem` and the end of a round of `pump`. The agent's answers are
-- arguments; an error of the agent says whether `isDisconnect` holds of it.
use grok_mcp.Prelude.{
  ℕ, String, Bool, ◌&&◌, ◌||◌, Option, none, some, ◌==◌, ◌!=◌, ℕ_eq, String_eq, if◌then◌else◌, ltb,
  length,
}
use grok_mcp.Protocol.State.{detaching, ViewMode_eq}
use grok_mcp.Protocol.Job.{Job}
use grok_mcp.Protocol.TaskState.{TaskState}
use grok_mcp.Supervisor.State.{Queued, Service, runtime, set_runtime}
use grok_mcp.Supervisor.Records.{load, fail, persistence_failed}
use grok_mcp.Supervisor.Fifo.{current_gen, enqueue, commit_phase, idle_runtime}
use grok_mcp.Supervisor.Recover.{disconnect_locked}
use grok_mcp.Supervisor.Turn.{PromptResult, apply_prompt_result}

pub record AgentError : Type 0 where
  pub is_disconnect : Bool
  pub message : String

-- What is left to do under the lock once `runItem` is over.
pub data Finish : Type 0 where
  nothing requeue not_persisted : Finish
  lose : String → Finish
  fail_with : Job → AgentError → Finish
  fail_current : AgentError → Finish
  deliver : PromptResult → Option TaskState → Finish

-- How `runItem` goes on, or ends.
pub data Go : Type 0 where
  go_on : Job → Go
  ends : Finish → Go

-- `runItem`, before the session is loaded.
unfoldable pub item_start : String → Queued → Service → Go
item_start id item s = elim (load s id) [
  | none ↦ ends nothing
  | some job ↦
      if job.user_cancelled && item.kind != "cancel"
      then ends nothing
      else if job.view_mode == detaching
      then ends requeue
      else go_on job
]

-- The agent's answers to loading the session and to setting its mode; a first item was just created
-- and is not loaded.
unfoldable pub item_ready : Job → Queued → Option AgentError → Option AgentError → Go
item_ready job item load_error mode_error =
    elim (if item.kind != "plan" then load_error else none) [
      | some e ↦ ends (lose e.message)
      | none ↦ elim mode_error [ some e ↦ ends (fail_with job e) | none ↦ go_on job ]
    ]

-- The step before the prompt is sent: `cancelled` is `ctx.Err() != nil`.
unfoldable pub item_send : ℕ → String → Queued → Bool → Service → Service × Go
item_send now id item cancelled s =
    if item.gen != current_gen s id || cancelled then (s, ends nothing) else elim (load s id) [
      | none ↦ (s, ends not_persisted)
      | some job ↦
          let sent = record job { active_turn_id = item.turn_id } in
          let (t, done) = commit_phase now sent "sent" s in
          (t, if done then go_on sent else ends not_persisted)
    ]

-- The answer to the prompt.
pub data Answer : Type 0 where
  answered : PromptResult → Option TaskState → Answer
  broken : AgentError → Answer

unfoldable pub item_answer : String → Queued → Bool → Answer → Service → Finish
item_answer id item cancelled answer s =
    if item.gen != current_gen s id then nothing else elim answer [
      | answered res parsed ↦ deliver res parsed
      | broken e ↦ if cancelled then nothing else fail_current e
    ]

-- The finishing function, under the lock: all but a delivery check the generation here too.
unfoldable pub finish_item : ℕ → String → String → Queued → Finish → Service → Service
finish_item now uuid id item nothing s = s
finish_item now uuid id item requeue s = (enqueue now uuid id item s).0
finish_item now uuid id item not_persisted s = persistence_failed now id s
finish_item now uuid id item (lose message) s =
    if item.gen == current_gen s id then disconnect_locked now id message s else s
finish_item now uuid id item (fail_with job e) s =
    if item.gen == current_gen s id
    then (if e.is_disconnect
        then disconnect_locked now id e.message s
        else fail now job e.message s)
    else s
finish_item now uuid id item (fail_current e) s =
    if item.gen == current_gen s id
    then (if e.is_disconnect
        then disconnect_locked now id e.message s
        else elim (load s id) [ none ↦ s | some job ↦ fail now job e.message s ])
    else s
finish_item now uuid id item (deliver res parsed) s =
    apply_prompt_result now uuid id item res parsed s

-- The end of a round: the turn is over, then its result is applied; `true` if the pump goes on.
unfoldable pub pump_end : ℕ → String → String → Queued → Finish → Service → Service × Bool
pump_end now uuid id item finish s =
    let t = set_runtime id (idle_runtime (runtime s id)) s in
    (finish_item now uuid id item finish t, ltb 0 (length (runtime s id).queue))
