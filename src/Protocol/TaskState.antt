-- ===== src/Protocol/TaskState.antt =====
-- internal/protocol/taskstate.go: the status block that ends an answer.
-- `trim` is strings.TrimSpace and `unmarshal` json.Unmarshal into the struct.
use grok_mcp.Prelude.{String, ℕ_eq}
use grok_mcp.Protocol.State.{TaskMarker}

pub record TaskState : Type 0 where
  pub state : TaskMarker
  pub summary : String
  pub next : String

-- The struct as JSON has it: any text may stand where a marker is wanted.
pub record RawState : Type 0 where
  pub state : String
  pub summary : String
  pub next : String

abbrev pub task_state_open : String
task_state_open = "<GROK_TASK_STATE>"

abbrev pub task_state_close : String
task_state_close = "</GROK_TASK_STATE>"

abbrev pub marker_text : TaskMarker → String
marker_text TaskMarker.working = "working"
marker_text TaskMarker.needs_input = "needs_input"
marker_text TaskMarker.completed = "completed"
marker_text TaskMarker.blocked = "blocked"
