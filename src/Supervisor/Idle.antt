-- ===== src/Supervisor/Idle.antt =====
-- internal/supervisor/idle.go: the agent is released when nothing needs it.
use grok_mcp.Prelude.{
  ℕ, ◌+◌, ◌-◌, ◌*◌, String, Bool, true, false, not, ◌&&◌, ◌||◌, ◌∷◌, Option, none, some, ◌==◌, ℕ_eq,
  if◌then◌else◌, any, ltb, length,
}
use grok_mcp.Protocol.State.{plan_ready, JobState_eq}
use grok_mcp.Protocol.Job.{second, is_zero}
use grok_mcp.Store.Tables.{JobRow}
use grok_mcp.Supervisor.State.{Handle, Runtime, Service, connection}

-- `beginOperation`: it waits while the agent is being released.
pub data Begin : Type 0 where
  begun : Service → Begin
  waits refused : Begin

unfoldable pub begin_operation : Service → Begin
begin_operation s =
    if s.closed
    then refused
    else if s.idle_done
    then waits
    else begun (record s { active_operations = s.active_operations + 1; idle_since = 0 })

unfoldable pub end_operation : Service → Service
end_operation s = record s { active_operations = s.active_operations - 1 }

abbrev pub is_open : Option Handle → Bool
is_open none = false
is_open (some h) = true

abbrev pub in_use : String × Runtime → Bool
in_use (id, rt) = rt.busy || ltb 0 (length rt.queue) || is_open rt.term || rt.attaching

abbrev pub holds_approval : (String → Bool) → JobRow → Bool
holds_approval loaded row =
    row.lifecycle.state == plan_ready && loaded row.lifecycle.grok_session_id

abbrev pub timeout_of : Service → ℕ
timeout_of s = if s.idle_timeout == 0 then 30 * second else s.idle_timeout

abbrev pub awake : Service → Service
awake s = record s { idle_since = 0 }

-- `releaseIfIdle`, up to the call of `agent.Release`: `true` if the agent is to be released.
-- `active` is the launcher's answer, `loaded` the agent's `SessionLoaded`.
unfoldable pub release_begin : ℕ → Bool → (String → Bool) → Service → Service × Bool
release_begin now active loaded s =
    if s.closed || ltb 0 s.active_operations || s.idle_done
    then (awake s, false)
    else if any in_use s.rt
    then (awake s, false)
    else if active
    then (awake s, false)
    else if not s.store.readable
    then (s, false)
    else if any (holds_approval loaded) s.store.jobs
    then (awake s, false)
    else if is_zero s.idle_since
    then (record s { idle_since = now }, false)
    else if ltb (now - s.idle_since) (timeout_of s)
    then (s, false)
    else (record s { idle_done = true }, true)

unfoldable pub release_end : ℕ → Service → Service
release_end now s = record s { idle_done = false; idle_since = now; sent = connection ∷ s.sent }
