-- ===== src/Supervisor/Watchdog.antt =====
-- internal/supervisor/watchdog.go: finding jobs that make no progress.
use grok_mcp.Prelude.{
  ℕ, ◌-◌, ◌*◌, String, Bool, true, false, not, ◌&&◌, ◌||◌, List, [], ◌∷◌, Option, none, some, ◌==◌,
  ◌!=◌, ℕ_eq, String_eq, if◌then◌else◌, ltb, length,
}
use grok_mcp.Protocol.State.{
  supervisor, tui, handoff, plan_ready, executing, attaching, detaching, JobState_eq, ViewMode_eq,
  InputOwner_eq,
}
use grok_mcp.Protocol.Job.{Job, second}
use grok_mcp.Store.Tables.{JobRow}
use grok_mcp.Supervisor.State.{Runtime, Service, runtime, set_runtime}
use grok_mcp.Supervisor.Records.{load, save, ensure_runtime}
use grok_mcp.Supervisor.Fifo.{live_grok}

-- The reason for a stall, and for how long it has to hold.
unfoldable pub stall : Job → Runtime → Bool → Option (String × ℕ)
stall job rt live =
    let waiting = ltb 0 (length rt.queue) in
    if waiting
      && not rt.busy
      && job.input_owner == supervisor
      && job.state != plan_ready
      && job.pause_reason == ""
      && job.approval_delivery != "unknown"
    then some ("queue_nonempty_but_pump_idle", 5 * second)
    else if waiting
        && (job.input_owner == tui || job.input_owner == handoff)
        && not live
        && job.view_mode != attaching
    then some ("stale_tui_owner", 3 * second)
    else if job.view_mode == detaching
    then some ("detach_timeout", 3 * second)
    else if job.state == executing && rt.turn_id == "" && not waiting && not rt.busy
    then some ("executing_without_turn", 10 * second)
    else none

unfoldable pub find_since : String → List (String × ℕ) → Option ℕ
find_since reason [] = none
find_since reason ((r, at) ∷ rest) = if r == reason then some at else find_since reason rest

abbrev pub unstalled : Runtime → Runtime
unstalled rt = record rt { stalled = false; stalled_reason = "" }

-- Nothing is wrong: the flag goes, and so does what was seen.
abbrev pub quiet : String → Runtime → Service → Service
quiet id rt s = set_runtime id (record rt { stall_since = [] }) s

abbrev pub settle : ℕ → String → Job → Runtime → Service → Service
settle now id job rt s =
    if rt.stalled
    then (let t =
          (save now (record job { stalled = false; stalled_reason = "" })
            (set_runtime id (unstalled rt) s)).0 in
        quiet id (runtime t id) t)
    else quiet id rt s

abbrev pub report : ℕ → String → Job → Runtime → String → Service → Service
report now id job rt reason s =
    (save now (record job { stalled = true; stalled_reason = reason })
      (set_runtime id (record rt { stalled = true; stalled_reason = reason }) s)).0

-- A reason for a stall, and when it was first seen.
abbrev pub inspect_since : ℕ → String → Job → Runtime → String → ℕ → Option ℕ → Service → Service
inspect_since now id job rt reason need none s =
    set_runtime id (record rt { stall_since = (reason, now) ∷ [] }) s
inspect_since now id job rt reason need (some since) s =
    if ltb (now - since) need
    then s
    else if rt.stalled && rt.stalled_reason == reason
    then s
    else report now id job rt reason s

abbrev pub inspect_stall : ℕ → String → Job → Runtime → Option (String × ℕ) → Service → Service
inspect_stall now id job rt none s = settle now id job rt s
inspect_stall now id job rt (some (reason, need)) s =
    inspect_since now id job rt reason need (find_since reason rt.stall_since) s

-- `checkJobStall`
unfoldable pub check_job_stall : ℕ → String → Service → Service
check_job_stall now id s₀ =
    let s = ensure_runtime id s₀ in
    elim (load s id) [
      | none ↦ s
      | some job ↦
          inspect_stall now id job (runtime s id) (stall job (runtime s id) (live_grok s id)) s
    ]

-- `inspectWatchdog`, over the jobs of the listing.
unfoldable pub inspect_watchdog : ℕ → List JobRow → Service → Service
inspect_watchdog now [] s = s
inspect_watchdog now (row ∷ rows) s =
    inspect_watchdog now rows (check_job_stall now row.lifecycle.job_id s)
