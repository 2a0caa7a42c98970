-- ===== src/Supervisor/State.antt =====
-- internal/supervisor/service.go: `queued`, `runtime` and `Service`.
-- What `coord` and `mu` guard is one step here; the clock, new identifiers and the answers of the
-- agent and the terminal are arguments. A cancel function is the Boolean that says it is set.
use grok_mcp.Prelude.{
  ℕ, ◌+◌, ◌%◌, ◌^◌, String, Bool, false, List, [], ◌∷◌, Option, none, some, ◌==◌, ℕ_eq, String_eq,
  if◌then◌else◌, ◌≡◌, refl, arith, eq_iff,
}
use grok_mcp.Protocol.Job.{Job}
use grok_mcp.Store.Tables.{Store}

-- `queued`
pub record Queued : Type 0 where
  pub accepted_job : Option Job
  pub connect : Bool
  pub kind : String
  pub text : String
  pub gen : ℕ
  pub turn_id : String
  pub request_id : String
  pub planning : Bool

-- `terminal.Handle`, as far as the supervisor reads it.
pub record Handle : Type 0 where
  pub pid : ℕ
  pub window_id : String

-- `runtime`: what the process holds of one job.
pub record Runtime : Type 0 where
  pub control_pending : Bool
  pub turn_started_at : ℕ
  pub plan_file_digest : String
  pub cancelled_turn : Bool
  pub session_id : String
  pub request_id : String
  pub last_activity : ℕ
  pub activity_kind : String
  pub view_requested : Bool
  pub view_epoch : ℕ
  pub worker_generation : String
  pub busy : Bool
  pub queue : List Queued
  pub cancel : Bool
  pub term : Option Handle
  pub wait_cancel : Bool
  pub attaching : Bool
  pub attach_gen : ℕ
  pub gen : ℕ
  pub turn_seq : ℕ
  pub turn_id : String
  pub stalled : Bool
  pub stalled_reason : String
  pub stall_since : List (String × ℕ)

abbrev pub new_runtime : Runtime
new_runtime = record {
  control_pending = false;
  turn_started_at = 0;
  plan_file_digest = "";
  cancelled_turn = false;
  session_id = "";
  request_id = "";
  last_activity = 0;
  activity_kind = "";
  view_requested = false;
  view_epoch = 0;
  worker_generation = "";
  busy = false;
  queue = [];
  cancel = false;
  term = none;
  wait_cancel = false;
  attaching = false;
  attach_gen = 0;
  gen = 0;
  turn_seq = 0;
  turn_id = "";
  stalled = false;
  stalled_reason = "";
  stall_since = [];
}

-- `uint64` counters wrap.
abbrev pub next_u64 : ℕ → ℕ
next_u64 n = (n + 1) % 2 ^ 64

-- A broadcast to the subscribers.
pub data Event : Type 0 where
  job_changed : Job → Event
  job_deleted : String → Event
  connection : Event

pub record Service : Type 0 where
  pub store : Store
  pub rt : List (String × Runtime)
  pub closed : Bool
  pub active_operations : ℕ
  pub idle_since : ℕ
  -- `idleDone` is set: the agent is being released.
  pub idle_done : Bool
  pub idle_timeout : ℕ
  -- Jobs for which a pump goroutine was started, the newest first.
  pub pumps : List String
  -- Everything that was broadcast, the newest first.
  pub sent : List Event
  -- `WorkerAlive`, if the launcher has it.
  pub worker_alive : Option (String → Bool)

pub data Err : Type 0 where
  closed not_found persistence inactive plan_pending prompt_required bad_planning : Err
  not_waiting stale_decision bad_decision no_plan_content approval_expired : Err
  stale_connection no_notes incomplete_identity unknown_session stale_turn : Err
  stale_cancel target_mismatch unknown_request archive_active delete_active : Err
  agent_failed bad_view no_session no_query : Err

pub data Result {ℓ} (A : Type ℓ) : Type ℓ where
  ok : A → Result A
  err : Err → Result A

unfoldable pub find_runtime : String → List (String × Runtime) → Option Runtime
find_runtime id [] = none
find_runtime id ((k, r) ∷ rs) = if k == id then some r else find_runtime id rs

unfoldable pub put_runtime : String → Runtime → List (String × Runtime) → List (String × Runtime)
put_runtime id r [] = (id, r) ∷ []
put_runtime id r ((k, q) ∷ rs) = if k == id then (k, r) ∷ rs else (k, q) ∷ put_runtime id r rs

abbrev pub or_new : Option Runtime → Runtime
or_new none = new_runtime
or_new (some r) = r

-- `s.runtime(id)`, which makes the entry on first use.
unfoldable pub runtime : Service → String → Runtime
unfolding find_runtime
runtime s id = or_new (find_runtime id s.rt)

unfoldable pub set_runtime : String → Runtime → Service → Service
unfolding put_runtime
set_runtime id r s = record s { rt = put_runtime id r s.rt }

find-put_runtime :
    (id k : String) (r : Runtime) (rs : List (String × Runtime))
    → find_runtime k (put_runtime id r rs) ≡ (if id == k then some r else find_runtime k rs)
unfolding find_runtime put_runtime
find-put_runtime id k r [] = refl
find-put_runtime id k r ((j, q) ∷ rs) =
    ground (arith, find-put_runtime id k r rs, eq_iff j k, eq_iff j id, eq_iff id k)

pub runtime-set_runtime :
    (id k : String) (r : Runtime) (s : Service)
    → runtime (set_runtime id r s) k ≡ (if id == k then r else runtime s k)
unfolding runtime set_runtime
runtime-set_runtime id k r s = ground (arith, find-put_runtime id k r s.rt)
