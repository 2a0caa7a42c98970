-- ===== src/Supervisor/Wait.antt =====
-- internal/supervisor/wait.go: waiting for the boundaries of jobs. `TruncateTitle` is an
-- argument.
use grok_mcp.Prelude.{
  ℕ, ◌+◌, String, Bool, true, false, not, ◌&&◌, ◌||◌, List, [], ◌∷◌, ◌++◌, map, Option, none, some,
  ◌==◌, ◌!=◌, ℕ_eq, String_eq, if◌then◌else◌, ltb, keep, any, length,
}
use text.Mathlib.Text.{starts_with}
use grok_mcp.Protocol.State.{JobState, plan_ready, is_boundary, JobState_eq}
use grok_mcp.Protocol.Job.{Job}
use grok_mcp.Store.Queries.{wait_snapshot}
use grok_mcp.Supervisor.State.{Service}
use grok_mcp.Supervisor.Records.{ensure_runtime, decorate}

-- `WaitRequest`; numbers that are negative are refused before.
pub record WaitRequest : Type 0 where
  pub job_ids : List String
  pub cursors : List (String × ℕ)
  pub mode : String
  pub timeout_sec : ℕ

pub record WaitResult : Type 0 where
  pub reason : String
  pub jobs : List Job
  pub boundaries : List Job
  pub cursors : List (String × ℕ)

pub data WaitError : Type 0 where
  no_jobs bad_mode bad_timeout duplicate_job bad_cursor unreadable job_failed : WaitError

abbrev pub has_text : String → List String → Bool
has_text id ids = any (λ k. k == id) ids

-- Whether a name is empty or stands twice.
abbrev pub has_duplicate : List String → Bool
has_duplicate [] = false
has_duplicate (id ∷ ids) = id == "" || has_text id ids || has_duplicate ids

abbrev pub mode_of : WaitRequest → String
mode_of req = if req.mode == "" then "any" else req.mode

-- The guards of `Wait`.
unfoldable pub wait_error : WaitRequest → Option WaitError
wait_error req =
    if length req.job_ids == 0
    then some no_jobs
    else if mode_of req != "any" && mode_of req != "all"
    then some bad_mode
    else if ltb 21600 req.timeout_sec
    then some bad_timeout
    else if has_duplicate req.job_ids
    then some duplicate_job
    else if any (λ c. not (has_text c.0 req.job_ids)) req.cursors
    then some bad_cursor
    else none

abbrev pub cursor_for : String → List (String × ℕ) → Option ℕ
cursor_for id [] = none
cursor_for id ((k, n) ∷ cs) = if k == id then some n else cursor_for id cs

abbrev pub or_zero : Option ℕ → ℕ
or_zero none = 0
or_zero (some n) = n

-- Whether a job stands at something that a client can act on.
unfoldable pub is_actionable : Job → Bool
is_actionable j =
    (is_boundary j.state || j.stalled)
    && (j.state != JobState.completed || (not j.busy && j.queue_length == 0))

unfoldable pub is_fresh : Option ℕ → Job → Bool
is_fresh none j = true
is_fresh (some cursor) j = ltb cursor j.event_cursor

-- A boundary that the job's state has not replaced.
abbrev pub is_current : Job → Job → Bool
is_current j boundary = boundary.state == j.state && boundary.approval_id == j.approval_id

abbrev pub brief : Job → Job
brief j = if j.state == plan_ready then j else record j { plan_summary = "" }

-- The job as `Wait` shows it.
unfoldable pub shown : Bool → Job → Job
shown is_news j =
    let b = brief j in
    if is_news then b else record b {
      plan_summary = "";
      last_summary = if b.state == JobState.completed then "" else b.last_summary;
    }

pub record Seen : Type 0 where
  pub job : Job
  pub boundaries : List Job
  pub hit : Bool
  pub cursor : ℕ

-- What the loop of `snapshot` makes of one job: `j` is decorated, `events` are its notifications.
unfoldable pub see : Option ℕ → Job → List Job → Seen
unfolding is_actionable is_fresh shown
see cursor j events =
    let replayed = keep (is_current j) events in
    let fresh = is_fresh cursor j in
    record {
      job = shown (is_actionable j && fresh) j;
      boundaries = map brief replayed;
      hit = is_actionable j && (fresh || not (length replayed == 0));
      cursor = j.event_cursor;
    }

pub data Looked : Type 0 where
  looked : List Seen → Looked
  fails : WaitError → Looked

abbrev pub add_seen : Seen → Looked → Looked
add_seen x (looked xs) = looked (x ∷ xs)
add_seen x (fails e) = fails e

-- `snapshot` of `Wait`: each job under its lock, until one fails.
unfoldable pub look : ℕ → List (String × ℕ) → List String → Service → Service × Looked
unfolding see
look now cursors [] s = (s, looked [])
look now cursors (id ∷ ids) s₀ =
    let s = ensure_runtime id s₀ in
    let rest = look now cursors ids s in
    elim (wait_snapshot id (or_zero (cursor_for id cursors)) s.store) [
      | none ↦ (s, fails unreadable)
      | some (rec, events) ↦
          if starts_with (decorate now s rec.job).stalled_reason "persistence_failed:"
          then (s, fails job_failed)
          else (
            rest.0,
            add_seen (see (cursor_for id cursors) (decorate now s rec.job) events) rest.1,
          )
    ]

abbrev pub hits : List Seen → ℕ
hits [] = 0
hits (x ∷ xs) = (if x.hit then 1 else 0) + hits xs

-- Whether `Wait` returns.
unfoldable pub is_ready : WaitRequest → List Seen → Bool
is_ready req xs = ltb 0 (hits xs) && (mode_of req == "any" || hits xs == length req.job_ids)

abbrev pub all_boundaries : List Seen → List Job
all_boundaries [] = []
all_boundaries (x ∷ xs) = x.boundaries ++ all_boundaries xs

abbrev pub cursors_of : List String → List Seen → List (String × ℕ)
cursors_of [] xs = []
cursors_of (id ∷ ids) [] = []
cursors_of (id ∷ ids) (x ∷ xs) = (id, x.cursor) ∷ cursors_of ids xs

abbrev pub job_seen : Seen → Job
job_seen x = x.job

-- What `Wait` returns when it is ready.
unfoldable pub at_boundary : WaitRequest → List Seen → WaitResult
at_boundary req xs = record {
  reason = "boundary";
  jobs = map job_seen xs;
  boundaries = all_boundaries xs;
  cursors = cursors_of req.job_ids xs;
}

unfoldable pub reported : (String → String) → Job → Job
reported truncate j = record j {
  plan_summary = "";
  last_summary =
      if j.state == JobState.completed
      then ""
      else if j.last_summary == ""
      then ""
      else truncate j.last_summary;
}

-- What `Wait` returns when the time is over and it is not ready.
unfoldable pub report_due : (String → String) → WaitRequest → List Seen → WaitResult
unfolding reported
report_due truncate req xs = record {
  reason = "report_due";
  jobs = map (λ x. reported truncate (job_seen x)) xs;
  boundaries = [];
  cursors =
      if mode_of req == "all"
      then map (λ id. (id, or_zero (cursor_for id req.cursors))) req.job_ids
      else cursors_of req.job_ids xs;
}

-- The last look of `Wait`, when the time is over.
unfoldable pub due : (String → String) → WaitRequest → List Seen → WaitResult
unfolding at_boundary report_due is_ready
due truncate req xs = if is_ready req xs then at_boundary req xs else report_due truncate req xs
