-- ===== src/Store/Tables.antt =====
-- internal/store/store.go: the tables, and the records that go in and out.
-- SQLite is not modelled beyond its documented effect: a statement changes the rows that its
-- `WHERE` clause names, and a transaction that fails changes nothing. `writable` says whether the
-- next transaction can commit, `readable` whether a query succeeds.
use grok_mcp.Prelude.{
  ℕ, ◌*◌, ◌/◌, String, Bool, ◌||◌, List, [], ◌∷◌, Option, none, some, ◌==◌, ℕ_eq, String_eq,
  if◌then◌else◌, find,
}
use grok_mcp.Protocol.State.{JobState, ViewMode, headless, headed, attaching, ViewMode_eq}
use grok_mcp.Protocol.Job.{Job, zero_job, second, is_zero}

pub record RequestResult : Type 0 where
  pub request_id : String
  pub turn_id : String
  pub summary : String
  pub text : String
  pub stop_reason : String
  pub state : JobState

pub record WorkRequest : Type 0 where
  pub request_id : String
  pub prompt : String
  pub phase : String
  pub planning : Bool

-- `store.Record`.
pub record Record : Type 0 where
  pub request_phase : String
  pub accepted : Option WorkRequest
  pub result : Option RequestResult
  pub job : Job
  pub missing_marker_count : ℕ
  pub recover_fails : List ℕ

-- A row of `jobs`. Its columns are written together with the JSON column `lifecycle`, from one
-- job; only `created_at` keeps its first value.
pub record JobRow : Type 0 where
  pub lifecycle : Job
  pub created_at : ℕ
  pub missing_marker_count : ℕ
  pub recover_fails : List ℕ

-- A row of `work_requests`.
pub record WorkRow : Type 0 where
  pub request_id : String
  pub job_id : String
  pub prompt : String
  pub planning : Bool
  pub state : String
  pub turn_id : String
  pub summary : String
  pub phase : String

-- A row of `job_notifications`.
pub record Notification : Type 0 where
  pub id : ℕ
  pub job_id : String
  pub snapshot : Job

-- A row of `boundary_events`, without its number.
pub record BoundaryEvent : Type 0 where
  pub job_id : String
  pub event_type : String
  pub summary : String
  pub created_at : ℕ

-- A row of `turn_results`.
pub record TurnResult : Type 0 where
  pub job_id : String
  pub request_id : String
  pub turn_id : String
  pub body : String
  pub stop_reason : String
  pub state : JobState

-- `request_results` holds columns of `turn_results` again and is read nowhere: it is left out.
-- The newest row of `notifications`, `events` and `turn_results` comes first; `work_requests` is in
-- order of insertion. `last_notification` is SQLite's counter behind `AUTOINCREMENT`.
pub record Store : Type 0 where
  pub readable : Bool
  pub writable : Bool
  pub jobs : List JobRow
  pub notifications : List Notification
  pub last_notification : ℕ
  pub events : List BoundaryEvent
  pub work_requests : List WorkRow
  pub turn_results : List TurnResult
  pub project_names : List (String × String)
  -- `textutil.ProjectName`, the last part of a path.
  pub project_name : String → String

-- `time.Unix(t.Unix(), 0)`: the columns keep whole seconds.
abbrev pub whole_seconds : ℕ → ℕ
whole_seconds t = t / second * second

-- 1970-01-01 in seconds of Go's `time.Time`, whose zero is the year 1.
abbrev pub unix_epoch : ℕ
unix_epoch = 62_135_596_800

-- `nullUnix`, read back: null and 0 both give the zero time.
abbrev pub read_archived : ℕ → ℕ
read_archived t = if is_zero t || t / second == unix_epoch then 0 else whole_seconds t

unfoldable pub desired_view : Job → ViewMode
desired_view j =
    if j.desired_view_mode == ViewMode.unset
    then if j.view_mode == headed || j.view_mode == attaching then headed else headless
    else j.desired_view_mode

unfoldable pub lookup_project : String → List (String × String) → String
lookup_project id [] = ""
lookup_project id ((k, name) ∷ rows) = if k == id then name else lookup_project id rows

abbrev pub has_id : String → JobRow → Bool
has_id id row = row.lifecycle.job_id == id

unfoldable pub find_row : String → Store → Option JobRow
find_row id s = find (has_id id) s.jobs

-- The name that a job shows for its project.
unfoldable pub shown_project : Store → Job → String
unfolding lookup_project
shown_project s j =
    let name = lookup_project j.project_id s.project_names in
    if name == "" then s.project_name j.cwd else name

-- `scanJob`: what a row reads back as. What `lifecycle` holds beyond these fields is dropped.
unfoldable pub scan_job : Store → JobRow → Record
unfolding desired_view
scan_job s row = record {
  request_phase = "";
  accepted = none;
  result = none;
  job = record zero_job {
    job_id = j.job_id;
    codex_thread_id = j.codex_thread_id;
    grok_session_id = j.grok_session_id;
    cwd = j.cwd;
    title = j.title;
    plan_digest = j.plan_digest;
    plan_summary = j.plan_summary;
    last_action = j.last_action;
    last_summary = j.last_summary;
    request_id = j.request_id;
    approved = j.approved;
    request_phase = j.request_phase;
    approval_id = j.approval_id;
    approval_connection_id = j.approval_connection_id;
    approval_supports_notes = j.approval_supports_notes;
    approval_delivery = j.approval_delivery;
    pause_reason = j.pause_reason;
    result_turn_id = j.result_turn_id;
    plan_version = j.plan_version;
    plan_turn_id = j.plan_turn_id;
    event_cursor = j.event_cursor;
    active_turn_id = j.active_turn_id;
    last_activity_at = j.last_activity_at;
    activity_kind = j.activity_kind;
    stalled = j.stalled;
    stalled_reason = j.stalled_reason;
    state = j.state;
    view_mode = j.view_mode;
    desired_view_mode = desired_view j;
    input_owner = j.input_owner;
    user_cancelled = j.user_cancelled;
    created_at = whole_seconds row.created_at;
    updated_at = whole_seconds j.updated_at;
    archived_at = read_archived j.archived_at;
    project_id = j.project_id;
    project = shown_project s j;
  };
  missing_marker_count = row.missing_marker_count;
  recover_fails = row.recover_fails;
}
  where
    open row use {lifecycle as j}

unfoldable pub get_job : Store → String → Option Record
get_job s id =
    if s.readable
    then elim (find_row id s) [ none ↦ none | some row ↦ some (scan_job s row) ]
    else none
