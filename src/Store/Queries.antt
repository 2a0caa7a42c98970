-- ===== src/Store/Queries.antt =====
-- internal/store/store.go, results.go and notifications.go: what the supervisor asks the store.
use grok_mcp.Prelude.{
  ℕ, ◌/◌, String, Bool, ◌&&◌, List, [], ◌∷◌, map, Option, none, some, ◌==◌, ◌!=◌, ℕ_eq, String_eq,
  if◌then◌else◌, any, find, keep, ltb, leb,
}
use mathlib.Core.List.{reverse}
use grok_mcp.Protocol.Job.{Job, second}
use grok_mcp.Store.Tables.{
  JobRow, Record, WorkRow, WorkRequest, Notification, Store, find_row, scan_job,
}

-- `CancelQueuedRequest`: the rows that its `UPDATE` names, the new rows, and whether there were any.
abbrev pub is_cancellable : String → String → WorkRow → Bool
is_cancellable job_id id row =
    row.job_id == job_id
    && row.request_id == id
    && row.phase == "queued"
    && row.state != "cancelled"
    && row.state != "completed"

unfoldable pub cancel_row : String → String → WorkRow → WorkRow
cancel_row job_id id row =
    if is_cancellable job_id id row then record row { state = "cancelled" } else row

unfoldable pub cancel_queued_request : String → String → Store → Option (Store × Bool)
unfolding cancel_row
cancel_queued_request job_id id s =
    if s.writable
    then some (
      record s { work_requests = map (cancel_row job_id id) s.work_requests },
      any (is_cancellable job_id id) s.work_requests,
    )
    else none

-- `QueuedRequests`, in order of insertion.
abbrev pub is_queued : String → WorkRow → Bool
is_queued job_id row = row.job_id == job_id && row.phase == "queued" && row.state != "cancelled"

abbrev pub read_request : WorkRow → WorkRequest
read_request row = record {
  request_id = row.request_id;
  prompt = row.prompt;
  phase = row.phase;
  planning = row.planning;
}

unfoldable pub queued_requests : String → Store → Option (List WorkRequest)
queued_requests job_id s =
    if s.readable then some (map read_request (keep (is_queued job_id) s.work_requests)) else none

-- `Request` and `RequestState`.
abbrev pub is_request : String → String → WorkRow → Bool
is_request job_id id row = row.job_id == job_id && row.request_id == id

unfoldable pub find_request : String → String → Store → Option WorkRow
find_request job_id id s = if s.readable then find (is_request job_id id) s.work_requests else none

unfoldable pub request : String → String → Store → Option WorkRequest
unfolding find_request
request job_id id s = elim (find_request job_id id s) [
  | none ↦ none
  | some row ↦ some (read_request row)
]

unfoldable pub request_state : String → String → Store → Option String
unfolding find_request
request_state job_id id s = elim (find_request job_id id s) [
  | none ↦ none
  | some row ↦ some row.state
]

-- `WaitSnapshot`: the job, and the notifications of its current request after the cursor.
abbrev pub is_after : String → ℕ → ℕ → Notification → Bool
is_after id after cursor n = n.job_id == id && ltb after n.id && leb n.id cursor

abbrev pub with_cursor : Notification → Job
with_cursor n = record n.snapshot { event_cursor = n.id }

unfoldable pub wait_events : String → ℕ → Job → List Notification → List Job
wait_events id after job ns =
    keep (λ j. j.request_id == job.request_id)
      (map with_cursor (keep (is_after id after job.event_cursor) (reverse ns)))

unfoldable pub wait_snapshot : String → ℕ → Store → Option (Record × List Job)
unfolding wait_events
wait_snapshot id after s = elim (find_row id s) [
  | none ↦ none
  | some row ↦
      if s.readable && leb after row.lifecycle.event_cursor
      then some (scan_job s row, wait_events id after (scan_job s row).job s.notifications)
      else none
]

-- `NotificationAfter`: the newest one of the given request.
unfoldable pub notification_after : String → ℕ → String → List Notification → Option Job
notification_after id after request_id [] = none
notification_after id after request_id (n ∷ ns) =
    if n.job_id == id && ltb after n.id && n.snapshot.request_id == request_id
    then some (with_cursor n)
    else notification_after id after request_id ns

-- `DeleteJob`: one transaction over every table that names the job.
abbrev pub other : String → String → Bool
other id job_id = job_id != id

unfoldable pub delete_job : String → Store → Option Store
delete_job id s =
    if s.writable
    then some (record s {
      jobs = keep (λ row. other id row.lifecycle.job_id) s.jobs;
      notifications = keep (λ n. other id n.job_id) s.notifications;
      events = keep (λ e. other id e.job_id) s.events;
      work_requests = keep (λ row. other id row.job_id) s.work_requests;
      turn_results = keep (λ t. other id t.job_id) s.turn_results;
    })
    else none

-- `ORDER BY jobs.updated_at DESC` of `ListJobs`: a row goes before those that are no newer. SQLite
-- leaves open in which order rows of one second come; here they keep the table's.
unfoldable pub put_newest : JobRow → List JobRow → List JobRow
put_newest row [] = row ∷ []
put_newest row (r ∷ rows) =
    let rest = put_newest row rows in
    if ltb (row.lifecycle.updated_at / second) (r.lifecycle.updated_at / second)
    then r ∷ rest
    else row ∷ r ∷ rows

unfoldable pub newest_first : List JobRow → List JobRow
unfolding put_newest
newest_first [] = []
newest_first (row ∷ rows) = put_newest row (newest_first rows)

-- The rows that `ListJobs` reads, `none` if the query fails.
unfoldable pub list_jobs : Store → Option (List JobRow)
unfolding newest_first
list_jobs s = if s.readable then some (newest_first s.jobs) else none
