-- ===== src/Store/Put.antt =====
-- internal/store/store.go: `PutJob`, statement by statement.
use grok_mcp.Prelude.{
  ℕ, ◌+◌, String, Bool, ◌&&◌, ◌||◌, List, [], ◌∷◌, ◌++◌, map, Option, none, some, ◌==◌, ◌!=◌, ℕ_eq,
  String_eq, if◌then◌else◌, any, concat,
}
use grok_mcp.Protocol.State.{JobState, is_boundary, state_text, JobState_eq}
use grok_mcp.Protocol.Job.{Job, zero_job}
use grok_mcp.Store.Tables.{
  RequestResult, WorkRequest, Record, JobRow, WorkRow, TurnResult, Store, has_id, find_row,
  whole_seconds,
}

-- The job that the row's JSON holds, or the zero job where there is no row.
unfoldable pub old_job : Store → String → Job
unfolding find_row
old_job s id = elim (find_row id s) [ none ↦ zero_job | some row ↦ row.lifecycle ]

-- A new request starts as queued; a phase that the caller names wins.
unfoldable pub with_phase : Record → Job → Job
with_phase rec old = record j {
  request_phase =
      if rec.request_phase != ""
      then rec.request_phase
      else if j.request_id != old.request_id
      then "queued"
      else j.request_phase;
  event_cursor = old.event_cursor;
}
  where
    open rec use {job as j}

-- Whether a waiting client has to hear of `j`.
unfoldable pub is_news : Job → Job → Bool
is_news old j =
    (is_boundary j.state || j.stalled)
    && (old.state != j.state
        || old.request_id != j.request_id
        || old.plan_version != j.plan_version
        || old.stalled_reason != j.stalled_reason
        || old.last_summary != j.last_summary
        || old.approval_id != j.approval_id
        || old.pause_reason != j.pause_reason)

-- The rows of a notification, and the job with its number.
unfoldable pub notify : Job → Job → Store → Store × Job
unfolding is_news
notify old j s =
    if is_news old j
    then (
      record s {
        notifications = record { id = n; job_id = j.job_id; snapshot = j } ∷ s.notifications;
        last_notification = n;
        events =
            record {
              job_id = j.job_id;
              event_type = state_text j.state;
              summary = j.last_summary;
              created_at = whole_seconds j.updated_at;
            }
            ∷ s.events;
      },
      record j { event_cursor = n },
    )
    else (s, j)
  where
    n : ℕ
    n = s.last_notification + 1

unfoldable pub upsert : JobRow → List JobRow → List JobRow
upsert new [] = new ∷ []
upsert new (row ∷ rows) =
    if has_id new.lifecycle.job_id row
    then record new { created_at = row.created_at } ∷ rows
    else row ∷ upsert new rows

abbrev pub has_request : String → WorkRow → Bool
has_request id row = row.request_id == id

-- `INSERT … ON CONFLICT(request_id) DO NOTHING`
unfoldable pub accept : String → Option WorkRequest → List WorkRow → List WorkRow
accept job_id none rows = rows
accept job_id (some r) rows =
    if any (has_request r.request_id) rows
    then rows
    else rows
      ++ record {
        request_id = r.request_id;
        job_id = job_id;
        prompt = r.prompt;
        planning = r.planning;
        state = "queued";
        turn_id = "";
        summary = "";
        phase = "queued";
      }
        ∷ []

-- The three updates of `work_requests` that a job brings about.
unfoldable pub mark_state : Job → WorkRow → WorkRow
mark_state j row =
    if row.request_id == j.request_id && row.state != "completed"
    then record row { state = state_text j.state; turn_id = j.active_turn_id }
    else row

unfoldable pub mark_phase : String → Job → WorkRow → WorkRow
mark_phase phase j row =
    if phase != "" && row.request_id == j.request_id then record row { phase = phase } else row

unfoldable pub mark_cancelled : Job → WorkRow → WorkRow
mark_cancelled j row =
    if j.user_cancelled && row.job_id == j.job_id && row.state != "completed"
    then record row { state = "cancelled" }
    else row

unfoldable pub mark : String → Job → WorkRow → WorkRow
unfolding mark_state mark_phase mark_cancelled
mark phase j row = mark_cancelled j (mark_phase phase j (mark_state j row))

abbrev pub result_state : RequestResult → JobState
result_state r = if r.state == JobState.unset then JobState.completed else r.state

unfoldable pub mark_result : RequestResult → WorkRow → WorkRow
mark_result r row =
    if row.request_id == r.request_id
    then record row {
      state = state_text (result_state r);
      summary = r.summary;
      turn_id = r.turn_id;
    }
    else row

abbrev pub same_turn : String → String → TurnResult → Bool
same_turn job_id turn_id t = t.job_id == job_id && t.turn_id == turn_id

-- The key of `turn_results` is the job and the turn: a second result of a turn fails.
unfoldable pub add_result : Job → Option RequestResult → Store → Option Store
unfolding mark_result
add_result j none s = some s
add_result j (some r) s =
    if any (same_turn j.job_id r.turn_id) s.turn_results
    then none
    else some (record s {
      turn_results =
          record {
            job_id = j.job_id;
            request_id = r.request_id;
            turn_id = r.turn_id;
            body = r.text;
            stop_reason = r.stop_reason;
            state = result_state r;
          }
          ∷ s.turn_results;
      work_requests = map (mark_result r) s.work_requests;
      events =
          record {
            job_id = j.job_id;
            event_type = concat "request_" (state_text (result_state r));
            summary = r.summary;
            created_at = whole_seconds j.updated_at;
          }
          ∷ s.events;
    })

abbrev pub new_row : Record → Job → JobRow
new_row rec j = record {
  lifecycle = j;
  created_at = j.created_at;
  missing_marker_count = rec.missing_marker_count;
  recover_fails = rec.recover_fails;
}

-- The row of the job and the rows of its requests.
unfoldable pub write_rows : Record → Job → Store → Store
unfolding upsert accept mark
write_rows rec j s = record s {
  jobs = upsert (new_row rec j) s.jobs;
  work_requests = map (mark rec.request_phase j) (accept j.job_id rec.accepted s.work_requests);
}

-- `none`: the transaction was rolled back, and the store is as before.
unfoldable pub put_job : Record → Store → Option Store
unfolding old_job with_phase notify write_rows add_result
put_job rec s =
    let old = old_job s rec.job.job_id in
    let (t, j) = notify old (with_phase rec old) s in
    if s.readable && s.writable then add_result j rec.result (write_rows rec j t) else none
