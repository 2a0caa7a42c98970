-- ===== src/Store/Examples.antt =====
-- Tests: the theorems on the store at concrete runs.
use grok_mcp.Prelude.{
  ℕ, ◌≤◌, ◌<◌, String, true, false, List, [], ◌∷◌, Option, none, some, ◌≡◌, ◌↔◌, inl, inr, refl,
  any, find, ne_of, String_eq,
}
use grok_mcp.Protocol.State.{JobState}
use grok_mcp.Protocol.Job.{zero_job}
use grok_mcp.Store.Tables.{
  Store, Record, WorkRow, TurnResult, find_row, desired_view, lookup_project, shown_project,
}
use grok_mcp.Store.Put.{
  old_job, with_phase, is_news, notify, upsert, accept, mark_state, mark_phase, mark_cancelled,
  mark, mark_result, add_result, write_rows, put_job,
}
use grok_mcp.Store.Queries.{cancel_queued_request, cancel_row, queued_requests}
use grok_mcp.Store.Paging.{ResultQuery, ResultPage, page_of, result, is_result}
use grok_mcp.Store.Cursors.{AreCursors, put_job-AreCursors, put_job-cursor, put_job_again}
use grok_mcp.Store.Pages.{IsPage, result-IsPage}
use grok_mcp.Store.Requests.{queue_of, without, names, cancel_queued_request_lem}

abbrev empty_store : Store
empty_store = record {
  readable = true;
  writable = true;
  jobs = [];
  notifications = [];
  last_notification = 0;
  events = [];
  work_requests = [];
  turn_results = [];
  project_names = [];
  project_name = λ cwd. cwd;
}

-- A write of a job that reached a boundary.
abbrev boundary : Record
boundary = record {
  request_phase = "";
  accepted = none;
  result = none;
  job = record zero_job { job_id = "j1"; request_id = "r1"; state = JobState.needs_input };
  missing_marker_count = 0;
  recover_fails = [];
}

abbrev or_empty : Option Store → Store
or_empty none = empty_store
or_empty (some s) = s

abbrev put_once : Store
put_once = or_empty (put_job boundary empty_store)

abbrev put_twice : Store
put_twice = or_empty (put_job boundary put_once)

first_put : put_job boundary empty_store ≡ some put_once
unfolding find_row desired_view shown_project lookup_project old_job with_phase is_news notify
    upsert accept mark_state mark_phase mark_cancelled mark mark_result add_result write_rows
    put_job
first_put = refl

second_put : put_job boundary put_once ≡ some put_twice
unfolding find_row desired_view shown_project lookup_project old_job with_phase is_news notify
    upsert accept mark_state mark_phase mark_cancelled mark mark_result add_result write_rows
    put_job
second_put = refl

empty_store-AreCursors : AreCursors empty_store
unfolding old_job find_row
empty_store-AreCursors = record { falling = tt; current = λ id. refl }

put_job-AreCursors_example : AreCursors put_once
put_job-AreCursors_example =
    put_job-AreCursors boundary empty_store put_once empty_store-AreCursors first_put

put_job-cursor_example :
    ((old_job empty_store "j1").event_cursor ≤ (old_job put_once "j1").event_cursor)
    × ((is_news (old_job empty_store "j1") (with_phase boundary (old_job empty_store "j1")) ≡ true)
        ↔ ((old_job empty_store "j1").event_cursor < (old_job put_once "j1").event_cursor))
put_job-cursor_example =
    put_job-cursor boundary empty_store put_once empty_store-AreCursors first_put

put_job_again_example : put_twice.notifications ≡ put_once.notifications
put_job_again_example = put_job_again boundary empty_store put_once put_twice first_put second_put

-- Two requests of a job, one of them completed.
abbrev queued_row : WorkRow
queued_row = record {
  request_id = "r2";
  job_id = "j1";
  prompt = "next";
  planning = false;
  state = "working";
  turn_id = "";
  summary = "";
  phase = "queued";
}

abbrev completed_row : WorkRow
completed_row = record queued_row {
  request_id = "r1";
  state = "completed";
  turn_id = "t1";
  phase = "returned";
}

abbrev two_requests : Store
two_requests = record empty_store { work_requests = completed_row ∷ queued_row ∷ [] }

abbrev one_cancelled : Store
one_cancelled = record two_requests {
  work_requests = completed_row ∷ record queued_row { state = "cancelled" } ∷ [];
}

cancels_one : cancel_queued_request "j1" "r2" two_requests ≡ some (one_cancelled, true)
unfolding cancel_queued_request cancel_row
cancels_one = refl

cancel_queued_request_lem_example :
    (queued_requests "j1" one_cancelled
      ≡ some (without "r2" (queue_of "j1" two_requests.work_requests)))
    × (true ≡ any (names "r2") (queue_of "j1" two_requests.work_requests))
    × (one_cancelled.jobs ≡ two_requests.jobs)
cancel_queued_request_lem_example =
    cancel_queued_request_lem "j1" "r2" two_requests one_cancelled true
      (inr (ne_of "returned" "queued" refl), (inl (ne_of "working" "completed" refl), tt))
      cancels_one refl

abbrev stored_result : TurnResult
stored_result = record {
  job_id = "j1";
  request_id = "r1";
  turn_id = "t1";
  body = "abc";
  stop_reason = "end_turn";
  state = JobState.completed;
}

abbrev with_result : Store
with_result = record empty_store { turn_results = stored_result ∷ [] }

abbrev three_runes : String → List ℕ
three_runes text = 97 ∷ 98 ∷ 99 ∷ []

abbrev second_rune : ResultQuery
second_rune = record { request_id = "r1"; turn_id = ""; offset = 1; limit = 1 }

abbrev second_page : ResultPage
second_page = record {
  request_id = "r1";
  turn_id = "t1";
  text = 98 ∷ [];
  offset = 1;
  next_offset = 2;
  total = 3;
  has_more = true;
}

one_rune : result three_runes "j1" second_rune with_result ≡ some second_page
unfolding result page_of
one_rune = refl

result-IsPage_example :
    (t : TurnResult) × (find (is_result "j1" second_rune) with_result.turn_results ≡ some t)
    × IsPage second_rune (three_runes t.body) second_page
result-IsPage_example = result-IsPage three_runes "j1" second_rune with_result second_page one_rune
