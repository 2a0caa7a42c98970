-- ===== src/Store/ListExamples.antt =====
-- Tests: the pages of the list of jobs at a store of two.
use grok_mcp.Prelude.{
  ℕ, ◌*◌, String, true, false, [], ◌∷◌, ◌++◌, some, ◌≡◌, refl, All, ne_of, String_eq, if◌then◌else◌,
  ◌==◌,
}
use grok_mcp.Protocol.State.{JobState}
use grok_mcp.Protocol.Job.{zero_job, second}
use grok_mcp.Protocol.Group.{
  CursorText, cursor_at, compare_jobs, encode_job_cursor, clamp_job_limit,
}
use grok_mcp.Store.Tables.{Store, JobRow, scan_job}
use grok_mcp.Store.Listing.{
  ListQuery, Patterns, JobPage, key_at, is_less, is_past, is_ahead, place, ordered, in_state,
  in_view, in_project, is_found, is_listed, page_of_rows, list_jobs_page,
}
use grok_mcp.Store.Order.{is_past-compare_jobs}
use grok_mcp.Store.Sorted.{AreDistinct}
use grok_mcp.Store.ListPages.{ReadsBack, listing, list_jobs_page-listing}

abbrev row : String → JobState → ℕ → JobRow
row id st t = record {
  lifecycle = record zero_job { job_id = id; state = st; updated_at = t };
  created_at = second;
  missing_marker_count = 0;
  recover_fails = [];
}

abbrev done : JobRow
done = row "done" JobState.completed (9 * second)

abbrev busy : JobRow
busy = row "busy" JobState.executing (5 * second)

abbrev two_jobs : Store
two_jobs = record {
  readable = true;
  writable = true;
  jobs = done ∷ busy ∷ [];
  notifications = [];
  last_notification = 0;
  events = [];
  work_requests = [];
  turn_results = [];
  project_names = [];
  project_name = λ cwd. cwd;
}

-- The text of a cursor is the name of its job.
abbrev names : CursorText
names = record {
  print = λ k. k.id;
  read = λ s. some (if s == "busy" then key_at busy else key_at done);
  trim = λ s. s;
}

abbrev nothing_like : Patterns
nothing_like = record { go_lower = λ s. s; sql_lower = λ s. s; is_like = λ s t. false }

abbrev one_job : ListQuery
one_job = record {
  cursor = "";
  limit = 1;
  include_archived = false;
  query = "";
  state = "all";
  project = "";
  view = "";
}

-- The active job comes first, though the other one has changed later.
abbrev first_page : JobPage
first_page = record { records = scan_job two_jobs busy ∷ []; next_cursor = "busy"; has_more = true }

first_page_is : list_jobs_page names nothing_like one_job two_jobs ≡ some first_page
unfolding list_jobs_page page_of_rows ordered place is_ahead is_listed in_state in_view in_project
    is_found encode_job_cursor clamp_job_limit scan_job
first_page_is = refl

two_names : AreDistinct two_jobs.jobs
two_names = ((ne_of "done" "busy" refl, tt), (tt, tt))

read_back : All (λ r. ReadsBack names (key_at r)) two_jobs.jobs
read_back = (
  record { trimmed = refl; filled = ne_of "done" "" refl; same = refl },
  (record { trimmed = refl; filled = ne_of "busy" "" refl; same = refl }, tt),
)

list_jobs_page-listing_example :
    listing names nothing_like one_job two_jobs
    ≡ first_page.records ++ listing names nothing_like (record one_job { cursor = "busy" }) two_jobs
list_jobs_page-listing_example =
    list_jobs_page-listing names nothing_like one_job two_jobs first_page two_names read_back
      first_page_is

is_past-compare_jobs_example :
    is_past (cursor_at (scan_job two_jobs busy).job) done
    ≡ is_less (compare_jobs (scan_job two_jobs busy).job (scan_job two_jobs done).job)
is_past-compare_jobs_example = is_past-compare_jobs two_jobs busy done
