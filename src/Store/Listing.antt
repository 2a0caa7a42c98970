-- ===== src/Store/Listing.antt =====
-- internal/store/store.go: `ListJobsPage`.
-- The `ORDER BY` of a query puts the rows in the order that it names, and `LIMIT` takes the first.
use grok_mcp.Prelude.{
  ℕ, ◌+◌, ◌/◌, String, Bool, true, false, not, ◌&&◌, ◌||◌, List, [], ◌∷◌, map, Option, none, some,
  ◌==◌, ◌!=◌, ℕ_eq, String_eq, if◌then◌else◌, ltb, keep, length, take, codes, concat,
}
use Prim.Native.Nat.{Ordering, lt}
use grok_mcp.Protocol.State.{
  JobState, ViewMode, plan_ready, planning, executing, starting, recovering, state_text,
  JobState_eq,
}
use grok_mcp.Protocol.Job.{Job, second}
use grok_mcp.Protocol.Group.{
  active_group, compare_codes, JobCursor, CursorText, encode_job_cursor, decode_job_cursor,
  clamp_job_limit,
}
use grok_mcp.Store.Tables.{Store, Record, JobRow, scan_job}

-- `ListJobsQuery`
pub record ListQuery : Type 0 where
  pub cursor : String
  pub limit : ℕ
  pub include_archived : Bool
  pub query : String
  pub state : String
  pub project : String
  pub view : String

-- What the query takes from Go's strings.ToLower and from SQLite: `lower`, and `LIKE`.
pub record Patterns : Type 0 where
  pub go_lower : String → String
  pub sql_lower : String → String
  pub is_like : String → String → Bool

abbrev pub view_text : ViewMode → String
view_text ViewMode.unset = ""
view_text ViewMode.headless = "headless"
view_text ViewMode.attaching = "attaching"
view_text ViewMode.headed = "headed"
view_text ViewMode.detaching = "detaching"

-- Whether a filter with this text is left out.
abbrev pub is_open_filter : String → Bool
is_open_filter s = s == "" || s == "all"

-- Whether `archived_at IS NOT NULL`.
abbrev pub is_archived : JobRow → Bool
is_archived row = row.lifecycle.archived_at != 0

-- The columns that the rows are ordered by, as the cursor of a row would have them.
abbrev pub key_at : JobRow → JobCursor
key_at row = record {
  group = active_group row.lifecycle.state;
  updated = row.lifecycle.updated_at / second;
  created = row.created_at / second;
  id = row.lifecycle.job_id;
}

abbrev pub is_less : Ordering → Bool
is_less lt = true
is_less _ = false

-- `<` on texts.
abbrev pub text_less : String → String → Bool
text_less s t = is_less (compare_codes (codes s) (codes t))

-- The clause of the cursor `cur`, on the columns `k` of a row.
unfoldable pub key_past : JobCursor → JobCursor → Bool
key_past cur k =
    ltb k.group cur.group
    || (k.group == cur.group && ltb k.updated cur.updated)
    || (k.group == cur.group && k.updated == cur.updated && ltb k.created cur.created)
    || (k.group == cur.group
        && k.updated == cur.updated
        && k.created == cur.created
        && text_less k.id cur.id)

abbrev pub is_past : JobCursor → JobRow → Bool
is_past cur row = key_past cur (key_at row)

-- Whether `ORDER BY g DESC, updated_at DESC, created_at DESC, job_id DESC` puts `b` before `a`.
unfoldable pub is_ahead : JobRow → JobRow → Bool
is_ahead b a =
    let k = key_at a in
    let m = key_at b in
    if k.group == m.group
    then if k.updated == m.updated
      then if k.created == m.created then text_less k.id m.id else ltb k.created m.created
      else ltb k.updated m.updated
    else ltb k.group m.group

-- A row put where `ORDER BY` has it among ordered rows, and all rows so ordered.
unfoldable pub place : JobRow → List JobRow → List JobRow
unfolding is_ahead
place row [] = row ∷ []
place row (r ∷ rows) = if is_ahead r row then r ∷ place row rows else row ∷ r ∷ rows

unfoldable pub ordered : List JobRow → List JobRow
unfolding place
ordered [] = []
ordered (r ∷ rows) = place r (ordered rows)

pub record JobPage : Type 0 where
  pub records : List Record
  pub next_cursor : String
  pub has_more : Bool

abbrev pub last_job : Record → List Record → Job
last_job r [] = r.job
last_job r (x ∷ xs) = last_job x xs

-- The cursor of a page: that of its last job, if there are more.
abbrev pub next_of : CursorText → Bool → List Record → String
next_of text false recs = ""
next_of text true [] = ""
next_of text true (r ∷ recs) = encode_job_cursor text (last_job r recs)

module _ (text : CursorText) where
  -- The rows of the query, and the page that is made of them.
  unfoldable pub page_of_rows : ℕ → (JobRow → Bool) → Store → JobPage
  unfolding ordered
  page_of_rows limit wanted s =
      let rows = map (scan_job s) (take (limit + 1) (ordered (keep wanted s.jobs))) in
      let more = ltb limit (length rows) in
      let out = if more then take limit rows else rows in
      record { records = out; next_cursor = next_of text more out; has_more = more }

module _ (text : CursorText) (patterns : Patterns) where
  unfoldable pub in_state : String → JobRow → Bool
  in_state wanted row =
      let st = text.trim wanted in
      if is_open_filter st
      then true
      else if st == "attention"
      then row.lifecycle.state == plan_ready || row.lifecycle.state == JobState.needs_input
      else if st == "working"
      then row.lifecycle.state == planning
        || row.lifecycle.state == executing
        || row.lifecycle.state == starting
        || row.lifecycle.state == recovering
      else state_text row.lifecycle.state == st

  unfoldable pub in_view : String → JobRow → Bool
  in_view wanted row =
      is_open_filter (text.trim wanted) || view_text row.lifecycle.view_mode == text.trim wanted

  unfoldable pub in_project : String → JobRow → Bool
  in_project wanted row =
      is_open_filter (text.trim wanted) || row.lifecycle.project_id == text.trim wanted

  unfoldable pub is_found : String → JobRow → Bool
  is_found wanted row =
      let q = text.trim wanted in
      let pattern = concat "%" (concat (patterns.go_lower q) "%") in
      let found = λ (s : String). patterns.is_like (patterns.sql_lower s) pattern in
      q == ""
      || found row.lifecycle.title
      || found row.lifecycle.last_action
      || found row.lifecycle.grok_session_id
      || found row.lifecycle.cwd

  -- The `WHERE` clause without the cursor.
  unfoldable pub is_listed : ListQuery → JobRow → Bool
  unfolding in_state in_view in_project is_found
  is_listed q row =
      (if q.include_archived then is_archived row else not (is_archived row))
      && in_state q.state row
      && in_view q.view row
      && in_project q.project row
      && is_found q.query row

  -- `ListJobsPage`; `none` is an error.
  unfoldable pub list_jobs_page : ListQuery → Store → Option JobPage
  unfolding is_listed key_past page_of_rows
  list_jobs_page q s =
      if s.readable
      then if text.trim q.cursor == ""
        then some (page_of_rows text (clamp_job_limit q.limit) (is_listed q) s)
        else elim (decode_job_cursor text q.cursor) [
          | none ↦ none
          | some cur ↦ some (
              page_of_rows text (clamp_job_limit q.limit)
                (λ row. is_listed q row && is_past cur row) s)
        ]
      else none
