-- ===== src/Protocol/Group.antt =====
-- internal/protocol/group.go: the order of the list of jobs, and the cursors of its pages. The
-- seconds of a time count from Go's zero time, where Unix seconds count from 1970.
use grok_mcp.Prelude.{
  ℕ, ◌/◌, String, Bool, true, false, List, [], ◌∷◌, Option, some, ◌==◌, ℕ_eq, String_eq,
  if◌then◌else◌, ltb, codes,
}
use Prim.Native.Nat.{compare, Ordering, lt, eq, gt}
use grok_mcp.Protocol.State.{
  JobState, starting, planning, executing, recovering, plan_ready, disconnected, cancelled, failed,
}
use grok_mcp.Protocol.Job.{Job, second}

abbrev pub default_job_limit : ℕ
default_job_limit = 40

abbrev pub max_job_limit : ℕ
max_job_limit = 100

-- `DashboardActive`
abbrev pub dashboard_active : JobState → Bool
dashboard_active starting = true
dashboard_active planning = true
dashboard_active executing = true
dashboard_active recovering = true
dashboard_active plan_ready = true
dashboard_active JobState.needs_input = true
dashboard_active disconnected = true
dashboard_active _ = false

-- `DashboardHistory`
abbrev pub dashboard_history : JobState → Bool
dashboard_history JobState.completed = true
dashboard_history cancelled = true
dashboard_history failed = true
dashboard_history JobState.blocked = true
dashboard_history _ = false

-- `ActiveGroup`
abbrev pub active_group : JobState → ℕ
active_group st = if dashboard_active st then 1 else 0

-- `cmp.Compare` on strings, by their code points, which UTF-8 keeps in order.
abbrev pub compare_codes : List ℕ → List ℕ → Ordering
compare_codes [] [] = eq
compare_codes [] (d ∷ ds) = lt
compare_codes (c ∷ cs) [] = gt
compare_codes (c ∷ cs) (d ∷ ds) =
    let rest = compare_codes cs ds in elim (compare c d) [ lt ↦ lt | eq ↦ rest | gt ↦ gt ]

-- Go's `if c := …; c != 0 { return c }`, before what comes next.
abbrev pub or_next : Ordering → Ordering → Ordering
or_next lt next = lt
or_next eq next = next
or_next gt next = gt

-- `CompareJobs`: `lt` is a negative number, `gt` a positive one.
unfoldable pub compare_jobs : Job → Job → Ordering
compare_jobs a b = or_next (compare (active_group b.state) (active_group a.state)) (
    or_next (compare (b.updated_at / second) (a.updated_at / second)) (
      or_next (compare (b.created_at / second) (a.created_at / second))
        (compare_codes (codes b.job_id) (codes a.job_id))))

-- Its numbers are natural: a client's cursor whose group or times are negative is not in the model.
pub record JobCursor : Type 0 where
  pub group : ℕ
  pub updated : ℕ
  pub created : ℕ
  pub id : String

abbrev pub zero_cursor : JobCursor
zero_cursor = record { group = 0; updated = 0; created = 0; id = "" }

abbrev pub cursor_at : Job → JobCursor
cursor_at j = record {
  group = active_group j.state;
  updated = j.updated_at / second;
  created = j.created_at / second;
  id = j.job_id;
}

-- The packages that a cursor's text goes through: encoding/json with encoding/base64, and
-- strings.TrimSpace.
pub record CursorText : Type 0 where
  pub print : JobCursor → String
  pub read : String → Option JobCursor
  pub trim : String → String

-- `EncodeJobCursor`
unfoldable pub encode_job_cursor : CursorText → Job → String
encode_job_cursor text j = text.print (cursor_at j)

-- `DecodeJobCursor`
unfoldable pub decode_job_cursor : CursorText → String → Option JobCursor
decode_job_cursor text s = if text.trim s == "" then some zero_cursor else text.read (text.trim s)

-- `ClampJobLimit`; a limit that is not positive is 0 here.
unfoldable pub clamp_job_limit : ℕ → ℕ
clamp_job_limit n =
    if n == 0 then default_job_limit else if ltb max_job_limit n then max_job_limit else n
