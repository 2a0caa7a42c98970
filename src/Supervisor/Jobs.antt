-- ===== src/Supervisor/Jobs.antt =====
-- internal/supervisor/jobs.go: the list of jobs, archiving and deleting. A procedure that gives up
-- its lock, or waits, is several functions.
use grok_mcp.Prelude.{
  ℕ, String, Bool, true, false, ◌||◌, List, [], ◌∷◌, map, Option, none, some, ◌==◌, ℕ_eq, String_eq,
  if◌then◌else◌,
}
use grok_mcp.Protocol.State.{ViewMode, headed, attaching, detaching, ViewMode_eq}
use grok_mcp.Protocol.Job.{Job, is_zero}
use grok_mcp.Protocol.Group.{CursorText, dashboard_active}
use grok_mcp.Store.Tables.{Record, get_job}
use grok_mcp.Store.Queries.{delete_job}
use grok_mcp.Store.Listing.{ListQuery, Patterns, list_jobs_page}
use grok_mcp.Supervisor.State.{
  Runtime, Service, job_deleted, Err, not_found, archive_active, delete_active, Result, ok, err,
}
use grok_mcp.Supervisor.Records.{load, ensure_runtime, touch, save, snapshot, decorate}

-- `protocol.JobPage`
pub record ShownPage : Type 0 where
  pub jobs : List Job
  pub next_cursor : String
  pub has_more : Bool

abbrev pub job_of : Record → Job
job_of rec = rec.job

-- `ListJobsPage`
unfoldable pub list_page : CursorText → Patterns → ℕ → ListQuery → Service → Option ShownPage
unfolding list_jobs_page
list_page text patterns now q s = elim (list_jobs_page text patterns q s.store) [
  | none ↦ none
  | some page ↦ some (record {
    jobs = map (λ rec. decorate now s (job_of rec)) page.records;
    next_cursor = page.next_cursor;
    has_more = page.has_more;
  })
]

-- `ArchiveJob`; whether the job was saved is not looked at.
unfoldable pub archive_job : ℕ → String → Service → Service × Result Job
archive_job now id s₀ =
    let s = ensure_runtime id s₀ in
    elim (load s id) [
      | none ↦ (s, err not_found)
      | some job ↦
          if dashboard_active job.state
          then (s, err archive_active)
          else if is_zero job.archived_at
          then (let t = (save now (touch now s (record job { archived_at = now })) s).0 in
              (t, ok (snapshot now t id)))
          else (s, ok (snapshot now s id))
    ]

-- `UnarchiveJob`
unfoldable pub unarchive_job : ℕ → String → Service → Service × Result Job
unarchive_job now id s₀ =
    let s = ensure_runtime id s₀ in
    elim (load s id) [
      | none ↦ (s, err not_found)
      | some job ↦
          if is_zero job.archived_at
          then (s, ok (snapshot now s id))
          else (let t = (save now (touch now s (record job { archived_at = 0 })) s).0 in
              (t, ok (snapshot now t id)))
    ]

-- What `DeleteJob` does after its look at the job: only clean up after one that is gone, fail, or
-- delete, after closing the window if there is one.
pub data Deletion : Type 0 where
  cleans_up : Deletion
  fails_with : Err → Deletion
  deletes : Bool → Deletion

abbrev pub has_window : ViewMode → Bool
has_window v = v == headed || v == attaching || v == detaching

-- `DeleteJob`, up to `detach`.
unfoldable pub delete_begin : String → Service → Deletion
delete_begin id s = elim (get_job s.store id) [
  | none ↦ if s.store.readable then cleans_up else fails_with not_found
  | some rec ↦
      if dashboard_active rec.job.state
      then fails_with delete_active
      else deletes (has_window rec.job.view_mode)
]

abbrev pub without : String → List (String × Runtime) → List (String × Runtime)
without id [] = []
without id ((k, r) ∷ rs) = if k == id then without id rs else (k, r) ∷ without id rs

-- `dropRuntime`; the pump, the wait and the terminal of the runtime are told to end.
unfoldable pub drop_runtime : String → Service → Service
drop_runtime id s = record s { rt = without id s.rt }

-- `emitDeleted`
unfoldable pub emit_deleted : String → Service → Service
emit_deleted id s = record s { sent = job_deleted id ∷ s.sent }

-- `DeleteJob`, after `detach`: whether the store deleted the job. The traces go after that.
unfoldable pub delete_end : String → Service → Service × Bool
unfolding drop_runtime emit_deleted
delete_end id s = elim (delete_job id s.store) [
  | none ↦ (s, false)
  | some t ↦ (drop_runtime id (emit_deleted id (record s { store = t })), true)
]
