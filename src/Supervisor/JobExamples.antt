-- ===== src/Supervisor/JobExamples.antt =====
-- Tests: a job is deleted.
use grok_mcp.Prelude.{none, some, true, false, ◌≡◌, refl}
use grok_mcp.Protocol.State.{JobState}
use grok_mcp.Protocol.Group.{dashboard_active}
use grok_mcp.Store.Tables.{
  Record, get_job, find_row, scan_job, desired_view, shown_project, lookup_project,
}
use grok_mcp.Store.Queries.{delete_job}
use grok_mcp.Supervisor.State.{Service, find_runtime}
use grok_mcp.Supervisor.Samples.{service_of, fresh_job}
use grok_mcp.Supervisor.Jobs.{deletes, delete_begin, drop_runtime, emit_deleted, delete_end}
use grok_mcp.Supervisor.Deleted.{delete_end-others}

abbrev ended_service : Service
ended_service = service_of (record fresh_job { state = JobState.completed })

abbrev deleted_service : Service
deleted_service = (delete_end "j1" ended_service).0

may_be_deleted : delete_begin "j1" ended_service ≡ deletes false
unfolding delete_begin get_job find_row scan_job desired_view shown_project lookup_project
may_be_deleted = refl

is_deleted : delete_end "j1" ended_service ≡ (deleted_service, true)
unfolding delete_end delete_job drop_runtime emit_deleted
is_deleted = refl

delete_end-others_example :
    ((rec : Record) × (get_job ended_service.store "j1" ≡ some rec)
      × (dashboard_active rec.job.state ≡ false))
    × (find_row "j1" deleted_service.store ≡ none)
    × (find_runtime "j1" deleted_service.rt ≡ none)
delete_end-others_example =
    delete_end-others "j1" "j1" ended_service ended_service deleted_service false may_be_deleted
      is_deleted
