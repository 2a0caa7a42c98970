-- ===== src/Supervisor/Runs.antt =====
-- Runs of the samples, which the tests use.
use grok_mcp.Prelude.{◌*◌, true, false, [], none, some, ◌≡◌, inl, inr, refl, ne_of, String_eq}
use grok_mcp.Protocol.State.{JobState, PlanDecision, approve, headless, executing, PlanDecision_eq}
use grok_mcp.Protocol.Job.{second}
use grok_mcp.Store.Tables.{get_job, find_row, scan_job, desired_view, shown_project, lookup_project}
use grok_mcp.Store.Put.{
  old_job, with_phase, is_news, notify, upsert, accept, mark_state, mark_phase, mark_cancelled,
  mark, mark_result, add_result, write_rows, put_job,
}
use grok_mcp.Store.Queries.{find_request, request_state}
use grok_mcp.Supervisor.State.{ok, find_runtime, put_runtime, runtime, set_runtime}
use grok_mcp.Supervisor.Records.{
  load, ensure_runtime, touch, emit, write, commit, put, save, save_view_locked,
}
use grok_mcp.Supervisor.Fifo.{
  started, pump_begin, enqueue, session_held_by_tui, live_grok, commit_phase, pump_take, pump_stop,
  current_gen,
}
use grok_mcp.Supervisor.Turn.{apply_prompt_result}
use grok_mcp.Supervisor.Cancel.{cancel_begin, cancel_target, cancel_request, stopping}
use grok_mcp.Supervisor.Plan.{
  on_approval, job_for_session, plan_delivered, is_undelivered, plan_decide, decision_error,
}
use grok_mcp.Supervisor.Recover.{mark_awaiting_resume}
use grok_mcp.Supervisor.View.{set_view}
use grok_mcp.Supervisor.Watchdog.{check_job_stall, stall, find_since}
use grok_mcp.Supervisor.Idle.{release_begin}
use grok_mcp.Supervisor.Samples.{
  same_text, asked_plan, asked_service, doubtful_service, fresh_job, request_item, quiet_service,
  accepted_service, running_service, running_item, planned_job, decision, pending_plan,
  queued_service, cancelled_service, planned_service, sent_decision, decided_service, loaded,
  completed_service, sent_record, unused_service, no_session, stuck_service, lone_service,
  hidden_service, stored_record,
}
use grok_mcp.Supervisor.Exclusion.{World, Exclusive}
use grok_mcp.Supervisor.Decisions.{MayDecide}

unfoldable pub quiet_world : World
quiet_world = record { service = quiet_service; running = [] }

pub quiet_world-Exclusive : Exclusive quiet_world
unfolding quiet_world runtime find_runtime
quiet_world-Exclusive = record { one_turn = λ id. refl }

pub begun : pump_begin 20 "t1" "d" "j1" accepted_service ≡ (running_service, started running_item)
unfolding get_job find_row scan_job desired_view shown_project lookup_project old_job with_phase
    is_news notify upsert accept mark_state mark_phase mark_cancelled mark mark_result add_result
    write_rows put_job find_request request_state find_runtime put_runtime runtime set_runtime load
    ensure_runtime touch emit write put commit save save_view_locked session_held_by_tui live_grok
    current_gen commit_phase enqueue pump_take pump_stop pump_begin cancel_begin plan_decide
    decision_error apply_prompt_result mark_awaiting_resume set_view
begun = refl

pub accepted : enqueue 10 "u1" "j1" request_item quiet_service ≡ (accepted_service, none)
unfolding get_job find_row scan_job desired_view shown_project lookup_project old_job with_phase
    is_news notify upsert accept mark_state mark_phase mark_cancelled mark mark_result add_result
    write_rows put_job find_request request_state find_runtime put_runtime runtime set_runtime load
    ensure_runtime touch emit write put commit save save_view_locked session_held_by_tui live_grok
    current_gen commit_phase enqueue pump_take pump_stop pump_begin cancel_begin plan_decide
    decision_error apply_prompt_result mark_awaiting_resume set_view
accepted = refl

pub cancelled : cancel_begin 30 "j1" "t1" queued_service ≡ (cancelled_service, ok (1, true))
unfolding get_job find_row scan_job desired_view shown_project lookup_project old_job with_phase
    is_news notify upsert accept mark_state mark_phase mark_cancelled mark mark_result add_result
    write_rows put_job find_request request_state find_runtime put_runtime runtime set_runtime load
    ensure_runtime touch emit write put commit save save_view_locked session_held_by_tui live_grok
    current_gen commit_phase enqueue pump_take pump_stop pump_begin cancel_begin plan_decide
    decision_error apply_prompt_result mark_awaiting_resume set_view
cancelled = refl

pub cancel_asked :
    cancel_request 30 "j1" "r1" "t1" queued_service ≡ (cancelled_service, ok (stopping 1 true))
unfolding get_job find_row scan_job desired_view shown_project lookup_project old_job with_phase
    is_news notify upsert accept mark_state mark_phase mark_cancelled mark mark_result add_result
    write_rows put_job find_request request_state find_runtime put_runtime runtime set_runtime load
    ensure_runtime touch emit write put commit save save_view_locked session_held_by_tui live_grok
    current_gen commit_phase enqueue pump_take pump_stop pump_begin cancel_begin cancel_target
    cancel_request
cancel_asked = refl

pub current : running_item.gen ≡ current_gen queued_service "j1"
unfolding get_job find_row scan_job desired_view shown_project lookup_project old_job with_phase
    is_news notify upsert accept mark_state mark_phase mark_cancelled mark mark_result add_result
    write_rows put_job find_request request_state find_runtime put_runtime runtime set_runtime load
    ensure_runtime touch emit write put commit save save_view_locked session_held_by_tui live_grok
    current_gen commit_phase enqueue pump_take pump_stop pump_begin cancel_begin plan_decide
    decision_error apply_prompt_result mark_awaiting_resume set_view
current = refl

pub decided :
    plan_decide 10 decision (some pending_plan) planned_service
    ≡ (decided_service, ok sent_decision)
unfolding get_job find_row scan_job desired_view shown_project lookup_project old_job with_phase
    is_news notify upsert accept mark_state mark_phase mark_cancelled mark mark_result add_result
    write_rows put_job find_request request_state find_runtime put_runtime runtime set_runtime load
    ensure_runtime touch emit write put commit save save_view_locked session_held_by_tui live_grok
    current_gen commit_phase enqueue pump_take pump_stop pump_begin cancel_begin plan_decide
    decision_error apply_prompt_result mark_awaiting_resume set_view
decided = refl

pub completed : load completed_service "j1" ≡ some (loaded completed_service)
unfolding get_job find_row scan_job desired_view shown_project lookup_project old_job with_phase
    is_news notify upsert accept mark_state mark_phase mark_cancelled mark mark_result add_result
    write_rows put_job find_request request_state find_runtime put_runtime runtime set_runtime load
    ensure_runtime touch emit write put commit save save_view_locked session_held_by_tui live_grok
    current_gen commit_phase enqueue pump_take pump_stop pump_begin cancel_begin plan_decide
    decision_error apply_prompt_result mark_awaiting_resume set_view
completed = refl

pub completed_state : (loaded completed_service).state ≡ JobState.completed
unfolding get_job find_row scan_job desired_view shown_project lookup_project old_job with_phase
    is_news notify upsert accept mark_state mark_phase mark_cancelled mark mark_result add_result
    write_rows put_job find_request request_state find_runtime put_runtime runtime set_runtime load
    ensure_runtime touch emit write put commit save save_view_locked session_held_by_tui live_grok
    current_gen commit_phase enqueue pump_take pump_stop pump_begin cancel_begin plan_decide
    decision_error apply_prompt_result mark_awaiting_resume set_view
completed_state = refl

pub running_job : load queued_service "j1" ≡ some (loaded queued_service)
unfolding get_job find_row scan_job desired_view shown_project lookup_project old_job with_phase
    is_news notify upsert accept mark_state mark_phase mark_cancelled mark mark_result add_result
    write_rows put_job find_request request_state find_runtime put_runtime runtime set_runtime load
    ensure_runtime touch emit write put commit save save_view_locked session_held_by_tui live_grok
    current_gen commit_phase enqueue pump_take pump_stop pump_begin cancel_begin plan_decide
    decision_error apply_prompt_result mark_awaiting_resume set_view
running_job = refl

pub not_cancelled : (loaded queued_service).user_cancelled ≡ false
unfolding get_job find_row scan_job desired_view shown_project lookup_project old_job with_phase
    is_news notify upsert accept mark_state mark_phase mark_cancelled mark mark_result add_result
    write_rows put_job find_request request_state find_runtime put_runtime runtime set_runtime load
    ensure_runtime touch emit write put commit save save_view_locked session_held_by_tui live_grok
    current_gen commit_phase enqueue pump_take pump_stop pump_begin cancel_begin plan_decide
    decision_error apply_prompt_result mark_awaiting_resume set_view
not_cancelled = refl

pub saved : (save 10 fresh_job quiet_service).1 ≡ true
unfolding get_job find_row scan_job desired_view shown_project lookup_project old_job with_phase
    is_news notify upsert accept mark_state mark_phase mark_cancelled mark mark_result add_result
    write_rows put_job find_request request_state find_runtime put_runtime runtime set_runtime load
    ensure_runtime touch emit write put commit save save_view_locked session_held_by_tui live_grok
    current_gen commit_phase enqueue pump_take pump_stop pump_begin cancel_begin plan_decide
    decision_error apply_prompt_result mark_awaiting_resume set_view
saved = refl

pub committed :
    commit 10 sent_record quiet_service ≡ ((commit 10 sent_record quiet_service).0, true)
unfolding get_job find_row scan_job desired_view shown_project lookup_project old_job with_phase
    is_news notify upsert accept mark_state mark_phase mark_cancelled mark mark_result add_result
    write_rows put_job find_request request_state find_runtime put_runtime runtime set_runtime load
    ensure_runtime touch emit write put commit save save_view_locked session_held_by_tui live_grok
    current_gen commit_phase enqueue pump_take pump_stop pump_begin cancel_begin plan_decide
    decision_error apply_prompt_result mark_awaiting_resume set_view
committed = refl

pub restarted :
    mark_awaiting_resume 10 "j1" quiet_service
    ≡ ((mark_awaiting_resume 10 "j1" quiet_service).0, none)
unfolding get_job find_row scan_job desired_view shown_project lookup_project old_job with_phase
    is_news notify upsert accept mark_state mark_phase mark_cancelled mark mark_result add_result
    write_rows put_job find_request request_state find_runtime put_runtime runtime set_runtime load
    ensure_runtime touch emit write put commit save save_view_locked session_held_by_tui live_grok
    current_gen commit_phase enqueue pump_take pump_stop pump_begin cancel_begin plan_decide
    decision_error apply_prompt_result mark_awaiting_resume set_view
restarted = refl

pub decided_job : load decided_service "j1" ≡ some (loaded decided_service)
unfolding get_job find_row scan_job desired_view shown_project lookup_project old_job with_phase
    is_news notify upsert accept mark_state mark_phase mark_cancelled mark mark_result add_result
    write_rows put_job find_request request_state find_runtime put_runtime runtime set_runtime load
    ensure_runtime touch emit write put commit save save_view_locked session_held_by_tui live_grok
    current_gen commit_phase enqueue pump_take pump_stop pump_begin cancel_begin plan_decide
    decision_error apply_prompt_result mark_awaiting_resume set_view
decided_job = refl

pub decided_state : (loaded decided_service).state ≡ executing
unfolding get_job find_row scan_job desired_view shown_project lookup_project old_job with_phase
    is_news notify upsert accept mark_state mark_phase mark_cancelled mark mark_result add_result
    write_rows put_job find_request request_state find_runtime put_runtime runtime set_runtime load
    ensure_runtime touch emit write put commit save save_view_locked session_held_by_tui live_grok
    current_gen commit_phase enqueue pump_take pump_stop pump_begin cancel_begin plan_decide
    decision_error apply_prompt_result mark_awaiting_resume set_view
decided_state = refl

pub quiet_job : load quiet_service "j1" ≡ some (loaded quiet_service)
unfolding get_job find_row scan_job desired_view shown_project lookup_project old_job with_phase
    is_news notify upsert accept mark_state mark_phase mark_cancelled mark mark_result add_result
    write_rows put_job find_request request_state find_runtime put_runtime runtime set_runtime load
    ensure_runtime touch emit write put commit save save_view_locked session_held_by_tui live_grok
    current_gen commit_phase enqueue pump_take pump_stop pump_begin cancel_begin plan_decide
    decision_error apply_prompt_result mark_awaiting_resume set_view
quiet_job = refl

pub quiet_record : get_job quiet_service.store "j1" ≡ some stored_record
unfolding get_job find_row scan_job desired_view shown_project lookup_project old_job with_phase
    is_news notify upsert accept mark_state mark_phase mark_cancelled mark mark_result add_result
    write_rows put_job find_request request_state find_runtime put_runtime runtime set_runtime load
    ensure_runtime touch emit write put commit save save_view_locked session_held_by_tui live_grok
    current_gen commit_phase enqueue pump_take pump_stop pump_begin cancel_begin plan_decide
    decision_error apply_prompt_result mark_awaiting_resume set_view
quiet_record = refl

pub hid : set_view 10 "j1" headless quiet_service ≡ (hidden_service, ok 1)
unfolding get_job find_row scan_job desired_view shown_project lookup_project old_job with_phase
    is_news notify upsert accept mark_state mark_phase mark_cancelled mark mark_result add_result
    write_rows put_job find_request request_state find_runtime put_runtime runtime set_runtime load
    ensure_runtime touch emit write put commit save save_view_locked session_held_by_tui live_grok
    current_gen commit_phase enqueue pump_take pump_stop pump_begin cancel_begin plan_decide
    decision_error apply_prompt_result mark_awaiting_resume set_view
hid = refl

pub released :
    release_begin (40 * second) false no_session unused_service
    ≡ (record unused_service { idle_done = true }, true)
unfolding release_begin
released = refl

pub unwatched : (runtime lone_service "j1").stall_since ≡ []
unfolding find_runtime put_runtime runtime set_runtime
unwatched = refl

pub unflagged : (runtime (ensure_runtime "j1" stuck_service) "j1").stalled ≡ false
unfolding get_job find_row scan_job desired_view shown_project lookup_project old_job with_phase
    is_news notify upsert accept mark_state mark_phase mark_cancelled mark mark_result add_result
    write_rows put_job find_request request_state find_runtime put_runtime runtime set_runtime load
    ensure_runtime touch emit write put commit save save_view_locked session_held_by_tui live_grok
    current_gen commit_phase enqueue pump_take pump_stop pump_begin cancel_begin plan_decide
    decision_error apply_prompt_result mark_awaiting_resume set_view check_job_stall stall
    find_since
unflagged = refl

pub flagged : (runtime (check_job_stall (20 * second) "j1" stuck_service) "j1").stalled ≡ true
unfolding get_job find_row scan_job desired_view shown_project lookup_project old_job with_phase
    is_news notify upsert accept mark_state mark_phase mark_cancelled mark mark_result add_result
    write_rows put_job find_request request_state find_runtime put_runtime runtime set_runtime load
    ensure_runtime touch emit write put commit save save_view_locked session_held_by_tui live_grok
    current_gen commit_phase enqueue pump_take pump_stop pump_begin cancel_begin plan_decide
    decision_error apply_prompt_result mark_awaiting_resume set_view check_job_stall stall
    find_since
flagged = refl

pub may_decide : MayDecide decision planned_job pending_plan
may_decide = record {
  waiting = refl;
  unsent = ne_of "pending" "submitted" refl;
  named = ne_of "a1" "" refl;
  approval = refl;
  request = refl;
  turn = refl;
  version = refl;
  known = ne_of approve PlanDecision.unset refl;
  content = inr (ne_of "1. do it" "" refl);
  connection = refl;
  pending_request = refl;
  pending_turn = refl;
  session = refl;
  notes = inl refl;
}

pub asked : on_approval same_text same_text 30 asked_plan "" running_service ≡ (asked_service, none)
unfolding get_job find_row scan_job desired_view shown_project lookup_project old_job with_phase
    is_news notify upsert accept mark_state mark_phase mark_cancelled mark mark_result add_result
    write_rows put_job find_request request_state find_runtime put_runtime runtime set_runtime load
    ensure_runtime touch emit write put commit save save_view_locked session_held_by_tui live_grok
    current_gen commit_phase enqueue pump_take pump_stop pump_begin cancel_begin plan_decide
    decision_error apply_prompt_result mark_awaiting_resume set_view on_approval job_for_session
asked = refl

pub in_doubt : plan_delivered 20 decision false decided_service ≡ (doubtful_service, none)
unfolding get_job find_row scan_job desired_view shown_project lookup_project old_job with_phase
    is_news notify upsert accept mark_state mark_phase mark_cancelled mark mark_result add_result
    write_rows put_job find_request request_state find_runtime put_runtime runtime set_runtime load
    ensure_runtime touch emit write put commit save save_view_locked session_held_by_tui live_grok
    current_gen commit_phase enqueue pump_take pump_stop pump_begin cancel_begin plan_decide
    decision_error apply_prompt_result mark_awaiting_resume set_view plan_delivered
in_doubt = refl

pub was_sent : is_undelivered "a1" false (loaded decided_service) ≡ true
unfolding get_job find_row scan_job desired_view shown_project lookup_project old_job with_phase
    is_news notify upsert accept mark_state mark_phase mark_cancelled mark mark_result add_result
    write_rows put_job find_request request_state find_runtime put_runtime runtime set_runtime load
    ensure_runtime touch emit write put commit save save_view_locked session_held_by_tui live_grok
    current_gen commit_phase enqueue pump_take pump_stop pump_begin cancel_begin plan_decide
    decision_error apply_prompt_result mark_awaiting_resume set_view
was_sent = refl
