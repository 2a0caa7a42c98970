-- ===== src/Supervisor/Examples.antt =====
-- Tests: the theorems at concrete runs.
use grok_mcp.Prelude.{
  ℕ, ◌*◌, ◌≤◌, true, false, List, [], ◌∷◌, map, All, none, some, ◌≡◌, ◌⊎◌, refl, String_eq,
}
use grok_mcp.Protocol.State.{PlanDecision, PlanDecision_eq}
use grok_mcp.Protocol.Job.{Job, second}
use grok_mcp.Supervisor.State.{Queued, Service, err, not_waiting, runtime}
use grok_mcp.Supervisor.Records.{load, ensure_runtime}
use grok_mcp.Supervisor.Fifo.{enqueue, current_gen}
use grok_mcp.Supervisor.Cancel.{stopping}
use grok_mcp.Supervisor.Plan.{job_for_session, plan_decide}
use grok_mcp.Supervisor.Recover.{mark_awaiting_resume, disconnect_locked}
use grok_mcp.Supervisor.View.{commit_headed, fail_headless, save_requested_view}
use grok_mcp.Supervisor.Pump.{deliver, finish_item}
use grok_mcp.Agent.State.{new_grok}
use grok_mcp.Agent.Permissions.{await_begin, is_stale_origin, asked_request, pending_approval}
use grok_mcp.Agent.Connection.{connect_acp, prompt_begin}
use grok_mcp.Agent.Runs.{Operation, names_connection, prompts, asks, perform, run}
use grok_mcp.Supervisor.Delivery.{IsTold, plan_decide-IsTold}
use grok_mcp.Supervisor.Samples.{
  same_text, asked_plan, asked_service, doubtful_service, fresh_job, request_item, quiet_service,
  accepted_service, running_service, running_item, decision, pending_plan, queued_service,
  cancelled_service, planned_service, sent_decision, decided_service, loaded, answer, done_block,
  completed_service, unused_service, no_session, stuck_service, lone_service, hidden_service,
  terminal, stored_record,
}
use grok_mcp.Supervisor.Approvals.{
  Registered, InDoubt, on_approval-Registered, undelivered_is_InDoubt,
}
use grok_mcp.Supervisor.Turn.{accepts_turn_control}
use grok_mcp.Supervisor.Cancellation.{Cancels, cancel_request-Cancels}
use grok_mcp.Supervisor.Exclusion.{begins, accepts, here, then_, turns_of, turns_never_overlap}
use grok_mcp.Supervisor.Starting.{MayStart, Took, pump_begin-started}
use grok_mcp.Supervisor.Staleness.{cancelled_turn_is_stale, cancel_keeps_queue}
use grok_mcp.Supervisor.Decided.{Accepted, plan_decide-Accepted, decided_once}
use grok_mcp.Supervisor.Agreement.{Agrees}
use grok_mcp.Supervisor.Outcomes.{Completes, completed_is_reported}
use grok_mcp.Supervisor.AcceptedWork.{enqueue-Agrees}
use grok_mcp.Supervisor.Accepting.{Enqueued, enqueue-Enqueued}
use grok_mcp.Supervisor.Restart.{AtRest, restart_parks, disconnected_turn_is_stale}
use grok_mcp.Supervisor.Release.{Unneeded, release_begin-Unneeded}
use grok_mcp.Supervisor.Watched.{unseen, checked, StoodStill, stall_waits_for_limit}
use grok_mcp.Supervisor.ViewEpochs.{Unaffected, hidden_view_stays_hidden}
use grok_mcp.Supervisor.Runs.{
  quiet_world, quiet_world-Exclusive, begun, accepted, cancelled, cancel_asked, current, decided,
  completed, completed_state, running_job, not_cancelled, restarted, unwatched, decided_job,
  quiet_record, hid, released, unflagged, flagged, asked, in_doubt, was_sent,
}

turns_never_overlap_example : turns_of "j1" (("j1", running_item) ∷ []) ≤ 1
unfolding quiet_world
turns_never_overlap_example =
    turns_never_overlap quiet_world
      (record { service = running_service; running = ("j1", running_item) ∷ [] }) "j1"
      quiet_world-Exclusive
      (then_ (then_ here (accepts 10 "u1" "j1" request_item))
        (begins 20 "t1" "d" "j1" running_service running_item begun))

pump_begin-started_example :
    MayStart (ensure_runtime "j1" accepted_service) "j1"
    × Took "t1" (runtime accepted_service "j1") (runtime running_service "j1") running_item
pump_begin-started_example =
    pump_begin-started 20 "t1" "d" "j1" accepted_service running_service running_item begun

cancelled_turn_is_stale_example :
    finish_item 40 "u3" "j1" running_item (deliver answer none) cancelled_service
    ≡ cancelled_service
cancelled_turn_is_stale_example =
    cancelled_turn_is_stale 30 40 "j1" "t1" "u3" queued_service cancelled_service 1 true
      running_item (deliver answer none) cancelled current refl

decided_once_example :
    (plan_decide 20 (record decision { decide = PlanDecision.cancel }) none decided_service).1
    ≡ err not_waiting
decided_once_example =
    decided_once 10 20 decision (record decision { decide = PlanDecision.cancel })
      (some pending_plan) none planned_service decided_service sent_decision decided refl

plan_decide-Accepted_example : Accepted decision (some pending_plan) planned_service decided_service
plan_decide-Accepted_example =
    plan_decide-Accepted 10 decision (some pending_plan) planned_service decided_service
      sent_decision decided

completed_is_reported_example :
    (load quiet_service "j1" ≡ some (loaded completed_service))
    ⊎ Completes (some done_block) (runtime quiet_service "j1")
completed_is_reported_example =
    completed_is_reported 40 "u4" "j1" running_item answer (some done_block) quiet_service
      (loaded completed_service) completed completed_state

disconnected_turn_is_stale_example :
    ((runtime (disconnect_locked 30 "j1" "lost" queued_service) "j1").queue ≡ [])
    × (finish_item 40 "u3" "j1" running_item
          (deliver answer none)
          (disconnect_locked 30 "j1" "lost" queued_service)
        ≡ disconnect_locked 30 "j1" "lost" queued_service)
disconnected_turn_is_stale_example =
    disconnected_turn_is_stale 30 40 "j1" "lost" "u3" queued_service (loaded queued_service)
      running_item (deliver answer none) running_job not_cancelled current refl

cancel_keeps_queue_example :
    (map (λ (q : Queued). q.request_id) (runtime cancelled_service "j1").queue
      ≡ map (λ (q : Queued). q.request_id) (runtime queued_service "j1").queue)
    × All
        (λ (q : Queued). q.gen ≡ current_gen cancelled_service "j1")
        (runtime cancelled_service "j1").queue
cancel_keeps_queue_example =
    cancel_keeps_queue 30 "j1" "t1" queued_service cancelled_service 1 true cancelled

enqueue-Enqueued_example : Enqueued "u1" "j1" request_item quiet_service accepted_service
enqueue-Enqueued_example =
    enqueue-Enqueued 10 "u1" "j1" request_item quiet_service accepted_service accepted

restart_parks_example :
    (job : Job) × (load (mark_awaiting_resume 10 "j1" quiet_service).0 "j1" ≡ some job)
    × ((job.user_cancelled ≡ true) ⊎ AtRest job)
restart_parks_example =
    restart_parks 10 "j1" quiet_service (mark_awaiting_resume 10 "j1" quiet_service).0 restarted

release_begin-Unneeded_example :
    Unneeded (40 * second) false no_session unused_service
    × (record unused_service { idle_done = true } ≡ record unused_service { idle_done = true })
release_begin-Unneeded_example =
    release_begin-Unneeded (40 * second) false no_session unused_service
      (record unused_service { idle_done = true }) released

abbrev checks : List (ℕ × Service)
checks = (5, ensure_runtime "j1" lone_service) ∷ []

stall_waits_for_limit_example :
    StoodStill (20 * second) "j1" checks (ensure_runtime "j1" stuck_service)
stall_waits_for_limit_example =
    stall_waits_for_limit (20 * second) "j1" checks stuck_service
      (checked 5 (unseen lone_service unwatched)) unflagged flagged

hidden_view_stays_hidden_example :
    (commit_headed 20 fresh_job terminal 0 hidden_service ≡ (hidden_service, false))
    × Unaffected hidden_service
        (fail_headless 20 fresh_job 0 true (some "w2") "closed" hidden_service)
    × (save_requested_view 20 fresh_job 0 hidden_service ≡ (hidden_service, false))
hidden_view_stays_hidden_example =
    hidden_view_stays_hidden 10 20 "j1" quiet_service hidden_service 1 0 fresh_job terminal true
      (some "w2") "closed" hid refl

enqueue-Agrees_example :
    (after : Job) × (load (enqueue 10 "u1" "j1" request_item quiet_service).0 "j1" ≡ some after)
    × Agrees after stored_record.job
enqueue-Agrees_example =
    enqueue-Agrees 10 "u1" "j1" request_item quiet_service stored_record refl quiet_record

on_approval-Registered_example :
    Registered asked_plan "" (job_for_session running_service "g1") running_service asked_service
on_approval-Registered_example =
    on_approval-Registered same_text same_text 30 asked_plan "" running_service asked_service asked

undelivered_is_InDoubt_example : InDoubt "j1" doubtful_service
undelivered_is_InDoubt_example =
    undelivered_is_InDoubt 20 decision decided_service doubtful_service (loaded decided_service)
      decided_job was_sent in_doubt

cancel_request-Cancels_example :
    (job : Job) × (load queued_service "j1" ≡ some job)
    × (accepts_turn_control job ≡ true)
    × Cancels "r1" "t1"
        (runtime queued_service "j1")
        (runtime cancelled_service "j1")
        (stopping 1 true)
cancel_request-Cancels_example =
    cancel_request-Cancels 30 "j1" "r1" "t1" queued_service cancelled_service (stopping 1 true)
      cancel_asked

abbrev client_run : List Operation
client_run =
    names_connection "c1"
    ∷ prompts "g1" "t0" "r1"
    ∷ asks (record { connection_id = ""; turn_id = ""; request_id = "" }) "g1" "1. do it" false "a1"
        5
    ∷ []

client_asks : pending_approval decision.approval_id (run client_run new_grok) ≡ some pending_plan
unfolding run perform new_grok connect_acp prompt_begin await_begin is_stale_origin asked_request
    pending_approval
client_asks = refl

plan_decide-IsTold_example : IsTold decision (run client_run new_grok)
plan_decide-IsTold_example =
    plan_decide-IsTold client_run 10 decision planned_service decided_service sent_decision
      (rw client_asks decided)
