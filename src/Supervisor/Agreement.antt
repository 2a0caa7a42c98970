-- ===== src/Supervisor/Agreement.antt =====
-- The fields of a job that the supervisor reads back after a write.
use grok_mcp.Prelude.{
  ℕ, String, Bool, true, false, Option, none, some, String_eq, if◌then◌else◌, ◌≡◌, refl, ap, ◌∙◌,
}
use grok_mcp.Protocol.Job.{Job}
use grok_mcp.Store.Tables.{Store, Record, JobRow, get_job, find_row, scan_job}
use grok_mcp.Store.Put.{with_phase, notify, is_news, old_job}
use grok_mcp.Store.Lookup.{written}

pub some_injective : {A : Type 0} {a b : A} → some a ≡ some b → a ≡ b
some_injective {a} h = ap (λ o. elim o [ none ↦ a | some x ↦ x ]) h

-- Fields of a job that the control flow of the supervisor reads and that a write keeps. Not all of
-- those it reads: a write may fill in `request_phase`, and reading `desired_view_mode`.
pub record Agrees (a b : Job) : Type 0 where
  pub state : a.state ≡ b.state
  pub request_id : a.request_id ≡ b.request_id
  pub approval_id : a.approval_id ≡ b.approval_id
  pub approval_connection_id : a.approval_connection_id ≡ b.approval_connection_id
  pub approval_delivery : a.approval_delivery ≡ b.approval_delivery
  pub approved : a.approved ≡ b.approved
  pub pause_reason : a.pause_reason ≡ b.pause_reason
  pub plan_version : a.plan_version ≡ b.plan_version
  pub plan_turn_id : a.plan_turn_id ≡ b.plan_turn_id
  pub plan_summary : a.plan_summary ≡ b.plan_summary
  pub result_turn_id : a.result_turn_id ≡ b.result_turn_id
  pub grok_session_id : a.grok_session_id ≡ b.grok_session_id
  pub view_mode : a.view_mode ≡ b.view_mode
  pub input_owner : a.input_owner ≡ b.input_owner
  pub user_cancelled : a.user_cancelled ≡ b.user_cancelled
  pub last_action : a.last_action ≡ b.last_action
  pub last_summary : a.last_summary ≡ b.last_summary

pub Agrees-refl : (j : Job) → Agrees j j
Agrees-refl j = record {
  state = refl;
  request_id = refl;
  approval_id = refl;
  approval_connection_id = refl;
  approval_delivery = refl;
  approved = refl;
  pause_reason = refl;
  plan_version = refl;
  plan_turn_id = refl;
  plan_summary = refl;
  result_turn_id = refl;
  grok_session_id = refl;
  view_mode = refl;
  input_owner = refl;
  user_cancelled = refl;
  last_action = refl;
  last_summary = refl;
}

-- Fields that a write changes do not matter.
Agrees-rewritten :
    (phase : String) (n : ℕ) (j : Job)
    → Agrees (record j { request_phase = phase; event_cursor = n }) j
Agrees-rewritten phase n j = record {
  state = refl;
  request_id = refl;
  approval_id = refl;
  approval_connection_id = refl;
  approval_delivery = refl;
  approved = refl;
  pause_reason = refl;
  plan_version = refl;
  plan_turn_id = refl;
  plan_summary = refl;
  result_turn_id = refl;
  grok_session_id = refl;
  view_mode = refl;
  input_owner = refl;
  user_cancelled = refl;
  last_action = refl;
  last_summary = refl;
}

Agrees-if :
    (b : Bool) (s t : Store) (i j : Job) {k : Job}
    → Agrees i k
    → Agrees j k
    → Agrees (if◌then◌else◌ {A = Store × Job} b (s, i) (t, j)).1 k
Agrees-if true s t i j p q = p
Agrees-if false s t i j p q = q

pub written-Agrees : (rec : Record) (s : Store) → Agrees (written rec s) rec.job
unfolding notify with_phase
written-Agrees rec s =
    Agrees-if (is_news (old_job s rec.job.job_id) (with_phase rec (old_job s rec.job.job_id))) _ _ _
      _ (Agrees-rewritten _ _ rec.job) (Agrees-rewritten _ _ rec.job)

pub get_job-found :
    (id : String) (s : Store) (row : JobRow)
    → s.readable ≡ true
    → find_row id s ≡ some row
    → get_job s id ≡ some (scan_job s row)
unfolding get_job
get_job-found id s row r e = go s.readable (find_row id s) r e
  where
    go :
        (b : Bool) (o : Option JobRow)
        → b ≡ true
        → o ≡ some row
        → (if b then elim o [ none ↦ none | some x ↦ some (scan_job s x) ] else none)
          ≡ some (scan_job s row)
    go true o h k = rw k
    go false o h k = cc

pub scan-Agrees : (s : Store) (row : JobRow) → Agrees (scan_job s row).job row.lifecycle
unfolding scan_job
scan-Agrees s row = record {
  state = refl;
  request_id = refl;
  approval_id = refl;
  approval_connection_id = refl;
  approval_delivery = refl;
  approved = refl;
  pause_reason = refl;
  plan_version = refl;
  plan_turn_id = refl;
  plan_summary = refl;
  result_turn_id = refl;
  grok_session_id = refl;
  view_mode = refl;
  input_owner = refl;
  user_cancelled = refl;
  last_action = refl;
  last_summary = refl;
}

pub Agrees-trans : {a b c : Job} → Agrees a b → Agrees b c → Agrees a c
Agrees-trans p q = record {
  state = p.state ∙ q.state;
  request_id = p.request_id ∙ q.request_id;
  approval_id = p.approval_id ∙ q.approval_id;
  approval_connection_id = p.approval_connection_id ∙ q.approval_connection_id;
  approval_delivery = p.approval_delivery ∙ q.approval_delivery;
  approved = p.approved ∙ q.approved;
  pause_reason = p.pause_reason ∙ q.pause_reason;
  plan_version = p.plan_version ∙ q.plan_version;
  plan_turn_id = p.plan_turn_id ∙ q.plan_turn_id;
  plan_summary = p.plan_summary ∙ q.plan_summary;
  result_turn_id = p.result_turn_id ∙ q.result_turn_id;
  grok_session_id = p.grok_session_id ∙ q.grok_session_id;
  view_mode = p.view_mode ∙ q.view_mode;
  input_owner = p.input_owner ∙ q.input_owner;
  user_cancelled = p.user_cancelled ∙ q.user_cancelled;
  last_action = p.last_action ∙ q.last_action;
  last_summary = p.last_summary ∙ q.last_summary;
}
