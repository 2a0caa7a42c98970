-- ===== src/Supervisor/Delivery.antt =====
-- The supervisor's decision on a plan and the agent's client together: internal/supervisor/plan.go
-- and internal/agent/approval.go.
use grok_mcp.Prelude.{
  ℕ, String, Bool, true, false, ◌||◌, List, some, ◌≡◌, ◌≢◌, refl, sym, subst, ◌==◌, String_eq, inl,
  inr, ◌⊎◌, eq_test, arith,
}
use grok_mcp.Protocol.State.{PlanDecision, approve, revise, cancel}
use grok_mcp.Protocol.Job.{Job, PlanDecideRequest}
use grok_mcp.Agent.Types.{PlanRequest, Decision}
use grok_mcp.Agent.State.{Grok, new_grok}
use grok_mcp.Agent.Permissions.{pending_approval, resolve_approval, is_known_decision}
use grok_mcp.Agent.Waiting.{AreWaiting, IsHeld}
use grok_mcp.Agent.Runs.{Operation, run, run-AreWaiting}
use grok_mcp.Agent.Delivered.{IsDelivered, pending_kept, resolve_approval-IsDelivered}
use grok_mcp.Supervisor.State.{Service, ok}
use grok_mcp.Supervisor.Plan.{plan_decide}
use grok_mcp.Supervisor.Decisions.{MayDecide}
use grok_mcp.Supervisor.Decided.{plan_decide-Accepted}

-- What `PlanDecide` hands to `ResolveApproval`.
abbrev pub told : PlanDecideRequest → PlanRequest → Decision
told req p = record { plan = p; decide = req.decide; notes = req.notes }

-- A decision is told of an approval that waits at a channel, and is delivered there.
pub record IsTold (req : PlanDecideRequest) (g : Grok) : Type 0 where
  pub plan : PlanRequest
  pub channel : ℕ
  pub is_pending : pending_approval req.approval_id g ≡ some plan
  pub waits : g.pending plan.session_id ≡ some channel
  pub delivered : IsDelivered (told req plan) channel (resolve_approval false (told req plan) g)

known : (d : PlanDecision) → d ≢ PlanDecision.unset → is_known_decision d ≡ true
known approve n = refl
known revise n = refl
known cancel n = refl
known PlanDecision.unset n = absurd (n refl)

notes_allowed :
    (notes : String) (supported : Bool)
    → (notes ≡ "") ⊎ (supported ≡ true)
    → (notes == "" || supported) ≡ true
notes_allowed notes supported (inl e) = rw (eq_test notes "" e) refl
notes_allowed notes supported (inr e) = ground (arith, e)

tell :
    (req : PlanDecideRequest) (job : Job) (p : PlanRequest) (g : Grok)
    → AreWaiting g
    → pending_approval req.approval_id g ≡ some p
    → MayDecide req job p
    → IsTold req g
tell req job p g w pending may = record {
  plan = p;
  channel = held.1.0;
  is_pending = pending;
  waits = held.1.1;
  delivered =
      resolve_approval-IsDelivered (told req p) held.1.0 g w
        (subst (λ id. pending_approval id g ≡ some p) (sym held.0) pending) held.1.1
        (notes_allowed req.notes p.supports_notes may.notes) (known req.decide may.known);
}
  where
    held : IsHeld g.pending req.approval_id (some p)
    held =
        subst (IsHeld g.pending req.approval_id) (pending_kept req.approval_id p g pending).0
          (w.held req.approval_id)

-- Whatever the agent's client has done before, a decision that `PlanDecide` accepts on what the
-- client says is pending is delivered, if the client is asked to resolve it before it does anything
-- else: the approval's permission waits at a channel, `ResolveApproval` succeeds, the one that waits
-- gets the choice and the notes, and the approval is gone, so that any later decision on it is
-- rejected as stale.
pub plan_decide-IsTold :
    (ops : List Operation) (now : ℕ) (req : PlanDecideRequest) (s t : Service) (sent : Job)
    → plan_decide now req (pending_approval req.approval_id (run ops new_grok)) s ≡ (t, ok sent)
    → IsTold req (run ops new_grok)
plan_decide-IsTold ops now req s t sent h =
    let a =
      plan_decide-Accepted now req (pending_approval req.approval_id (run ops new_grok)) s t sent
        h in
    tell req a.job a.approval (run ops new_grok) (run-AreWaiting ops) a.is_pending a.allowed
