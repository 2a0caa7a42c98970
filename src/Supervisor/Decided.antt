-- ===== src/Supervisor/Decided.antt =====
-- internal/supervisor/plan.go: a decision that was accepted is durable, and is the only one.
use grok_mcp.Prelude.{
  ℕ, Bool, true, false, ◌||◌, Option, none, some, ◌!=◌, ℕ_eq, String_eq, if◌then◌else◌, ◌≡◌, ◌≢◌,
  refl, ap, sym, ◌∙◌, arith, inl, inr, eq_test,
}
use grok_mcp.Protocol.State.{
  PlanDecision, approve, revise, cancel, plan_ready, executing, planning, cancelled, JobState_eq,
  PlanDecision_eq,
}
use grok_mcp.Protocol.Job.{Job, PlanDecideRequest}
use grok_mcp.Store.Tables.{get_job}
use grok_mcp.Supervisor.State.{
  Service, set_runtime, Err, Result, ok, err, closed, not_waiting, not_found, persistence,
}
use grok_mcp.Supervisor.Records.{load, touch, save, ensure_runtime}
use grok_mcp.Supervisor.Plan.{PlanRequest, decision_error, plan_decide, submitted, is_not_waiting}
use grok_mcp.Supervisor.Agreement.{Agrees, Agrees-trans}
use grok_mcp.Supervisor.Durable.{load-save, load-ensure, save-SameRuntimes}
use grok_mcp.Supervisor.Loaded.{load-job_id, touch-job_id, touch-Agrees, ensure-closed}
use grok_mcp.Supervisor.Decisions.{MayDecide, decision_error-none}

plan_decide_cases :
    (req : PlanDecideRequest) (pending : Option PlanRequest) (c : Bool) (o : Option Job)
    (s₀ s t : Service) (sent : Job) (f : Job → Service × Bool) (g : Job → Job)
    → (if c then (s₀, err closed) else elim o as (λ _. Service × Result Job) [
      | none ↦ (s, err not_found)
      | some job ↦ elim (decision_error req job pending) as (λ _. Service × Result Job) [
        | some e ↦ (s, err e)
        | none ↦ let (u, saved) = f job in if saved then (u, ok (g job)) else (u, err persistence)
      ]
    ])
      ≡ (t, ok sent)
    → (c ≡ false)
      × (job : Job) × (o ≡ some job)
      × (decision_error req job pending ≡ none)
      × (f job ≡ (t, true))
plan_decide_cases req pending true o s₀ s t sent f g h = ground arith
plan_decide_cases req pending false none s₀ s t sent f g h = ground arith
plan_decide_cases req pending false (some job) s₀ s t sent f g h =
    go (decision_error req job pending) refl h
  where
    saves :
        (r : Service × Bool)
        → if◌then◌else◌ {A = Service × Result Job} r.1 (r.0, ok (g job)) (r.0, err persistence)
          ≡ (t, ok sent)
        → r ≡ (t, true)
    saves (u, true) k =
        let after : Service × Result Job → Service × Bool = λ x. (x.0, true) in ap after k
    saves (u, false) k = ground arith

    go :
        (e : Option Err)
        → decision_error req job pending ≡ e
        → elim e as (λ _. Service × Result Job) [
          | some x ↦ (s, err x)
          | none ↦ let (u, saved) = f job in if saved then (u, ok (g job)) else (u, err persistence)
        ]
          ≡ (t, ok sent)
        → (false ≡ false)
          × (j : Job) × (some job ≡ some j)
          × (decision_error req j pending ≡ none)
          × (f j ≡ (t, true))
    go none e k = (refl, job, refl, e, saves (f job) k)
    go (some x) e k = ground arith

-- The stored job is as the decision has it.
abbrev pub IsDecided : PlanDecision → Job → Type 0
IsDecided approve j = (j.state ≡ executing) × (j.approved ≡ true)
IsDecided revise j = (j.state ≡ planning) × (j.approved ≡ false)
IsDecided cancel j = (j.state ≡ cancelled) × (j.user_cancelled ≡ true)
IsDecided PlanDecision.unset j = ⊥

-- A decision that was accepted, from the job that was loaded to the one that is stored.
pub record Accepted (req : PlanDecideRequest) (pending : Option PlanRequest) (s t : Service)
    : Type 0 where
  pub open_service : s.closed ≡ false
  pub job : Job
  pub found : load s req.job_id ≡ some job
  pub approval : PlanRequest
  pub is_pending : pending ≡ some approval
  pub allowed : MayDecide req job approval
  pub stored : Job
  pub reads_back : load t req.job_id ≡ some stored
  pub recorded : Agrees stored (submitted req.decide job)
  pub marked : stored.approval_delivery ≡ "submitted"
  pub paused : stored.pause_reason ≡ "approval_delivery"
  pub as_decided : IsDecided req.decide stored
  pub same_plan : stored.plan_summary ≡ job.plan_summary
  pub same_approval : stored.approval_id ≡ job.approval_id
  pub still_open : t.closed ≡ false

decided-job_id : (d : PlanDecision) (j : Job) → (submitted d j).job_id ≡ j.job_id
decided-job_id approve j = refl
decided-job_id revise j = refl
decided-job_id cancel j = refl
decided-job_id PlanDecision.unset j = refl

-- What `submitted` makes of each decision.
record Submitted (d : PlanDecision) (job stored : Job) : Type 0 where
  marked : stored.approval_delivery ≡ "submitted"
  paused : stored.pause_reason ≡ "approval_delivery"
  as_decided : IsDecided d stored
  same_plan : stored.plan_summary ≡ job.plan_summary
  same_approval : stored.approval_id ≡ job.approval_id

of_decision :
    (d : PlanDecision) (job stored : Job)
    → d ≢ PlanDecision.unset
    → Agrees stored (submitted d job)
    → Submitted d job stored
of_decision approve job stored n a = record {
  marked = a.approval_delivery;
  paused = a.pause_reason;
  as_decided = (a.state, a.approved);
  same_plan = a.plan_summary;
  same_approval = a.approval_id;
}
of_decision revise job stored n a = record {
  marked = a.approval_delivery;
  paused = a.pause_reason;
  as_decided = (a.state, a.approved);
  same_plan = a.plan_summary;
  same_approval = a.approval_id;
}
of_decision cancel job stored n a = record {
  marked = a.approval_delivery;
  paused = a.pause_reason;
  as_decided = (a.state, a.user_cancelled);
  same_plan = a.plan_summary;
  same_approval = a.approval_id;
}
of_decision PlanDecision.unset job stored n a = absurd (n refl)

-- A decision is accepted only if the service is open and the decision answers the approval that
-- is pending. Then, before the agent is told, the stored job has the decision marked as sent and
-- the job paused for its delivery, of the same approval and the same plan: an approval makes it
-- execute and approved, a revision makes it plan again and not approved, and a cancellation makes
-- it cancelled by the user.
pub plan_decide-Accepted :
    (now : ℕ) (req : PlanDecideRequest) (pending : Option PlanRequest) (s t : Service) (sent : Job)
    → plan_decide now req pending s ≡ (t, ok sent)
    → Accepted req pending s t
unfolding plan_decide
plan_decide-Accepted now req pending s₀ t sent h =
    let s = ensure_runtime req.job_id s₀ in
    let g = λ (job : Job). touch now s (submitted req.decide job) in
    let f = λ (job : Job). save now (g job) s in
    let (c, job, l, d, e) =
      plan_decide_cases req pending s₀.closed (load s req.job_id) s₀ s t sent f g h in
    let (p, pe, m) = decision_error-none req job pending d in
    let found : load s₀ req.job_id ≡ some job = sym (load-ensure req.job_id req.job_id s₀) ∙ l in
    let (stored, r, a) = load-save now (g job) s (ap (λ (x : Service × Bool). x.1) e) in
    let same_id : (g job).job_id ≡ req.job_id =
      touch-job_id now s (submitted req.decide job)
      ∙ decided-job_id req.decide job
      ∙ load-job_id s₀ req.job_id job found in
    let recorded = Agrees-trans a (touch-Agrees now s (submitted req.decide job)) in
    let mark = of_decision req.decide job stored m.known recorded in
    record {
      open_service = c;
      job = job;
      found = found;
      approval = p;
      is_pending = pe;
      allowed = m;
      stored = stored;
      reads_back =
          ap (λ (x : Service). load x req.job_id) (sym (ap (λ (x : Service × Bool). x.0) e))
          ∙ ap (λ i. load (f job).0 i) (sym same_id)
          ∙ r;
      recorded = recorded;
      marked = mark.marked;
      paused = mark.paused;
      as_decided = mark.as_decided;
      same_plan = mark.same_plan;
      same_approval = mark.same_approval;
      still_open =
          ap (λ (x : Service). x.closed) (sym (ap (λ (x : Service × Bool). x.0) e))
          ∙ (save-SameRuntimes now (g job) s).closed
          ∙ ensure-closed req.job_id s₀
          ∙ c;
    }

submitted-delivery : (d : PlanDecision) (j : Job) → (submitted d j).approval_delivery ≡ "submitted"
submitted-delivery approve j = refl
submitted-delivery revise j = refl
submitted-delivery cancel j = refl
submitted-delivery PlanDecision.unset j = refl

sent_is_answered : (j : Job) → j.approval_delivery ≡ "submitted" → is_not_waiting j ≡ true
sent_is_answered j h = rw (eq_test j.approval_delivery "submitted" h) (go (j.state != plan_ready))
  where
    go : (b : Bool) → (b || true) ≡ true
    go true = refl
    go false = refl

-- In the service that an accepted decision leaves, every further decision for that job is
-- refused, whatever it says and whatever the agent has pending.
pub decided_once :
    (now later : ℕ) (req again : PlanDecideRequest) (pending other : Option PlanRequest)
    (s t : Service) (sent : Job)
    → plan_decide now req pending s ≡ (t, ok sent)
    → again.job_id ≡ req.job_id
    → (plan_decide later again other t).1 ≡ err not_waiting
unfolding plan_decide decision_error load get_job ensure_runtime set_runtime
decided_once now later req again pending other s t sent h same =
    let a = plan_decide-Accepted now req pending s t sent h in
    let l : load (ensure_runtime again.job_id t) again.job_id ≡ some a.stored =
      load-ensure again.job_id again.job_id t ∙ ap (λ i. load t i) same ∙ a.reads_back in
    let w : is_not_waiting a.stored ≡ true =
      sent_is_answered a.stored
        (a.recorded.approval_delivery ∙ submitted-delivery req.decide a.job) in
    rw (a.still_open, l, w) refl

-- If the stored job executes after an accepted decision, then the decision was an approval, the
-- job is approved, and its plan has content.
pub approved_has_content :
    (now : ℕ) (req : PlanDecideRequest) (pending : Option PlanRequest) (s t : Service)
    (sent stored : Job)
    → plan_decide now req pending s ≡ (t, ok sent)
    → load t req.job_id ≡ some stored
    → stored.state ≡ executing
    → (req.decide ≡ approve) × (stored.approved ≡ true) × (stored.plan_summary ≢ "")
approved_has_content now req pending s t sent stored h l e =
    let a = plan_decide-Accepted now req pending s t sent h in go a (some_of (sym l ∙ a.reads_back))
  where
    some_of : {x y : Job} → some x ≡ some y → x ≡ y
    some_of {x} k = ap (λ (o : Option Job). elim o [ none ↦ x | some z ↦ z ]) k

    approves :
        (d : PlanDecision) (j : Job)
        → d ≢ PlanDecision.unset
        → (submitted d j).state ≡ executing
        → (d ≡ approve)
          × ((submitted d j).approved ≡ true)
          × ((submitted d j).plan_summary ≡ j.plan_summary)
    approves approve j n k = (refl, refl, refl)
    approves revise j n k = ground arith
    approves cancel j n k = ground arith
    approves PlanDecision.unset j n k = absurd (n refl)

    go :
        (a : Accepted req pending s t)
        → stored ≡ a.stored
        → (req.decide ≡ approve) × (stored.approved ≡ true) × (stored.plan_summary ≢ "")
    go a k =
        let (d, y, c) =
          approves req.decide a.job a.allowed.known
            (sym a.recorded.state ∙ ap (λ (j : Job). j.state) (sym k) ∙ e) in
        (
          d,
          ap (λ (j : Job). j.approved) k ∙ a.recorded.approved ∙ y,
          λ n. elim a.allowed.content [
            | inl p ↦ p d
            | inr q ↦
                q (
                  sym c
                  ∙ sym a.recorded.plan_summary
                  ∙ ap (λ (j : Job). j.plan_summary) (sym k)
                  ∙ n)
          ],
        )
