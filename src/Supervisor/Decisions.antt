-- ===== src/Supervisor/Decisions.antt =====
-- internal/supervisor/plan.go: which decisions are accepted.
use grok_mcp.Prelude.{
  String, Bool, true, false, not, ◌&&◌, ◌||◌, Option, none, some, ◌==◌, ◌!=◌, ℕ_eq, String_eq,
  if◌then◌else◌, ◌≡◌, ◌≢◌, refl, arith, inl, inr, ◌⊎◌, or_false, false_or, and_false, eq_of, ne_of,
  ne_false, eq_false,
}
use grok_mcp.Protocol.State.{
  PlanDecision, approve, revise, cancel, plan_ready, JobState_eq, PlanDecision_eq,
}
use grok_mcp.Protocol.Job.{Job, PlanDecideRequest}
use grok_mcp.Supervisor.State.{
  Err, not_waiting, stale_decision, bad_decision, no_plan_content, approval_expired,
  stale_connection, no_notes,
}
use grok_mcp.Supervisor.Plan.{
  PlanRequest, decision_error, is_not_waiting, is_stale_decision, is_unknown_decision,
  lacks_content, is_other_connection, lacks_notes,
}

-- The decision answers the approval that the job waits for, on the agent's own connection.
pub record MayDecide (req : PlanDecideRequest) (job : Job) (p : PlanRequest) : Type 0 where
  pub waiting : job.state ≡ plan_ready
  pub unsent : job.approval_delivery ≢ "submitted"
  pub named : req.approval_id ≢ ""
  pub approval : req.approval_id ≡ job.approval_id
  pub request : req.request_id ≡ job.request_id
  pub turn : req.turn_id ≡ job.plan_turn_id
  pub version : req.plan_version ≡ job.plan_version
  pub known : req.decide ≢ PlanDecision.unset
  pub content : (req.decide ≢ approve) ⊎ (job.plan_summary ≢ "")
  pub connection : p.connection_id ≡ job.approval_connection_id
  pub pending_request : p.request_id ≡ job.request_id
  pub pending_turn : p.turn_id ≡ job.plan_turn_id
  pub session : p.session_id ≡ job.grok_session_id
  pub notes : (req.notes ≡ "") ⊎ (p.supports_notes ≡ true)

guard_chain :
    (req : PlanDecideRequest) (job : Job) (pending : Option PlanRequest)
    → decision_error req job pending ≡ none
    → (is_not_waiting job ≡ false)
      × (is_stale_decision req job ≡ false)
      × (is_unknown_decision req.decide ≡ false)
      × (lacks_content req job ≡ false)
      × (p : PlanRequest) × (pending ≡ some p)
      × (is_other_connection p job ≡ false)
      × (lacks_notes req p ≡ false)
unfolding decision_error
guard_chain req job pending h =
    go (is_not_waiting job) (is_stale_decision req job) (is_unknown_decision req.decide)
      (lacks_content req job) pending h
  where
    last :
        (e f : Bool)
        → (if e then some stale_connection else if f then some no_notes else none) ≡ none
        → (e ≡ false) × (f ≡ false)
    last e f k = ground arith

    go :
        (a b c d : Bool) (o : Option PlanRequest)
        → (if a
            then some not_waiting
            else if b
            then some stale_decision
            else if c
            then some bad_decision
            else if d
            then some no_plan_content
            else elim o as (λ _. Option Err) [
              | none ↦ some approval_expired
              | some p ↦
                  if is_other_connection p job
                  then some stale_connection
                  else if lacks_notes req p
                  then some no_notes
                  else none
            ])
          ≡ none
        → (a ≡ false)
          × (b ≡ false)
          × (c ≡ false)
          × (d ≡ false)
          × (p : PlanRequest) × (o ≡ some p)
          × (is_other_connection p job ≡ false)
          × (lacks_notes req p ≡ false)
    go true b c d o k = cc
    go false true c d o k = cc
    go false false true d o k = cc
    go false false false true o k = cc
    go false false false false none k = cc
    go false false false false (some p) k =
        let (e, f) = last (is_other_connection p job) (lacks_notes req p) k in
        (refl, refl, refl, refl, p, refl, e, f)

is_known :
    (d : PlanDecision)
    → (d != approve && d != revise && d != cancel) ≡ false
    → d ≢ PlanDecision.unset
is_known d h = ground arith

known_is :
    (d : PlanDecision)
    → d ≢ PlanDecision.unset
    → (d != approve && d != revise && d != cancel) ≡ false
known_is approve h = refl
known_is revise h = refl
known_is cancel h = refl
known_is PlanDecision.unset h = absurd (h refl)

content_of :
    (d : PlanDecision) (t : String) → (d == approve && t == "") ≡ false → (d ≢ approve) ⊎ (t ≢ "")
content_of d t h = elim (and_false (d == approve) (t == "") h) [
  | inl p ↦ inl (ne_of d approve p)
  | inr q ↦ inr (ne_of t "" q)
]

of_content :
    (d : PlanDecision) (t : String) → (d ≢ approve) ⊎ (t ≢ "") → (d == approve && t == "") ≡ false
of_content d t (inl p) = rw (eq_false d approve p) refl
of_content d t (inr q) = rw (eq_false t "" q) (go (d == approve))
  where
    go : (b : Bool) → (b && false) ≡ false
    go true = refl
    go false = refl

notes_of : (t : String) (b : Bool) → (t != "" && not b) ≡ false → (t ≡ "") ⊎ (b ≡ true)
notes_of t true h = inr refl
notes_of t false h = elim (and_false (t != "") true h) [
  | inl p ↦ inl (eq_of t "" p)
  | inr q ↦ absurd (cc)
]

of_notes : (t : String) (b : Bool) → (t ≡ "") ⊎ (b ≡ true) → (t != "" && not b) ≡ false
of_notes t b (inl p) = rw (ne_false t "" p) refl
of_notes t b (inr q) = rw q (go (t != ""))
  where
    go : (c : Bool) → (c && false) ≡ false
    go true = refl
    go false = refl

-- The guards of a decision all pass only for a pending approval that the request answers.
pub decision_error-none :
    (req : PlanDecideRequest) (job : Job) (pending : Option PlanRequest)
    → decision_error req job pending ≡ none
    → (p : PlanRequest) × (pending ≡ some p) × MayDecide req job p
decision_error-none req job pending h =
    let (a, b, c, d, p, o, e, f) = guard_chain req job pending h in
    let (a₁, a₂) = or_false (job.state != plan_ready) (job.approval_delivery == "submitted") a in
    let (b₄, b₅) = or_false _ (req.plan_version != job.plan_version) b in
    let (b₃, b₆) = or_false _ (req.turn_id != job.plan_turn_id) b₄ in
    let (b₂, b₇) = or_false _ (req.request_id != job.request_id) b₃ in
    let (b₁, b₈) = or_false (req.approval_id == "") (req.approval_id != job.approval_id) b₂ in
    let (e₄, e₅) = or_false _ (p.session_id != job.grok_session_id) e in
    let (e₃, e₆) = or_false _ (p.turn_id != job.plan_turn_id) e₄ in
    let (e₁, e₂) =
      or_false (p.connection_id != job.approval_connection_id) (p.request_id != job.request_id)
        e₃ in
    (
      p,
      o,
      record {
        waiting = eq_of job.state plan_ready a₁;
        unsent = ne_of job.approval_delivery "submitted" a₂;
        named = ne_of req.approval_id "" b₁;
        approval = eq_of req.approval_id job.approval_id b₈;
        request = eq_of req.request_id job.request_id b₇;
        turn = eq_of req.turn_id job.plan_turn_id b₆;
        version = eq_of req.plan_version job.plan_version b₅;
        known = is_known req.decide c;
        content = content_of req.decide job.plan_summary d;
        connection = eq_of p.connection_id job.approval_connection_id e₁;
        pending_request = eq_of p.request_id job.request_id e₂;
        pending_turn = eq_of p.turn_id job.plan_turn_id e₆;
        session = eq_of p.session_id job.grok_session_id e₅;
        notes = notes_of req.notes p.supports_notes f;
      },
    )

-- No guard of a decision refuses one that answers the approval that the job waits for, on the
-- connection on which it is pending.
pub MayDecide-decision_error :
    (req : PlanDecideRequest) (job : Job) (p : PlanRequest)
    → MayDecide req job p
    → decision_error req job (some p) ≡ none
unfolding decision_error
MayDecide-decision_error req job p m =
    let waits : is_not_waiting job ≡ false =
      false_or _ _ (ne_false job.state plan_ready m.waiting)
        (eq_false job.approval_delivery "submitted" m.unsent) in
    let named : (req.approval_id == "" || req.approval_id != job.approval_id) ≡ false =
      false_or _ _ (eq_false req.approval_id "" m.named)
        (ne_false req.approval_id job.approval_id m.approval) in
    let fresh : is_stale_decision req job ≡ false =
      false_or _ _
        (false_or _ _ (false_or _ _ named (ne_false req.request_id job.request_id m.request))
          (ne_false req.turn_id job.plan_turn_id m.turn))
        (ne_false req.plan_version job.plan_version m.version) in
    let ours : is_other_connection p job ≡ false =
      false_or _ _
        (false_or _ _
          (false_or _ _ (ne_false p.connection_id job.approval_connection_id m.connection)
            (ne_false p.request_id job.request_id m.pending_request))
          (ne_false p.turn_id job.plan_turn_id m.pending_turn))
        (ne_false p.session_id job.grok_session_id m.session) in
    go (is_not_waiting job) (is_stale_decision req job) (is_unknown_decision req.decide)
      (lacks_content req job) (is_other_connection p job) (lacks_notes req p) waits fresh
      (known_is req.decide m.known) (of_content req.decide job.plan_summary m.content) ours
      (of_notes req.notes p.supports_notes m.notes)
  where
    go :
        (a b c d e f : Bool)
        → a ≡ false
        → b ≡ false
        → c ≡ false
        → d ≡ false
        → e ≡ false
        → f ≡ false
        → (if a
            then some not_waiting
            else if b
            then some stale_decision
            else if c
            then some bad_decision
            else if d
            then some no_plan_content
            else if e
            then some stale_connection
            else if f
            then some no_notes
            else none)
          ≡ none
    go a b c d e f p q r s i j = ground arith
