-- ===== src/Agent/Permissions.antt =====
-- internal/agent/grok.go and internal/agent/approval.go: permissions for plans. The agent asks, the
-- supervisor is told, and a decision goes through a channel to the one that waits.
use grok_mcp.Prelude.{
  ℕ, ◌+◌, String, Bool, true, false, not, ◌&&◌, ◌||◌, Option, none, some, ◌==◌, ◌!=◌, ℕ_eq,
  String_eq, if◌then◌else◌,
}
use grok_mcp.Protocol.State.{PlanDecision, approve, revise, cancel, PlanDecision_eq}
use grok_mcp.Agent.Types.{PlanRequest, Decision}
use grok_mcp.Agent.State.{Grok, PlanChoice, set}

pub data PermissionError : Type 0 where
  stale_permission other_permission : PermissionError
  cancelled stale_approval no_permission no_notes invalid_decision already_submitted :
      PermissionError

pub data Asked : Type 0 where
  refused : PermissionError → Asked
  waits : PlanRequest → ℕ → Asked

pub data Resolved : Type 0 where
  resolved : Resolved
  rejected : PermissionError → Resolved

-- What a context says of the connection, the turn and the request that a permission belongs to.
pub record Origin : Type 0 where
  pub connection_id : String
  pub turn_id : String
  pub request_id : String

-- The first guard of `awaitPlanChoiceWithNotes`.
unfoldable pub is_stale_origin : Origin → String → Grok → Bool
is_stale_origin o sid g =
    (o.connection_id != "" && o.connection_id != g.connection_id)
    || (o.turn_id != "" && o.turn_id != g.turns sid)
    || (o.request_id != "" && o.request_id != g.requests sid)

-- The request that the supervisor is told of; `id` is a fresh identifier.
unfoldable pub asked_request : String → ℕ → String → String → Bool → Grok → PlanRequest
asked_request id now sid excerpt notes g = record {
  id = id;
  connection_id = g.connection_id;
  request_id = g.requests sid;
  turn_id = g.turns sid;
  session_id = sid;
  content = excerpt;
  supports_notes = notes;
  created_at = now;
}

-- `awaitPlanChoiceWithNotes`, up to its unlock.
unfoldable pub await_begin : Origin → String → String → Bool → String → ℕ → Grok → Grok × Asked
unfolding is_stale_origin asked_request
await_begin o sid excerpt notes id now g =
    if is_stale_origin o sid g then (g, refused stale_permission) else elim (g.pending sid) [
      | some ch ↦ (g, refused other_permission)
      | none ↦
          let req = asked_request id now sid excerpt notes g in
          (
            record g {
              plan = set g.plan sid true;
              made = g.made + 1;
              pending = set g.pending sid (some g.made);
              pending_notes = set g.pending_notes sid notes;
              last = set g.last sid "Plan ready";
              approvals = set g.approvals id (some req);
            },
            waits req g.made,
          )
    ]

abbrev pub is_of_session : String → Option PlanRequest → Bool
is_of_session sid none = false
is_of_session sid (some p) = p.session_id == sid

abbrev pub is_channel : ℕ → Option ℕ → Bool
is_channel ch none = false
is_channel ch (some c) = c == ch

-- `clearPending`
unfoldable pub clear_pending : String → ℕ → Grok → Grok
clear_pending sid ch g =
    if is_channel ch (g.pending sid)
    then record g {
      pending = set g.pending sid none;
      pending_notes = set g.pending_notes sid false;
      approvals = λ id. if is_of_session sid (g.approvals id) then none else g.approvals id;
      plan = set g.plan sid false;
    }
    else g

-- The end of `awaitPlanChoiceWithNotes`: the choice is taken from the channel, or the wait is given
-- up, with no choice, because the handler failed or the context is done.
unfoldable pub await_end : Bool → String → ℕ → Grok → Grok × Option PlanChoice
unfolding clear_pending
await_end given_up sid ch g =
    if given_up then (clear_pending sid ch g, none) else elim (g.sent ch) [
      | none ↦ (g, none)
      | some choice ↦ (
        clear_pending sid ch (record g { sent = λ c. if c == ch then none else g.sent c }),
        some choice,
      )
    ]

-- `PendingApproval`; `none` is `ErrNoPlanPermission`.
unfoldable pub pending_approval : String → Grok → Option PlanRequest
pending_approval id g = elim (g.approvals id) [
  | none ↦ none
  | some p ↦
      if p.connection_id != g.connection_id
      then none
      else elim (g.pending p.session_id) [ none ↦ none | some ch ↦ some p ]
]

-- Whether a decision is on another request than the one that is kept under its identifier.
unfoldable pub is_stale_approval : PlanRequest → PlanRequest → Grok → Bool
is_stale_approval p d g =
    p.connection_id != g.connection_id
    || p.connection_id != d.connection_id
    || p.session_id != d.session_id
    || p.request_id != d.request_id
    || p.turn_id != d.turn_id

abbrev pub is_known_decision : PlanDecision → Bool
is_known_decision d = d == approve || d == revise || d == cancel

-- The send of `ResolveApproval`, which never blocks.
unfoldable pub send_choice : PlanRequest → ℕ → PlanChoice → Grok → Grok × Resolved
send_choice p ch choice g = elim (g.sent ch) [
  | some other ↦ (g, rejected already_submitted)
  | none ↦ (
    record g {
      sent = λ c. if c == ch then some choice else g.sent c;
      pending = set g.pending p.session_id none;
      pending_notes = set g.pending_notes p.session_id false;
      approvals = set g.approvals p.id none;
      plan = set g.plan p.session_id false;
    },
    resolved,
  )
]

-- `ResolveApproval`; `done` says whether the context is done.
unfoldable pub resolve_approval : Bool → Decision → Grok → Grok × Resolved
unfolding is_stale_approval send_choice
resolve_approval done d g = if done then (g, rejected cancelled) else elim (g.approvals d.plan.id) [
  | none ↦ (g, rejected stale_approval)
  | some p ↦
      if is_stale_approval p d.plan g
      then (g, rejected stale_approval)
      else elim (g.pending p.session_id) [
        | none ↦ (g, rejected no_permission)
        | some ch ↦
            if d.notes != "" && not p.supports_notes
            then (g, rejected no_notes)
            else if is_known_decision d.decide
            then send_choice p ch (record { decide = d.decide; notes = d.notes }) g
            else (g, rejected invalid_decision)
      ]
]
