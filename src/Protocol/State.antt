-- ===== src/Protocol/State.antt =====
-- internal/protocol/types.go: the states of a job, its views, its input's owner, and decisions.
-- A Go string type has one more value than its constants name, the zero value "": `unset`.
use grok_mcp.Prelude.{ℕ, String, Bool, true, false, ◌≡◌, ◌↔◌, Comparable, Eq_of_tag, nat_eq, arith}

pub data JobState : Type 0 where
  unset created starting planning plan_ready executing completed : JobState
  needs_input disconnected recovering cancelled blocked failed : JobState

pub data ViewMode : Type 0 where
  unset headless attaching headed detaching : ViewMode

pub data InputOwner : Type 0 where
  unset supervisor tui handoff : InputOwner

pub data TaskMarker : Type 0 where
  working needs_input completed blocked : TaskMarker

pub data PlanDecision : Type 0 where
  unset approve revise cancel : PlanDecision

abbrev pub is_boundary : JobState → Bool
is_boundary plan_ready = true
is_boundary JobState.needs_input = true
is_boundary JobState.completed = true
is_boundary JobState.blocked = true
is_boundary failed = true
is_boundary disconnected = true
is_boundary cancelled = true
is_boundary _ = false

abbrev pub is_active : JobState → Bool
is_active starting = true
is_active planning = true
is_active executing = true
is_active recovering = true
is_active _ = false

abbrev pub JobState_tag : JobState → ℕ
JobState_tag JobState.unset = 0
JobState_tag created = 1
JobState_tag starting = 2
JobState_tag planning = 3
JobState_tag plan_ready = 4
JobState_tag executing = 5
JobState_tag JobState.completed = 6
JobState_tag JobState.needs_input = 7
JobState_tag disconnected = 8
JobState_tag recovering = 9
JobState_tag cancelled = 10
JobState_tag JobState.blocked = 11
JobState_tag failed = 12

JobState_tag_injective : (a b : JobState) → JobState_tag a ≡ JobState_tag b → a ≡ b
JobState_tag_injective a b h = ground arith

abbrev pub ViewMode_tag : ViewMode → ℕ
ViewMode_tag ViewMode.unset = 0
ViewMode_tag headless = 1
ViewMode_tag attaching = 2
ViewMode_tag headed = 3
ViewMode_tag detaching = 4

ViewMode_tag_injective : (a b : ViewMode) → ViewMode_tag a ≡ ViewMode_tag b → a ≡ b
ViewMode_tag_injective a b h = ground arith

abbrev pub InputOwner_tag : InputOwner → ℕ
InputOwner_tag InputOwner.unset = 0
InputOwner_tag supervisor = 1
InputOwner_tag tui = 2
InputOwner_tag handoff = 3

InputOwner_tag_injective : (a b : InputOwner) → InputOwner_tag a ≡ InputOwner_tag b → a ≡ b
InputOwner_tag_injective a b h = ground arith

abbrev pub PlanDecision_tag : PlanDecision → ℕ
PlanDecision_tag PlanDecision.unset = 0
PlanDecision_tag approve = 1
PlanDecision_tag revise = 2
PlanDecision_tag cancel = 3

PlanDecision_tag_injective : (a b : PlanDecision) → PlanDecision_tag a ≡ PlanDecision_tag b → a ≡ b
PlanDecision_tag_injective a b h = ground arith

pub JobState_beq_iff :
    (a b : JobState) → (nat_eq (JobState_tag a) (JobState_tag b) ≡ true) ↔ (a ≡ b)
JobState_beq_iff = Eq_of_tag JobState_tag JobState_tag_injective

pub ViewMode_beq_iff :
    (a b : ViewMode) → (nat_eq (ViewMode_tag a) (ViewMode_tag b) ≡ true) ↔ (a ≡ b)
ViewMode_beq_iff = Eq_of_tag ViewMode_tag ViewMode_tag_injective

pub InputOwner_beq_iff :
    (a b : InputOwner) → (nat_eq (InputOwner_tag a) (InputOwner_tag b) ≡ true) ↔ (a ≡ b)
InputOwner_beq_iff = Eq_of_tag InputOwner_tag InputOwner_tag_injective

pub PlanDecision_beq_iff :
    (a b : PlanDecision) → (nat_eq (PlanDecision_tag a) (PlanDecision_tag b) ≡ true) ↔ (a ≡ b)
PlanDecision_beq_iff = Eq_of_tag PlanDecision_tag PlanDecision_tag_injective

instance abbrev pub JobState_eq : Comparable JobState
JobState_eq = record {
  equals = λ a b. nat_eq (JobState_tag a) (JobState_tag b);
  equals_iff = JobState_beq_iff;
}

instance abbrev pub ViewMode_eq : Comparable ViewMode
ViewMode_eq = record {
  equals = λ a b. nat_eq (ViewMode_tag a) (ViewMode_tag b);
  equals_iff = ViewMode_beq_iff;
}

instance abbrev pub InputOwner_eq : Comparable InputOwner
InputOwner_eq = record {
  equals = λ a b. nat_eq (InputOwner_tag a) (InputOwner_tag b);
  equals_iff = InputOwner_beq_iff;
}

instance abbrev pub PlanDecision_eq : Comparable PlanDecision
PlanDecision_eq = record {
  equals = λ a b. nat_eq (PlanDecision_tag a) (PlanDecision_tag b);
  equals_iff = PlanDecision_beq_iff;
}

-- `string(state)`
abbrev pub state_text : JobState → String
state_text JobState.unset = ""
state_text created = "created"
state_text starting = "starting"
state_text planning = "planning"
state_text plan_ready = "plan_ready"
state_text executing = "executing"
state_text JobState.completed = "completed"
state_text JobState.needs_input = "needs_input"
state_text disconnected = "disconnected"
state_text recovering = "recovering"
state_text cancelled = "cancelled"
state_text JobState.blocked = "blocked"
state_text failed = "failed"
