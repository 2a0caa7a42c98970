-- ===== src/Agent/Types.antt =====
-- internal/agent/agent.go: the requests and decisions on plans.
use grok_mcp.Prelude.{ℕ, String, Bool}
use grok_mcp.Protocol.State.{PlanDecision}

pub record PlanRequest : Type 0 where
  pub id : String
  pub connection_id : String
  pub request_id : String
  pub turn_id : String
  pub session_id : String
  pub content : String
  pub supports_notes : Bool
  pub created_at : ℕ

-- `agent.PlanDecision`: a request and what is decided on it.
pub record Decision : Type 0 where
  pub plan : PlanRequest
  pub decide : PlanDecision
  pub notes : String
