-- ===== src/Agent/State.antt =====
-- internal/agent/grok.go: the state of `Grok`, the client of the agent's process.
use grok_mcp.Prelude.{ℕ, String, Bool, false, Option, none, ◌==◌, String_eq, if◌then◌else◌}
use grok_mcp.Protocol.State.{PlanDecision}
use grok_mcp.Agent.Types.{PlanRequest}

-- `planChoice`
pub record PlanChoice : Type 0 where
  pub decide : PlanDecision
  pub notes : String

-- `Grok`, with what `mu` protects of permissions and of the connection. A map is a function, and a
-- channel is a number: `made` counts the channels that were made, and `sent` is what waits in a
-- channel, which holds one choice. A connection and an attempt at one are numbers too.
pub record Grok : Type 0 where
  pub connection_id : String
  pub requests : String → String
  pub turns : String → String
  pub approvals : String → Option PlanRequest
  pub pending : String → Option ℕ
  pub pending_notes : String → Bool
  pub plan : String → Bool
  pub last : String → String
  pub made : ℕ
  pub sent : ℕ → Option PlanChoice
  pub conn : Option ℕ
  pub initializing : Option ℕ
  pub loaded : String → Bool
  pub closed : Bool
  pub attach : String

-- `NewGrok`
unfoldable pub new_grok : Grok
new_grok = record {
  connection_id = "";
  requests = λ sid. "";
  turns = λ sid. "";
  approvals = λ id. none;
  pending = λ sid. none;
  pending_notes = λ sid. false;
  plan = λ sid. false;
  last = λ sid. "";
  made = 0;
  sent = λ ch. none;
  conn = none;
  initializing = none;
  loaded = λ sid. false;
  closed = false;
  attach = "boundary";
}

-- `m[k] = v`; `delete(m, k)` puts the zero value there.
abbrev pub set {ℓ} : {A : Type ℓ} → (String → A) → String → A → String → A
set m k v j = if k == j then v else m j
