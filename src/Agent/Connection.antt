-- ===== src/Agent/Connection.antt =====
-- internal/agent/lifecycle.go and internal/agent/grok.go: the connection to the agent's process, and
-- the sessions that it has loaded. A procedure that gives `mu` up is several functions.
use grok_mcp.Prelude.{
  ℕ, String, Bool, true, false, Option, none, some, ◌==◌, ℕ_eq, String_eq, if◌then◌else◌,
}
use grok_mcp.Agent.State.{Grok, set}

pub data Ensured : Type 0 where
  is_closed : Ensured
  connected : Ensured
  waits_for : ℕ → Ensured

-- `EnsureLeader`, up to its unlock: an attempt that runs is waited for, and else `attempt` starts.
unfoldable pub ensure_begin : ℕ → Grok → Grok × Ensured
ensure_begin attempt g = if g.closed then (g, is_closed) else elim g.conn [
  | some c ↦ (g, connected)
  | none ↦ elim g.initializing [
    | some a ↦ (g, waits_for a)
    | none ↦ (record g { initializing = some attempt }, waits_for attempt)
  ]
]

-- `connectACP`, under its lock: a fresh name for the connection.
unfoldable pub connect_acp : String → Grok → Grok
connect_acp id g = record g { connection_id = id }

abbrev pub is_number : ℕ → Option ℕ → Bool
is_number n none = false
is_number n (some m) = m == n

-- `initialize`, its first locked part: a connection that was made is taken, if the client was not
-- closed meanwhile. The result says whether it was.
unfoldable pub install : Option ℕ → Grok → Grok × Bool
install none g = (g, false)
install (some c) g =
    if g.closed then (g, false) else (record g { conn = some c; loaded = λ sid. false }, true)

-- `initialize`, its second locked part.
unfoldable pub initialize_end : ℕ → Grok → Grok
initialize_end attempt g =
    if is_number attempt g.initializing then record g { initializing = none } else g

-- The goroutine that `initialize` leaves behind, when the connection `c` is gone. The result says
-- whether the listener is called.
unfoldable pub lost : ℕ → Grok → Grok × Bool
lost c g =
    if is_number c g.conn
    then (
      record g {
        conn = none;
        connection_id = "";
        approvals = λ id. none;
        pending = λ sid. none;
        pending_notes = λ sid. false;
        loaded = λ sid. false;
      },
      true,
    )
    else (g, false)

-- `Release`, its second locked part; before, the attempt that runs is cancelled and waited for.
unfoldable pub release : Grok → Grok
release g = record g {
  conn = none;
  connection_id = "";
  approvals = λ id. none;
  pending = λ sid. none;
  pending_notes = λ sid. false;
  loaded = λ sid. false;
  attach = "boundary";
}

-- `Close`, up to `Release`.
unfoldable pub close : Grok → Grok
close g = record g { closed = true }

-- `SessionLoaded`
unfoldable pub session_loaded : String → Grok → Bool
session_loaded sid g = elim g.conn [ none ↦ false | some c ↦ g.loaded sid ]

-- `InvalidateSession`
unfoldable pub invalidate_session : String → Grok → Grok
invalidate_session sid g = record g { loaded = set g.loaded sid false }

pub data Loading : Type 0 where
  disconnected loaded_already : Loading
  loads_on : ℕ → Loading

-- `LoadConnectedSession`, before the call of the agent.
unfoldable pub load_begin : String → Grok → Loading
load_begin sid g = elim g.conn [
  | none ↦ disconnected
  | some c ↦ if g.loaded sid then loaded_already else loads_on c
]

-- `LoadConnectedSession` and `NewSession`, after the call on the connection `c` succeeded.
unfoldable pub load_end : ℕ → String → Grok → Grok
load_end c sid g = if is_number c g.conn then record g { loaded = set g.loaded sid true } else g

-- `Prompt`, before the call of the agent.
unfoldable pub prompt_begin : String → String → String → Grok → Grok × Option ℕ
prompt_begin sid turn request g = (
  record g {
    turns = set g.turns sid turn;
    requests = set g.requests sid request;
    plan = set g.plan sid false;
    last = set g.last sid "";
  },
  g.conn,
)

-- What `onUpdate` of `connectACP` does.
unfoldable pub on_update : String → String → Bool → Grok → Grok
on_update sid action plan g = record g {
  last = if action == "" then g.last else set g.last sid action;
  plan = if plan then set g.plan sid true else g.plan;
}
