-- ===== src/Agent/Runs.antt =====
-- The operations on the agent's client in any order, and what holds after all of them.
use grok_mcp.Prelude.{
  ℕ, String, Bool, List, [], ◌∷◌, Option, none, some, Bool-cases, Option-cases, inl, inr,
}
use grok_mcp.Agent.Types.{Decision}
use grok_mcp.Agent.State.{Grok, new_grok}
use grok_mcp.Agent.Permissions.{Origin, await_begin, await_end, resolve_approval}
use grok_mcp.Agent.Connection.{
  ensure_begin, connect_acp, install, initialize_end, lost, release, close, invalidate_session,
  load_end, prompt_begin, on_update, is_number,
}
use grok_mcp.Agent.Waiting.{AreWaiting}
use grok_mcp.Agent.KeepsWaiting.{
  new_grok-AreWaiting, await_begin-AreWaiting, await_end-AreWaiting, resolve_approval-AreWaiting,
  lost-AreWaiting, release-AreWaiting,
}

-- What is done between two releases of `mu`, with its arguments.
pub data Operation : Type 0 where
  asks : Origin → String → String → Bool → String → ℕ → Operation
  stops_waiting : Bool → String → ℕ → Operation
  resolves : Bool → Decision → Operation
  ensures : ℕ → Operation
  names_connection : String → Operation
  installs : Option ℕ → Operation
  ends_attempt : ℕ → Operation
  loses : ℕ → Operation
  releases : Operation
  closes : Operation
  invalidates : String → Operation
  loads : ℕ → String → Operation
  prompts : String → String → String → Operation
  updates : String → String → Bool → Operation

unfoldable pub perform : Operation → Grok → Grok
perform (asks o sid excerpt notes id now) g = (await_begin o sid excerpt notes id now g).0
perform (stops_waiting given_up sid ch) g = (await_end given_up sid ch g).0
perform (resolves done d) g = (resolve_approval done d g).0
perform (ensures attempt) g = (ensure_begin attempt g).0
perform (names_connection id) g = connect_acp id g
perform (installs c) g = (install c g).0
perform (ends_attempt attempt) g = initialize_end attempt g
perform (loses c) g = (lost c g).0
perform releases g = release g
perform closes g = close g
perform (invalidates sid) g = invalidate_session sid g
perform (loads c sid) g = load_end c sid g
perform (prompts sid turn request) g = (prompt_begin sid turn request g).0
perform (updates sid action plan) g = on_update sid action plan g

unfoldable pub run : List Operation → Grok → Grok
unfolding perform
run [] g = g
run (op ∷ ops) g = run ops (perform op g)

ensure_begin-AreWaiting :
    (attempt : ℕ) (g : Grok) → AreWaiting g → AreWaiting (ensure_begin attempt g).0
unfolding ensure_begin
ensure_begin-AreWaiting attempt g w = elim (Bool-cases g.closed) [
  | inl y ↦ rw (y, ensure_begin) w
  | inr n ↦ elim (Option-cases g.conn) [
    | inr (c, up) ↦ rw (n, ensure_begin) (rw up w)
    | inl down ↦ elim (Option-cases g.initializing) [
      | inr (a, busy) ↦ rw (n, ensure_begin) (rw down (rw busy w))
      | inl idle ↦ rw (n, ensure_begin) (rw down (rw idle w))
    ]
  ]
]

install-AreWaiting : (c : Option ℕ) (g : Grok) → AreWaiting g → AreWaiting (install c g).0
unfolding install
install-AreWaiting none g w = w
install-AreWaiting (some c) g w = elim (Bool-cases g.closed) [
  | inl y ↦ rw (y, install) w
  | inr n ↦ rw (n, install) w
]

initialize_end-AreWaiting :
    (attempt : ℕ) (g : Grok) → AreWaiting g → AreWaiting (initialize_end attempt g)
unfolding initialize_end
initialize_end-AreWaiting attempt g w = elim (Bool-cases (is_number attempt g.initializing)) [
  | inl y ↦ rw (y, initialize_end) w
  | inr n ↦ rw (n, initialize_end) w
]

load_end-AreWaiting :
    (c : ℕ) (sid : String) (g : Grok) → AreWaiting g → AreWaiting (load_end c sid g)
unfolding load_end
load_end-AreWaiting c sid g w = elim (Bool-cases (is_number c g.conn)) [
  | inl y ↦ rw (y, load_end) w
  | inr n ↦ rw (n, load_end) w
]

perform-AreWaiting : (op : Operation) (g : Grok) → AreWaiting g → AreWaiting (perform op g)
unfolding perform connect_acp close invalidate_session prompt_begin on_update
perform-AreWaiting (asks o sid excerpt notes id now) g w =
    await_begin-AreWaiting o sid excerpt notes id now g w
perform-AreWaiting (stops_waiting given_up sid ch) g w = await_end-AreWaiting given_up sid ch g w
perform-AreWaiting (resolves done d) g w = resolve_approval-AreWaiting done d g w
perform-AreWaiting (ensures attempt) g w = ensure_begin-AreWaiting attempt g w
perform-AreWaiting (names_connection id) g w = w
perform-AreWaiting (installs c) g w = install-AreWaiting c g w
perform-AreWaiting (ends_attempt attempt) g w = initialize_end-AreWaiting attempt g w
perform-AreWaiting (loses c) g w = lost-AreWaiting c g w
perform-AreWaiting releases g w = release-AreWaiting g w
perform-AreWaiting closes g w = w
perform-AreWaiting (invalidates sid) g w = w
perform-AreWaiting (loads c sid) g w = load_end-AreWaiting c sid g w
perform-AreWaiting (prompts sid turn request) g w = w
perform-AreWaiting (updates sid action plan) g w = w

-- After any operations, in any order, on a new client: every approval that is kept stands under its
-- own name and has a permission of its session that waits for it, no two approvals are of one
-- session, no two sessions share a channel, and a channel that waits is empty.
pub run-AreWaiting : (ops : List Operation) → AreWaiting (run ops new_grok)
unfolding run
run-AreWaiting ops = all ops new_grok new_grok-AreWaiting
  where
    all : (rest : List Operation) (g : Grok) → AreWaiting g → AreWaiting (run rest g)
    all [] g w = w
    all (op ∷ rest) g w = all rest (perform op g) (perform-AreWaiting op g w)
