-- ===== src/Agent/Closed.antt =====
-- A client that is closed stays without a connection.
use grok_mcp.Prelude.{
  ℕ, String, Bool, true, false, List, [], ◌∷◌, none, some, ◌≡◌, refl, ◌∙◌, arith, ◌==◌, ℕ_eq,
  if◌then◌else◌, Bool-cases, Option-cases, inl, inr,
}
use grok_mcp.Agent.Types.{Decision}
use grok_mcp.Agent.State.{Grok}
use grok_mcp.Agent.Permissions.{
  Origin, await_begin, is_stale_origin, await_end, clear_pending, is_channel, resolve_approval,
  send_choice,
}
use grok_mcp.Agent.Connection.{
  ensure_begin, connect_acp, install, initialize_end, lost, release, close, invalidate_session,
  load_end, prompt_begin, on_update, session_loaded,
}
use grok_mcp.Agent.Runs.{
  Operation, asks, stops_waiting, resolves, ensures, names_connection, installs, ends_attempt,
  loses, releases, closes, invalidates, loads, prompts, updates, perform, run,
}

-- Closed, with no connection and nothing started.
pub record IsDown (g : Grok) : Type 0 where
  pub closed : g.closed ≡ true
  pub no_connection : g.conn ≡ none

-- Permissions do not touch the connection.
abbrev SameConnection : Grok → Grok → Type 0
SameConnection g h = (h.closed ≡ g.closed) × (h.conn ≡ g.conn)

IsDown-same : (g h : Grok) → SameConnection g h → IsDown g → IsDown h
IsDown-same g h e d = record { closed = e.0 ∙ d.closed; no_connection = e.1 ∙ d.no_connection }

clear_pending-connection :
    (sid : String) (ch : ℕ) (g : Grok) → SameConnection g (clear_pending sid ch g)
unfolding clear_pending
clear_pending-connection sid ch g = elim (Bool-cases (is_channel ch (g.pending sid))) [
  | inl y ↦ rw (y, clear_pending) (refl, refl)
  | inr n ↦ rw (n, clear_pending) (refl, refl)
]

await_end-connection :
    (given_up : Bool) (sid : String) (ch : ℕ) (g : Grok)
    → SameConnection g (await_end given_up sid ch g).0
unfolding await_end
await_end-connection true sid ch g = clear_pending-connection sid ch g
await_end-connection false sid ch g = elim (Option-cases (g.sent ch)) [
  | inl empty ↦ rw (empty, await_end) (refl, refl)
  | inr (choice, full) ↦
      rw (full, await_end)
        (clear_pending-connection sid ch
          (record g { sent = λ c. if c == ch then none else g.sent c }))
]

await_begin-connection :
    (o : Origin) (sid excerpt : String) (notes : Bool) (id : String) (now : ℕ) (g : Grok)
    → SameConnection g (await_begin o sid excerpt notes id now g).0
unfolding await_begin
await_begin-connection o sid excerpt notes id now g = elim (Bool-cases (is_stale_origin o sid g)) [
  | inl y ↦ rw (y, await_begin) (refl, refl)
  | inr n ↦ elim (Option-cases (g.pending sid)) [
    | inl free ↦ rw (n, await_begin) (rw free (refl, refl))
    | inr (ch, waits) ↦ rw (n, await_begin) (rw waits (refl, refl))
  ]
]

resolve_approval-connection :
    (done : Bool) (d : Decision) (g : Grok) → SameConnection g (resolve_approval done d g).0
unfolding resolve_approval send_choice
resolve_approval-connection done d g = ground arith

perform-IsDown : (op : Operation) (g : Grok) → IsDown g → IsDown (perform op g)
unfolding perform ensure_begin connect_acp install initialize_end lost release close
    invalidate_session load_end prompt_begin on_update
perform-IsDown (asks o sid excerpt notes id now) g d =
    IsDown-same g _ (await_begin-connection o sid excerpt notes id now g) d
perform-IsDown (stops_waiting given_up sid ch) g d =
    IsDown-same g _ (await_end-connection given_up sid ch g) d
perform-IsDown (resolves done e) g d = IsDown-same g _ (resolve_approval-connection done e g) d
perform-IsDown (ensures attempt) g d = ground (arith, d.closed, d.no_connection)
perform-IsDown (names_connection id) g d = record {
  closed = d.closed;
  no_connection = d.no_connection;
}
perform-IsDown (installs none) g d = d
perform-IsDown (installs (some c)) g d = ground (arith, d.closed, d.no_connection)
perform-IsDown (ends_attempt attempt) g d = ground (arith, d.closed, d.no_connection)
perform-IsDown (loses c) g d = ground (arith, d.closed, d.no_connection)
perform-IsDown releases g d = record { closed = d.closed; no_connection = refl }
perform-IsDown closes g d = record { closed = refl; no_connection = d.no_connection }
perform-IsDown (invalidates sid) g d = record { closed = d.closed; no_connection = d.no_connection }
perform-IsDown (loads c sid) g d = ground (arith, d.closed, d.no_connection)
perform-IsDown (prompts sid turn request) g d = record {
  closed = d.closed;
  no_connection = d.no_connection;
}
perform-IsDown (updates sid action plan) g d = record {
  closed = d.closed;
  no_connection = d.no_connection;
}

-- Once `Close` has closed the client and released its connection, no operations, in any order, bring
-- a connection up again, though an attempt may still end with one; and a session is loaded for none.
pub close-IsDown :
    (ops : List Operation) (g : Grok) (sid : String)
    → IsDown (run ops (release (close g)))
      × (session_loaded sid (run ops (release (close g))) ≡ false)
unfolding release close run session_loaded
close-IsDown ops g sid = (down, rw (down.no_connection, session_loaded) refl)
  where
    all : (rest : List Operation) (h : Grok) → IsDown h → IsDown (run rest h)
    all [] h d = d
    all (op ∷ rest) h d = all rest (perform op h) (perform-IsDown op h d)

    down : IsDown (run ops (release (close g)))
    down = all ops (release (close g)) (record { closed = refl; no_connection = refl })
