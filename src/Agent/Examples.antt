-- ===== src/Agent/Examples.antt =====
-- Tests: the theorems on the agent's client at a run in which a plan is asked for.
use grok_mcp.Prelude.{true, false, List, [], ◌∷◌, some, ◌≡◌}
use grok_mcp.Agent.State.{Grok, new_grok}
use grok_mcp.Agent.Permissions.{Origin}
use grok_mcp.Agent.Connection.{session_loaded, release, close}
use grok_mcp.Agent.Waiting.{AreWaiting}
use grok_mcp.Agent.Runs.{
  Operation, names_connection, installs, prompts, asks, ensures, loads, run, run-AreWaiting,
}
use grok_mcp.Agent.Closed.{IsDown, close-IsDown}

abbrev of_turn : Origin
of_turn = record { connection_id = "c1"; turn_id = "t1"; request_id = "" }

abbrev asking : List Operation
asking =
    names_connection "c1"
    ∷ installs (some 7)
    ∷ prompts "g1" "t1" "r1"
    ∷ asks of_turn "g1" "1. do it" true "a1" 5
    ∷ []

abbrev asked : Grok
asked = run asking new_grok

run-AreWaiting_example : AreWaiting asked
run-AreWaiting_example = run-AreWaiting asking

abbrev late : List Operation
late = ensures 8 ∷ installs (some 9) ∷ loads 9 "g1" ∷ []

close-IsDown_example :
    IsDown (run late (release (close asked)))
    × (session_loaded "g1" (run late (release (close asked))) ≡ false)
close-IsDown_example = close-IsDown late asked "g1"
