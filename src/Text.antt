-- ===== src/Text.antt =====
-- internal/textutil/textutil.go: elapsed times.
use grok_mcp.Prelude.{ℕ, ◌-◌, ◌/◌, ◌||◌, ℕ_eq, if◌then◌else◌, ltb}
use grok_mcp.Protocol.Job.{second, is_zero}

abbrev pub elapsed_seconds : ℕ → ℕ → ℕ
elapsed_seconds created now =
    if is_zero created || ltb now created then 0 else (now - created) / second
