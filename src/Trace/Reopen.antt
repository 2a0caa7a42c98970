-- ===== src/Trace/Reopen.antt =====
-- The numbers of events after a restart: `Open` does not read the counters of the files.
use grok_mcp.Prelude.{ℕ, ◌<◌, String, false, List, [], Option, ◌≡◌, refl, arith, String_eq, eq_test}
use grok_mcp.Trace.State.{Event, Codec, key_of, open_log}
use grok_mcp.Trace.Redact.{Scrubber}
use grok_mcp.Trace.Emit.{trim, stamp, is_dropped, record_event, emit_begin}
use grok_mcp.Trace.Read.{reaches, events_after}

module _ {Line : Type 0} (codec : Codec Line) (scrub : Scrubber)
    (files : String → Option (List Line)) (logs : ℕ → List Line) where
  -- A reader that goes on, after a restart, at a cursor above 0 is not given the first event of the
  -- job that `Emit` keeps then, whatever the files hold.
  pub reopened_hides :
      (now cursor : ℕ) (ev : Event)
      → is_dropped (open_log files logs) ev ≡ false
      → 0 < cursor
      → events_after codec (emit_begin scrub now ev (open_log files logs)).0 ev.job_id cursor ≡ []
  unfolding events_after emit_begin record_event open_log trim stamp reaches
  reopened_hides now cursor ev kept h =
      rw (kept, emit_begin) (rw (eq_test (key_of ev.job_id) (key_of ev.job_id) refl) (ground arith))
