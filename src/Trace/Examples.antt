-- ===== src/Trace/Examples.antt =====
-- Tests: the theorems on traces at concrete logs, whose lines are the events themselves.
use grok_mcp.Prelude.{
  String, true, false, List, [], ◌∷◌, ◌++◌, Option, none, some, ◌≡◌, refl, arith, inl, String_eq,
  concat, length, drop,
}
use mathlib.Core.List.{Permᴰ}
use grok_mcp.Trace.State.{Event, Codec, Log, Value, text, no_fields, field, open_log, debug_locked}
use grok_mcp.Trace.Redact.{
  Scrubber, is_payload, add_text, hide_payload, put_field, byte_length, sanitize_onto,
  sanitize_fields,
}
use grok_mcp.Trace.Emit.{
  Emitted, trim, stamp, is_dropped, record_event, emit_begin, emit, write_event, Gone, append_file,
  append_trace, append_day, remove,
}
use grok_mcp.Trace.Read.{decode_lines, scan, events_after, read_file, matches, match_name}
use grok_mcp.Trace.Numbers.{AreNumbered, emit_begin-AreNumbered}
use grok_mcp.Trace.Whole.{IsWhole, history, events_after-read_file}
use grok_mcp.Trace.Appends.{IsReadable, stored, added, emitted, emit-IsWhole}
use grok_mcp.Trace.Reader.{pending, follow, follow-pending}
use grok_mcp.Trace.Reopen.{reopened_hides}
use grok_mcp.Trace.Secrets.{AreClean, emit_begin-AreClean}
use grok_mcp.Trace.Rotate.{FileInfo, IsPruned, is_over, prune, rotate, rotate-IsPruned}

abbrev same_codec : Codec Event
same_codec = record {
  marshal = λ e. some e;
  unmarshal = λ e. some e;
  size = λ e. 100;
  is_blank = λ e. false;
}

abbrev plain : Scrubber
plain = record { redact = λ s. s; digest = λ s. concat "digest of " s; lower = λ s. s }

abbrev new_log : Log Event
new_log = open_log (λ k. none) (λ d. [])

abbrev prompt_sent : Event
prompt_sent = record {
  seq = 0;
  time = 0;
  level = "info";
  source = "acp";
  name = "acp.prompt.sent";
  job_id = "j1";
  session_id = "";
  turn_id = "";
  state = "";
  view_mode = "";
  input_owner = "";
  busy = none;
  queue_length = none;
  message = "";
  fields = field "prompt" (text "my secret") (field "turn" (text "t1") no_fields);
}

abbrev warned : Event
warned = record prompt_sent { level = "warn"; name = "watchdog.stalled"; fields = no_fields }

new_log-AreNumbered : AreNumbered new_log
unfolding open_log
new_log-AreNumbered key = record {
  few = omega arith;
  within = omega arith;
  enough = inl refl;
  numbered = tt;
}

emit_begin-AreNumbered_example :
    AreNumbered (emit_begin plain 5 prompt_sent new_log).0
    × AreNumbered (remove true "j1" new_log).0
emit_begin-AreNumbered_example =
    emit_begin-AreNumbered plain 5 prompt_sent true "j1" new_log new_log-AreNumbered

new_log-IsWhole : IsWhole same_codec new_log "j1"
unfolding open_log decode_lines scan
new_log-IsWhole = record { fits = tt; counted = refl; numbered = tt; recent = refl }

readable : (e : Event) → IsReadable same_codec e
readable e = record { line = e; encoded = refl; decoded = refl; printed = refl; fits = omega arith }

abbrev no_rotation : Gone
no_rotation = record { traces = λ k. false; days = λ d. false }

abbrev one_event : Log Event
one_event = emitted same_codec plain true 5 prompt_sent new_log no_rotation

abbrev two_events : Log Event
two_events = emitted same_codec plain false 6 warned one_event no_rotation

emit-IsWhole_example :
    IsWhole same_codec one_event "j1"
    × (history same_codec one_event "j1"
        ≡ history same_codec new_log "j1" ++ added same_codec plain true 5 prompt_sent new_log "j1")
emit-IsWhole_example =
    emit-IsWhole same_codec plain true 5 prompt_sent new_log no_rotation "j1" refl refl
      (readable (stored same_codec plain true 5 prompt_sent new_log)) new_log-IsWhole

two_events-IsWhole : IsWhole same_codec two_events "j1"
two_events-IsWhole =
    (emit-IsWhole same_codec plain false 6 warned one_event no_rotation "j1" refl refl
      (readable (stored same_codec plain false 6 warned one_event)) emit-IsWhole_example.0).0

events_after-read_file_example :
    (events_after same_codec two_events "j1" 1 ≡ read_file same_codec two_events "j1" 1)
    × (read_file same_codec two_events "j1" 1 ≡ drop 1 (history same_codec two_events "j1"))
events_after-read_file_example =
    events_after-read_file same_codec two_events "j1" 1 two_events-IsWhole

one_warning : length (pending same_codec two_events "j1" 0 ("warn" ∷ []) [] 0) ≡ 1
unfolding open_log emit write_event emit_begin is_dropped debug_locked record_event stamp trim
    append_file append_trace append_day sanitize_fields sanitize_onto add_text is_payload
    hide_payload put_field byte_length decode_lines scan matches match_name
one_warning = refl

follow-pending_example :
    follow same_codec two_events "j1" 0 ("warn" ∷ []) [] 2 0
    ≡ pending same_codec two_events "j1" 0 ("warn" ∷ []) [] 0
follow-pending_example =
    follow-pending same_codec two_events "j1" 0 ("warn" ∷ []) [] 2 0 refl two_events-IsWhole
      (omega (arith, one_warning))

abbrev old_files : String → Option (List Event)
old_files id = some (prompt_sent ∷ warned ∷ [])

kept_event : is_dropped (open_log old_files (λ d. [])) warned ≡ false
unfolding is_dropped open_log debug_locked
kept_event = refl

reopened_hides_example :
    events_after same_codec (emit_begin plain 9 warned (open_log old_files (λ d. []))).0 "j1" 2 ≡ []
reopened_hides_example =
    reopened_hides same_codec plain old_files (λ d. []) 9 2 warned kept_event (omega arith)

abbrev recorded : Emitted
recorded = (record_event plain 5 prompt_sent new_log).1

no_payloads : (debug_locked new_log "j1").payloads ≡ false
unfolding debug_locked open_log
no_payloads = refl

is_emitted :
    emit_begin plain 5 prompt_sent new_log
    ≡ ((record_event plain 5 prompt_sent new_log).0, some recorded)
unfolding emit_begin is_dropped open_log debug_locked
is_emitted = refl

emit_begin-AreClean_example : AreClean plain recorded.event.fields
emit_begin-AreClean_example =
    emit_begin-AreClean plain 5 prompt_sent new_log (record_event plain 5 prompt_sent new_log).0
      recorded no_payloads is_emitted

-- The prompt's text is gone, and the turn's name is kept.
recorded_fields :
    recorded.event.fields
    ≡ field "prompt_length"
        (Value.number 9)
        (field "prompt_hash" (text "digest of my secret") (field "turn" (text "t1") no_fields))
unfolding record_event open_log debug_locked stamp sanitize_fields sanitize_onto add_text is_payload
    hide_payload put_field byte_length
recorded_fields = refl

abbrev old_file : FileInfo
old_file = record { path = "a"; modified = 1; size = 100 }

abbrev new_file : FileInfo
new_file = record { path = "b"; modified = 604_800_000_000_000; size = 100 }

rotate-IsPruned_example :
    IsPruned 604_800_000_000_002
      (old_file ∷ new_file ∷ [])
      (rotate (λ fs. fs) (λ f. true) 604_800_000_000_002 (old_file ∷ new_file ∷ []))
rotate-IsPruned_example =
    rotate-IsPruned (λ fs. fs) (λ f. true) 604_800_000_000_002 (old_file ∷ new_file ∷ [])
      (λ f. refl) (Permᴰ.cons refl (Permᴰ.cons refl Permᴰ.nil)) (omega arith)

old_file_goes :
    rotate (λ fs. fs) (λ f. true) 604_800_000_000_002 (old_file ∷ new_file ∷ []) ≡ new_file ∷ []
unfolding rotate prune is_over
old_file_goes = refl
