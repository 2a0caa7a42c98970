-- ===== src/Trace/Emit.antt =====
-- internal/trace/log.go: `Emit`, `Remove` and subscriptions. `Emit` is in two parts, what it does
-- under the lock and the writing of files after it; other calls may run between the two.
use grok_mcp.Prelude.{
  ℕ, ◌+◌, ◌-◌, ◌/◌, ◌%◌, String, Bool, true, false, not, ◌&&◌, List, [], ◌∷◌, ◌++◌, Option, none,
  some, ◌==◌, ◌!=◌, ℕ_eq, String_eq, if◌then◌else◌, ltb, keep, length, drop,
}
use grok_mcp.Trace.State.{Event, Codec, Log, no_debug, set, key_of, lines_of, debug_locked}
use grok_mcp.Trace.Redact.{Scrubber, sanitize_fields}

-- What `Emit` has when it gives up the lock: the event to write, under its key, whom to tell, and
-- whether to rotate the files.
pub record Emitted : Type 0 where
  pub key : String
  pub event : Event
  pub listeners : List ℕ
  pub rotates : Bool

-- The files that `rotate` removes, as Trace/Rotate has it: traces by their jobs' keys, and the logs
-- of days.
pub record Gone : Type 0 where
  pub traces : String → Bool
  pub days : ℕ → Bool

-- The newest events in memory: 4000 of them, once there are more than 5000.
unfoldable pub trim : List Event → List Event
trim evs = if ltb 5000 (length evs) then drop (length evs - 4000) evs else evs

-- The event as it is stored: its level, time, number and fields filled in.
unfoldable pub stamp : Scrubber → Bool → ℕ → ℕ → Event → Event
unfolding sanitize_fields
stamp scrub payloads now n ev = record ev {
  level = if ev.level == "" then "info" else ev.level;
  time = if ev.time == 0 then now else ev.time;
  seq = n;
  fields = sanitize_fields scrub payloads ev.fields;
}

-- The day of a time, in UTC.
abbrev pub day_of : ℕ → ℕ
day_of t = t / 86_400_000_000_000

module _ {Line : Type 0} where
  -- Whether `Emit` returns at once: a closed log, or a debug event where debugging is off.
  unfoldable pub is_dropped : Log Line → Event → Bool
  unfolding debug_locked
  is_dropped l ev =
      if l.closed then true else ev.level == "debug" && not (debug_locked l ev.job_id).enabled

  -- What `Emit` does under the lock, to an event that it keeps.
  unfoldable pub record_event : Scrubber → ℕ → Event → Log Line → Log Line × Emitted
  unfolding debug_locked stamp trim
  record_event scrub now ev l =
      let key = key_of ev.job_id in
      let n = l.seq key + 1 in
      let e = stamp scrub (debug_locked l ev.job_id).payloads now n ev in
      (
        record l {
          seq = set l.seq key n;
          mem = set l.mem key (trim (l.mem key ++ (e ∷ [])));
          writes = l.writes + 1;
        },
        record { key = key; event = e; listeners = l.subs; rotates = (l.writes + 1) % 64 == 0 },
      )

  -- `Emit`, from lock to unlock.
  unfoldable pub emit_begin : Scrubber → ℕ → Event → Log Line → Log Line × Option Emitted
  unfolding is_dropped record_event
  emit_begin scrub now ev l =
      if is_dropped l ev
      then (l, none)
      else let (l', e) = record_event scrub now ev l in (l', some e)

  -- `noteWriteFail`
  abbrev pub note_write_fail : Log Line → Log Line
  note_write_fail l = record l { write_fails = l.write_fails + 1 }

  -- The write of a line to the trace file of a job. A write that fails changes no file.
  unfoldable pub append_trace : Bool → String → Line → Log Line → Log Line
  append_trace ok key raw l =
      if key != "_"
      then if ok
        then record l {
          trace_files = set l.trace_files key (some (lines_of (l.trace_files key) ++ (raw ∷ [])));
        }
        else note_write_fail l
      else l

  -- The write of a line to the log of a day.
  unfoldable pub append_day : Bool → ℕ → Line → Log Line → Log Line
  append_day ok day raw l =
      if ok
      then record l {
        day_logs = λ d. if d == day then l.day_logs d ++ (raw ∷ []) else l.day_logs d;
      }
      else note_write_fail l

  -- `appendFile`; `ok_trace` and `ok_day` say whether the two files can be written.
  unfoldable pub append_file : Codec Line → Bool → Bool → Emitted → Log Line → Log Line
  unfolding append_trace append_day
  append_file codec ok_trace ok_day e l = elim (codec.marshal e.event) [
    | none ↦ note_write_fail l
    | some raw ↦ append_day ok_day (day_of e.event.time) raw (append_trace ok_trace e.key raw l)
  ]

  -- `Emit` up to `rotate`, with nothing between its parts.
  unfoldable pub write_event :
      Codec Line → Scrubber → Bool → Bool → ℕ → Event → Log Line → Log Line × Option Emitted
  unfolding emit_begin append_file
  write_event codec scrub ok_trace ok_day now ev l =
      let (l', o) = emit_begin scrub now ev l in
      elim o [ none ↦ (l', none) | some e ↦ (append_file codec ok_trace ok_day e l', some e) ]

  -- The call of `rotate`, which removes files.
  abbrev pub rotated : Gone → Log Line → Log Line
  rotated gone l = record l {
    trace_files = λ k. if gone.traces k then none else l.trace_files k;
    day_logs = λ d. if gone.days d then [] else l.day_logs d;
  }

  -- `Emit`, with nothing between its parts; `gone` says what its call of `rotate` removes, if it makes
  -- one.
  unfoldable pub emit :
      Codec Line → Scrubber → Gone → Bool → Bool → ℕ → Event → Log Line → Log Line × Option Emitted
  unfolding write_event
  emit codec scrub gone ok_trace ok_day now ev l =
      let (l', o) = write_event codec scrub ok_trace ok_day now ev l in
      elim o [ none ↦ (l', none) | some e ↦ (if e.rotates then rotated gone l' else l', some e) ]

  -- `Subscribe`, which returns the number of the subscription.
  unfoldable pub subscribe : Log Line → Log Line × ℕ
  subscribe l =
      let id = l.sub_seq + 1 in (record l { sub_seq = id; subs = l.subs ++ (id ∷ []) }, id)

  -- The function that `Subscribe` returns.
  unfoldable pub unsubscribe : ℕ → Log Line → Log Line
  unsubscribe id l = record l { subs = keep (λ k. k != id) l.subs }

  -- `Remove`; `ok` says whether the file can be removed. The result says whether there is no error.
  unfoldable pub remove : Bool → String → Log Line → Log Line × Bool
  remove ok id l =
      let l' = record l {
        seq = set l.seq id 0;
        mem = set l.mem id [];
        dbg = set l.dbg id no_debug;
        override = set l.override id false;
      } in
      elim (l.trace_files (key_of id)) [
        | none ↦ (l', true)
        | some ls ↦
            if ok
            then (record l' { trace_files = set l.trace_files (key_of id) none }, true)
            else (l', false)
      ]
