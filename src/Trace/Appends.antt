-- ===== src/Trace/Appends.antt =====
-- An event that `Emit` keeps is appended to the history of its job.
use grok_mcp.Prelude.{
  ℕ, ◌+◌, ◌-◌, ◌≤◌, ◌<◌, String, Bool, true, false, List, [], ◌∷◌, ◌++◌, Option, none, some, ◌≡◌,
  refl, ap, ◌∙◌, sym, arith, subst, ◌==◌, String_eq, if◌then◌else◌, ltb, length, drop,
  length-append, length-drop, All, Bool-cases, inl, inr, eq_false, eq_iff, append-nil,
}
use grok_mcp.Trace.State.{Event, Codec, Log, key_of, lines_of, debug_locked}
use grok_mcp.Trace.Redact.{Scrubber}
use grok_mcp.Trace.Emit.{
  trim, stamp, is_dropped, record_event, emit_begin, append_trace, append_day, append_file, emit,
  write_event, rotated, Gone, Emitted, day_of,
}
use grok_mcp.Trace.Read.{scan, decode_lines}
use grok_mcp.Trace.Sequences.{Consecutive, Consecutive-snoc, drop-drop, drop-snoc}
use grok_mcp.Trace.Whole.{max_line, events_of, AgreeOn, history, IsWhole}

trim_drops : (evs : List Event) → (d : ℕ) × (d ≤ length evs) × (trim evs ≡ drop d evs)
unfolding trim
trim_drops evs = elim (Bool-cases (ltb 5000 (length evs))) [
  | inl long ↦ (length evs - 4000, omega arith, rw long refl)
  | inr short ↦ (0, omega arith, rw short refl)
]

-- What is in memory after one more event, as an end of the history with that event.
recent_snoc :
    (n : ℕ) (mem h : List Event) (e : Event)
    → length h ≡ n
    → mem ≡ drop (n - length mem) h
    → trim (mem ++ (e ∷ [])) ≡ drop (n + 1 - length (trim (mem ++ (e ∷ [])))) (h ++ (e ∷ []))
recent_snoc n mem h e counted recent =
    cut.2
    ∙ ap (drop cut.0) (ap (λ m. m ++ (e ∷ [])) recent ∙ sym (drop-snoc (n - length mem) h e inside))
    ∙ drop-drop cut.0 (n - length mem) (h ++ (e ∷ []))
    ∙ ap (λ k. drop k (h ++ (e ∷ []))) start
  where
    cut :
        (d : ℕ) × (d ≤ length (mem ++ (e ∷ [])))
        × (trim (mem ++ (e ∷ [])) ≡ drop d (mem ++ (e ∷ [])))
    cut = trim_drops (mem ++ (e ∷ []))

    within : length mem ≤ n
    within = omega (arith, ap length recent, length-drop (n - length mem) h)

    inside : n - length mem ≤ length h
    inside = omega arith

    start : n - length mem + cut.0 ≡ n + 1 - length (trim (mem ++ (e ∷ [])))
    start = omega (
      arith,
      within,
      cut.1,
      ap length cut.2,
      length-drop cut.0 (mem ++ (e ∷ [])),
      length-append {0} mem (e ∷ []),
    )

module _ {Line : Type 0} (codec : Codec Line) where
  scan-snoc :
      (ls : List Line) (raw : Line)
      → All (λ line. codec.size line < max_line) ls
      → codec.size raw < max_line
      → scan codec (ls ++ (raw ∷ [])) ≡ scan codec ls ++ (raw ∷ [])
  unfolding scan
  scan-snoc [] raw a h = ground arith
  scan-snoc (l ∷ ls) raw a h = ground (arith, scan-snoc ls raw a.1 h)

  fits-snoc :
      (ls : List Line) (raw : Line)
      → All (λ line. codec.size line < max_line) ls
      → codec.size raw < max_line
      → All (λ line. codec.size line < max_line) (ls ++ (raw ∷ []))
  fits-snoc [] raw a h = (h, tt)
  fits-snoc (l ∷ ls) raw a h = (a.0, fits-snoc ls raw a.1 h)

  -- An event whose line is read back as the event, and is not too long for the scanner.
  pub record IsReadable (e : Event) : Type 0 where
    pub line : Line
    pub encoded : codec.marshal e ≡ some line
    pub decoded : codec.unmarshal line ≡ some e
    pub printed : codec.is_blank line ≡ false
    pub fits : codec.size line < max_line

  decode_lines-snoc :
      (ls : List Line) (raw : Line) (e : Event)
      → codec.unmarshal raw ≡ some e
      → codec.is_blank raw ≡ false
      → decode_lines codec (ls ++ (raw ∷ [])) ≡ decode_lines codec ls ++ (e ∷ [])
  unfolding decode_lines
  decode_lines-snoc [] raw e u b = rw (b, u) refl
  decode_lines-snoc (l ∷ ls) raw e u b = ground (arith, decode_lines-snoc ls raw e u b)

  AgreeOn-snoc :
      (n : ℕ) (mem : List Event) (file : Option (List Line)) (e : Event) (r : IsReadable e)
      → AgreeOn codec n mem file
      → e.seq ≡ n + 1
      → (events_of codec (some (lines_of file ++ (r.line ∷ []))) ≡ events_of codec file ++ (e ∷ []))
        × AgreeOn codec (n + 1) (trim (mem ++ (e ∷ []))) (some (lines_of file ++ (r.line ∷ [])))
  AgreeOn-snoc n mem file e r w h = (
    longer,
    record {
      fits = fits-snoc (lines_of file) r.line w.fits r.fits;
      counted =
          ap length longer
          ∙ omega (arith, length-append {0} (events_of codec file) (e ∷ []), w.counted);
      numbered =
          subst (Consecutive 1) (sym longer)
            (Consecutive-snoc 1 (events_of codec file) e w.numbered (omega (arith, w.counted)));
      recent =
          recent_snoc n mem (events_of codec file) e w.counted w.recent
          ∙ ap (drop (n + 1 - length (trim (mem ++ (e ∷ []))))) (sym longer);
    },
  )
    where
      longer :
          events_of codec (some (lines_of file ++ (r.line ∷ []))) ≡ events_of codec file ++ (e ∷ [])
      longer =
          ap (decode_lines codec) (scan-snoc (lines_of file) r.line w.fits r.fits)
          ∙ decode_lines-snoc (scan codec (lines_of file)) r.line e r.decoded r.printed

  day_fields :
      (ok : Bool) (day : ℕ) (raw : Line) (l : Log Line)
      → ((append_day ok day raw l).seq ≡ l.seq)
        × ((append_day ok day raw l).mem ≡ l.mem)
        × ((append_day ok day raw l).trace_files ≡ l.trace_files)
  unfolding append_day
  day_fields true day raw l = (refl, refl, refl)
  day_fields false day raw l = (refl, refl, refl)

  other_key : (key id : String) → (key == "_") ≡ true → (id == "_") ≡ false → (key == id) ≡ false
  other_key key id y n = eq_false key id λ e. absurd (cc (subst (λ k. (k == "_") ≡ true) e y, n))

  trace_fields :
      (key id : String) (raw : Line) (l : Log Line)
      → (id == "_") ≡ false
      → ((append_trace true key raw l).seq ≡ l.seq)
        × ((append_trace true key raw l).mem ≡ l.mem)
        × ((append_trace true key raw l).trace_files id ≡ (
            if key == id
            then some (lines_of (l.trace_files key) ++ (raw ∷ []))
            else l.trace_files id))
  unfolding append_trace
  trace_fields key id raw l h = elim (Bool-cases (key == "_")) [
    | inl y ↦ rw (y, other_key key id y h) (refl, refl, refl)
    | inr n ↦ rw n (refl, refl, refl)
  ]

  module _ (scrub : Scrubber) (ok_day : Bool) (now : ℕ) (ev : Event) (l : Log Line) where
    -- The event as `Emit` stores it.
    abbrev pub stored : Event
    stored = stamp scrub (debug_locked l ev.job_id).payloads now (l.seq (key_of ev.job_id) + 1) ev

    -- What `Emit` adds to the history of a job.
    abbrev pub added : String → List Event
    added id =
        if is_dropped l ev then [] else if key_of ev.job_id == key_of id then stored ∷ [] else []

    abbrev written : Log Line
    written = (write_event codec scrub true ok_day now ev l).0

    written_as :
        (raw : Line)
        → is_dropped l ev ≡ false
        → codec.marshal stored ≡ some raw
        → written
          ≡ append_day ok_day
              (day_of stored.time)
              raw
              (append_trace true (key_of ev.job_id) raw (record_event scrub now ev l).0)
    unfolding write_event emit_begin record_event append_file
    written_as raw k m =
        rw (k, written, write_event, emit_begin) (rw (m, append_file) (rw (k, emit_begin) refl))

    written_fields :
        (id : String) (raw : Line)
        → (key_of id == "_") ≡ false
        → is_dropped l ev ≡ false
        → codec.marshal stored ≡ some raw
        → (written.seq (key_of id) ≡ (
            if key_of ev.job_id == key_of id
            then l.seq (key_of ev.job_id) + 1
            else l.seq (key_of id)))
          × (written.mem (key_of id) ≡ (
              if key_of ev.job_id == key_of id
              then trim (l.mem (key_of ev.job_id) ++ (stored ∷ []))
              else l.mem (key_of id)))
          × (written.trace_files (key_of id) ≡ (
              if key_of ev.job_id == key_of id
              then some (lines_of (l.trace_files (key_of ev.job_id)) ++ (raw ∷ []))
              else l.trace_files (key_of id)))
    unfolding record_event
    written_fields id raw h k m =
        let between = append_trace true (key_of ev.job_id) raw (record_event scrub now ev l).0 in
        let days = day_fields ok_day (day_of stored.time) raw between in
        let traces =
          trace_fields (key_of ev.job_id) (key_of id) raw (record_event scrub now ev l).0 h in
        rw (written_as raw k m)
          (at (days.0 ∙ traces.0), at (days.1 ∙ traces.1), at days.2 ∙ traces.2)
      where
        at : {A : Type 0} {f g : String → A} → f ≡ g → f (key_of id) ≡ g (key_of id)
        at e = ap (λ f. f (key_of id)) e

    written_dropped : is_dropped l ev ≡ true → written ≡ l
    unfolding write_event emit_begin
    written_dropped h = rw (h, written, write_event, emit_begin) (rw (h, emit_begin) refl)

    -- The same for an event of the job itself, before the new fields are put in.
    own_event :
        (id : String) (r : IsReadable stored)
        → key_of ev.job_id ≡ key_of id
        → IsWhole codec l id
        → (events_of codec (some (lines_of (l.trace_files (key_of ev.job_id)) ++ (r.line ∷ [])))
            ≡ history codec l id ++ (stored ∷ []))
          × AgreeOn codec
              (l.seq (key_of ev.job_id) + 1)
              (trim (l.mem (key_of ev.job_id) ++ (stored ∷ [])))
              (some (lines_of (l.trace_files (key_of ev.job_id)) ++ (r.line ∷ [])))
    unfolding stamp
    own_event id r e w =
        let own =
          AgreeOn-snoc (l.seq k) (l.mem k) (l.trace_files k) stored r
            (subst (λ j. AgreeOn codec (l.seq j) (l.mem j) (l.trace_files j)) (sym e) w) refl in
        (own.0 ∙ ap (λ j. events_of codec (l.trace_files j) ++ (stored ∷ [])) e, own.1)
      where
        k : String
        k = key_of ev.job_id

    -- What `Emit` does up to `rotate`.
    written-IsWhole :
        (id : String)
        → (key_of id == "_") ≡ false
        → IsReadable stored
        → IsWhole codec l id
        → IsWhole codec written id × (history codec written id ≡ history codec l id ++ added id)
    written-IsWhole id h r w = elim (Bool-cases (is_dropped l ev)) [
      | inl dropped ↦
          rw (written_dropped dropped, dropped) (w, sym (append-nil (history codec l id)))
      | inr kept ↦
          let fields = written_fields id r.line h kept r.encoded in
          elim (Bool-cases (key_of ev.job_id == key_of id)) [
            | inl same ↦
                let own = own_event id r ((eq_iff (key_of ev.job_id) (key_of id)).0 same) w in
                rw (fields.0, fields.1, fields.2, kept, same) (own.1, own.0)
            | inr other ↦
                rw (fields.0, fields.1, fields.2, kept, other)
                  (w, sym (append-nil (history codec l id)))
          ]
    ]

    abbrev pub emitted : Gone → Log Line
    emitted gone = (emit codec scrub gone true ok_day now ev l).0

    -- A file that `rotate` leaves is as it was written.
    emitted_fields :
        (gone : Gone) (key : String)
        → gone.traces key ≡ false
        → ((emitted gone).seq key ≡ written.seq key)
          × ((emitted gone).mem key ≡ written.mem key)
          × ((emitted gone).trace_files key ≡ written.trace_files key)
    unfolding emit
    emitted_fields gone key h = go (write_event codec scrub true ok_day now ev l)
      where
        go :
            (r : Log Line × Option Emitted)
            → let x : Log Line =
                (elim r.1 as (λ _. Log Line × Option Emitted) [
                  | none ↦ (r.0, none)
                  | some e ↦ (if e.rotates then rotated gone r.0 else r.0, some e)
                ]).0 in
              (x.seq key ≡ r.0.seq key)
              × (x.mem key ≡ r.0.mem key)
              × (x.trace_files key ≡ r.0.trace_files key)
        go (x, none) = (refl, refl, refl)
        go (x, some e) = elim (Bool-cases e.rotates) [
          | inl y ↦ rw (y, h) (refl, refl, refl)
          | inr n ↦ rw n (refl, refl, refl)
        ]

    -- `Emit`, with no other call between its parts, keeps the file of a job whole where its call of
    -- `rotate` does not remove that file, for every job but the one that stands for none, whether or
    -- not the log of the day can be written, where the trace file can be written and the event's line
    -- can be read back; and the job's history grows by the event, where it is one of the job's and is
    -- not dropped.
    pub emit-IsWhole :
        (gone : Gone) (id : String)
        → gone.traces (key_of id) ≡ false
        → (key_of id == "_") ≡ false
        → IsReadable stored
        → IsWhole codec l id
        → IsWhole codec (emitted gone) id
          × (history codec (emitted gone) id ≡ history codec l id ++ added id)
    emit-IsWhole gone id g h r w =
        let f = emitted_fields gone (key_of id) g in rw (f.0, f.1, f.2) (written-IsWhole id h r w)
