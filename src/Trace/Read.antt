-- ===== src/Trace/Read.antt =====
-- internal/trace/log.go: the readers, `Cursor`, `Snapshot` and `Wait`.
use grok_mcp.Prelude.{
  ℕ, ◌+◌, ◌*◌, String, Bool, true, false, ◌&&◌, ◌||◌, List, [], ◌∷◌, none, some, ◌==◌, ℕ_eq,
  String_eq, if◌then◌else◌, ltb, leb, keep, any,
}
use grok_mcp.Trace.State.{
  Event, Codec, Log, key_of, boundary, max_snapshot_bytes, default_limit, max_limit,
}

-- `trace.Snapshot`
pub record Snapshot : Type 0 where
  pub job_id : String
  pub cursor : ℕ
  pub events : List Event

-- The events after a number.
abbrev pub after : ℕ → List Event → List Event
after cursor evs = keep (λ e. ltb cursor e.seq) evs

-- The number of the last event, 0 if there is none.
abbrev pub last_seq : ℕ → List Event → ℕ
last_seq n [] = n
last_seq n (e ∷ evs) = last_seq e.seq evs

-- `matchLevel` and `matchSource`: no names match all.
unfoldable pub match_name : String → List String → Bool
match_name name [] = true
match_name name (n ∷ ns) = any (λ k. k == name) (n ∷ ns)

unfoldable pub matches : List String → List String → Event → Bool
unfolding match_name
matches levels sources ev = match_name ev.level levels && match_name ev.source sources

-- The limit that `Snapshot` uses; one that is not positive is 0 here.
unfoldable pub snapshot_limit : ℕ → ℕ
snapshot_limit limit =
    if limit == 0 then default_limit else if ltb max_limit limit then max_limit else limit

module _ {Line : Type 0} (codec : Codec Line) where
  -- What a scanner with a buffer of 4 MiB gives: it stops at a line that does not fit.
  unfoldable pub scan : List Line → List Line
  scan [] = []
  scan (line ∷ rest) = if leb (4 * 1024 * 1024) (codec.size line) then [] else line ∷ scan rest

  -- The events of lines; blank lines and those that are no event are passed over.
  unfoldable pub decode_lines : List Line → List Event
  decode_lines [] = []
  decode_lines (line ∷ rest) =
      if codec.is_blank line then decode_lines rest else elim (codec.unmarshal line) [
        | none ↦ decode_lines rest
        | some ev ↦ ev ∷ decode_lines rest
      ]

  -- `readFile`
  unfoldable pub read_file : Log Line → String → ℕ → List Event
  unfolding scan decode_lines
  read_file l id cursor = elim (l.trace_files (key_of id)) [
    | none ↦ []
    | some ls ↦ after cursor (decode_lines (scan ls))
  ]

  -- Whether what is in memory goes back to the cursor.
  unfoldable pub reaches : ℕ → List Event → Bool
  reaches cursor [] = false
  reaches cursor (e ∷ evs) = leb e.seq (cursor + 1)

  -- `eventsAfter`: from memory where it goes back far enough, and else from the file.
  unfoldable pub events_after : Log Line → String → ℕ → List Event
  unfolding read_file reaches
  events_after l id cursor =
      if reaches cursor (l.mem (key_of id))
      then after cursor (l.mem (key_of id))
      else read_file l id cursor

  -- `Cursor`
  unfoldable pub cursor_of : Log Line → String → ℕ
  unfolding read_file
  cursor_of l id = if ltb 0 (l.seq id) then l.seq id else last_seq 0 (read_file l id 0)

  -- The length of an event's JSON; one that cannot be encoded counts nothing.
  unfoldable pub weight : Event → ℕ
  weight ev = elim (codec.marshal ev) [ none ↦ 0 | some raw ↦ codec.size raw ]

  -- The loop of `Snapshot` with `n` events and `bytes` bytes taken.
  unfoldable pub collect : (Event → Bool) → ℕ → ℕ → ℕ → List Event → List Event
  unfolding weight
  collect wanted limit n bytes [] = []
  collect wanted limit n bytes (ev ∷ rest) = elim (wanted ev) [
    | false ↦ collect wanted limit n bytes rest
    | true ↦ elim (ltb max_snapshot_bytes (bytes + weight ev) && ltb 0 n) [
      | true ↦ []
      | false ↦ elim (leb limit (n + 1)) [
        | true ↦ ev ∷ []
        | false ↦ ev ∷ collect wanted limit (n + 1) (bytes + weight ev + 1) rest
      ]
    ]
  ]

  -- Where the reader of a snapshot goes on: after its last event, or at the end of the log.
  unfoldable pub next_cursor : Log Line → String → ℕ → List Event → ℕ
  unfolding cursor_of
  next_cursor l id cursor [] = if ltb cursor (cursor_of l id) then cursor_of l id else cursor
  next_cursor l id cursor (e ∷ evs) = last_seq 0 (e ∷ evs)

  -- `Snapshot`
  unfoldable pub snapshot : Log Line → String → ℕ → ℕ → List String → List String → Snapshot
  unfolding collect next_cursor events_after snapshot_limit matches
  snapshot l id cursor limit levels sources =
      let evs =
        collect (matches levels sources) (snapshot_limit limit) 0 0 (events_after l id cursor) in
      record { job_id = id; cursor = next_cursor l id cursor evs; events = evs }

-- `matchUntil`
unfoldable pub match_until : String → Event → Bool
unfolding boundary
match_until until ev =
    if until == "error"
    then ev.level == "error"
    else if until == "warning"
    then ev.level == "warn" || ev.level == "error"
    else if until == "boundary"
    then boundary ev
    else true

-- `hasUntil`
unfoldable pub has_until : String → List Event → Bool
unfolding match_until
has_until until evs = any (match_until until) evs

-- The events up to the first that passes the test.
unfoldable pub up_to : (Event → Bool) → List Event → List Event
up_to p [] = []
up_to p (e ∷ evs) = e ∷ (if p e then [] else up_to p evs)

-- `filterUntil`
unfoldable pub filter_until : String → Snapshot → Snapshot
unfolding has_until match_until up_to
filter_until until snap =
    if until == "any"
    then snap
    else if has_until until snap.events
    then (let evs = up_to (match_until until) snap.events in
        record snap { events = evs; cursor = last_seq 0 evs })
    else snap

module _ {Line : Type 0} (codec : Codec Line) where
  -- The loop of `Wait`: `wakes` has the log at each wake-up before the time is over, and `late` is
  -- the log when it is.
  unfoldable pub wait_loop : String → ℕ → String → List (Log Line) → Log Line → Snapshot
  unfolding snapshot has_until filter_until
  wait_loop id cursor until [] late = snapshot codec late id cursor default_limit [] []
  wait_loop id cursor until (l ∷ wakes) late =
      let snap = snapshot codec l id cursor default_limit [] [] in
      let rest = wait_loop id cursor until wakes late in
      if has_until until snap.events then filter_until until snap else rest

  -- `Wait`; `l` is the log at the call, which is looked at first.
  unfoldable pub wait : String → ℕ → String → Log Line → List (Log Line) → Log Line → Snapshot
  unfolding wait_loop
  wait id cursor until l wakes late =
      wait_loop id cursor (if until == "" then "any" else until) (l ∷ wakes) late
