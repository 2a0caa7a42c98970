-- ===== src/Trace/Whole.antt =====
-- The file of a job holds the whole history of its events, and memory the end of it.
use grok_mcp.Prelude.{
  ℕ, ◌+◌, ◌-◌, ◌*◌, ◌<◌, String, true, List, [], ◌∷◌, Option, ◌≡◌, refl, ap, ◌∙◌, sym, arith, subst,
  length, drop, All, Bool-cases, Option-cases, inl, inr,
}
use grok_mcp.Trace.State.{Event, Codec, Log, key_of, lines_of}
use grok_mcp.Trace.Read.{after, scan, decode_lines, read_file, reaches, events_after}
use grok_mcp.Trace.Sequences.{Consecutive, Consecutive-drop, after_start, after_cut}

-- The longest line that the scanner takes, with its newline.
abbrev pub max_line : ℕ
max_line = 4 * 1024 * 1024

module _ {Line : Type 0} (codec : Codec Line) where
  -- The events that a file holds.
  abbrev pub events_of : Option (List Line) → List Event
  events_of file = decode_lines codec (scan codec (lines_of file))

  -- A file holds all events up to the counter `n`, numbered from 1, and memory the newest of them.
  pub record AgreeOn (n : ℕ) (mem : List Event) (file : Option (List Line)) : Type 0 where
    pub fits : All (λ line. codec.size line < max_line) (lines_of file)
    pub counted : length (events_of file) ≡ n
    pub numbered : Consecutive 1 (events_of file)
    pub recent : mem ≡ drop (n - length mem) (events_of file)

  -- The events that the file of a job holds.
  abbrev pub history : Log Line → String → List Event
  history l id = events_of (l.trace_files (key_of id))

  abbrev pub IsWhole : Log Line → String → Type 0
  IsWhole l id = AgreeOn (l.seq (key_of id)) (l.mem (key_of id)) (l.trace_files (key_of id))

  mem_after :
      (d cursor : ℕ) (h mem : List Event)
      → Consecutive 1 h
      → mem ≡ drop d h
      → reaches codec cursor mem ≡ true
      → after cursor mem ≡ drop cursor h
  unfolding reaches
  mem_after d cursor h [] c e r = absurd (cc r)
  mem_after d cursor h (f ∷ mem) c e r =
      ap (after cursor) e ∙ after_cut d cursor h (ground (arith, at_d)) c
    where
      at_d : Consecutive (1 + d) (f ∷ mem)
      at_d = subst (Consecutive (1 + d)) (sym e) (Consecutive-drop d 1 h c)

  read_file-history :
      (l : Log Line) (id : String) (cursor : ℕ)
      → read_file codec l id cursor ≡ after cursor (history l id)
  unfolding read_file scan decode_lines
  read_file-history l id cursor = elim (Option-cases (l.trace_files (key_of id))) [
    | inl gone ↦ rw (gone, read_file) refl
    | inr (ls, there) ↦ rw (there, read_file) refl
  ]

  -- Whether events are read from memory or from the file makes no difference: where the file of the
  -- job is whole, `eventsAfter` gives what the file holds after the cursor, and this is the job's
  -- history without as many events as the cursor says.
  pub events_after-read_file :
      (l : Log Line) (id : String) (cursor : ℕ)
      → IsWhole l id
      → (events_after codec l id cursor ≡ read_file codec l id cursor)
        × (read_file codec l id cursor ≡ drop cursor (history l id))
  unfolding events_after
  events_after-read_file l id cursor w =
      elim (Bool-cases (reaches codec cursor (l.mem (key_of id)))) [
        | inl r ↦ (
          rw r (
              mem_after (l.seq (key_of id) - length (l.mem (key_of id))) cursor (history l id)
                (l.mem (key_of id)) w.numbered w.recent r
              ∙ sym from_file),
          from_file,
        )
        | inr r ↦ (rw r refl, from_file)
      ]
    where
      from_file : read_file codec l id cursor ≡ drop cursor (history l id)
      from_file = read_file-history l id cursor ∙ after_start cursor (history l id) w.numbered
