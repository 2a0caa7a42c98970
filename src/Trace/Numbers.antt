-- ===== src/Trace/Numbers.antt =====
-- The numbers of the events in memory, under every operation on the log.
use grok_mcp.Prelude.{
  ℕ, ◌+◌, ◌-◌, ◌≤◌, String, Bool, true, false, List, [], ◌∷◌, ◌++◌, ◌≡◌, refl, arith, ◌==◌,
  String_eq, if◌then◌else◌, ltb, length, drop, length-append, length-drop, ◌⊎◌, inl, inr,
  Bool-cases, Option-cases,
}
use grok_mcp.Trace.State.{Event, Log, key_of}
use grok_mcp.Trace.Redact.{Scrubber}
use grok_mcp.Trace.Emit.{trim, stamp, is_dropped, record_event, emit_begin, remove}
use grok_mcp.Trace.Sequences.{Consecutive, Consecutive-snoc, Consecutive-drop, Consecutive-at}

-- What is in memory under a key whose newest event has the number `n`: at most 5000 events, the
-- newest ones, numbered up to `n`, all of them or at least 4000.
pub record AreNewest (n : ℕ) (evs : List Event) : Type 0 where
  pub few : length evs ≤ 5000
  pub within : length evs ≤ n
  pub enough : (length evs ≡ n) ⊎ (4000 ≤ length evs)
  pub numbered : Consecutive (n + 1 - length evs) evs

trim-AreNewest :
    (n : ℕ) (evs : List Event)
    → length evs ≤ 5001
    → length evs ≤ n
    → (length evs ≡ n) ⊎ (4000 ≤ length evs)
    → Consecutive (n + 1 - length evs) evs
    → AreNewest n (trim evs)
unfolding trim
trim-AreNewest n evs few within enough c = elim (Bool-cases (ltb 5000 (length evs))) [
  | inl long ↦ rw long (record {
    few = ground (arith, long, length-drop (length evs - 4000) evs);
    within = ground (arith, long, length-drop (length evs - 4000) evs);
    enough = inr (ground (arith, long, length-drop (length evs - 4000) evs));
    numbered =
        Consecutive-at (drop (length evs - 4000) evs)
          (ground (arith, long, length-drop (length evs - 4000) evs))
          (Consecutive-drop (length evs - 4000) (n + 1 - length evs) evs c);
  })
  | inr short ↦
      rw short (record { few = ground arith; within = within; enough = enough; numbered = c })
]

snoc-AreNewest :
    (n : ℕ) (evs : List Event) (e : Event)
    → AreNewest n evs
    → e.seq ≡ n + 1
    → AreNewest (n + 1) (trim (evs ++ (e ∷ [])))
snoc-AreNewest n evs e v h =
    trim-AreNewest (n + 1) (evs ++ (e ∷ [])) (omega (arith, len, v.few))
      (omega (arith, len, v.within)) (ground (arith, len, v.enough))
      (Consecutive-at (evs ++ (e ∷ [])) (omega (arith, len, v.within))
        (Consecutive-snoc (n + 1 - length evs) evs e v.numbered (omega (arith, h, v.within))))
  where
    len : length (evs ++ (e ∷ [])) ≡ length evs + 1
    len = omega (arith, length-append {0} evs (e ∷ []))

module _ {Line : Type 0} where
  abbrev pub AreNumbered : Log Line → Type 0
  AreNumbered l = (key : String) → AreNewest (l.seq key) (l.mem key)

  record_event-AreNumbered :
      (scrub : Scrubber) (now : ℕ) (ev : Event) (l : Log Line)
      → AreNumbered l
      → AreNumbered (record_event scrub now ev l).0
  unfolding record_event stamp
  record_event-AreNumbered scrub now ev l v key = elim (Bool-cases (key_of ev.job_id == key)) [
    | inl same ↦ rw same (snoc-AreNewest _ _ _ (v (key_of ev.job_id)) refl)
    | inr other ↦ rw other (v key)
  ]

  remove_fields :
      (ok : Bool) (id key : String) (l : Log Line)
      → ((remove ok id l).0.seq key ≡ (if id == key then 0 else l.seq key))
        × ((remove ok id l).0.mem key ≡ (if id == key then [] else l.mem key))
  unfolding remove
  remove_fields ok id key l = elim (Option-cases (l.trace_files (key_of id))) [
    | inl gone ↦ rw (gone, remove) (refl, refl)
    | inr (ls, there) ↦ elim (Bool-cases ok) [
      | inl y ↦ rw (there, y, remove) (refl, refl)
      | inr n ↦ rw (there, n, remove) (refl, refl)
    ]
  ]

  remove-AreNumbered :
      (ok : Bool) (id : String) (l : Log Line) → AreNumbered l → AreNumbered (remove ok id l).0
  remove-AreNumbered ok id l v key =
      rw ((remove_fields ok id key l).0, (remove_fields ok id key l).1) (kept (id == key))
    where
      kept : (b : Bool) → AreNewest (if b then 0 else l.seq key) (if b then [] else l.mem key)
      kept true = record {
        few = omega arith;
        within = omega arith;
        enough = inl refl;
        numbered = tt;
      }
      kept false = v key

  -- `Emit`, from lock to unlock, keeps what is in memory under every key: at most 5000 events, the
  -- newest ones, numbered one after the other up to the key's counter, and all of them or at least
  -- 4000. So does `Remove`, whether or not the file can be removed.
  pub emit_begin-AreNumbered :
      (scrub : Scrubber) (now : ℕ) (ev : Event) (ok : Bool) (id : String) (l : Log Line)
      → AreNumbered l
      → AreNumbered (emit_begin scrub now ev l).0 × AreNumbered (remove ok id l).0
  unfolding emit_begin
  emit_begin-AreNumbered scrub now ev ok id l v = (
    elim (Bool-cases (is_dropped l ev)) [
      | inl dropped ↦ rw dropped v
      | inr kept ↦ rw kept (record_event-AreNumbered scrub now ev l v)
    ],
    remove-AreNumbered ok id l v,
  )
