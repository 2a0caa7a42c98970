-- ===== src/Trace/Reader.antt =====
-- A reader of `Snapshot` that goes on at the cursor of its last snapshot gets the whole history.
use grok_mcp.Prelude.{
  ℕ, zero, suc, ◌≤◌, ◌<◌, String, List, [], ◌∷◌, ◌++◌, ◌≡◌, refl, ap, ◌∙◌, sym, arith, keep, length,
  drop, length-append, ◌⊎◌, inl, inr,
}
use grok_mcp.Trace.State.{Event, Codec, Log, key_of, max_limit}
use grok_mcp.Trace.Read.{Snapshot, collect, snapshot, snapshot_limit, matches, events_after}
use grok_mcp.Trace.Whole.{history, IsWhole, events_after-read_file}
use grok_mcp.Trace.Follow.{collect_none, collect_bound, snapshot_limit_bound, page_rest}

module _ {Line : Type 0} (codec : Codec Line) (l : Log Line) (id : String) (limit : ℕ)
    (levels sources : List String) where
  -- The events of the job after a cursor that the reader asks for.
  abbrev pub pending : ℕ → List Event
  pending cursor = keep (matches levels sources) (drop cursor (history codec l id))

  abbrev page : ℕ → Snapshot
  page cursor = snapshot codec l id cursor limit levels sources

  -- A snapshot of a job whose file is whole is the next page of what the reader asked for: the
  -- events after the cursor that match are the snapshot's and then those after the snapshot's
  -- cursor, so none is skipped or given twice. It has at most 1000 events, and one at least if any
  -- is left.
  pub snapshot_page :
      (cursor : ℕ)
      → key_of id ≡ id
      → IsWhole codec l id
      → (pending cursor ≡ (page cursor).events ++ pending (page cursor).cursor)
        × (length (page cursor).events ≤ max_limit)
        × ((0 < length (page cursor).events) ⊎ (pending cursor ≡ []))
  unfolding snapshot
  snapshot_page cursor e w = (
    page_rest codec l id cursor (snapshot_limit limit) (matches levels sources) taken e w
        (ap (collect codec (matches levels sources) (snapshot_limit limit) 0 0) source),
    omega (
      arith,
      collect_bound codec (matches levels sources) (snapshot_limit limit) 0 0
          (events_after codec l id cursor) (snapshot_limit_bound limit).0,
      snapshot_limit_bound limit,
    ),
    some_or_none taken refl,
  )
    where
      taken : List Event
      taken =
          collect codec (matches levels sources) (snapshot_limit limit) 0 0
            (events_after codec l id cursor)

      source : events_after codec l id cursor ≡ drop cursor (history codec l id)
      source =
          (events_after-read_file codec l id cursor w).0
          ∙ (events_after-read_file codec l id cursor w).1

      some_or_none : (c : List Event) → taken ≡ c → (0 < length c) ⊎ (pending cursor ≡ [])
      some_or_none (f ∷ c) q = inl (omega arith)
      some_or_none [] q = inr (
          ap (keep (matches levels sources)) (sym source)
          ∙ collect_none codec (matches levels sources) (snapshot_limit limit) 0
              (events_after codec l id cursor) q)

  -- The events of that many snapshots, each at the cursor of the one before.
  abbrev pub follow : ℕ → ℕ → List Event
  follow zero cursor = []
  follow (suc n) cursor = (page cursor).events ++ follow n (page cursor).cursor

  -- A reader that goes on at the cursor of its last snapshot has, after as many snapshots as there
  -- are matching events, every matching event after its first cursor, once and in order. This is
  -- for a job with a key of its own whose file is whole, while nothing is added to the log.
  pub follow-pending :
      (n cursor : ℕ)
      → key_of id ≡ id
      → IsWhole codec l id
      → length (pending cursor) ≤ n
      → follow n cursor ≡ pending cursor
  follow-pending zero cursor e w h = none_left (pending cursor) h
    where
      none_left : (evs : List Event) → length evs ≤ 0 → [] ≡ evs
      none_left [] q = refl
      none_left (f ∷ evs) q = absurd (omega arith)
  follow-pending (suc n) cursor e w h =
      let next = snapshot_page cursor e w in
      ap (λ evs. (page cursor).events ++ evs)
        (follow-pending n (page cursor).cursor e w
          (shorter (page cursor).events (pending (page cursor).cursor) next.0 next.2))
      ∙ sym next.0
    where
      shorter :
          (taken rest : List Event)
          → pending cursor ≡ taken ++ rest
          → (0 < length taken) ⊎ (pending cursor ≡ [])
          → length rest ≤ n
      shorter taken rest q (inl some_taken) =
          omega (arith, h, ap length q, length-append {0} taken rest)
      shorter taken rest q (inr none_left) =
          omega (arith, ap length none_left, ap length q, length-append {0} taken rest)
