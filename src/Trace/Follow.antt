-- ===== src/Trace/Follow.antt =====
-- A reader that goes on at the cursor of its last snapshot.
use grok_mcp.Prelude.{
  ℕ, ◌+◌, ◌≤◌, ◌<◌, String, Bool, true, false, ◌&&◌, List, [], ◌∷◌, ◌++◌, ◌≡◌, refl, ap, ◌∙◌, sym,
  arith, subst, String_eq, ltb, leb, keep, length, drop, Bool-cases, inl, inr, ◌⊎◌,
}
use grok_mcp.Trace.State.{Event, Codec, Log, key_of, max_snapshot_bytes, max_limit}
use grok_mcp.Trace.Read.{after, last_seq, collect, cursor_of, next_cursor, snapshot_limit, weight}
use grok_mcp.Trace.Sequences.{Consecutive, Consecutive-drop, after_all, after_cut, drop_all}
use grok_mcp.Trace.Whole.{history, IsWhole}

module _ {Line : Type 0} (codec : Codec Line) (wanted : Event → Bool) (limit : ℕ) where
  -- What the loop of `Snapshot` does with an event: it passes it over, stops before it, stops after
  -- it, or takes it and goes on.
  collect_cases :
      (n bytes : ℕ) (e : Event) (evs : List Event)
      → ((wanted e ≡ false)
          × (collect codec wanted limit n bytes (e ∷ evs) ≡ collect codec wanted limit n bytes evs))
        ⊎ ((wanted e ≡ true)
            × (((0 < n) × (collect codec wanted limit n bytes (e ∷ evs) ≡ []))
                ⊎ ((collect codec wanted limit n bytes (e ∷ evs) ≡ e ∷ [])
                    ⊎ ((n + 1 < limit)
                        × (collect codec wanted limit n bytes (e ∷ evs)
                            ≡ e
                              ∷ collect codec wanted limit
                                  (n + 1)
                                  (bytes + weight codec e + 1)
                                  evs)))))
  unfolding collect
  collect_cases n bytes e evs = elim (Bool-cases (wanted e)) [
    | inl w ↦ inr (
      w,
      elim (Bool-cases (ltb max_snapshot_bytes (bytes + weight codec e) && ltb 0 n)) [
        | inl full ↦ inl (ground arith, rw (w, collect) (rw full refl))
        | inr room ↦ inr (elim (Bool-cases (leb limit (n + 1))) [
          | inl last ↦ inl (rw (w, collect) (rw room (rw last refl)))
          | inr more ↦ inr (ground arith, rw (w, collect) (rw room (rw more refl)))
        ])
      ],
    )
    | inr u ↦ inl (u, rw (u, collect) refl)
  ]

  last_seq-ge :
      (n bytes d k : ℕ) (evs : List Event)
      → d < k
      → Consecutive k evs
      → d ≤ last_seq d (collect codec wanted limit n bytes evs)
  unfolding collect
  last_seq-ge n bytes d k [] h c = omega arith
  last_seq-ge n bytes d k (e ∷ evs) h c =
      let rest = last_seq-ge (n + 1) (bytes + weight codec e + 1) e.seq (k + 1) evs in
      elim (collect_cases n bytes e evs) [
        | inl (u, q) ↦ rw q (last_seq-ge n bytes d (k + 1) evs (omega arith) c.1)
        | inr (w, inl (pos, q)) ↦ rw q (omega arith)
        | inr (w, inr (inl q)) ↦ rw q (omega (arith, c.0))
        | inr (w, inr (inr (more, q))) ↦ rw q (omega (arith, c.0, rest (omega (arith, c.0)) c.1))
      ]

  -- The wanted events are those taken and the wanted ones after them.
  abbrev Leaves : ℕ → List Event → List Event → Type 0
  Leaves d evs taken = keep wanted evs ≡ taken ++ keep wanted (after (last_seq d taken) evs)

  collect-Leaves :
      (n bytes d k : ℕ) (evs : List Event)
      → d < k
      → Consecutive k evs
      → Leaves d evs (collect codec wanted limit n bytes evs)
  unfolding collect
  collect-Leaves n bytes d k [] h c = refl
  collect-Leaves n bytes d k (e ∷ evs) h c = elim (collect_cases n bytes e evs) [
    | inl (u, q) ↦ subst (Leaves d (e ∷ evs)) (sym q) (
        skip (last_seq d (collect codec wanted limit n bytes evs))
          (collect codec wanted limit n bytes evs) u
          (collect-Leaves n bytes d (k + 1) evs (omega arith) c.1))
    | inr (w, inl (pos, q)) ↦
        subst (Leaves d (e ∷ evs)) (sym q) (ap (keep wanted) (sym (after_all d k (e ∷ evs) h c)))
    | inr (w, inr (inl q)) ↦ subst (Leaves d (e ∷ evs)) (sym q) (
        took e.seq [] w (omega arith)
          (ap (keep wanted) (sym (after_all e.seq (k + 1) evs above c.1))))
    | inr (w, inr (inr (more, q))) ↦ subst (Leaves d (e ∷ evs)) (sym q) (
        took (last_seq e.seq (next (bytes + weight codec e + 1)))
          (next (bytes + weight codec e + 1)) w
          (last_seq-ge (n + 1) (bytes + weight codec e + 1) e.seq (k + 1) evs above c.1)
          (collect-Leaves (n + 1) (bytes + weight codec e + 1) e.seq (k + 1) evs above c.1))
  ]
    where
      next : ℕ → List Event
      next b = collect codec wanted limit (n + 1) b evs

      above : e.seq < k + 1
      above = omega (arith, c.0)

      skip :
          (m : ℕ) (taken : List Event)
          → wanted e ≡ false
          → keep wanted evs ≡ taken ++ keep wanted (after m evs)
          → keep wanted (e ∷ evs) ≡ taken ++ keep wanted (after m (e ∷ evs))
      skip m taken u ih = elim (Bool-cases (ltb m e.seq)) [
        | inl y ↦ rw (u, y) (rw u ih)
        | inr n ↦ rw (u, n) ih
      ]

      took :
          (m : ℕ) (taken : List Event)
          → wanted e ≡ true
          → e.seq ≤ m
          → keep wanted evs ≡ taken ++ keep wanted (after m evs)
          → keep wanted (e ∷ evs) ≡ (e ∷ taken) ++ keep wanted (after m (e ∷ evs))
      took m taken w past ih = ground (arith, ih)

  -- It takes an event if there is one.
  pub collect_none :
      (bytes : ℕ) (evs : List Event)
      → collect codec wanted limit 0 bytes evs ≡ []
      → keep wanted evs ≡ []
  unfolding collect
  collect_none bytes [] h = refl
  collect_none bytes (e ∷ evs) h = elim (collect_cases 0 bytes e evs) [
    | inl (u, q) ↦ rw u (collect_none bytes evs (sym q ∙ h))
    | inr (w, inl (pos, q)) ↦ absurd (omega arith)
    | inr (w, inr (inl q)) ↦ absurd (cc (q, h))
    | inr (w, inr (inr (more, q))) ↦ absurd (cc (q, h))
  ]

  pub collect_bound :
      (n bytes : ℕ) (evs : List Event)
      → n < limit
      → n + length (collect codec wanted limit n bytes evs) ≤ limit
  unfolding collect
  collect_bound n bytes [] h = omega arith
  collect_bound n bytes (e ∷ evs) h = elim (collect_cases n bytes e evs) [
    | inl (u, q) ↦ omega (arith, ap length q, collect_bound n bytes evs h)
    | inr (w, inl (pos, q)) ↦ omega (arith, ap length q)
    | inr (w, inr (inl q)) ↦ omega (arith, ap length q)
    | inr (w, inr (inr (more, q))) ↦
        omega (arith, ap length q, collect_bound (n + 1) (bytes + weight codec e + 1) evs more)
  ]

pub snapshot_limit_bound :
    (limit : ℕ) → (0 < snapshot_limit limit) × (snapshot_limit limit ≤ max_limit)
unfolding snapshot_limit
snapshot_limit_bound limit = ground arith

module _ {Line : Type 0} (codec : Codec Line) (l : Log Line) (id : String) where
  cursor_of-ge : key_of id ≡ id → l.seq (key_of id) ≤ cursor_of codec l id
  unfolding cursor_of
  cursor_of-ge e = ground (arith, ap l.seq e)

  -- Where nothing was taken, nothing is left.
  nothing_left :
      (cursor : ℕ) (wanted : Event → Bool)
      → key_of id ≡ id
      → IsWhole codec l id
      → keep wanted (drop cursor (history codec l id)) ≡ []
      → keep wanted (drop (next_cursor codec l id cursor []) (history codec l id)) ≡ []
  unfolding next_cursor
  nothing_left cursor wanted e w h = elim (Bool-cases (ltb cursor (cursor_of codec l id))) [
    | inl y ↦ rw y (
        ap (keep wanted) (
          drop_all (cursor_of codec l id) (history codec l id)
            (omega (arith, w.counted, cursor_of-ge e))))
    | inr n ↦ rw n h
  ]

  -- A snapshot and what is left after its cursor.
  pub page_rest :
      (cursor limit : ℕ) (wanted : Event → Bool) (c : List Event)
      → key_of id ≡ id
      → IsWhole codec l id
      → c ≡ collect codec wanted limit 0 0 (drop cursor (history codec l id))
      → keep wanted (drop cursor (history codec l id))
        ≡ c ++ keep wanted (drop (next_cursor codec l id cursor c) (history codec l id))
  unfolding next_cursor
  page_rest cursor limit wanted [] e w q =
      let none_wanted =
        collect_none codec wanted limit 0 (drop cursor (history codec l id)) (sym q) in
      none_wanted ∙ sym (nothing_left cursor wanted e w none_wanted)
  page_rest cursor limit wanted (f ∷ c) e w q =
      subst (Leaves codec wanted limit cursor (drop cursor (history codec l id))) (sym q) (
        collect-Leaves codec wanted limit 0 0 cursor (1 + cursor) (drop cursor (history codec l id))
          (omega arith) (Consecutive-drop cursor 1 (history codec l id) w.numbered))
      ∙ ap (λ evs. (f ∷ c) ++ keep wanted evs)
          (after_cut cursor (last_seq cursor (f ∷ c)) (history codec l id)
            (subst (λ evs. cursor ≤ last_seq cursor evs) (sym q)
              (last_seq-ge codec wanted limit 0 0 cursor (1 + cursor)
                (drop cursor (history codec l id)) (omega arith)
                (Consecutive-drop cursor 1 (history codec l id) w.numbered)))
            w.numbered)
