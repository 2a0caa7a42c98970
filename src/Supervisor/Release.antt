-- ===== src/Supervisor/Release.antt =====
-- internal/supervisor/idle.go: when the agent is released.
use grok_mcp.Prelude.{
  ℕ, ◌-◌, ◌*◌, ◌≤◌, String, Bool, true, false, not, ◌&&◌, ◌||◌, List, [], ◌∷◌, length, none, some,
  Option, ◌==◌, ◌≢◌, ◌⊎◌, inl, inr, ℕ_eq, if◌then◌else◌, any, ltb, ◌≡◌, refl, ap, sym, ◌∙◌, arith,
}
use grok_mcp.Protocol.State.{JobState, plan_ready, JobState_eq}
use grok_mcp.Protocol.Job.{is_zero, second}
use grok_mcp.Store.Tables.{JobRow}
use grok_mcp.Supervisor.State.{Queued, Handle, Runtime, Service}
use grok_mcp.Supervisor.Idle.{
  is_open, waits, begin_operation, in_use, holds_approval, timeout_of, release_begin, awake,
}

-- A job that is at rest: no turn, no request that waits, and no terminal.
pub record IsUnused (rt : Runtime) : Type 0 where
  pub no_turn : rt.busy ≡ false
  pub no_request : rt.queue ≡ []
  pub no_terminal : rt.term ≡ none
  pub not_attaching : rt.attaching ≡ false

abbrev pub AreUnused : List (String × Runtime) → Type 0
AreUnused [] = Unit {0}
AreUnused ((id, rt) ∷ rts) = IsUnused rt × AreUnused rts

-- No loaded session has a plan that awaits its approval.
abbrev pub AreDecided : (String → Bool) → List JobRow → Type 0
AreDecided loaded [] = Unit {0}
AreDecided loaded (row ∷ rows) =
    ((row.lifecycle.state ≢ plan_ready) ⊎ (loaded row.lifecycle.grok_session_id ≡ false))
    × AreDecided loaded rows

-- Nothing needs the agent, and nothing has for the time-out.
pub record Unneeded (now : ℕ) (active : Bool) (loaded : String → Bool) (s : Service) : Type 0 where
  pub running : s.closed ≡ false
  pub no_operation : s.active_operations ≡ 0
  pub not_releasing : s.idle_done ≡ false
  pub no_job : AreUnused s.rt
  pub no_window : active ≡ false
  pub listed : s.store.readable ≡ true
  pub no_approval : AreDecided loaded s.store.jobs
  pub since : s.idle_since ≢ 0
  pub for_long : s.idle_timeout ≢ 0 → s.idle_timeout ≤ now - s.idle_since
  pub by_default : s.idle_timeout ≡ 0 → 30 * second ≤ now - s.idle_since

unused :
    (a b c d : Bool)
    → (a || b || c || d) ≡ false
    → (a ≡ false) × (b ≡ false) × (c ≡ false) × (d ≡ false)
unused a b c d h = ground arith

either_not : (a b : Bool) → (a || b) ≡ false → (a ≡ false) × (b ≡ false)
either_not a b h = ground arith

not_both : (a b : Bool) → (a && b) ≡ false → (a ≡ false) ⊎ (b ≡ false)
not_both a b h = ground arith

no_item : (queue : List Queued) → ltb 0 (length queue) ≡ false → queue ≡ []
no_item [] h = refl
no_item (q ∷ queue) h = ground arith

no_handle : (o : Option Handle) → is_open o ≡ false → o ≡ none
no_handle none h = refl
no_handle (some x) h = ground arith

all_unused : (rts : List (String × Runtime)) → any in_use rts ≡ false → AreUnused rts
all_unused [] h = tt
all_unused ((id, rt) ∷ rts) h =
    let (x, y) = either_not (in_use (id, rt)) (any in_use rts) h in
    let (a, b, c, d) = unused rt.busy (ltb 0 (length rt.queue)) (is_open rt.term) rt.attaching x in
    (
      record {
        no_turn = a;
        no_request = no_item rt.queue b;
        no_terminal = no_handle rt.term c;
        not_attaching = d;
      },
      all_unused rts y,
    )

all_decided :
    (loaded : String → Bool) (rows : List JobRow)
    → any (holds_approval loaded) rows ≡ false
    → AreDecided loaded rows
all_decided loaded [] h = tt
all_decided loaded (row ∷ rows) h =
    let (x, y) = either_not (holds_approval loaded row) (any (holds_approval loaded) rows) h in
    (
      elim (not_both (row.lifecycle.state == plan_ready) (loaded row.lifecycle.grok_session_id) x) [
        | inl p ↦ inl (not_ready row.lifecycle.state p)
        | inr p ↦ inr p
      ],
      all_decided loaded rows y,
    )
  where
    not_ready : (st : JobState) → (st == plan_ready) ≡ false → st ≢ plan_ready
    not_ready st p = ground arith

-- The tests of `release_begin` in a row.
abbrev ladder :
    Bool
    → Bool
    → Bool
    → Bool
    → Bool
    → Bool
    → Bool
    → Service
    → Service
    → Service
    → Service
    → Service × Bool
ladder a b c d e f g s u v w =
    if a
    then (w, false)
    else if b
    then (w, false)
    else if c
    then (w, false)
    else if not d
    then (s, false)
    else if e
    then (w, false)
    else if f
    then (u, false)
    else if g
    then (s, false)
    else (v, true)

release_cases :
    (a b c d e f g : Bool) (s u v t w : Service)
    → ladder a b c d e f g s u v w ≡ (t, true)
    → (a ≡ false)
      × (b ≡ false)
      × (c ≡ false)
      × (d ≡ true)
      × (e ≡ false)
      × (f ≡ false)
      × (g ≡ false)
      × (v ≡ t)
release_cases true b c d e f g s u v t w h = ground arith
release_cases false true c d e f g s u v t w h = ground arith
release_cases false false true d e f g s u v t w h = ground arith
release_cases false false false false e f g s u v t w h = ground arith
release_cases false false false true true f g s u v t w h = ground arith
release_cases false false false true false true g s u v t w h = ground arith
release_cases false false false true false false true s u v t w h = ground arith
release_cases false false false true false false false s u v t w h =
    (refl, refl, refl, refl, refl, refl, refl, ap (λ (x : Service × Bool). x.0) h)

own_timeout : (m n : ℕ) → ltb n (if m == 0 then 30 * second else m) ≡ false → m ≢ 0 → m ≤ n
own_timeout m n h k = ground arith

default_timeout :
    (m n : ℕ) → ltb n (if m == 0 then 30 * second else m) ≡ false → m ≡ 0 → 30 * second ≤ n
default_timeout m n h k = ground arith

not_zero : (n : ℕ) → is_zero n ≡ false → n ≢ 0
not_zero n h = ground arith

none_under_way : (n : ℕ) → ltb 0 n ≡ false → n ≡ 0
none_under_way n h = ground arith

guards : (a b c : Bool) → (a || b || c) ≡ false → (a ≡ false) × (b ≡ false) × (c ≡ false)
guards a b c h = ground arith

-- The agent is released only when the service is open, no operation is under way, no job is busy,
-- has a request waiting, has a terminal or is getting one, no window is active, no loaded session
-- has a plan that awaits its approval, and the time since which the service is idle is known and
-- at least the time-out ago, which is 30 seconds where none is set. The release is then marked,
-- and nothing else changes.
pub release_begin-Unneeded :
    (now : ℕ) (active : Bool) (loaded : String → Bool) (s t : Service)
    → release_begin now active loaded s ≡ (t, true)
    → Unneeded now active loaded s × (t ≡ record s { idle_done = true })
unfolding release_begin
release_begin-Unneeded now active loaded s t h =
    let (a, b, c, d, e, f, g, v) =
      release_cases (s.closed || ltb 0 s.active_operations || s.idle_done) (any in_use s.rt) active
        s.store.readable (any (holds_approval loaded) s.store.jobs) (is_zero s.idle_since)
        (ltb (now - s.idle_since) (timeout_of s)) s (record s { idle_since = now })
        (record s { idle_done = true }) t (awake s) h in
    let (x, y, z) = guards s.closed (ltb 0 s.active_operations) s.idle_done a in
    (
      record {
        running = x;
        no_operation = none_under_way s.active_operations y;
        not_releasing = z;
        no_job = all_unused s.rt b;
        no_window = c;
        listed = d;
        no_approval = all_decided loaded s.store.jobs e;
        since = not_zero s.idle_since f;
        for_long = own_timeout s.idle_timeout (now - s.idle_since) g;
        by_default = default_timeout s.idle_timeout (now - s.idle_since) g;
      },
      sym v,
    )

-- No operation begins while the agent is being released: it waits, and so none is under way.
pub release_excludes_operations :
    (now : ℕ) (active : Bool) (loaded : String → Bool) (s t : Service)
    → release_begin now active loaded s ≡ (t, true)
    → (begin_operation t ≡ waits) × (t.active_operations ≡ 0)
unfolding begin_operation
release_excludes_operations now active loaded s t h =
    let (u, e) = release_begin-Unneeded now active loaded s t h in
    (
      ap begin_operation e ∙ rw u.running refl,
      ap (λ (x : Service). x.active_operations) e ∙ u.no_operation,
    )
