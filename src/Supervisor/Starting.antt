-- ===== src/Supervisor/Starting.antt =====
-- When the pump starts an item, and what it takes from the queue.
use grok_mcp.Prelude.{
  ℕ, String, Bool, true, false, ◌||◌, List, [], ◌∷◌, Option, none, some, String_eq, if◌then◌else◌,
  ◌≡◌, ◌≢◌, refl, ap, subst, ◌∙◌, arith, Option-cases, inl, inr, ltb, ◌&&◌, ◌==◌, ne_of, length,
}
use grok_mcp.Protocol.State.{
  detaching, plan_ready, tui, handoff, JobState_eq, ViewMode_eq, InputOwner_eq,
}
use grok_mcp.Protocol.Job.{Job, zero_job}
use grok_mcp.Store.Tables.{get_job}
use grok_mcp.Supervisor.State.{Queued, Runtime, Service, runtime, set_runtime}
use grok_mcp.Supervisor.Records.{load, ensure_runtime, or_job}
use grok_mcp.Supervisor.Fifo.{
  Stop, approval, view_detaching, tui_owns, PumpStep, stopped, started, running_runtime,
  starting_job, after_phase, pump_take, pump_stop, pump_begin, commit_phase, live_grok,
  session_held_by_tui, waits_for_approval,
}
use grok_mcp.Supervisor.Watchdog.{unstalled}
use grok_mcp.Supervisor.Durable.{
  SameRuntimes, SameRuntimes-refl, commit-SameRuntimes, runtime_after, runtime-ensure,
}

pub commit_phase-SameRuntimes :
    (now : ℕ) (job : Job) (phase : String) (s : Service)
    → SameRuntimes s (commit_phase now job phase s).0
unfolding commit_phase
commit_phase-SameRuntimes now job phase s = elim (Option-cases (get_job s.store job.job_id)) [
  | inl e ↦ rw (e, commit_phase) (SameRuntimes-refl s)
  | inr (rec, e) ↦
      rw (e, commit_phase)
        (commit-SameRuntimes now (record rec { job = job; request_phase = phase }) s)
]

-- What the pump took, from the queue `before`, and the runtime that it left.
pub record Took (turn_id : String) (before after : Runtime) (item : Queued) : Type 0 where
  pub head : Queued
  pub rest : List Queued
  pub queue : before.queue ≡ head ∷ rest
  pub item_is : item ≡ record head { turn_id = turn_id }
  pub left : after.queue ≡ rest
  pub busy : after.busy ≡ true
  pub turn : after.turn_id ≡ turn_id
  pub request : after.request_id ≡ head.request_id
  pub generation : after.gen ≡ before.gen
  pub uncancelled : after.cancelled_turn ≡ false

of_running :
    (turn_id digest : String) (now : ℕ) (job : Job) (before after : Runtime) (q : Queued)
    (rest : List Queued) (item : Queued)
    → before.queue ≡ q ∷ rest
    → item ≡ record q { turn_id = turn_id }
    → unstalled after
      ≡ unstalled (running_runtime now digest job (record q { turn_id = turn_id }) rest before)
    → Took turn_id before after item
of_running turn_id digest now job before after q rest item e i r = record {
  head = q;
  rest = rest;
  queue = e;
  item_is = i;
  left = ap (λ (x : Runtime). x.queue) r;
  busy = ap (λ (x : Runtime). x.busy) r;
  turn = ap (λ (x : Runtime). x.turn_id) r;
  request = ap (λ (x : Runtime). x.request_id) r;
  generation = ap (λ (x : Runtime). x.gen) r;
  uncancelled = ap (λ (x : Runtime). x.cancelled_turn) r;
}

after_phase-started :
    (id : String) (item got : Queued) (r : Service × Bool) (t : Service)
    → after_phase id item r ≡ (t, started got)
    → (t ≡ r.0) × (got ≡ item)
after_phase-started id item got (s, true) t h = ground arith
after_phase-started id item got (s, false) t h = ground arith

pump_take-Took :
    (now : ℕ) (turn_id digest id : String) (job : Job) (s t : Service) (item : Queued)
    (queue : List Queued)
    → (runtime s id).queue ≡ queue
    → pump_take now turn_id digest id job queue s ≡ (t, started item)
    → Took turn_id (runtime s id) (runtime t id) item
unfolding pump_take
pump_take-Took now turn_id digest id job s t item [] e h = ground arith
pump_take-Took now turn_id digest id job s t item (q ∷ rest) e h =
    let next = record q { turn_id = turn_id } in
    let run = set_runtime id (running_runtime now digest job next rest (runtime s id)) s in
    let r = commit_phase now (starting_job next job) "preparing" run in
    let (te, ie) = after_phase-started id next item r t h in
    of_running turn_id digest now job (runtime s id) (runtime t id) q rest item e ie (
      ap (λ x. unstalled (runtime x id)) te
      ∙ runtime_after id (running_runtime now digest job next rest (runtime s id)) s r.0
          (commit_phase-SameRuntimes now (starting_job next job) "preparing" run))

-- What the job itself may hold its queue back for, if it can be read.
abbrev pub Free : Service → Option Job → Type 0
Free s none = Unit
Free s (some job) =
    (job.state ≢ plan_ready)
    × (job.pause_reason ≢ "review_required")
    × (job.approval_delivery ≢ "unknown")
    × (job.view_mode ≢ detaching)
    × (job.input_owner ≢ tui)
    × (job.input_owner ≢ handoff)
    × (live_grok s job.job_id ≡ false)

-- Nothing keeps a job's queue from going on.
pub record MayStart (s : Service) (id : String) : Type 0 where
  pub running : s.closed ≡ false
  pub uncontrolled : (runtime s id).control_pending ≡ false
  pub free : (runtime s id).busy ≡ false
  pub undecided : Free s (load s id)

not_stopped :
    (a b c w : Bool)
    → w ≡ true
    → (if a && w
        then some approval
        else if b && w
        then some view_detaching
        else if c && w
        then some tui_owns
        else none)
      ≡ none
    → (a ≡ false) × (b ≡ false) × (c ≡ false)
not_stopped a b c w t h = ground arith

none_of : (a b c : Bool) → (a || b || c) ≡ false → (a ≡ false) × (b ≡ false) × (c ≡ false)
none_of a b c h = ground arith

not_held :
    (a b c : Bool) → (if a || b then true else c) ≡ false → (a ≡ false) × (b ≡ false) × (c ≡ false)
not_held a b c h = ground arith

pump_stop-none :
    (s : Service) (o : Option Job) (waiting : Bool)
    → waiting ≡ true
    → pump_stop s o waiting ≡ none
    → Free s o
unfolding pump_stop session_held_by_tui
pump_stop-none s none waiting w h = tt
pump_stop-none s (some job) waiting w h =
    let (a, b, c) =
      not_stopped (waits_for_approval job) (job.view_mode == detaching) (session_held_by_tui s job)
        waiting w h in
    let (p, q, r) =
      none_of (job.state == plan_ready) (job.pause_reason == "review_required")
        (job.approval_delivery == "unknown") a in
    let (x, y, z) =
      not_held (job.input_owner == tui) (job.input_owner == handoff) (live_grok s job.job_id) c in
    (
      ground (arith, p),
      ne_of job.pause_reason "review_required" q,
      ne_of job.approval_delivery "unknown" r,
      ground (arith, b),
      ground (arith, x),
      ground (arith, y),
      z,
    )

begins :
    (a b : Bool) (o : Option Stop) (s t : Service) (why what : Stop) (p : Service × PumpStep)
    (item : Queued)
    → (if a then (s, stopped why) else elim o [
      | some x ↦ (s, stopped x)
      | none ↦ if◌then◌else◌ {A = Service × PumpStep} b (s, stopped what) p
    ])
      ≡ (t, started item)
    → (a ≡ false) × (o ≡ none) × (b ≡ false) × (p ≡ (t, started item))
begins true b o s t why what p item h = ground arith
begins false b (some x) s t why what p item h = ground arith
begins false true none s t why what p item h = ground arith
begins false false none s t why what p item h = (refl, refl, refl, h)

waiting_of :
    (queue : List Queued) (q : Queued) (rest : List Queued)
    → queue ≡ q ∷ rest
    → ltb 0 (length queue) ≡ true
waiting_of queue q rest e = rw e (ground arith)

may_start :
    (s : Service) (id : String)
    → (s.closed || (runtime s id).control_pending) ≡ false
    → (runtime s id).busy ≡ false
    → pump_stop s (load s id) (ltb 0 (length (runtime s id).queue)) ≡ none
    → ltb 0 (length (runtime s id).queue) ≡ true
    → MayStart s id
may_start s id c b o w = record {
  running = ground arith;
  uncontrolled = ground arith;
  free = b;
  undecided = pump_stop-none s (load s id) _ w o;
}

-- A round of the pump starts an item only where nothing stands in the way: the service is open,
-- no cancellation is under way, no turn runs, and the job, if it can be read, awaits no approval,
-- no review and no word on a delivery, its view is not being closed, and no terminal owns its input
-- or holds its session. The round takes the head of the queue and leaves the rest in its order, and
-- the job is busy with that item's turn and request, not cancelled, in the same generation.
pub pump_begin-started :
    (now : ℕ) (turn_id digest id : String) (s t : Service) (item : Queued)
    → pump_begin now turn_id digest id s ≡ (t, started item)
    → MayStart (ensure_runtime id s) id × Took turn_id (runtime s id) (runtime t id) item
unfolding pump_begin
pump_begin-started now turn_id digest id s₀ t item h =
    let s = ensure_runtime id s₀ in
    let (a, o, b, p) = begins _ (runtime s id).busy _ s t _ _ _ item h in
    let took =
      pump_take-Took now turn_id digest id (or_job (load s id) zero_job) s t item
        (runtime s id).queue refl p in
    (
      may_start s id a b o (waiting_of _ took.head took.rest took.queue),
      subst (λ r. Took turn_id r (runtime t id) item) (runtime-ensure id s₀) took,
    )
