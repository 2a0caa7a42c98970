-- ===== src/Supervisor/Staleness.antt =====
-- A turn that was given up changes nothing when its answer comes after all.
use grok_mcp.Prelude.{
  ℕ, String, Bool, true, false, not, List, [], ◌∷◌, map, Option, none, some, ◌==◌, ◌!=◌, ℕ_eq,
  String_eq, if◌then◌else◌, ◌≡◌, ◌≢◌, refl, ap, sym, ◌∙◌, arith, Bool-cases, All, inl, inr, ◌||◌,
  ◌&&◌, ◌⊎◌, eq_of,
}
use grok_mcp.Protocol.Job.{Job}
use grok_mcp.Protocol.TaskState.{TaskState}
use grok_mcp.Supervisor.State.{
  Queued, Runtime, Service, runtime, set_runtime, next_u64, Result, ok, err, not_found, inactive,
  stale_cancel,
}
use grok_mcp.Supervisor.Records.{load, ensure_runtime, save, touch}
use grok_mcp.Supervisor.Fifo.{current_gen}
use grok_mcp.Supervisor.Turn.{PromptResult, apply_prompt_result, accepts_turn_control}
use grok_mcp.Supervisor.Cancel.{cancel_begin, cancelled_runtime, cancelling_job, restamp}
use grok_mcp.Supervisor.Pump.{
  Finish, nothing, requeue, not_persisted, lose, fail_with, fail_current, deliver, finish_item,
}
use grok_mcp.Supervisor.Watchdog.{unstalled}
use grok_mcp.Supervisor.Durable.{save-SameRuntimes, runtime_after, runtime-ensure, load-ensure}

pub next_u64-ne : (n : ℕ) → n ≢ next_u64 n
next_u64-ne n = omega arith

same_not : (a b : ℕ) → a ≢ b → (a == b) ≡ false
same_not a b h = ground arith

differs : (a b : ℕ) → a ≢ b → (a != b) ≡ true
differs a b h = ground arith

-- The finishing functions that act on the job's state; the other two queue the item again or report
-- a failed write.
abbrev pub acts : Finish → Bool
acts requeue = false
acts not_persisted = false
acts _ = true

apply_prompt_result-stale :
    (now : ℕ) (uuid id : String) (item : Queued) (res : PromptResult) (parsed : Option TaskState)
    (s : Service)
    → item.gen ≢ current_gen s id
    → apply_prompt_result now uuid id item res parsed s ≡ s
unfolding apply_prompt_result
apply_prompt_result-stale now uuid id item res parsed s h =
    rw (differs item.gen (current_gen s id) h)

-- An answer of an older generation leaves the service as it is.
pub finish_item-stale :
    (now : ℕ) (uuid id : String) (item : Queued) (finish : Finish) (s : Service)
    → acts finish ≡ true
    → item.gen ≢ current_gen s id
    → finish_item now uuid id item finish s ≡ s
unfolding finish_item
finish_item-stale now uuid id item nothing s a h = refl
finish_item-stale now uuid id item requeue s a h = cc
finish_item-stale now uuid id item not_persisted s a h = cc
finish_item-stale now uuid id item (lose m) s a h = rw (same_not item.gen (current_gen s id) h)
finish_item-stale now uuid id item (fail_with j e) s a h =
    rw (same_not item.gen (current_gen s id) h)
finish_item-stale now uuid id item (fail_current e) s a h =
    rw (same_not item.gen (current_gen s id) h)
finish_item-stale now uuid id item (deliver res parsed) s a h =
    apply_prompt_result-stale now uuid id item res parsed s h

-- The runtime of a job whose turn was given up.
pub record GivenUp (before after : Runtime) : Type 0 where
  pub gen : after.gen ≡ next_u64 before.gen
  pub cancelled : after.cancelled_turn ≡ true
  pub busy : after.busy ≡ before.busy
  pub turn : after.turn_id ≡ before.turn_id

-- What `cancelActiveTurn` does to the runtime, once it is accepted.
pub record Cancelled (id : String) (s t : Service) (g : ℕ) : Type 0 where
  pub job : Job
  pub found : load s id ≡ some job
  pub accepts : accepts_turn_control job ≡ true
  pub given_up : GivenUp (runtime s id) (runtime t id)
  pub generation : g ≡ (runtime t id).gen
  pub queue : (runtime t id).queue ≡ map (restamp g) (runtime s id).queue
  pub pending : (runtime t id).control_pending ≡ true

cancelled_fields :
    (rt before : Runtime)
    → unstalled rt ≡ unstalled (cancelled_runtime before)
    → GivenUp before rt
      × (next_u64 before.gen ≡ rt.gen)
      × (rt.queue ≡ map (restamp (next_u64 before.gen)) before.queue)
      × (rt.control_pending ≡ true)
cancelled_fields rt before e = (
  record {
    gen = ap (λ (r : Runtime). r.gen) e;
    cancelled = ap (λ (r : Runtime). r.cancelled_turn) e;
    busy = ap (λ (r : Runtime). r.busy) e;
    turn = ap (λ (r : Runtime). r.turn_id) e;
  },
  sym (ap (λ (r : Runtime). r.gen) e),
  ap (λ (r : Runtime). r.queue) e,
  ap (λ (r : Runtime). r.control_pending) e,
)

cancel_begin_cases :
    (o : Option Job) (s t : Service) (b : Bool) (g g' : ℕ) (saved : Bool) (f : Job → Service × Bool)
    → elim o as (λ _. Service × Result (ℕ × Bool)) [
      | none ↦ (s, err not_found)
      | some job ↦
          if not (accepts_turn_control job)
          then (s, err inactive)
          else if b
          then (s, err stale_cancel)
          else let (u, done) = f job in (u, ok (g, done))
    ]
      ≡ (t, ok (g', saved))
    → (job : Job) × (o ≡ some job)
      × (accepts_turn_control job ≡ true)
      × (b ≡ false)
      × ((f job).0 ≡ t)
      × (g ≡ g')
cancel_begin_cases none s t b g g' saved f h = ground arith
cancel_begin_cases (some job) s t b g g' saved f h = elim (Bool-cases (accepts_turn_control job)) [
  | inr no_control ↦ ground (arith, rw no_control at h)
  | inl control ↦ elim (Bool-cases b) [
    | inl stale ↦ ground (arith, rw (control, stale) at h)
    | inr fresh ↦
        let e : ((f job).0, ok (g, (f job).1)) ≡ (t, ok (g', saved)) = rw (control, fresh) at h in
        (
          job,
          refl,
          control,
          fresh,
          ap (λ (p : Service × Result (ℕ × Bool)). p.0) e,
          generation (ap (λ (p : Service × Result (ℕ × Bool)). p.1) e),
        )
  ]
]
  where
    generation : {x y : ℕ × Bool} → ok x ≡ ok y → x.0 ≡ y.0
    generation {x} e = ap (λ (r : Result (ℕ × Bool)). elim r [ ok p ↦ p.0 | err _ ↦ x.0 ]) e

pub cancel_begin-Cancelled :
    (now : ℕ) (id turn : String) (s t : Service) (g : ℕ) (saved : Bool)
    → cancel_begin now id turn s ≡ (t, ok (g, saved))
    → Cancelled id s t g
unfolding cancel_begin
cancel_begin-Cancelled now id turn s₀ t g saved h =
    let s = ensure_runtime id s₀ in
    let rt = runtime s id in
    let set = set_runtime id (cancelled_runtime rt) s in
    let f = λ (job : Job). save now (touch now s (cancelling_job job)) set in
    let (job, l, control, _, te, ge) =
      cancel_begin_cases (load s id) s t _ (next_u64 rt.gen) g saved f h in
    let same : unstalled (runtime t id) ≡ unstalled (cancelled_runtime rt) =
      ap (λ x. unstalled (runtime x id)) (sym te)
      ∙ runtime_after id (cancelled_runtime rt) s (f job).0
          (save-SameRuntimes now (touch now s (cancelling_job job)) set) in
    let same₀ : unstalled (runtime t id) ≡ unstalled (cancelled_runtime (runtime s₀ id)) =
      same ∙ ap (λ r. unstalled (cancelled_runtime r)) (runtime-ensure id s₀) in
    let e₀ : next_u64 (runtime s₀ id).gen ≡ g =
      ap (λ (r : Runtime). next_u64 r.gen) (sym (runtime-ensure id s₀)) ∙ ge in
    let (given_up, gen, queue, pending) = cancelled_fields (runtime t id) (runtime s₀ id) same₀ in
    record {
      job = job;
      found = sym (load-ensure id id s₀) ∙ l;
      accepts = control;
      given_up = given_up;
      generation = sym e₀ ∙ gen;
      queue = queue ∙ ap (λ n. map (restamp n) (runtime s₀ id).queue) e₀;
      pending = pending;
    }

free_for :
    (pending : Bool) (named other : Bool)
    → (pending || (named && other)) ≡ false
    → (pending ≡ false) × ((named ≡ false) ⊎ (other ≡ false))
free_for pending named other h = ground arith

-- A cancellation that is accepted names no other turn than the one that runs.
pub cancel_begin-turn :
    (now : ℕ) (id turn : String) (s t : Service) (g : ℕ) (saved : Bool)
    → cancel_begin now id turn s ≡ (t, ok (g, saved))
    → ((runtime s id).control_pending ≡ false) × ((turn ≡ "") ⊎ (turn ≡ (runtime s id).turn_id))
unfolding cancel_begin
cancel_begin-turn now id turn s₀ t g saved h =
    let s = ensure_runtime id s₀ in
    let rt = runtime s id in
    let (_, _, _, b, _, _) =
      cancel_begin_cases (load s id) s t (rt.control_pending || (turn != "" && turn != rt.turn_id))
        (next_u64 rt.gen) g saved
        (λ (job : Job).
          save now (touch now s (cancelling_job job)) (set_runtime id (cancelled_runtime rt) s))
        h in
    let (p, n) = free_for rt.control_pending (turn != "") (turn != rt.turn_id) b in
    let same = runtime-ensure id s₀ in
    (
      ap (λ (r : Runtime). r.control_pending) (sym same) ∙ p,
      elim n [
        | inl e ↦ inl (eq_of turn "" e)
        | inr e ↦ inr (eq_of turn rt.turn_id e ∙ ap (λ (r : Runtime). r.turn_id) same)
      ],
    )

-- After a cancellation was accepted, what a turn of the generation that ran still returns leaves
-- the service as it is, be it a result, an error or a lost connection; only queueing its item
-- again and reporting a failed write are left out.
pub cancelled_turn_is_stale :
    (now later : ℕ) (id turn uuid : String) (s t : Service) (g : ℕ) (saved : Bool) (item : Queued)
    (finish : Finish)
    → cancel_begin now id turn s ≡ (t, ok (g, saved))
    → item.gen ≡ current_gen s id
    → acts finish ≡ true
    → finish_item later uuid id item finish t ≡ t
unfolding current_gen
cancelled_turn_is_stale now later id turn uuid s t g saved item finish h e a =
    finish_item-stale later uuid id item finish t a λ same.
      next_u64-ne (runtime s id).gen
        (sym e ∙ same ∙ (cancel_begin-Cancelled now id turn s t g saved h).given_up.gen)

-- The requests that wait behind a cancelled turn stay queued in their order, under the generation
-- that is current then, so that their own answers count.
pub cancel_keeps_queue :
    (now : ℕ) (id turn : String) (s t : Service) (g : ℕ) (saved : Bool)
    → cancel_begin now id turn s ≡ (t, ok (g, saved))
    → (map (λ (q : Queued). q.request_id) (runtime t id).queue
        ≡ map (λ (q : Queued). q.request_id) (runtime s id).queue)
      × All (λ (q : Queued). q.gen ≡ current_gen t id) (runtime t id).queue
unfolding current_gen
cancel_keeps_queue now id turn s t g saved h =
    let c = cancel_begin-Cancelled now id turn s t g saved h in
    rw c.queue (ids_of (runtime s id).queue, gens_of (runtime s id).queue (c.generation))
  where
    ids_of :
        (qs : List Queued)
        → map (λ (q : Queued). q.request_id) (map (restamp g) qs)
          ≡ map (λ (q : Queued). q.request_id) qs
    ids_of [] = refl
    ids_of (q ∷ qs) = rw (ids_of qs)

    gens_of :
        (qs : List Queued) {n : ℕ} → g ≡ n → All (λ (q : Queued). q.gen ≡ n) (map (restamp g) qs)
    gens_of [] e = tt
    gens_of (q ∷ qs) e = (e, gens_of qs e)
