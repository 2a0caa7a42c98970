-- ===== src/Supervisor/BusySteps.antt =====
-- Which jobs are busy after each step of the pump and of a cancellation.
use grok_mcp.Prelude.{
  ℕ, String, Bool, true, false, not, ◌&&◌, ◌||◌, List, [], ◌∷◌, Option, none, some, ◌==◌, ◌!=◌,
  ℕ_eq, String_eq, if◌then◌else◌, ◌≡◌, refl, ap, sym, ◌∙◌, eq_iff, ltb, length,
}
use grok_mcp.Protocol.Job.{Job, zero_job}
use grok_mcp.Supervisor.State.{
  Queued, Runtime, Service, Err, Result, ok, err, runtime, set_runtime, runtime-set_runtime,
  next_u64, not_found, inactive, stale_cancel,
}
use grok_mcp.Supervisor.Records.{load, ensure_runtime, or_job, touch, save}
use grok_mcp.Supervisor.Fifo.{
  Stop, PumpStep, stopped, started, not_running, nothing_to_do, idle_runtime, running_runtime, kick,
  starting_job, after_phase, pump_take, pump_stop, pump_begin, commit_phase,
}
use grok_mcp.Supervisor.Turn.{accepts_turn_control}
use grok_mcp.Supervisor.Cancel.{
  cancel_begin, cancelled_runtime, cancelling_job, cancel_finish, cancel_end, cancelled_job,
}
use grok_mcp.Supervisor.Pump.{Finish, pump_end}
use grok_mcp.Supervisor.Durable.{save-SameRuntimes}
use grok_mcp.Supervisor.Starting.{commit_phase-SameRuntimes}
use grok_mcp.Supervisor.Busy.{
  KeepsBusy, KeepsBusy-refl, KeepsBusy-trans, of_same, set_runtime-busy, ensure-busy,
  finish_item-busy, if-busy,
}

-- A step that makes `id` busy, or idle, and no other job.
pub record BusyIf (id : String) (b : Bool) (s t : Service) : Type 0 where
  pub busy_at : (k : String) → (runtime t k).busy ≡ (if id == k then b else (runtime s k).busy)

set-BusyIf : (id : String) (rt : Runtime) (s : Service) → BusyIf id rt.busy s (set_runtime id rt s)
set-BusyIf id rt s = record {
  busy_at = λ k. ap (λ (r : Runtime). r.busy) (runtime-set_runtime id k rt s) ∙ go (id == k) k;
}
  where
    go :
        (b : Bool) (k : String)
        → (if b then rt else runtime s k).busy ≡ (if b then rt.busy else (runtime s k).busy)
    go true k = refl
    go false k = refl

BusyIf-then :
    {id : String} {b : Bool} {s t u : Service} → BusyIf id b s t → KeepsBusy t u → BusyIf id b s u
BusyIf-then p q = record { busy_at = λ k. q.busy_of k ∙ p.busy_at k }

then-BusyIf :
    {id : String} {b : Bool} {s t u : Service} → KeepsBusy s t → BusyIf id b t u → BusyIf id b s u
then-BusyIf {id} {b} p q = record {
  busy_at = λ k. q.busy_at k ∙ ap (λ x. if id == k then b else x) (p.busy_of k);
}

BusyIf-BusyIf :
    {id : String} {a b : Bool} {s t u : Service}
    → BusyIf id a s t
    → BusyIf id b t u
    → BusyIf id b s u
BusyIf-BusyIf {id} {a} {b} {s} p q = record {
  busy_at = λ k.
      q.busy_at k
      ∙ ap (λ x. if id == k then b else x) (p.busy_at k)
      ∙ go (id == k) (runtime s k).busy;
}
  where
    go : (c x : Bool) → (if c then b else if c then a else x) ≡ (if c then b else x)
    go true x = refl
    go false x = refl

BusyIf-Keeps :
    {id : String} {b : Bool} {s t : Service}
    → BusyIf id b s t
    → (runtime s id).busy ≡ b
    → KeepsBusy s t
BusyIf-Keeps {id} {b} {s} p h = record { busy_of = λ k. p.busy_at k ∙ go k (id == k) refl }
  where
    go :
        (k : String) (c : Bool)
        → (id == k) ≡ c
        → (if c then b else (runtime s k).busy) ≡ (runtime s k).busy
    go k true e = sym h ∙ ap (λ x. (runtime s x).busy) ((eq_iff id k).0 e)
    go k false e = refl

-- What a round of the pump does, by its outcome.
abbrev pub Moves : String → Service → Service × PumpStep → Type 0
Moves id s (t, started item) = ((runtime s id).busy ≡ false) × BusyIf id true s t
Moves id s (t, stopped why) = KeepsBusy s t

after_phase-Moves :
    (id : String) (item : Queued) (s : Service) (r : Service × Bool)
    → (runtime s id).busy ≡ false
    → BusyIf id true s r.0
    → Moves id s (after_phase id item r)
after_phase-Moves id item s (t, true) e p = (e, p)
after_phase-Moves id item s (t, false) e p =
    BusyIf-Keeps (BusyIf-BusyIf p (set-BusyIf id (idle_runtime (runtime t id)) t)) e

pump_take-Moves :
    (now : ℕ) (turn_id digest id : String) (job : Job) (queue : List Queued) (s : Service)
    → (runtime s id).busy ≡ false
    → Moves id s (pump_take now turn_id digest id job queue s)
unfolding pump_take
pump_take-Moves now turn_id digest id job [] s e = KeepsBusy-refl s
pump_take-Moves now turn_id digest id job (q ∷ rest) s e =
    let item = record q { turn_id = turn_id } in
    let rt = running_runtime now digest job item rest (runtime s id) in
    after_phase-Moves id item s
      (commit_phase now (starting_job item job) "preparing" (set_runtime id rt s)) e
      (BusyIf-then (set-BusyIf id rt s) (
        of_same (
          commit_phase-SameRuntimes now (starting_job item job) "preparing" (set_runtime id rt s))))

after-Moves :
    (id : String) (s t : Service) (r : Service × PumpStep)
    → KeepsBusy s t
    → Moves id t r
    → Moves id s r
after-Moves id s t (u, started item) p (e, q) = (sym (p.busy_of id) ∙ e, then-BusyIf p q)
after-Moves id s t (u, stopped why) p q = KeepsBusy-trans p q

-- A round that starts an item makes its job busy, which was idle; a round that stops changes no job.
pub pump_begin-Moves :
    (now : ℕ) (turn_id digest id : String) (s : Service)
    → Moves id s (pump_begin now turn_id digest id s)
unfolding pump_begin
pump_begin-Moves now turn_id digest id s₀ = after-Moves id s₀ s _ (ensure-busy id s₀) (
    go (s.closed || (runtime s id).control_pending)
      (pump_stop s (load s id) (ltb 0 (length (runtime s id).queue))) (runtime s id).busy refl)
  where
    s : Service
    s = ensure_runtime id s₀

    take : Service × PumpStep
    take = pump_take now turn_id digest id (or_job (load s id) zero_job) (runtime s id).queue s

    go :
        (a : Bool) (o : Option Stop) (b : Bool)
        → (runtime s id).busy ≡ b
        → Moves id s (
            if a then (s, stopped not_running) else elim o as (λ _. Service × PumpStep) [
              | some why ↦ (s, stopped why)
              | none ↦ if b then (s, stopped nothing_to_do) else take
            ])
    go true o b e = KeepsBusy-refl s
    go false (some why) b e = KeepsBusy-refl s
    go false none true e = KeepsBusy-refl s
    go false none false e =
        pump_take-Moves now turn_id digest id (or_job (load s id) zero_job) (runtime s id).queue s e

-- The end of a round makes its job idle, and changes no other.
pub pump_end-idle :
    (now : ℕ) (uuid id : String) (item : Queued) (finish : Finish) (s : Service)
    → BusyIf id false s (pump_end now uuid id item finish s).0
unfolding pump_end
pump_end-idle now uuid id item finish s =
    BusyIf-then (set-BusyIf id (idle_runtime (runtime s id)) s)
      (finish_item-busy now uuid id item finish (set_runtime id (idle_runtime (runtime s id)) s))

-- A cancellation leaves the turn that runs to its own end.
pub cancel_begin-busy :
    (now : ℕ) (id turn : String) (s : Service) → KeepsBusy s (cancel_begin now id turn s).0
unfolding cancel_begin
cancel_begin-busy now id turn s₀ =
    KeepsBusy-trans (ensure-busy id s₀)
      (go (load s id) (rt.control_pending || (turn != "" && turn != rt.turn_id)))
  where
    s : Service
    s = ensure_runtime id s₀

    rt : Runtime
    rt = runtime s id

    saves : Job → Service × Bool
    saves job =
        save now (touch now s (cancelling_job job)) (set_runtime id (cancelled_runtime rt) s)

    go :
        (o : Option Job) (b : Bool)
        → KeepsBusy s
            (elim o as (λ _. Service × Result (ℕ × Bool)) [
              | none ↦ (s, err not_found)
              | some job ↦
                  if not (accepts_turn_control job)
                  then (s, err inactive)
                  else if b
                  then (s, err stale_cancel)
                  else let (t, saved) = saves job in (t, ok (next_u64 rt.gen, saved))
            ]).0
    go none b = KeepsBusy-refl s
    go (some job) b = cases (not (accepts_turn_control job)) b
      where
        cases :
            (a c : Bool)
            → KeepsBusy s
                (if◌then◌else◌ {A = Service × Result (ℕ × Bool)} a
                  (s, err inactive)
                  (if◌then◌else◌ {A = Service × Result (ℕ × Bool)} c
                    (s, err stale_cancel)
                    ((saves job).0, ok (next_u64 rt.gen, (saves job).1)))).0
        cases true c = KeepsBusy-refl s
        cases false true = KeepsBusy-refl s
        cases false false = KeepsBusy-trans (set_runtime-busy id (cancelled_runtime rt) s refl) (
            of_same (
              save-SameRuntimes now (touch now s (cancelling_job job))
                (set_runtime id (cancelled_runtime rt) s)))

kick-busy : (id : String) (s : Service) → KeepsBusy s (kick id s)
unfolding kick runtime
kick-busy id s =
    if-busy (s.closed || (runtime s id).busy || length (runtime s id).queue == 0) s s
      (record s { pumps = id ∷ s.pumps }) (KeepsBusy-refl s) (record { busy_of = λ k. refl })

cancel_finish-busy : (id : String) (s : Service) (b : Bool) → KeepsBusy s (cancel_finish id s b).0
cancel_finish-busy id s true = kick-busy id s
cancel_finish-busy id s false = KeepsBusy-refl s

-- So does its end, whatever the agent answered.
pub cancel_end-busy :
    (now : ℕ) (id : String) (generation : ℕ) (told : Bool) (s : Service)
    → KeepsBusy s (cancel_end now id generation told s).0
unfolding cancel_end
cancel_end-busy now id generation told s =
    KeepsBusy-trans (set_runtime-busy id (record (runtime s id) { control_pending = false }) s refl)
      (go ((runtime t id).gen == generation) (load t id))
  where
    t : Service
    t = set_runtime id (record (runtime s id) { control_pending = false }) s

    saves : Job → Service × Bool
    saves job = save now (touch now t (cancelled_job told job)) t

    go :
        (b : Bool) (o : Option Job)
        → KeepsBusy t
            (if◌then◌else◌ {A = Service × Option Err} b
              (elim o as (λ _. Service × Option Err) [
                | none ↦ cancel_finish id t told
                | some job ↦ let (u, saved) = saves job in cancel_finish id u (told && saved)
              ])
              (cancel_finish id t told)).0
    go true none = cancel_finish-busy id t told
    go true (some job) =
        KeepsBusy-trans (of_same (save-SameRuntimes now (touch now t (cancelled_job told job)) t))
          (cancel_finish-busy id (saves job).0 (told && (saves job).1))
    go false o = cancel_finish-busy id t told
