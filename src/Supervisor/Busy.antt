-- ===== src/Supervisor/Busy.antt =====
-- Only the pump makes a job busy or idle.
use grok_mcp.Prelude.{
  ℕ, String, Bool, true, false, ◌&&◌, Option, none, some, ◌==◌, ℕ_eq, String_eq, if◌then◌else◌, ◌≡◌,
  refl, ap, ◌∙◌, eq_iff, Bool-cases, inl, inr,
}
use grok_mcp.Protocol.State.{InputOwner, supervisor, InputOwner_eq}
use grok_mcp.Protocol.Job.{Job, zero_job}
use grok_mcp.Protocol.TaskState.{TaskState}
use grok_mcp.Store.Tables.{get_job, Record}
use grok_mcp.Supervisor.State.{
  Queued, Runtime, Service, Err, runtime, set_runtime, runtime-set_runtime, closed, not_found,
  persistence,
}
use grok_mcp.Supervisor.Records.{
  load, ensure_runtime, or_job, commit, touch, write, save, emit, persistence_failed, fail,
  failed_job,
}
use grok_mcp.Supervisor.Fifo.{
  enqueue, stamped, accepted_request, push, insert_item, start_pump, current_gen,
}
use grok_mcp.Supervisor.Recover.{disconnect_locked, disconnected_runtime, disconnected_job}
use grok_mcp.Supervisor.Turn.{
  PromptResult, apply_prompt_result, after_result, result_record, is_working, continuation,
  continue_after,
}
use grok_mcp.Supervisor.Pump.{
  Finish, nothing, requeue, not_persisted, lose, fail_with, fail_current, deliver, finish_item,
}
use grok_mcp.Supervisor.Durable.{
  SameRuntimes, save-SameRuntimes, commit-SameRuntimes, write-SameRuntimes, emit-SameRuntimes,
  persistence_failed-SameRuntimes,
}

pub record KeepsBusy (s t : Service) : Type 0 where
  pub busy_of : (id : String) → (runtime t id).busy ≡ (runtime s id).busy

pub KeepsBusy-refl : (s : Service) → KeepsBusy s s
KeepsBusy-refl s = record { busy_of = λ id. refl }

pub KeepsBusy-trans : {s t u : Service} → KeepsBusy s t → KeepsBusy t u → KeepsBusy s u
KeepsBusy-trans p q = record { busy_of = λ id. q.busy_of id ∙ p.busy_of id }

pub of_same : {s t : Service} → SameRuntimes s t → KeepsBusy s t
of_same p = record { busy_of = λ id. ap (λ (r : Runtime). r.busy) (p.runtimes id) }

pub set_runtime-busy :
    (id : String) (rt : Runtime) (s : Service)
    → rt.busy ≡ (runtime s id).busy
    → KeepsBusy s (set_runtime id rt s)
set_runtime-busy id rt s e = record {
  busy_of = λ k. elim (Bool-cases (id == k)) [
    | inl same ↦
        rw (runtime-set_runtime id k rt s)
          (rw same (e ∙ ap (λ x. (runtime s x).busy) ((eq_iff id k).0 same)))
    | inr differs ↦ rw (runtime-set_runtime id k rt s) (rw differs)
  ];
}

pub if-busy :
    (b : Bool) (s t u : Service) → KeepsBusy s t → KeepsBusy s u → KeepsBusy s (if b then t else u)
if-busy true s t u p q = p
if-busy false s t u p q = q

pub ensure-busy : (id : String) (s : Service) → KeepsBusy s (ensure_runtime id s)
unfolding ensure_runtime
ensure-busy id s = set_runtime-busy id (runtime s id) s refl

start_pump-busy : (id : String) (b : Bool) (s : Service) → KeepsBusy s (start_pump id b s)
unfolding runtime
start_pump-busy id true s = record { busy_of = λ k. refl }
start_pump-busy id false s = record { busy_of = λ k. refl }

push-busy : (now : ℕ) (id : String) (q : Queued) (s : Service) → KeepsBusy s (push now id q s)
push-busy now id q s =
    let rt = runtime s id in
    let t = set_runtime id (record rt { queue = insert_item q rt.queue }) s in
    KeepsBusy-trans (set_runtime-busy id (record rt { queue = insert_item q rt.queue }) s refl) (
      KeepsBusy-trans (of_same (emit-SameRuntimes now (or_job (load t id) zero_job) t))
        (start_pump-busy id rt.busy (emit now (or_job (load t id) zero_job) t)))

pub enqueue-busy :
    (now : ℕ) (uuid id : String) (q : Queued) (s : Service)
    → KeepsBusy s (enqueue now uuid id q s).0
unfolding enqueue
enqueue-busy now uuid id q₀ s₀ =
    KeepsBusy-trans (ensure-busy id s₀) (go s.closed (get_job s.store id))
  where
    s : Service
    s = ensure_runtime id s₀

    q : Queued
    q = stamped s id uuid q₀

    wrote :
        (rec : Record) (o : Option Service)
        → write rec s ≡ o
        → KeepsBusy s
            (elim o as (λ _. Service × Option Err) [
              | none ↦ (persistence_failed now id s, some persistence)
              | some t ↦ (push now id q t, none)
            ]).0
    wrote rec none e = of_same (persistence_failed-SameRuntimes now id s)
    wrote rec (some t) e =
        KeepsBusy-trans (of_same (write-SameRuntimes rec s t e)) (push-busy now id q t)

    go :
        (b : Bool) (o : Option Record)
        → KeepsBusy s
            (if◌then◌else◌ {A = Service × Option Err} b
              (s, some closed)
              (elim o [
                | none ↦ (s, some not_found)
                | some rec ↦
                    elim (write
                      (record rec {
                        job = or_job q.accepted_job rec.job;
                        accepted = some (accepted_request q);
                      })
                      s) [
                        | none ↦ (persistence_failed now id s, some persistence)
                        | some t ↦ (push now id q t, none)
                      ]
              ])).0
    go true o = KeepsBusy-refl s
    go false none = KeepsBusy-refl s
    go false (some rec) =
        wrote
          (record rec { job = or_job q.accepted_job rec.job; accepted = some (accepted_request q) })
          _ refl

pub disconnect_locked-busy :
    (now : ℕ) (id reason : String) (s : Service) → KeepsBusy s (disconnect_locked now id reason s)
unfolding disconnect_locked
disconnect_locked-busy now id reason s = go (load s id)
  where
    rt : Runtime
    rt = disconnected_runtime (runtime s id)

    go :
        (o : Option Job)
        → KeepsBusy s (elim o as (λ _. Service) [
          | none ↦ s
          | some job ↦
              if job.user_cancelled
              then s
              else (save now (touch now s (disconnected_job reason job)) (set_runtime id rt s)).0
        ])
    go none = KeepsBusy-refl s
    go (some job) = if-busy job.user_cancelled s s _ (KeepsBusy-refl s) (
        KeepsBusy-trans (set_runtime-busy id rt s refl) (
          of_same (
            save-SameRuntimes now (touch now s (disconnected_job reason job))
              (set_runtime id rt s))))

fail-busy :
    (now : ℕ) (job : Job) (reason : String) (s : Service) → KeepsBusy s (fail now job reason s)
unfolding fail
fail-busy now job reason s = of_same (save-SameRuntimes now (touch now s (failed_job reason job)) s)

after_result-busy :
    (now : ℕ) (uuid id : String) (item : Queued) (parsed : Option TaskState) (owner : InputOwner)
    (s : Service) (r : Service × Bool)
    → KeepsBusy s r.0
    → KeepsBusy s (after_result now uuid id item parsed owner r)
after_result-busy now uuid id item parsed owner s (t, false) k = k
after_result-busy now uuid id item parsed owner s (t, true) k =
    go (is_working parsed && owner == supervisor)
  where
    next : Service × Option Err
    next = enqueue now uuid id (continuation item.request_id) t

    after : (p : Service × Option Err) → KeepsBusy t p.0 → KeepsBusy s (continue_after now id p)
    after (u, none) h = KeepsBusy-trans k h
    after (u, some e) h =
        KeepsBusy-trans k (KeepsBusy-trans h (of_same (persistence_failed-SameRuntimes now id u)))

    go : (b : Bool) → KeepsBusy s (if b then continue_after now id next else t)
    go true = after next (enqueue-busy now uuid id (continuation item.request_id) t)
    go false = k

apply_prompt_result-busy :
    (now : ℕ) (uuid id : String) (item : Queued) (res : PromptResult) (parsed : Option TaskState)
    (s : Service)
    → KeepsBusy s (apply_prompt_result now uuid id item res parsed s)
unfolding apply_prompt_result
apply_prompt_result-busy now uuid id item res parsed s = go _ (get_job s.store id)
  where
    wrote : (rec : Record) → Bool → Service
    wrote rec c =
        if c
        then s
        else after_result now uuid id item parsed rec.job.input_owner
            (commit now (result_record now item res parsed rec s (runtime s id)) s)

    wrote-busy : (rec : Record) (c : Bool) → KeepsBusy s (wrote rec c)
    wrote-busy rec true = KeepsBusy-refl s
    wrote-busy rec false = after_result-busy now uuid id item parsed rec.job.input_owner s _ (
        of_same
          (commit-SameRuntimes now (result_record now item res parsed rec s (runtime s id)) s))

    go :
        (b : Bool) (o : Option Record)
        → KeepsBusy s
            (if b then s else elim o [ none ↦ s | some rec ↦ wrote rec rec.job.user_cancelled ])
    go true o = KeepsBusy-refl s
    go false none = KeepsBusy-refl s
    go false (some rec) = wrote-busy rec rec.job.user_cancelled

pub finish_item-busy :
    (now : ℕ) (uuid id : String) (item : Queued) (finish : Finish) (s : Service)
    → KeepsBusy s (finish_item now uuid id item finish s)
unfolding finish_item
finish_item-busy now uuid id item nothing s = KeepsBusy-refl s
finish_item-busy now uuid id item requeue s = enqueue-busy now uuid id item s
finish_item-busy now uuid id item not_persisted s =
    of_same (persistence_failed-SameRuntimes now id s)
finish_item-busy now uuid id item (lose m) s =
    if-busy (item.gen == current_gen s id) s _ s (disconnect_locked-busy now id m s)
      (KeepsBusy-refl s)
finish_item-busy now uuid id item (fail_with j e) s =
    if-busy (item.gen == current_gen s id) s _ s
      (if-busy e.is_disconnect s _ _ (disconnect_locked-busy now id e.message s)
        (fail-busy now j e.message s))
      (KeepsBusy-refl s)
finish_item-busy now uuid id item (fail_current e) s =
    if-busy (item.gen == current_gen s id) s _ s
      (if-busy e.is_disconnect s _ _ (disconnect_locked-busy now id e.message s) (go (load s id)))
      (KeepsBusy-refl s)
  where
    go : (o : Option Job) → KeepsBusy s (elim o [ none ↦ s | some job ↦ fail now job e.message s ])
    go none = KeepsBusy-refl s
    go (some job) = fail-busy now job e.message s
finish_item-busy now uuid id item (deliver res parsed) s =
    apply_prompt_result-busy now uuid id item res parsed s
