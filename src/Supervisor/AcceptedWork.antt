-- ===== src/Supervisor/AcceptedWork.antt =====
-- internal/supervisor/fifo.go: a request that is accepted leaves its job's work as it was.
use grok_mcp.Prelude.{
  ℕ, String, Bool, true, false, Option, none, some, ℕ_eq, String_eq, if◌then◌else◌, ◌≡◌, refl, ap,
  sym, subst, ◌∙◌,
}
use grok_mcp.Protocol.State.{JobState_eq, InputOwner_eq}
use grok_mcp.Protocol.Job.{Job, zero_job}
use grok_mcp.Store.Tables.{Record, get_job}
use grok_mcp.Supervisor.State.{
  Queued, Runtime, Service, Err, closed, not_found, persistence, runtime, set_runtime,
}
use grok_mcp.Supervisor.Records.{load, write, emit, ensure_runtime, or_job, persistence_failed}
use grok_mcp.Supervisor.Fifo.{enqueue, stamped, accepted_request, push, start_pump, insert_item}
use grok_mcp.Supervisor.Agreement.{Agrees, Agrees-refl}
use grok_mcp.Supervisor.Durable.{load-write, load-ensure}
use grok_mcp.Supervisor.Loaded.{get_job-job_id, load-persistence_failed, load-record}

load-push :
    (now : ℕ) (id k : String) (q : Queued) (s : Service) → load (push now id q s) k ≡ load s k
unfolding emit load set_runtime
load-push now id k q s = go (runtime s id).busy k
  where
    rt : Runtime
    rt = record (runtime s id) { queue = insert_item q (runtime s id).queue }

    t : Service
    t = set_runtime id rt s

    go :
        (b : Bool) (k : String)
        → load (start_pump id b (emit now (or_job (load t id) zero_job) t)) k ≡ load s k
    go true k = refl
    go false k = refl

-- Queueing a request that brings no job of its own leaves the work of a job that can be read as
-- it is stored, also where it fails.
pub enqueue-Agrees :
    (now : ℕ) (uuid id : String) (q : Queued) (s : Service) (rec : Record)
    → q.accepted_job ≡ none
    → get_job s.store id ≡ some rec
    → (after : Job) × (load (enqueue now uuid id q s).0 id ≡ some after) × Agrees after rec.job
unfolding enqueue ensure_runtime set_runtime
enqueue-Agrees now uuid id q₀ s₀ rec n l = go s₀.closed (get_job s₀.store id) l
  where
    s : Service
    s = ensure_runtime id s₀

    q : Queued
    q = stamped s id uuid q₀

    asked : Record → Record
    asked r = record r { job = or_job q.accepted_job r.job; accepted = some (accepted_request q) }

    loaded : load s id ≡ some rec.job
    loaded = load-ensure id id s₀ ∙ load-record id s₀ rec l

    asked_job : (r : Record) → (asked r).job ≡ r.job
    asked_job r = ap (λ o. or_job o r.job) n

    wrote :
        (o : Option Service)
        → write (asked rec) s ≡ o
        → (after : Job) × (load
              (elim o as (λ _. Service × Option Err) [
                | none ↦ (persistence_failed now id s, some persistence)
                | some t ↦ (push now id q t, none)
              ]).0
              id
            ≡ some after)
          × Agrees after rec.job
    wrote none e = (rec.job, load-persistence_failed now id id s ∙ loaded, Agrees-refl rec.job)
    wrote (some t) e =
        let (j, r, a) = load-write (asked rec) s t e in
        let same_id : (asked rec).job.job_id ≡ id =
          ap (λ (x : Job). x.job_id) (asked_job rec) ∙ get_job-job_id id s₀.store rec l in
        (
          j,
          load-push now id id q t ∙ ap (load t) (sym same_id) ∙ r,
          subst (Agrees j) (asked_job rec) a,
        )

    go :
        (b : Bool) (o : Option Record)
        → o ≡ some rec
        → (after : Job) × (load
              (if◌then◌else◌ {A = Service × Option Err} b
                (s, some closed)
                (elim o as (λ _. Service × Option Err) [
                  | none ↦ (s, some not_found)
                  | some r ↦ elim (write (asked r) s) as (λ _. Service × Option Err) [
                    | none ↦ (persistence_failed now id s, some persistence)
                    | some t ↦ (push now id q t, none)
                  ]
                ])).0
              id
            ≡ some after)
          × Agrees after rec.job
    go true o e = (rec.job, loaded, Agrees-refl rec.job)
    go false none e = absurd (cc)
    go false (some r) e =
        let same : r ≡ rec = ap (λ (x : Option Record). elim x [ none ↦ rec | some y ↦ y ]) e in
        subst
          (λ (x : Record).
            (after : Job) × (load
                (elim (write (asked x) s) as (λ _. Service × Option Err) [
                  | none ↦ (persistence_failed now id s, some persistence)
                  | some t ↦ (push now id q t, none)
                ]).0
                id
              ≡ some after)
            × Agrees after rec.job)
          (sym same) (wrote (write (asked rec) s) refl)
