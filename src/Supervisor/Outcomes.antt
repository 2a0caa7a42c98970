-- ===== src/Supervisor/Outcomes.antt =====
-- internal/supervisor/turn.go: what the answer of a turn does to its job.
use grok_mcp.Prelude.{
  ℕ, String, Bool, true, false, ◌&&◌, ◌||◌, List, [], ◌∷◌, Option, none, some, ◌==◌, ◌!=◌, ℕ_eq,
  String_eq, if◌then◌else◌, ◌≡◌, refl, ap, sym, subst, ◌∙◌, arith, Option-cases, inl, inr, ◌⊎◌, ltb,
  length,
}
use grok_mcp.Protocol.State.{
  JobState, TaskMarker, InputOwner, supervisor, JobState_eq, InputOwner_eq,
}
use grok_mcp.Protocol.Job.{Job}
use grok_mcp.Protocol.TaskState.{TaskState}
use grok_mcp.Store.Tables.{Record, get_job}
use grok_mcp.Store.Queries.{request_state}
use grok_mcp.Supervisor.State.{Queued, Runtime, Service, Err, runtime}
use grok_mcp.Supervisor.Records.{load, commit}
use grok_mcp.Supervisor.Fifo.{current_gen, enqueue}
use grok_mcp.Supervisor.Turn.{
  PromptResult, apply_prompt_result, after_result, continue_after, result_record, marked_job,
  requeued_job, returned_job, continuation, is_working, moved_on, is_cancelled_state,
}
use grok_mcp.Supervisor.Agreement.{Agrees, Agrees-refl}
use grok_mcp.Supervisor.Durable.{load-commit, commit_cases}
use grok_mcp.Supervisor.Loaded.{
  get_job-job_id, touch-Agrees, touch-job_id, load-persistence_failed, load-record,
}
use grok_mcp.Supervisor.AcceptedWork.{enqueue-Agrees}

-- A turn completes a job only by a status block that says so, and only if nothing else waits.
pub record Completes (parsed : Option TaskState) (rt : Runtime) : Type 0 where
  pub block : TaskState
  pub said : parsed ≡ some block
  pub completed : block.state ≡ TaskMarker.completed
  pub alone : rt.queue ≡ []

nothing_waits : (queue : List Queued) → ltb 0 (length queue) ≡ false → queue ≡ []
nothing_waits [] h = refl
nothing_waits (q ∷ qs) h = ground arith

completed_job :
    (parsed : Option TaskState) (rt : Runtime) (job : Job)
    → (requeued_job (ltb 0 (length rt.queue)) (marked_job parsed job)).state ≡ JobState.completed
    → Completes parsed rt
completed_job none rt job h = absurd (ground arith)
completed_job (some ts) rt job h = go ts.state refl (ltb 0 (length rt.queue)) refl h
  where
    go :
        (m : TaskMarker)
        → ts.state ≡ m
        → (b : Bool) → ltb 0 (length rt.queue) ≡ b
        → (requeued_job b (marked_job (some (record ts { state = m })) job)).state
          ≡ JobState.completed
        → Completes (some ts) rt
    go TaskMarker.completed e false w k = record {
      block = ts;
      said = refl;
      completed = e;
      alone = nothing_waits rt.queue w;
    }
    go TaskMarker.completed e true w k = absurd (ground arith)
    go TaskMarker.working e b w k = absurd (ground arith)
    go TaskMarker.needs_input e b w k = absurd (ground arith)
    go TaskMarker.blocked e b w k = absurd (ground arith)

load-none : (id : String) (s : Service) → get_job s.store id ≡ none → load s id ≡ none
unfolding load
load-none id s e = rw (e, load) refl

marked-job_id :
    (parsed : Option TaskState) (b : Bool) (job : Job)
    → (requeued_job b (marked_job parsed job)).job_id ≡ job.job_id
marked-job_id none b job = refl
marked-job_id (some ts) b job = go ts.state b
  where
    go :
        (m : TaskMarker) (b : Bool)
        → (requeued_job b (marked_job (some (record ts { state = m })) job)).job_id ≡ job.job_id
    go TaskMarker.working b = refl
    go TaskMarker.needs_input b = refl
    go TaskMarker.blocked b = refl
    go TaskMarker.completed true = refl
    go TaskMarker.completed false = refl

some_job : {i j : Job} → some i ≡ some j → i ≡ j
some_job {i} k = ap (λ (o : Option Job). elim o [ none ↦ i | some z ↦ z ]) k

-- The work of the stored job after a result was written.
after_result-Agrees :
    (now : ℕ) (uuid id : String) (item : Queued) (parsed : Option TaskState) (owner : InputOwner)
    (t : Service) (j : Job)
    → load t id ≡ some j
    → (after : Job) × (load (after_result now uuid id item parsed owner (t, true)) id ≡ some after)
      × Agrees after j
after_result-Agrees now uuid id item parsed owner t j l =
    go (is_working parsed && owner == supervisor)
  where
    queued :
        (rec : Record)
        → get_job t.store id ≡ some rec
        → rec.job ≡ j
        → (after : Job) × (load (enqueue now uuid id (continuation item.request_id) t).0 id
            ≡ some after)
          × Agrees after j
    queued rec e same =
        let (after, r, a) =
          enqueue-Agrees now uuid id (continuation item.request_id) t rec refl e in
        (after, r, subst (Agrees after) same a)

    next : Service × Option Err
    next = enqueue now uuid id (continuation item.request_id) t

    continued : (p : Service × Option Err) → load (continue_after now id p) id ≡ load p.0 id
    continued (u, none) = refl
    continued (u, some e) = load-persistence_failed now id id u

    went_on : (after : Job) × (load (continue_after now id next) id ≡ some after) × Agrees after j
    went_on = elim (Option-cases (get_job t.store id)) [
      | inl e ↦ absurd (cc (sym (load-none id t e) ∙ l))
      | inr (rec, e) ↦
          let (after, r, a) = queued rec e (some_job (sym (load-record id t rec e) ∙ l)) in
          (after, continued next ∙ r, a)
    ]

    go :
        (b : Bool)
        → (after : Job) × (load (if b then continue_after now id next else t) id ≡ some after)
          × Agrees after j
    go true = went_on
    go false = (j, l, Agrees-refl j)

load-uncommitted :
    (now : ℕ) (rec : Record) (s : Service) (id : String)
    → (commit now rec s).1 ≡ false
    → load (commit now rec s).0 id ≡ load s id
load-uncommitted now rec s id h = elim (commit_cases now rec s) [
  | inl e ↦
      ap (λ (p : Service × Bool). load p.0 id) e ∙ load-persistence_failed now rec.job.job_id id s
  | inr (t, w, e) ↦ absurd (cc (ap (λ (p : Service × Bool). p.1) e, h))
]

-- The work that a turn's answer writes.
abbrev answered_job : Queued → Option TaskState → Record → Runtime → Job
answered_job item parsed rec rt =
    requeued_job (ltb 0 (length rt.queue)) (marked_job parsed (returned_job item rt rec.job))

written_answer :
    (now : ℕ) (uuid id : String) (item : Queued) (res : PromptResult) (parsed : Option TaskState)
    (s : Service) (rec : Record) (r : Service × Bool) (after : Job)
    → rec.job.job_id ≡ id
    → commit now (result_record now item res parsed rec s (runtime s id)) s ≡ r
    → load (after_result now uuid id item parsed rec.job.input_owner r) id ≡ some after
    → after.state ≡ JobState.completed
    → (load s id ≡ some after) ⊎ Completes parsed (runtime s id)
written_answer now uuid id item res parsed s rec (t, false) after i e k c =
    let result = result_record now item res parsed rec s (runtime s id) in
    inl (
      sym (load-uncommitted now result s id (ap (λ (x : Service × Bool). x.1) e))
      ∙ ap (λ (x : Service × Bool). load x.0 id) e
      ∙ k)
written_answer now uuid id item res parsed s rec (t, true) after i e k c =
    let result = result_record now item res parsed rec s (runtime s id) in
    let job = answered_job item parsed rec (runtime s id) in
    let same_id : result.job.job_id ≡ id =
      touch-job_id now s job
      ∙ marked-job_id parsed _ (returned_job item (runtime s id) rec.job)
      ∙ i in
    let (j, r, a) = load-commit now result s (ap (λ (x : Service × Bool). x.1) e) in
    let found : load t id ≡ some j =
      ap (λ (x : Service × Bool). load x.0 id) (sym e)
      ∙ ap (load (commit now result s).0) (sym same_id)
      ∙ r in
    let (x, m, b) = after_result-Agrees now uuid id item parsed rec.job.input_owner t j found in
    inr (
      completed_job parsed (runtime s id) (returned_job item (runtime s id) rec.job) (
        sym (touch-Agrees now s job).state
        ∙ sym a.state
        ∙ sym b.state
        ∙ ap (λ (y : Job). y.state) (some_job (sym m ∙ k))
        ∙ c))

-- A turn's answer completes its job only by a status block that says so and only if no other request
-- of the job waits; in every other case a job that is completed afterwards was so before.
pub completed_is_reported :
    (now : ℕ) (uuid id : String) (item : Queued) (res : PromptResult) (parsed : Option TaskState)
    (s : Service) (after : Job)
    → load (apply_prompt_result now uuid id item res parsed s) id ≡ some after
    → after.state ≡ JobState.completed
    → (load s id ≡ some after) ⊎ Completes parsed (runtime s id)
unfolding apply_prompt_result
completed_is_reported now uuid id item res parsed s after l c =
    go
      (item.gen != current_gen s id
        || is_cancelled_state (request_state id item.request_id s.store)
        || moved_on item (runtime s id))
      (get_job s.store id) refl l
  where
    result : Record → Record
    result rec = result_record now item res parsed rec s (runtime s id)

    either :
        (b : Bool) (rec : Record)
        → rec.job.job_id ≡ id
        → load
            (if b
              then s
              else after_result now uuid id item parsed rec.job.input_owner
                  (commit now (result rec) s))
            id
          ≡ some after
        → (load s id ≡ some after) ⊎ Completes parsed (runtime s id)
    either true rec i k = inl k
    either false rec i k =
        written_answer now uuid id item res parsed s rec (commit now (result rec) s) after i refl k
          c

    go :
        (b : Bool) (o : Option Record)
        → get_job s.store id ≡ o
        → load
            (if b then s else elim o as (λ _. Service) [
              | none ↦ s
              | some rec ↦
                  if rec.job.user_cancelled
                  then s
                  else after_result now uuid id item parsed rec.job.input_owner
                      (commit now (result rec) s)
            ])
            id
          ≡ some after
        → (load s id ≡ some after) ⊎ Completes parsed (runtime s id)
    go true o e k = inl k
    go false none e k = inl k
    go false (some rec) e k = either rec.job.user_cancelled rec (get_job-job_id id s.store rec e) k
