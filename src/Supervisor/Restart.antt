-- ===== src/Supervisor/Restart.antt =====
-- internal/supervisor/recover.go: what a lost connection and a restart leave behind.
use grok_mcp.Prelude.{
  ℕ, String, Bool, true, false, ◌||◌, [], Option, none, some, ◌==◌, ℕ_eq, String_eq, if◌then◌else◌,
  ◌≡◌, refl, ap, sym, ◌∙◌, arith, inl, inr, ◌⊎◌,
}
use grok_mcp.Protocol.State.{
  supervisor, headless, is_active, disconnected, JobState_eq, ViewMode_eq, InputOwner_eq,
}
use grok_mcp.Protocol.Job.{Job}
use grok_mcp.Store.Tables.{Record, get_job}
use grok_mcp.Supervisor.State.{
  Queued, Runtime, Service, Err, not_found, persistence, runtime, set_runtime, next_u64,
}
use grok_mcp.Supervisor.Records.{load, touch, save, write, emit}
use grok_mcp.Supervisor.Fifo.{current_gen}
use grok_mcp.Supervisor.Recover.{
  disconnect_locked, disconnected_runtime, disconnected_job, mark_awaiting_resume, resumed, at_rest,
  expired_plan, doubted_delivery, parked,
}
use grok_mcp.Supervisor.Pump.{Finish, finish_item}
use grok_mcp.Supervisor.Watchdog.{unstalled}
use grok_mcp.Supervisor.Agreement.{Agrees}
use grok_mcp.Supervisor.Durable.{load-write, load-emit, save-SameRuntimes, runtime_after}
use grok_mcp.Supervisor.Staleness.{finish_item-stale, acts, next_u64-ne}
use grok_mcp.Supervisor.Loaded.{get_job-job_id, touch-Agrees, touch-job_id, load-record}

-- A job for which nothing runs: the supervisor has its input, and no window shows it.
pub record AtRest (job : Job) : Type 0 where
  pub idle : is_active job.state ≡ false
  pub hidden : job.view_mode ≡ headless
  pub owner : job.input_owner ≡ supervisor

down_idle :
    (a b : Bool) (x y : Job)
    → is_active x.state ≡ false
    → is_active y.state ≡ a
    → is_active (if a || b then x else y).state ≡ false
down_idle true b x y p q = p
down_idle false true x y p q = p
down_idle false false x y p q = q

parked-idle : (job : Job) → is_active (parked job).state ≡ false
parked-idle job = down_idle (is_active job.state) (job.state == disconnected) _ job refl refl

resumed-AtRest : (job : Job) → AtRest (resumed job)
resumed-AtRest job = record {
  idle = parked-idle (doubted_delivery (expired_plan job));
  hidden = refl;
  owner = refl;
}

AtRest-Agrees : {i j : Job} → Agrees i j → AtRest j → AtRest i
AtRest-Agrees a r = record {
  idle = ap is_active a.state ∙ r.idle;
  hidden = a.view_mode ∙ r.hidden;
  owner = a.input_owner ∙ r.owner;
}

rested : (job : Job) → at_rest (doubted_delivery (expired_plan job)) ≡ true → AtRest job
rested job h = ground arith

mark_cases :
    (o : Option Record) (s t : Service) (w : Record → Option Service) (f : Job → Service → Service)
    → elim o as (λ _. Service × Option Err) [
      | none ↦ (s, some not_found)
      | some rec ↦
          if rec.job.user_cancelled || at_rest (doubted_delivery (expired_plan rec.job))
          then (s, none)
          else elim (w rec) as (λ _. Service × Option Err) [
            | none ↦ (s, some persistence)
            | some u ↦ (f rec.job u, none)
          ]
    ]
      ≡ (t, none)
    → (rec : Record) × (o ≡ some rec)
      × (((s ≡ t)
            × ((rec.job.user_cancelled ≡ true)
                ⊎ (at_rest (doubted_delivery (expired_plan rec.job)) ≡ true)))
          ⊎ ((u : Service) × (w rec ≡ some u) × (f rec.job u ≡ t)))
mark_cases none s t w f h = ground arith
mark_cases (some rec) s t w f h = (
  rec,
  refl,
  go rec.job.user_cancelled (at_rest (doubted_delivery (expired_plan rec.job))) (w rec) h,
)
  where
    go :
        (a b : Bool) (o : Option Service)
        → if◌then◌else◌ {A = Service × Option Err}
            (a || b)
            (s, none)
            (elim o as (λ _. Service × Option Err) [
              | none ↦ (s, some persistence)
              | some u ↦ (f rec.job u, none)
            ])
          ≡ (t, none)
        → ((s ≡ t) × ((a ≡ true) ⊎ (b ≡ true))) ⊎ ((u : Service) × (o ≡ some u) × (f rec.job u ≡ t))
    go true b o k = inl (ap (λ (x : Service × Option Err). x.0) k, inl refl)
    go false true o k = inl (ap (λ (x : Service × Option Err). x.0) k, inr refl)
    go false false none k = ground arith
    go false false (some u) k = inr (u, refl, ap (λ (x : Service × Option Err). x.0) k)

-- After a restart looked at a job and reported no error, nothing runs for that job: it is not in an
-- active state, no window shows it and the supervisor has its input, or its user had cancelled it.
pub restart_parks :
    (now : ℕ) (id : String) (s t : Service)
    → mark_awaiting_resume now id s ≡ (t, none)
    → (job : Job) × (load t id ≡ some job) × ((job.user_cancelled ≡ true) ⊎ AtRest job)
unfolding mark_awaiting_resume
restart_parks now id s t h =
    let w : Record → Option Service =
      λ rec. write (record rec { job = touch now s (resumed rec.job) }) s in
    let f : Job → Service → Service = λ job u. emit now (touch now s (resumed job)) u in
    let (rec, o, c) = mark_cases (get_job s.store id) s t w f h in
    elim c
      as (λ _. (job : Job) × (load t id ≡ some job) × ((job.user_cancelled ≡ true) ⊎ AtRest job)) [
        | inl (e, why) ↦
            (rec.job, ap (λ x. load x id) (sym e) ∙ load-record id s rec o, kept rec.job why)
        | inr (u, e, p) ↦
            let (j, l, a) = load-write (record rec { job = touch now s (resumed rec.job) }) s u e in
            let same_id : (touch now s (resumed rec.job)).job_id ≡ id =
              touch-job_id now s (resumed rec.job)
              ∙ resumed-job_id rec.job
              ∙ get_job-job_id id s.store rec o in
            (
              j,
              ap (λ x. load x id) (sym p)
                  ∙ load-emit now (touch now s (resumed rec.job)) u id
                  ∙ ap (load u) (sym same_id)
                  ∙ l,
              inr (
                  AtRest-Agrees a (
                    AtRest-Agrees (touch-Agrees now s (resumed rec.job)) (resumed-AtRest rec.job))),
            )
      ]
  where
    kept :
        (job : Job)
        → (job.user_cancelled ≡ true) ⊎ (at_rest (doubted_delivery (expired_plan job)) ≡ true)
        → (job.user_cancelled ≡ true) ⊎ AtRest job
    kept job (inl c) = inl c
    kept job (inr r) = inr (rested job r)

    resumed-job_id : (job : Job) → (resumed job).job_id ≡ job.job_id
    resumed-job_id job = ground arith

-- The runtime of a job whose connection was lost.
pub record Dropped (id : String) (s t : Service) : Type 0 where
  pub gen : current_gen t id ≡ next_u64 (current_gen s id)
  pub queue : (runtime t id).queue ≡ []
  pub cancelled : (runtime t id).cancelled_turn ≡ true

pub disconnect_locked-Dropped :
    (now : ℕ) (id reason : String) (s : Service) (job : Job)
    → load s id ≡ some job
    → job.user_cancelled ≡ false
    → Dropped id s (disconnect_locked now id reason s)
unfolding disconnect_locked current_gen
disconnect_locked-Dropped now id reason s job l c = go (load s id) l
  where
    set : Service
    set = set_runtime id (disconnected_runtime (runtime s id)) s

    saves : Job → Service
    saves j = (save now (touch now s (disconnected_job reason j)) set).0

    dropped :
        (t : Service)
        → unstalled (runtime t id) ≡ unstalled (disconnected_runtime (runtime s id))
        → Dropped id s t
    dropped t e = record {
      gen = ap (λ (r : Runtime). r.gen) e;
      queue = ap (λ (r : Runtime). r.queue) e;
      cancelled = ap (λ (r : Runtime). r.cancelled_turn) e;
    }

    saved : (j : Job) (b : Bool) → b ≡ false → Dropped id s (if b then s else saves j)
    saved j true e = absurd (cc)
    saved j false e = dropped (saves j) (
        runtime_after id (disconnected_runtime (runtime s id)) s (saves j)
          (save-SameRuntimes now (touch now s (disconnected_job reason j)) set))

    go :
        (o : Option Job)
        → o ≡ some job
        → Dropped id s (elim o as (λ _. Service) [
          | none ↦ s
          | some j ↦ if j.user_cancelled then s else saves j
        ])
    go none e = absurd (cc)
    go (some j) e =
        saved j j.user_cancelled
          (ap (λ (o : Option Job). elim o [ none ↦ false | some x ↦ x.user_cancelled ]) e ∙ c)

-- Where the connection of a job is lost, and the job can be read and was not cancelled by its
-- user, the job's queue is emptied, so that nothing is sent again by itself, and what a turn of
-- the generation that ran still returns changes nothing, but for queueing its item again and
-- reporting a failed write.
pub disconnected_turn_is_stale :
    (now later : ℕ) (id reason uuid : String) (s : Service) (job : Job) (item : Queued)
    (finish : Finish)
    → load s id ≡ some job
    → job.user_cancelled ≡ false
    → item.gen ≡ current_gen s id
    → acts finish ≡ true
    → ((runtime (disconnect_locked now id reason s) id).queue ≡ [])
      × (finish_item later uuid id item finish (disconnect_locked now id reason s)
          ≡ disconnect_locked now id reason s)
disconnected_turn_is_stale now later id reason uuid s job item finish l c e a =
    let d = disconnect_locked-Dropped now id reason s job l c in
    (
      d.queue,
      finish_item-stale later uuid id item finish (disconnect_locked now id reason s) a
          λ same. next_u64-ne (current_gen s id) (sym e ∙ same ∙ d.gen),
    )
