-- ===== src/Supervisor/Approvals.antt =====
-- internal/supervisor/plan.go: which approvals are registered, and a decision whose delivery failed.
use grok_mcp.Prelude.{
  ℕ, ◌+◌, String, Bool, true, false, not, ◌&&◌, ◌!=◌, Option, none, some, ◌==◌, ℕ_eq, String_eq,
  if◌then◌else◌, ◌≡◌, ◌≢◌, refl, ap, sym, subst, ◌∙◌, arith, eq_iff, inl, inr, ◌⊎◌, ne_of,
}
use grok_mcp.Protocol.State.{JobState, plan_ready, cancel, JobState_eq, PlanDecision_eq}
use grok_mcp.Protocol.Job.{Job, PlanDecideRequest}
use grok_mcp.Supervisor.State.{
  Runtime, Service, Err, runtime, set_runtime, not_found, persistence, incomplete_identity,
  unknown_session, stale_turn,
}
use grok_mcp.Supervisor.Records.{load, touch, save, ensure_runtime}
use grok_mcp.Supervisor.Plan.{
  PlanRequest, on_approval, plan_job, plan_activity, job_for_session, is_complete, is_current_turn,
  plan_delivered, undelivered, is_undelivered, dropped_turn,
}
use grok_mcp.Supervisor.Agreement.{Agrees, Agrees-trans, some_injective}
use grok_mcp.Supervisor.Durable.{load-save, load-ensure, load-set_runtime, runtime-ensure}
use grok_mcp.Supervisor.Loaded.{load-job_id, touch-job_id, touch-Agrees}

-- The approval names all of its identity.
pub record IsNamed (p : PlanRequest) : Type 0 where
  pub id : p.id ≢ ""
  pub connection : p.connection_id ≢ ""
  pub request : p.request_id ≢ ""
  pub turn : p.turn_id ≢ ""
  pub session : p.session_id ≢ ""

-- The approval is of the turn that runs, which was not cancelled.
pub record IsRunning (p : PlanRequest) (rt : Runtime) (job : Job) : Type 0 where
  pub busy : rt.busy ≡ true
  pub turn : rt.turn_id ≡ p.turn_id
  pub request : rt.request_id ≡ p.request_id
  pub uncancelled : rt.cancelled_turn ≡ false
  pub unstopped : job.user_cancelled ≡ false
  pub job_request : job.request_id ≡ p.request_id

-- The stored job waits for the decision on the plan `content`.
pub record Awaits (p : PlanRequest) (content : String) (job stored : Job) : Type 0 where
  pub state : stored.state ≡ plan_ready
  pub unapproved : stored.approved ≡ false
  pub version : stored.plan_version ≡ job.plan_version + 1
  pub turn : stored.plan_turn_id ≡ p.turn_id
  pub approval : stored.approval_id ≡ p.id
  pub connection : stored.approval_connection_id ≡ p.connection_id
  pub delivery : stored.approval_delivery ≡ "pending"
  pub plan : stored.plan_summary ≡ content
  pub request : stored.request_id ≡ job.request_id

-- What an approval that was accepted leaves: the plan in the job, or the job as it was if the
-- approval was known already.
pub record Registered (p : PlanRequest) (file id : String) (s t : Service) : Type 0 where
  pub complete : IsNamed p
  pub known : id ≢ ""
  pub job : Job
  pub found : load s id ≡ some job
  pub current : IsRunning p (runtime s id) job
  pub stored : Job
  pub reads_back : load t id ≡ some stored
  pub outcome :
      ((p.id ≡ job.approval_id) × (stored ≡ job))
      ⊎ ((p.id ≢ job.approval_id)
          × Awaits p (if p.content == "" then file else p.content) job stored)

all_of :
    (a b c d e : Bool)
    → (a && b && c && d && e) ≡ true
    → (a ≡ true) × (b ≡ true) × (c ≡ true) × (d ≡ true) × (e ≡ true)
all_of a b c d e h = ground arith

differs : (s : String) → (s != "") ≡ true → s ≢ ""
differs s h = ne_of s "" (go (s == "") h)
  where
    go : (b : Bool) → (if b then false else true) ≡ true → b ≡ false
    go true k = cc
    go false k = refl

named : (p : PlanRequest) → is_complete p ≡ true → IsNamed p
named p h =
    let (a, b, c, d, e) =
      all_of (p.id != "") (p.connection_id != "") (p.request_id != "") (p.turn_id != "")
        (p.session_id != "") h in
    record {
      id = differs p.id a;
      connection = differs p.connection_id b;
      request = differs p.request_id c;
      turn = differs p.turn_id d;
      session = differs p.session_id e;
    }

no_of : (b : Bool) → not b ≡ true → b ≡ false
no_of true h = cc
no_of false h = refl

running :
    (p : PlanRequest) (rt : Runtime) (job : Job)
    → is_current_turn p rt job ≡ true
    → IsRunning p rt job
running p rt job h =
    let (e, y) =
      both
        (rt.busy
          && rt.turn_id == p.turn_id
          && rt.request_id == p.request_id
          && not rt.cancelled_turn
          && not job.user_cancelled)
        (job.request_id == p.request_id) h in
    let (a, b, c, d, x) =
      all_of rt.busy (rt.turn_id == p.turn_id) (rt.request_id == p.request_id)
        (not rt.cancelled_turn) (not job.user_cancelled) e in
    record {
      busy = a;
      turn = (eq_iff rt.turn_id p.turn_id).0 b;
      request = (eq_iff rt.request_id p.request_id).0 c;
      uncancelled = no_of rt.cancelled_turn d;
      unstopped = no_of job.user_cancelled x;
      job_request = (eq_iff job.request_id p.request_id).0 y;
    }
  where
    both : (a b : Bool) → (a && b) ≡ true → (a ≡ true) × (b ≡ true)
    both a b k = ground arith

awaits :
    (digest title : String → String) (p : PlanRequest) (content : String) (job stored : Job)
    → Agrees stored (plan_job digest title p content job)
    → Awaits p content job stored
awaits digest title p content job stored a = record {
  state = a.state;
  unapproved = a.approved;
  version = a.plan_version;
  turn = a.plan_turn_id;
  approval = a.approval_id;
  connection = a.approval_connection_id;
  delivery = a.approval_delivery;
  plan = a.plan_summary;
  request = a.request_id;
}

of_not : (b : Bool) → not b ≡ false → b ≡ true
of_not true h = refl
of_not false h = cc

approval_cases :
    (a b : Bool) (o : Option Job) (s₀ s t : Service) (c d : Job → Bool) (f : Job → Service × Bool)
    → (if not a
        then (s₀, some incomplete_identity)
        else if b
        then (s₀, some unknown_session)
        else elim o as (λ _. Service × Option Err) [
          | none ↦ (s, some not_found)
          | some job ↦
              if not (c job)
              then (s, some stale_turn)
              else if d job
              then (s, none)
              else ((f job).0, if (f job).1 then none else some persistence)
        ])
      ≡ (t, none)
    → (a ≡ true)
      × (b ≡ false)
      × (job : Job) × (o ≡ some job)
      × (c job ≡ true)
      × (((d job ≡ true) × (s ≡ t)) ⊎ ((d job ≡ false) × ((f job).0 ≡ t) × ((f job).1 ≡ true)))
approval_cases false b o s₀ s t c d f h = ground arith
approval_cases true true o s₀ s t c d f h = ground arith
approval_cases true false none s₀ s t c d f h = ground arith
approval_cases true false (some job) s₀ s t c d f h = go (c job) (d job) (f job) refl refl refl h
  where
    go :
        (x y : Bool) (r : Service × Bool)
        → c job ≡ x
        → d job ≡ y
        → f job ≡ r
        → if◌then◌else◌ {A = Service × Option Err}
            (not x)
            (s, some stale_turn)
            (if◌then◌else◌ {A = Service × Option Err} y
              (s, none)
              (r.0, if r.1 then none else some persistence))
          ≡ (t, none)
        → (true ≡ true)
          × (false ≡ false)
          × (j : Job) × (some job ≡ some j)
          × (c j ≡ true)
          × (((d j ≡ true) × (s ≡ t)) ⊎ ((d j ≡ false) × ((f j).0 ≡ t) × ((f j).1 ≡ true)))
    go false y r p q e k = ground arith
    go true true r p q e k =
        (refl, refl, job, refl, p, inl (q, ap (λ (x : Service × Option Err). x.0) k))
    go true false (u, true) p q e k = (
      refl,
      refl,
      job,
      refl,
      p,
      inr (
        q,
        ap (λ (x : Service × Bool). x.0) e ∙ ap (λ (x : Service × Option Err). x.0) k,
        ap (λ (x : Service × Bool). x.1) e,
      ),
    )
    go true false (u, false) p q e k = ground arith

-- An approval is registered without error only if it names all of its identity, its session is a
-- job's, and it comes from the turn and the request that run and were not cancelled; and then the
-- stored job waits for a decision on the approval's plan, or the plan file's where that is empty,
-- under the next version and not approved. An approval that the job knows already leaves the stored
-- job as it is.
pub on_approval-Registered :
    (digest title : String → String) (now : ℕ) (p : PlanRequest) (file : String) (s t : Service)
    → on_approval digest title now p file s ≡ (t, none)
    → Registered p file (job_for_session s p.session_id) s t
unfolding on_approval
on_approval-Registered digest title now p file s₀ t h =
    let id = job_for_session s₀ p.session_id in
    let s = ensure_runtime id s₀ in
    let u = set_runtime id (plan_activity p (runtime s id)) s in
    let next : Job → Job = λ job.
      touch now u (plan_job digest title p (if p.content == "" then file else p.content) job) in
    let (a, b, job, l, c, w) =
      approval_cases (is_complete p) (id == "") (load s id) s₀ s t
        (λ job. is_current_turn p (runtime s id) job) (λ job. p.id == job.approval_id)
        (λ job. save now (next job) u) h in
    let found : load s₀ id ≡ some job = sym (load-ensure id id s₀) ∙ l in
    let current =
      running p (runtime s₀ id) job
        (ap (λ r. is_current_turn p r job) (sym (runtime-ensure id s₀)) ∙ c) in
    elim w as (λ _. Registered p file id s₀ t) [
      | inl (d, e) ↦ record {
        complete = named p a;
        known = ne_of id "" b;
        job = job;
        found = found;
        current = current;
        stored = job;
        reads_back = ap (λ (x : Service). load x id) (sym e) ∙ l;
        outcome = inl ((eq_iff p.id job.approval_id).0 d, refl);
      }
      | inr (d, e, saved) ↦
          let (j, r, agrees) = load-save now (next job) u saved in
          let same_id : (next job).job_id ≡ id =
            touch-job_id now u
              (plan_job digest title p (if p.content == "" then file else p.content) job)
            ∙ load-job_id s₀ id job found in
          record {
            complete = named p a;
            known = ne_of id "" b;
            job = job;
            found = found;
            current = current;
            stored = j;
            reads_back =
                ap (λ (x : Service). load x id) (sym e)
                ∙ ap (load (save now (next job) u).0) (sym same_id)
                ∙ r;
            outcome = inr (
              ne_of p.id job.approval_id d,
              awaits digest title p (if p.content == "" then file else p.content) job j (
                  Agrees-trans agrees (
                    touch-Agrees now u
                      (plan_job digest title p (if p.content == "" then file else p.content) job))),
            );
          }
    ]

-- The job whose decision may not have reached the agent.
pub record InDoubt (id : String) (t : Service) : Type 0 where
  pub stored : Job
  pub reads_back : load t id ≡ some stored
  pub state : stored.state ≡ JobState.needs_input
  pub delivery : stored.approval_delivery ≡ "unknown"
  pub unapproved : stored.approved ≡ false

drop-load :
    (b : Bool) (id k : String) (rt : Runtime) (t : Service)
    → load (if b then set_runtime id rt t else t) k ≡ load t k
drop-load true id k rt t = load-set_runtime id k rt t
drop-load false id k rt t = refl

-- Where a recorded decision is not delivered and no error is reported, it is in doubt: the stored
-- job waits for its user, its delivery is unknown, and it is not approved.
pub undelivered_is_InDoubt :
    (now : ℕ) (req : PlanDecideRequest) (s t : Service) (job : Job)
    → load s req.job_id ≡ some job
    → is_undelivered req.approval_id false job ≡ true
    → plan_delivered now req false s ≡ (t, none)
    → InDoubt req.job_id t
unfolding plan_delivered
undelivered_is_InDoubt now req s t job l w h = go (load s req.job_id) l h
  where
    next : Job
    next = touch now s (undelivered job)

    drop : Service → Service
    drop u =
        if req.decide == cancel
        then set_runtime req.job_id (dropped_turn (runtime u req.job_id)) u
        else u

    kept :
        (r : Service × Bool)
        → save now next s ≡ r
        → if◌then◌else◌ {A = Service × Option Err} r.1 (drop r.0, none) (r.0, some persistence)
          ≡ (t, none)
        → InDoubt req.job_id t
    kept (u, false) e k = absurd (cc (ap (λ (x : Service × Option Err). x.1) k))
    kept (u, true) e k =
        let (j, r, a) = load-save now next s (ap (λ (x : Service × Bool). x.1) e) in
        let same_id : next.job_id ≡ req.job_id =
          touch-job_id now s (undelivered job) ∙ load-job_id s req.job_id job l in
        let b = Agrees-trans a (touch-Agrees now s (undelivered job)) in
        record {
          stored = j;
          reads_back =
              ap (λ (x : Service × Option Err). load x.0 req.job_id) (sym k)
              ∙ drop-load (req.decide == cancel) req.job_id req.job_id
                  (dropped_turn (runtime u req.job_id)) u
              ∙ ap (λ (x : Service × Bool). load x.0 req.job_id) (sym e)
              ∙ ap (load (save now next s).0) (sym same_id)
              ∙ r;
          state = b.state;
          delivery = b.approval_delivery;
          unapproved = b.approved;
        }

    go :
        (o : Option Job)
        → o ≡ some job
        → elim o as (λ _. Service × Option Err) [
          | none ↦ (drop s, none)
          | some j ↦
              if is_undelivered req.approval_id false j
              then (let (u, saved) = save now (touch now s (undelivered j)) s in
                  if saved then (drop u, none) else (u, some persistence))
              else (drop s, none)
        ]
          ≡ (t, none)
        → InDoubt req.job_id t
    go none e k = absurd (cc)
    go (some j) e k = either (is_undelivered req.approval_id false j) j (some_injective e) refl k
      where
        either :
            (b : Bool) (i : Job)
            → i ≡ job
            → is_undelivered req.approval_id false i ≡ b
            → if◌then◌else◌ {A = Service × Option Err} b
                (let (u, saved) = save now (touch now s (undelivered i)) s in
                  if saved then (drop u, none) else (u, some persistence))
                (drop s, none)
              ≡ (t, none)
            → InDoubt req.job_id t
        either false i same e k =
            absurd (cc (ap (λ x. is_undelivered req.approval_id false x) same))
        either true i same e k = kept (save now next s) refl (
            subst
              (λ (x : Job).
                if◌then◌else◌ {A = Service × Option Err}
                  (save now (touch now s (undelivered x)) s).1
                  (drop (save now (touch now s (undelivered x)) s).0, none)
                  ((save now (touch now s (undelivered x)) s).0, some persistence)
                ≡ (t, none))
              same k)
