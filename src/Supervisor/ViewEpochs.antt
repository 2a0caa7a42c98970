-- ===== src/Supervisor/ViewEpochs.antt =====
-- internal/supervisor/view.go: a view's requests, and what a view leaves of the job's work.
use grok_mcp.Prelude.{
  ℕ, String, Bool, true, false, not, ◌&&◌, ◌||◌, Option, none, some, ◌==◌, ℕ_eq, String_eq,
  if◌then◌else◌, ◌≡◌, refl, ap, sym, ◌∙◌, Option-cases, Bool-cases, eq_iff, inl, inr,
}
use grok_mcp.Protocol.State.{JobState_eq, headless}
use grok_mcp.Protocol.Job.{Job}
use grok_mcp.Supervisor.State.{
  Handle, Runtime, Service, Result, ok, err, not_found, runtime, set_runtime, runtime-set_runtime,
}
use grok_mcp.Supervisor.Records.{load, touch, save_view_locked, ensure_runtime}
use grok_mcp.Supervisor.View.{
  set_view, requested_runtime, view_request_current, commit_headed, fail_headless, noted_worker,
  save_requested_view,
}
use grok_mcp.Supervisor.Durable.{SameRuntimes, SameRuntimes-refl, save-SameRuntimes, runtime_after}

save_view_locked-SameRuntimes :
    (now : ℕ) (view : Job) (s : Service) → SameRuntimes s (save_view_locked now view s)
unfolding save_view_locked
save_view_locked-SameRuntimes now view s = elim (Option-cases (load s view.job_id)) [
  | inl e ↦ rw (e, save_view_locked) (SameRuntimes-refl s)
  | inr (j, e) ↦ rw (e, save_view_locked) (save-SameRuntimes now _ s)
]

-- The hide request of `set_view`, taken apart.
hidden_runtime :
    (now : ℕ) (id : String) (s t : Service) (e : ℕ)
    → set_view now id headless s ≡ (t, ok e)
    → (runtime t id).view_requested ≡ false
unfolding set_view
hidden_runtime now id s₀ t e h = go (load s id) h
  where
    s : Service
    s = ensure_runtime id s₀

    u : Service
    u = set_runtime id (requested_runtime false (runtime s id)) s

    hide : Job → Service
    hide job = save_view_locked now (touch now u (record job { desired_view_mode = headless })) u

    go :
        (o : Option Job)
        → elim o as (λ _. Service × Result ℕ) [
          | none ↦ (s, err not_found)
          | some job ↦ (hide job, ok (runtime u id).view_epoch)
        ]
          ≡ (t, ok e)
        → (runtime t id).view_requested ≡ false
    go none k = absurd (cc)
    go (some job) k =
        ap (λ (x : Service × Result ℕ). (runtime x.0 id).view_requested) (sym k)
        ∙ ap (λ (r : Runtime). r.view_requested)
            (runtime_after id (requested_runtime false (runtime s id)) s (hide job) (
              save_view_locked-SameRuntimes now
                (touch now u (record job { desired_view_mode = headless })) u))

not_current :
    (s : Service) (id : String) (epoch : ℕ)
    → (runtime s id).view_requested ≡ false
    → view_request_current s id epoch ≡ false
unfolding view_request_current
not_current s id epoch h = rw h refl

abbrev pub forgotten : Runtime → Runtime
forgotten rt = record rt { worker_generation = "" }

-- What is left as it was: the stored jobs, what clients were sent, and of every runtime all but the
-- generation of a worker.
pub record Unaffected (s t : Service) : Type 0 where
  pub store : t.store ≡ s.store
  pub sent : t.sent ≡ s.sent
  pub pumps : t.pumps ≡ s.pumps
  pub runtimes : (id : String) → forgotten (runtime t id) ≡ forgotten (runtime s id)

noted_worker-Unaffected :
    (id : String) (alive : Bool) (generation : Option String) (s : Service)
    → Unaffected s (noted_worker id alive generation s)
unfolding set_runtime
noted_worker-Unaffected id true (some g) s = record {
  store = refl;
  sent = refl;
  pumps = refl;
  runtimes = λ k. elim (Bool-cases (id == k)) [
    | inl y ↦
        ap forgotten (runtime-set_runtime id k rt s)
        ∙ rw y (ap (λ x. forgotten (runtime s x)) ((eq_iff id k).0 y))
    | inr n ↦ ap forgotten (runtime-set_runtime id k rt s) ∙ rw n refl
  ];
}
  where
    rt : Runtime
    rt = record (runtime s id) { worker_generation = g }
noted_worker-Unaffected id true none s = record {
  store = refl;
  sent = refl;
  pumps = refl;
  runtimes = λ k. refl;
}
noted_worker-Unaffected id false generation s = record {
  store = refl;
  sent = refl;
  pumps = refl;
  runtimes = λ k. refl;
}

failed_late :
    (now : ℕ) (job : Job) (epoch : ℕ) (alive : Bool) (generation : Option String) (message : String)
    (t : Service)
    → (runtime t job.job_id).view_requested ≡ false
    → Unaffected t (fail_headless now job epoch alive generation message t)
unfolding fail_headless
failed_late now job epoch alive generation message t h =
    let n = noted_worker-Unaffected job.job_id alive generation t in
    rw
      (not_current (noted_worker job.job_id alive generation t) job.job_id epoch
        (ap (λ (r : Runtime). r.view_requested) (n.runtimes job.job_id) ∙ h))
      n

-- Once a view was hidden, a terminal that becomes ready for any earlier request is not attached, and
-- another save of its progress changes nothing. Its failure changes no job and nothing of a runtime
-- but the generation that is noted of a worker that lives on, and is not broadcast.
pub hidden_view_stays_hidden :
    (now later : ℕ) (id : String) (s t : Service) (e epoch : ℕ) (job : Job) (h : Handle)
    (alive : Bool) (generation : Option String) (message : String)
    → set_view now id headless s ≡ (t, ok e)
    → job.job_id ≡ id
    → (commit_headed later job h epoch t ≡ (t, false))
      × Unaffected t (fail_headless later job epoch alive generation message t)
      × (save_requested_view later job epoch t ≡ (t, false))
unfolding commit_headed save_requested_view
hidden_view_stays_hidden now later id s t e epoch job h alive generation message hid same =
    let off : (runtime t job.job_id).view_requested ≡ false =
      ap (λ i. (runtime t i).view_requested) same ∙ hidden_runtime now id s t e hid in
    let c : view_request_current t job.job_id epoch ≡ false = not_current t job.job_id epoch off in
    (
      either t.closed (view_request_current t job.job_id epoch) _ c,
      failed_late later job epoch alive generation message t off,
      rw c refl,
    )
  where
    either :
        (a b : Bool) (x : Service × Bool)
        → b ≡ false
        → (if a || not b then (t, false) else x) ≡ (t, false)
    either true b x p = refl
    either false true x p = absurd (cc)
    either false false x p = refl

-- The fields of a job's work, which its view does not own.
pub record SameWork (a b : Job) : Type 0 where
  pub state : a.state ≡ b.state
  pub request_id : a.request_id ≡ b.request_id
  pub approval_id : a.approval_id ≡ b.approval_id
  pub approval_delivery : a.approval_delivery ≡ b.approval_delivery
  pub approved : a.approved ≡ b.approved
  pub pause_reason : a.pause_reason ≡ b.pause_reason
  pub plan_version : a.plan_version ≡ b.plan_version
  pub plan_summary : a.plan_summary ≡ b.plan_summary
  pub result_turn_id : a.result_turn_id ≡ b.result_turn_id
  pub user_cancelled : a.user_cancelled ≡ b.user_cancelled
  pub last_summary : a.last_summary ≡ b.last_summary

-- The job that `save_view_locked` writes.
abbrev merged : Job → Job → Job
merged view job = record job {
  view_mode = view.view_mode;
  desired_view_mode = view.desired_view_mode;
  input_owner = view.input_owner;
  last_action =
      if job.request_id == view.request_id && job.state == view.state
      then view.last_action
      else job.last_action;
}
