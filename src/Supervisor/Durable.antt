-- ===== src/Supervisor/Durable.antt =====
-- What a write of a job does to the service: the job reads back as it was written, no other job
-- changes, and the runtimes keep all but their stall flags.
use grok_mcp.Prelude.{
  ℕ, String, true, false, List, Option, none, some, ◌==◌, String_eq, ◌≡◌, refl, ap, subst, sym, ◌∙◌,
  eq_iff, eq_refl, Bool-cases, Option-cases, inl, inr, ◌⊎◌,
}
use grok_mcp.Protocol.Job.{Job}
use grok_mcp.Store.Tables.{Store, Record, get_job, scan_job}
use grok_mcp.Store.Put.{put_job}
use grok_mcp.Store.Lookup.{find_row-put_job, put_job-Committed}
use grok_mcp.Supervisor.State.{
  Runtime, Service, find_runtime, runtime, set_runtime, runtime-set_runtime,
}
use grok_mcp.Supervisor.Records.{
  load, ensure_runtime, emit, persistence_failed, put_record, write, put, commit, save,
  with_runtime, default_project,
}
use grok_mcp.Supervisor.Watchdog.{unstalled}
use grok_mcp.Supervisor.Agreement.{
  Agrees, Agrees-trans, some_injective, written-Agrees, get_job-found, scan-Agrees,
}

-- A committed record reads back.
pub load-write :
    (rec : Record) (s t : Service)
    → write rec s ≡ some t
    → (j : Job) × (load t rec.job.job_id ≡ some j) × Agrees j rec.job
unfolding write load get_job
load-write rec s t h = elim (Option-cases (put_job rec s.store)) [
  | inl e ↦ absurd (cc (rw e at h))
  | inr (u, e) ↦
      subst (λ x. (j : Job) × (load x rec.job.job_id ≡ some j) × Agrees j rec.job)
        (some_injective (rw e at h)) (read u e)
]
  where
    read :
        (u : Store)
        → put_job rec s.store ≡ some u
        → (j : Job) × (load (record s { store = u }) rec.job.job_id ≡ some j) × Agrees j rec.job
    read u e =
        let (row, found, l) = find_row-put_job rec s.store u e in
        (
          (scan_job u row).job,
          ap (λ (o : Option Record). elim o [ none ↦ none | some x ↦ some x.job ])
              (get_job-found rec.job.job_id u row (put_job-Committed rec s.store u e).readable
                found),
          Agrees-trans (scan-Agrees u row)
              (subst (λ x. Agrees x rec.job) (sym l) (written-Agrees rec s.store)),
        )

write-rt :
    (rec : Record) (s t : Service)
    → write rec s ≡ some t
    → (t.rt ≡ s.rt) × (t.closed ≡ s.closed) × (t.pumps ≡ s.pumps)
unfolding write
write-rt rec s t h = elim (Option-cases (put_job rec s.store)) [
  | inl e ↦ absurd (cc (rw e at h))
  | inr (u, e) ↦
      subst (λ (x : Service). (x.rt ≡ s.rt) × (x.closed ≡ s.closed) × (x.pumps ≡ s.pumps))
        (some_injective (rw e at h)) (refl, refl, refl)
]

-- Two services whose runtimes differ in no more than the stall flags.
pub record SameRuntimes (s t : Service) : Type 0 where
  pub runtimes : (id : String) → unstalled (runtime t id) ≡ unstalled (runtime s id)
  pub closed : t.closed ≡ s.closed
  pub pumps : t.pumps ≡ s.pumps

pub SameRuntimes-refl : (s : Service) → SameRuntimes s s
SameRuntimes-refl s = record { runtimes = λ id. refl; closed = refl; pumps = refl }

pub SameRuntimes-trans : {s t u : Service} → SameRuntimes s t → SameRuntimes t u → SameRuntimes s u
SameRuntimes-trans p q = record {
  runtimes = λ id. q.runtimes id ∙ p.runtimes id;
  closed = q.closed ∙ p.closed;
  pumps = q.pumps ∙ p.pumps;
}

pub write-SameRuntimes : (rec : Record) (s t : Service) → write rec s ≡ some t → SameRuntimes s t
unfolding runtime
write-SameRuntimes rec s t h =
    let (r, c, p) = write-rt rec s t h in record { runtimes = λ id. rw r; closed = c; pumps = p }

pub emit-SameRuntimes : (now : ℕ) (j : Job) (s : Service) → SameRuntimes s (emit now j s)
unfolding emit runtime
emit-SameRuntimes now j s = record { runtimes = λ id. refl; closed = refl; pumps = refl }

flagged-SameRuntimes :
    (id : String) (reason : String) (s : Service)
    → SameRuntimes s
        (set_runtime id (record (runtime s id) { stalled = true; stalled_reason = reason }) s)
unfolding set_runtime
flagged-SameRuntimes id reason s = record {
  runtimes = λ k. elim (Bool-cases (id == k)) [
    | inl same ↦
        rw
          (runtime-set_runtime id k
            (record (runtime s id) { stalled = true; stalled_reason = reason }) s)
          (rw same (rw ((eq_iff id k).0 same)))
    | inr differs ↦
        rw
          (runtime-set_runtime id k
            (record (runtime s id) { stalled = true; stalled_reason = reason }) s)
          (rw differs)
  ];
  closed = refl;
  pumps = refl;
}

pub persistence_failed-SameRuntimes :
    (now : ℕ) (id : String) (s : Service) → SameRuntimes s (persistence_failed now id s)
unfolding persistence_failed
persistence_failed-SameRuntimes now id s = elim (Option-cases (load marked id)) [
  | inl e ↦ rw (e, persistence_failed) marked_same
  | inr (j, e) ↦
      rw (e, persistence_failed) (SameRuntimes-trans marked_same (emit-SameRuntimes now j marked))
]
  where
    marked : Service
    marked =
        set_runtime id
          (record (runtime s id) { stalled = true; stalled_reason = "persistence_failed: " }) s

    marked_same : SameRuntimes s marked
    marked_same = flagged-SameRuntimes id "persistence_failed: " s

-- `save` and `commit`: the runtimes, and the job if it was written.
pub save_cases :
    (now : ℕ) (job : Job) (s : Service)
    → ((save now job s ≡ (s, false))
        ⊎ (save now job s ≡ (persistence_failed now job.job_id s, false)))
      ⊎ ((rec : Record) × (t : Service) × (write
              (put_record job rec.missing_marker_count rec.recover_fails s)
              s
            ≡ some t)
          × (save now job s ≡ (emit now job t, true)))
unfolding save put
save_cases now job s = elim (Option-cases (get_job s.store job.job_id)) [
  | inl e ↦ inl (inl (rw (e, save)))
  | inr (rec, e) ↦
      elim (Option-cases (write (put_record job rec.missing_marker_count rec.recover_fails s) s)) [
        | inl f ↦ inl (inr (rw (e, save) (rw (f, save))))
        | inr (t, f) ↦ inr (rec, t, f, rw (e, save) (rw (f, save)))
      ]
]

put_record-Agrees :
    (job : Job) (missing : ℕ) (fails : List ℕ) (s : Service)
    → Agrees (put_record job missing fails s).job job
      × ((put_record job missing fails s).job.job_id ≡ job.job_id)
put_record-Agrees job missing fails s = go (find_runtime job.job_id s.rt)
  where
    go :
        (o : Option Runtime)
        → Agrees (with_runtime o (default_project s job)) job
          × ((with_runtime o (default_project s job)).job_id ≡ job.job_id)
    go none = (
      record {
        state = refl;
        request_id = refl;
        approval_id = refl;
        approval_connection_id = refl;
        approval_delivery = refl;
        approved = refl;
        pause_reason = refl;
        plan_version = refl;
        plan_turn_id = refl;
        plan_summary = refl;
        result_turn_id = refl;
        grok_session_id = refl;
        view_mode = refl;
        input_owner = refl;
        user_cancelled = refl;
        last_action = refl;
        last_summary = refl;
      },
      refl,
    )
    go (some rt) = (
      record {
        state = refl;
        request_id = refl;
        approval_id = refl;
        approval_connection_id = refl;
        approval_delivery = refl;
        approved = refl;
        pause_reason = refl;
        plan_version = refl;
        plan_turn_id = refl;
        plan_summary = refl;
        result_turn_id = refl;
        grok_session_id = refl;
        view_mode = refl;
        input_owner = refl;
        user_cancelled = refl;
        last_action = refl;
        last_summary = refl;
      },
      refl,
    )

pub save-SameRuntimes : (now : ℕ) (job : Job) (s : Service) → SameRuntimes s (save now job s).0
save-SameRuntimes now job s = elim (save_cases now job s) [
  | inl (inl e) ↦ rw e (SameRuntimes-refl s)
  | inl (inr e) ↦ rw e (persistence_failed-SameRuntimes now job.job_id s)
  | inr (rec, t, w, e) ↦
      rw e (SameRuntimes-trans (write-SameRuntimes _ s t w) (emit-SameRuntimes now job t))
]

pub load-emit : (now : ℕ) (j : Job) (s : Service) (id : String) → load (emit now j s) id ≡ load s id
unfolding load emit
load-emit now j s id = refl

-- A job whose save succeeded reads back as it was saved, in the fields of `Agrees`.
pub load-save :
    (now : ℕ) (job : Job) (s : Service)
    → (save now job s).1 ≡ true
    → (j : Job) × (load (save now job s).0 job.job_id ≡ some j) × Agrees j job
load-save now job s h = elim (save_cases now job s) [
  | inl (inl e) ↦ absurd (cc (rw e at h))
  | inl (inr e) ↦ absurd (cc (rw e at h))
  | inr (rec, t, w, e) ↦
      let (agrees, same_id) = put_record-Agrees job rec.missing_marker_count rec.recover_fails s in
      let (j, l, a) =
        load-write (put_record job rec.missing_marker_count rec.recover_fails s) s t w in
      (j, rw (e, load-emit now job t job.job_id) (rw same_id at l), Agrees-trans a agrees)
]

pub commit_cases :
    (now : ℕ) (rec : Record) (s : Service)
    → (commit now rec s ≡ (persistence_failed now rec.job.job_id s, false))
      ⊎ ((t : Service) × (write rec s ≡ some t) × (commit now rec s ≡ (emit now rec.job t, true)))
unfolding commit
commit_cases now rec s = elim (Option-cases (write rec s)) [
  | inl f ↦ inl (rw (f, commit))
  | inr (t, f) ↦ inr (t, f, rw (f, commit))
]

pub commit-SameRuntimes :
    (now : ℕ) (rec : Record) (s : Service) → SameRuntimes s (commit now rec s).0
commit-SameRuntimes now rec s = elim (commit_cases now rec s) [
  | inl e ↦ rw e (persistence_failed-SameRuntimes now rec.job.job_id s)
  | inr (t, w, e) ↦
      rw e (SameRuntimes-trans (write-SameRuntimes rec s t w) (emit-SameRuntimes now rec.job t))
]

pub load-commit :
    (now : ℕ) (rec : Record) (s : Service)
    → (commit now rec s).1 ≡ true
    → (j : Job) × (load (commit now rec s).0 rec.job.job_id ≡ some j) × Agrees j rec.job
load-commit now rec s h = elim (commit_cases now rec s) [
  | inl e ↦ absurd (cc (rw e at h))
  | inr (t, w, e) ↦
      let (j, l, a) = load-write rec s t w in
      (j, rw (e, load-emit now rec.job t rec.job.job_id) l, a)
]

-- The runtime of a job after its entry was set and a write was tried.
pub runtime_after :
    (id : String) (rt : Runtime) (s t : Service)
    → SameRuntimes (set_runtime id rt s) t
    → unstalled (runtime t id) ≡ unstalled rt
runtime_after id rt s t same =
    let set : runtime (set_runtime id rt s) id ≡ rt =
      rw (runtime-set_runtime id id rt s) (rw (eq_refl id)) in
    same.runtimes id ∙ ap unstalled set

pub runtime-ensure : (id : String) (s : Service) → runtime (ensure_runtime id s) id ≡ runtime s id
unfolding ensure_runtime
runtime-ensure id s = rw (runtime-set_runtime id id (runtime s id) s) (rw (eq_refl id))

pub load-ensure : (id k : String) (s : Service) → load (ensure_runtime id s) k ≡ load s k
unfolding ensure_runtime load set_runtime
load-ensure id k s = refl

pub load-set_runtime :
    (id k : String) (rt : Runtime) (s : Service) → load (set_runtime id rt s) k ≡ load s k
unfolding load set_runtime
load-set_runtime id k rt s = refl
