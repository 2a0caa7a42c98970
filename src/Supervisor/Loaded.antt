-- ===== src/Supervisor/Loaded.antt =====
-- A job that was loaded is the one that was asked for.
use grok_mcp.Prelude.{
  String, Bool, true, false, List, [], ◌∷◌, Option, none, some, ◌≡◌, refl, ap, sym, ◌∙◌, find,
  String_eq, eq_iff, if◌then◌else◌, inl, inr, ℕ,
}
use grok_mcp.Protocol.Job.{Job}
use grok_mcp.Store.Tables.{Store, Record, JobRow, get_job, find_row, has_id, scan_job}
use grok_mcp.Supervisor.State.{Runtime, Service, runtime, set_runtime}
use grok_mcp.Supervisor.Records.{load, touch, ensure_runtime, save, emit, persistence_failed}
use grok_mcp.Supervisor.Agreement.{Agrees}
use grok_mcp.Supervisor.Durable.{load-emit, load-set_runtime, save_cases}

find-test : {A : Type 0} (p : A → Bool) (xs : List A) (x : A) → find p xs ≡ some x → p x ≡ true
find-test p [] x h = cc
find-test {A} p (y ∷ ys) x h = go (find p ys) (λ k. find-test p ys x k) (p y) refl h
  where
    go :
        (o : Option A)
        → (o ≡ some x → p x ≡ true)
        → (b : Bool) → p y ≡ b
        → (if b then some y else o) ≡ some x
        → p x ≡ true
    go o rest true e k = ap p (sym (ap (λ r. elim r [ none ↦ y | some z ↦ z ]) k)) ∙ e
    go o rest false e k = rest k

pub get_job-job_id :
    (id : String) (s : Store) (rec : Record) → get_job s id ≡ some rec → rec.job.job_id ≡ id
unfolding get_job find_row scan_job
get_job-job_id id s rec h = go s.readable (find_row id s) refl h
  where
    go :
        (b : Bool) (o : Option JobRow)
        → find_row id s ≡ o
        → (if b then elim o [ none ↦ none | some row ↦ some (scan_job s row) ] else none) ≡ some rec
        → rec.job.job_id ≡ id
    go true none e h = cc
    go true (some row) e h =
        ap (λ (r : Record). r.job.job_id)
          (sym (ap (λ (o : Option Record). elim o [ none ↦ scan_job s row | some z ↦ z ]) h))
        ∙ (eq_iff row.lifecycle.job_id id).0 (find-test (has_id id) s.jobs row e)
    go false o e h = cc

pub load-job_id : (s : Service) (id : String) (job : Job) → load s id ≡ some job → job.job_id ≡ id
unfolding load
load-job_id s id job h = go (get_job s.store id) refl h
  where
    go :
        (o : Option Record)
        → get_job s.store id ≡ o
        → elim o as (λ _. Option Job) [ none ↦ none | some rec ↦ some rec.job ] ≡ some job
        → job.job_id ≡ id
    go none e k = cc
    go (some rec) e k =
        ap (λ (j : Job). j.job_id)
          (sym (ap (λ (o : Option Job). elim o [ none ↦ rec.job | some z ↦ z ]) k))
        ∙ get_job-job_id id s.store rec e

pub touch-job_id : (now : ℕ) (s : Service) (job : Job) → (touch now s job).job_id ≡ job.job_id
unfolding touch
touch-job_id now s job = refl

pub touch-Agrees : (now : ℕ) (s : Service) (job : Job) → Agrees (touch now s job) job
unfolding touch
touch-Agrees now s job = record {
  state = refl;
  request_id = refl;
  approval_id = refl;
  approval_connection_id = refl;
  approval_delivery = refl;
  approved = refl;
  pause_reason = refl;
  plan_version = refl;
  plan_turn_id = refl;
  plan_summary = refl;
  result_turn_id = refl;
  grok_session_id = refl;
  view_mode = refl;
  input_owner = refl;
  user_cancelled = refl;
  last_action = refl;
  last_summary = refl;
}

pub ensure-closed : (id : String) (s : Service) → (ensure_runtime id s).closed ≡ s.closed
unfolding ensure_runtime set_runtime
ensure-closed id s = refl

pub load-persistence_failed :
    (now : ℕ) (id k : String) (s : Service) → load (persistence_failed now id s) k ≡ load s k
unfolding persistence_failed
load-persistence_failed now id k s = go (load marked id)
  where
    rt : Runtime
    rt = record (runtime s id) { stalled = true; stalled_reason = "persistence_failed: " }

    marked : Service
    marked = set_runtime id rt s

    go :
        (o : Option Job)
        → load (elim o [ none ↦ marked | some job ↦ emit now job marked ]) k ≡ load s k
    go none = load-set_runtime id k rt s
    go (some job) = load-emit now job marked k ∙ load-set_runtime id k rt s

-- A job that was not saved stays as it was.
pub load-unsaved :
    (now : ℕ) (job : Job) (s : Service) (id : String)
    → (save now job s).1 ≡ false
    → load (save now job s).0 id ≡ load s id
load-unsaved now job s id h = elim (save_cases now job s) [
  | inl (inl e) ↦ ap (λ (p : Service × Bool). load p.0 id) e
  | inl (inr e) ↦
      ap (λ (p : Service × Bool). load p.0 id) e ∙ load-persistence_failed now job.job_id id s
  | inr (rec, t, w, e) ↦ absurd (cc (ap (λ (p : Service × Bool). p.1) e, h))
]

pub load-record :
    (id : String) (s : Service) (rec : Record)
    → get_job s.store id ≡ some rec
    → load s id ≡ some rec.job
unfolding load
load-record id s rec e = rw (e, load) refl
