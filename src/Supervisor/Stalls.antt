-- ===== src/Supervisor/Stalls.antt =====
-- internal/supervisor/watchdog.go: a job is reported as stalled only after its limit.
use grok_mcp.Prelude.{
  ℕ, ◌-◌, ◌≤◌, String, Bool, true, false, ◌&&◌, List, [], ◌∷◌, Option, none, some, ◌==◌, String_eq,
  if◌then◌else◌, ltb, ◌≡◌, refl, ap, ◌∙◌, arith, eq_refl,
}
use grok_mcp.Protocol.Job.{Job}
use grok_mcp.Supervisor.State.{Runtime, Service, runtime, set_runtime, runtime-set_runtime}
use grok_mcp.Supervisor.Records.{load, save, ensure_runtime}
use grok_mcp.Supervisor.Fifo.{live_grok}
use grok_mcp.Supervisor.Watchdog.{
  quiet, settle, report, inspect_since, inspect_stall, stall, find_since, check_job_stall,
  unstalled,
}

-- The reason for which the job stands still has held for its limit.
pub record Overdue (now : ℕ) (id : String) (s : Service) (since : List (String × ℕ))
    (o : Option Job) : Type 0 where
  pub job : Job
  pub found : o ≡ some job
  pub reason : String
  pub need : ℕ
  pub stands : stall job (runtime s id) (live_grok s id) ≡ some (reason, need)
  pub first_seen : ℕ
  pub seen : find_since reason since ≡ some first_seen
  pub held : need ≤ now - first_seen

set_stalled :
    (id : String) (rt : Runtime) (s : Service)
    → (runtime (set_runtime id rt s) id).stalled ≡ rt.stalled
set_stalled id rt s =
    ap (λ (r : Runtime). r.stalled) (runtime-set_runtime id id rt s)
    ∙ ap (λ b. (if b then rt else runtime s id).stalled) (eq_refl id)

long_enough : (m n : ℕ) → ltb n m ≡ false → m ≤ n
long_enough m n h = ground arith

unset : {A : Type 0} (b : Bool) → b ≡ false → b ≡ true → A
unset b p q = absurd (cc)

-- A runtime that was not flagged stays so where nothing is wrong.
settle-unflagged :
    (now : ℕ) (id : String) (job : Job) (s : Service)
    → (runtime s id).stalled ≡ false
    → (runtime (settle now id job (runtime s id) s) id).stalled ≡ false
settle-unflagged now id job s q = go (runtime s id).stalled q
  where
    unflag : Service
    unflag =
        (save now (record job { stalled = false; stalled_reason = "" })
          (set_runtime id (unstalled (runtime s id)) s)).0

    go :
        (b : Bool)
        → b ≡ false
        → (runtime
            (if b then quiet id (runtime unflag id) unflag else quiet id (runtime s id) s)
            id).stalled
          ≡ false
    go true e = absurd (cc)
    go false e = set_stalled id (record (runtime s id) { stall_since = [] }) s ∙ q

-- A reason that was first seen less than its limit ago flags nothing.
within_limit :
    (now : ℕ) (id : String) (job : Job) (reason : String) (need since : ℕ) (s : Service)
    → (runtime s id).stalled ≡ false
    → (runtime (inspect_since now id job (runtime s id) reason need (some since) s) id).stalled
      ≡ true
    → need ≤ now - since
within_limit now id job reason need since s q h =
    go (ltb (now - since) need) ((runtime s id).stalled && (runtime s id).stalled_reason == reason)
      refl h
  where
    go :
        (b c : Bool)
        → ltb (now - since) need ≡ b
        → (runtime
            (if b then s else if c then s else report now id job (runtime s id) reason s)
            id).stalled
          ≡ true
        → need ≤ now - since
    go true c e k = unset (runtime s id).stalled q k
    go false c e k = long_enough need (now - since) e

inspect_stall-Overdue :
    (now : ℕ) (id : String) (job : Job) (s : Service) (o : Option (String × ℕ))
    → (runtime s id).stalled ≡ false
    → stall job (runtime s id) (live_grok s id) ≡ o
    → (runtime (inspect_stall now id job (runtime s id) o s) id).stalled ≡ true
    → Overdue now id s (runtime s id).stall_since (some job)
inspect_stall-Overdue now id job s none q e h = unset _ (settle-unflagged now id job s q) h
inspect_stall-Overdue now id job s (some (reason, need)) q e h =
    go (find_since reason (runtime s id).stall_since) refl h
  where
    go :
        (o : Option ℕ)
        → find_since reason (runtime s id).stall_since ≡ o
        → (runtime (inspect_since now id job (runtime s id) reason need o s) id).stalled ≡ true
        → Overdue now id s (runtime s id).stall_since (some job)
    go none f k =
        unset _ (set_stalled id (record (runtime s id) { stall_since = (reason, now) ∷ [] }) s ∙ q)
          k
    go (some since) f k = record {
      job = job;
      found = refl;
      reason = reason;
      need = need;
      stands = e;
      first_seen = since;
      seen = f;
      held = within_limit now id job reason need since s q k;
    }

-- A check flags a job that was not flagged only if the job can be read, stands still for a reason
-- of the watchdog's, and was first seen to do so at least that reason's limit ago.
pub flagged-Overdue :
    (now : ℕ) (id : String) (s : Service)
    → (runtime (ensure_runtime id s) id).stalled ≡ false
    → (runtime (check_job_stall now id s) id).stalled ≡ true
    → Overdue now id
        (ensure_runtime id s)
        (runtime (ensure_runtime id s) id).stall_since
        (load (ensure_runtime id s) id)
unfolding check_job_stall
flagged-Overdue now id s₀ q h = go (load s id) h
  where
    s : Service
    s = ensure_runtime id s₀

    go :
        (o : Option Job)
        → (runtime
            (elim o as (λ _. Service) [
              | none ↦ s
              | some job ↦
                  inspect_stall now id job
                    (runtime s id)
                    (stall job (runtime s id) (live_grok s id))
                    s
            ])
            id).stalled
          ≡ true
        → Overdue now id s (runtime s id).stall_since o
    go none k = unset (runtime s id).stalled q k
    go (some job) k =
        inspect_stall-Overdue now id job s (stall job (runtime s id) (live_grok s id)) q refl k
