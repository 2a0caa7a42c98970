-- ===== src/Supervisor/Watched.antt =====
-- internal/supervisor/watchdog.go: what the watchdog remembers of a job, over every sequence of its
-- checks and of other steps.
use grok_mcp.Prelude.{
  ℕ, ◌-◌, ◌*◌, ◌≤◌, String, Bool, true, false, not, ◌||◌, ◌!=◌, length, ◌&&◌, List, [], ◌∷◌, Option,
  none, some, ◌==◌, String_eq, if◌then◌else◌, ltb, ◌≡◌, ◌⊎◌, inl, inr, refl, ap, sym, ◌∙◌, eq_refl,
  eq_iff, subst, Bool-cases,
}
use grok_mcp.Protocol.State.{
  supervisor, tui, handoff, plan_ready, executing, attaching, detaching, JobState_eq, ViewMode_eq,
  InputOwner_eq,
}
use grok_mcp.Protocol.Job.{Job, second}
use grok_mcp.Supervisor.State.{Runtime, Service, runtime, set_runtime, runtime-set_runtime}
use grok_mcp.Supervisor.Records.{load, save, ensure_runtime}
use grok_mcp.Supervisor.Fifo.{live_grok}
use grok_mcp.Supervisor.Watchdog.{
  quiet, settle, report, inspect_since, inspect_stall, stall, find_since, check_job_stall,
  unstalled,
}
use grok_mcp.Supervisor.Durable.{save-SameRuntimes, runtime_after, runtime-ensure}
use grok_mcp.Supervisor.Agreement.{some_injective}
use grok_mcp.Supervisor.Stalls.{Overdue, flagged-Overdue}

-- A job stands still for a reason.
pub record Stands (id reason : String) (s : Service) : Type 0 where
  pub job : Job
  pub found : load s id ≡ some job
  pub need : ℕ
  pub stands : stall job (runtime s id) (live_grok s id) ≡ some (reason, need)

-- The checks of a job so far, the last one first: the time of each, and the service that it found.
-- Between two checks anything may happen that leaves the watchdog's memory of the job alone.
pub data Watched (id : String) : List (ℕ × Service) → Service → Type 0 where
  unseen : (s : Service) → (runtime s id).stall_since ≡ [] → Watched id [] s
  checked :
      {h : List (ℕ × Service)} {s : Service}
      → (now : ℕ) → Watched id h s
      → Watched id ((now, ensure_runtime id s) ∷ h) (check_job_stall now id s)
  passed :
      {h : List (ℕ × Service)} {s : Service}
      → (t : Service) → (runtime t id).stall_since ≡ (runtime s id).stall_since
      → Watched id h s
      → Watched id h t

-- Every check since one at time `first`, and that one too, found the job standing still for the
-- reason, but for those that could not read the job.
abbrev pub SeenSince : String → String → ℕ → List (ℕ × Service) → Type 0
SeenSince id reason first [] = ⊥
SeenSince id reason first ((now, s) ∷ h) =
    (Stands id reason s × ((now ≡ first) ⊎ SeenSince id reason first h))
    ⊎ ((load s id ≡ none) × SeenSince id reason first h)

-- The watchdog remembers nothing, or one reason, for which the job has stood still since.
abbrev pub Remembers : String → List (ℕ × Service) → List (String × ℕ) → Type 0
Remembers id h xs =
    (xs ≡ [])
    ⊎ ((reason : String) × (first : ℕ) × (xs ≡ (reason, first) ∷ []) × SeenSince id reason first h)

since_set :
    (id : String) (rt : Runtime) (s : Service)
    → (runtime (set_runtime id rt s) id).stall_since ≡ rt.stall_since
since_set id rt s =
    ap (λ (r : Runtime). r.stall_since) (runtime-set_runtime id id rt s)
    ∙ ap (λ b. (if b then rt else runtime s id).stall_since) (eq_refl id)

settled :
    (now : ℕ) (id : String) (job : Job) (rt : Runtime) (s : Service)
    → (runtime (settle now id job rt s) id).stall_since ≡ []
settled now id job rt s = go rt.stalled
  where
    unflag : Service
    unflag =
        (save now (record job { stalled = false; stalled_reason = "" })
          (set_runtime id (unstalled rt) s)).0

    go :
        (b : Bool)
        → (runtime
            (if b then quiet id (runtime unflag id) unflag else quiet id rt s)
            id).stall_since
          ≡ []
    go true = since_set id (record (runtime unflag id) { stall_since = [] }) unflag
    go false = since_set id (record rt { stall_since = [] }) s

reported :
    (now : ℕ) (id : String) (job : Job) (rt : Runtime) (reason : String) (s : Service)
    → (runtime (report now id job rt reason s) id).stall_since ≡ rt.stall_since
reported now id job rt reason s =
    let flag : Runtime = record rt { stalled = true; stalled_reason = reason } in
    ap (λ (r : Runtime). r.stall_since)
      (runtime_after id flag s (report now id job rt reason s) (
        save-SameRuntimes now (record job { stalled = true; stalled_reason = reason })
          (set_runtime id flag s)))

-- A reason that is remembered stays so.
kept_since :
    (now : ℕ) (id : String) (job : Job) (reason : String) (need since : ℕ) (s : Service)
    → (runtime (inspect_since now id job (runtime s id) reason need (some since) s) id).stall_since
      ≡ (runtime s id).stall_since
kept_since now id job reason need since s =
    go (ltb (now - since) need) ((runtime s id).stalled && (runtime s id).stalled_reason == reason)
  where
    go :
        (b c : Bool)
        → (runtime
            (if b then s else if c then s else report now id job (runtime s id) reason s)
            id).stall_since
          ≡ (runtime s id).stall_since
    go true c = refl
    go false true = refl
    go false false = reported now id job (runtime s id) reason s

-- A remembered reason that is found is the one that is remembered.
only :
    (xs : List (String × ℕ)) (reason other : String) (first since : ℕ)
    → xs ≡ (other, first) ∷ []
    → find_since reason xs ≡ some since
    → (other ≡ reason) × (first ≡ since)
unfolding find_since
only xs reason other first since e f = elim (Bool-cases (other == reason)) [
  | inl y ↦ ((eq_iff other reason).0 y, some_injective (rw y at (rw e at f)))
  | inr n ↦ absurd (cc (rw n at (rw e at f)))
]

none_found :
    (xs : List (String × ℕ)) (reason : String) (since : ℕ)
    → xs ≡ []
    → find_since reason xs ≡ some since
    → ⊥
unfolding find_since
none_found xs reason since e f = absurd (cc (rw e at f))

module _ (now : ℕ) (id : String) (s : Service) (h : List (ℕ × Service))
    (m : Remembers id h (runtime s id).stall_since) where
  inspected :
      (job : Job) (o : Option (String × ℕ))
      → load s id ≡ some job
      → stall job (runtime s id) (live_grok s id) ≡ o
      → Remembers id
          ((now, s) ∷ h)
          (runtime (inspect_stall now id job (runtime s id) o s) id).stall_since
  inspected job none l e = inl (settled now id job (runtime s id) s)
  inspected job (some (reason, need)) l e = go (find_since reason (runtime s id).stall_since) refl
    where
      here : Stands id reason s
      here = record { job = job; found = l; need = need; stands = e }

      stays :
          (since : ℕ)
          → find_since reason (runtime s id).stall_since ≡ some since
          → Remembers id h (runtime s id).stall_since
          → Remembers id ((now, s) ∷ h) (runtime s id).stall_since
      stays since f (inl nothing) =
          absurd (none_found (runtime s id).stall_since reason since nothing f)
      stays since f (inr (r, first, x, seen)) =
          let (same, _) = only (runtime s id).stall_since reason r first since x f in
          inr (r, first, x, inl (subst (λ y. Stands id y s) (sym same) here, inr seen))

      go :
          (o : Option ℕ)
          → find_since reason (runtime s id).stall_since ≡ o
          → Remembers id
              ((now, s) ∷ h)
              (runtime (inspect_since now id job (runtime s id) reason need o s) id).stall_since
      go none f = inr (
        reason,
        now,
        since_set id (record (runtime s id) { stall_since = (reason, now) ∷ [] }) s,
        inl (here, inl refl),
      )
      go (some since) f =
          subst (Remembers id ((now, s) ∷ h)) (sym (kept_since now id job reason need since s))
            (stays since f m)

  missed :
      load s id ≡ none
      → Remembers id h (runtime s id).stall_since
      → Remembers id ((now, s) ∷ h) (runtime s id).stall_since
  missed l (inl nothing) = inl nothing
  missed l (inr (r, first, x, seen)) = inr (r, first, x, inr (l, seen))

  looked :
      (o : Option Job)
      → load s id ≡ o
      → Remembers id
          ((now, s) ∷ h)
          (runtime
            (elim o as (λ _. Service) [
              | none ↦ s
              | some job ↦
                  inspect_stall now id job
                    (runtime s id)
                    (stall job (runtime s id) (live_grok s id))
                    s
            ])
            id).stall_since
  looked none l = missed l m
  looked (some job) l = inspected job (stall job (runtime s id) (live_grok s id)) l refl

check-Remembers :
    (now : ℕ) (id : String) (s : Service) (h : List (ℕ × Service))
    → Remembers id h (runtime s id).stall_since
    → Remembers id
        ((now, ensure_runtime id s) ∷ h)
        (runtime (check_job_stall now id s) id).stall_since
unfolding check_job_stall
check-Remembers now id s₀ h m =
    looked now id (ensure_runtime id s₀) h
      (subst (λ (r : Runtime). Remembers id h r.stall_since) (sym (runtime-ensure id s₀)) m)
      (load (ensure_runtime id s₀) id) refl

pub Watched-Remembers :
    {id : String} {h : List (ℕ × Service)} {s : Service}
    → Watched id h s
    → Remembers id h (runtime s id).stall_since
Watched-Remembers (unseen s e) = inl e
Watched-Remembers {id} (checked {h} {s} now w) = check-Remembers now id s h (Watched-Remembers w)
Watched-Remembers {id} (passed {h} t e w) = subst (Remembers id h) (sym e) (Watched-Remembers w)

-- The reasons of the watchdog, and for how long each has to hold.
abbrev pub HasLimit : String → ℕ → Type 0
HasLimit reason need =
    ((reason ≡ "queue_nonempty_but_pump_idle") × (need ≡ 5 * second))
    ⊎ ((reason ≡ "stale_tui_owner") × (need ≡ 3 * second))
    ⊎ ((reason ≡ "detach_timeout") × (need ≡ 3 * second))
    ⊎ ((reason ≡ "executing_without_turn") × (need ≡ 10 * second))

-- The tests of `stall` in a row.
abbrev ladder : Bool → Bool → Bool → Bool → Option (String × ℕ)
ladder a b c d =
    if a
    then some ("queue_nonempty_but_pump_idle", 5 * second)
    else if b
    then some ("stale_tui_owner", 3 * second)
    else if c
    then some ("detach_timeout", 3 * second)
    else if d
    then some ("executing_without_turn", 10 * second)
    else none

limits :
    (a b c d : Bool) (reason : String) (need : ℕ)
    → ladder a b c d ≡ some (reason, need)
    → HasLimit reason need
limits true b c d reason need h =
    let e = some_injective h in inl (sym (ap (λ x. x.0) e), sym (ap (λ x. x.1) e))
limits false true c d reason need h =
    let e = some_injective h in inr (inl (sym (ap (λ x. x.0) e), sym (ap (λ x. x.1) e)))
limits false false true d reason need h =
    let e = some_injective h in inr (inr (inl (sym (ap (λ x. x.0) e), sym (ap (λ x. x.1) e))))
limits false false false true reason need h =
    let e = some_injective h in inr (inr (inr (sym (ap (λ x. x.0) e), sym (ap (λ x. x.1) e))))
limits false false false false reason need h = absurd (cc h)

stall-HasLimit :
    (job : Job) (rt : Runtime) (live : Bool) (reason : String) (need : ℕ)
    → stall job rt live ≡ some (reason, need)
    → HasLimit reason need
unfolding stall
stall-HasLimit job rt live reason need h =
    let waiting = ltb 0 (length rt.queue) in
    limits
      (waiting
        && not rt.busy
        && job.input_owner == supervisor
        && job.state != plan_ready
        && job.pause_reason == ""
        && job.approval_delivery != "unknown")
      (waiting
        && (job.input_owner == tui || job.input_owner == handoff)
        && not live
        && job.view_mode != attaching)
      (job.view_mode == detaching)
      (job.state == executing && rt.turn_id == "" && not waiting && not rt.busy) reason need h

-- The job stands still for a reason, and did so at all checks since one that is its limit ago.
pub record StoodStill (now : ℕ) (id : String) (h : List (ℕ × Service)) (s : Service) : Type 0 where
  pub reason : String
  pub stands : Stands id reason s
  pub limit : HasLimit reason stands.need
  pub first : ℕ
  pub since : SeenSince id reason first h
  pub held : stands.need ≤ now - first

-- Where the watchdog checked a job any number of times, and anything else happened between that
-- leaves its memory of the job alone, a check flags a job that was not flagged only if the job
-- stands still for one of its four reasons, and every check that could read the job found it so
-- since an earlier check, at least the reason's limit ago: 5, 3, 3 or 10 seconds.
pub stall_waits_for_limit :
    (now : ℕ) (id : String) (h : List (ℕ × Service)) (s : Service)
    → Watched id h s
    → (runtime (ensure_runtime id s) id).stalled ≡ false
    → (runtime (check_job_stall now id s) id).stalled ≡ true
    → StoodStill now id h (ensure_runtime id s)
stall_waits_for_limit now id h s₀ w q f = from (
    subst (λ (r : Runtime). Remembers id h r.stall_since) (sym (runtime-ensure id s₀))
      (Watched-Remembers w))
  where
    s : Service
    s = ensure_runtime id s₀

    o : Overdue now id s (runtime s id).stall_since (load s id)
    o = flagged-Overdue now id s₀ q f

    from : Remembers id h (runtime s id).stall_since → StoodStill now id h s
    from (inl nothing) =
        absurd (none_found (runtime s id).stall_since o.reason o.first_seen nothing o.seen)
    from (inr (r, first, x, seen)) =
        let (same, at) = only (runtime s id).stall_since o.reason r first o.first_seen x o.seen in
        record {
          reason = o.reason;
          stands = record { job = o.job; found = o.found; need = o.need; stands = o.stands };
          limit = stall-HasLimit o.job (runtime s id) (live_grok s id) o.reason o.need o.stands;
          first = o.first_seen;
          since =
              subst (λ y. SeenSince id y o.first_seen h) same
                (subst (λ n. SeenSince id r n h) at seen);
          held = o.held;
        }
