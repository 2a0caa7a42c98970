-- ===== src/Supervisor/Cancellation.antt =====
-- internal/supervisor/cancel.go: what a cancellation that is not refused cancels.
use grok_mcp.Prelude.{
  ℕ, String, Bool, true, false, List, [], ◌∷◌, Option, none, some, ◌==◌, ◌!=◌, String_eq,
  if◌then◌else◌, ◌≡◌, ◌≢◌, ◌⊎◌, inl, inr, refl, ap, sym, ◌∙◌, arith, subst, keep, All, Bool-cases,
  eq_refl, ne_of,
}
use grok_mcp.Protocol.Job.{Job}
use grok_mcp.Store.Tables.{Store}
use grok_mcp.Store.Queries.{cancel_queued_request}
use grok_mcp.Supervisor.State.{
  Queued, Runtime, Service, runtime, set_runtime, runtime-set_runtime, next_u64, Err, Result, ok,
  err, not_found, persistence, unknown_request,
}
use grok_mcp.Supervisor.Records.{load, emit, ensure_runtime}
use grok_mcp.Supervisor.Turn.{accepts_turn_control}
use grok_mcp.Supervisor.Cancel.{
  Target, refuse, queued_request, active_turn, Cancelling, removed, stopping, cancel_target,
  cancel_queued_locked, cancel_begin, as_removed, as_stopping, cancel_at, cancel_request,
}
use grok_mcp.Supervisor.Targets.{Hits, cancel_target-Hits}
use grok_mcp.Supervisor.Staleness.{cancel_begin-Cancelled, cancel_begin-turn}
use grok_mcp.Supervisor.Durable.{load-ensure, runtime-ensure}

-- The turn of the named request and the named turn, where they are named, was given up.
pub record StopsTurn (request_id turn_id : String) (before after : Runtime) (g : ℕ) : Type 0 where
  pub request : (request_id ≡ "") ⊎ ((before.busy ≡ true) × (request_id ≡ before.request_id))
  pub turn : (turn_id ≡ "") ⊎ (turn_id ≡ before.turn_id)
  pub alone : before.control_pending ≡ false
  pub moved_on : after.gen ≡ next_u64 before.gen
  pub generation : g ≡ after.gen
  pub stopped : after.cancelled_turn ≡ true

-- The named request, which did not run, no longer waits.
pub record RemovesRequest (request_id turn_id : String) (before after : Runtime) : Type 0 where
  pub named : request_id ≢ ""
  pub no_turn : turn_id ≡ ""
  pub not_running : (before.busy ≡ false) ⊎ (request_id ≢ before.request_id)
  pub kept : after.queue ≡ keep (λ (q : Queued). q.request_id != request_id) before.queue
  pub gone : All (λ (q : Queued). q.request_id ≢ request_id) after.queue
  pub same_turn : after.turn_id ≡ before.turn_id
  pub same_generation : after.gen ≡ before.gen

abbrev pub Cancels : String → String → Runtime → Runtime → Cancelling → Type 0
Cancels request_id turn_id before after removed = RemovesRequest request_id turn_id before after
Cancels request_id turn_id before after (stopping g saved) =
    StopsTurn request_id turn_id before after g

others :
    (r : String) (queue : List Queued)
    → All (λ (q : Queued). q.request_id ≢ r) (keep (λ (q : Queued). q.request_id != r) queue)
others r [] = tt
others r (q ∷ queue) = elim (Bool-cases (q.request_id == r)) [
  | inl y ↦ rw y (others r queue)
  | inr n ↦ rw n (ne_of q.request_id r n, others r queue)
]

-- A runtime that lost the requests `r` from its queue and nothing else.
record Without (r : String) (before after : Runtime) : Type 0 where
  rest : after ≡ record before { queue = keep (λ (q : Queued). q.request_id != r) before.queue }

removed_queue :
    (now : ℕ) (id r : String) (s t : Service)
    → cancel_queued_locked now id r s ≡ (t, none)
    → Without r (runtime s id) (runtime t id)
unfolding cancel_queued_locked emit runtime
removed_queue now id r s t h = go (cancel_queued_request id r s.store) h
  where
    rt : Runtime
    rt = record (runtime s id) {
      queue = keep (λ (q : Queued). q.request_id != r) (runtime s id).queue;
    }

    u : Store → Service
    u store = set_runtime id rt (record s { store = store })

    is_set : (store : Store) → runtime (u store) id ≡ rt
    is_set store =
        runtime-set_runtime id id rt (record s { store = store })
        ∙ ap (λ b. if b then rt else runtime s id) (eq_refl id)

    found_one :
        (store : Store) (o : Option Job)
        → elim o as (λ _. Service × Option Err) [
          | none ↦ (u store, none)
          | some job ↦ (emit now job (u store), none)
        ]
          ≡ (t, none)
        → Without r (runtime s id) (runtime t id)
    found_one store none k = record {
      rest = ap (λ (x : Service × Option Err). runtime x.0 id) (sym k) ∙ is_set store;
    }
    found_one store (some job) k = record {
      rest = ap (λ (x : Service × Option Err). runtime x.0 id) (sym k) ∙ is_set store;
    }

    go :
        (o : Option (Store × Bool))
        → elim o as (λ _. Service × Option Err) [
          | none ↦ (s, some persistence)
          | some (store, found) ↦
              if found
              then elim (load (u store) id) [
                | none ↦ (u store, none)
                | some job ↦ (emit now job (u store), none)
              ]
              else (record s { store = store }, some unknown_request)
        ]
          ≡ (t, none)
        → Without r (runtime s id) (runtime t id)
    go none k = ground arith
    go (some (store, true)) k = found_one store (load (u store) id) k
    go (some (store, false)) k = ground arith

removed_of :
    (r : Service × Option Err) (t : Service) (how : Cancelling)
    → as_removed r ≡ (t, ok how)
    → (r ≡ (t, none)) × (how ≡ removed)
removed_of (s, none) t how h = ground arith
removed_of (s, some e) t how h = ground arith

stopping_of :
    (r : Service × Result (ℕ × Bool)) (t : Service) (how : Cancelling)
    → as_stopping r ≡ (t, ok how)
    → (g : ℕ) × (saved : Bool) × (r ≡ (t, ok (g, saved))) × (how ≡ stopping g saved)
stopping_of (s, ok (g, saved)) t how h = (g, saved, ground arith, ground arith)
stopping_of (s, err e) t how h = ground arith

-- A cancellation that is not refused is of a job that accepts it. Either it gives up the turn that
-- runs, which is the named request's and the named turn, where they are named, and no other
-- cancellation is under way; or it names only a request that does not run, and no item of that
-- request waits any more, the others wait in their order, and the turn that runs goes on.
pub cancel_request-Cancels :
    (now : ℕ) (id request_id turn_id : String) (s t : Service) (how : Cancelling)
    → cancel_request now id request_id turn_id s ≡ (t, ok how)
    → (job : Job) × (load s id ≡ some job)
      × (accepts_turn_control job ≡ true)
      × Cancels request_id turn_id (runtime s id) (runtime t id) how
unfolding cancel_request
cancel_request-Cancels now id request_id turn_id s₀ t how h = go (load s id) refl h
  where
    s : Service
    s = ensure_runtime id s₀

    same : runtime s id ≡ runtime s₀ id
    same = runtime-ensure id s₀

    at :
        (job : Job) (x : Target)
        → Hits s id request_id turn_id job x
        → cancel_at now id request_id turn_id x s ≡ (t, ok how)
        → (accepts_turn_control job ≡ true)
          × Cancels request_id turn_id (runtime s id) (runtime t id) how
    at job (refuse e) p k = ground arith
    at job queued_request p k =
        let (e, w) = removed_of (cancel_queued_locked now id request_id s) t how k in
        let q = removed_queue now id request_id s t e in
        (
          p.accepts,
          subst (Cancels request_id turn_id (runtime s id) (runtime t id)) (sym w) (record {
            named = p.named;
            no_turn = p.no_turn;
            not_running = p.not_running;
            kept = ap (λ (r : Runtime). r.queue) q.rest;
            gone =
                subst (λ (r : Runtime). All (λ (x : Queued). x.request_id ≢ request_id) r.queue)
                  (sym q.rest) (others request_id (runtime s id).queue);
            same_turn = ap (λ (r : Runtime). r.turn_id) q.rest;
            same_generation = ap (λ (r : Runtime). r.gen) q.rest;
          }),
        )
    at job active_turn p k =
        let (g, saved, e, w) = stopping_of (cancel_begin now id turn_id s) t how k in
        let c = cancel_begin-Cancelled now id turn_id s t g saved e in
        let n = cancel_begin-turn now id turn_id s t g saved e in
        (
          p.accepts,
          subst (Cancels request_id turn_id (runtime s id) (runtime t id)) (sym w) (record {
            request = p.request;
            turn = n.1;
            alone = n.0;
            moved_on = c.given_up.gen;
            generation = c.generation;
            stopped = c.given_up.cancelled;
          }),
        )

    go :
        (o : Option Job)
        → load s id ≡ o
        → elim o as (λ _. Service × Result Cancelling) [
          | none ↦ (s, err not_found)
          | some job ↦
              cancel_at now id request_id turn_id (cancel_target s id request_id turn_id job) s
        ]
          ≡ (t, ok how)
        → (job : Job) × (load s₀ id ≡ some job)
          × (accepts_turn_control job ≡ true)
          × Cancels request_id turn_id (runtime s₀ id) (runtime t id) how
    go none l k = ground arith
    go (some job) l k =
        let (a, c) =
          at job (cancel_target s id request_id turn_id job)
            (cancel_target-Hits s id request_id turn_id job) k in
        (
          job,
          sym (load-ensure id id s₀) ∙ l,
          a,
          subst (λ r. Cancels request_id turn_id r (runtime t id) how) same c,
        )
