-- ===== src/Supervisor/Accepting.antt =====
-- internal/supervisor/fifo.go and service.go: what `enqueue` leaves behind, and what is broadcast.
use grok_mcp.Prelude.{
  ℕ, String, Bool, true, false, not, ◌&&◌, List, [], ◌++◌, append-nil, Bool-cases, eq_iff, eq_test,
  ◌∷◌, Option, none, some, ◌==◌, String_eq, if◌then◌else◌, ◌≡◌, ◌≢◌, refl, ap, sym, ◌∙◌, arith,
  eq_refl, inl, inr, ◌⊎◌,
}
use grok_mcp.Protocol.Job.{zero_job}
use grok_mcp.Store.Tables.{Record, get_job}
use grok_mcp.Supervisor.State.{
  Queued, Runtime, Service, Err, closed, not_found, persistence, runtime, set_runtime,
  runtime-set_runtime,
}
use grok_mcp.Supervisor.Records.{load, ensure_runtime, or_job, write, emit, persistence_failed}
use grok_mcp.Supervisor.Fifo.{
  enqueue, stamped, accepted_request, push, insert_item, start_pump, or_else, job_request_id,
}
use grok_mcp.Supervisor.Watchdog.{unstalled}
use grok_mcp.Supervisor.Durable.{load-ensure, runtime-ensure, write-SameRuntimes}

-- A request that was accepted: it waits in the queue, and the job is written with it.
pub record Enqueued (uuid id : String) (q : Queued) (s t : Service) : Type 0 where
  pub running : s.closed ≡ false
  pub known : Record
  pub found : get_job s.store id ≡ some known
  pub front : List Queued
  pub back : List Queued
  pub item : Queued
  pub before : (runtime s id).queue ≡ front ++ back
  pub after : (runtime t id).queue ≡ front ++ item ∷ back
  pub goes_first : q.kind ≡ "continue" → q.connect ≡ false → front ≡ []
  pub goes_last : (q.kind ≢ "continue") ⊎ (q.connect ≡ true) → back ≡ []
  pub kind : item.kind ≡ q.kind
  pub text : item.text ≡ q.text
  pub generation : item.gen ≡ (runtime s id).gen
  pub request : (q.request_id ≡ "") ⊎ (item.request_id ≡ q.request_id)
  pub pumped : ((runtime s id).busy ≡ true) ⊎ (t.pumps ≡ id ∷ s.pumps)

-- Where `insert_item` puts an item: at one of the ends.
record Placed (q : Queued) (queue after : List Queued) : Type 0 where
  front : List Queued
  back : List Queued
  before : queue ≡ front ++ back
  inserted : after ≡ front ++ q ∷ back
  goes_first : q.kind ≡ "continue" → q.connect ≡ false → front ≡ []
  goes_last : (q.kind ≢ "continue") ⊎ (q.connect ≡ true) → back ≡ []

insert_item-Placed : (q : Queued) (queue : List Queued) → Placed q queue (insert_item q queue)
insert_item-Placed q queue = elim (Bool-cases (q.kind == "continue" && not q.connect)) [
  | inl y ↦ rw y (record {
    front = [];
    back = queue;
    before = refl;
    inserted = refl;
    goes_first = λ k c. refl;
    goes_last = λ e. elim e [
      | inl n ↦ absurd (n ((eq_iff q.kind "continue").0 (ground (arith, y))))
      | inr c ↦ absurd (ground (arith, y, c))
    ];
  })
  | inr n ↦ rw n (record {
    front = queue;
    back = [];
    before = sym (append-nil queue);
    inserted = refl;
    goes_first = λ k c. absurd (ground (arith, n, eq_test q.kind "continue" k, c));
    goes_last = λ e. refl;
  })
]

or_else_own : (a b c d : String) → (a ≡ "") ⊎ (or_else (or_else (or_else a b) c) d ≡ a)
or_else_own a b c d = elim (Bool-cases (a == "")) [
  | inl y ↦ inl ((eq_iff a "").0 y)
  | inr n ↦ inr (rw (n, n, n) refl)
]

enqueue_cases :
    (now : ℕ) (id : String) (q : Queued) (c : Bool) (o : Option Record) (s t : Service)
    (w : Record → Option Service)
    → (if c then (s, some closed) else elim o as (λ _. Service × Option Err) [
      | none ↦ (s, some not_found)
      | some rec ↦ elim (w rec) as (λ _. Service × Option Err) [
        | none ↦ (persistence_failed now id s, some persistence)
        | some u ↦ (push now id q u, none)
      ]
    ])
      ≡ (t, none)
    → (c ≡ false)
      × (rec : Record) × (o ≡ some rec)
      × (u : Service) × (w rec ≡ some u)
      × (push now id q u ≡ t)
enqueue_cases now id q true o s t w h = ground arith
enqueue_cases now id q false none s t w h = ground arith
enqueue_cases now id q false (some rec) s t w h = go (w rec) refl h
  where
    go :
        (o : Option Service)
        → w rec ≡ o
        → elim o as (λ _. Service × Option Err) [
          | none ↦ (persistence_failed now id s, some persistence)
          | some u ↦ (push now id q u, none)
        ]
          ≡ (t, none)
        → (false ≡ false)
          × (r : Record) × (some rec ≡ some r)
          × (u : Service) × (w r ≡ some u)
          × (push now id q u ≡ t)
    go none e k = ground arith
    go (some u) e k = (refl, rec, refl, u, e, ap (λ (x : Service × Option Err). x.0) k)

push-queue :
    (now : ℕ) (id : String) (q : Queued) (u : Service)
    → (runtime (push now id q u) id).queue ≡ insert_item q (runtime u id).queue
unfolding emit runtime
push-queue now id q u = go (runtime u id).busy (runtime-set_runtime id id rt u)
  where
    rt : Runtime
    rt = record (runtime u id) { queue = insert_item q (runtime u id).queue }

    go :
        (b : Bool)
        → runtime (set_runtime id rt u) id ≡ (if id == id then rt else runtime u id)
        → (runtime
            (start_pump id b
              (emit now (or_job (load (set_runtime id rt u) id) zero_job) (set_runtime id rt u)))
            id).queue
          ≡ insert_item q (runtime u id).queue
    go true e =
        ap (λ (r : Runtime). r.queue) e
        ∙ ap (λ b. (if b then rt else runtime u id).queue) (eq_refl id)
    go false e =
        ap (λ (r : Runtime). r.queue) e
        ∙ ap (λ b. (if b then rt else runtime u id).queue) (eq_refl id)

push-pumps :
    (now : ℕ) (id : String) (q : Queued) (u : Service)
    → ((runtime u id).busy ≡ true) ⊎ ((push now id q u).pumps ≡ id ∷ u.pumps)
unfolding emit set_runtime
push-pumps now id q u = go (runtime u id).busy (emit now (or_job (load t id) zero_job) t)
  where
    t : Service
    t = set_runtime id (record (runtime u id) { queue = insert_item q (runtime u id).queue }) u

    go : (b : Bool) (v : Service) → (b ≡ true) ⊎ ((start_pump id b v).pumps ≡ id ∷ v.pumps)
    go true v = inl refl
    go false v = inr refl

stamped-ensure :
    (id uuid : String) (q : Queued) (s : Service)
    → stamped (ensure_runtime id s) id uuid q ≡ stamped s id uuid q
stamped-ensure id uuid q s = rw (runtime-ensure id s, load-ensure id id s) refl

-- A request is accepted only by an open service and for a job that can be read; it then waits in
-- the job's queue with its text, under the current generation and under its own request if it names
-- one: before all others if it is a continuation that need not connect, else after them, and the
-- others stay in their order. A pump is started for it unless the job's turn runs, which looks at
-- the queue at its end.
pub enqueue-Enqueued :
    (now : ℕ) (uuid id : String) (q : Queued) (s t : Service)
    → enqueue now uuid id q s ≡ (t, none)
    → Enqueued uuid id q s t
unfolding enqueue ensure_runtime set_runtime
enqueue-Enqueued now uuid id q s₀ t h =
    let s = ensure_runtime id s₀ in
    let item = stamped s id uuid q in
    let w : Record → Option Service = λ rec.
      write
        (record rec {
          job = or_job item.accepted_job rec.job;
          accepted = some (accepted_request item);
        })
        s in
    let (c, rec, o, u, e, p) = enqueue_cases now id item s.closed (get_job s.store id) s t w h in
    let same = write-SameRuntimes _ s u e in
    let rt : unstalled (runtime u id) ≡ unstalled (runtime s₀ id) =
      same.runtimes id ∙ ap unstalled (runtime-ensure id s₀) in
    let p_queue : (runtime t id).queue ≡ insert_item (stamped s₀ id uuid q) (runtime s₀ id).queue =
      ap (λ (x : Service). (runtime x id).queue) (sym p)
      ∙ push-queue now id item u
      ∙ ap (λ (r : Runtime). insert_item item r.queue) rt
      ∙ ap (λ (x : Queued). insert_item x (runtime s₀ id).queue) (stamped-ensure id uuid q s₀) in
    let at = insert_item-Placed (stamped s₀ id uuid q) (runtime s₀ id).queue in
    record {
      running = c;
      known = rec;
      found = o;
      front = at.front;
      back = at.back;
      item = stamped s₀ id uuid q;
      before = at.before;
      after = p_queue ∙ at.inserted;
      goes_first = at.goes_first;
      goes_last = at.goes_last;
      kind = refl;
      text = refl;
      generation = refl;
      request =
          or_else_own q.request_id (job_request_id (load s₀ id)) (runtime s₀ id).request_id uuid;
      pumped = elim (push-pumps now id item u) [
        | inl b ↦ inl (sym (ap (λ (r : Runtime). r.busy) rt) ∙ b)
        | inr n ↦ inr (ap (λ (x : Service). x.pumps) (sym p) ∙ n ∙ ap (λ x. id ∷ x) same.pumps)
      ];
    }
