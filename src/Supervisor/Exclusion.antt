-- ===== src/Supervisor/Exclusion.antt =====
-- internal/supervisor/fifo.go: a job's turns exclude each other, over every sequence of the steps of
-- the pumps, of new requests, of lost connections and of cancellations.
use grok_mcp.Prelude.{
  ℕ, ◌+◌, ◌≤◌, String, Bool, true, false, List, [], ◌∷◌, ◌++◌, ◌==◌, String_eq, if◌then◌else◌, ◌≡◌,
  refl, ap, sym, ◌∙◌, arith, eq_iff, subst,
}
use grok_mcp.Supervisor.State.{Queued, Service, runtime}
use grok_mcp.Supervisor.Fifo.{Stop, stopped, started, pump_begin, enqueue}
use grok_mcp.Supervisor.Recover.{disconnect_locked}
use grok_mcp.Supervisor.Cancel.{cancel_begin, cancel_end}
use grok_mcp.Supervisor.Pump.{Finish, pump_end}
use grok_mcp.Supervisor.Busy.{KeepsBusy, enqueue-busy, disconnect_locked-busy}
use grok_mcp.Supervisor.BusySteps.{
  Moves, pump_begin-Moves, pump_end-idle, cancel_begin-busy, cancel_end-busy,
}

-- The service and the items whose rounds have begun and not ended, each with its job.
pub record World : Type 0 where
  pub service : Service
  pub running : List (String × Queued)

-- The steps that pumps and calls make between two unlocks, in any order and for any job. The time,
-- the identifiers and the agent's answers are whatever the step names.
pub data Step : World → World → Type 0 where
  begins :
      {s : Service} {rs : List (String × Queued)}
      → (now : ℕ) (turn_id digest id : String) (t : Service) (item : Queued)
      → pump_begin now turn_id digest id s ≡ (t, started item)
      → Step
          (record { service = s; running = rs })
          (record { service = t; running = (id, item) ∷ rs })
  stops :
      {s : Service} {rs : List (String × Queued)}
      → (now : ℕ) (turn_id digest id : String) (t : Service) (why : Stop)
      → pump_begin now turn_id digest id s ≡ (t, stopped why)
      → Step (record { service = s; running = rs }) (record { service = t; running = rs })
  ends :
      {s : Service} (front back : List (String × Queued))
      → (now : ℕ) (uuid id : String) (item : Queued) (finish : Finish)
      → Step
          (record { service = s; running = front ++ (id, item) ∷ back })
          (record { service = (pump_end now uuid id item finish s).0; running = front ++ back })
  accepts :
      {s : Service} {rs : List (String × Queued)}
      → (now : ℕ) (uuid id : String) (item : Queued)
      → Step
          (record { service = s; running = rs })
          (record { service = (enqueue now uuid id item s).0; running = rs })
  disconnects :
      {s : Service} {rs : List (String × Queued)}
      → (now : ℕ) (id reason : String)
      → Step
          (record { service = s; running = rs })
          (record { service = disconnect_locked now id reason s; running = rs })
  cancels :
      {s : Service} {rs : List (String × Queued)}
      → (now : ℕ) (id turn : String)
      → Step
          (record { service = s; running = rs })
          (record { service = (cancel_begin now id turn s).0; running = rs })
  cancel_ends :
      {s : Service} {rs : List (String × Queued)}
      → (now : ℕ) (id : String) (generation : ℕ) (told : Bool)
      → Step
          (record { service = s; running = rs })
          (record { service = (cancel_end now id generation told s).0; running = rs })

pub data Reaches : World → World → Type 0 where
  here : {w : World} → Reaches w w
  then_ : {u v w : World} → Reaches u v → Step v w → Reaches u w

-- How many of the rounds are of the job `id`.
abbrev pub turns_of : String → List (String × Queued) → ℕ
turns_of id [] = 0
turns_of id ((k, item) ∷ rs) = (if k == id then 1 else 0) + turns_of id rs

abbrev pub bit : Bool → ℕ
bit true = 1
bit false = 0

-- A job is busy with one turn, or idle with none.
pub record Exclusive (w : World) : Type 0 where
  pub one_turn : (id : String) → turns_of id w.running ≡ bit (runtime w.service id).busy

turns_of-remove :
    (id k : String) (item : Queued) (front back : List (String × Queued))
    → turns_of k (front ++ (id, item) ∷ back)
      ≡ (if id == k then 1 else 0) + turns_of k (front ++ back)
turns_of-remove id k item [] back = refl
turns_of-remove id k item ((j, q) ∷ front) back =
    grind (arith, turns_of-remove id k item front back)

keeps :
    (rs : List (String × Queued)) {s t : Service}
    → KeepsBusy s t
    → Exclusive (record { service = s; running = rs })
    → Exclusive (record { service = t; running = rs })
keeps rs p e = record { one_turn = λ id. e.one_turn id ∙ ap bit (sym (p.busy_of id)) }

begin_count :
    (b : Bool) (n : ℕ) (x : Bool)
    → (b ≡ true → x ≡ false)
    → n ≡ bit x
    → (if b then 1 else 0) + n ≡ bit (if b then true else x)
begin_count true n x f e = rw (e, f refl) refl
begin_count false n x f e = omega arith

end_count :
    (b : Bool) (n : ℕ) (x : Bool)
    → (if b then 1 else 0) + n ≡ bit x
    → n ≡ bit (if b then false else x)
end_count true n true e = omega arith
end_count true n false e = omega arith
end_count false n x e = omega arith

-- Each step keeps one turn per job.
pub Step-Exclusive : {v w : World} → Step v w → Exclusive v → Exclusive w
Step-Exclusive (begins {s} {rs} now turn_id digest id t item h) e =
    let (idle, p) = subst (Moves id s) h (pump_begin-Moves now turn_id digest id s) in
    record {
      one_turn = λ k.
          begin_count (id == k) (turns_of k rs) (runtime s k).busy
            (λ same. ap (λ x. (runtime s x).busy) (sym ((eq_iff id k).0 same)) ∙ idle)
            (e.one_turn k)
          ∙ ap bit (sym (p.busy_at k));
    }
Step-Exclusive (stops {s} {rs} now turn_id digest id t why h) e =
    keeps rs (subst (Moves id s) h (pump_begin-Moves now turn_id digest id s)) e
Step-Exclusive (ends {s} front back now uuid id item finish) e =
    let p = pump_end-idle now uuid id item finish s in
    record {
      one_turn = λ k.
          end_count (id == k) (turns_of k (front ++ back)) (runtime s k).busy
            (sym (turns_of-remove id k item front back) ∙ e.one_turn k)
          ∙ ap bit (sym (p.busy_at k));
    }
Step-Exclusive (accepts {s} {rs} now uuid id item) e = keeps rs (enqueue-busy now uuid id item s) e
Step-Exclusive (disconnects {s} {rs} now id reason) e =
    keeps rs (disconnect_locked-busy now id reason s) e
Step-Exclusive (cancels {s} {rs} now id turn) e = keeps rs (cancel_begin-busy now id turn s) e
Step-Exclusive (cancel_ends {s} {rs} now id generation told) e =
    keeps rs (cancel_end-busy now id generation told s) e

pub Reaches-Exclusive : {v w : World} → Reaches v w → Exclusive v → Exclusive w
Reaches-Exclusive here e = e
Reaches-Exclusive (then_ r s) e = Step-Exclusive s (Reaches-Exclusive r e)

bit_bound : (b : Bool) → bit b ≤ 1
bit_bound true = omega arith
bit_bound false = omega arith

-- From a world in which each job is busy with one turn or idle with none, every world that the
-- steps reach has at most one turn of each job underway: a job's turns never overlap, whatever
-- requests are accepted, whatever cancellations begin and end and whatever connections are lost
-- meanwhile.
pub turns_never_overlap :
    (v w : World) (id : String) → Exclusive v → Reaches v w → turns_of id w.running ≤ 1
turns_never_overlap v w id e r =
    rw ((Reaches-Exclusive r e).one_turn id) (bit_bound (runtime w.service id).busy)
