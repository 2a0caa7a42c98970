-- ===== src/Supervisor/Targets.antt =====
-- internal/supervisor/cancel.go: what a cancellation hits.
use grok_mcp.Prelude.{
  String, Bool, true, false, not, ◌&&◌, ◌==◌, ◌!=◌, String_eq, if◌then◌else◌, ◌≡◌, ◌≢◌, refl, arith,
  inl, inr, ◌⊎◌, eq_of, ne_of, eq_iff,
}
use grok_mcp.Protocol.Job.{Job}
use grok_mcp.Supervisor.State.{
  Runtime, Service, runtime, inactive, target_mismatch, unknown_request,
}
use grok_mcp.Supervisor.Turn.{accepts_turn_control}
use grok_mcp.Supervisor.Cancel.{
  Target, refuse, queued_request, active_turn, waits_in_queue, cancel_target,
}

-- The running turn is that of the named request and the named turn, where they are named.
pub record HitsTurn (rt : Runtime) (request_id turn_id : String) (job : Job) : Type 0 where
  pub accepts : accepts_turn_control job ≡ true
  pub request : (request_id ≡ "") ⊎ ((rt.busy ≡ true) × (request_id ≡ rt.request_id))
  pub turn : (request_id ≡ "") ⊎ (turn_id ≡ "") ⊎ (turn_id ≡ rt.turn_id)

-- The named request waits, and its turn does not run.
pub record HitsQueued (s : Service) (id request_id turn_id : String) (job : Job) : Type 0 where
  pub accepts : accepts_turn_control job ≡ true
  pub named : request_id ≢ ""
  pub no_turn : turn_id ≡ ""
  pub waits : waits_in_queue s id request_id ≡ true
  pub not_running : ((runtime s id).busy ≡ false) ⊎ (request_id ≢ (runtime s id).request_id)

abbrev pub Hits : Service → String → String → String → Job → Target → Type 0
Hits s id request_id turn_id job (refuse e) = Unit
Hits s id request_id turn_id job queued_request = HitsQueued s id request_id turn_id job
Hits s id request_id turn_id job active_turn = HitsTurn (runtime s id) request_id turn_id job

-- The tests of `cancel_target` in a row.
abbrev chosen : Bool → Bool → Bool → Bool → Bool → Bool → Bool → Target
chosen accepts named turn no_turn same_turn waits running =
    if not accepts
    then refuse inactive
    else if named && turn && not (running && same_turn)
    then refuse target_mismatch
    else if named && no_turn && waits && not running
    then queued_request
    else if named && not running
    then refuse unknown_request
    else active_turn

chosen-active_turn :
    (a e n k m w i : Bool)
    → chosen a e n k m w i ≡ active_turn
    → (a ≡ true) × ((e ≡ false) ⊎ (i ≡ true)) × ((e ≡ false) ⊎ (n ≡ false) ⊎ (m ≡ true))
chosen-active_turn a e n k m w i h = ground arith

chosen-queued_request :
    (a e n k m w i : Bool)
    → chosen a e n k m w i ≡ queued_request
    → (a ≡ true) × (e ≡ true) × (k ≡ true) × (w ≡ true) × (i ≡ false)
chosen-queued_request a e n k m w i h = ground arith

and_true : (a b : Bool) → (a && b) ≡ true → (a ≡ true) × (b ≡ true)
and_true a b h = ground arith

and_not : (a b : Bool) → (a && b) ≡ false → (a ≡ false) ⊎ (b ≡ false)
and_not a b h = ground arith

differs : (a b : String) → (a != b) ≡ true → a ≢ b
differs a b h = ne_of a b (go (a == b) h)
  where
    go : (c : Bool) → (if c then false else true) ≡ true → c ≡ false
    go true k = cc
    go false k = refl

-- A cancellation that is not refused is of a job that takes it, and hits what it names: the turn
-- that runs, if its request and its turn are those named, or the named request that waits and does
-- not run.
pub cancel_target-Hits :
    (s : Service) (id request_id turn_id : String) (job : Job)
    → Hits s id request_id turn_id job (cancel_target s id request_id turn_id job)
unfolding cancel_target
cancel_target-Hits s id request_id turn_id job =
    go
      (chosen (accepts_turn_control job) (request_id != "") (turn_id != "") (turn_id == "")
        (turn_id == rt.turn_id) (waits_in_queue s id request_id)
        (rt.busy && request_id == rt.request_id))
      refl
  where
    rt : Runtime
    rt = runtime s id

    request_of :
        ((request_id != "") ≡ false) ⊎ ((rt.busy && request_id == rt.request_id) ≡ true)
        → (request_id ≡ "") ⊎ ((rt.busy ≡ true) × (request_id ≡ rt.request_id))
    request_of (inl e) = inl (eq_of request_id "" e)
    request_of (inr i) =
        let (b, r) = and_true rt.busy (request_id == rt.request_id) i in
        inr (b, (eq_iff request_id rt.request_id).0 r)

    turn_of :
        ((request_id != "") ≡ false) ⊎ ((turn_id != "") ≡ false) ⊎ ((turn_id == rt.turn_id) ≡ true)
        → (request_id ≡ "") ⊎ (turn_id ≡ "") ⊎ (turn_id ≡ rt.turn_id)
    turn_of (inl e) = inl (eq_of request_id "" e)
    turn_of (inr (inl n)) = inr (inl (eq_of turn_id "" n))
    turn_of (inr (inr m)) = inr (inr ((eq_iff turn_id rt.turn_id).0 m))

    rest_of :
        (rt.busy ≡ false) ⊎ ((request_id == rt.request_id) ≡ false)
        → (rt.busy ≡ false) ⊎ (request_id ≢ rt.request_id)
    rest_of (inl b) = inl b
    rest_of (inr r) = inr (ne_of request_id rt.request_id r)

    go :
        (x : Target)
        → chosen
            (accepts_turn_control job)
            (request_id != "")
            (turn_id != "")
            (turn_id == "")
            (turn_id == rt.turn_id)
            (waits_in_queue s id request_id)
            (rt.busy && request_id == rt.request_id)
          ≡ x
        → Hits s id request_id turn_id job x
    go (refuse e) h = tt
    go queued_request h =
        let (a, e, k, w, i) =
          chosen-queued_request _ _ (turn_id != "") _ (turn_id == rt.turn_id) _ _ h in
        record {
          accepts = a;
          named = differs request_id "" e;
          no_turn = (eq_iff turn_id "").0 k;
          waits = w;
          not_running = rest_of (and_not rt.busy (request_id == rt.request_id) i);
        }
    go active_turn h =
        let (a, r, t) =
          chosen-active_turn _ _ _ (turn_id == "") _ (waits_in_queue s id request_id) _ h in
        record { accepts = a; request = request_of r; turn = turn_of t }
