-- ===== src/Agent/Delivered.antt =====
-- A decision that is accepted reaches the permission that waits, once.
use grok_mcp.Prelude.{
  ℕ, String, Bool, true, false, not, ◌&&◌, ◌||◌, none, some, ◌≡◌, refl, sym, ap, subst, ◌∙◌, ◌==◌,
  ◌!=◌, ℕ_eq, String_eq, if◌then◌else◌, Bool-cases, Option-cases, inl, inr, eq_test, ne_false,
}
use grok_mcp.Agent.Types.{PlanRequest, Decision}
use grok_mcp.Agent.State.{Grok, set}
use grok_mcp.Agent.Permissions.{
  Resolved, resolved, rejected, stale_approval, await_end, pending_approval, resolve_approval,
  send_choice, is_stale_approval, is_known_decision,
}
use grok_mcp.Agent.Waiting.{AreWaiting, IsEmpty}

-- What is left of a decision that is accepted: it is resolved, the permission that waits at the
-- channel gets it, and the approval is gone, for readers and for every later decision on it.
pub record IsDelivered (d : Decision) (ch : ℕ) (r : Grok × Resolved) : Type 0 where
  pub accepted : r.1 ≡ resolved
  pub received :
      (await_end false d.plan.session_id ch r.0).1
      ≡ some (record { decide = d.decide; notes = d.notes })
  pub gone : pending_approval d.plan.id r.0 ≡ none
  pub final :
      (e : Decision)
      → (resolve_approval false (record e { plan = d.plan }) r.0).1 ≡ rejected stale_approval

-- The state after a decision is sent.
abbrev sent_state : Decision → ℕ → Grok → Grok
sent_state d ch g = record g {
  sent = λ c. if c == ch then some (record { decide = d.decide; notes = d.notes }) else g.sent c;
  pending = set g.pending d.plan.session_id none;
  pending_notes = set g.pending_notes d.plan.session_id false;
  approvals = set g.approvals d.plan.id none;
  plan = set g.plan d.plan.session_id false;
}

sent_state-IsDelivered :
    (d : Decision) (ch : ℕ) (g : Grok) → IsDelivered d ch (sent_state d ch g, resolved)
unfolding await_end pending_approval resolve_approval
sent_state-IsDelivered d ch g = record {
  accepted = refl;
  received = rw (eq_test ch ch refl) refl;
  gone = rw (eq_test d.plan.id d.plan.id refl, pending_approval) refl;
  final = λ e. rw (eq_test d.plan.id d.plan.id refl, resolve_approval) refl;
}

-- What is pending is kept under its name, on this connection.
pub pending_kept :
    (id : String) (p : PlanRequest) (g : Grok)
    → pending_approval id g ≡ some p
    → (g.approvals id ≡ some p) × ((p.connection_id != g.connection_id) ≡ false)
unfolding pending_approval
pending_kept id p g h = elim (Option-cases (g.approvals id)) [
  | inl gone ↦ absurd (cc (rw (gone, pending_approval) at h))
  | inr (q, kept) ↦ elim (Bool-cases (q.connection_id != g.connection_id)) [
    | inl y ↦ absurd (cc (rw y at (rw (kept, pending_approval) at h)))
    | inr n ↦ elim (Option-cases (g.pending q.session_id)) [
      | inl over ↦ absurd (cc (rw over at (rw n at (rw (kept, pending_approval) at h))))
      | inr (ch, waits) ↦
          let same : q ≡ p = cc (rw waits at (rw n at (rw (kept, pending_approval) at h))) in
          (kept ∙ ap some same, subst (λ r. (r.connection_id != g.connection_id) ≡ false) same n)
    ]
  ]
]

not_stale :
    (p : PlanRequest) (g : Grok)
    → (p.connection_id != g.connection_id) ≡ false
    → is_stale_approval p p g ≡ false
unfolding is_stale_approval
not_stale p g h =
    rw
      (
        h,
        ne_false p.connection_id p.connection_id refl,
        ne_false p.session_id p.session_id refl,
        ne_false p.request_id p.request_id refl,
        ne_false p.turn_id p.turn_id refl,
      )
      refl

not_refused : (b c : Bool) → (b || c) ≡ true → ((if b then false else true) && not c) ≡ false
not_refused true c h = refl
not_refused false true h = refl
not_refused false false h = absurd (cc h)

sent_as :
    (d : Decision) (ch : ℕ) (g : Grok)
    → AreWaiting g
    → pending_approval d.plan.id g ≡ some d.plan
    → g.pending d.plan.session_id ≡ some ch
    → (d.notes == "" || d.plan.supports_notes) ≡ true
    → is_known_decision d.decide ≡ true
    → resolve_approval false d g ≡ (sent_state d ch g, resolved)
unfolding resolve_approval send_choice
sent_as d ch g w p waits n k =
    rw ((pending_kept d.plan.id d.plan g p).0, resolve_approval)
      (rw (not_stale d.plan g (pending_kept d.plan.id d.plan g p).1) (
        rw waits (
          rw (not_refused (d.notes == "") d.plan.supports_notes n) (
            rw k (
              rw ((subst (IsEmpty g.made g.sent) waits (w.empty d.plan.session_id)).1, send_choice)
                refl)))))

-- A decision on a pending approval, with the plan that is pending, a known choice, and notes only
-- where they are supported, is resolved; the permission that waits gets the choice and the notes;
-- and the approval is gone: it is pending no more, and any later decision on the plan is rejected as
-- stale. The client's state is one that keeps its approvals waiting.
pub resolve_approval-IsDelivered :
    (d : Decision) (ch : ℕ) (g : Grok)
    → AreWaiting g
    → pending_approval d.plan.id g ≡ some d.plan
    → g.pending d.plan.session_id ≡ some ch
    → (d.notes == "" || d.plan.supports_notes) ≡ true
    → is_known_decision d.decide ≡ true
    → IsDelivered d ch (resolve_approval false d g)
resolve_approval-IsDelivered d ch g w p waits n k =
    subst (IsDelivered d ch) (sym (sent_as d ch g w p waits n k)) (sent_state-IsDelivered d ch g)
