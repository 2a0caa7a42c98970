-- ===== src/Agent/KeepsWaiting.antt =====
-- The operations on permissions keep what waits.
use grok_mcp.Prelude.{
  ℕ, ◌<◌, String, Bool, true, false, Option, none, some, ◌≡◌, refl, sym, ap, subst, arith, ◌==◌,
  ◌!=◌, ◌∙◌, ℕ_eq, String_eq, if◌then◌else◌, Bool-cases, Option-cases, inl, inr, ◌⊎◌, ne_of,
  eq_test, nat_eq_iff, not, ◌&&◌,
}
use grok_mcp.Agent.Types.{PlanRequest, Decision}
use grok_mcp.Agent.State.{Grok, PlanChoice, set, new_grok}
use grok_mcp.Agent.Permissions.{
  Origin, await_begin, asked_request, is_stale_origin, clear_pending, is_channel, is_of_session,
  await_end, resolve_approval, send_choice, is_stale_approval, is_known_decision, Resolved,
  rejected, no_notes, invalid_decision,
}
use grok_mcp.Agent.Connection.{is_number, lost, release}
use grok_mcp.Agent.Asking.{ask-AreWaitingOn}
use grok_mcp.Agent.Waiting.{
  IsHeld, IsEmpty, AreApart, AreWaiting, IsOther, nothing-AreWaitingOn, forget-AreWaitingOn,
}

pub new_grok-AreWaiting : AreWaiting new_grok
unfolding new_grok
new_grok-AreWaiting = nothing-AreWaitingOn 0 (λ c. none) (λ c. inr refl)

not_of_session :
    (sid : String) (o : Option PlanRequest)
    → ((if is_of_session sid o then none else o) ≡ none)
      ⊎ (((if is_of_session sid o then none else o) ≡ o) × IsOther sid o)
not_of_session sid none = inl refl
not_of_session sid (some p) = elim (Bool-cases (p.session_id == sid)) [
  | inl y ↦ inl (rw y refl)
  | inr n ↦ inr (rw n refl, ne_of p.session_id sid n)
]

pub clear_pending-AreWaiting :
    (sid : String) (ch : ℕ) (g : Grok) → AreWaiting g → AreWaiting (clear_pending sid ch g)
unfolding clear_pending
clear_pending-AreWaiting sid ch g w = elim (Bool-cases (is_channel ch (g.pending sid))) [
  | inl y ↦
      rw (y, clear_pending)
        (forget-AreWaitingOn g.approvals g.pending g.made g.sent w sid
          (λ id. if is_of_session sid (g.approvals id) then none else g.approvals id) g.sent
          (λ id. not_of_session sid (g.approvals id)) (λ c. inl refl) w.unsent)
  | inr n ↦ rw (n, clear_pending) w
]

-- A choice is taken from a channel.
abbrev emptied : ℕ → Grok → Grok
emptied ch g = record g { sent = λ c. if c == ch then none else g.sent c }

emptied-AreWaiting : (ch : ℕ) (g : Grok) → AreWaiting g → AreWaiting (emptied ch g)
emptied-AreWaiting ch g w = record {
  held = w.held;
  empty = λ sid. empty_still (g.pending sid) (w.empty sid);
  single = w.single;
  own = w.own;
  unsent = λ c. unsent_still c (w.unsent c);
}
  where
    none_still : (c : ℕ) → g.sent c ≡ none → (if c == ch then none else g.sent c) ≡ none
    none_still c h = elim (Bool-cases (c == ch)) [ inl y ↦ rw y refl | inr n ↦ rw n h ]

    empty_still : (o : Option ℕ) → IsEmpty g.made g.sent o → IsEmpty g.made (emptied ch g).sent o
    empty_still none h = tt
    empty_still (some c) h = (h.0, none_still c h.1)

    unsent_still :
        (c : ℕ) → (c < g.made) ⊎ (g.sent c ≡ none) → (c < g.made) ⊎ ((emptied ch g).sent c ≡ none)
    unsent_still c (inl l) = inl l
    unsent_still c (inr e) = inr (none_still c e)

pub await_end-AreWaiting :
    (given_up : Bool) (sid : String) (ch : ℕ) (g : Grok)
    → AreWaiting g
    → AreWaiting (await_end given_up sid ch g).0
unfolding await_end
await_end-AreWaiting true sid ch g w = clear_pending-AreWaiting sid ch g w
await_end-AreWaiting false sid ch g w = elim (Option-cases (g.sent ch)) [
  | inl empty ↦ rw (empty, await_end) w
  | inr (choice, full) ↦
      rw (full, await_end)
        (clear_pending-AreWaiting sid ch (emptied ch g) (emptied-AreWaiting ch g w))
]

pub lost-AreWaiting : (c : ℕ) (g : Grok) → AreWaiting g → AreWaiting (lost c g).0
unfolding lost
lost-AreWaiting c g w = elim (Bool-cases (is_number c g.conn)) [
  | inl y ↦ rw (y, lost) (nothing-AreWaitingOn g.made g.sent w.unsent)
  | inr n ↦ rw (n, lost) w
]

pub release-AreWaiting : (g : Grok) → AreWaiting g → AreWaiting (release g)
unfolding release
release-AreWaiting g w = nothing-AreWaitingOn g.made g.sent w.unsent

-- The other names have approvals of other sessions.
others_apart :
    (g : Grok) (id : String) (p : PlanRequest)
    → AreWaiting g
    → g.approvals id ≡ some p
    → (j : String)
    → (set g.approvals p.id none j ≡ none)
      ⊎ ((set g.approvals p.id none j ≡ g.approvals j) × IsOther p.session_id (g.approvals j))
others_apart g id p w e j = elim (Bool-cases (p.id == j)) [
  | inl y ↦ inl (rw y refl)
  | inr n ↦
      inr (
        rw n refl,
        other (g.approvals j) n (subst (AreApart j id (g.approvals j)) e (w.single j id)),
      )
]
  where
    own_name : p.id ≡ id
    own_name = (subst (IsHeld g.pending id) e (w.held id)).0

    other :
        (o : Option PlanRequest)
        → (p.id == j) ≡ false
        → AreApart j id o (some p)
        → IsOther p.session_id o
    other none n a = tt
    other (some q) n (inr differ) = differ
    other (some q) n (inl same) = absurd (cc (n, eq_test p.id j (own_name ∙ sym same)))

pub send_choice-AreWaiting :
    (id : String) (p : PlanRequest) (ch : ℕ) (choice : PlanChoice) (g : Grok)
    → g.approvals id ≡ some p
    → g.pending p.session_id ≡ some ch
    → AreWaiting g
    → AreWaiting (send_choice p ch choice g).0
unfolding send_choice
send_choice-AreWaiting id p ch choice g kept waits w = elim (Option-cases (g.sent ch)) [
  | inr (other, full) ↦ rw (full, send_choice) w
  | inl empty ↦
      rw (empty, send_choice)
        (forget-AreWaitingOn g.approvals g.pending g.made g.sent w p.session_id
          (set g.approvals p.id none) (λ c. if c == ch then some choice else g.sent c)
          (others_apart g id p w kept) same made_before)
]
  where
    same :
        (c : ℕ)
        → ((if c == ch then some choice else g.sent c) ≡ g.sent c)
          ⊎ (g.pending p.session_id ≡ some c)
    same c = elim (Bool-cases (c == ch)) [
      | inl y ↦ inr (waits ∙ ap some (sym ((nat_eq_iff c ch).0 y)))
      | inr n ↦ inl (rw n refl)
    ]

    made_before : (c : ℕ) → (c < g.made) ⊎ ((if c == ch then some choice else g.sent c) ≡ none)
    made_before c = elim (Bool-cases (c == ch)) [
      | inl y ↦ inl (
          omega (
            arith,
            (nat_eq_iff c ch).0 y,
            (subst (IsEmpty g.made g.sent) waits (w.empty p.session_id)).0,
          ))
      | inr n ↦ rw n (w.unsent c)
    ]

pub resolve_approval-AreWaiting :
    (done : Bool) (d : Decision) (g : Grok)
    → AreWaiting g
    → AreWaiting (resolve_approval done d g).0
unfolding resolve_approval
resolve_approval-AreWaiting true d g w = w
resolve_approval-AreWaiting false d g w = elim (Option-cases (g.approvals d.plan.id)) [
  | inl gone ↦ rw (gone, resolve_approval) w
  | inr (p, kept) ↦ elim (Bool-cases (is_stale_approval p d.plan g)) [
    | inl y ↦ rw (kept, resolve_approval) (rw y w)
    | inr n ↦ elim (Option-cases (g.pending p.session_id)) [
      | inl over ↦ rw (kept, resolve_approval) (rw n (rw over w))
      | inr (ch, waits) ↦
          rw (kept, resolve_approval)
            (rw n (
              rw waits (
                sent_or_not (d.notes != "" && not p.supports_notes) (is_known_decision d.decide)
                  (send_choice p ch (record { decide = d.decide; notes = d.notes }) g).0
                  (send_choice p ch (record { decide = d.decide; notes = d.notes }) g).1
                  (send_choice-AreWaiting d.plan.id p ch
                    (record { decide = d.decide; notes = d.notes }) g kept waits w))))
    ]
  ]
]
  where
    sent_or_not :
        (a b : Bool) (g' : Grok) (r : Resolved)
        → AreWaiting g'
        → AreWaiting
            (if◌then◌else◌ {A = Grok × Resolved} a
              (g, rejected no_notes)
              (if b then (g', r) else (g, rejected invalid_decision))).0
    sent_or_not true b g' r v = w
    sent_or_not false true g' r v = v
    sent_or_not false false g' r v = w

-- What waits when a permission is asked for under an identifier.
pub await_begin-AreWaiting :
    (o : Origin) (sid excerpt : String) (notes : Bool) (id : String) (now : ℕ) (g : Grok)
    → AreWaiting g
    → AreWaiting (await_begin o sid excerpt notes id now g).0
unfolding await_begin asked_request
await_begin-AreWaiting o sid excerpt notes id now g w =
    elim (Bool-cases (is_stale_origin o sid g)) [
      | inl y ↦ rw (y, await_begin) w
      | inr n ↦ elim (Option-cases (g.pending sid)) [
        | inr (ch, waits) ↦ rw (n, await_begin) (rw waits w)
        | inl free ↦
            rw (n, await_begin)
              (rw free (
                ask-AreWaitingOn g.approvals g.pending g.made g.sent w id sid
                  (asked_request id now sid excerpt notes g) refl refl free))
      ]
    ]
