-- ===== src/Agent/Waiting.antt =====
-- Every approval that is kept has a permission that waits for it, and a channel that is empty.
use grok_mcp.Prelude.{
  ℕ, ◌<◌, String, Bool, true, false, Option, none, some, ◌≡◌, ◌≢◌, refl, sym, subst, ◌==◌, ℕ_eq,
  String_eq, if◌then◌else◌, Bool-cases, inl, inr, ◌⊎◌, eq_false, eq_test, ◌∙◌,
}
use grok_mcp.Agent.Types.{PlanRequest}
use grok_mcp.Agent.State.{Grok, PlanChoice, set}

abbrev pub Approvals : Type 0
Approvals = String → Option PlanRequest

abbrev pub Pending : Type 0
Pending = String → Option ℕ

abbrev pub Channels : Type 0
Channels = ℕ → Option PlanChoice

-- An approval stands under its own name, and the session's permission waits.
abbrev pub IsHeld : Pending → String → Option PlanRequest → Type 0
IsHeld pending id none = Unit {0}
IsHeld pending id (some p) = (p.id ≡ id) × ((ch : ℕ) × (pending p.session_id ≡ some ch))

-- A channel that waits was made, and holds nothing yet.
abbrev pub IsEmpty : ℕ → Channels → Option ℕ → Type 0
IsEmpty made sent none = Unit {0}
IsEmpty made sent (some ch) = (ch < made) × (sent ch ≡ none)

-- Two names with approvals of one session are one name.
abbrev pub AreApart : String → String → Option PlanRequest → Option PlanRequest → Type 0
AreApart a b none q = Unit {0}
AreApart a b (some p) none = Unit {0}
AreApart a b (some p) (some q) = (a ≡ b) ⊎ (p.session_id ≢ q.session_id)

-- Two sessions have two channels.
abbrev pub HaveOwn : String → String → Option ℕ → Option ℕ → Type 0
HaveOwn s t none d = Unit {0}
HaveOwn s t (some c) none = Unit {0}
HaveOwn s t (some c) (some d) = (s ≡ t) ⊎ (c ≢ d)

pub record AreWaitingOn (approvals : Approvals) (pending : Pending) (made : ℕ) (sent : Channels)
    : Type 0 where
  pub held : (id : String) → IsHeld pending id (approvals id)
  pub empty : (sid : String) → IsEmpty made sent (pending sid)
  pub single : (a b : String) → AreApart a b (approvals a) (approvals b)
  pub own : (s t : String) → HaveOwn s t (pending s) (pending t)
  pub unsent : (c : ℕ) → (c < made) ⊎ (sent c ≡ none)

abbrev pub AreWaiting : Grok → Type 0
AreWaiting g = AreWaitingOn g.approvals g.pending g.made g.sent

-- An approval of another session.
abbrev pub IsOther : String → Option PlanRequest → Type 0
IsOther sid none = Unit {0}
IsOther sid (some p) = p.session_id ≢ sid

-- Nothing waits, and nothing is kept.
pub nothing-AreWaitingOn :
    (made : ℕ) (sent : Channels)
    → ((c : ℕ) → (c < made) ⊎ (sent c ≡ none))
    → AreWaitingOn (λ id. none) (λ sid. none) made sent
nothing-AreWaitingOn made sent u = record {
  held = λ id. tt;
  empty = λ sid. tt;
  single = λ a b. tt;
  own = λ s t. tt;
  unsent = u;
}

fewer_own :
    (s t : String) (a b : Bool) (c d : Option ℕ)
    → HaveOwn s t c d
    → HaveOwn s t (if a then none else c) (if b then none else d)
fewer_own s t true b c d h = tt
fewer_own s t false b none d h = tt
fewer_own s t false true (some c) d h = tt
fewer_own s t false false (some c) d h = h

module _ (approvals : Approvals) (pending : Pending) (made : ℕ) (sent : Channels)
    (w : AreWaitingOn approvals pending made sent) where
  pub own_at :
      (s t : String) (c d : ℕ) → pending s ≡ some c → pending t ≡ some d → (s ≡ t) ⊎ (c ≢ d)
  own_at s t c d p q =
      subst (HaveOwn s t (some c)) q (subst (λ o. HaveOwn s t o (pending t)) p (w.own s t))

  -- A session is forgotten: its approvals, and the channel that waited for it.
  module _ (sid : String) (left : Approvals) (later : Channels)
      (others : (id : String)
        → (left id ≡ none) ⊎ ((left id ≡ approvals id) × IsOther sid (approvals id)))
      (same : (c : ℕ) → (later c ≡ sent c) ⊎ (pending sid ≡ some c)) where
    still-IsHeld :
        (id : String) (o : Option PlanRequest)
        → IsHeld pending id o
        → IsOther sid o
        → IsHeld (set pending sid none) id o
    still-IsHeld id none h n = tt
    still-IsHeld id (some p) h n =
        (h.0, (h.1.0, rw (eq_false sid p.session_id (λ e. n (sym e))) h.1.1))

    still-IsEmpty :
        (t : String) (o : Option ℕ)
        → pending t ≡ o
        → IsEmpty made sent o
        → IsEmpty made later (if sid == t then none else o)
    still-IsEmpty t none e h = elim (Bool-cases (sid == t)) [ inl y ↦ rw y tt | inr n ↦ rw n tt ]
    still-IsEmpty t (some c) e h = elim (Bool-cases (sid == t)) [
      | inl y ↦ rw y tt
      | inr n ↦ rw n (h.0, unsent_still n (same c))
    ]
      where
        unsent_still :
            (sid == t) ≡ false → (later c ≡ sent c) ⊎ (pending sid ≡ some c) → later c ≡ none
        unsent_still n (inl p) = p ∙ h.1
        unsent_still n (inr p) = elim (own_at sid t c c p e) [
          | inl q ↦ absurd (cc (n, eq_test sid t q))
          | inr differ ↦ absurd (differ refl)
        ]

    still_apart :
        (a b : String)
        → (left a ≡ none) ⊎ ((left a ≡ approvals a) × IsOther sid (approvals a))
        → (left b ≡ none) ⊎ ((left b ≡ approvals b) × IsOther sid (approvals b))
        → AreApart a b (left a) (left b)
    still_apart a b (inl p) q = subst (λ o. AreApart a b o (left b)) (sym p) tt
    still_apart a b (inr p) (inl q) = subst (AreApart a b (left a)) (sym q) (before_none (left a))
      where
        before_none : (o : Option PlanRequest) → AreApart a b o none
        before_none none = tt
        before_none (some r) = tt
    still_apart a b (inr p) (inr q) =
        subst (AreApart a b (left a)) (sym q.0)
          (subst (λ o. AreApart a b o (approvals b)) (sym p.0) (w.single a b))

    pub forget-AreWaitingOn :
        ((c : ℕ) → (c < made) ⊎ (later c ≡ none))
        → AreWaitingOn left (set pending sid none) made later
    forget-AreWaitingOn u = record {
      held = λ id. elim (others id) [
        | inl gone ↦ subst (IsHeld (set pending sid none) id) (sym gone) tt
        | inr (e, o) ↦
            subst (IsHeld (set pending sid none) id) (sym e)
              (still-IsHeld id (approvals id) (w.held id) o)
      ];
      empty = λ t. still-IsEmpty t (pending t) refl (w.empty t);
      single = λ a b. still_apart a b (others a) (others b);
      own = λ s t. fewer_own s t (sid == s) (sid == t) (pending s) (pending t) (w.own s t);
      unsent = u;
    }
