-- ===== src/Agent/Asking.antt =====
-- A permission that is asked for waits beside the others.
use grok_mcp.Prelude.{
  ℕ, ◌+◌, ◌<◌, String, Bool, true, false, Option, none, some, ◌≡◌, ◌≢◌, refl, sym, ap, arith, ◌==◌,
  ◌∙◌, String_eq, if◌then◌else◌, Bool-cases, inl, inr, ◌⊎◌, eq_iff, eq_test,
}
use grok_mcp.Agent.Types.{PlanRequest}
use grok_mcp.Agent.State.{set}
use grok_mcp.Agent.Waiting.{
  Approvals, Pending, Channels, IsHeld, IsEmpty, AreApart, HaveOwn, AreWaitingOn,
}

module _ (approvals : Approvals) (pending : Pending) (made : ℕ) (sent : Channels)
    (w : AreWaitingOn approvals pending made sent) (id sid : String) (req : PlanRequest)
    (own_name : req.id ≡ id) (own_session : req.session_id ≡ sid) (free : pending sid ≡ none) where
  -- No approval that is held is of the session.
  elsewhere :
      (j : String) (q : PlanRequest) → IsHeld pending j (some q) → req.session_id ≢ q.session_id
  elsewhere j q h e = absurd (cc (h.1.1, free, ap pending (sym own_session ∙ e)))

  later-IsHeld :
      (j : String) (o : Option PlanRequest)
      → IsHeld pending j o
      → IsHeld (set pending sid (some made)) j o
  later-IsHeld j none h = tt
  later-IsHeld j (some q) h = elim (Bool-cases (sid == q.session_id)) [
    | inl y ↦ absurd (elsewhere j q h (own_session ∙ (eq_iff sid q.session_id).0 y))
    | inr n ↦ (h.0, (h.1.0, rw n h.1.1))
  ]

  IsHeld-by :
      (j : String) (x : Bool)
      → (id == j) ≡ x
      → IsHeld (set pending sid (some made)) j (if x then some req else approvals j)
  IsHeld-by j true y =
      (own_name ∙ (eq_iff id j).0 y, (made, rw (eq_test sid req.session_id (sym own_session)) refl))
  IsHeld-by j false n = later-IsHeld j (approvals j) (w.held j)

  apart_after :
      (a b : String) (o : Option PlanRequest) → IsHeld pending b o → AreApart a b (some req) o
  apart_after a b none h = tt
  apart_after a b (some q) h = inr (elsewhere b q h)

  apart_before :
      (a b : String) (o : Option PlanRequest) → IsHeld pending a o → AreApart a b o (some req)
  apart_before a b none h = tt
  apart_before a b (some q) h = inr (λ e. elsewhere a q h (sym e))

  apart_by :
      (a b : String) (x y : Bool)
      → (id == a) ≡ x
      → (id == b) ≡ y
      → AreApart a b (if x then some req else approvals a) (if y then some req else approvals b)
  apart_by a b true true p q = inl (sym ((eq_iff id a).0 p) ∙ (eq_iff id b).0 q)
  apart_by a b true false p q = apart_after a b (approvals b) (w.held b)
  apart_by a b false true p q = apart_before a b (approvals a) (w.held a)
  apart_by a b false false p q = w.single a b

  new_first : (s t : String) (o : Option ℕ) → IsEmpty made sent o → HaveOwn s t (some made) o
  new_first s t none h = tt
  new_first s t (some d) h = inr (omega (arith, h.0))

  new_second : (s t : String) (o : Option ℕ) → IsEmpty made sent o → HaveOwn s t o (some made)
  new_second s t none h = tt
  new_second s t (some d) h = inr (omega (arith, h.0))

  own_by :
      (s t : String) (x y : Bool)
      → (sid == s) ≡ x
      → (sid == t) ≡ y
      → HaveOwn s t (if x then some made else pending s) (if y then some made else pending t)
  own_by s t true true p q = inl (sym ((eq_iff sid s).0 p) ∙ (eq_iff sid t).0 q)
  own_by s t true false p q = new_first s t (pending t) (w.empty t)
  own_by s t false true p q = new_second s t (pending s) (w.empty s)
  own_by s t false false p q = w.own s t

  later_unsent : (c : ℕ) → (c < made) ⊎ (sent c ≡ none) → (c < made + 1) ⊎ (sent c ≡ none)
  later_unsent c (inl l) = inl (omega arith)
  later_unsent c (inr e) = inr e

  new_unsent : (made < made) ⊎ (sent made ≡ none) → sent made ≡ none
  new_unsent (inl l) = absurd (omega arith)
  new_unsent (inr e) = e

  later-IsEmpty : (o : Option ℕ) → IsEmpty made sent o → IsEmpty (made + 1) sent o
  later-IsEmpty none h = tt
  later-IsEmpty (some c) h = (omega (arith, h.0), h.1)

  IsEmpty-by :
      (t : String) (x : Bool) → IsEmpty (made + 1) sent (if x then some made else pending t)
  IsEmpty-by t true = (omega arith, new_unsent (w.unsent made))
  IsEmpty-by t false = later-IsEmpty (pending t) (w.empty t)

  pub ask-AreWaitingOn :
      AreWaitingOn (set approvals id (some req)) (set pending sid (some made)) (made + 1) sent
  ask-AreWaitingOn = record {
    held = λ j. IsHeld-by j (id == j) refl;
    empty = λ t. IsEmpty-by t (sid == t);
    single = λ a b. apart_by a b (id == a) (id == b) refl refl;
    own = λ s t. own_by s t (sid == s) (sid == t) refl refl;
    unsent = λ c. later_unsent c (w.unsent c);
  }
