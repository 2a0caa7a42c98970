-- ===== src/Prelude/Tests.antt =====
-- Boolean tests, one equality test for every type that has one, and the conditional.
use Prim.Native.Nat.{ℕ, compare, Ordering}
use Prim.Native.String.{String}
use mathlib.Core.Path.{◌≡◌, refl}
use mathlib.Core.Logic.{◌≢◌, ◌↔◌, ◌⊎◌, inl, inr}
use mathlib.Core.Bool.{Bool, true, false, ◌||◌, ◌&&◌}
use mathlib.Core.Option.{Option, none, some}
use native.Mathlib.Omega.{arith}
use text.Mathlib.Text.{◌==◌ as str_eq}
use text.Mathlib.TextEquality.{eq_iff}

abbrev pub ltb : ℕ → ℕ → Bool
ltb a b = elim (compare a b) [ Ordering.lt ↦ true | _ ↦ false ]

abbrev pub leb : ℕ → ℕ → Bool
leb a b = elim (compare a b) [ Ordering.gt ↦ false | _ ↦ true ]

abbrev pub nat_eq : ℕ → ℕ → Bool
nat_eq a b = elim (compare a b) [ Ordering.eq ↦ true | _ ↦ false ]

infix 1 if◌then◌else◌
abbrev pub if◌then◌else◌ {ℓ} : {A : Type ℓ} → Bool → A → A → A
if true then x else y = x
if false then x else y = y

pub nat_eq_iff : (a b : ℕ) → (nat_eq a b ≡ true) ↔ (a ≡ b)
nat_eq_iff a b = ground arith

-- Types that Go compares with `==`.
pub record Comparable {ℓ} (A : Type ℓ) : Type ℓ where
  pub equals : A → A → Bool
  pub equals_iff : (a b : A) → (equals a b ≡ true) ↔ (a ≡ b)

instance abbrev pub ℕ_eq : Comparable ℕ
ℕ_eq = record { equals = nat_eq; equals_iff = nat_eq_iff }

instance abbrev pub String_eq : Comparable String
String_eq = record { equals = str_eq; equals_iff = eq_iff }

infix 50 ◌==◌ ◌!=◌
abbrev pub ◌==◌ {ℓ} : {A : Type ℓ} ⦃e : Comparable A⦄ → A → A → Bool
◌==◌ ⦃e⦄ = e.equals

abbrev pub ◌!=◌ {ℓ} : {A : Type ℓ} ⦃e : Comparable A⦄ → A → A → Bool
◌!=◌ ⦃e⦄ a b = if e.equals a b then false else true

-- Equality on a type by a numbering of its values.
pub Eq_of_tag {ℓ} :
    {A : Type ℓ} (tag : A → ℕ)
    → ((a b : A) → tag a ≡ tag b → a ≡ b)
    → (a b : A) → (nat_eq (tag a) (tag b) ≡ true) ↔ (a ≡ b)
Eq_of_tag tag inj a b = (
  λ h. inj a b ((nat_eq_iff (tag a) (tag b)).0 h),
  λ e. rw e ((nat_eq_iff (tag b) (tag b)).1 refl),
)

-- To split on a computed value and keep the equation.
pub Bool-cases : (b : Bool) → (b ≡ true) ⊎ (b ≡ false)
Bool-cases true = inl refl
Bool-cases false = inr refl

pub Option-cases {ℓ} : {A : Type ℓ} (o : Option A) → (o ≡ none) ⊎ ((a : A) × (o ≡ some a))
Option-cases none = inl refl
Option-cases (some a) = inr (a, refl)

pub or_false : (a b : Bool) → (a || b) ≡ false → (a ≡ false) × (b ≡ false)
or_false a b h = ground arith

pub false_or : (a b : Bool) → a ≡ false → b ≡ false → (a || b) ≡ false
false_or a b p q = ground arith

pub and_false : (a b : Bool) → (a && b) ≡ false → (a ≡ false) ⊎ (b ≡ false)
and_false a b h = ground arith

-- What the tests say, for any type with an equality test.
module _ {ℓ} {A : Type ℓ} ⦃e : Comparable A⦄ where
  pub eq_of : (a b : A) → (a != b) ≡ false → a ≡ b
  eq_of a b h = elim (Bool-cases (e.equals a b)) [
    | inl t ↦ (e.equals_iff a b).0 t
    | inr f ↦ absurd (cc (rw f at h))
  ]

  pub ne_of : (a b : A) → (a == b) ≡ false → a ≢ b
  ne_of a b h p = absurd (cc (rw ((e.equals_iff a b).1 p) at h))

  pub eq_test : (a b : A) → a ≡ b → (a == b) ≡ true
  eq_test a b p = (e.equals_iff a b).1 p

  pub ne_false : (a b : A) → a ≡ b → (a != b) ≡ false
  ne_false a b p = rw ((e.equals_iff a b).1 p) refl

  pub eq_false : (a b : A) → a ≢ b → (a == b) ≡ false
  eq_false a b n = elim (Bool-cases (e.equals a b)) [
    | inl t ↦ absurd (n ((e.equals_iff a b).0 t))
    | inr f ↦ f
  ]

  pub ne_test : (a b : A) → a ≢ b → (a != b) ≡ true
  ne_test a b n = rw (eq_false a b n) refl
