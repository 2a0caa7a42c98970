-- ===== src/Trace/Sequences.antt =====
-- Lists of events that are numbered one after the other.
use grok_mcp.Prelude.{
  ℕ, zero, suc, ◌+◌, ◌-◌, ◌≤◌, ◌<◌, List, [], ◌∷◌, ◌++◌, ◌≡◌, refl, ap, ◌∙◌, sym, subst, arith,
  length, drop,
}
use grok_mcp.Trace.State.{Event}
use grok_mcp.Trace.Read.{after}

-- The events have the numbers k, k + 1, and so on.
abbrev pub Consecutive : ℕ → List Event → Type 0
Consecutive k [] = Unit {0}
Consecutive k (e ∷ evs) = (e.seq ≡ k) × Consecutive (k + 1) evs

pub Consecutive-snoc :
    (k : ℕ) (evs : List Event) (e : Event)
    → Consecutive k evs
    → e.seq ≡ k + length evs
    → Consecutive k (evs ++ (e ∷ []))
Consecutive-snoc k [] e c h = (omega arith, tt)
Consecutive-snoc k (f ∷ evs) e c h = (c.0, Consecutive-snoc (k + 1) evs e c.1 (omega arith))

pub Consecutive-drop :
    (d k : ℕ) (evs : List Event) → Consecutive k evs → Consecutive (k + d) (drop d evs)
Consecutive-drop zero k evs c = subst (λ m. Consecutive m evs) (omega arith) c
Consecutive-drop (suc d) k [] c = tt
Consecutive-drop (suc d) k (e ∷ evs) c =
    subst (λ m. Consecutive m (drop d evs)) (omega arith) (Consecutive-drop d (k + 1) evs c.1)

pub Consecutive-at : {k m : ℕ} (evs : List Event) → k ≡ m → Consecutive k evs → Consecutive m evs
Consecutive-at evs e c = subst (λ n. Consecutive n evs) e c

-- A cursor below the first number leaves all events.
pub after_all : (c k : ℕ) (evs : List Event) → c < k → Consecutive k evs → after c evs ≡ evs
after_all c k [] h v = refl
after_all c k (e ∷ evs) h v = ground (arith, after_all c (k + 1) evs (omega arith) v.1)

pub drop-nil {ℓ} : {A : Type ℓ} (n : ℕ) → drop {A = A} n [] ≡ []
drop-nil zero = refl
drop-nil (suc n) = refl

-- The events after a number are those left when the events up to it are dropped.
pub after-drop :
    (n k : ℕ) (evs : List Event) → Consecutive (k + 1) evs → after (k + n) evs ≡ drop n evs
after-drop zero k evs v = after_all (k + 0) (k + 1) evs (omega arith) v
after-drop (suc n) k [] v = refl
after-drop (suc n) k (e ∷ evs) v =
    ground (arith, v.0, after-drop n (k + 1) evs v.1, ap (λ m. after m evs) (shift k n))
  where
    shift : (i j : ℕ) → i + suc j ≡ i + 1 + j
    shift i j = omega arith

pub after_start : (n : ℕ) (evs : List Event) → Consecutive 1 evs → after n evs ≡ drop n evs
after_start n evs v = ap (λ m. after m evs) (from_zero n) ∙ after-drop n 0 evs v
  where
    from_zero : (m : ℕ) → m ≡ 0 + m
    from_zero m = omega arith

pub drop-drop {ℓ} : {A : Type ℓ} (a b : ℕ) (xs : List A) → drop a (drop b xs) ≡ drop (b + a) xs
drop-drop a zero xs = ap (λ n. drop n xs) (omega arith)
drop-drop a (suc b) [] = drop-nil a ∙ sym (drop-nil (suc b + a))
drop-drop a (suc b) (x ∷ xs) = drop-drop a b xs ∙ ap (λ n. drop n (x ∷ xs)) (shift b a)
  where
    shift : (i j : ℕ) → suc (i + j) ≡ suc i + j
    shift i j = omega arith

pub drop-snoc {ℓ} :
    {A : Type ℓ} (d : ℕ) (xs : List A) (x : A)
    → d ≤ length xs
    → drop d (xs ++ (x ∷ [])) ≡ drop d xs ++ (x ∷ [])
drop-snoc zero xs x h = refl
drop-snoc (suc d) [] x h = absurd (omega arith)
drop-snoc (suc d) (y ∷ xs) x h = drop-snoc d xs x (omega arith)

pub drop_all {ℓ} : {A : Type ℓ} (d : ℕ) (xs : List A) → length xs ≤ d → drop d xs ≡ []
drop_all zero [] h = refl
drop_all (suc d) [] h = refl
drop_all zero (x ∷ xs) h = absurd (omega arith)
drop_all (suc d) (x ∷ xs) h = drop_all d xs (omega arith)

-- A cut of the events at `d`, read after a later number.
pub after_cut :
    (d c : ℕ) (evs : List Event) → d ≤ c → Consecutive 1 evs → after c (drop d evs) ≡ drop c evs
after_cut d c evs h v =
    ap (λ m. after m (drop d evs)) (sym sum)
    ∙ after-drop (c - d) d (drop d evs)
        (Consecutive-at (drop d evs) (omega arith) (Consecutive-drop d 1 evs v))
    ∙ drop-drop (c - d) d evs
    ∙ ap (λ m. drop m evs) sum
  where
    sum : d + (c - d) ≡ c
    sum = omega arith
