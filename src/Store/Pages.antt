-- ===== src/Store/Pages.antt =====
-- The pages of a result tile its text.
use grok_mcp.Prelude.{
  ℕ, zero, suc, ◌+◌, ◌-◌, ◌≤◌, ◌<◌, String, Bool, true, false, not, List, [], ◌∷◌, ◌++◌, Option,
  none, some, ◌≡◌, refl, ap, ◌↔◌, ◌⊎◌, ◌||◌, ◌==◌, String_eq, if◌then◌else◌, arith, take, drop,
  length, find, length-take, length-drop, Bool-cases, inl, inr, ltb,
}
use Prim.Native.Nat.{min}
use grok_mcp.Store.Tables.{Store, TurnResult}
use grok_mcp.Store.Paging.{
  ResultQuery, ResultPage, result_limit, max_result_limit, is_result, page_of, result,
}

take-nil {ℓ} : {A : Type ℓ} (n : ℕ) → take {A = A} n [] ≡ []
take-nil zero = refl
take-nil (suc n) = refl

take-add {ℓ} :
    {A : Type ℓ} (a b : ℕ) (xs : List A) → take (a + b) xs ≡ take a xs ++ take b (drop a xs)
take-add zero b xs = ap (λ n. take n xs) (let e : 0 + b ≡ b = omega arith in e)
take-add (suc a) b [] = let e : suc a + b ≡ suc (a + b) = omega arith in rw e (rw (take-nil b))
take-add (suc a) b (x ∷ xs) =
    let e : suc a + b ≡ suc (a + b) = omega arith in ground (arith, e, take-add a b xs)

-- What a page says of the text that it is cut from.
pub record IsPage (q : ResultQuery) (runes : List ℕ) (p : ResultPage) : Type 0 where
  pub starts : p.offset ≡ q.offset
  pub ends : p.next_offset ≤ p.total
  pub measured : p.total ≡ length runes
  pub tiles : take p.next_offset runes ≡ take p.offset runes ++ p.text
  pub sized : length p.text ≤ result_limit q.limit
  pub more : (p.has_more ≡ true) ↔ (p.next_offset < p.total)
  pub progress : (p.has_more ≡ false) ⊎ (p.offset < p.next_offset)

page_of-IsPage :
    (t : TurnResult) (q : ResultQuery) (runes : List ℕ) (p : ResultPage)
    → page_of t q runes ≡ some p
    → IsPage q runes p
unfolding page_of
page_of-IsPage t q runes p h = elim (Bool-cases (ltb (length runes) q.offset)) [
  | inl past ↦ ground arith
  | inr within ↦ ground (
    arith,
    take-add q.offset (min (q.offset + result_limit q.limit) (length runes) - q.offset) runes,
    length-take (min (q.offset + result_limit q.limit) (length runes) - q.offset)
        (drop q.offset runes),
    length-drop q.offset runes,
  )
]

-- A page that `Result` returns is cut from the stored text of one of the job's turns, of the request
-- that was asked for: it continues where the pages before it end, it is no longer than the limit,
-- it says truly whether more text follows, and where more follows the next page is further on.
pub result-IsPage :
    (split : String → List ℕ) (id : String) (q : ResultQuery) (s : Store) (p : ResultPage)
    → result split id q s ≡ some p
    → (t : TurnResult) × (find (is_result id q) s.turn_results ≡ some t) × IsPage q (split t.body) p
unfolding result
result-IsPage split id q s p h =
    go (q.request_id == "" || ltb max_result_limit q.limit || not s.readable)
      (find (is_result id q) s.turn_results) h
  where
    go :
        (b : Bool) (o : Option TurnResult)
        → (if b then none else elim o as (λ _. Option ResultPage) [
          | none ↦ none
          | some t ↦ page_of t q (split t.body)
        ])
          ≡ some p
        → (t : TurnResult) × (o ≡ some t) × IsPage q (split t.body) p
    go true o k = absurd (cc)
    go false none k = absurd (cc)
    go false (some t) k = (t, refl, page_of-IsPage t q (split t.body) p k)
