-- ===== src/Store/Sorted.antt =====
-- Rows in the order of `ListJobsPage`: filtering keeps them in order, and what is past a row is what
-- stands after it.
use grok_mcp.Prelude.{
  ℕ, zero, suc, ◌<◌, Bool, true, false, List, [], ◌∷◌, ◌++◌, ◌≡◌, ◌≢◌, refl, ap, ◌∙◌, sym, arith,
  if◌then◌else◌, keep, length, take, drop, All, Bool-cases, inl, inr, ◌⊎◌,
}
use grok_mcp.Store.Tables.{JobRow}
use grok_mcp.Store.Listing.{key_at, key_past, is_past, is_ahead, place, ordered}
use grok_mcp.Store.Order.{key_irreflexive, key_transitive, key_total, is_ahead_lem}

-- Each row has all later ones past it.
abbrev pub IsSorted : List JobRow → Type 0
IsSorted [] = Unit {0}
IsSorted (r ∷ rows) = All (λ x. is_past (key_at r) x ≡ true) rows × IsSorted rows

-- The jobs of the rows have different names.
abbrev pub AreDistinct : List JobRow → Type 0
AreDistinct [] = Unit {0}
AreDistinct (r ∷ rows) = All (λ x. r.lifecycle.job_id ≢ x.lifecycle.job_id) rows × AreDistinct rows

module _ (P : JobRow → Type 0) where
  All-place : (row : JobRow) (rows : List JobRow) → P row → All P rows → All P (place row rows)
  unfolding place
  All-place row [] p a = (p, tt)
  All-place row (r ∷ rows) p a = elim (Bool-cases (is_ahead r row)) [
    | inl y ↦ rw (y, place) (a.0, All-place row rows p a.1)
    | inr n ↦ rw (n, place) (p, (a.0, a.1))
  ]

  pub All-ordered : (rows : List JobRow) → All P rows → All P (ordered rows)
  unfolding ordered
  All-ordered [] a = tt
  All-ordered (r ∷ rows) a = All-place r (ordered rows) a.0 (All-ordered rows a.1)

  pub All-keep : (p : JobRow → Bool) (rows : List JobRow) → All P rows → All P (keep p rows)
  All-keep p [] a = tt
  All-keep p (r ∷ rows) a = elim (Bool-cases (p r)) [
    | inl y ↦ rw y (a.0, All-keep p rows a.1)
    | inr n ↦ rw n (All-keep p rows a.1)
  ]

pub keep-AreDistinct :
    (p : JobRow → Bool) (rows : List JobRow) → AreDistinct rows → AreDistinct (keep p rows)
keep-AreDistinct p [] d = tt
keep-AreDistinct p (r ∷ rows) d = elim (Bool-cases (p r)) [
  | inl y ↦ rw y (
    All-keep (λ x. r.lifecycle.job_id ≢ x.lifecycle.job_id) p rows d.0,
    keep-AreDistinct p rows d.1,
  )
  | inr n ↦ rw n (keep-AreDistinct p rows d.1)
]

past-All :
    (row r : JobRow) (rows : List JobRow)
    → is_past (key_at row) r ≡ true
    → All (λ x. is_past (key_at r) x ≡ true) rows
    → All (λ x. is_past (key_at row) x ≡ true) rows
past-All row r [] h a = tt
past-All row r (x ∷ rows) h a =
    (key_transitive (key_at row) (key_at r) (key_at x) h a.0, past-All row r rows h a.1)

place-IsSorted :
    (row : JobRow) (rows : List JobRow)
    → All (λ x. row.lifecycle.job_id ≢ x.lifecycle.job_id) rows
    → IsSorted rows
    → IsSorted (place row rows)
unfolding place
place-IsSorted row [] d a = (tt, tt)
place-IsSorted row (r ∷ rows) d a = elim (Bool-cases (is_ahead r row)) [
  | inl y ↦
      rw (y, place)
        (
          All-place (λ x. is_past (key_at r) x ≡ true) row rows (sym (is_ahead_lem r row) ∙ y) a.0,
          place-IsSorted row rows d.1 a.1,
        )
  | inr n ↦
      rw (n, place)
        (
          (
            first n (key_total (key_at row) (key_at r) d.0),
            past-All row r rows (first n (key_total (key_at row) (key_at r) d.0)) a.0,
          ),
          a,
        )
]
  where
    first :
        is_ahead r row ≡ false
        → (key_past (key_at row) (key_at r) ≡ true) ⊎ (key_past (key_at r) (key_at row) ≡ true)
        → is_past (key_at row) r ≡ true
    first n (inl y) = y
    first n (inr y) = absurd (cc (n, y, is_ahead_lem r row))

pub ordered-IsSorted : (rows : List JobRow) → AreDistinct rows → IsSorted (ordered rows)
unfolding ordered
ordered-IsSorted [] d = tt
ordered-IsSorted (r ∷ rows) d =
    place-IsSorted r (ordered rows)
      (All-ordered (λ x. r.lifecycle.job_id ≢ x.lifecycle.job_id) rows d.0)
      (ordered-IsSorted rows d.1)

-- A row that none of the rows is ahead of comes first.
place_first :
    (row : JobRow) (rows : List JobRow)
    → All (λ x. is_ahead x row ≡ false) rows
    → place row rows ≡ row ∷ rows
unfolding place
place_first row [] a = refl
place_first row (r ∷ rows) a = rw (a.0, place) refl

not_ahead :
    (row r : JobRow) (rows : List JobRow)
    → is_ahead r row ≡ false
    → All (λ x. is_past (key_at r) x ≡ true) rows
    → All (λ x. is_ahead x row ≡ false) rows
not_ahead row r [] n a = tt
not_ahead row r (x ∷ rows) n a = (behind (Bool-cases (is_ahead x row)), not_ahead row r rows n a.1)
  where
    behind : (is_ahead x row ≡ true) ⊎ (is_ahead x row ≡ false) → is_ahead x row ≡ false
    behind (inr f) = f
    behind (inl t) = absurd (
        cc (
          n,
          is_ahead_lem r row,
          key_transitive (key_at r) (key_at x) (key_at row) a.0 (sym (is_ahead_lem x row) ∙ t),
        ))

keep-place :
    (p : JobRow → Bool) (row : JobRow) (rows : List JobRow)
    → IsSorted rows
    → keep p (place row rows) ≡ (if p row then place row (keep p rows) else keep p rows)
unfolding place
keep-place p row [] a = refl
keep-place p row (r ∷ rows) a = elim (Bool-cases (is_ahead r row)) [
  | inl y ↦ ground (arith, y, keep-place p row rows a.1)
  | inr n ↦ ground (
    arith,
    n,
    place_first row (keep p rows)
        (All-keep (λ x. is_ahead x row ≡ false) p rows (not_ahead row r rows n a.0)),
  )
]

-- Filtering ordered rows orders the filtered rows.
pub keep-ordered :
    (p : JobRow → Bool) (rows : List JobRow)
    → AreDistinct rows
    → keep p (ordered rows) ≡ ordered (keep p rows)
unfolding ordered
keep-ordered p [] d = refl
keep-ordered p (r ∷ rows) d =
    keep-place p r (ordered rows) (ordered-IsSorted rows d.1)
    ∙ ground (arith, keep-ordered p rows d.1)

keep-All :
    (p : JobRow → Bool) (rows : List JobRow) → All (λ x. p x ≡ true) rows → keep p rows ≡ rows
keep-All p [] a = refl
keep-All p (r ∷ rows) a = rw (a.0) (ap (λ xs. r ∷ xs) (keep-All p rows a.1))

pub All_at :
    (P : JobRow → Type 0) (pre : List JobRow) (r : JobRow) (post : List JobRow)
    → All P (pre ++ (r ∷ post))
    → P r
All_at P [] r post a = a.0
All_at P (x ∷ pre) r post a = All_at P pre r post a.1

-- What is past a row of sorted rows is what stands after it.
pub keep_past :
    (pre : List JobRow) (r : JobRow) (post : List JobRow)
    → IsSorted (pre ++ (r ∷ post))
    → keep (is_past (key_at r)) (pre ++ (r ∷ post)) ≡ post
keep_past [] r post a = rw (key_irreflexive (key_at r)) (keep-All (is_past (key_at r)) post a.0)
keep_past (x ∷ pre) r post a = rw behind (keep_past pre r post a.1)
  where
    ahead : is_past (key_at x) r ≡ true
    ahead = All_at (λ y. is_past (key_at x) y ≡ true) pre r post a.0

    behind : is_past (key_at r) x ≡ false
    behind = elim (Bool-cases (is_past (key_at r) x)) [
      | inl t ↦
          absurd (
            cc
              (key_transitive (key_at r) (key_at x) (key_at r) t ahead, key_irreflexive (key_at r)))
      | inr f ↦ f
    ]

-- A cut of rows, with the last row before it.
pub cut_at :
    (n : ℕ) (rows : List JobRow)
    → n < length rows
    → (pre : List JobRow) × (r : JobRow) × (rows ≡ pre ++ (r ∷ drop (suc n) rows))
      × (take (suc n) rows ≡ pre ++ (r ∷ []))
cut_at n [] h = absurd (omega arith)
cut_at zero (r ∷ rows) h = ([], r, refl, refl)
cut_at (suc n) (x ∷ rows) h =
    let (pre, r, e, f) = cut_at n rows (omega arith) in
    (x ∷ pre, r, ap (λ xs. x ∷ xs) e, ap (λ xs. x ∷ xs) f)

-- What the filter keeps passes it.
pub All-kept : (p : JobRow → Bool) (rows : List JobRow) → All (λ x. p x ≡ true) (keep p rows)
All-kept p [] = tt
All-kept p (r ∷ rows) = elim (Bool-cases (p r)) [
  | inl y ↦ rw y (y, All-kept p rows)
  | inr n ↦ rw n (All-kept p rows)
]
