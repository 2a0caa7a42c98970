-- ===== src/Store/ListCuts.antt =====
-- A page of `ListJobsPage` cuts the ordered rows at its last one.
use grok_mcp.Prelude.{
  ℕ, zero, suc, ◌+◌, ◌≤◌, ◌<◌, Bool, true, false, ◌&&◌, List, [], ◌∷◌, ◌++◌, map, ◌≡◌, refl, ap,
  ◌∙◌, sym, arith, subst, String_eq, ltb, keep, length, take, drop, length-take, Bool-cases, inl,
  inr, ◌⊎◌,
}
use Prim.Native.Nat.{min}
use grok_mcp.Protocol.Group.{CursorText, encode_job_cursor}
use grok_mcp.Store.Tables.{Store, Record, JobRow, scan_job}
use grok_mcp.Store.Listing.{key_at, is_past, ordered, last_job, next_of, page_of_rows}
use grok_mcp.Store.Sorted.{
  AreDistinct, IsSorted, keep-AreDistinct, ordered-IsSorted, keep-ordered, keep_past, cut_at,
}

-- The rows that are wanted, all at once, and as records.
abbrev pub records_of : Store → (JobRow → Bool) → List Record
records_of s wanted = map (scan_job s) (ordered (keep wanted s.jobs))

keep_and :
    (p q : JobRow → Bool) (rows : List JobRow) → keep q (keep p rows) ≡ keep (λ x. p x && q x) rows
keep_and p q [] = refl
keep_and p q (r ∷ rows) = ground (arith, keep_and p q rows)

last_job-map :
    (s : Store) (pre : List JobRow) (r x : JobRow)
    → last_job (scan_job s x) (map (scan_job s) (pre ++ (r ∷ []))) ≡ (scan_job s r).job
last_job-map s [] r x = refl
last_job-map s (y ∷ pre) r x = last_job-map s pre r y

next_of-map :
    (text : CursorText) (s : Store) (pre : List JobRow) (r : JobRow)
    → next_of text true (map (scan_job s) (pre ++ (r ∷ [])))
      ≡ encode_job_cursor text (scan_job s r).job
next_of-map text s [] r = refl
next_of-map text s (x ∷ pre) r = ap (encode_job_cursor text) (last_job-map s pre r x)

pub map-append :
    {A B : Type 0} (f : A → B) (xs ys : List A) → map f (xs ++ ys) ≡ map f xs ++ map f ys
map-append f [] ys = refl
map-append f (x ∷ xs) ys = ap (λ zs. f x ∷ zs) (map-append f xs ys)

take-map-take :
    {A B : Type 0} (f : A → B) (n : ℕ) (xs : List A)
    → take n (map f (take (n + 1) xs)) ≡ map f (take n xs)
take-map-take f zero xs = refl
take-map-take f (suc n) [] = nothing (suc n + 1)
  where
    nothing : (k : ℕ) → take (suc n) (map f (take k [])) ≡ []
    nothing zero = refl
    nothing (suc k) = refl
take-map-take f (suc n) (x ∷ xs) =
    ap (λ k. take (suc n) (map f (take k (x ∷ xs)))) (inner n)
    ∙ ap (λ ys. f x ∷ ys) (take-map-take f n xs)
  where
    inner : (m : ℕ) → suc m + 1 ≡ suc (m + 1)
    inner m = omega arith

length-map : {A B : Type 0} (f : A → B) (xs : List A) → length (map f xs) ≡ length xs
length-map f [] = refl
length-map f (x ∷ xs) = ap suc (length-map f xs)

take_all : {A : Type 0} (n : ℕ) (xs : List A) → length xs ≤ n → take n xs ≡ xs
take_all zero [] h = refl
take_all (suc n) [] h = refl
take_all zero (x ∷ xs) h = absurd (omega arith)
take_all (suc n) (x ∷ xs) h = ap (λ ys. x ∷ ys) (take_all n xs (omega arith))

module _ (text : CursorText) (s : Store) (wanted : JobRow → Bool)
    (distinct : AreDistinct s.jobs) where
  -- The rows past a row of the list, at which it is cut.
  pub cut_rest :
      (pre post : List JobRow) (r : JobRow)
      → ordered (keep wanted s.jobs) ≡ pre ++ (r ∷ post)
      → ordered (keep (λ row. wanted row && is_past (key_at r) row) s.jobs) ≡ post
  cut_rest pre post r e =
      ap ordered (sym (keep_and wanted (is_past (key_at r)) s.jobs))
      ∙ sym (keep-ordered (is_past (key_at r)) (keep wanted s.jobs) some_distinct)
      ∙ ap (keep (is_past (key_at r))) e
      ∙ keep_past pre r post
          (subst IsSorted e (ordered-IsSorted (keep wanted s.jobs) some_distinct))
    where
      some_distinct : AreDistinct (keep wanted s.jobs)
      some_distinct = keep-AreDistinct wanted s.jobs distinct

  -- What a page is: all wanted rows, or those up to a row, whose cursor it gives.
  pub page_shape :
      (limit : ℕ)
      → 0 < limit
      → (((page_of_rows text limit wanted s).has_more ≡ false)
          × (records_of s wanted ≡ (page_of_rows text limit wanted s).records))
        ⊎ (((page_of_rows text limit wanted s).has_more ≡ true)
            × ((pre : List JobRow) × (r : JobRow) × (post : List JobRow) × (ordered
                    (keep wanted s.jobs)
                  ≡ pre ++ (r ∷ post))
                × ((page_of_rows text limit wanted s).records ≡ map (scan_job s) (pre ++ (r ∷ [])))
                × ((page_of_rows text limit wanted s).next_cursor
                    ≡ encode_job_cursor text (scan_job s r).job)))
  unfolding page_of_rows
  page_shape zero pos = absurd (omega arith)
  page_shape (suc n) pos = elim (Bool-cases (ltb (suc n) (length rows))) [
    | inl more ↦
        let (pre, r, e, f) = cut_at n all_rows (ground (arith, size)) in
        let shown = take-map-take (scan_job s) (suc n) all_rows ∙ ap (map (scan_job s)) f in
        inr (
          more,
          (
            pre,
            r,
            drop (suc n) all_rows,
            e,
            rw (more, page_of_rows) shown,
            rw (more, page_of_rows) (ap (next_of text true) shown ∙ next_of-map text s pre r),
          ),
        )
    | inr whole ↦ inl (
      whole,
      rw (whole, page_of_rows)
          (sym (ap (map (scan_job s)) (take_all (suc n + 1) all_rows (ground (arith, size))))),
    )
  ]
    where
      all_rows : List JobRow
      all_rows = ordered (keep wanted s.jobs)

      rows : List Record
      rows = map (scan_job s) (take (suc n + 1) all_rows)

      size : length rows ≡ min (suc n + 1) (length all_rows)
      size = length-map (scan_job s) (take (suc n + 1) all_rows) ∙ length-take (suc n + 1) all_rows
