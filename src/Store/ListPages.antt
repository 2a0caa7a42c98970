-- ===== src/Store/ListPages.antt =====
-- The pages of `ListJobsPage`, one after the other, are the whole list.
use grok_mcp.Prelude.{
  ℕ, ◌<◌, String, Bool, true, false, ◌&&◌, List, [], ◌∷◌, ◌++◌, map, Option, none, some, ◌≡◌, ◌≢◌,
  refl, ap, ◌∙◌, sym, arith, subst, fun_ext, All, ◌==◌, String_eq, eq_false, if◌then◌else◌, keep,
  append_assoc, append-nil, Bool-cases, inl, inr, ◌⊎◌,
}
use grok_mcp.Protocol.Group.{
  JobCursor, CursorText, encode_job_cursor, decode_job_cursor, clamp_job_limit, zero_cursor,
}
use grok_mcp.Store.Tables.{Store, Record, JobRow, scan_job}
use grok_mcp.Store.Listing.{
  ListQuery, Patterns, JobPage, key_at, key_past, is_past, ordered, is_listed, page_of_rows,
  list_jobs_page,
}
use grok_mcp.Store.Order.{key_transitive, cursor_at-scan_job}
use grok_mcp.Store.Sorted.{AreDistinct, All_at, All-ordered, All-keep, All-kept}
use grok_mcp.Store.ListCuts.{records_of, map-append, cut_rest, page_shape}

-- The cursor's text is read back, with nothing to trim, and is not empty.
pub record ReadsBack (text : CursorText) (k : JobCursor) : Type 0 where
  pub trimmed : text.trim (text.print k) ≡ text.print k
  pub filled : text.print k ≢ ""
  pub same : text.read (text.print k) ≡ some k

clamp_positive : (n : ℕ) → 0 < clamp_job_limit n
unfolding clamp_job_limit
clamp_positive n = ground arith

module _ (text : CursorText) (patterns : Patterns) where
  abbrev or_zero : Option JobCursor → JobCursor
  or_zero none = zero_cursor
  or_zero (some k) = k

  -- The rows that a query asks for, its cursor included.
  unfoldable pub asks_for : ListQuery → JobRow → Bool
  asks_for q = if text.trim q.cursor == "" then is_listed text patterns q else λ row.
      is_listed text patterns q row && is_past (or_zero (decode_job_cursor text q.cursor)) row

  -- The records of a query from its cursor on, with no limit.
  abbrev pub listing : ListQuery → Store → List Record
  listing q s = records_of s (asks_for q)

  settled :
      (readable start : Bool) (o : Option JobCursor) (first : JobPage) (past : JobCursor → JobPage)
      (page : JobPage)
      → (if readable
          then if start then some first else (elim o [ none ↦ none | some k ↦ some (past k) ])
          else none)
        ≡ some page
      → page ≡ (if start then first else past (or_zero o))
  settled false start o first past page h = absurd (cc h)
  settled true true o first past page h = cc h
  settled true false none first past page h = absurd (cc h)
  settled true false (some k) first past page h = cc h

  page_as :
      (q : ListQuery) (s : Store) (page : JobPage)
      → list_jobs_page text patterns q s ≡ some page
      → page ≡ page_of_rows text (clamp_job_limit q.limit) (asks_for q) s
  unfolding list_jobs_page asks_for
  page_as q s page h =
      settled s.readable (text.trim q.cursor == "") (decode_job_cursor text q.cursor)
        (page_of_rows text (clamp_job_limit q.limit) (is_listed text patterns q) s)
        (λ k.
          page_of_rows text (clamp_job_limit q.limit)
            (λ row. is_listed text patterns q row && is_past k row) s)
        page h
      ∙ inside (text.trim q.cursor == "") (is_listed text patterns q) (λ row.
        is_listed text patterns q row && is_past (or_zero (decode_job_cursor text q.cursor)) row)
    where
      inside :
          (b : Bool) (v w : JobRow → Bool)
          → (if b
              then page_of_rows text (clamp_job_limit q.limit) v s
              else page_of_rows text (clamp_job_limit q.limit) w s)
            ≡ page_of_rows text (clamp_job_limit q.limit) (if b then v else w) s
      inside true v w = refl
      inside false v w = refl

  decode_back :
      (c : String) (k : JobCursor)
      → text.trim c ≡ c
      → c ≢ ""
      → text.read c ≡ some k
      → decode_job_cursor text c ≡ some k
  unfolding decode_job_cursor
  decode_back c k t n r = rw t (rw (eq_false c "" n) r)

  is_listed_anywhere :
      (q : ListQuery) (c : String)
      → is_listed text patterns (record q { cursor = c }) ≡ is_listed text patterns q
  unfolding is_listed
  is_listed_anywhere q c = refl

  -- A query that goes on at a cursor asks for the rows past it.
  asks_for-next :
      (q : ListQuery) (c : String) (k : JobCursor)
      → text.trim c ≡ c
      → c ≢ ""
      → text.read c ≡ some k
      → asks_for (record q { cursor = c }) ≡ (λ row. is_listed text patterns q row && is_past k row)
  unfolding asks_for
  asks_for-next q c k t n r =
      rw (t, asks_for)
        (rw (eq_false c "" n) (rw (decode_back c k t n r, is_listed_anywhere q c) refl))

  -- The rows past the last one of a query's page are past the query's own cursor too.
  past_both :
      (q : ListQuery) (k : JobCursor)
      → ((text.trim q.cursor == "") ≡ true)
        ⊎ (key_past (or_zero (decode_job_cursor text q.cursor)) k ≡ true)
      → ◌≡◌ {A = JobRow → Bool}
          (λ row. asks_for q row && is_past k row)
          (λ row. is_listed text patterns q row && is_past k row)
  unfolding asks_for
  past_both q k (inl start) = rw (start, asks_for) refl
  past_both q k (inr within) = elim (Bool-cases (text.trim q.cursor == "")) [
    | inl start ↦ rw (start, asks_for) refl
    | inr later ↦
        rw (later, asks_for)
          (fun_ext λ row.
            both (is_listed text patterns q row)
              (is_past (or_zero (decode_job_cursor text q.cursor)) row) (is_past k row)
              (λ past.
                key_transitive (or_zero (decode_job_cursor text q.cursor)) k (key_at row) within
                  past))
  ]
    where
      both : (a b c : Bool) → (c ≡ true → b ≡ true) → ((a && b) && c) ≡ (a && c)
      both a true c h = ground arith
      both a false false h = ground arith
      both a false true h = absurd (cc (h refl))

  -- The last row of what a query asks for is past the query's cursor.
  last_past :
      (q : ListQuery) (s : Store) (pre post : List JobRow) (r : JobRow)
      → ordered (keep (asks_for q) s.jobs) ≡ pre ++ (r ∷ post)
      → ((text.trim q.cursor == "") ≡ true)
        ⊎ (key_past (or_zero (decode_job_cursor text q.cursor)) (key_at r) ≡ true)
  unfolding asks_for
  last_past q s pre post r e = elim (Bool-cases (text.trim q.cursor == "")) [
    | inl start ↦ inl start
    | inr later ↦ inr (
        (and_true (is_listed text patterns q r)
          (is_past (or_zero (decode_job_cursor text q.cursor)) r) (rw (later, asks_for) at asked)))
  ]
    where
      asked : asks_for q r ≡ true
      asked =
          All_at (λ x. asks_for q x ≡ true) pre r post
            (subst (All (λ x. asks_for q x ≡ true)) e (
              All-ordered (λ x. asks_for q x ≡ true) (keep (asks_for q) s.jobs)
                (All-kept (asks_for q) s.jobs)))

      and_true : (a b : Bool) → (a && b) ≡ true → b ≡ true
      and_true a b h = ground arith

  -- What is left after a page that is cut off at the row `r`.
  left_after :
      (q : ListQuery) (s : Store) (pre post : List JobRow) (r : JobRow) (c : String)
      → AreDistinct s.jobs
      → ordered (keep (asks_for q) s.jobs) ≡ pre ++ (r ∷ post)
      → c ≡ encode_job_cursor text (scan_job s r).job
      → ReadsBack text (key_at r)
      → listing (record q { cursor = c }) s ≡ map (scan_job s) post
  unfolding encode_job_cursor
  left_after q s pre post r c distinct e printed back =
      ap (records_of s) (
        asks_for-next q c (key_at r) (subst (λ d. text.trim d ≡ d) (sym here) back.trimmed)
          (subst (λ d. d ≢ "") (sym here) back.filled) (ap text.read here ∙ back.same)
        ∙ sym (past_both q (key_at r) (last_past q s pre post r e)))
      ∙ ap (map (scan_job s)) (cut_rest text s (asks_for q) distinct pre post r e)
    where
      here : c ≡ text.print (key_at r)
      here = printed ∙ ap text.print (cursor_at-scan_job s r)

  -- A page of `ListJobsPage`, followed by what the query asks for at the page's cursor, if the page
  -- says that there is more, is what the query asks for at its own cursor, in the order of the list:
  -- no job is left out or given twice from page to page. The jobs have different names, and the
  -- texts of their cursors are read back.
  pub list_jobs_page-listing :
      (q : ListQuery) (s : Store) (page : JobPage)
      → AreDistinct s.jobs
      → All (λ row. ReadsBack text (key_at row)) s.jobs
      → list_jobs_page text patterns q s ≡ some page
      → listing q s
        ≡ page.records
          ++ (if page.has_more then listing (record q { cursor = page.next_cursor }) s else [])
  list_jobs_page-listing q s page distinct back h =
      subst Follows (sym (page_as q s page h))
        (elim (page_shape text s (asks_for q) distinct (clamp_job_limit q.limit)
          (clamp_positive q.limit)) [
            | inl (last, e) ↦ rw last (e ∙ sym (append-nil made.records))
            | inr (more, (pre, r, post, e, shown, printed)) ↦ rw more (
                ap (map (scan_job s)) (e ∙ sym (append_assoc pre (r ∷ []) post))
                ∙ map-append (scan_job s) (pre ++ (r ∷ [])) post
                ∙ ap (λ recs. map (scan_job s) (pre ++ (r ∷ [])) ++ recs)
                    (sym (
                      left_after q s pre post r made.next_cursor distinct e printed
                        (read_back pre post r e)))
                ∙ ap (λ recs. recs ++ listing (record q { cursor = made.next_cursor }) s)
                    (sym shown))
          ])
    where
      made : JobPage
      made = page_of_rows text (clamp_job_limit q.limit) (asks_for q) s

      Follows : JobPage → Type 0
      Follows p =
          listing q s
          ≡ p.records
            ++ (if p.has_more then listing (record q { cursor = p.next_cursor }) s else [])

      read_back :
          (pre post : List JobRow) (r : JobRow)
          → ordered (keep (asks_for q) s.jobs) ≡ pre ++ (r ∷ post)
          → ReadsBack text (key_at r)
      read_back pre post r e =
          All_at (λ x. ReadsBack text (key_at x)) pre r post
            (subst (All (λ x. ReadsBack text (key_at x))) e (
              All-ordered (λ x. ReadsBack text (key_at x)) (keep (asks_for q) s.jobs)
                (All-keep (λ x. ReadsBack text (key_at x)) (asks_for q) s.jobs back)))
