-- ===== src/Store/Order.antt =====
-- The order of the rows of `ListJobsPage`: a strict order of their columns.
use grok_mcp.Prelude.{
  ℕ, ◌/◌, String, true, false, List, [], ◌∷◌, ◌≡◌, ◌≢◌, refl, ap, ◌∙◌, sym, arith, ℕ_eq, codes, ◌⊎◌,
  inl, inr,
}
use mathlib.Core.Path.{ap₂}
use text.Mathlib.TextEquality.{Char-path}
use grok_mcp.Protocol.Job.{Job, second}
use grok_mcp.Protocol.Group.{active_group, compare_codes, compare_jobs, JobCursor, cursor_at}
use grok_mcp.Store.Tables.{Store, JobRow, whole_seconds, scan_job}
use grok_mcp.Store.Listing.{key_at, is_less, key_past, is_past, is_ahead}

codes_irreflexive : (cs : List ℕ) → is_less (compare_codes cs cs) ≡ false
codes_irreflexive [] = refl
codes_irreflexive (c ∷ cs) = ground (arith, codes_irreflexive cs)

codes_transitive :
    (a b c : List ℕ)
    → is_less (compare_codes a b) ≡ true
    → is_less (compare_codes b c) ≡ true
    → is_less (compare_codes a c) ≡ true
codes_transitive [] [] c p q = q
codes_transitive [] (y ∷ b) [] p q = q
codes_transitive [] (y ∷ b) (z ∷ c) p q = refl
codes_transitive (x ∷ a) [] c p q = absurd (cc p)
codes_transitive (x ∷ a) (y ∷ b) [] p q = absurd (cc q)
codes_transitive (x ∷ a) (y ∷ b) (z ∷ c) p q = ground (arith, codes_transitive a b c)

codes_total :
    (a b : List ℕ)
    → (is_less (compare_codes a b) ≡ true) ⊎ ((is_less (compare_codes b a) ≡ true) ⊎ (a ≡ b))
codes_total [] [] = inr (inr refl)
codes_total [] (y ∷ b) = inl refl
codes_total (x ∷ a) [] = inr (inl refl)
codes_total (x ∷ a) (y ∷ b) = ground (arith, codes_total a b)

codes_injective : (s t : String) → codes s ≡ codes t → s ≡ t
codes_injective String.[] String.[] e = refl
codes_injective String.[] (String.◌∷◌ d t) e = absurd (cc e)
codes_injective (String.◌∷◌ c s) String.[] e = absurd (cc e)
codes_injective (String.◌∷◌ c s) (String.◌∷◌ d t) e =
    ap₂ String.◌∷◌ (Char-path c d (cc e)) (codes_injective s t (cc e))

pub key_irreflexive : (k : JobCursor) → key_past k k ≡ false
unfolding key_past
key_irreflexive k = ground (arith, codes_irreflexive (codes k.id))

pub key_transitive :
    (a b c : JobCursor) → key_past a b ≡ true → key_past b c ≡ true → key_past a c ≡ true
unfolding key_past
key_transitive a b c p q = ground (arith, codes_transitive (codes c.id) (codes b.id) (codes a.id))

pub key_total : (a b : JobCursor) → a.id ≢ b.id → (key_past a b ≡ true) ⊎ (key_past b a ≡ true)
unfolding key_past
key_total a b n = ground (arith, codes_total (codes a.id) (codes b.id), codes_injective a.id b.id)

same_second : (t : ℕ) → whole_seconds t / second ≡ t / second
same_second t = omega arith

-- A row is ahead of another where the other is past its columns.
pub is_ahead_lem : (r row : JobRow) → is_ahead r row ≡ is_past (key_at r) row
unfolding is_ahead key_past
is_ahead_lem r row = ground arith

pub cursor_at-scan_job : (s : Store) (row : JobRow) → cursor_at (scan_job s row).job ≡ key_at row
unfolding scan_job
cursor_at-scan_job s row =
    ap₂
      (λ u c. record {
        group = active_group row.lifecycle.state;
        updated = u;
        created = c;
        id = row.lifecycle.job_id;
      })
      (same_second row.lifecycle.updated_at) (same_second row.created_at)

key_past-compare : (a b : Job) → key_past (cursor_at a) (cursor_at b) ≡ is_less (compare_jobs a b)
unfolding key_past compare_jobs
key_past-compare a b = ground arith

-- The clause of a cursor and `CompareJobs` are one order: the rows that `ListJobsPage` finds past
-- the cursor of a job are those of the jobs that `CompareJobs` puts after the job.
pub is_past-compare_jobs :
    (s : Store) (a b : JobRow)
    → is_past (cursor_at (scan_job s a).job) b
      ≡ is_less (compare_jobs (scan_job s a).job (scan_job s b).job)
is_past-compare_jobs s a b =
    ap (key_past (cursor_at (scan_job s a).job)) (sym (cursor_at-scan_job s b))
    ∙ key_past-compare (scan_job s a).job (scan_job s b).job
