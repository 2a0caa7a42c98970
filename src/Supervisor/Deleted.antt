-- ===== src/Supervisor/Deleted.antt =====
-- What is left of a job that was deleted, and of the other jobs.
use grok_mcp.Prelude.{
  String, Bool, true, false, List, [], ◌∷◌, none, some, ◌≡◌, ◌≢◌, sym, ap, subst, ◌∙◌, arith, ◌==◌,
  String_eq, if◌then◌else◌, keep, find, Bool-cases, Option-cases, inl, inr, eq_iff,
}
use grok_mcp.Protocol.Group.{dashboard_active}
use grok_mcp.Store.Tables.{Store, JobRow, Record, find_row, has_id, get_job}
use grok_mcp.Store.Queries.{delete_job, other}
use grok_mcp.Supervisor.State.{Runtime, Service, find_runtime, not_found}
use grok_mcp.Supervisor.Agreement.{some_injective}
use grok_mcp.Supervisor.Jobs.{
  Deletion, cleans_up, fails_with, deletes, delete_begin, without, drop_runtime, emit_deleted,
  delete_end,
}

find-other :
    (id k : String) (rows : List JobRow)
    → find (has_id k) (keep (λ row. other id row.lifecycle.job_id) rows)
      ≡ (if k == id then none else find (has_id k) rows)
find-other id k [] = ground arith
find-other id k (row ∷ rows) = ground (
  arith,
  find-other id k rows,
  eq_iff row.lifecycle.job_id id,
  eq_iff row.lifecycle.job_id k,
  eq_iff k id,
)

find_runtime-without :
    (id k : String) (rs : List (String × Runtime))
    → find_runtime k (without id rs) ≡ (if k == id then none else find_runtime k rs)
unfolding find_runtime
find_runtime-without id k [] = ground arith
find_runtime-without id k ((j, r) ∷ rs) =
    ground (arith, find_runtime-without id k rs, eq_iff j id, eq_iff j k, eq_iff k id)

find_row-delete :
    (id k : String) (s t : Store)
    → delete_job id s ≡ some t
    → find_row k t ≡ (if k == id then none else find_row k s)
unfolding delete_job find_row
find_row-delete id k s t h = elim (Bool-cases s.writable) [
  | inl y ↦
      subst
        (λ (u : Store). find (has_id k) u.jobs ≡ (if k == id then none else find (has_id k) s.jobs))
        (some_injective (rw (y, delete_job) at h)) (find-other id k s.jobs)
  | inr n ↦ absurd (cc (rw (n, delete_job) at h))
]

-- A job that is to be deleted was found, and is not active.
delete_begin-inactive :
    (id : String) (s : Service) (window : Bool)
    → delete_begin id s ≡ deletes window
    → (rec : Record) × (get_job s.store id ≡ some rec) × (dashboard_active rec.job.state ≡ false)
unfolding delete_begin
delete_begin-inactive id s window h = elim (Option-cases (get_job s.store id)) [
  | inl gone ↦ absurd (none_deletes s.store.readable (rw (gone, delete_begin) at h))
  | inr (rec, found) ↦ elim (Bool-cases (dashboard_active rec.job.state)) [
    | inl y ↦ absurd (cc (rw y at (rw (found, delete_begin) at h)))
    | inr n ↦ (rec, found, n)
  ]
]
  where
    none_deletes :
        (b : Bool)
        → (if◌then◌else◌ {A = Deletion} b cleans_up (fails_with not_found)) ≢ deletes window
    none_deletes true e = absurd (cc e)
    none_deletes false e = absurd (cc e)

-- What `DeleteJob` goes on to delete is a job that was found and is in none of the active states.
-- Where the store then deletes it, its row and its runtime are gone, and the rows and the runtimes of
-- all other jobs are as before.
pub delete_end-others :
    (id k : String) (s₀ s t : Service) (window : Bool)
    → delete_begin id s₀ ≡ deletes window
    → delete_end id s ≡ (t, true)
    → ((rec : Record) × (get_job s₀.store id ≡ some rec) × (dashboard_active rec.job.state ≡ false))
      × (find_row k t.store ≡ (if k == id then none else find_row k s.store))
      × (find_runtime k t.rt ≡ (if k == id then none else find_runtime k s.rt))
unfolding delete_end drop_runtime emit_deleted
delete_end-others id k s₀ s t window b h = elim (Option-cases (delete_job id s.store)) [
  | inl failed ↦ absurd (cc (rw (failed, delete_end) at h))
  | inr (u, done) ↦
      let same : t ≡ drop_runtime id (emit_deleted id (record s { store = u })) =
        sym (ap {A = Service × Bool} {B = Service} (λ p. p.0) (rw (done, delete_end) at h)) in
      (
        delete_begin-inactive id s₀ window b,
        ap (λ (v : Service). find_row k v.store) same ∙ find_row-delete id k s.store u done,
        ap (λ (v : Service). find_runtime k v.rt) same ∙ find_runtime-without id k s.rt,
      )
]
