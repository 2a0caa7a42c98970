-- ===== src/Store/Lookup.antt =====
-- What a committed `PutJob` leaves behind: the row of its job, every other row, the notifications.
use grok_mcp.Prelude.{
  String, Bool, true, false, ◌&&◌, List, [], ◌∷◌, Option, none, some, ◌≡◌, refl, ◌∙◌, ◌==◌,
  String_eq, ℕ_eq, if◌then◌else◌, find, arith, eq_iff, Bool-cases, inl, inr,
}
use grok_mcp.Protocol.Job.{Job}
use grok_mcp.Store.Tables.{JobRow, Store, Record, RequestResult, find_row, has_id}
use grok_mcp.Store.Put.{
  old_job, with_phase, is_news, notify, upsert, add_result, write_rows, put_job, new_row,
}

-- The job as `PutJob` writes it.
abbrev pub written : Record → Store → Job
written rec s = (notify (old_job s rec.job.job_id) (with_phase rec (old_job s rec.job.job_id)) s).1

pub written-job_id : (rec : Record) (s : Store) → (written rec s).job_id ≡ rec.job.job_id
unfolding notify with_phase
written-job_id rec s = ground arith

find-upsert :
    (id : String) (new : JobRow) (rows : List JobRow)
    → new.lifecycle.job_id ≡ id
    → (row : JobRow) × (find (has_id id) (upsert new rows) ≡ some row)
      × (row.lifecycle ≡ new.lifecycle)
unfolding upsert
find-upsert id new [] h = (new, ground (arith, eq_iff new.lifecycle.job_id id), refl)
find-upsert id new (row ∷ rows) h = elim (Bool-cases (has_id new.lifecycle.job_id row)) [
  | inl same ↦ (
    record new { created_at = row.created_at },
    ground (arith, eq_iff new.lifecycle.job_id id),
    refl,
  )
  | inr differs ↦ let (found, e, l) = find-upsert id new rows h in (found, ground arith, l)
]

find-upsert_ne :
    (id : String) (new : JobRow) (rows : List JobRow)
    → (new.lifecycle.job_id == id) ≡ false
    → find (has_id id) (upsert new rows) ≡ find (has_id id) rows
unfolding upsert
find-upsert_ne id new [] h = ground arith
find-upsert_ne id new (row ∷ rows) h = ground (
  arith,
  find-upsert_ne id new rows h,
  eq_iff row.lifecycle.job_id id,
  eq_iff row.lifecycle.job_id new.lifecycle.job_id,
  eq_iff new.lifecycle.job_id id,
)

add_result-jobs :
    (j : Job) (r : Option RequestResult) (s t : Store)
    → add_result j r s ≡ some t
    → (t.jobs ≡ s.jobs)
      × (t.notifications ≡ s.notifications)
      × (t.last_notification ≡ s.last_notification)
      × (t.readable ≡ s.readable)
      × (t.writable ≡ s.writable)
unfolding add_result
add_result-jobs j none s t h = ground arith
add_result-jobs j (some r) s t h = ground arith

notify-jobs :
    (old j : Job) (s : Store)
    → ((notify old j s).0.jobs ≡ s.jobs)
      × ((notify old j s).0.readable ≡ s.readable)
      × ((notify old j s).0.writable ≡ s.writable)
unfolding notify
notify-jobs old j s = elim (Bool-cases (is_news old j)) [
  | inl h ↦ (rw h, rw h, rw h)
  | inr h ↦ (rw h, rw h, rw h)
]

-- The store with the notification of a put, before its other rows.
abbrev pub notified : Record → Store → Store
notified rec s = (notify (old_job s rec.job.job_id) (with_phase rec (old_job s rec.job.job_id)) s).0

pub record Committed (rec : Record) (s t : Store) : Type 0 where
  pub was_readable : s.readable ≡ true
  pub was_writable : s.writable ≡ true
  pub jobs : t.jobs ≡ (write_rows rec (written rec s) (notified rec s)).jobs
  pub notifications : t.notifications ≡ (notified rec s).notifications
  pub last_notification : t.last_notification ≡ (notified rec s).last_notification
  pub readable : t.readable ≡ true
  pub writable : t.writable ≡ true
  pub added :
      add_result (written rec s) rec.result (write_rows rec (written rec s) (notified rec s))
      ≡ some t

put_job_guards :
    (rec : Record) (s t : Store)
    → put_job rec s ≡ some t
    → (s.readable ≡ true)
      × (s.writable ≡ true)
      × (add_result (written rec s) rec.result (write_rows rec (written rec s) (notified rec s))
          ≡ some t)
unfolding put_job
put_job_guards rec s t h = go s.readable s.writable _ h
  where
    go :
        (r w : Bool) (o : Option Store)
        → (if r && w then o else none) ≡ some t
        → (r ≡ true) × (w ≡ true) × (o ≡ some t)
    go true true o e = (refl, refl, e)
    go true false o e = cc
    go false w o e = cc

-- A committed put, taken apart.
pub put_job-Committed : (rec : Record) (s t : Store) → put_job rec s ≡ some t → Committed rec s t
unfolding write_rows
put_job-Committed rec s t h =
    let (r, w, e) = put_job_guards rec s t h in
    let (jobs, ns, last, readable, writable) = add_result-jobs _ _ _ t e in
    let (_, nr, nw) =
      notify-jobs (old_job s rec.job.job_id) (with_phase rec (old_job s rec.job.job_id)) s in
    record {
      was_readable = r;
      was_writable = w;
      jobs = jobs;
      notifications = ns;
      last_notification = last;
      readable = readable ∙ nr ∙ r;
      writable = writable ∙ nw ∙ w;
      added = e;
    }

-- The job that was put is the one that is read back next.
pub find_row-put_job :
    (rec : Record) (s t : Store)
    → put_job rec s ≡ some t
    → (row : JobRow) × (find_row rec.job.job_id t ≡ some row) × (row.lifecycle ≡ written rec s)
unfolding find_row write_rows
find_row-put_job rec s t h =
    let (row, e, l) =
      find-upsert rec.job.job_id (new_row rec (written rec s)) (notified rec s).jobs
        (written-job_id rec s) in
    (row, rw (put_job-Committed rec s t h).jobs e, l)

-- No other job's row changes.
pub find_row-put_job_ne :
    (id : String) (rec : Record) (s t : Store)
    → put_job rec s ≡ some t
    → (rec.job.job_id == id) ≡ false
    → find_row id t ≡ find_row id s
unfolding find_row write_rows
find_row-put_job_ne id rec s t h differs = rw (put_job-Committed rec s t h).jobs (
    rw
      (find-upsert_ne id (new_row rec (written rec s)) (notified rec s).jobs
        (rw (written-job_id rec s) differs))
      (rw
        ((notify-jobs (old_job s rec.job.job_id) (with_phase rec (old_job s rec.job.job_id)) s).0)))

pub old_job-put_job :
    (rec : Record) (s t : Store) → put_job rec s ≡ some t → old_job t rec.job.job_id ≡ written rec s
unfolding old_job
old_job-put_job rec s t h = ground (arith, find_row-put_job rec s t h)

pub old_job-put_job_ne :
    (id : String) (rec : Record) (s t : Store)
    → put_job rec s ≡ some t
    → (rec.job.job_id == id) ≡ false
    → old_job t id ≡ old_job s id
unfolding old_job
old_job-put_job_ne id rec s t h differs = ground (arith, find_row-put_job_ne id rec s t h differs)
