-- ===== src/Store/Cursors.antt =====
-- The cursor of a job is the number of its newest notification, and grows.
use grok_mcp.Prelude.{
  ℕ, ◌+◌, ◌≤◌, ◌<◌, String, true, false, List, [], ◌∷◌, some, ◌≡◌, refl, ◌==◌, ◌↔◌, String_eq,
  if◌then◌else◌, arith, eq_iff, eq_refl, Bool-cases, inl, inr, ◌⊎◌,
}
use grok_mcp.Protocol.Job.{Job}
use grok_mcp.Store.Tables.{Store, Record, Notification}
use grok_mcp.Store.Put.{old_job, with_phase, is_news, notify, put_job}
use grok_mcp.Store.Lookup.{written, put_job-Committed, old_job-put_job, old_job-put_job_ne}

-- The number of the newest notification of a job, 0 if it has none.
abbrev pub newest : String → List Notification → ℕ
newest id [] = 0
newest id (n ∷ ns) = if n.job_id == id then n.id else newest id ns

-- Numbers fall along the list, and none is above the counter.
abbrev pub Descending : ℕ → List Notification → Type 0
Descending bound [] = Unit {0}
Descending bound (n ∷ ns) = (n.id ≤ bound) × (0 < n.id) × Descending n.id ns

Descending-mono : (a b : ℕ) (ns : List Notification) → a ≤ b → Descending a ns → Descending b ns
Descending-mono a b [] h d = tt
Descending-mono a b (n ∷ ns) h d = (omega arith, d.1, d.2)

newest-le :
    (id : String) (bound : ℕ) (ns : List Notification) → Descending bound ns → newest id ns ≤ bound
newest-le id bound [] d = omega arith
newest-le id bound (n ∷ ns) d = ground (arith, newest-le id n.id ns d.2)

pub record AreCursors (s : Store) : Type 0 where
  pub falling : Descending s.last_notification s.notifications
  pub current : (id : String) → (old_job s id).event_cursor ≡ newest id s.notifications

notify_cases :
    (old j : Job) (s : Store)
    → ((is_news old j ≡ true)
        × ((notify old j s).0.notifications
            ≡ record { id = s.last_notification + 1; job_id = j.job_id; snapshot = j }
              ∷ s.notifications)
        × ((notify old j s).0.last_notification ≡ s.last_notification + 1)
        × ((notify old j s).1.event_cursor ≡ s.last_notification + 1))
      ⊎ ((is_news old j ≡ false)
          × ((notify old j s).0.notifications ≡ s.notifications)
          × ((notify old j s).0.last_notification ≡ s.last_notification)
          × ((notify old j s).1 ≡ j))
unfolding notify
notify_cases old j s = elim (Bool-cases (is_news old j)) [
  | inl h ↦ inl (h, rw h, rw h, rw h)
  | inr h ↦ inr (h, rw h, rw h, rw h)
]

with_phase_fields :
    (rec : Record) (old : Job)
    → ((with_phase rec old).event_cursor ≡ old.event_cursor)
      × ((with_phase rec old).job_id ≡ rec.job.job_id)
unfolding with_phase
with_phase_fields rec old = (refl, refl)

-- A committed put keeps the cursors: notification numbers fall along the list and stay within the
-- counter, and each job's cursor is the number of its newest notification.
pub put_job-AreCursors :
    (rec : Record) (s t : Store) → AreCursors s → put_job rec s ≡ some t → AreCursors t
put_job-AreCursors rec s t v h = record {
  falling = ground (
    arith,
    put_job-Committed rec s t h,
    notify_cases old (with_phase rec old) s,
    v.falling,
    Descending-mono s.last_notification (s.last_notification + 1) s.notifications,
  );
  current = λ id. elim (Bool-cases (rec.job.job_id == id)) [
    | inl same ↦ ground (
      arith,
      put_job-Committed rec s t h,
      notify_cases old (with_phase rec old) s,
      with_phase_fields rec old,
      eq_iff rec.job.job_id id,
      old_job-put_job rec s t h,
      v.current id,
    )
    | inr differs ↦ ground (
      arith,
      put_job-Committed rec s t h,
      notify_cases old (with_phase rec old) s,
      with_phase_fields rec old,
      old_job-put_job_ne id rec s t h differs,
      v.current id,
    )
  ];
}
  where
    old : Job
    old = old_job s rec.job.job_id

-- The cursor of the job that is put never falls, and it grows exactly where the put is news.
pub put_job-cursor :
    (rec : Record) (s t : Store)
    → AreCursors s
    → put_job rec s ≡ some t
    → ((old_job s rec.job.job_id).event_cursor ≤ (old_job t rec.job.job_id).event_cursor)
      × ((is_news (old_job s rec.job.job_id) (with_phase rec (old_job s rec.job.job_id)) ≡ true)
          ↔ ((old_job s rec.job.job_id).event_cursor < (old_job t rec.job.job_id).event_cursor))
put_job-cursor rec s t v h = ground (
  arith,
  old_job-put_job rec s t h,
  notify_cases old (with_phase rec old) s,
  with_phase_fields rec old,
  v.current rec.job.job_id,
  newest-le rec.job.job_id s.last_notification s.notifications v.falling,
)
  where
    old : Job
    old = old_job s rec.job.job_id

-- The fields by which a put is news.
pub record SameNews (a b : Job) : Type 0 where
  pub state : a.state ≡ b.state
  pub request_id : a.request_id ≡ b.request_id
  pub plan_version : a.plan_version ≡ b.plan_version
  pub stalled_reason : a.stalled_reason ≡ b.stalled_reason
  pub last_summary : a.last_summary ≡ b.last_summary
  pub approval_id : a.approval_id ≡ b.approval_id
  pub pause_reason : a.pause_reason ≡ b.pause_reason

with_phase-SameNews : (rec : Record) (old : Job) → SameNews (with_phase rec old) rec.job
unfolding with_phase
with_phase-SameNews rec old = record {
  state = refl;
  request_id = refl;
  plan_version = refl;
  stalled_reason = refl;
  last_summary = refl;
  approval_id = refl;
  pause_reason = refl;
}

notify-SameNews : (old j : Job) (s : Store) → SameNews (notify old j s).1 j
unfolding notify
notify-SameNews old j s = ground arith

is_news_same : (old j : Job) → SameNews old j → is_news old j ≡ false
unfolding is_news
is_news_same old j e =
    rw (e.request_id, e.stalled_reason, e.last_summary, e.approval_id, e.pause_reason)
      (rw (e.state, e.plan_version)
        (ground (
          arith,
          eq_refl j.request_id,
          eq_refl j.stalled_reason,
          eq_refl j.last_summary,
          eq_refl j.approval_id,
          eq_refl j.pause_reason,
        )))

written_again :
    (rec : Record) (s : Store) → is_news (written rec s) (with_phase rec (written rec s)) ≡ false
written_again rec s = is_news_same (written rec s) (with_phase rec (written rec s)) (
    ground (
      arith,
      with_phase-SameNews rec (written rec s),
      with_phase-SameNews rec (old_job s rec.job.job_id),
      notify-SameNews (old_job s rec.job.job_id) (with_phase rec (old_job s rec.job.job_id)) s,
    ))

-- Put again, a job that was just put is no news: clients hear of a boundary once.
pub put_job_again :
    (rec : Record) (s t u : Store)
    → put_job rec s ≡ some t
    → put_job rec t ≡ some u
    → u.notifications ≡ t.notifications
put_job_again rec s t u h k = ground (
  arith,
  put_job-Committed rec t u k,
  put_job-Committed rec s t h,
  old_job-put_job rec s t h,
  notify_cases (old_job t rec.job.job_id) (with_phase rec (old_job t rec.job.job_id)) t,
  written_again rec s,
)
