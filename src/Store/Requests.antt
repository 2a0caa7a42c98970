-- ===== src/Store/Requests.antt =====
-- The requests of a job: what is completed stays so, and what is cancelled leaves the queue.
use grok_mcp.Prelude.{
  String, Bool, true, false, ◌&&◌, List, [], ◌∷◌, map, some, ◌≡◌, ◌≢◌, refl, ap, ◌∙◌, ◌==◌, ◌!=◌,
  String_eq, arith, eq_iff, Bool-cases, inl, inr, ◌⊎◌, any, keep, not, All,
}
use grok_mcp.Protocol.Job.{Job}
use grok_mcp.Store.Tables.{Store, WorkRow, WorkRequest}
use grok_mcp.Store.Put.{mark_state, mark_phase, mark_cancelled, mark}
use grok_mcp.Store.Queries.{
  is_cancellable, cancel_row, cancel_queued_request, is_queued, read_request, queued_requests,
}

mark_state_completed : (j : Job) (row : WorkRow) → row.state ≡ "completed" → mark_state j row ≡ row
unfolding mark_state
mark_state_completed j row h = ground (arith, eq_iff row.state "completed")

mark_phase_fields :
    (phase : String) (j : Job) (row : WorkRow)
    → ((mark_phase phase j row).state ≡ row.state)
      × ((mark_phase phase j row).turn_id ≡ row.turn_id)
      × ((mark_phase phase j row).request_id ≡ row.request_id)
unfolding mark_phase
mark_phase_fields phase j row = ground arith

mark_cancelled_completed :
    (j : Job) (row : WorkRow) → row.state ≡ "completed" → mark_cancelled j row ≡ row
unfolding mark_cancelled
mark_cancelled_completed j row h = ground (arith, eq_iff row.state "completed")

-- The updates of a job's requests leave a completed one completed, with its turn and its name.
pub mark_completed :
    (phase : String) (j : Job) (row : WorkRow)
    → row.state ≡ "completed"
    → ((mark phase j row).state ≡ "completed")
      × ((mark phase j row).turn_id ≡ row.turn_id)
      × ((mark phase j row).request_id ≡ row.request_id)
unfolding mark
mark_completed phase j row h = ground (
  arith,
  mark_state_completed j row h,
  mark_phase_fields phase j (mark_state j row),
  mark_cancelled_completed j (mark_phase phase j (mark_state j row)),
)

-- The queue without one request.
abbrev pub without : String → List WorkRequest → List WorkRequest
without id = keep (λ r. r.request_id != id)

-- A completed request has left the queue.
abbrev pub IsSettled : WorkRow → Type 0
IsSettled row = (row.state ≢ "completed") ⊎ (row.phase ≢ "queued")

queued-cancel_row :
    (job_id id : String) (row : WorkRow)
    → IsSettled row
    → is_queued job_id (cancel_row job_id id row)
      ≡ (is_queued job_id row && not (row.request_id == id))
unfolding cancel_row
queued-cancel_row job_id id row h = elim (Bool-cases (is_cancellable job_id id row)) [
  | inl c ↦ rw c (ground (arith, c))
  | inr c ↦ rw c (ground (arith, c, eq_iff row.phase "queued", eq_iff row.state "completed", h))
]

request_id-cancel_row :
    (job_id id : String) (row : WorkRow)
    → is_queued job_id (cancel_row job_id id row) ≡ true
    → cancel_row job_id id row ≡ row
unfolding cancel_row
request_id-cancel_row job_id id row = elim (Bool-cases (is_cancellable job_id id row)) [
  | inl c ↦ rw c (λ h. ground arith)
  | inr c ↦ rw c (λ h. refl)
]

abbrev pub queue_of : String → List WorkRow → List WorkRequest
queue_of job_id rows = map read_request (keep (is_queued job_id) rows)

abbrev pub names : String → WorkRequest → Bool
names id r = r.request_id == id

cancellable_iff :
    (job_id id : String) (row : WorkRow)
    → IsSettled row
    → is_cancellable job_id id row ≡ (is_queued job_id row && (row.request_id == id))
cancellable_iff job_id id row h =
    ground (arith, eq_iff row.phase "queued", eq_iff row.state "completed", h)

queue-cancel :
    (job_id id : String) (rows : List WorkRow)
    → All IsSettled rows
    → (queue_of job_id (map (cancel_row job_id id) rows) ≡ without id (queue_of job_id rows))
      × (any (is_cancellable job_id id) rows ≡ any (names id) (queue_of job_id rows))
queue-cancel job_id id [] h = (refl, refl)
queue-cancel job_id id (row ∷ rows) h = elim (Bool-cases (is_queued job_id row)) [
  | inl q ↦ elim (Bool-cases (row.request_id == id)) [
    | inl n ↦
        let dropped : is_queued job_id (cancel_row job_id id row) ≡ false =
          queued-cancel_row job_id id row h.0 ∙ ground (arith, q, n) in
        let hit : is_cancellable job_id id row ≡ true =
          cancellable_iff job_id id row h.0 ∙ ground (arith, q, n) in
        (rw (dropped, q) (rw n (queue-cancel job_id id rows h.1).0), rw (hit, q) (rw n))
    | inr n ↦
        let kept : is_queued job_id (cancel_row job_id id row) ≡ true =
          queued-cancel_row job_id id row h.0 ∙ ground (arith, q, n) in
        let miss : is_cancellable job_id id row ≡ false =
          cancellable_iff job_id id row h.0 ∙ ground (arith, q, n) in
        (
          rw (kept, q)
              (rw (request_id-cancel_row job_id id row kept)
                (rw n (ap (λ l. read_request row ∷ l) (queue-cancel job_id id rows h.1).0))),
          rw (miss, q) (rw n (queue-cancel job_id id rows h.1).1),
        )
  ]
  | inr q ↦
      let dropped : is_queued job_id (cancel_row job_id id row) ≡ false =
        queued-cancel_row job_id id row h.0 ∙ ground (arith, q) in
      let miss : is_cancellable job_id id row ≡ false =
        cancellable_iff job_id id row h.0 ∙ ground (arith, q) in
      (
        rw (dropped, q) (queue-cancel job_id id rows h.1).0,
        rw (miss, q) (queue-cancel job_id id rows h.1).1,
      )
]

-- Where every completed request has left the phase that waits and the store can be read,
-- cancelling a queued request takes it out of the job's queue and leaves the others in their
-- order; the answer says whether it was there, and no job's row changes.
pub cancel_queued_request_lem :
    (job_id id : String) (s t : Store) (found : Bool)
    → All IsSettled s.work_requests
    → cancel_queued_request job_id id s ≡ some (t, found)
    → s.readable ≡ true
    → (queued_requests job_id t ≡ some (without id (queue_of job_id s.work_requests)))
      × (found ≡ any (names id) (queue_of job_id s.work_requests))
      × (t.jobs ≡ s.jobs)
unfolding cancel_queued_request queued_requests
cancel_queued_request_lem job_id id s t found settled h r =
    ground (arith, queue-cancel job_id id s.work_requests settled)
