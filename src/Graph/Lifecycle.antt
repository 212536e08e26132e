-- ===== src/Graph/Lifecycle.antt =====
-- What a transition of a job changes, and that a job which has ended stays ended.
use mathlib.Core.Option
use assistant_platform.Base.{
  ◌==◌, if◌then◌else◌, Result, ok, err, find, count_where, update, String, ◌≡◌, refl, ◌⊎◌, inl, inr,
  Bool, true, false, some, List, [], ◌∷◌, ◌++◌, arith, Option-cases, find-update, find-holds, ◌≢◌,
  eq_iff,
}
use assistant_platform.Graph.Job.{
  JobStatus, is_terminal, is_in_flight, JobEvent, transition, SpecialistJob, AuditEvent,
  delegation_completed, parse-as_str,
}
use assistant_platform.Graph.Store.{
  Conn, JobRow, has_job, read_job, load_job, set_status, update_status, RunRow,
}
use assistant_platform.Graph.Delegation.{transition_job, DelegationError, store, invalid, World}

pub in_flight_of_transition :
    (s : JobStatus) (e : JobEvent) (n : JobStatus)
    → transition s e ≡ ok n
    → (is_in_flight s ≡ true) × (is_terminal s ≡ false)
unfolding transition
in_flight_of_transition s e n h = (ground arith, ground arith)

-- The rows after `update_status`, when a row has the id.
unfoldable pub moved_conn : String → Conn → String → JobStatus → Conn
moved_conn now c id next = record c {
  specialist_jobs = update (has_job id) (set_status now next) c.specialist_jobs;
}

unfoldable pub moved_audit : World → String → JobStatus → List AuditEvent
moved_audit w id next =
    if is_terminal next then w.audit ++ delegation_completed id next ∷ [] else w.audit

pub load-found :
    (c : Conn) (id : String) (job : SpecialistJob)
    → load_job c id ≡ ok job
    → (row : JobRow) × (find (has_job id) c.specialist_jobs ≡ some row)
      × (read_job id row c.specialist_job_runs ≡ ok job)
unfolding load_job
load-found c id job h = elim (Option-cases (find (has_job id) c.specialist_jobs)) [
  | inl e ↦ absurd (ground arith)
  | inr (row, e) ↦ (row, e, ground arith)
]

count_of_find :
    {A : Type 0} (p : A → Bool) (xs : List A) (x : A)
    → find p xs ≡ some x
    → (count_where p xs == 0) ≡ false
count_of_find p [] x h = cc
count_of_find p (y ∷ ys) x h = ground (arith, count_of_find p ys x)

-- A transition either changes nothing, or moves the row of the job by an allowed event.
pub data Moved (now : String) (w : World) (id : String) (event : JobEvent) : Type 0 where
  unmoved :
      (e : DelegationError) → transition_job now w id event ≡ (err e, w) → Moved now w id event
  moves :
      (job : SpecialistJob) (next : JobStatus)
      → load_job w.conn id ≡ ok job
      → transition job.status event ≡ ok next
      → transition_job now w id event
        ≡ (ok next, record { conn = moved_conn now w.conn id next; audit = moved_audit w id next })
      → Moved now w id event

Result-cases : {E A : Type 0} (r : Result E A) → ((e : E) × (r ≡ err e)) ⊎ ((a : A) × (r ≡ ok a))
Result-cases (err e) = inl (e, refl)
Result-cases (ok a) = inr (a, refl)

pub transition_job-Moved :
    (now : String) (w : World) (id : String) (event : JobEvent) → Moved now w id event
transition_job-Moved now w id event = elim (Result-cases (load_job w.conn id)) [
  | inl (e, l) ↦ unmoved (store e) (unfold transition_job in ground arith)
  | inr (job, l) ↦ elim (Result-cases (transition job.status event)) [
    | inl (e, t) ↦ unmoved (invalid e) (unfold transition_job in ground arith)
    | inr (next, t) ↦
        let (row, f, r) = load-found w.conn id job l in
        moves job next l t (
          unfold transition_job update_status moved_conn moved_audit in
          ground (arith, count_of_find (has_job id) w.conn.specialist_jobs row f))
  ]
]

read-set_status :
    (now id : String) (row : JobRow) (runs : List RunRow) (job : SpecialistJob) (next : JobStatus)
    → read_job id row runs ≡ ok job
    → read_job id (set_status now next row) runs ≡ ok (record job { status = next })
unfolding read_job
read-set_status now id row runs job next h = ground (arith, parse-as_str next)

find-moved :
    (now : String) (c : Conn) (id j : String) (next : JobStatus)
    → find (has_job j) (moved_conn now c id next).specialist_jobs
      ≡ Option.map
          (λ x. if has_job id x then set_status now next x else x)
          (find (has_job j) c.specialist_jobs)
unfolding moved_conn
find-moved now c id j next =
    find-update (has_job j) (has_job id) (set_status now next) c.specialist_jobs (λ x. refl)

load-moved :
    (now : String) (c : Conn) (id : String) (job : SpecialistJob) (next : JobStatus)
    → load_job c id ≡ ok job
    → load_job (moved_conn now c id next) id ≡ ok (record job { status = next })
load-moved now c id job next h =
    let (row, f, r) = load-found c id job h in
    unfold load_job in
    rw (find-moved now c id id next, f, find-holds (has_job id) c.specialist_jobs row f)
      (unfold moved_conn in read-set_status now id row c.specialist_job_runs job next r)

load-moved_ne :
    (now : String) (c : Conn) (id j : String) (next : JobStatus)
    → j ≢ id
    → load_job (moved_conn now c id next) j ≡ load_job c j
load-moved_ne now c id j next ne = elim (Option-cases (find (has_job j) c.specialist_jobs)) [
  | inl e ↦ unfold load_job in rw (find-moved now c id j next, e) refl
  | inr (row, e) ↦
      let other : has_job id row ≡ false = ground (
        arith,
        find-holds (has_job j) c.specialist_jobs row e,
        eq_iff row.job_id j,
        eq_iff row.job_id id,
      ) in
      unfold load_job in rw (find-moved now c id j next, e, other) (unfold moved_conn in refl)
]

-- A transition succeeds only for a stored job that is in flight and whose status allows the event. The
-- job then reads with the next status and all else as before, every other job reads as before, and
-- the completion is audited exactly if the next status is terminal.
pub transition_job_exact :
    (now : String) (w : World) (id : String) (event : JobEvent) (next : JobStatus)
    → (transition_job now w id event).0 ≡ ok next
    → let w' = (transition_job now w id event).1 in
      ((job : SpecialistJob) × (load_job w.conn id ≡ ok job)
        × (is_in_flight job.status ≡ true)
        × (transition job.status event ≡ ok next)
        × (load_job w'.conn id ≡ ok (record job { status = next })))
      × ((j : String) → j ≢ id → load_job w'.conn j ≡ load_job w.conn j)
      × (w'.audit
          ≡ (if is_terminal next then w.audit ++ delegation_completed id next ∷ [] else w.audit))
transition_job_exact now w id event next h = go (transition_job-Moved now w id event)
  where
    go :
        Moved now w id event
        → let w' = (transition_job now w id event).1 in
          ((job : SpecialistJob) × (load_job w.conn id ≡ ok job)
            × (is_in_flight job.status ≡ true)
            × (transition job.status event ≡ ok next)
            × (load_job w'.conn id ≡ ok (record job { status = next })))
          × ((j : String) → j ≢ id → load_job w'.conn j ≡ load_job w.conn j)
          × (w'.audit ≡ (
              if is_terminal next then w.audit ++ delegation_completed id next ∷ [] else w.audit))
    go (unmoved e eq) = cc
    go (moves job n l t eq) =
        let same : n ≡ next = cc in
        (
          (
            job,
            l,
            (in_flight_of_transition job.status event n t).0,
            rw (← same) t,
            rw (eq, ← same) (load-moved now w.conn id job n l),
          ),
          λ j ne. rw eq (load-moved_ne now w.conn id j n ne),
          rw (eq, ← same) (unfold moved_audit in refl),
        )

-- A transition that fails changes neither the tables nor the audit log.
pub transition_job_failed :
    (now : String) (w : World) (id : String) (event : JobEvent) (e : DelegationError)
    → (transition_job now w id event).0 ≡ err e
    → (transition_job now w id event).1 ≡ w
transition_job_failed now w id event e h = go (transition_job-Moved now w id event)
  where
    go : Moved now w id event → (transition_job now w id event).1 ≡ w
    go (unmoved x eq) = rw eq
    go (moves job n l t eq) = cc
