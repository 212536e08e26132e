-- ===== src/Graph/Limits/Jobs.antt =====
-- How each call changes the number of jobs in flight.
use assistant_platform.Graph.Limits.Bounds.{LimitsInRange}
use assistant_platform.Graph.Limits.Bounds.{LimitsInRange, max_jobs, Distinct, WithinLimits}
use assistant_platform.Graph.Run.{JobsChange, same, inserted, cancelling, moved}
use assistant_platform.Base.{
  ℕ, Bool-cases, find, count_where, any, update, any-append, ◌^◌, ◌≤◌, ◌<◌, String, ◌≡◌, refl, inl,
  inr, Bool, true, false, some, List, [], ◌∷◌, ◌++◌, arith, eq_iff, if◌then◌else◌, pos, any-update,
  count_where-update, update-none, ◌+◌, ap, str_eq, leb, count_where-append, find-All, suc,
}
use assistant_platform.Graph.Job.{JobStatus, SpecialistJob}
use assistant_platform.Graph.Store.{
  JobRow, has_job, set_status, in_flight_text, is_active_of, new_row, running_or_queued_job_count,
}
use assistant_platform.Graph.Registry.{SpecialistRegistry, get, RegisteredProfile}
use assistant_platform.Graph.Delegation.{World}

Distinct-append :
    (rows : List JobRow) (x : JobRow)
    → any (has_job x.job_id) rows ≡ false
    → Distinct rows
    → Distinct (rows ++ x ∷ [])
Distinct-append [] x h d = (refl, tt)
Distinct-append (y ∷ rows) x h d = (
  ground (
    arith,
    any-append (has_job y.job_id) rows (x ∷ []),
    d.0,
    eq_iff y.job_id x.job_id,
    eq_iff x.job_id y.job_id,
  ),
  Distinct-append rows x (ground arith) d.1,
)

kept_id : (b : Bool) (y x : JobRow) → y.job_id ≡ x.job_id → (if b then y else x).job_id ≡ x.job_id
kept_id true y x h = h
kept_id false y x h = refl

Distinct-update :
    (q : JobRow → Bool) (f : JobRow → JobRow) (rows : List JobRow)
    → ((x : JobRow) → (f x).job_id ≡ x.job_id)
    → Distinct rows
    → Distinct (update q f rows)
Distinct-update q f [] k d = tt
Distinct-update q f (x ∷ rows) k d = (
  rw
      (
        kept_id (q x) (f x) x (k x),
        any-update (has_job x.job_id) q f rows (λ y. ap (λ s. str_eq s x.job_id) (k y)),
      )
      d.0,
  Distinct-update q f rows k d.1,
)

-- The row that moves was counted, so its move adds nothing.
moved-count :
    (now p : String) (next : JobStatus) (row : JobRow) (n : ℕ)
    → in_flight_text row.status ≡ true
    → (if is_active_of p (set_status now next row) then 1 else 0) + n
      ≤ (if is_active_of p row then 1 else 0) + n
moved-count now p next row n fl = ground arith

count-moved_head :
    (now id p : String) (next : JobStatus) (x : JobRow) (rows : List JobRow)
    → Distinct (x ∷ rows)
    → has_job id x ≡ true
    → in_flight_text x.status ≡ true
    → count_where (is_active_of p) (update (has_job id) (set_status now next) (x ∷ rows))
      ≤ count_where (is_active_of p) (x ∷ rows)
count-moved_head now id p next x rows d y fl =
    let e : x.job_id ≡ id = (eq_iff x.job_id id).0 y in
    let none_later : any (has_job id) rows ≡ false = rw e at (d.0) in
    rw (y, update-none (has_job id) (set_status now next) rows none_later)
      (moved-count now p next x (count_where (is_active_of p) rows) fl)

count-moved :
    (now id p : String) (next : JobStatus) (row : JobRow) (rows : List JobRow)
    → Distinct rows
    → find (has_job id) rows ≡ some row
    → in_flight_text row.status ≡ true
    → count_where (is_active_of p) (update (has_job id) (set_status now next) rows)
      ≤ count_where (is_active_of p) rows
count-moved now id p next row [] d f fl = omega arith
count-moved now id p next row (x ∷ rows) d f fl = elim (Bool-cases (has_job id x)) [
  | inr n ↦ rw n (omega (arith, count-moved now id p next row rows d.1 (ground arith) fl))
  | inl y ↦
      let same : x ≡ row = ground arith in count-moved_head now id p next x rows d y (rw same fl)
]

-- A job that is admitted leaves its profile within the limit.
inserted-count :
    (registry : SpecialistRegistry) (w : World) (now p : String) (job : SpecialistJob)
    (profile : RegisteredProfile)
    → LimitsInRange registry
    → WithinLimits registry w
    → get registry job.profile_id ≡ some profile
    → leb profile.limits.max_concurrent_jobs (running_or_queued_job_count w.conn job.profile_id)
      ≡ false
    → str_eq job.profile_id p ≡ true
    → suc (count_where (is_active_of p) w.conn.specialist_jobs) ≤ max_jobs registry p
unfolding running_or_queued_job_count
inserted-count registry w now p job profile r h g room y =
    let e : job.profile_id ≡ p = (eq_iff job.profile_id p).0 y in
    let bound =
      find-All (λ q. (q.limits.max_concurrent_jobs < 2 ^ 32) × (q.limits.max_specialists < 2 ^ 32))
        (λ q. str_eq q.profile_id job.profile_id) registry profile r (unfold get in g) in
    rw (← e) (ground (arith, h.jobs job.profile_id, g, bound.0))

pub jobs-change :
    (registry : SpecialistRegistry) (w : World) (rows : List JobRow) (p : String)
    → LimitsInRange registry
    → WithinLimits registry w
    → JobsChange registry w rows
    → count_where (is_active_of p) rows ≤ max_jobs registry p
jobs-change registry w rows p r h (same e) = rw e (h.jobs p)
jobs-change registry w rows p r h (inserted now job profile g room free e) =
    rw (e, count_where-append (is_active_of p) w.conn.specialist_jobs (new_row now job ∷ []))
      (elim (Bool-cases (str_eq job.profile_id p)) [
        | inr n ↦ rw n (omega (arith, h.jobs p))
        | inl y ↦ rw y (ground (arith, inserted-count registry w now p job profile r h g room y))
      ])
jobs-change registry w rows p r h (moved now id row next f fl e) =
    rw e (
      omega (arith, count-moved now id p next row w.conn.specialist_jobs h.distinct f fl, h.jobs p))
jobs-change registry w rows p r h (cancelling id e) =
    rw
      (
        e,
        count_where-update (is_active_of p) (has_job id)
            (λ row. record row { cancel_requested = pos 1 }) w.conn.specialist_jobs (λ x. refl),
      )
      (h.jobs p)

pub Distinct-change :
    (registry : SpecialistRegistry) (w : World) (rows : List JobRow)
    → Distinct w.conn.specialist_jobs
    → JobsChange registry w rows
    → Distinct rows
Distinct-change registry w rows d (same e) = rw e d
Distinct-change registry w rows d (inserted now job profile g room free e) =
    rw e (Distinct-append w.conn.specialist_jobs (new_row now job) free d)
Distinct-change registry w rows d (moved now id row next f fl e) =
    rw e (Distinct-update (has_job id) (set_status now next) w.conn.specialist_jobs (λ x. refl) d)
Distinct-change registry w rows d (cancelling id e) = rw e (
    Distinct-update (has_job id) (λ row. record row { cancel_requested = pos 1 })
      w.conn.specialist_jobs (λ x. refl) d)
