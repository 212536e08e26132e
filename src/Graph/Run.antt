-- ===== src/Graph/Run.antt =====
-- The functions that change jobs and groups, as one type of calls, and a run of calls in any order.
use assistant_platform.Graph.Lifecycle.{
  Moved, in_flight_of_transition, moved_conn, load-found, unmoved, moves, transition_job-Moved,
}
use assistant_platform.Base.{
  leb, find, any, update, RowIds, pos, String, ◌≡◌, refl, ◌∙◌, true, false, some, List, [], ◌∷◌,
  ◌++◌, arith, ◌==◌, Bool-cases, Option-cases, ok, count_where, inl, inr,
}
use assistant_platform.Graph.Job.{JobEvent, JobStatus, SpecialistJob, parse, is_in_flight}
use assistant_platform.Graph.Registry.{
  SpecialistRegistry, RegisteredProfile, get, authorize_job_start,
}
use assistant_platform.Graph.Store.{
  set_cancel_requested, JobRow, Conn, has_job, add_run_link, add_run_links, new_row, set_status,
  in_flight_text, running_or_queued_job_count, RunRow, Return, insert_job, read_job,
  create_specialist_group,
}
use assistant_platform.Graph.Delegation.{
  World, create_specialist, start_job, transition_job, started_outcome,
}

-- Each call but the first carries the time at which it is made.
pub data Call : Type 0 where
  creates : String → String → Call
  starts : String → SpecialistJob → Call
  moves_job : String → String → JobEvent → Call
  cancels : String → Call

unfoldable pub after : RowIds → SpecialistRegistry → World → Call → World
after ids registry w (creates profile_id slug) =
    (create_specialist ids registry w profile_id slug).1
after ids registry w (starts now job) = (start_job now registry w job).1
after ids registry w (moves_job now id event) = (transition_job now w id event).1
after ids registry w (cancels id) = record w { conn = (set_cancel_requested w.conn id).1 }

pub run : RowIds → SpecialistRegistry → World → List Call → World
run ids registry w [] = w
run ids registry w (call ∷ calls) = run ids registry (after ids registry w call) calls

pub run_induction {ℓ} :
    (P : World → Type ℓ) (ids : RowIds) (registry : SpecialistRegistry)
    → ((w : World) (call : Call) → P w → P (after ids registry w call))
    → (w : World) (calls : List Call) → P w
    → P (run ids registry w calls)
unfolding run
run_induction P ids registry step w [] h = h
run_induction P ids registry step w (call ∷ calls) h =
    run_induction P ids registry step (after ids registry w call) calls (step w call h)

abbrev pub empty_world : World
empty_world = record {
  conn = record { specialist_jobs = []; specialist_job_runs = []; agent_groups = [] };
  audit = [];
}

pub add_run_links-jobs :
    (c : Conn) (id : String) (links : List String)
    → (add_run_links c id links).specialist_jobs ≡ c.specialist_jobs
unfolding add_run_links
add_run_links-jobs c id [] = refl
add_run_links-jobs c id (l ∷ links) =
    add_run_links-jobs (add_run_link c id l) id links ∙ (unfold add_run_link in ground arith)

pub add_run_links-groups :
    (c : Conn) (id : String) (links : List String)
    → (add_run_links c id links).agent_groups ≡ c.agent_groups
unfolding add_run_links
add_run_links-groups c id [] = refl
add_run_links-groups c id (l ∷ links) =
    add_run_links-groups (add_run_link c id l) id links ∙ (unfold add_run_link in ground arith)

-- What a call does to the jobs.
pub data JobsChange (registry : SpecialistRegistry) (w : World) (rows : List JobRow) : Type 0 where
  same : rows ≡ w.conn.specialist_jobs → JobsChange registry w rows
  inserted :
      (now : String) (job : SpecialistJob) (profile : RegisteredProfile)
      → get registry job.profile_id ≡ some profile
      → leb profile.limits.max_concurrent_jobs (running_or_queued_job_count w.conn job.profile_id)
        ≡ false
      → any (has_job job.job_id) w.conn.specialist_jobs ≡ false
      → rows ≡ w.conn.specialist_jobs ++ new_row now job ∷ []
      → JobsChange registry w rows
  moved :
      (now id : String) (row : JobRow) (next : JobStatus)
      → find (has_job id) w.conn.specialist_jobs ≡ some row
      → in_flight_text row.status ≡ true
      → rows ≡ update (has_job id) (set_status now next) w.conn.specialist_jobs
      → JobsChange registry w rows
  cancelling :
      (id : String)
      → rows
        ≡ update
            (has_job id)
            (λ row. record row { cancel_requested = pos 1 })
            w.conn.specialist_jobs
      → JobsChange registry w rows

pub read-in_flight :
    (id : String) (row : JobRow) (runs : List RunRow) (job : SpecialistJob)
    → read_job id row runs ≡ ok job
    → is_in_flight job.status ≡ in_flight_text row.status
unfolding read_job parse
read-in_flight id row runs job h = ground arith

pub insert-jobs :
    (now : String) (c : Conn) (job : SpecialistJob)
    → any (has_job job.job_id) c.specialist_jobs ≡ false
    → (insert_job now c job).1.specialist_jobs ≡ c.specialist_jobs ++ new_row now job ∷ []
unfolding insert_job
insert-jobs now c job h = rw h (add_run_links-jobs _ job.job_id job.run_links)

started-jobs :
    (w : World) (job : SpecialistJob) (r : Return (Unit {0}))
    → (started_outcome w job r).1.conn ≡ r.1
unfolding started_outcome
started-jobs w job r = ground arith

insert-refused :
    (now : String) (c : Conn) (job : SpecialistJob)
    → any (has_job job.job_id) c.specialist_jobs ≡ true
    → (insert_job now c job).1 ≡ c
unfolding insert_job
insert-refused now c job h = rw h refl

start-JobsChange :
    (now : String) (registry : SpecialistRegistry) (w : World) (job : SpecialistJob)
    → JobsChange registry w (start_job now registry w job).1.conn.specialist_jobs
start-JobsChange now registry w job = elim (Option-cases (get registry job.profile_id)) [
  | inl e ↦ same (unfold start_job in ground arith)
  | inr (profile, e) ↦
      elim (Bool-cases (
        leb profile.limits.max_concurrent_jobs
          (running_or_queued_job_count w.conn job.profile_id))) [
            | inl full ↦ same (unfold start_job authorize_job_start in ground arith)
            | inr room ↦
                let step : (start_job now registry w job).1.conn ≡ (insert_job now w.conn job).1 =
                  unfold start_job authorize_job_start in
                  ground (arith, started-jobs w job (insert_job now w.conn job)) in
                elim (Bool-cases (any (has_job job.job_id) w.conn.specialist_jobs)) [
                  | inl taken ↦ same (rw (step, insert-refused now w.conn job taken) refl)
                  | inr free ↦
                      inserted now job profile e room free
                        (rw step (insert-jobs now w.conn job free))
                ]
          ]
]

transition-JobsChange :
    (now : String) (registry : SpecialistRegistry) (w : World) (id : String) (event : JobEvent)
    → JobsChange registry w (transition_job now w id event).1.conn.specialist_jobs
transition-JobsChange now registry w id event = go (transition_job-Moved now w id event)
  where
    go :
        Moved now w id event
        → JobsChange registry w (transition_job now w id event).1.conn.specialist_jobs
    go (unmoved e eq) = same (rw eq)
    go (moves job next l t eq) =
        let (row, f, r) = load-found w.conn id job l in
        moved now id row next f
          (ground (
            arith,
            read-in_flight id row w.conn.specialist_job_runs job r,
            in_flight_of_transition job.status event next t,
          ))
          (rw eq (unfold moved_conn in refl))

cancel-JobsChange :
    (registry : SpecialistRegistry) (w : World) (id : String)
    → JobsChange registry w (set_cancel_requested w.conn id).1.specialist_jobs
cancel-JobsChange registry w id =
    elim (Bool-cases (count_where (has_job id) w.conn.specialist_jobs == 0)) [
      | inl e ↦ same (unfold set_cancel_requested in ground arith)
      | inr e ↦ cancelling id (unfold set_cancel_requested in ground arith)
    ]

create-jobs :
    (ids : RowIds) (registry : SpecialistRegistry) (w : World) (profile_id slug : String)
    → (create_specialist ids registry w profile_id slug).1.conn.specialist_jobs
      ≡ w.conn.specialist_jobs
unfolding create_specialist create_specialist_group
create-jobs ids registry w profile_id slug = ground arith

pub after-JobsChange :
    (ids : RowIds) (registry : SpecialistRegistry) (w : World) (call : Call)
    → JobsChange registry w (after ids registry w call).conn.specialist_jobs
unfolding after
after-JobsChange ids registry w (creates profile_id slug) =
    same (create-jobs ids registry w profile_id slug)
after-JobsChange ids registry w (starts now job) = start-JobsChange now registry w job
after-JobsChange ids registry w (moves_job now id event) =
    transition-JobsChange now registry w id event
after-JobsChange ids registry w (cancels id) = cancel-JobsChange registry w id
