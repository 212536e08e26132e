-- ===== src/Graph/Ended.antt =====
-- A job that has reached a terminal status keeps it, whatever the delegation flow is asked to do.
use assistant_platform.Graph.Lifecycle.{load-found}
use mathlib.Core.Option
use assistant_platform.Base.{
  if◌then◌else◌, ok, find, RowIds, pos, find-append, find-update, String, ◌≡◌, refl, true, false,
  some, List, arith, Bool-cases, find-holds, sym, ap, ◌∙◌, inl, inr, some-injective, eq_iff,
}
use assistant_platform.Graph.Job.{is_terminal, SpecialistJob, JobStatus, parse}
use assistant_platform.Graph.Store.{
  JobRow, has_job, load_job, set_status, in_flight_text, RunRow, read_job, as_u64, order_links,
  links_of, is_set,
}
use assistant_platform.Graph.Registry.{SpecialistRegistry}
use assistant_platform.Graph.Run.{
  run, Call, JobsChange, same, inserted, moved, cancelling, after, run_induction, read-in_flight,
  after-JobsChange,
}
use assistant_platform.Graph.Delegation.{World}

-- The row of `id` has the text of a status that is not in flight.
abbrev HasEnded : String → String → World → Type 0
HasEnded id text w =
    (row : JobRow) × (find (has_job id) w.conn.specialist_jobs ≡ some row) × (row.status ≡ text)

row_after :
    (id text : String) (rows rows' : List JobRow) (f : JobRow → JobRow) (row : JobRow)
    → find (has_job id) rows' ≡ Option.map f (find (has_job id) rows)
    → find (has_job id) rows ≡ some row
    → (f row).status ≡ text
    → (r : JobRow) × (find (has_job id) rows' ≡ some r) × (r.status ≡ text)
row_after id text rows rows' f row e h k = (f row, rw (e, h) refl, k)

moved-other :
    (id j text now : String) (next : JobStatus) (row r : JobRow) (rows : List JobRow)
    → in_flight_text text ≡ false
    → find (has_job id) rows ≡ some row
    → row.status ≡ text
    → find (has_job j) rows ≡ some r
    → in_flight_text r.status ≡ true
    → (if has_job j row then set_status now next row else row).status ≡ text
moved-other id j text now next row r rows ended f s g flies = elim (Bool-cases (has_job j row)) [
  | inr n ↦ rw n s
  | inl y ↦
      let a : row.job_id ≡ j = (eq_iff row.job_id j).0 y in
      let b : row.job_id ≡ id = (eq_iff row.job_id id).0 (find-holds (has_job id) rows row f) in
      let e : j ≡ id = sym a ∙ b in
      let g' : find (has_job id) rows ≡ some r = rw e at g in
      let same : r ≡ row = some-injective r row (sym g' ∙ f) in
      absurd (cc (ap (λ (x : JobRow). in_flight_text x.status) same, ap in_flight_text s))
]

parse-read :
    (id : String) (row : JobRow) (runs : List RunRow) (job : SpecialistJob)
    → read_job id row runs ≡ ok job
    → parse row.status ≡ some job.status
unfolding read_job
parse-read id row runs job h = ground arith

read-parse :
    (id : String) (row : JobRow) (runs : List RunRow) (s : JobStatus)
    → parse row.status ≡ some s
    → (job : SpecialistJob) × (read_job id row runs ≡ ok job) × (job.status ≡ s)
unfolding read_job
read-parse id row runs s h = (
  record {
    job_id = id;
    orchestrator_group = row.orchestrator_group;
    specialist_group = row.specialist_group;
    profile_id = row.profile_id;
    status = s;
    budget = record {
      max_tokens = Option.map as_u64 row.max_tokens;
      max_wall_secs = Option.map as_u64 row.max_wall_secs;
    };
    timeout_secs = as_u64 row.timeout_secs;
    cancel_requested = is_set row.cancel_requested;
    run_links = order_links (links_of id runs);
  },
  rw h refl,
  refl,
)

change-HasEnded :
    (registry : SpecialistRegistry) (w w' : World) (id text : String)
    → in_flight_text text ≡ false
    → JobsChange registry w w'.conn.specialist_jobs
    → HasEnded id text w
    → HasEnded id text w'
change-HasEnded registry w w' id text ended (same e) (row, f, s) = (row, rw e f, s)
change-HasEnded registry w w' id text ended (inserted now job profile g room free e) (row, f, s) =
    (row, rw (e, find-append (has_job id) w.conn.specialist_jobs _, f) refl, s)
change-HasEnded registry w w' id text ended (moved now j r next g flies e) (row, f, s) =
    row_after id text w.conn.specialist_jobs w'.conn.specialist_jobs
      (λ x. if has_job j x then set_status now next x else x) row
      (rw e (
        find-update (has_job id) (has_job j) (set_status now next) w.conn.specialist_jobs
          (λ x. refl)))
      f (moved-other id j text now next row r w.conn.specialist_jobs ended f s g flies)
change-HasEnded registry w w' id text ended (cancelling j e) (row, f, s) =
    row_after id text w.conn.specialist_jobs w'.conn.specialist_jobs
      (λ x. if has_job j x then record x { cancel_requested = pos 1 } else x) row
      (rw e (
        find-update (has_job id) (has_job j) (λ x. record x { cancel_requested = pos 1 })
          w.conn.specialist_jobs (λ x. refl)))
      f (ground arith)

-- A job whose stored status is terminal has that status after any calls of the delegation flow, made in
-- any order: `create_specialist`, `start_job`, `transition_job` and `set_cancel_requested`. A caller of
-- `update_status` by itself is not one of them.
pub ended_forever :
    (ids : RowIds) (registry : SpecialistRegistry) (w : World) (calls : List Call) (id : String)
    (job : SpecialistJob)
    → load_job w.conn id ≡ ok job
    → is_terminal job.status ≡ true
    → (later : SpecialistJob) × (load_job (run ids registry w calls).conn id ≡ ok later)
      × (later.status ≡ job.status)
ended_forever ids registry w calls id job h t =
    let (row, f, r) = load-found w.conn id job h in
    let ended : in_flight_text row.status ≡ false =
      ground (arith, read-in_flight id row w.conn.specialist_job_runs job r) in
    let (row', f', s) =
      run_induction (HasEnded id row.status) ids registry
        (λ v call.
          change-HasEnded registry v (after ids registry v call) id row.status ended
            (after-JobsChange ids registry v call))
        w calls (row, f, refl) in
    let (later, read, k) =
      read-parse id row' (run ids registry w calls).conn.specialist_job_runs job.status
        (ap parse s ∙ parse-read id row w.conn.specialist_job_runs job r) in
    (later, unfold load_job in rw f' read, k)
