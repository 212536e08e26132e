-- ===== src/Graph/Delegation.antt =====
-- crates/assistant-agent-graph/src/delegation.rs: creating a specialist, starting a job and driving
-- it. Each returns its result with the tables and the audit log that it leaves.
use assistant_platform.Base.{ℕ, if◌then◌else◌, Result, ok, err, RowIds, String, none, some, List}
use assistant_platform.Graph.Job.{
  JobStatus, is_terminal, JobEvent, JobError, transition, SpecialistJob, AuditEvent,
  specialist_created, delegation_started, delegation_completed, record_event,
}
use assistant_platform.Graph.Registry.{
  PolicyError, get, SpecialistRegistry, unknown_profile, authorize_create, authorize_job_start,
}
use assistant_platform.Graph.Store.{
  StoreError, Conn, Return, insert_job, load_job, update_status, running_or_queued_job_count,
  specialist_group_count, create_specialist_group,
}

pub data DelegationError : Type 0 where
  policy : PolicyError → DelegationError
  store : StoreError → DelegationError
  invalid : JobError → DelegationError

abbrev pub Audit : Type 0
Audit = List AuditEvent

pub record World : Type 0 where
  pub conn : Conn
  pub audit : Audit

abbrev pub Outcome : Type 0 → Type 0
Outcome A = Result DelegationError A × World

unfoldable pub created_outcome : World → String → String → Return ℕ → Outcome String
created_outcome w profile_id slug (err e, c) = (err (store e), record w { conn = c })
created_outcome w profile_id slug (ok _, c) = (
  ok slug,
  record { conn = c; audit = record_event w.audit (specialist_created profile_id slug) },
)

unfoldable pub create_specialist :
    RowIds → SpecialistRegistry → World → String → String → Outcome String
unfolding created_outcome
create_specialist ids registry w profile_id slug =
    elim (authorize_create registry profile_id (specialist_group_count w.conn profile_id)) [
      | err e ↦ (err (policy e), w)
      | ok profile ↦
          created_outcome w profile_id slug
            (create_specialist_group ids w.conn slug profile_id profile.profile_version)
    ]

unfoldable pub started_outcome : World → SpecialistJob → Return (Unit {0}) → Outcome (Unit {0})
started_outcome w job (err e, c) = (err (store e), record w { conn = c })
started_outcome w job (ok _, c) = (
  ok tt,
  record {
    conn = c;
    audit =
        record_event w.audit (
          delegation_started job.job_id job.orchestrator_group job.specialist_group job.profile_id);
  },
)

unfoldable pub start_job : String → SpecialistRegistry → World → SpecialistJob → Outcome (Unit {0})
unfolding started_outcome
start_job now registry w job = elim (get registry job.profile_id) [
  | none ↦ (err (policy (unknown_profile job.profile_id)), w)
  | some profile ↦
      elim (authorize_job_start profile (running_or_queued_job_count w.conn job.profile_id)) [
        | err e ↦ (err (policy e), w)
        | ok _ ↦ started_outcome w job (insert_job now w.conn job)
      ]
]

unfoldable pub moved_outcome : World → String → JobStatus → Return (Unit {0}) → Outcome JobStatus
moved_outcome w job_id next (err e, c) = (err (store e), record w { conn = c })
moved_outcome w job_id next (ok _, c) = (
  ok next,
  record {
    conn = c;
    audit =
        if is_terminal next
        then record_event w.audit (delegation_completed job_id next)
        else w.audit;
  },
)

unfoldable pub transition_job : String → World → String → JobEvent → Outcome JobStatus
unfolding moved_outcome
transition_job now w job_id event = elim (load_job w.conn job_id) [
  | err e ↦ (err (store e), w)
  | ok job ↦ elim (transition job.status event) [
    | err e ↦ (err (invalid e), w)
    | ok next ↦ moved_outcome w job_id next (update_status now w.conn job_id next)
  ]
]
