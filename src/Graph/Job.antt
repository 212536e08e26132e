-- ===== src/Graph/Job.antt =====
-- crates/assistant-agent-graph/src/job.rs and audit.rs
use assistant_platform.Base.{
  ℕ, ltb, leb, if◌then◌else◌, Result, ok, err, String, ◌≡◌, refl, Bool, true, false, ◌&&◌, Option,
  none, some, List, [], ◌∷◌, ◌++◌, str_eq,
}

pub data JobStatus : Type 0 where
  queued running cancelled timed_out succeeded partial_result failed : JobStatus

unfoldable pub as_str : JobStatus → String
as_str queued = "queued"
as_str running = "running"
as_str cancelled = "cancelled"
as_str timed_out = "timed_out"
as_str succeeded = "succeeded"
as_str partial_result = "partial_result"
as_str failed = "failed"

unfoldable pub parse : String → Option JobStatus
parse s =
    if str_eq s "queued"
    then some queued
    else if str_eq s "running"
    then some running
    else if str_eq s "cancelled"
    then some cancelled
    else if str_eq s "timed_out"
    then some timed_out
    else if str_eq s "succeeded"
    then some succeeded
    else if str_eq s "partial_result"
    then some partial_result
    else if str_eq s "failed"
    then some failed
    else none

abbrev pub is_terminal : JobStatus → Bool
is_terminal cancelled = true
is_terminal timed_out = true
is_terminal succeeded = true
is_terminal partial_result = true
is_terminal failed = true
is_terminal _ = false

abbrev pub is_in_flight : JobStatus → Bool
is_in_flight queued = true
is_in_flight running = true
is_in_flight _ = false

abbrev pub is_running : JobStatus → Bool
is_running running = true
is_running _ = false

pub data JobEvent : Type 0 where
  start complete complete_partial cancel timeout fail : JobEvent

unfoldable pub event_as_str : JobEvent → String
event_as_str start = "start"
event_as_str complete = "complete"
event_as_str complete_partial = "complete_partial"
event_as_str cancel = "cancel"
event_as_str timeout = "timeout"
event_as_str fail = "fail"

pub data JobError : Type 0 where
  invalid_transition : JobStatus → JobEvent → JobError

unfoldable pub transition : JobStatus → JobEvent → Result JobError JobStatus
transition queued start = ok running
transition queued cancel = ok cancelled
transition running cancel = ok cancelled
transition queued timeout = ok timed_out
transition running timeout = ok timed_out
transition queued fail = ok failed
transition running fail = ok failed
transition running complete = ok succeeded
transition running complete_partial = ok partial_result
transition from event = err (invalid_transition from event)

-- `u64` values are numbers below 2 ^ 64.
pub record JobBudget : Type 0 where
  pub max_tokens : Option ℕ
  pub max_wall_secs : Option ℕ

pub record SpecialistJob : Type 0 where
  pub job_id : String
  pub orchestrator_group : String
  pub specialist_group : String
  pub profile_id : String
  pub status : JobStatus
  pub budget : JobBudget
  pub timeout_secs : ℕ
  pub cancel_requested : Bool
  pub run_links : List String

unfoldable pub new : String → String → String → String → JobBudget → ℕ → SpecialistJob
new job_id orchestrator_group specialist_group profile_id budget timeout_secs = record {
  job_id = job_id;
  orchestrator_group = orchestrator_group;
  specialist_group = specialist_group;
  profile_id = profile_id;
  status = queued;
  budget = budget;
  timeout_secs = timeout_secs;
  cancel_requested = false;
  run_links = [];
}

-- On an error the job is unchanged.
unfoldable pub apply : SpecialistJob → JobEvent → Result JobError (Unit {0}) × SpecialistJob
apply job event = elim (transition job.status event) [
  | ok next ↦ (ok tt, record job { status = next })
  | err e ↦ (err e, job)
]

unfoldable pub request_cancel : SpecialistJob → SpecialistJob
request_cancel job = record job { cancel_requested = true }

unfoldable pub is_timed_out : ℕ → ℕ → Bool
is_timed_out elapsed_running_secs timeout_secs =
    ltb 0 timeout_secs && leb timeout_secs elapsed_running_secs

unfoldable pub cancel_grace_exceeded : ℕ → ℕ → Bool
cancel_grace_exceeded elapsed_since_cancel_secs grace_secs =
    leb grace_secs elapsed_since_cancel_secs

pub data AuditEvent : Type 0 where
  specialist_created : String → String → AuditEvent
  delegation_started : String → String → String → String → AuditEvent
  delegation_completed : String → JobStatus → AuditEvent
  agent_routing : String → String → String → AuditEvent

-- `VecAuditSink::record`
abbrev pub record_event : List AuditEvent → AuditEvent → List AuditEvent
record_event events event = events ++ event ∷ []

pub parse-as_str : (s : JobStatus) → parse (as_str s) ≡ some s
unfolding parse as_str
parse-as_str queued = refl
parse-as_str running = refl
parse-as_str cancelled = refl
parse-as_str timed_out = refl
parse-as_str succeeded = refl
parse-as_str partial_result = refl
parse-as_str failed = refl
