-- ===== src/Graph/Tests.antt =====
-- The crate at work on small databases, and instances of the theorems.
use assistant_platform.Graph.Routing.{
  A2aAcl, is_allowed, search_from, first_cycle_node, RoutingError, acl_denied, authorize_a2a, visit,
}
use assistant_platform.Graph.Cycle.{authorize_a2a_exact}
use assistant_platform.Graph.Cycle.Paths.{PathOf}
use assistant_platform.Graph.Limits.Bounds.{WithinLimits}
use assistant_platform.Graph.Limits.{run-WithinLimits}
use assistant_platform.Graph.Job.{
  JobStatus, is_in_flight, invalid_transition, SpecialistJob, delegation_completed, queued,
  succeeded, failed, parse, start, complete, transition,
}
use assistant_platform.Graph.Lifecycle.{transition_job_exact}
use assistant_platform.Graph.RoundTrip.{load-insert_job}
use assistant_platform.Graph.Run.{Call, moves_job, empty_world, creates, starts, cancels, run}
use assistant_platform.Graph.Delegation.{World, moved_outcome, transition_job, invalid}
use assistant_platform.Graph.Handoff.{
  HandoffPacket, SpecialistResult, empty_fact_text, is_whitespace, is_blank, validate_handoff,
  ephemeral, completed,
}
use assistant_platform.Graph.Ended.{ended_forever}
use assistant_platform.Graph.Registry.{RegisteredProfile, SpecialistRegistry, register}
use assistant_platform.Graph.Store.{JobRow, as_u64, insert_job, read_job, load_job, update_status}
use assistant_platform.Samples.{row_ids}
use assistant_platform.Base.{
  ok, err, pos, negsuc, ◌-◌, ◌^◌, String, ◌≡◌, refl, ◌≢◌, ◌↔◌, true, false, none, some, List, [],
  ◌∷◌, arith, Result,
}

abbrev research : RegisteredProfile
research = record {
  profile_id = "research";
  profile_version = "1";
  kind = "specialist";
  allows_external_destinations = false;
  limits = record { max_specialists = 2; max_concurrent_jobs = 1 };
}

abbrev main : RegisteredProfile
main = record {
  profile_id = "main";
  profile_version = "3";
  kind = "orchestrator";
  allows_external_destinations = true;
  limits = record { max_specialists = 0; max_concurrent_jobs = 4 };
}

abbrev profiles : SpecialistRegistry
profiles = main ∷ research ∷ []

abbrev job_named : String → SpecialistJob
job_named id = record {
  job_id = id;
  orchestrator_group = "home";
  specialist_group = "lab";
  profile_id = "research";
  status = queued;
  budget = record { max_tokens = some (2 ^ 64 - 1); max_wall_secs = none };
  timeout_secs = 600;
  cancel_requested = false;
  run_links = "run-2" ∷ "run-1" ∷ "run-2" ∷ [];
}

abbrev a_day : List Call
a_day =
    creates "research" "lab"
    ∷ creates "main" "copy"
    ∷ starts "09:00" (job_named "j1")
    ∷ starts "09:01" (job_named "j2")
    ∷ moves_job "09:02" "j1" start
    ∷ cancels "j1"
    ∷ []

run-WithinLimits_example : WithinLimits profiles (run row_ids profiles empty_world a_day)
run-WithinLimits_example =
    run-WithinLimits row_ids profiles a_day
      ((omega arith, omega arith), ((omega arith, omega arith), tt))

abbrev row_named : String → String → JobRow
row_named id status = record {
  job_id = id;
  orchestrator_group = "home";
  specialist_group = "lab";
  profile_id = "research";
  status = status;
  max_tokens = some (negsuc 0);
  max_wall_secs = none;
  timeout_secs = pos 600;
  cancel_requested = pos 0;
  created_at = "08:00";
  started_at = none;
  ended_at = none;
}

-- One job runs and one has failed.
abbrev evening : World
evening = record {
  conn = record {
    specialist_jobs = row_named "j1" "running" ∷ row_named "j2" "failed" ∷ [];
    specialist_job_runs = record { job_id = "j1"; run_link = "run-1" } ∷ [];
    agent_groups = [];
  };
  audit = [];
}

abbrev loaded : String → JobStatus → List String → SpecialistJob
loaded id status links = record {
  job_id = id;
  orchestrator_group = "home";
  specialist_group = "lab";
  profile_id = "research";
  status = status;
  budget = record { max_tokens = some (2 ^ 64 - 1); max_wall_secs = none };
  timeout_secs = 600;
  cancel_requested = false;
  run_links = links;
}

loads_failed : load_job evening.conn "j2" ≡ ok (loaded "j2" failed [])
unfolding load_job read_job parse as_u64
loads_failed = refl

ended_forever_example :
    (later : SpecialistJob) × (load_job
        (run row_ids profiles evening
          (starts "10:00" (job_named "j2") ∷ moves_job "10:01" "j2" start ∷ cancels "j2" ∷ [])).conn
        "j2"
      ≡ ok later)
    × (later.status ≡ failed)
ended_forever_example =
    ended_forever row_ids profiles evening
      (starts "10:00" (job_named "j2") ∷ moves_job "10:01" "j2" start ∷ cancels "j2" ∷ []) "j2"
      (loaded "j2" failed []) loads_failed refl

completes : (transition_job "10:00" evening "j1" complete).0 ≡ ok succeeded
unfolding transition_job load_job read_job parse as_u64 transition update_status moved_outcome
completes = refl

transition_job_exact_example :
    let w' = (transition_job "10:00" evening "j1" complete).1 in
    ((job : SpecialistJob) × (load_job evening.conn "j1" ≡ ok job)
      × (is_in_flight job.status ≡ true)
      × (transition job.status complete ≡ ok succeeded)
      × (load_job w'.conn "j1" ≡ ok (record job { status = succeeded })))
    × ((j : String) → j ≢ "j1" → load_job w'.conn j ≡ load_job evening.conn j)
    × (w'.audit ≡ delegation_completed "j1" succeeded ∷ [])
transition_job_exact_example =
    transition_job_exact "10:00" evening "j1" complete succeeded completes

restarts :
    (transition_job "10:00" evening "j2" start).0 ≡ err (invalid (invalid_transition failed start))
unfolding transition_job load_job read_job parse as_u64 transition
restarts = refl

inserts : (insert_job "10:00" evening.conn (job_named "j3")).0 ≡ ok tt
unfolding insert_job
inserts = refl

load-insert_job_example :
    load_job (insert_job "10:00" evening.conn (job_named "j3")).1 "j3"
    ≡ ok (record (job_named "j3") { run_links = "run-1" ∷ "run-2" ∷ [] })
load-insert_job_example =
    load-insert_job "10:00" evening.conn (job_named "j3") (omega arith) tt (omega arith) inserts

abbrev report : SpecialistResult
report = record {
  status = completed;
  summary = "done";
  answer = "";
  evidence = [];
  artifacts =
      record { artifact_id = "chart"; kind = "image"; by_reference = true; size_bytes = some 900 }
      ∷ [];
  credential_state_changes = [];
  follow_ups = [];
}

abbrev packet : HandoffPacket
packet = record {
  goal = " find sources ";
  expected_result_schema = none;
  facts = record { text = "\t "; source = none; retention = ephemeral } ∷ [];
  scope = record { user = none; channel = none; group = none; privacy = [] };
  attachments = [];
  constraints = [];
  non_goals = [];
  credential_policy = record { allowed_scopes = []; browser_session_allowed = false };
  budget_hint = record { max_tokens = none; max_wall_secs = none };
}

blank_fact : validate_handoff packet ≡ err empty_fact_text
unfolding validate_handoff is_blank is_whitespace
blank_fact = refl

abbrev research_2 : RegisteredProfile
research_2 = record research { profile_version = "2" }

in_key_order : register (register [] research) main ≡ profiles
unfolding register
in_key_order = refl

abbrev chain : A2aAcl
chain = ("main", "lab") ∷ ("lab", "files") ∷ ("main", "files") ∷ []

abbrev loop_back : A2aAcl
loop_back = ("files", "lab") ∷ ("lab", "files") ∷ ("desk", "main") ∷ ("main", "lab") ∷ []

authorize_a2a_exact_example :
    (r : Result RoutingError (Unit {0})) × (authorize_a2a chain "main" "lab" ≡ some r)
    × ((r ≡ ok tt) ↔ ((is_allowed chain "main" "lab" ≡ true) × ((n : String) → ¬ PathOf chain n n)))
authorize_a2a_exact_example = authorize_a2a_exact chain "main" "lab"

search_cases :
    (first_cycle_node chain ≡ some none)
    × (first_cycle_node loop_back ≡ some (some "desk"))
    × (authorize_a2a chain "files" "main" ≡ some (err (acl_denied "files" "main")))
unfolding first_cycle_node search_from visit authorize_a2a is_allowed
search_cases = (refl, refl, refl)
