-- ===== src/Scheduler/Run.antt =====
-- What the host calls between two repairs, as one type of calls; a run in any order keeps the leases
-- that it is given.
use assistant_platform.Base.{ℤ, String, Option, List, [], ◌∷◌, ◌++◌}
use assistant_platform.Approvals.Model.{TextCast}
use assistant_platform.Scheduler.Model.{Names, EpochSecs, Occurrence, ScheduledMessageMeta}
use assistant_platform.Scheduler.Tables.{Conn, Json}
use assistant_platform.Scheduler.Projection.{
  upsert_item, advance_recurrence, complete_item, cancel_item, pause_item, resume_item,
}
use assistant_platform.Scheduler.Lease.{
  Lease, acquire_lease, push_lease, claim_due, complete_occurrence, link_run_to_occurrence,
}

pub data Call : Type 0 where
  sweeps : EpochSecs → String → ℤ → Call
  acquires : Occurrence → String → EpochSecs → ℤ → Call
  completes : Occurrence → EpochSecs → Call
  links : String → Occurrence → Call
  projects : ScheduledMessageMeta → Option String → Call
  advances : String → EpochSecs → Call
  completes_item cancels_item pauses_item resumes_item : String → Call

module _ (names : Names) (t : TextCast) (j : Json) where
  -- The leases that a call gives, and the tables after it.
  unfoldable pub after : Conn → Call → List Lease × Conn
  after c (sweeps now owner ttl) = claim_due names t c now owner ttl
  after c (acquires o owner now ttl) =
      let claim = acquire_lease c o owner now ttl in (push_lease claim.0 [], claim.1)
  after c (completes o fired_at) = ([], complete_occurrence c o fired_at)
  after c (links run_id o) = ([], (link_run_to_occurrence c run_id o).1)
  after c (projects meta session_id) = ([], upsert_item j c meta session_id)
  after c (advances id time) = ([], advance_recurrence c id time)
  after c (completes_item id) = ([], complete_item c id)
  after c (cancels_item id) = ([], cancel_item c id)
  after c (pauses_item id) = ([], pause_item c id)
  after c (resumes_item id) = ([], resume_item c id)

  unfoldable pub run : Conn → List Call → List Lease × Conn
  run c [] = ([], c)
  run c (call ∷ calls) =
      let first = after c call in let later = run first.1 calls in (first.0 ++ later.0, later.1)
