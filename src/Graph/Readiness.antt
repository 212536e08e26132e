-- ===== src/Graph/Readiness.antt =====
-- crates/assistant-agent-graph/src/readiness.rs. What a failure's text lists is its argument.
use assistant_platform.Base.{
  ℕ, ◌==◌, if◌then◌else◌, select, count_where, String, not, List, [], ◌∷◌, map,
}
use assistant_platform.Graph.Job.{SpecialistJob, is_terminal}
use assistant_platform.Graph.Registry.{SpecialistRegistry, is_registered}
use assistant_platform.Graph.Store.{Conn, in_flight_text}

pub data Detail : Type 0 where
  unregistered : List String → Detail
  stranded : ℕ → Detail

pub data CheckStatus : Type 0 where
  pass : CheckStatus
  fail : Detail → CheckStatus
  skipped : Detail → CheckStatus

abbrev pub missing_pass : List String → CheckStatus
missing_pass [] = pass
missing_pass (id ∷ ids) = fail (unregistered (id ∷ ids))

unfoldable pub profiles_resolve : SpecialistRegistry → List String → CheckStatus
profiles_resolve registry required =
    missing_pass (select (λ id. not (is_registered registry id)) required)

unfoldable pub find_orphaned_jobs : List SpecialistJob → List String
find_orphaned_jobs jobs = map (λ j. j.job_id) (select (λ j. not (is_terminal j.status)) jobs)

unfoldable pub no_orphaned_jobs : Conn → CheckStatus
no_orphaned_jobs c =
    let n = count_where (λ row. in_flight_text row.status) c.specialist_jobs in
    if n == 0 then pass else fail (stranded n)
