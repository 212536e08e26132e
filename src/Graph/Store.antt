-- ===== src/Graph/Store.antt =====
-- crates/assistant-agent-graph/src/store.rs, and the tables `specialist_jobs`, `specialist_job_runs`
-- and `agent_groups`. `datetime('now')` is the argument `now`.
use mathlib.Core.Option
use Prim.Native.String.{compare}
use text.Mathlib.Text.{is_le}
use assistant_platform.Base.{
  ℕ, ltb, ◌==◌, if◌then◌else◌, Result, ok, err, ◌>>=◌, ok_or, find, count_where, any, update,
  RowIds, ℤ, pos, negsuc, zero, ◌-◌, ◌%◌, ◌^◌, String, Bool, true, false, ◌&&◌, ◌||◌, Option, none,
  some, List, [], ◌∷◌, ◌++◌, map, str_eq,
}
use assistant_platform.Permissions.Model.{SqliteError, constraint_violation}
use assistant_platform.Graph.Job.{JobStatus, is_terminal, is_running, SpecialistJob, as_str, parse}

pub record JobRow : Type 0 where
  pub job_id : String
  pub orchestrator_group : String
  pub specialist_group : String
  pub profile_id : String
  pub status : String
  pub max_tokens : Option ℤ
  pub max_wall_secs : Option ℤ
  pub timeout_secs : ℤ
  pub cancel_requested : ℤ
  pub created_at : String
  pub started_at : Option String
  pub ended_at : Option String

pub record RunRow : Type 0 where
  pub job_id : String
  pub run_link : String

-- A row of `agent_groups`.
pub record GroupRow : Type 0 where
  pub id : ℕ
  pub slug : String
  pub kind : String
  pub profile_id : String
  pub profile_version : String

pub record Conn : Type 0 where
  pub specialist_jobs : List JobRow
  pub specialist_job_runs : List RunRow
  pub agent_groups : List GroupRow

pub data StoreError : Type 0 where
  db : SqliteError → StoreError
  not_found : String → StoreError
  unknown_status : String → StoreError

abbrev pub Return : Type 0 → Type 0
Return A = Result StoreError A × Conn

-- `v as i64` of a `u64`, and `v as u64` of an `i64`.
unfoldable pub as_i64 : ℕ → ℤ
as_i64 v = if ltb v (2 ^ 63) then pos v else negsuc (2 ^ 64 - 1 - v)

unfoldable pub as_u64 : ℤ → ℕ
as_u64 (pos n) = n
as_u64 (negsuc n) = 2 ^ 64 - 1 - n

abbrev pub has_job : String → JobRow → Bool
has_job job_id row = str_eq row.job_id job_id

abbrev pub is_link : String → String → RunRow → Bool
is_link job_id run_link row = str_eq row.job_id job_id && str_eq row.run_link run_link

-- INSERT OR IGNORE INTO specialist_job_runs
unfoldable pub add_run_link : Conn → String → String → Conn
add_run_link c job_id run_link =
    if any (is_link job_id run_link) c.specialist_job_runs then c else record c {
      specialist_job_runs =
          c.specialist_job_runs ++ record { job_id = job_id; run_link = run_link } ∷ [];
    }

unfoldable pub add_run_links : Conn → String → List String → Conn
add_run_links c job_id [] = c
add_run_links c job_id (link ∷ links) = add_run_links (add_run_link c job_id link) job_id links

abbrev pub bit : Bool → ℤ
bit true = pos 1
bit false = pos 0

abbrev pub new_row : String → SpecialistJob → JobRow
new_row now job = record {
  job_id = job.job_id;
  orchestrator_group = job.orchestrator_group;
  specialist_group = job.specialist_group;
  profile_id = job.profile_id;
  status = as_str job.status;
  max_tokens = Option.map as_i64 job.budget.max_tokens;
  max_wall_secs = Option.map as_i64 job.budget.max_wall_secs;
  timeout_secs = as_i64 job.timeout_secs;
  cancel_requested = bit job.cancel_requested;
  created_at = now;
  started_at = none;
  ended_at = none;
}

-- The job id is the PRIMARY KEY.
unfoldable pub insert_job : String → Conn → SpecialistJob → Return (Unit {0})
insert_job now c job =
    if any (has_job job.job_id) c.specialist_jobs then (err (db constraint_violation), c) else (
      ok tt,
      add_run_links (record c { specialist_jobs = c.specialist_jobs ++ new_row now job ∷ [] })
          job.job_id job.run_links,
    )

-- ORDER BY run_link
abbrev pub insert_link : String → List String → List String
insert_link x [] = x ∷ []
insert_link x (y ∷ ys) =
    let rest = insert_link x ys in if is_le (compare x y) then x ∷ y ∷ ys else y ∷ rest

abbrev pub order_links : List String → List String
order_links [] = []
order_links (x ∷ xs) = insert_link x (order_links xs)

abbrev pub links_of : String → List RunRow → List String
links_of job_id [] = []
links_of job_id (r ∷ rs) =
    let rest = links_of job_id rs in if str_eq r.job_id job_id then r.run_link ∷ rest else rest

abbrev pub is_set : ℤ → Bool
is_set (pos zero) = false
is_set _ = true

unfoldable pub read_job : String → JobRow → List RunRow → Result StoreError SpecialistJob
read_job job_id row runs = do
  status ← ok_or (parse row.status) (unknown_status row.status)
  ok (record {
    job_id = job_id;
    orchestrator_group = row.orchestrator_group;
    specialist_group = row.specialist_group;
    profile_id = row.profile_id;
    status = status;
    budget = record {
      max_tokens = Option.map as_u64 row.max_tokens;
      max_wall_secs = Option.map as_u64 row.max_wall_secs;
    };
    timeout_secs = as_u64 row.timeout_secs;
    cancel_requested = is_set row.cancel_requested;
    run_links = order_links (links_of job_id runs);
  })

unfoldable pub load_job : Conn → String → Result StoreError SpecialistJob
load_job c job_id = do
  row ← ok_or (find (has_job job_id) c.specialist_jobs) (not_found job_id)
  read_job job_id row c.specialist_job_runs

abbrev pub stamp : Bool → String → Option String → Option String
stamp true now none = some now
stamp _ now at = at

abbrev pub set_status : String → JobStatus → JobRow → JobRow
set_status now status row = record row {
  status = as_str status;
  started_at = stamp (is_running status) now row.started_at;
  ended_at = if is_terminal status then some now else row.ended_at;
}

unfoldable pub update_status : String → Conn → String → JobStatus → Return (Unit {0})
update_status now c job_id status =
    if count_where (has_job job_id) c.specialist_jobs == 0 then (err (not_found job_id), c) else (
      ok tt,
      record c {
        specialist_jobs = update (has_job job_id) (set_status now status) c.specialist_jobs;
      },
    )

unfoldable pub set_cancel_requested : Conn → String → Return (Unit {0})
set_cancel_requested c job_id =
    if count_where (has_job job_id) c.specialist_jobs == 0 then (err (not_found job_id), c) else (
      ok tt,
      record c {
        specialist_jobs =
            update (has_job job_id) (λ row. record row { cancel_requested = pos 1 })
              c.specialist_jobs;
      },
    )

-- status IN ('queued', 'running')
abbrev pub in_flight_text : String → Bool
in_flight_text s = str_eq s "queued" || str_eq s "running"

abbrev pub is_active_of : String → JobRow → Bool
is_active_of profile_id row = str_eq row.profile_id profile_id && in_flight_text row.status

-- `n as u32`
unfoldable pub running_or_queued_job_count : Conn → String → ℕ
running_or_queued_job_count c profile_id =
    count_where (is_active_of profile_id) c.specialist_jobs % 2 ^ 32

abbrev pub is_specialist_of : String → GroupRow → Bool
is_specialist_of profile_id g = str_eq g.kind "specialist" && str_eq g.profile_id profile_id

unfoldable pub specialist_group_count : Conn → String → ℕ
specialist_group_count c profile_id =
    count_where (is_specialist_of profile_id) c.agent_groups % 2 ^ 32

-- The slug is UNIQUE.
unfoldable pub create_specialist_group : RowIds → Conn → String → String → String → Return ℕ
create_specialist_group ids c slug profile_id profile_version =
    let id = ids.next (map (λ g. g.id) c.agent_groups) in
    if any (λ g. str_eq g.slug slug) c.agent_groups then (err (db constraint_violation), c) else (
      ok id,
      record c {
        agent_groups =
            c.agent_groups
            ++ record {
              id = id;
              slug = slug;
              kind = "specialist";
              profile_id = profile_id;
              profile_version = profile_version;
            }
              ∷ [];
      },
    )
