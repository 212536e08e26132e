-- ===== src/Scheduler/Tables.antt =====
-- The tables `scheduled_items`, `scheduled_occurrences` and `container_runs`, and the types of
-- crates/assistant-scheduler/src/projection.rs. serde's JSON of recurrences and volumes is a parameter.
use assistant_platform.Scheduler.Calendar.{Recurrence}
use assistant_platform.Scheduler.Model.{EpochSecs, ScheduleStatus}
use assistant_platform.Base.{if◌then◌else◌, ℕ, String, Option, none, some, List, str_eq}

pub record ItemRow : Type 0 where
  pub id : String
  pub agent_group_id : ℕ
  pub session_id : Option String
  pub intent : String
  pub process_after : Option String
  pub recurrence : Option String
  pub status : String
  pub revision : ℕ
  pub gate_command : Option String
  pub gate_onecli_agent : Option String
  pub gate_volumes : Option String
  pub gate_image : Option String
  pub run_as : Option String

pub record OccurrenceRow : Type 0 where
  pub scheduled_item_id : String
  pub sequence : ℕ
  pub idempotency_key : String
  pub scheduled_for : Option EpochSecs
  pub fired_at : Option String
  pub status : String
  pub lease_owner : Option String
  pub lease_expires_at : Option EpochSecs
  pub attempt : ℕ

-- The columns of `container_runs` that the scheduler uses.
pub record ContainerRunRow : Type 0 where
  pub id : String
  pub scheduled_message_id : Option String

pub record Conn : Type 0 where
  pub scheduled_items : List ItemRow
  pub scheduled_occurrences : List OccurrenceRow
  pub container_runs : List ContainerRunRow

pub record Json : Type 0 where
  pub write_recurrence : Recurrence → String
  pub read_recurrence : String → Option Recurrence
  pub write_volumes : List String → String
  pub read_volumes : String → Option (List String)

pub data ProjectionError : Type 0 where
  json : ProjectionError
  unknown_enum : String → String → ProjectionError

pub data OccurrenceStatus : Type 0 where
  pending fired : OccurrenceStatus

unfoldable pub occurrence_as_str : OccurrenceStatus → String
occurrence_as_str pending = "pending"
occurrence_as_str fired = "fired"

unfoldable pub occurrence_parse : String → Option OccurrenceStatus
occurrence_parse s =
    if str_eq s "pending" then some pending else if str_eq s "fired" then some fired else none

pub record ProjectedItem : Type 0 where
  pub id : String
  pub agent_group_id : ℕ
  pub session_id : Option String
  pub intent : String
  pub process_after : Option EpochSecs
  pub recurrence : Option Recurrence
  pub status : ScheduleStatus
  pub revision : ℕ
  pub gate_command : Option String
  pub gate_onecli_agent : Option String
  pub gate_volumes : List String
  pub gate_image : Option String
  pub run_as : Option String
