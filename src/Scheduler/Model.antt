-- ===== src/Scheduler/Model.antt =====
-- crates/assistant-scheduler/src/model.rs: schedules, their life and their occurrences. The SHA-256
-- names are a parameter. `u32` and `u64` values are numbers below 2 ^ 32 and 2 ^ 64.
use assistant_platform.Scheduler.Calendar.{
  Chrono, Recurrence, InvalidRecurrence, next_after, validate,
}
use mathlib.Core.Option
use assistant_platform.Base.{
  ok, if◌then◌else◌, Result, err, ◌>>=◌, map_err, ℤ, ℕ, suc, ◌%◌, ◌^◌, String, Bool, true, false,
  not, Option, none, some, List, [], ◌∷◌, ◌++◌, str_eq,
}

abbrev pub EpochSecs : Type 0
EpochSecs = ℤ

pub data ScheduleStatus : Type 0 where
  active paused cancelled completed : ScheduleStatus

unfoldable pub as_str : ScheduleStatus → String
as_str active = "active"
as_str paused = "paused"
as_str cancelled = "cancelled"
as_str completed = "completed"

unfoldable pub parse : String → Option ScheduleStatus
parse s =
    if str_eq s "active"
    then some active
    else if str_eq s "paused"
    then some paused
    else if str_eq s "cancelled"
    then some cancelled
    else if str_eq s "completed"
    then some completed
    else none

abbrev pub is_terminal : ScheduleStatus → Bool
is_terminal cancelled = true
is_terminal completed = true
is_terminal _ = false

abbrev pub is_active : ScheduleStatus → Bool
is_active active = true
is_active _ = false

pub data LifecycleTransition : Type 0 where
  pause resume cancel complete : LifecycleTransition

pub data ScheduleError : Type 0 where
  invalid_recurrence : InvalidRecurrence → ScheduleError
  illegal_transition : ScheduleStatus → LifecycleTransition → ScheduleError
  terminal : ScheduleStatus → ScheduleError
  json : ScheduleError

unfoldable pub apply : ScheduleStatus → LifecycleTransition → Result ScheduleError ScheduleStatus
apply active pause = ok paused
apply paused resume = ok active
apply active cancel = ok cancelled
apply paused cancel = ok cancelled
apply active complete = ok completed
apply from transition = err (illegal_transition from transition)

pub data ContextPolicy : Type 0 where
  current_memory : ContextPolicy
  captured_snapshot : String → ContextPolicy

pub record ScheduleIntent : Type 0 where
  pub created_by : String
  pub summary : String
  pub created_at : EpochSecs

pub record Revision : Type 0 where
  pub revision : ℕ
  pub revised_at : EpochSecs
  pub revised_by : String
  pub process_after : EpochSecs
  pub recurrence : Option Recurrence
  pub context_policy : ContextPolicy

pub record Occurrence : Type 0 where
  pub scheduled_item_id : String
  pub sequence : ℕ
  pub scheduled_for : EpochSecs
  pub idempotency_key : String

-- `generate_scheduled_item_id` and `occurrence_idempotency_key`, which hash their arguments.
pub record Names : Type 0 where
  pub generate_scheduled_item_id : ℕ → ScheduleIntent → String
  pub occurrence_idempotency_key : String → ℕ → String

unfoldable pub new_occurrence : Names → String → ℕ → EpochSecs → Occurrence
new_occurrence names item_id sequence scheduled_for = record {
  scheduled_item_id = item_id;
  sequence = sequence;
  scheduled_for = scheduled_for;
  idempotency_key = names.occurrence_idempotency_key item_id sequence;
}

pub record ScheduledMessageMeta : Type 0 where
  pub scheduled_item_id : String
  pub agent_group_id : ℕ
  pub intent : ScheduleIntent
  pub process_after : EpochSecs
  pub recurrence : Option Recurrence
  pub context_policy : ContextPolicy
  pub status : ScheduleStatus
  pub revision : ℕ
  pub revisions : List Revision
  pub occurrence_seq : ℕ
  pub gate_command : Option String
  pub gate_onecli_agent : Option String
  pub gate_volumes : List String
  pub gate_image : Option String
  pub run_as : Option String

unfoldable pub transition_meta :
    ScheduledMessageMeta
    → LifecycleTransition
    → Result ScheduleError (Unit {0}) × ScheduledMessageMeta
transition_meta m transition = elim (apply m.status transition) [
  | err e ↦ (err e, m)
  | ok status ↦ (ok tt, record m { status = status })
]

-- `self.occurrence_seq + 1` on a `u64`, which wraps around in a release build.
unfoldable pub pending_occurrence : Names → ScheduledMessageMeta → Option Occurrence
pending_occurrence names m =
    if not (is_active m.status)
    then none
    else some
        (new_occurrence names m.scheduled_item_id (suc m.occurrence_seq % 2 ^ 64) m.process_after)

module _ (ch : Chrono) where
  abbrev pub validate_optional : Option Recurrence → Result ScheduleError (Unit {0})
  validate_optional none = ok tt
  validate_optional (some r) = map_err invalid_recurrence (validate ch r)

  unfoldable pub create :
      Names
      → ℕ
      → ScheduleIntent
      → EpochSecs
      → Option Recurrence
      → ContextPolicy
      → Result ScheduleError ScheduledMessageMeta
  create names agent_group_id intent process_after recurrence context_policy = do
    _ ← validate_optional recurrence
    ok (record {
      scheduled_item_id = names.generate_scheduled_item_id agent_group_id intent;
      agent_group_id = agent_group_id;
      intent = intent;
      process_after = process_after;
      recurrence = recurrence;
      context_policy = context_policy;
      status = active;
      revision = 1;
      revisions =
          record {
            revision = 1;
            revised_at = intent.created_at;
            revised_by = intent.created_by;
            process_after = process_after;
            recurrence = recurrence;
            context_policy = context_policy;
          }
          ∷ [];
      occurrence_seq = 0;
      gate_command = none;
      gate_onecli_agent = none;
      gate_volumes = [];
      gate_image = none;
      run_as = none;
    })

  -- `self.revision += 1` on a `u32`, which wraps around in a release build.
  abbrev pub revised :
      ScheduledMessageMeta
      → String
      → EpochSecs
      → EpochSecs
      → Option Recurrence
      → ContextPolicy
      → ScheduledMessageMeta
  revised m by at process_after recurrence context_policy =
      let revision = suc m.revision % 2 ^ 32 in
      record m {
        revision = revision;
        process_after = process_after;
        recurrence = recurrence;
        context_policy = context_policy;
        revisions =
            m.revisions
            ++ record {
              revision = revision;
              revised_at = at;
              revised_by = by;
              process_after = process_after;
              recurrence = recurrence;
              context_policy = context_policy;
            }
              ∷ [];
      }

  -- On an error the schedule is unchanged.
  unfoldable pub update_meta :
      ScheduledMessageMeta
      → String
      → EpochSecs
      → EpochSecs
      → Option Recurrence
      → ContextPolicy
      → Result ScheduleError (Unit {0}) × ScheduledMessageMeta
  update_meta m by at process_after recurrence context_policy =
      if is_terminal m.status
      then (err (terminal m.status), m)
      else elim (validate_optional recurrence) [
        | err e ↦ (err e, m)
        | ok _ ↦ (ok tt, revised m by at process_after recurrence context_policy)
      ]

  -- `none` is a panic of the calendar.
  unfoldable pub record_fired : ScheduledMessageMeta → Occurrence → Option ScheduledMessageMeta
  record_fired m occurrence = elim m.recurrence [
    | none ↦ some (record m { occurrence_seq = occurrence.sequence; status = completed })
    | some recurrence ↦
        Option.map (λ next. record m { occurrence_seq = occurrence.sequence; process_after = next })
          (next_after ch recurrence occurrence.scheduled_for)
  ]
