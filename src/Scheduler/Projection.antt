-- ===== src/Scheduler/Projection.antt =====
-- crates/assistant-scheduler/src/projection.rs: the functions over the projected items and occurrences.
use assistant_platform.Scheduler.Tables.{
  Conn, ItemRow, OccurrenceRow, Json, ProjectionError, json, unknown_enum, OccurrenceStatus,
  occurrence_as_str, ProjectedItem,
}
use assistant_platform.Scheduler.Calendar.{Recurrence}
use assistant_platform.Scheduler.Model.{EpochSecs, ScheduleStatus, Occurrence, ScheduledMessageMeta}
use mathlib.Core.Option
use Prim.Native.String.{compare}
use text.Mathlib.Text.{is_le}
use assistant_platform.Base.{
  ok, ◌==◌, if◌then◌else◌, Result, ◌>>=◌, ok_or, select, find, any, update, leb_ℤ, ℕ, String, Bool,
  true, false, not, ◌&&◌, ◌||◌, Option, none, some, List, [], ◌∷◌, ◌++◌, str_eq,
}
use assistant_platform.Decimal.{to_string, parse}
use assistant_platform.Approvals.Model.{TextCast}
use assistant_platform.Scheduler.Model

-- No volumes are written as NULL.
abbrev pub volumes_json : Json → List String → Option String
volumes_json j [] = none
volumes_json j (v ∷ vs) = some (j.write_volumes (v ∷ vs))

-- The row that `upsert_item` writes.
abbrev pub item_row : Json → ScheduledMessageMeta → Option String → ItemRow
item_row j meta session_id = record {
  id = meta.scheduled_item_id;
  agent_group_id = meta.agent_group_id;
  session_id = session_id;
  intent = meta.intent.summary;
  process_after = some (to_string meta.process_after);
  recurrence = Option.map j.write_recurrence meta.recurrence;
  status = Model.as_str meta.status;
  revision = meta.revision;
  gate_command = meta.gate_command;
  gate_onecli_agent = meta.gate_onecli_agent;
  gate_volumes = volumes_json j meta.gate_volumes;
  gate_image = meta.gate_image;
  run_as = meta.run_as;
}

abbrev pub has_item : String → ItemRow → Bool
has_item id row = str_eq row.id id

-- INSERT … ON CONFLICT(id) DO UPDATE SET, of every other column
unfoldable pub upsert_item : Json → Conn → ScheduledMessageMeta → Option String → Conn
upsert_item j c meta session_id =
    let row = item_row j meta session_id in
    record c {
      scheduled_items =
          if any (has_item row.id) c.scheduled_items
          then update (has_item row.id) (λ _. row) c.scheduled_items
          else c.scheduled_items ++ row ∷ [];
    }

-- The key (scheduled_item_id, sequence).
abbrev pub has_occurrence : String → ℕ → OccurrenceRow → Bool
has_occurrence item_id sequence row =
    str_eq row.scheduled_item_id item_id && row.sequence == sequence

abbrev pub overwrite : Occurrence → OccurrenceStatus → Option String → OccurrenceRow → OccurrenceRow
overwrite o status fired_at row = record row {
  idempotency_key = o.idempotency_key;
  scheduled_for = some o.scheduled_for;
  fired_at = fired_at;
  status = occurrence_as_str status;
}

-- A row of the occurrence without a lease.
abbrev pub occurrence_row : Occurrence → String → Option String → OccurrenceRow
occurrence_row o status fired_at = record {
  scheduled_item_id = o.scheduled_item_id;
  sequence = o.sequence;
  idempotency_key = o.idempotency_key;
  scheduled_for = some o.scheduled_for;
  fired_at = fired_at;
  status = status;
  lease_owner = none;
  lease_expires_at = none;
  attempt = 0;
}

unfoldable pub upsert_occurrence : Conn → Occurrence → OccurrenceStatus → Option EpochSecs → Conn
upsert_occurrence c o status fired_at =
    let fired_at_text = Option.map to_string fired_at in
    let key = has_occurrence o.scheduled_item_id o.sequence in
    record c {
      scheduled_occurrences =
          if any key c.scheduled_occurrences
          then update key (overwrite o status fired_at_text) c.scheduled_occurrences
          else c.scheduled_occurrences
            ++ occurrence_row o (occurrence_as_str status) fired_at_text ∷ [];
    }

unfoldable pub advance_recurrence : Conn → String → EpochSecs → Conn
advance_recurrence c id next_process_after = record c {
  scheduled_items =
      update (has_item id)
        (λ row. record row { process_after = some (to_string next_process_after) })
        c.scheduled_items;
}

-- UPDATE scheduled_items SET status WHERE id = ?1 AND the status is one of `from`
abbrev pub set_status_from : (String → Bool) → String → Conn → String → Conn
set_status_from from status c id = record c {
  scheduled_items =
      update (λ row. has_item id row && from row.status) (λ row. record row { status = status })
        c.scheduled_items;
}

unfoldable pub complete_item : Conn → String → Conn
complete_item c id = set_status_from (λ s. str_eq s "active") "completed" c id

unfoldable pub cancel_item : Conn → String → Conn
cancel_item c id = set_status_from (λ s. str_eq s "active" || str_eq s "paused") "cancelled" c id

unfoldable pub pause_item : Conn → String → Conn
pause_item c id = set_status_from (λ s. str_eq s "active") "paused" c id

unfoldable pub resume_item : Conn → String → Conn
resume_item c id = set_status_from (λ s. str_eq s "paused") "active" c id

abbrev pub read_time : Option String → Result ProjectionError (Option EpochSecs)
read_time none = ok none
read_time (some s) = do t ← ok_or (parse s) (unknown_enum "process_after" s); ok (some t)

abbrev pub read_recurrence_column :
    Json → Option String → Result ProjectionError (Option Recurrence)
read_recurrence_column j none = ok none
read_recurrence_column j (some s) = do r ← ok_or (j.read_recurrence s) json; ok (some r)

abbrev pub read_volumes_column : Json → Option String → Result ProjectionError (List String)
read_volumes_column j none = ok []
read_volumes_column j (some s) = ok_or (j.read_volumes s) json

unfoldable pub row_to_item : Json → ItemRow → Result ProjectionError ProjectedItem
row_to_item j row = do
  process_after ← read_time row.process_after
  recurrence ← read_recurrence_column j row.recurrence
  status ← ok_or (Model.parse row.status) (unknown_enum "status" row.status)
  gate_volumes ← read_volumes_column j row.gate_volumes
  ok (record {
    id = row.id;
    agent_group_id = row.agent_group_id;
    session_id = row.session_id;
    intent = row.intent;
    process_after = process_after;
    recurrence = recurrence;
    status = status;
    revision = row.revision;
    gate_command = row.gate_command;
    gate_onecli_agent = row.gate_onecli_agent;
    gate_volumes = gate_volumes;
    gate_image = row.gate_image;
    run_as = row.run_as;
  })

-- ORDER BY CAST(process_after AS INTEGER) ASC, id ASC: NULL comes first.
abbrev pub due_before : TextCast → Option String → Option String → Bool
due_before t none _ = true
due_before t (some _) none = false
due_before t (some a) (some b) = leb_ℤ (t.cast a) (t.cast b)

abbrev pub item_le : TextCast → ItemRow → ItemRow → Bool
item_le t a b =
    due_before t a.process_after b.process_after
    && (not (due_before t b.process_after a.process_after) || is_le (compare a.id b.id))

abbrev pub insert_item : TextCast → ItemRow → List ItemRow → List ItemRow
insert_item t x [] = x ∷ []
insert_item t x (y ∷ ys) =
    let rest = insert_item t x ys in if item_le t x y then x ∷ y ∷ ys else y ∷ rest

abbrev pub order_items : TextCast → List ItemRow → List ItemRow
order_items t [] = []
order_items t (x ∷ xs) = insert_item t x (order_items t xs)

abbrev pub read_items : Json → List ItemRow → Result ProjectionError (List ProjectedItem)
read_items j [] = ok []
read_items j (row ∷ rows) = do
  item ← row_to_item j row
  items ← read_items j rows
  ok (item ∷ items)

abbrev pub is_listed : ℕ → Option ScheduleStatus → ItemRow → Bool
is_listed agent_group_id none row = row.agent_group_id == agent_group_id
is_listed agent_group_id (some status) row =
    row.agent_group_id == agent_group_id && str_eq row.status (Model.as_str status)

unfoldable pub list_items :
    Json → TextCast → Conn → ℕ → Option ScheduleStatus → Result ProjectionError (List ProjectedItem)
list_items j t c agent_group_id status =
    read_items j (order_items t (select (is_listed agent_group_id status) c.scheduled_items))

abbrev pub read_status : Option ItemRow → Result ProjectionError (Option ScheduleStatus)
read_status none = ok none
read_status (some row) = do
  status ← ok_or (Model.parse row.status) (unknown_enum "status" row.status)
  ok (some status)

unfoldable pub item_status : Conn → String → Result ProjectionError (Option ScheduleStatus)
item_status c id = read_status (find (has_item id) c.scheduled_items)
