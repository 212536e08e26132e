-- ===== src/Scheduler/Repair.antt =====
-- crates/assistant-scheduler/src/repair.rs: the reconciliation of one item.
use assistant_platform.Graph.Store.{as_i64}
use assistant_platform.Base.{
  if◌then◌else◌, count_where, any, update, pos, ℕ, String, Bool, ◌&&◌, none, some, List, [], ◌∷◌,
  ◌++◌, str_eq, ℤ, ltb_ℤ,
}
use assistant_platform.Scheduler.Model.{Names, new_occurrence, ScheduledMessageMeta}
use assistant_platform.Scheduler.Tables.{Conn, OccurrenceRow, Json}
use assistant_platform.Scheduler.Projection.{upsert_item, has_occurrence}

-- The row that the first statement inserts: its scheduled time is NULL.
abbrev pub restored_row : String → ℕ → String → OccurrenceRow
restored_row item_id sequence key = record {
  scheduled_item_id = item_id;
  sequence = sequence;
  idempotency_key = key;
  scheduled_for = none;
  fired_at = none;
  status = "fired";
  lease_owner = none;
  lease_expires_at = none;
  attempt = 0;
}

abbrev pub restore_fired : Names → String → ℕ → List OccurrenceRow → List OccurrenceRow
restore_fired names item_id sequence rows =
    if any (has_occurrence item_id sequence) rows
    then update (has_occurrence item_id sequence) (λ row. record row { status = "fired" }) rows
    else rows
      ++ restored_row item_id sequence
          (new_occurrence names item_id sequence (pos 0)).idempotency_key
        ∷ []

abbrev pub is_phantom : String → ℤ → OccurrenceRow → Bool
is_phantom item_id fired_through row =
    str_eq row.scheduled_item_id item_id
    && ltb_ℤ fired_through (pos row.sequence)
    && str_eq row.status "fired"

abbrev pub unfire : OccurrenceRow → OccurrenceRow
unfire row = record row { status = "pending"; fired_at = none }

-- The cast `as i64` wraps. Where it does not, the sequence that is stored is the one that was cast.
unfoldable pub reconcile_item : Names → Json → Conn → ScheduledMessageMeta → String → ℕ × Conn
reconcile_item names j c meta session_id =
    let c1 = upsert_item j c meta (some session_id) in
    let item_id = meta.scheduled_item_id in
    let fired_through = as_i64 meta.occurrence_seq in
    let rows =
      if ltb_ℤ (pos 0) fired_through
      then restore_fired names item_id meta.occurrence_seq c1.scheduled_occurrences
      else c1.scheduled_occurrences in
    (
      count_where (is_phantom item_id fired_through) rows,
      record c1 { scheduled_occurrences = update (is_phantom item_id fired_through) unfire rows },
    )
