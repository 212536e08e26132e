-- ===== src/Scheduler/Projected.antt =====
-- A projected schedule is read back as it was projected.
use assistant_platform.Decimal.{in_i64}
use assistant_platform.Decimal.RoundTrip.{parse-to_string}
use assistant_platform.Decimal.RoundTrip.{parse-to_string}
use assistant_platform.Scheduler.Calendar.{Recurrence}
use mathlib.Core.Option
use assistant_platform.Base.{
  ok, find, String, ◌≡◌, refl, inl, inr, true, some, arith, ◌≢◌, false, eq_iff, Bool-cases, any,
  update, Option, none, List, [], ◌∷◌, ◌++◌, eq_refl, some-injective,
}
use assistant_platform.Scheduler.Model.{
  ScheduleStatus, active, paused, cancelled, completed, ScheduledMessageMeta,
}
use assistant_platform.Scheduler.Model
use assistant_platform.Scheduler.Tables.{Conn, ItemRow, Json, ProjectedItem}
use assistant_platform.Scheduler.Projection.{
  has_item, volumes_json, item_row, upsert_item, read_recurrence_column, read_volumes_column,
  row_to_item,
}

-- The view of a schedule that the projection keeps.
abbrev pub projected : ScheduledMessageMeta → Option String → ProjectedItem
projected m session_id = record {
  id = m.scheduled_item_id;
  agent_group_id = m.agent_group_id;
  session_id = session_id;
  intent = m.intent.summary;
  process_after = some m.process_after;
  recurrence = m.recurrence;
  status = m.status;
  revision = m.revision;
  gate_command = m.gate_command;
  gate_onecli_agent = m.gate_onecli_agent;
  gate_volumes = m.gate_volumes;
  gate_image = m.gate_image;
  run_as = m.run_as;
}

parse-as_str : (s : ScheduleStatus) → Model.parse (Model.as_str s) ≡ some s
unfolding Model.parse Model.as_str
parse-as_str active = refl
parse-as_str paused = refl
parse-as_str cancelled = refl
parse-as_str completed = refl

-- What the projection relies on in serde: the JSON of the recurrence and of the volumes is read back.
pub record ReadsBack (j : Json) (m : ScheduledMessageMeta) : Type 0 where
  pub recurrence :
      Option.map j.read_recurrence (Option.map j.write_recurrence m.recurrence)
      ≡ Option.map some m.recurrence
  pub volumes : j.read_volumes (j.write_volumes m.gate_volumes) ≡ some m.gate_volumes

read-recurrence :
    (j : Json) (r : Option Recurrence)
    → Option.map j.read_recurrence (Option.map j.write_recurrence r) ≡ Option.map some r
    → read_recurrence_column j (Option.map j.write_recurrence r) ≡ ok r
read-recurrence j none h = refl
read-recurrence j (some r) h =
    rw (some-injective (j.read_recurrence (j.write_recurrence r)) (some r) h) refl

read-volumes :
    (j : Json) (vs : List String)
    → j.read_volumes (j.write_volumes vs) ≡ some vs
    → read_volumes_column j (volumes_json j vs) ≡ ok vs
read-volumes j [] h = refl
read-volumes j (v ∷ vs) h = rw h refl

row_to_item-item_row :
    (j : Json) (m : ScheduledMessageMeta) (session_id : Option String)
    → in_i64 m.process_after ≡ true
    → ReadsBack j m
    → row_to_item j (item_row j m session_id) ≡ ok (projected m session_id)
unfolding row_to_item
row_to_item-item_row j m session_id h b =
    rw
      (
        parse-to_string m.process_after h,
        read-recurrence j m.recurrence b.recurrence,
        parse-as_str m.status,
        read-volumes j m.gate_volumes b.volumes,
      )
      refl

update_all :
    (id : String) (row : ItemRow) (rows : List ItemRow)
    → has_item id row ≡ true
    → any (has_item id) rows ≡ true
    → find (has_item id) (update (has_item id) (λ _. row) rows) ≡ some row
update_all id row [] k h = cc
update_all id row (x ∷ rows) k h = ground (arith, update_all id row rows k, k)

push_last :
    (id : String) (row : ItemRow) (rows : List ItemRow)
    → has_item id row ≡ true
    → any (has_item id) rows ≡ false
    → find (has_item id) (rows ++ row ∷ []) ≡ some row
push_last id row [] k h = rw k refl
push_last id row (x ∷ rows) k h = ground (arith, push_last id row rows k)

find-upsert :
    (j : Json) (c : Conn) (m : ScheduledMessageMeta) (session_id : Option String)
    → find (has_item m.scheduled_item_id) (upsert_item j c m session_id).scheduled_items
      ≡ some (item_row j m session_id)
unfolding upsert_item
find-upsert j c m session_id =
    elim (Bool-cases (any (has_item m.scheduled_item_id) c.scheduled_items)) [
      | inl y ↦ rw y (
          update_all m.scheduled_item_id (item_row j m session_id) c.scheduled_items
            (eq_refl m.scheduled_item_id) y)
      | inr n ↦ rw n (
          push_last m.scheduled_item_id (item_row j m session_id) c.scheduled_items
            (eq_refl m.scheduled_item_id) n)
    ]

update_other :
    (id other : String) (row : ItemRow) (rows : List ItemRow)
    → has_item other row ≡ false
    → other ≢ id
    → find (has_item other) (update (has_item id) (λ _. row) rows) ≡ find (has_item other) rows
update_other id other row [] k ne = refl
update_other id other row (x ∷ rows) k ne =
    ground (arith, update_other id other row rows k ne, eq_iff x.id id, eq_iff x.id other, k)

push_other :
    (other : String) (row : ItemRow) (rows : List ItemRow)
    → has_item other row ≡ false
    → find (has_item other) (rows ++ row ∷ []) ≡ find (has_item other) rows
push_other other row [] k = rw k refl
push_other other row (x ∷ rows) k = ground (arith, push_other other row rows k)

find-upsert_other :
    (j : Json) (c : Conn) (m : ScheduledMessageMeta) (session_id : Option String) (other : String)
    → other ≢ m.scheduled_item_id
    → find (has_item other) (upsert_item j c m session_id).scheduled_items
      ≡ find (has_item other) c.scheduled_items
unfolding upsert_item
find-upsert_other j c m session_id other ne =
    let miss : has_item other (item_row j m session_id) ≡ false =
      ground (arith, eq_iff m.scheduled_item_id other) in
    elim (Bool-cases (any (has_item m.scheduled_item_id) c.scheduled_items)) [
      | inl y ↦ rw y (
          update_other m.scheduled_item_id other (item_row j m session_id) c.scheduled_items miss
            ne)
      | inr n ↦ rw n (push_other other (item_row j m session_id) c.scheduled_items miss)
    ]

-- A schedule whose time is an `i64`, and whose JSON serde reads back, is read back from the projection
-- as it was projected, whatever was projected before, and every other row is found as before.
pub row_to_item-upsert_item :
    (j : Json) (c : Conn) (m : ScheduledMessageMeta) (session_id : Option String)
    → in_i64 m.process_after ≡ true
    → ReadsBack j m
    → ((row : ItemRow) × (find
            (has_item m.scheduled_item_id)
            (upsert_item j c m session_id).scheduled_items
          ≡ some row)
        × (row_to_item j row ≡ ok (projected m session_id)))
      × ((other : String)
          → other ≢ m.scheduled_item_id
          → find (has_item other) (upsert_item j c m session_id).scheduled_items
            ≡ find (has_item other) c.scheduled_items)
row_to_item-upsert_item j c m session_id h b = (
  (item_row j m session_id, find-upsert j c m session_id, row_to_item-item_row j m session_id h b),
  find-upsert_other j c m session_id,
)
