-- ===== src/Scheduler/Lease.antt =====
-- crates/assistant-scheduler/src/lease.rs and the query of readiness.rs.
use mathlib.Core.Option
use Prim.Native.String.{compare}
use Prim.Native.Nat.{max}
use text.Mathlib.Text.{is_le}
use assistant_platform.Base.{
  ltb, ◌==◌, if◌then◌else◌, is_some, select, find, count_where, any, update, order_desc, ℤ, pos,
  leb_ℤ, add_i64, ℕ, suc, String, Bool, true, false, not, ◌&&◌, ◌||◌, Option, none, some, List, [],
  ◌∷◌, ◌++◌, map, str_eq,
}
use assistant_platform.Decimal.{to_string}
use assistant_platform.Approvals.Model.{TextCast}
use assistant_platform.Scheduler.Model.{Occurrence, EpochSecs, Names, new_occurrence}
use assistant_platform.Scheduler.Tables.{Conn, ItemRow, OccurrenceRow}
use assistant_platform.Scheduler.Projection.{has_occurrence, occurrence_row}

pub record Lease : Type 0 where
  pub occurrence : Occurrence
  pub owner : String
  pub expires_at : EpochSecs
  pub attempt : ℕ

abbrev pub is_due : TextCast → EpochSecs → ItemRow → Bool
is_due t now row =
    str_eq row.status "active"
    && elim row.process_after [ none ↦ false | some s ↦ leb_ℤ (t.cast s) now ]

abbrev pub cast_or_zero : TextCast → Option String → EpochSecs
cast_or_zero t none = pos 0
cast_or_zero t (some s) = t.cast s

-- ORDER BY CAST(process_after AS INTEGER) ASC, id ASC
abbrev pub due_le : String × EpochSecs → String × EpochSecs → Bool
due_le a b = leb_ℤ a.1 b.1 && (not (leb_ℤ b.1 a.1) || is_le (compare a.0 b.0))

abbrev pub insert_due : String × EpochSecs → List (String × EpochSecs) → List (String × EpochSecs)
insert_due x [] = x ∷ []
insert_due x (y ∷ ys) = let rest = insert_due x ys in if due_le x y then x ∷ y ∷ ys else y ∷ rest

abbrev pub order_due : List (String × EpochSecs) → List (String × EpochSecs)
order_due [] = []
order_due (x ∷ xs) = insert_due x (order_due xs)

unfoldable pub due_items : TextCast → Conn → EpochSecs → List (String × EpochSecs)
due_items t c now = order_due (
    map (λ row. (row.id, cast_or_zero t row.process_after))
      (select (is_due t now) c.scheduled_items))

abbrev pub is_pending_of : String → OccurrenceRow → Bool
is_pending_of item_id row = str_eq row.scheduled_item_id item_id && str_eq row.status "pending"

abbrev pub same_time : EpochSecs → Option EpochSecs → Bool
same_time t none = false
same_time t (some u) = leb_ℤ t u && leb_ℤ u t

abbrev pub has_fired_at : String → EpochSecs → OccurrenceRow → Bool
has_fired_at item_id process_after row =
    str_eq row.scheduled_item_id item_id
    && str_eq row.status "fired"
    && same_time process_after row.scheduled_for

-- The first row of ORDER BY sequence DESC
abbrev pub latest_pending : String → List OccurrenceRow → Option OccurrenceRow
latest_pending item_id rows =
    find (λ _. true) (order_desc (λ row. row.sequence) (select (is_pending_of item_id) rows))

-- COALESCE(MAX(sequence), 0)
abbrev pub max_sequence : String → List OccurrenceRow → ℕ
max_sequence item_id [] = 0
max_sequence item_id (row ∷ rows) =
    let rest = max_sequence item_id rows in
    if str_eq row.scheduled_item_id item_id then max row.sequence rest else rest

abbrev pub unwrap_or : Option EpochSecs → EpochSecs → EpochSecs
unwrap_or none t = t
unwrap_or (some u) t = u

unfoldable pub next_claimable_occurrence : Names → Conn → String → EpochSecs → Option Occurrence
next_claimable_occurrence names c item_id process_after =
    elim (latest_pending item_id c.scheduled_occurrences) [
      | some row ↦
          some
            (new_occurrence names item_id row.sequence (unwrap_or row.scheduled_for process_after))
      | none ↦
          if any (has_fired_at item_id process_after) c.scheduled_occurrences
          then none
          else some (
              new_occurrence names item_id (suc (max_sequence item_id c.scheduled_occurrences))
                process_after)
    ]

-- INSERT … ON CONFLICT DO NOTHING
abbrev pub ensure_row : Occurrence → List OccurrenceRow → List OccurrenceRow
ensure_row o rows =
    if any (has_occurrence o.scheduled_item_id o.sequence) rows
    then rows
    else rows ++ occurrence_row o "pending" none ∷ []

-- lease_expires_at <= now, which is not true of NULL
abbrev pub has_lapsed : EpochSecs → Option EpochSecs → Bool
has_lapsed now none = false
has_lapsed now (some expires) = leb_ℤ expires now

-- status = 'pending' AND (lease_owner IS NULL OR lease_expires_at <= now)
abbrev pub is_free : EpochSecs → OccurrenceRow → Bool
is_free now row =
    str_eq row.status "pending"
    && (not (is_some row.lease_owner) || has_lapsed now row.lease_expires_at)

abbrev pub is_claimable : Occurrence → EpochSecs → OccurrenceRow → Bool
is_claimable o now row = has_occurrence o.scheduled_item_id o.sequence row && is_free now row

abbrev pub set_lease : String → EpochSecs → OccurrenceRow → OccurrenceRow
set_lease owner expires_at row = record row {
  lease_owner = some owner;
  lease_expires_at = some expires_at;
  attempt = suc row.attempt;
}

abbrev pub claimed_rows : Occurrence → String → EpochSecs → EpochSecs → Conn → List OccurrenceRow
claimed_rows o owner now expires_at c =
    update (is_claimable o now) (set_lease owner expires_at) (ensure_row o c.scheduled_occurrences)

-- The last SELECT, of the row that the UPDATE has just written.
abbrev pub read_lease : Occurrence → String → EpochSecs → Option OccurrenceRow → Option Lease
read_lease o owner expires_at none = none
read_lease o owner expires_at (some row) =
    some (record { occurrence = o; owner = owner; expires_at = expires_at; attempt = row.attempt })

unfoldable pub acquire_lease : Conn → Occurrence → String → EpochSecs → ℤ → Option Lease × Conn
acquire_lease c o owner now lease_ttl_secs =
    let expires_at = add_i64 now lease_ttl_secs in
    let rows = claimed_rows o owner now expires_at c in
    (
      if count_where (is_claimable o now) (ensure_row o c.scheduled_occurrences) == 0
          then none
          else read_lease o owner expires_at
              (find (has_occurrence o.scheduled_item_id o.sequence) rows),
      record c { scheduled_occurrences = rows },
    )

abbrev pub push_lease : Option Lease → List Lease → List Lease
push_lease none leases = leases
push_lease (some lease) leases = lease ∷ leases

-- The `for` loop over the due items.
unfoldable pub claim_each :
    Names → Conn → EpochSecs → String → ℤ → List (String × EpochSecs) → List Lease × Conn
claim_each names c now owner ttl [] = ([], c)
claim_each names c now owner ttl (item ∷ due) =
    let go_on : Conn → List Lease × Conn = λ c'. claim_each names c' now owner ttl due in
    elim (next_claimable_occurrence names c item.0 item.1) [
      | none ↦ go_on c
      | some o ↦
          let claim = acquire_lease c o owner now ttl in
          let later = go_on claim.1 in (push_lease claim.0 later.0, later.1)
    ]

unfoldable pub claim_due : Names → TextCast → Conn → EpochSecs → String → ℤ → List Lease × Conn
claim_due names t c now owner lease_ttl_secs =
    claim_each names c now owner lease_ttl_secs (due_items t c now)

abbrev pub set_fired : EpochSecs → OccurrenceRow → OccurrenceRow
set_fired fired_at row = record row {
  status = "fired";
  fired_at = some (to_string fired_at);
  lease_owner = none;
  lease_expires_at = none;
}

unfoldable pub complete_occurrence : Conn → Occurrence → EpochSecs → Conn
complete_occurrence c o fired_at = record c {
  scheduled_occurrences =
      update (has_occurrence o.scheduled_item_id o.sequence) (set_fired fired_at)
        c.scheduled_occurrences;
}

unfoldable pub link_run_to_occurrence : Conn → String → Occurrence → Bool × Conn
link_run_to_occurrence c run_id o = (
  ltb 0 (count_where (λ r. str_eq r.id run_id) c.container_runs),
  record c {
    container_runs =
        update (λ r. str_eq r.id run_id)
          (λ r. record r { scheduled_message_id = some o.idempotency_key }) c.container_runs;
  },
)

abbrev pub is_message : String → Option String → Bool
is_message key none = false
is_message key (some k) = str_eq k key

unfoldable pub run_for_occurrence : Conn → String → Option String
run_for_occurrence c idempotency_key =
    Option.map (λ r. r.id)
      (find (λ r. is_message idempotency_key r.scheduled_message_id) c.container_runs)

-- The count of `no_work_stuck_past_lease`.
unfoldable pub stuck_past_lease : Conn → EpochSecs → ℕ
stuck_past_lease c now =
    count_where (λ row. str_eq row.status "pending" && has_lapsed now row.lease_expires_at)
      c.scheduled_occurrences
