-- ===== src/Scheduler/Aligned.antt =====
-- What a repair leaves: no occurrence counts as fired that the source has not fired.
use native.Mathlib.Numerals.{unary_clauses}
use assistant_platform.Base.{
  if◌then◌else◌, Bool-cases, count_where, any, update, ℕ, String, ◌≡◌, refl, ap, inl, inr, true,
  false, List, [], ◌∷◌, arith, ltb, ◌∙◌, All, select, pos, any-count_where, update-none, ◌^◌, ◌<◌,
  sym, ◌++◌,
}
use assistant_platform.Scheduler.Model.{Names, ScheduledMessageMeta, new_occurrence}
use assistant_platform.Scheduler.Tables.{OccurrenceRow, Conn, Json}
use assistant_platform.Scheduler.Projection.{has_occurrence, upsert_item}
use assistant_platform.Scheduler.Repair.{restored_row, restore_fired, unfire, reconcile_item}
use assistant_platform.Graph.Store.{as_i64}
use assistant_platform.Scheduler.Ahead.{
  is_ahead, is_fired_row, is_of_other, IsAligned, phantom-ahead, count-unfired, none_ahead,
  count-restored, any-restored, any-unfired, select-restored, select-unfired,
}

-- Every row of the occurrence has fired.
abbrev AllFired : String → ℕ → List OccurrenceRow → Type 0
AllFired id n rows = All (λ row. has_occurrence id n row ≡ true → row.status ≡ "fired") rows

refired-AllFired :
    (id : String) (n : ℕ) (rows : List OccurrenceRow)
    → AllFired id n (update (has_occurrence id n) (λ row. record row { status = "fired" }) rows)
refired-AllFired id n [] = tt
refired-AllFired id n (x ∷ rows) = elim (Bool-cases (has_occurrence id n x)) [
  | inl y ↦ rw y (λ h. refl, refired-AllFired id n rows)
  | inr f ↦ rw f (λ h. absurd (ground (arith, f, h)), refired-AllFired id n rows)
]

appended-AllFired :
    (id : String) (n : ℕ) (key : String) (rows : List OccurrenceRow)
    → any (has_occurrence id n) rows ≡ false
    → AllFired id n (rows ++ restored_row id n key ∷ [])
appended-AllFired id n key [] h = (λ _. refl, tt)
appended-AllFired id n key (x ∷ rows) h =
    (λ g. absurd (ground (arith, g, h)), appended-AllFired id n key rows (ground (arith, h)))

restored-AllFired :
    (names : Names) (id : String) (n : ℕ) (rows : List OccurrenceRow)
    → AllFired id n (restore_fired names id n rows)
unfolding new_occurrence
restored-AllFired names id n rows = elim (Bool-cases (any (has_occurrence id n) rows)) [
  | inl y ↦ rw y (refired-AllFired id n rows)
  | inr f ↦ rw f (appended-AllFired id n (names.occurrence_idempotency_key id n) rows f)
]

unfired-AllFired :
    (id : String) (n : ℕ) (rows : List OccurrenceRow)
    → AllFired id n rows
    → AllFired id n (update (is_ahead id n) unfire rows)
unfired-AllFired id n [] k = tt
unfired-AllFired id n (x ∷ rows) k = elim (Bool-cases (is_ahead id n x)) [
  | inl y ↦ rw y (λ h. absurd (ground (arith, y, h)), unfired-AllFired id n rows k.1)
  | inr f ↦ rw f (k.0, unfired-AllFired id n rows k.1)
]

refire-same :
    (id : String) (n : ℕ) (rows : List OccurrenceRow)
    → AllFired id n rows
    → update (has_occurrence id n) (λ row. record row { status = "fired" }) rows ≡ rows
refire-same id n [] k = refl
refire-same id n (x ∷ rows) k = elim (Bool-cases (has_occurrence id n x)) [
  | inl y ↦ rw y (λ i. record x { status = (sym (k.0 y)) i } ∷ refire-same id n rows k.1 i)
  | inr f ↦ rw f (ap (λ r. x ∷ r) (refire-same id n rows k.1))
]

any-fired :
    (id : String) (n : ℕ) (rows : List OccurrenceRow)
    → any (is_fired_row id n) rows ≡ true
    → any (has_occurrence id n) rows ≡ true
any-fired id n [] h = h
any-fired id n (x ∷ rows) h = ground (arith, any-fired id n rows)

restore-same :
    (names : Names) (id : String) (n : ℕ) (rows : List OccurrenceRow)
    → any (is_fired_row id n) rows ≡ true
    → AllFired id n rows
    → restore_fired names id n rows ≡ rows
restore-same names id n rows h k = rw (any-fired id n rows h) (refire-same id n rows k)

unfire-same :
    (id : String) (n : ℕ) (rows : List OccurrenceRow)
    → count_where (is_ahead id n) rows ≡ 0
    → update (is_ahead id n) unfire rows ≡ rows
unfire-same id n rows h =
    update-none (is_ahead id n) unfire rows
      (ground (arith, any-count_where (is_ahead id n) rows, h))

-- The rows that a repair leaves, from those it finds.
abbrev repaired : Names → String → ℕ → List OccurrenceRow → List OccurrenceRow
repaired names id n rows =
    update (is_ahead id n) unfire (if ltb 0 n then restore_fired names id n rows else rows)

abbrev Repairs : Names → String → ℕ → List OccurrenceRow → Type 0
Repairs names id n rows =
    IsAligned id n (repaired names id n rows)
    × (count_where (is_ahead id n) (if ltb 0 n then restore_fired names id n rows else rows)
        ≡ count_where (is_ahead id n) rows)
    × (select (is_of_other id) (repaired names id n rows) ≡ select (is_of_other id) rows)
    × (repaired names id n (repaired names id n rows) ≡ repaired names id n rows)

repaired-Repairs :
    (names : Names) (id : String) (n : ℕ) (rows : List OccurrenceRow) → Repairs names id n rows
repaired-Repairs names id n rows = elim (Bool-cases (ltb 0 n)) [
  | inl y ↦
      let first = restore_fired names id n rows in
      let last = any-unfired id n first (any-restored names id n rows) in
      let all = unfired-AllFired id n first (restored-AllFired names id n rows) in
      rw y (
        (
          none_ahead id n (update (is_ahead id n) unfire first) (count-unfired id n first),
          inr last,
        ),
        count-restored names id n rows,
        select-unfired id n first ∙ select-restored names id n rows,
        ap (update (is_ahead id n) unfire)
              (restore-same names id n (update (is_ahead id n) unfire first) last all)
            ∙ unfire-same id n (update (is_ahead id n) unfire first) (count-unfired id n first),
      )
  | inr f ↦ rw f (
    (
      none_ahead id n (update (is_ahead id n) unfire rows) (count-unfired id n rows),
      inl (ground arith),
    ),
    refl,
    select-unfired id n rows,
    unfire-same id n (update (is_ahead id n) unfire rows) (count-unfired id n rows),
  )
]

clear :
    (names : Names) (id : String) (n : ℕ) (rows : List OccurrenceRow)
    → count_where (is_ahead id n) (repaired names id n rows) ≡ 0
clear names id n rows = count-unfired id n (if ltb 0 n then restore_fired names id n rows else rows)

as_i64-small : (n : ℕ) → n < 2 ^ 63 → as_i64 n ≡ pos n
unfolding as_i64
as_i64-small n h = ground arith

module _ (names : Names) (j : Json) (c : Conn) (meta : ScheduledMessageMeta) (session_id : String)
    (h : meta.occurrence_seq < 2 ^ 63) where
  reconciled :
      ((reconcile_item names j c meta session_id).0
        ≡ count_where (is_ahead meta.scheduled_item_id meta.occurrence_seq) (
            if ltb 0 meta.occurrence_seq
            then restore_fired names meta.scheduled_item_id meta.occurrence_seq
                c.scheduled_occurrences
            else c.scheduled_occurrences))
      × ((reconcile_item names j c meta session_id).1.scheduled_occurrences
          ≡ repaired names meta.scheduled_item_id meta.occurrence_seq c.scheduled_occurrences)
  unfolding reconcile_item upsert_item
  reconciled =
      rw
        (
          as_i64-small meta.occurrence_seq h,
          phantom-ahead meta.scheduled_item_id meta.occurrence_seq,
        )
        (simp unary_clauses (refl, refl))

-- With a sequence number that fits in `i64`: after a repair of a schedule no occurrence of it beyond
-- the number that the source has fired counts as fired, and the one of that number does, if it is not
-- 0. The answer is how many counted as fired wrongly before. The occurrences of other schedules stay
-- as they were, and a second repair answers 0 and leaves all occurrences as they are.
pub reconcile_item-aligns :
    (names : Names) (j : Json) (c : Conn) (meta : ScheduledMessageMeta) (session_id : String)
    → meta.occurrence_seq < 2 ^ 63
    → let id = meta.scheduled_item_id in
      let n = meta.occurrence_seq in
      let (count, c') = reconcile_item names j c meta session_id in
      let (again, c'') = reconcile_item names j c' meta session_id in
      IsAligned id n c'.scheduled_occurrences
      × (count ≡ count_where (is_ahead id n) c.scheduled_occurrences)
      × (select (is_of_other id) c'.scheduled_occurrences
          ≡ select (is_of_other id) c.scheduled_occurrences)
      × (again ≡ 0)
      × (c''.scheduled_occurrences ≡ c'.scheduled_occurrences)
reconcile_item-aligns names j c meta session_id h =
    let id = meta.scheduled_item_id in
    let n = meta.occurrence_seq in
    let rows = c.scheduled_occurrences in
    let c' = (reconcile_item names j c meta session_id).1 in
    let first = reconciled names j c meta session_id h in
    let second = reconciled names j c' meta session_id h in
    let left = repaired names id n rows in
    let r = repaired-Repairs names id n rows in
    let s = repaired-Repairs names id n left in
    rw (second.0, second.1, first.0, first.1) (r.0, r.1, r.2, s.1 ∙ clear names id n rows, r.3)
