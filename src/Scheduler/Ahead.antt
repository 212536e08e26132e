-- ===== src/Scheduler/Ahead.antt =====
-- The statements of a repair on the rows: what fires, what is taken back, and what is left alone.
use assistant_platform.Base.{
  if◌then◌else◌, Bool-cases, count_where, any, update, any-append, count_where-append, ℕ, ◌+◌,
  String, ◌≡◌, refl, ap, inl, inr, Bool, true, false, ◌&&◌, List, [], ◌∷◌, arith, str_eq, eq_refl,
  ltb, ◌⊎◌, ◌==◌, All, select, pos, select-append, ◌<◌, ◌≢◌, not, append-nil, eq_iff,
}
use assistant_platform.Scheduler.Model.{Names, new_occurrence}
use assistant_platform.Scheduler.Tables.{OccurrenceRow}
use assistant_platform.Scheduler.Projection.{has_occurrence}
use assistant_platform.Scheduler.Repair.{restored_row, restore_fired, is_phantom, unfire}

-- A row of the item that has fired, with a number that the source has not reached.
abbrev pub is_ahead : String → ℕ → OccurrenceRow → Bool
is_ahead id n row =
    str_eq row.scheduled_item_id id && ltb n row.sequence && str_eq row.status "fired"

-- A row of the occurrence that has fired.
abbrev pub is_fired_row : String → ℕ → OccurrenceRow → Bool
is_fired_row id n row =
    str_eq row.scheduled_item_id id && row.sequence == n && str_eq row.status "fired"

abbrev pub is_of_other : String → OccurrenceRow → Bool
is_of_other id row = not (str_eq row.scheduled_item_id id)

-- No row of the item beyond the number has fired, and that of the number has, if it is not 0.
abbrev pub IsAligned : String → ℕ → List OccurrenceRow → Type 0
IsAligned id n rows =
    All (λ row. row.scheduled_item_id ≡ id → n < row.sequence → row.status ≢ "fired") rows
    × ((n ≡ 0) ⊎ (any (is_fired_row id n) rows ≡ true))

pub phantom-ahead : (id : String) (n : ℕ) → is_phantom id (pos n) ≡ is_ahead id n
phantom-ahead id n =
    let same : (row : OccurrenceRow) → is_phantom id (pos n) row ≡ is_ahead id n row =
      λ row. ground arith in
    λ i row. same row i

pub count-unfired :
    (id : String) (n : ℕ) (rows : List OccurrenceRow)
    → count_where (is_ahead id n) (update (is_ahead id n) unfire rows) ≡ 0
count-unfired id n [] = refl
count-unfired id n (x ∷ rows) = elim (Bool-cases (is_ahead id n x)) [
  | inl y ↦ rw y (ground (arith, count-unfired id n rows))
  | inr f ↦ rw (f, f) (omega (arith, count-unfired id n rows))
]

pub none_ahead :
    (id : String) (n : ℕ) (rows : List OccurrenceRow)
    → count_where (is_ahead id n) rows ≡ 0
    → All (λ row. row.scheduled_item_id ≡ id → n < row.sequence → row.status ≢ "fired") rows
none_ahead id n [] h = tt
none_ahead id n (x ∷ rows) h = (
  λ e lt s.
      let a = (eq_iff x.scheduled_item_id id).1 e in
      let b = (eq_iff x.status "fired").1 s in ground arith,
  none_ahead id n rows (ground arith),
)

-- The occurrence that has fired last is not beyond what has fired.
pub last-not_ahead :
    (id : String) (n : ℕ) (x : OccurrenceRow)
    → has_occurrence id n x ≡ true
    → ltb n x.sequence ≡ false
last-not_ahead id n x h = ground arith

pub count-refired :
    (id : String) (n : ℕ) (rows : List OccurrenceRow)
    → count_where
        (is_ahead id n)
        (update (has_occurrence id n) (λ row. record row { status = "fired" }) rows)
      ≡ count_where (is_ahead id n) rows
count-refired id n [] = refl
count-refired id n (x ∷ rows) = elim (Bool-cases (has_occurrence id n x)) [
  | inl y ↦
      let miss = last-not_ahead id n x y in rw (y, miss) (ground (arith, count-refired id n rows))
  | inr f ↦ rw f (ap (λ k. (if is_ahead id n x then 1 else 0) + k) (count-refired id n rows))
]

pub count-restored :
    (names : Names) (id : String) (n : ℕ) (rows : List OccurrenceRow)
    → count_where (is_ahead id n) (restore_fired names id n rows) ≡ count_where (is_ahead id n) rows
unfolding new_occurrence
count-restored names id n rows = elim (Bool-cases (any (has_occurrence id n) rows)) [
  | inl y ↦ rw y (count-refired id n rows)
  | inr f ↦
      rw
        (
          f,
          count_where-append (is_ahead id n) rows
              (restored_row id n (names.occurrence_idempotency_key id n) ∷ []),
        )
        (ground arith)
]

pub any-refired :
    (id : String) (n : ℕ) (rows : List OccurrenceRow)
    → any (has_occurrence id n) rows ≡ true
    → any
        (is_fired_row id n)
        (update (has_occurrence id n) (λ row. record row { status = "fired" }) rows)
      ≡ true
any-refired id n [] h = h
any-refired id n (x ∷ rows) h = elim (Bool-cases (has_occurrence id n x)) [
  | inl y ↦ rw y (ground (arith, y))
  | inr f ↦ rw f (ground (arith, any-refired id n rows, f))
]

pub any-restored :
    (names : Names) (id : String) (n : ℕ) (rows : List OccurrenceRow)
    → any (is_fired_row id n) (restore_fired names id n rows) ≡ true
unfolding new_occurrence
any-restored names id n rows = elim (Bool-cases (any (has_occurrence id n) rows)) [
  | inl y ↦ rw y (any-refired id n rows y)
  | inr f ↦
      rw
        (
          f,
          any-append (is_fired_row id n) rows
              (restored_row id n (names.occurrence_idempotency_key id n) ∷ []),
          eq_refl id,
        )
        (ground arith)
]

pub any-unfired :
    (id : String) (n : ℕ) (rows : List OccurrenceRow)
    → any (is_fired_row id n) rows ≡ true
    → any (is_fired_row id n) (update (is_ahead id n) unfire rows) ≡ true
any-unfired id n [] h = h
any-unfired id n (x ∷ rows) h = elim (Bool-cases (is_fired_row id n x)) [
  | inl y ↦ let kept : is_ahead id n x ≡ false = ground arith in rw (kept, y) refl
  | inr f ↦ ground (arith, any-unfired id n rows)
]

pub select-update :
    (p q : OccurrenceRow → Bool) (f : OccurrenceRow → OccurrenceRow) (rows : List OccurrenceRow)
    → ((x : OccurrenceRow) → q x ≡ true → p x ≡ false)
    → ((x : OccurrenceRow) → p (f x) ≡ p x)
    → select p (update q f rows) ≡ select p rows
select-update p q f [] h k = refl
select-update p q f (x ∷ rows) h k = elim (Bool-cases (q x)) [
  | inl y ↦ rw (y, k x, h x y) (select-update p q f rows h k)
  | inr n ↦ rw n (ap (λ r. if p x then x ∷ r else r) (select-update p q f rows h k))
]

pub select-restored :
    (names : Names) (id : String) (n : ℕ) (rows : List OccurrenceRow)
    → select (is_of_other id) (restore_fired names id n rows) ≡ select (is_of_other id) rows
unfolding new_occurrence
select-restored names id n rows = elim (Bool-cases (any (has_occurrence id n) rows)) [
  | inl y ↦ rw y (
      select-update (is_of_other id) (has_occurrence id n) (λ row. record row { status = "fired" })
        rows (λ x h. ground arith) (λ x. refl))
  | inr f ↦
      rw
        (
          f,
          select-append (is_of_other id) rows
              (restored_row id n (names.occurrence_idempotency_key id n) ∷ []),
          eq_refl id,
          append-nil (select (is_of_other id) rows),
        )
        refl
]

pub select-unfired :
    (id : String) (n : ℕ) (rows : List OccurrenceRow)
    → select (is_of_other id) (update (is_ahead id n) unfire rows) ≡ select (is_of_other id) rows
select-unfired id n rows =
    select-update (is_of_other id) (is_ahead id n) unfire rows (λ x h. ground arith) (λ x. refl)
