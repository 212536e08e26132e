-- ===== src/Scheduler/Shut.antt =====
-- An occurrence that has fired, or that is leased, is not given to anybody else.
use assistant_platform.Scheduler.Run.{Call, sweeps, acquires}
use assistant_platform.Base.{
  is_some, All, any, ltb_ℤ, leb_ℤ, ℕ, String, ◌≡◌, refl, Bool, true, false, not, ◌&&◌, ◌||◌, Option,
  none, some, List, arith, str_eq, ◌==◌, Bool-cases, count_where, update, any-append, All-append,
  any-update, ◌∙◌, inl, inr, [], ◌∷◌, ℤ, add_i64, eq_iff, if◌then◌else◌,
}
use assistant_platform.Scheduler.Model.{EpochSecs, Occurrence}
use assistant_platform.Scheduler.Tables.{OccurrenceRow, Conn}
use assistant_platform.Scheduler.Projection.{has_occurrence, occurrence_row}
use assistant_platform.Scheduler.Lease.{
  is_free, Lease, ensure_row, is_claimable, set_lease, acquire_lease, push_lease, read_lease,
  set_fired,
}

-- A row that is not free before `limit`, or ever.
abbrev pub is_shut : Option EpochSecs → OccurrenceRow → Bool
is_shut none row = not (str_eq row.status "pending")
is_shut (some limit) row =
    not (str_eq row.status "pending")
    || is_some row.lease_owner && elim row.lease_expires_at [ none ↦ true | some e ↦ leb_ℤ limit e ]

abbrev pub Before : EpochSecs → Option EpochSecs → Type 0
Before now none = Unit
Before now (some limit) = ltb_ℤ now limit ≡ true

-- The calls that claim do so before the limit.
abbrev pub CallBefore : Option EpochSecs → Call → Type 0
CallBefore limit (sweeps now owner ttl) = Before now limit
CallBefore limit (acquires o owner now ttl) = Before now limit
CallBefore limit _ = Unit

shut_not_free :
    (limit : Option EpochSecs) (now : EpochSecs) (row : OccurrenceRow)
    → Before now limit
    → is_shut limit row ≡ true
    → is_free now row ≡ false
shut_not_free none now row b h = ground arith
shut_not_free (some limit) now row b h = go row.lease_expires_at refl
  where
    go : (e : Option EpochSecs) → row.lease_expires_at ≡ e → is_free now row ≡ false
    go none e = ground arith
    go (some x) e = ground arith

pub fired_is_shut :
    (limit : Option EpochSecs) (row : OccurrenceRow) (fired_at : EpochSecs)
    → is_shut limit (set_fired fired_at row) ≡ true
fired_is_shut none row fired_at = refl
fired_is_shut (some limit) row fired_at = refl

-- Every row of the occurrence is shut, and there is one.
pub record Shut (item_id : String) (sequence : ℕ) (limit : Option EpochSecs)
    (rows : List OccurrenceRow) : Type 0 where
  pub present : any (has_occurrence item_id sequence) rows ≡ true
  pub shut : All (λ x. has_occurrence item_id sequence x ≡ true → is_shut limit x ≡ true) rows

pub All-update_if :
    (P : OccurrenceRow → Type 0) (q : OccurrenceRow → Bool) (f : OccurrenceRow → OccurrenceRow)
    (rows : List OccurrenceRow)
    → ((x : OccurrenceRow) → q x ≡ true → P x → P (f x))
    → All P rows
    → All P (update q f rows)
All-update_if P q f [] k h = tt
All-update_if P q f (x ∷ rows) k h = elim (Bool-cases (q x)) [
  | inl y ↦ (rw y (k x y h.0), All-update_if P q f rows k h.1)
  | inr n ↦ (rw n h.0, All-update_if P q f rows k h.1)
]

pub same_identity : (a b : String) (m n : ℕ) → (str_eq a b && m == n) ≡ true → (a ≡ b) × (m ≡ n)
same_identity a b m n h = ((eq_iff a b).0 (ground arith), ground arith)

module _ (item_id : String) (sequence : ℕ) (limit : Option EpochSecs) where
  -- The leases are of other occurrences.
  abbrev pub NotOf : List Lease → Type 0
  NotOf leases =
      All
        (λ l.
          (str_eq l.occurrence.scheduled_item_id item_id && l.occurrence.sequence == sequence)
          ≡ false)
        leases

  ensure-Shut :
      (o : Occurrence) (rows : List OccurrenceRow)
      → Shut item_id sequence limit rows
      → Shut item_id sequence limit (ensure_row o rows)
  ensure-Shut o rows h =
      elim (Bool-cases (any (has_occurrence o.scheduled_item_id o.sequence) rows)) [
        | inl y ↦ rw y h
        | inr n ↦ rw n (record {
          present =
              rw
                (
                  any-append (has_occurrence item_id sequence) rows
                      (occurrence_row o "pending" none ∷ []),
                  h.present,
                )
                refl;
          shut = All-append _ rows (occurrence_row o "pending" none ∷ []) h.shut (
            (λ k.
                let (a, b) = same_identity o.scheduled_item_id item_id o.sequence sequence k in
                let taken : any (has_occurrence o.scheduled_item_id o.sequence) rows ≡ true =
                  rw (a, b) (h.present) in
                absurd (ground (arith, taken, n))),
            tt,
          );
        })
      ]

  claim-Shut :
      (o : Occurrence) (owner : String) (now expires : EpochSecs) (rows : List OccurrenceRow)
      → Before now limit
      → Shut item_id sequence limit rows
      → Shut item_id sequence limit (update (is_claimable o now) (set_lease owner expires) rows)
  claim-Shut o owner now expires rows b h = record {
    present =
        any-update (has_occurrence item_id sequence) (is_claimable o now) (set_lease owner expires)
          rows (λ x. refl)
        ∙ h.present;
    shut =
        All-update_if _ (is_claimable o now) (set_lease owner expires) rows
          (λ x q s k. absurd (ground (arith, shut_not_free limit now x b (s k)))) h.shut;
  }

  count-Shut :
      (o : Occurrence) (now : EpochSecs) (rows : List OccurrenceRow)
      → Before now limit
      → All (λ x. has_occurrence item_id sequence x ≡ true → is_shut limit x ≡ true) rows
      → (str_eq o.scheduled_item_id item_id && o.sequence == sequence) ≡ true
      → count_where (is_claimable o now) rows ≡ 0
  count-Shut o now [] b h e = refl
  count-Shut o now (x ∷ rows) b h e =
      let (s, t) = same_identity o.scheduled_item_id item_id o.sequence sequence e in
      let miss : is_claimable o now x ≡ false =
        elim (Bool-cases (has_occurrence item_id sequence x)) [
          | inr f ↦ rw (s, t, f) refl
          | inl k ↦ ground (arith, shut_not_free limit now x b (h.0 k))
        ] in
      rw (miss, count-Shut o now rows b h.1 e) refl

  other-NotOf :
      (o : Occurrence) (owner : String) (expires : EpochSecs) (b : Bool)
      (row : Option OccurrenceRow)
      → (str_eq o.scheduled_item_id item_id && o.sequence == sequence) ≡ false
      → NotOf (push_lease (if b then none else read_lease o owner expires row) [])
  other-NotOf o owner expires true row h = tt
  other-NotOf o owner expires false none h = tt
  other-NotOf o owner expires false (some row) h = (h, tt)

  none-NotOf :
      (b : Bool) (lease : Option Lease)
      → b ≡ true
      → NotOf (push_lease (if b then none else lease) [])
  none-NotOf true lease h = tt
  none-NotOf false lease h = cc

  pub acquire-Shut :
      (c : Conn) (o : Occurrence) (owner : String) (now : EpochSecs) (ttl : ℤ)
      → Before now limit
      → Shut item_id sequence limit c.scheduled_occurrences
      → NotOf (push_lease (acquire_lease c o owner now ttl).0 [])
        × Shut item_id sequence limit (acquire_lease c o owner now ttl).1.scheduled_occurrences
  unfolding acquire_lease
  acquire-Shut c o owner now ttl b h =
      let rows = ensure_row o c.scheduled_occurrences in
      let ensured = ensure-Shut o c.scheduled_occurrences h in
      (
        elim (Bool-cases (str_eq o.scheduled_item_id item_id && o.sequence == sequence)) [
          | inl e ↦
              none-NotOf (count_where (is_claimable o now) rows == 0) _
                (rw (count-Shut o now rows b ensured.shut e) refl)
          | inr f ↦
              other-NotOf o owner (add_i64 now ttl) (count_where (is_claimable o now) rows == 0) _ f
        ],
        claim-Shut o owner now (add_i64 now ttl) rows b ensured,
      )
