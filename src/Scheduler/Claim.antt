-- ===== src/Scheduler/Claim.antt =====
-- What a claim of an occurrence answers.
use assistant_platform.Scheduler.Shut.{same_identity}
use assistant_platform.Base.{
  ◌==◌, if◌then◌else◌, ==_refl, Bool-cases, Option-cases, find, count_where, any, update, ℤ,
  add_i64, any-find, find-append, any-eq_false_of_count, find-update, find-holds, suc, String, ◌≡◌,
  refl, inl, inr, Bool, true, false, not, Option, none, some, List, [], ◌∷◌, arith, eq_refl, leb_ℤ,
  ◌↔◌, ◌⊎◌, eq_iff,
}
use assistant_platform.Scheduler.Model.{Occurrence, EpochSecs}
use assistant_platform.Scheduler.Tables.{Conn, OccurrenceRow}
use assistant_platform.Scheduler.Projection.{has_occurrence, occurrence_row}
use assistant_platform.Scheduler.Lease.{
  Lease, ensure_row, is_free, is_claimable, set_lease, read_lease, acquire_lease, has_lapsed,
}
use assistant_platform.Scheduler.Once.{DistinctKeys, ensure-DistinctKeys, no_claimable}

abbrev of_key : Occurrence → OccurrenceRow → Bool
of_key o = has_occurrence o.scheduled_item_id o.sequence

count-claimable :
    (o : Occurrence) (now : EpochSecs) (rows : List OccurrenceRow) (row : OccurrenceRow)
    → DistinctKeys rows
    → find (of_key o) rows ≡ some row
    → (count_where (is_claimable o now) rows == 0) ≡ not (is_free now row)
count-claimable o now [] row d f = cc
count-claimable o now (x ∷ rows) row d f = elim (Bool-cases (of_key o x)) [
  | inr n ↦ ground (arith, count-claimable o now rows row d.1, n)
  | inl y ↦
      let (s, q) = same_identity x.scheduled_item_id o.scheduled_item_id x.sequence o.sequence y in
      let later : any (of_key o) rows ≡ false = rw (← s, ← q) (d.0) in
      let none_later =
        any-eq_false_of_count (is_claimable o now) rows (no_claimable o now rows later) in
      let same : x ≡ row = ground arith in
      rw (← same, none_later, y)
        (elim (Bool-cases (is_free now x)) [ inl t ↦ rw t refl | inr t ↦ rw t refl ])
]

-- The lease of a row that is free.
abbrev granted : Occurrence → String → EpochSecs → EpochSecs → OccurrenceRow → Option Lease
granted o owner now expires row =
    if is_free now row
    then some
        (record { occurrence = o; owner = owner; expires_at = expires; attempt = suc row.attempt })
    else none

-- Pending, and unleased or with a lease that ends now or has ended.
abbrev pub Free : EpochSecs → OccurrenceRow → Type 0
Free now row =
    (row.status ≡ "pending")
    × ((row.lease_owner ≡ none)
        ⊎ ((t : ℤ) × (row.lease_expires_at ≡ some t) × (leb_ℤ t now ≡ true)))

-- What a claim of the row answers.
abbrev pub Answers :
    Occurrence → String → EpochSecs → EpochSecs → OccurrenceRow → Option Lease → Type 0
Answers o owner now expires row none = ¬ Free now row
Answers o owner now expires row (some lease) =
    Free now row
    × (lease
        ≡ record { occurrence = o; owner = owner; expires_at = expires; attempt = suc row.attempt })

has_lapsed_iff :
    (now : EpochSecs) (o : Option EpochSecs)
    → has_lapsed now o ≡ true ↔ ((t : ℤ) × (o ≡ some t) × (leb_ℤ t now ≡ true))
has_lapsed_iff now none = (λ h. cc, λ (t, e, _). absurd (cc e))
has_lapsed_iff now (some u) =
    (λ h. (u, refl, h), λ (t, e, h). let same : u ≡ t = ground arith in rw same h)

is_free_iff : (now : EpochSecs) (row : OccurrenceRow) → is_free now row ≡ true ↔ Free now row
is_free_iff now row =
    let s = eq_iff row.status "pending" in
    let l = has_lapsed_iff now row.lease_expires_at in
    (
      λ h. (
        s.0 (ground arith),
        elim (Option-cases row.lease_owner) [
          | inl e ↦ inl e
          | inr (w, e) ↦ inr (l.0 (ground (arith, h, e)))
        ],
      ),
      λ (p, f).
          let a = s.1 p in
          elim f [ inl e ↦ ground (arith, a, e) | inr k ↦ let b = l.1 k in ground (arith, a, b) ],
    )

granted-Answers :
    (o : Occurrence) (owner : String) (now expires : EpochSecs) (row : OccurrenceRow)
    → Answers o owner now expires row (granted o owner now expires row)
granted-Answers o owner now expires row = elim (Bool-cases (is_free now row)) [
  | inl t ↦ rw t ((is_free_iff now row).0 t, refl)
  | inr f ↦ rw f (λ k. let t = (is_free_iff now row).1 k in ground arith)
]

claim_of :
    (o : Occurrence) (owner : String) (now expires : EpochSecs) (rows : List OccurrenceRow)
    (row : OccurrenceRow)
    → DistinctKeys rows
    → find (of_key o) rows ≡ some row
    → (if count_where (is_claimable o now) rows == 0
        then none
        else read_lease o owner expires
            (find (of_key o) (update (is_claimable o now) (set_lease owner expires) rows)))
      ≡ granted o owner now expires row
claim_of o owner now expires rows row d f =
    rw
      (
        count-claimable o now rows row d f,
        find-update (of_key o) (is_claimable o now) (set_lease owner expires) rows (λ x. refl),
        f,
        find-holds (of_key o) rows row f,
      )
      (elim (Bool-cases (is_free now row)) [ inl t ↦ rw t refl | inr t ↦ rw t refl ])

-- The stored row of the occurrence, or the one that a claim makes.
abbrev pub row_or_new : Occurrence → Option OccurrenceRow → OccurrenceRow
row_or_new o none = occurrence_row o "pending" none
row_or_new o (some row) = row

find-ensured :
    (o : Occurrence) (rows : List OccurrenceRow)
    → find (of_key o) (ensure_row o rows) ≡ some (row_or_new o (find (of_key o) rows))
find-ensured o rows = elim (Option-cases (find (of_key o) rows)) [
  | inl e ↦
      let absent : any (of_key o) rows ≡ false = ground (arith, any-find (of_key o) rows, e) in
      rw
        (
          absent,
          find-append (of_key o) rows (occurrence_row o "pending" none ∷ []),
          e,
          eq_refl o.scheduled_item_id,
          ==_refl o.sequence,
        )
        refl
  | inr (row, e) ↦
      let present : any (of_key o) rows ≡ true = ground (arith, any-find (of_key o) rows, e) in
      rw (present, e) refl
]

claim-granted :
    (c : Conn) (o : Occurrence) (owner : String) (now : EpochSecs) (ttl : ℤ)
    → DistinctKeys c.scheduled_occurrences
    → (acquire_lease c o owner now ttl).0
      ≡ granted o owner now
          (add_i64 now ttl)
          (row_or_new o (find (of_key o) c.scheduled_occurrences))
unfolding acquire_lease
claim-granted c o owner now ttl d =
    claim_of o owner now (add_i64 now ttl) (ensure_row o c.scheduled_occurrences)
      (row_or_new o (find (of_key o) c.scheduled_occurrences))
      (ensure-DistinctKeys o c.scheduled_occurrences d) (find-ensured o c.scheduled_occurrences)

-- With one row for each key: a claim of an occurrence gives a lease exactly if the occurrence has no row
-- or its row is pending and either has no owner or has a lease whose end is not after the time of the
-- claim. The lease is of the occurrence and the owner, ends after the time asked for, and its attempt
-- is one more than the row's.
pub acquire_lease_exact :
    (c : Conn) (o : Occurrence) (owner : String) (now : EpochSecs) (ttl : ℤ)
    → DistinctKeys c.scheduled_occurrences
    → Answers o owner now
        (add_i64 now ttl)
        (row_or_new o
          (find (has_occurrence o.scheduled_item_id o.sequence) c.scheduled_occurrences))
        (acquire_lease c o owner now ttl).0
acquire_lease_exact c o owner now ttl d = rw (claim-granted c o owner now ttl d) (
    granted-Answers o owner now (add_i64 now ttl)
      (row_or_new o (find (of_key o) c.scheduled_occurrences)))
