-- ===== src/Scheduler/Once.antt =====
-- Nobody is given an occurrence that has fired, or that another holds.
use assistant_platform.Scheduler.Sweeps.{run-Shut}
use assistant_platform.Base.{
  ◌==◌, Bool-cases, All, any, update, any-update, String, ◌≡◌, refl, ◌∙◌, inl, inr, true, false,
  ◌&&◌, none, List, [], ◌∷◌, str_eq, if◌then◌else◌, count_where, ℤ, leb_ℤ, add_i64, any-count_where,
  any-append, Bool, Option, some, ◌++◌, arith, eq_iff, find,
}
use assistant_platform.Approvals.Model.{TextCast}
use assistant_platform.Scheduler.Model.{Names, EpochSecs, Occurrence}
use assistant_platform.Scheduler.Tables.{Conn, OccurrenceRow, Json}
use assistant_platform.Scheduler.Projection.{has_occurrence, occurrence_row}
use assistant_platform.Scheduler.Lease.{
  Lease, set_fired, complete_occurrence, ensure_row, is_claimable, set_lease, read_lease,
  acquire_lease, claimed_rows,
}
use assistant_platform.Scheduler.Run.{
  run, Call, sweeps, acquires, completes, links, projects, advances, completes_item, cancels_item,
  pauses_item, resumes_item,
}
use assistant_platform.Scheduler.Shut.{Shut, is_shut, CallBefore, same_identity}

-- No two rows have one key, as the PRIMARY KEY says.
abbrev pub DistinctKeys : List OccurrenceRow → Type 0
DistinctKeys [] = Unit
DistinctKeys (x ∷ rows) =
    (any (has_occurrence x.scheduled_item_id x.sequence) rows ≡ false) × DistinctKeys rows

-- Leases of other occurrences than `o`.
abbrev pub Others : Occurrence → List Lease → Type 0
Others o leases =
    All
      (λ l.
        (str_eq l.occurrence.scheduled_item_id o.scheduled_item_id
          && l.occurrence.sequence == o.sequence)
        ≡ false)
      leases

before_never : (calls : List Call) → All (CallBefore none) calls
before_never [] = tt
before_never (sweeps _ _ _ ∷ calls) = (tt, before_never calls)
before_never (acquires _ _ _ _ ∷ calls) = (tt, before_never calls)
before_never (completes _ _ ∷ calls) = (tt, before_never calls)
before_never (links _ _ ∷ calls) = (tt, before_never calls)
before_never (projects _ _ ∷ calls) = (tt, before_never calls)
before_never (advances _ _ ∷ calls) = (tt, before_never calls)
before_never (completes_item _ ∷ calls) = (tt, before_never calls)
before_never (cancels_item _ ∷ calls) = (tt, before_never calls)
before_never (pauses_item _ ∷ calls) = (tt, before_never calls)
before_never (resumes_item _ ∷ calls) = (tt, before_never calls)

completed-shut :
    (o : Occurrence) (fired_at : EpochSecs) (rows : List OccurrenceRow)
    → All
        (λ x. has_occurrence o.scheduled_item_id o.sequence x ≡ true → is_shut none x ≡ true)
        (update (has_occurrence o.scheduled_item_id o.sequence) (set_fired fired_at) rows)
completed-shut o fired_at [] = tt
completed-shut o fired_at (x ∷ rows) =
    elim (Bool-cases (has_occurrence o.scheduled_item_id o.sequence x)) [
      | inl y ↦ rw y ((λ k. refl), completed-shut o fired_at rows)
      | inr n ↦ rw n ((λ k. absurd (ground (arith, k, n))), completed-shut o fired_at rows)
    ]

-- Once a stored occurrence is completed, none of the later calls that Scheduler.Run lists, at whatever
-- times and by whomever, gives a lease of it.
pub fired_once :
    (names : Names) (t : TextCast) (j : Json) (c : Conn) (o : Occurrence) (fired_at : EpochSecs)
    (calls : List Call)
    → any (has_occurrence o.scheduled_item_id o.sequence) c.scheduled_occurrences ≡ true
    → Others o (run names t j (complete_occurrence c o fired_at) calls).0
fired_once names t j c o fired_at calls h =
    let key = has_occurrence o.scheduled_item_id o.sequence in
    let start : Shut o.scheduled_item_id o.sequence none
        (complete_occurrence c o fired_at).scheduled_occurrences =
      unfold complete_occurrence in
      record {
        present = any-update key key (set_fired fired_at) c.scheduled_occurrences (λ x. refl) ∙ h;
        shut = completed-shut o fired_at c.scheduled_occurrences;
      } in
    (run-Shut o.scheduled_item_id o.sequence none names t j (complete_occurrence c o fired_at) calls
      (before_never calls) start).0

pub append-DistinctKeys :
    (rows : List OccurrenceRow) (x : OccurrenceRow)
    → any (has_occurrence x.scheduled_item_id x.sequence) rows ≡ false
    → DistinctKeys rows
    → DistinctKeys (rows ++ x ∷ [])
append-DistinctKeys [] x h d = (refl, tt)
append-DistinctKeys (y ∷ rows) x h d = (
  ground (
    arith,
    any-append (has_occurrence y.scheduled_item_id y.sequence) rows (x ∷ []),
    d.0,
    eq_iff y.scheduled_item_id x.scheduled_item_id,
    eq_iff x.scheduled_item_id y.scheduled_item_id,
  ),
  append-DistinctKeys rows x (ground arith) d.1,
)

pub ensure-DistinctKeys :
    (o : Occurrence) (rows : List OccurrenceRow)
    → DistinctKeys rows
    → DistinctKeys (ensure_row o rows)
ensure-DistinctKeys o rows d =
    elim (Bool-cases (any (has_occurrence o.scheduled_item_id o.sequence) rows)) [
      | inl y ↦ rw y d
      | inr n ↦ rw n (append-DistinctKeys rows (occurrence_row o "pending" none) n d)
    ]

none_of_key :
    (o : Occurrence) (rows : List OccurrenceRow) (P : OccurrenceRow → Type 0)
    → any (has_occurrence o.scheduled_item_id o.sequence) rows ≡ false
    → All (λ x. has_occurrence o.scheduled_item_id o.sequence x ≡ true → P x) rows
none_of_key o [] P h = tt
none_of_key o (x ∷ rows) P h = ((λ k. absurd (ground arith)), none_of_key o rows P (ground arith))

pub no_claimable :
    (o : Occurrence) (now : EpochSecs) (rows : List OccurrenceRow)
    → any (has_occurrence o.scheduled_item_id o.sequence) rows ≡ false
    → any (is_claimable o now) rows ≡ false
no_claimable o now [] h = refl
no_claimable o now (x ∷ rows) h = ground (arith, no_claimable o now rows)

-- The row of the occurrence is the one that can be claimed.
only_claimable :
    (o : Occurrence) (now : EpochSecs) (rows : List OccurrenceRow)
    → DistinctKeys rows
    → any (is_claimable o now) rows ≡ true
    → All
        (λ x. has_occurrence o.scheduled_item_id o.sequence x ≡ true → is_claimable o now x ≡ true)
        rows
only_claimable o now [] d h = tt
only_claimable o now (x ∷ rows) d h =
    elim (Bool-cases (has_occurrence o.scheduled_item_id o.sequence x)) [
      | inr n ↦ ((λ k. absurd (ground (arith, k, n))), only_claimable o now rows d.1 (ground arith))
      | inl y ↦
          let (s, q) =
            same_identity x.scheduled_item_id o.scheduled_item_id x.sequence o.sequence y in
          let later : any (has_occurrence o.scheduled_item_id o.sequence) rows ≡ false =
            rw (← s, ← q) (d.0) in
          ((λ k. ground (arith, no_claimable o now rows later)), none_of_key o rows _ later)
    ]

leb_refl : (a : ℤ) → leb_ℤ a a ≡ true
leb_refl a = ground arith

leased-shut :
    (o : Occurrence) (owner : String) (now expires : EpochSecs) (rows : List OccurrenceRow)
    → All
        (λ x. has_occurrence o.scheduled_item_id o.sequence x ≡ true → is_claimable o now x ≡ true)
        rows
    → All
        (λ x.
          has_occurrence o.scheduled_item_id o.sequence x ≡ true → is_shut (some expires) x ≡ true)
        (update (is_claimable o now) (set_lease owner expires) rows)
leased-shut o owner now expires [] a = tt
leased-shut o owner now expires (x ∷ rows) a = elim (Bool-cases (is_claimable o now x)) [
  | inl y ↦ rw y ((λ k. ground (arith, leb_refl expires)), leased-shut o owner now expires rows a.1)
  | inr n ↦
      rw n ((λ k. absurd (ground (arith, a.0 k, n))), leased-shut o owner now expires rows a.1)
]

any_key :
    (o : Occurrence) (now : EpochSecs) (rows : List OccurrenceRow)
    → any (is_claimable o now) rows ≡ true
    → any (has_occurrence o.scheduled_item_id o.sequence) rows ≡ true
any_key o now [] h = h
any_key o now (x ∷ rows) h = ground (arith, any_key o now rows)

read_lease-is :
    (o : Occurrence) (owner : String) (expires : EpochSecs) (b : Bool) (row : Option OccurrenceRow)
    (lease : Lease)
    → (if b then none else read_lease o owner expires row) ≡ some lease
    → (b ≡ false) × (lease.expires_at ≡ expires)
read_lease-is o owner expires true row lease h = cc
read_lease-is o owner expires false none lease h = cc
read_lease-is o owner expires false (some row) lease h = (refl, ground arith)

-- With one row for each key: after a claim that gives a lease, none of the later calls that
-- Scheduler.Run lists gives a lease of the same occurrence, whoever makes them, as long as those that
-- claim do so before the lease expires.
pub leased_once :
    (names : Names) (t : TextCast) (j : Json) (c : Conn) (o : Occurrence) (owner : String)
    (now : EpochSecs) (ttl : ℤ) (lease : Lease) (calls : List Call)
    → DistinctKeys c.scheduled_occurrences
    → (acquire_lease c o owner now ttl).0 ≡ some lease
    → All (CallBefore (some lease.expires_at)) calls
    → Others o (run names t j (acquire_lease c o owner now ttl).1 calls).0
leased_once names t j c o owner now ttl lease calls d h b =
    let rows = ensure_row o c.scheduled_occurrences in
    let (some_free, until) =
      read_lease-is o owner (add_i64 now ttl) (count_where (is_claimable o now) rows == 0)
        (find (has_occurrence o.scheduled_item_id o.sequence)
          (claimed_rows o owner now (add_i64 now ttl) c))
        lease (unfold acquire_lease in h) in
    let free : any (is_claimable o now) rows ≡ true =
      ground (arith, any-count_where (is_claimable o now) rows, some_free) in
    let key = has_occurrence o.scheduled_item_id o.sequence in
    let start : Shut o.scheduled_item_id o.sequence (some lease.expires_at)
        (acquire_lease c o owner now ttl).1.scheduled_occurrences =
      unfold acquire_lease in
      rw until (record {
        present =
            any-update key (is_claimable o now) (set_lease owner (add_i64 now ttl)) rows (λ x. refl)
            ∙ any_key o now rows free;
        shut =
            leased-shut o owner now (add_i64 now ttl) rows
              (only_claimable o now rows (ensure-DistinctKeys o c.scheduled_occurrences d) free);
      }) in
    (run-Shut o.scheduled_item_id o.sequence (some lease.expires_at) names t j
      (acquire_lease c o owner now ttl).1 calls b start).0
