-- ===== src/Approvals/Decision.antt =====
-- When a decision is honoured, what it changes, and what each refusal leaves behind.
use assistant_platform.Permissions.Access.{require_admin}
use assistant_platform.Permissions.Store.{is_administrative}
use mathlib.Core.Option
use assistant_platform.Base.{
  ℕ, if◌then◌else◌, ok, find, find-update, String, ◌≡◌, refl, arith, str_eq, Option-cases, ◌≢◌, inl,
  inr, true, false, some, Option, Bool-cases, Result, err, find-holds, ◌⊎◌, none,
}
use assistant_platform.Approvals.Model.{
  Conn, ApprovalStatus, status_as_str, status_parse, is_pending, Approval, ApprovalRow,
  status_parse-status_as_str, EpochSecs, ApprovalError, unauthorized, not_found, not_decidable,
  has_expired, from_permission, expired,
}
use assistant_platform.Approvals.Store.{
  read_approval, has_id, is_pending_row, set_status, settle_row, get_approval, is_past, decide,
}

pub read-set_status :
    (row : ApprovalRow) (a : Approval) (s : ApprovalStatus)
    → read_approval row ≡ ok a
    → read_approval (set_status (status_as_str s) row) ≡ ok (record a { status = s })
unfolding read_approval
read-set_status row a s h = ground (arith, status_parse-status_as_str s)

-- A row that is read as pending is one that the UPDATE of a decision matches.
pub read-pending :
    (row : ApprovalRow) (a : Approval)
    → read_approval row ≡ ok a
    → (str_eq row.status "pending" ≡ is_pending a.status) × (a.id ≡ row.id)
unfolding read_approval status_parse
read-pending row a h = (ground arith, ground arith)

find-settle_row :
    (c : Conn) (id j : ℕ) (status : String)
    → find (has_id j) (settle_row c id status).pending_approvals
      ≡ Option.map
          (λ x. if is_pending_row id x then set_status status x else x)
          (find (has_id j) c.pending_approvals)
find-settle_row c id j status =
    find-update (has_id j) (is_pending_row id) (set_status status) c.pending_approvals (λ x. refl)

-- What `get_approval` returns after a decision's UPDATE.
get-settle_row :
    (c : Conn) (id : ℕ) (a : Approval) (s : ApprovalStatus)
    → get_approval c id ≡ ok (some a)
    → is_pending a.status ≡ true
    → get_approval (settle_row c id (status_as_str s)) id ≡ ok (some (record a { status = s }))
unfolding get_approval
get-settle_row c id a s h p = elim (Option-cases (find (has_id id) c.pending_approvals)) [
  | inl e ↦ ground arith
  | inr (row, e) ↦
      let read : read_approval row ≡ ok a = ground arith in
      let matched : is_pending_row id row ≡ true =
        ground (arith, find-holds (has_id id) c.pending_approvals row e, read-pending row a read) in
      rw (find-settle_row c id id (status_as_str s), e, matched, read-set_status row a s read) refl
]

settle_row-other :
    (c : Conn) (id j : ℕ) (status : String)
    → j ≢ id
    → find (has_id j) (settle_row c id status).pending_approvals
      ≡ find (has_id j) c.pending_approvals
settle_row-other c id j status ne = elim (Option-cases (find (has_id j) c.pending_approvals)) [
  | inl e ↦ rw (find-settle_row c id j status, e) refl
  | inr (row, e) ↦
      let other : is_pending_row id row ≡ false =
        ground (arith, find-holds (has_id j) c.pending_approvals row e) in
      rw (find-settle_row c id j status, e, other) refl
]

get-settle_row_ne :
    (c : Conn) (id j : ℕ) (status : String)
    → j ≢ id
    → get_approval (settle_row c id status) j ≡ get_approval c j
unfolding get_approval
get-settle_row_ne c id j status ne = rw (settle_row-other c id j status ne) refl

-- The tests that `decide` makes, in its order, and what it returns at each.
pub data Decided (c : Conn) (approver id : ℕ) (now : EpochSecs) (outcome : ApprovalStatus)
    : Type 0 where
  refused :
      is_administrative c.permissions approver ≡ false
      → decide c approver id now outcome ≡ (err (unauthorized approver), c)
      → Decided c approver id now outcome
  unreadable :
      (e : ApprovalError)
      → is_administrative c.permissions approver ≡ true
      → get_approval c id ≡ err e
      → decide c approver id now outcome ≡ (err e, c)
      → Decided c approver id now outcome
  missing :
      is_administrative c.permissions approver ≡ true
      → get_approval c id ≡ ok none
      → decide c approver id now outcome ≡ (err (not_found id), c)
      → Decided c approver id now outcome
  closed :
      (a : Approval)
      → is_administrative c.permissions approver ≡ true
      → get_approval c id ≡ ok (some a)
      → is_pending a.status ≡ false
      → decide c approver id now outcome ≡ (err (not_decidable id), c)
      → Decided c approver id now outcome
  late :
      (a : Approval)
      → is_administrative c.permissions approver ≡ true
      → get_approval c id ≡ ok (some a)
      → is_pending a.status ≡ true
      → is_past a.expires_at now ≡ true
      → decide c approver id now outcome ≡ (err (has_expired id), settle_row c id "expired")
      → Decided c approver id now outcome
  honoured :
      (a : Approval)
      → is_administrative c.permissions approver ≡ true
      → get_approval c id ≡ ok (some a)
      → is_pending a.status ≡ true
      → is_past a.expires_at now ≡ false
      → decide c approver id now outcome ≡ (ok tt, settle_row c id (status_as_str outcome))
      → Decided c approver id now outcome

Result-cases :
    {E A : Type 0} (r : Result E (Option A))
    → ((e : E) × (r ≡ err e)) ⊎ (r ≡ ok none) ⊎ ((a : A) × (r ≡ ok (some a)))
Result-cases (err e) = inl (e, refl)
Result-cases (ok none) = inr (inl refl)
Result-cases (ok (some a)) = inr (inr (a, refl))

pub decided :
    (c : Conn) (approver id : ℕ) (now : EpochSecs) (outcome : ApprovalStatus)
    → Decided c approver id now outcome
decided c approver id now outcome = elim (Bool-cases (is_administrative c.permissions approver)) [
  | inr n ↦ refused n (unfold decide require_admin from_permission in ground arith)
  | inl y ↦ elim (Result-cases (get_approval c id)) [
    | inl (e, g) ↦ unreadable e y g (unfold decide require_admin from_permission in ground arith)
    | inr (inl g) ↦ missing y g (unfold decide require_admin from_permission in ground arith)
    | inr (inr (a, g)) ↦ elim (Bool-cases (is_pending a.status)) [
      | inr n ↦ closed a y g n (unfold decide require_admin from_permission in ground arith)
      | inl p ↦ elim (Bool-cases (is_past a.expires_at now)) [
        | inl l ↦ late a y g p l (unfold decide require_admin from_permission in ground arith)
        | inr l ↦ honoured a y g p l (unfold decide require_admin from_permission in ground arith)
      ]
    ]
  ]
]

pub expired_text : status_as_str expired ≡ "expired"
unfolding status_as_str
expired_text = refl

-- A decision succeeds only for an administrative approver, on an approval that is pending and not
-- past its expiry at `now`; it then reads as decided, and no other approval has changed.
pub decide_honoured :
    (c : Conn) (approver id : ℕ) (now : EpochSecs) (outcome : ApprovalStatus)
    → (decide c approver id now outcome).0 ≡ ok tt
    → (is_administrative c.permissions approver ≡ true)
      × ((a : Approval) × (get_approval c id ≡ ok (some a))
          × (is_pending a.status ≡ true)
          × (is_past a.expires_at now ≡ false)
          × (get_approval (decide c approver id now outcome).1 id
              ≡ ok (some (record a { status = outcome }))))
      × ((j : ℕ) → j ≢ id → get_approval (decide c approver id now outcome).1 j ≡ get_approval c j)
decide_honoured c approver id now outcome h = go (decided c approver id now outcome)
  where
    go :
        Decided c approver id now outcome
        → (is_administrative c.permissions approver ≡ true)
          × ((a : Approval) × (get_approval c id ≡ ok (some a))
              × (is_pending a.status ≡ true)
              × (is_past a.expires_at now ≡ false)
              × (get_approval (decide c approver id now outcome).1 id
                  ≡ ok (some (record a { status = outcome }))))
          × ((j : ℕ)
              → j ≢ id
              → get_approval (decide c approver id now outcome).1 j ≡ get_approval c j)
    go (refused n e) = cc
    go (unreadable x y g e) = cc
    go (missing y g e) = cc
    go (closed a y g n e) = cc
    go (late a y g p l e) = cc
    go (honoured a y g p l e) = (
      y,
      (a, g, p, l, rw e (get-settle_row c id a outcome g p)),
      λ j ne. rw e (get-settle_row_ne c id j (status_as_str outcome) ne),
    )

-- A decision that fails changes nothing, with one exception: an approval found past its expiry then
-- reads as expired, and only that one has changed.
pub decide_failed :
    (c : Conn) (approver id : ℕ) (now : EpochSecs) (outcome : ApprovalStatus) (e : ApprovalError)
    → (decide c approver id now outcome).0 ≡ err e
    → ((decide c approver id now outcome).1 ≡ c)
      ⊎ ((a : Approval) × (e ≡ has_expired id)
          × (get_approval c id ≡ ok (some a))
          × (is_past a.expires_at now ≡ true)
          × (get_approval (decide c approver id now outcome).1 id
              ≡ ok (some (record a { status = expired })))
          × ((j : ℕ)
              → j ≢ id
              → get_approval (decide c approver id now outcome).1 j ≡ get_approval c j))
decide_failed c approver id now outcome x h = go (decided c approver id now outcome)
  where
    go :
        Decided c approver id now outcome
        → ((decide c approver id now outcome).1 ≡ c)
          ⊎ ((a : Approval) × (x ≡ has_expired id)
              × (get_approval c id ≡ ok (some a))
              × (is_past a.expires_at now ≡ true)
              × (get_approval (decide c approver id now outcome).1 id
                  ≡ ok (some (record a { status = expired })))
              × ((j : ℕ)
                  → j ≢ id
                  → get_approval (decide c approver id now outcome).1 j ≡ get_approval c j))
    go (refused n e) = inl (rw e)
    go (unreadable y _ g e) = inl (rw e)
    go (missing y g e) = inl (rw e)
    go (closed a y g n e) = inl (rw e)
    go (late a y g p l e) = inr (
      a,
      cc,
      g,
      l,
      rw (e, ← expired_text) (get-settle_row c id a expired g p),
      λ j ne. rw e (get-settle_row_ne c id j "expired" ne),
    )
    go (honoured a y g p l e) = cc
