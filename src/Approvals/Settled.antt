-- ===== src/Approvals/Settled.antt =====
-- An approval that has left `pending` never changes again, whatever is called.
use assistant_platform.Base.{
  ℕ, Option-cases, ok, RowIds, find-append, find-update, String, ◌≡◌, refl, ◌∙◌, ◌⊎◌, inl, inr,
  false, Option, some, List, arith, str_eq, find,
}
use assistant_platform.Approvals.Model.{
  Conn, EpochSecs, ApprovalKind, ApprovalStatus, granted, denied, status_as_str, is_pending,
  Approval, ApprovalRow, TextCast,
}
use assistant_platform.Approvals.Store.{
  decide, read_approval, request_approval, has_id, get_approval, is_pending_row, set_status,
  settle_row, grant, deny, is_stuck, sweep_expired, ask, respond,
}
use assistant_platform.Approvals.Run.{
  run, Call, requests, grants, denies, sweeps, asks, responds, after, run_induction,
}
use assistant_platform.Approvals.Decision.{
  decided, read-pending, Decided, refused, unreadable, missing, closed, late, honoured,
}

-- The tables after a decision: as they were, or with one pending row of `id` settled.
pub decide-rows :
    (c : Conn) (approver id : ℕ) (now : EpochSecs) (outcome : ApprovalStatus)
    → ((decide c approver id now outcome).1 ≡ c)
      ⊎ ((status : String) × ((decide c approver id now outcome).1 ≡ settle_row c id status))
decide-rows c approver id now outcome = go (decided c approver id now outcome)
  where
    go :
        Decided c approver id now outcome
        → ((decide c approver id now outcome).1 ≡ c)
          ⊎ ((status : String) × ((decide c approver id now outcome).1 ≡ settle_row c id status))
    go (refused n e) = inl (rw e)
    go (unreadable x y g e) = inl (rw e)
    go (missing y g e) = inl (rw e)
    go (closed a y g n e) = inl (rw e)
    go (late a y g p l e) = inr ("expired", rw e)
    go (honoured a y g p l e) = inr (status_as_str outcome, rw e)

-- The row of `id` is `row`, and it is not pending.
record IsSettled (id : ℕ) (row : ApprovalRow) (c : Conn) : Type 0 where
  found : find (has_id id) c.pending_approvals ≡ some row
  settled : str_eq row.status "pending" ≡ false

decide-IsSettled :
    (c : Conn) (approver i : ℕ) (now : EpochSecs) (outcome : ApprovalStatus) (id : ℕ)
    (row : ApprovalRow)
    → IsSettled id row c
    → IsSettled id row (decide c approver i now outcome).1
decide-IsSettled c approver i now outcome id row h = elim (decide-rows c approver i now outcome) [
  | inl e ↦ rw e h
  | inr (status, e) ↦ record {
    found = rw e (
        find-update (has_id id) (is_pending_row i) (set_status status) c.pending_approvals
          (λ x. refl)
        ∙ ground (arith, h.found, h.settled));
    settled = h.settled;
  }
]

sweep-IsSettled :
    (t : TextCast) (c : Conn) (now : EpochSecs) (id : ℕ) (row : ApprovalRow)
    → IsSettled id row c
    → IsSettled id row (sweep_expired t c now).1
unfolding sweep_expired
sweep-IsSettled t c now id row h = record {
  found =
      find-update (has_id id) (is_stuck t now) (set_status "expired") c.pending_approvals
        (λ x. refl)
      ∙ ground (arith, h.found, h.settled);
  settled = h.settled;
}

request-IsSettled :
    (ids : RowIds) (c : Conn) (kind : ApprovalKind) (subject : String) (by : Option ℕ)
    (expires : Option EpochSecs) (id : ℕ) (row : ApprovalRow)
    → IsSettled id row c
    → IsSettled id row (request_approval ids c kind subject by expires).1
unfolding request_approval
request-IsSettled ids c kind subject by expires id row h = record {
  found = rw (find-append (has_id id) c.pending_approvals _, h.found) refl;
  settled = h.settled;
}

pub respond-approvals :
    (c : Conn) (id : ℕ) → (respond c id).1.pending_approvals ≡ c.pending_approvals
unfolding respond
respond-approvals c id = ground arith

after-IsSettled :
    (ids : RowIds) (t : TextCast) (id : ℕ) (row : ApprovalRow) (c : Conn) (call : Call)
    → IsSettled id row c
    → IsSettled id row (after ids t c call)
unfolding after
after-IsSettled ids t id row c (requests kind subject by expires) h =
    request-IsSettled ids c kind subject by expires id row h
after-IsSettled ids t id row c (grants approver i now) h =
    unfold grant in decide-IsSettled c approver i now granted id row h
after-IsSettled ids t id row c (denies approver i now) h =
    unfold deny in decide-IsSettled c approver i now denied id row h
after-IsSettled ids t id row c (sweeps now) h = sweep-IsSettled t c now id row h
after-IsSettled ids t id row c (asks session prompt) h = record {
  found = unfold ask in h.found;
  settled = h.settled;
}
after-IsSettled ids t id row c (responds i) h = record {
  found = rw (respond-approvals c i) h.found;
  settled = h.settled;
}

-- An approval that is granted, denied or expired reads the same for ever, whatever functions of the
-- crate are called, in whatever order and by whomever.
pub settled_forever :
    (ids : RowIds) (t : TextCast) (c : Conn) (calls : List Call) (id : ℕ) (a : Approval)
    → get_approval c id ≡ ok (some a)
    → is_pending a.status ≡ false
    → get_approval (run ids t c calls) id ≡ ok (some a)
settled_forever ids t c calls id a h p =
    elim (Option-cases (find (has_id id) c.pending_approvals)) [
      | inl e ↦ unfold get_approval in cc
      | inr (row, e) ↦
          let read : read_approval row ≡ ok a = unfold get_approval in ground arith in
          let start : IsSettled id row c = record {
            found = e;
            settled = ground (arith, read-pending row a read);
          } in
          let end =
            run_induction (IsSettled id row) ids t (after-IsSettled ids t id row) c calls start in
          unfold get_approval in rw (end.found, read) refl
    ]
