-- ===== src/Approvals/Sweep.antt =====
-- The sweep marks exactly the pending approvals that a decision would refuse as expired.
use assistant_platform.Approvals.Decision.{read-set_status, read-pending, expired_text}
use assistant_platform.Approvals.Readiness.{no_approvals_stuck_past_expiry, pass}
use mathlib.Core.Option
use assistant_platform.Base.{
  ℕ, if◌then◌else◌, ok, ok_or, All, find, update, RowIds, ℤ, leb_ℤ, All-append, All-update, String,
  ◌≡◌, refl, inl, inr, Bool, true, false, ◌&&◌, Option, none, some, List, [], ◌∷◌, arith,
  Bool-cases, Option-cases, count_where, find-update, find-All,
}
use assistant_platform.Decimal.{to_string, in_i64, parse}
use assistant_platform.Decimal.RoundTrip.{parse-to_string}
use assistant_platform.Approvals.Model.{
  Conn, EpochSecs, ApprovalStatus, granted, denied, expired, is_pending, Approval, unknown_enum,
  ApprovalRow, TextCast,
}
use assistant_platform.Approvals.Store.{
  sweep_expired, read_expiry, request_approval, get_approval, is_pending_row, set_status, is_past,
  decide, grant, deny, is_stuck, ask, read_approval, has_id, pending_past_expiry,
}
use assistant_platform.Approvals.Run.{
  run, Call, requests, grants, denies, sweeps, asks, responds, after,
}
use assistant_platform.Approvals.Settled.{decide-rows, respond-approvals}

-- The expiry text is that of an `i64`.
abbrev pub WrittenExpiry : Option String → Type 0
WrittenExpiry none = Unit
WrittenExpiry (some s) = (v : ℤ) × (in_i64 v ≡ true) × (s ≡ to_string v)

abbrev pub IsWritten : Conn → Type 0
IsWritten c = All (λ r. WrittenExpiry r.expires_at) c.pending_approvals

-- An `i64` argument.
abbrev pub InRange : Option EpochSecs → Type 0
InRange none = Unit
InRange (some v) = in_i64 v ≡ true

abbrev pub CallInRange : Call → Type 0
CallInRange (requests kind subject by expires) = InRange expires
CallInRange _ = Unit

update-IsWritten :
    (c : Conn) (q : ApprovalRow → Bool) (status : String)
    → IsWritten c
    → All (λ r. WrittenExpiry r.expires_at) (update q (set_status status) c.pending_approvals)
update-IsWritten c q status h = All-update _ q (set_status status) c.pending_approvals (λ x k. k) h

decide-IsWritten :
    (c : Conn) (approver id : ℕ) (now : EpochSecs) (outcome : ApprovalStatus)
    → IsWritten c
    → IsWritten (decide c approver id now outcome).1
decide-IsWritten c approver id now outcome h = elim (decide-rows c approver id now outcome) [
  | inl e ↦ rw e h
  | inr (status, e) ↦ rw e (update-IsWritten c (is_pending_row id) status h)
]

new-WrittenExpiry :
    (expires : Option EpochSecs) → InRange expires → WrittenExpiry (Option.map to_string expires)
new-WrittenExpiry none h = tt
new-WrittenExpiry (some v) h = (v, h, refl)

after-IsWritten :
    (ids : RowIds) (t : TextCast) (c : Conn) (call : Call)
    → CallInRange call
    → IsWritten c
    → IsWritten (after ids t c call)
unfolding after
after-IsWritten ids t c (requests kind subject by expires) r h =
    unfold request_approval in
    All-append _ c.pending_approvals _ h (new-WrittenExpiry expires r, tt)
after-IsWritten ids t c (grants approver id now) r h =
    unfold grant in decide-IsWritten c approver id now granted h
after-IsWritten ids t c (denies approver id now) r h =
    unfold deny in decide-IsWritten c approver id now denied h
after-IsWritten ids t c (sweeps now) r h =
    unfold sweep_expired in update-IsWritten c (is_stuck t now) "expired" h
after-IsWritten ids t c (asks session prompt) r h = unfold ask in h
after-IsWritten ids t c (responds id) r h = rw (respond-approvals c id) h

-- Every call keeps the expiry texts those of an `i64`.
pub run-IsWritten :
    (ids : RowIds) (t : TextCast) (c : Conn) (calls : List Call)
    → All CallInRange calls
    → IsWritten c
    → IsWritten (run ids t c calls)
unfolding run
run-IsWritten ids t c [] r h = h
run-IsWritten ids t c (call ∷ calls) r h =
    run-IsWritten ids t (after ids t c call) calls r.1 (after-IsWritten ids t c call r.0 h)

-- The two readings of an expiry, SQLite's and Rust's, agree on a written text.
expiry_agrees :
    (t : TextCast) (s : Option String) (now : EpochSecs) (e : Option EpochSecs)
    → WrittenExpiry s
    → read_expiry s ≡ ok e
    → elim s as (λ _. Bool) [ none ↦ false | some x ↦ leb_ℤ (t.cast x) now ] ≡ is_past e now
expiry_agrees t none now e w h = ground arith
expiry_agrees t (some s) now e (v, i, eq) h =
    let k : ok_or (parse s) (unknown_enum s) ≡ ok v = rw (eq, parse-to_string v i) refl in
    let m : some v ≡ e = cc in rw (← m, eq, t.cast-to_string v i) refl

read-expires_at :
    (row : ApprovalRow) (a : Approval)
    → read_approval row ≡ ok a
    → read_expiry row.expires_at ≡ ok a.expires_at
unfolding read_approval
read-expires_at row a h = ground arith

is_stuck-read :
    (t : TextCast) (now : EpochSecs) (row : ApprovalRow) (a : Approval)
    → WrittenExpiry row.expires_at
    → read_approval row ≡ ok a
    → is_stuck t now row ≡ (is_pending a.status && is_past a.expires_at now)
is_stuck-read t now row a w h =
    let (p, same) = read-pending row a h in
    rw (p, expiry_agrees t row.expires_at now a.expires_at w (read-expires_at row a h)) refl

-- `status = 'expired'` where the approval was pending and past its expiry.
abbrev pub swept : EpochSecs → Approval → Approval
swept now a =
    if is_pending a.status && is_past a.expires_at now then record a { status = expired } else a

get-sweep_row :
    (t : TextCast) (c : Conn) (now : EpochSecs) (id : ℕ) (row : ApprovalRow) (a : Approval)
    → WrittenExpiry row.expires_at
    → find (has_id id) c.pending_approvals ≡ some row
    → read_approval row ≡ ok a
    → get_approval (sweep_expired t c now).1 id ≡ ok (some (swept now a))
unfolding sweep_expired get_approval
get-sweep_row t c now id row a w e read =
    rw
      (
        find-update (has_id id) (is_stuck t now) (set_status "expired") c.pending_approvals
            (λ x. refl),
        e,
        is_stuck-read t now row a w read,
      )
      (elim (Bool-cases (is_pending a.status && is_past a.expires_at now)) [
        | inl y ↦ rw (y, ← expired_text, read-set_status row a expired read) refl
        | inr n ↦ rw (n, read) refl
      ])

-- With expiry texts as the crate writes them, a sweep makes an approval read as expired exactly if it
-- was pending and a decision at the same time would refuse it as expired; any other reads as before.
pub get-sweep_expired :
    (t : TextCast) (c : Conn) (now : EpochSecs) (id : ℕ) (a : Approval)
    → IsWritten c
    → get_approval c id ≡ ok (some a)
    → get_approval (sweep_expired t c now).1 id ≡ ok (some (swept now a))
get-sweep_expired t c now id a w h = elim (Option-cases (find (has_id id) c.pending_approvals)) [
  | inl e ↦ unfold get_approval in cc
  | inr (row, e) ↦
      get-sweep_row t c now id row a
        (find-All (λ r. WrittenExpiry r.expires_at) (has_id id) c.pending_approvals row w e) e
        (unfold get_approval in ground arith)
]

not_stuck-swept :
    (t : TextCast) (now : EpochSecs) (r : ApprovalRow)
    → is_stuck t now (if is_stuck t now r then set_status "expired" r else r) ≡ false
not_stuck-swept t now r = elim (Bool-cases (is_stuck t now r)) [
  | inl y ↦ rw y refl
  | inr n ↦ rw n n
]

count-swept :
    (t : TextCast) (now : EpochSecs) (rows : List ApprovalRow)
    → count_where (is_stuck t now) (update (is_stuck t now) (set_status "expired") rows) ≡ 0
count-swept t now [] = refl
count-swept t now (r ∷ rows) = rw (not_stuck-swept t now r) (omega (arith, count-swept t now rows))

-- A sweep reports how many approvals were past their expiry, and leaves none: the readiness check of
-- the same time passes.
pub sweep_clears :
    (t : TextCast) (c : Conn) (now : EpochSecs)
    → ((sweep_expired t c now).0 ≡ pending_past_expiry t c now)
      × (pending_past_expiry t (sweep_expired t c now).1 now ≡ 0)
      × (no_approvals_stuck_past_expiry t (sweep_expired t c now).1 now ≡ pass)
unfolding sweep_expired pending_past_expiry no_approvals_stuck_past_expiry
sweep_clears t c now =
    (refl, count-swept t now c.pending_approvals, rw (count-swept t now c.pending_approvals) refl)
