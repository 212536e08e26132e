-- ===== src/Approvals/Store.antt =====
-- crates/assistant-approvals/src/store.rs: each function takes the tables and returns its result with
-- the tables that it leaves. A transaction that is dropped leaves the tables as they were.
use mathlib.Core.Option
use assistant_platform.Base.{
  ℕ, ◌==◌, if◌then◌else◌, Result, ok, err, ok_or, find, count_where, update, RowIds, leb_ℤ, String,
  Bool, false, not, ◌&&◌, Option, none, some, [], ◌∷◌, ◌++◌, map, str_eq, ◌>>=◌,
}
use assistant_platform.Permissions.Access.{require_admin}
use assistant_platform.Decimal.{to_string, parse}
use assistant_platform.Approvals.Model.{
  Conn, EpochSecs, ApprovalKind, kind_as_str, kind_parse, ApprovalStatus, granted, denied,
  status_as_str, status_parse, is_pending, Approval, question_parse, is_open, Question,
  ApprovalError, not_found, not_decidable, has_expired, unknown_enum, from_permission, ApprovalRow,
  QuestionRow, TextCast,
}

abbrev pub Return : Type 0 → Type 0
Return A = Result ApprovalError A × Conn

abbrev pub read_expiry : Option String → Result ApprovalError (Option EpochSecs)
read_expiry none = ok none
read_expiry (some s) = do e ← ok_or (parse s) (unknown_enum s); ok (some e)

unfoldable pub read_approval : ApprovalRow → Result ApprovalError Approval
read_approval row = do
  kind ← ok_or (kind_parse row.kind) (unknown_enum row.kind)
  status ← ok_or (status_parse row.status) (unknown_enum row.status)
  expires_at ← read_expiry row.expires_at
  ok (record {
    id = row.id;
    kind = kind;
    subject = row.subject;
    status = status;
    requested_by = row.requested_by;
    expires_at = expires_at;
  })

-- The row that the INSERT of `request_approval` writes.
abbrev pub new_approval : ℕ → ApprovalKind → String → Option ℕ → Option EpochSecs → ApprovalRow
new_approval id kind subject requested_by expires_at = record {
  id = id;
  kind = kind_as_str kind;
  subject = subject;
  status = "pending";
  requested_by = requested_by;
  expires_at = Option.map to_string expires_at;
}

unfoldable pub request_approval :
    RowIds → Conn → ApprovalKind → String → Option ℕ → Option EpochSecs → Return ℕ
request_approval ids c kind subject requested_by expires_at =
    let id = ids.next (map (λ a. a.id) c.pending_approvals) in
    (
      ok id,
      record c {
        pending_approvals =
            c.pending_approvals ++ new_approval id kind subject requested_by expires_at ∷ [];
      },
    )

-- `.optional()?.transpose()`
abbrev pub transpose :
    Option (Result ApprovalError Approval) → Result ApprovalError (Option Approval)
transpose none = ok none
transpose (some (ok a)) = ok (some a)
transpose (some (err e)) = err e

abbrev pub has_id : ℕ → ApprovalRow → Bool
has_id id a = a.id == id

unfoldable pub get_approval : Conn → ℕ → Result ApprovalError (Option Approval)
get_approval c id = transpose (Option.map read_approval (find (has_id id) c.pending_approvals))

-- UPDATE … SET status WHERE id = ?1 AND status = 'pending'
abbrev pub is_pending_row : ℕ → ApprovalRow → Bool
is_pending_row id a = a.id == id && str_eq a.status "pending"

abbrev pub set_status : String → ApprovalRow → ApprovalRow
set_status status a = record a { status = status }

abbrev pub settle_row : Conn → ℕ → String → Conn
settle_row c id status = record c {
  pending_approvals = update (is_pending_row id) (set_status status) c.pending_approvals;
}

abbrev pub is_past : Option EpochSecs → EpochSecs → Bool
is_past none now = false
is_past (some exp) now = leb_ℤ exp now

-- The rest of `decide` once the approval is read.
unfoldable pub settle : Conn → ℕ → EpochSecs → ApprovalStatus → Approval → Return (Unit {0})
settle c id now outcome approval =
    if not (is_pending approval.status)
    then (err (not_decidable id), c)
    else if is_past approval.expires_at now
    then (err (has_expired id), settle_row c id "expired")
    else (ok tt, settle_row c id (status_as_str outcome))

unfoldable pub decide : Conn → ℕ → ℕ → EpochSecs → ApprovalStatus → Return (Unit {0})
unfolding settle
decide c approver id now outcome = elim (require_admin c.permissions approver) [
  | err e ↦ (err (from_permission e), c)
  | ok _ ↦ elim (get_approval c id) [
    | err e ↦ (err e, c)
    | ok none ↦ (err (not_found id), c)
    | ok (some approval) ↦ settle c id now outcome approval
  ]
]

unfoldable pub grant : Conn → ℕ → ℕ → EpochSecs → Return (Unit {0})
grant c approver id now = decide c approver id now granted

unfoldable pub deny : Conn → ℕ → ℕ → EpochSecs → Return (Unit {0})
deny c approver id now = decide c approver id now denied

-- status = 'pending' AND expires_at IS NOT NULL AND CAST(expires_at AS INTEGER) <= ?1
abbrev pub is_stuck : TextCast → EpochSecs → ApprovalRow → Bool
is_stuck t now a =
    str_eq a.status "pending" && elim a.expires_at [ none ↦ false | some s ↦ leb_ℤ (t.cast s) now ]

unfoldable pub sweep_expired : TextCast → Conn → EpochSecs → ℕ × Conn
sweep_expired t c now = (
  count_where (is_stuck t now) c.pending_approvals,
  record c {
    pending_approvals = update (is_stuck t now) (set_status "expired") c.pending_approvals;
  },
)

unfoldable pub pending_past_expiry : TextCast → Conn → EpochSecs → ℕ
pending_past_expiry t c now = count_where (is_stuck t now) c.pending_approvals

unfoldable pub ask : RowIds → Conn → Option String → String → Return ℕ
ask ids c session_id prompt =
    let id = ids.next (map (λ q. q.id) c.pending_questions) in
    (
      ok id,
      record c {
        pending_questions =
            c.pending_questions
            ++ record { id = id; session_id = session_id; prompt = prompt; status = "open" } ∷ [];
      },
    )

abbrev pub question_has_id : ℕ → QuestionRow → Bool
question_has_id id q = q.id == id

abbrev pub read_question : Option QuestionRow → Result ApprovalError (Option Question)
read_question none = ok none
read_question (some q) = do
  status ← ok_or (question_parse q.status) (unknown_enum q.status)
  ok (some (record { id = q.id; session_id = q.session_id; prompt = q.prompt; status = status }))

unfoldable pub get_question : Conn → ℕ → Result ApprovalError (Option Question)
get_question c id = read_question (find (question_has_id id) c.pending_questions)

abbrev pub is_open_row : ℕ → QuestionRow → Bool
is_open_row id q = q.id == id && str_eq q.status "open"

abbrev pub set_answered : QuestionRow → QuestionRow
set_answered q = record q { status = "answered" }

unfoldable pub respond : Conn → ℕ → Return (Unit {0})
respond c question_id = elim (get_question c question_id) [
  | err e ↦ (err e, c)
  | ok none ↦ (err (not_found question_id), c)
  | ok (some question) ↦
      if not (is_open question.status) then (err (not_decidable question_id), c) else (
        ok tt,
        record c {
          pending_questions = update (is_open_row question_id) set_answered c.pending_questions;
        },
      )
]
