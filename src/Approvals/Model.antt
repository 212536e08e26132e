-- ===== src/Approvals/Model.antt =====
-- crates/assistant-approvals/src/model.rs and event.rs, and the tables `pending_approvals` and
-- `pending_questions` of crates/assistant-db/src/schema.rs.
use Prim.Native.String.{◌++◌ as concat}
use assistant_platform.Base.{
  ℕ, String, Option, some, List, if◌then◌else◌, ℤ, pos, ◌≡◌, refl, Bool, true, false, none, [], ◌∷◌,
  ◌++◌, str_eq,
}
use assistant_platform.Permissions.Model.{SqliteError, PermissionError}
use assistant_platform.Permissions.Model
use assistant_platform.Decimal.{to_string, in_i64}

abbrev pub EpochSecs : Type 0
EpochSecs = ℤ

pub data ApprovalKind : Type 0 where
  generic credential : ApprovalKind

unfoldable pub kind_as_str : ApprovalKind → String
kind_as_str generic = "generic"
kind_as_str credential = "credential"

unfoldable pub kind_parse : String → Option ApprovalKind
kind_parse s =
    if str_eq s "generic"
    then some generic
    else if str_eq s "credential"
    then some credential
    else none

pub data ApprovalStatus : Type 0 where
  pending granted denied expired : ApprovalStatus

unfoldable pub status_as_str : ApprovalStatus → String
status_as_str pending = "pending"
status_as_str granted = "granted"
status_as_str denied = "denied"
status_as_str expired = "expired"

unfoldable pub status_parse : String → Option ApprovalStatus
status_parse s =
    if str_eq s "pending"
    then some pending
    else if str_eq s "granted"
    then some granted
    else if str_eq s "denied"
    then some denied
    else if str_eq s "expired"
    then some expired
    else none

abbrev pub is_pending : ApprovalStatus → Bool
is_pending pending = true
is_pending _ = false

pub record Approval : Type 0 where
  pub id : ℕ
  pub kind : ApprovalKind
  pub subject : String
  pub status : ApprovalStatus
  pub requested_by : Option ℕ
  pub expires_at : Option EpochSecs

pub data QuestionStatus : Type 0 where
  open_question answered : QuestionStatus

unfoldable pub question_as_str : QuestionStatus → String
question_as_str open_question = "open"
question_as_str answered = "answered"

unfoldable pub question_parse : String → Option QuestionStatus
question_parse s =
    if str_eq s "open"
    then some open_question
    else if str_eq s "answered"
    then some answered
    else none

abbrev pub is_open : QuestionStatus → Bool
is_open open_question = true
is_open answered = false

pub record Question : Type 0 where
  pub id : ℕ
  pub session_id : Option String
  pub prompt : String
  pub status : QuestionStatus

pub data ApprovalError : Type 0 where
  sqlite : SqliteError → ApprovalError
  unauthorized : ℕ → ApprovalError
  not_found : ℕ → ApprovalError
  not_decidable : ℕ → ApprovalError
  has_expired : ℕ → ApprovalError
  unknown_enum : String → ApprovalError

-- `From<PermissionError>`; the other variants are converted through their text.
unfoldable pub from_permission : PermissionError → ApprovalError
from_permission (PermissionError.not_authorized actor) = unauthorized actor
from_permission (PermissionError.sqlite e) = sqlite e
from_permission PermissionError.owner_already_exists = unknown_enum "an owner already exists"
from_permission (PermissionError.unknown_user user_id) =
    unknown_enum (concat "unknown user " (to_string (pos user_id)))

-- A row of `pending_approvals`.
pub record ApprovalRow : Type 0 where
  pub id : ℕ
  pub kind : String
  pub subject : String
  pub status : String
  pub requested_by : Option ℕ
  pub expires_at : Option String

-- A row of `pending_questions`.
pub record QuestionRow : Type 0 where
  pub id : ℕ
  pub session_id : Option String
  pub prompt : String
  pub status : String

-- The tables behind the crate's `&Connection`, those of assistant-permissions among them.
pub record Conn : Type 0 where
  pub permissions : Model.Conn
  pub pending_approvals : List ApprovalRow
  pub pending_questions : List QuestionRow

pub data ApprovalEvent : Type 0 where
  approval_requested : ℕ → ApprovalKind → ApprovalEvent
  approval_granted approval_denied : ℕ → ℕ → ApprovalEvent
  approval_expired : ℕ → ApprovalEvent

-- `VecEventSink::record`
unfoldable pub record_event : List ApprovalEvent → ApprovalEvent → List ApprovalEvent
record_event events event = events ++ event ∷ []

-- SQLite's CAST(text AS INTEGER): a parameter, of which the crate relies on this.
pub record TextCast : Type 0 where
  pub cast : String → ℤ
  pub cast-to_string : (v : ℤ) → in_i64 v ≡ true → cast (to_string v) ≡ v

pub kind_parse-kind_as_str : (k : ApprovalKind) → kind_parse (kind_as_str k) ≡ some k
unfolding kind_parse kind_as_str
kind_parse-kind_as_str generic = refl
kind_parse-kind_as_str credential = refl

pub status_parse-status_as_str : (s : ApprovalStatus) → status_parse (status_as_str s) ≡ some s
unfolding status_parse status_as_str
status_parse-status_as_str pending = refl
status_parse-status_as_str granted = refl
status_parse-status_as_str denied = refl
status_parse-status_as_str expired = refl
