-- ===== src/Permissions/Model.antt =====
-- crates/assistant-permissions/src/model.rs, and the tables of the baseline migration in
-- crates/assistant-db/src/schema.rs that the crate reads and writes.
use assistant_platform.Base.{
  ℕ, String, Bool, true, false, Option, none, some, List, str_eq, if◌then◌else◌, ◌≡◌, refl, ◌==◌,
}

pub data Role : Type 0 where
  member admin owner : Role

unfoldable pub as_str : Role → String
as_str member = "member"
as_str admin = "admin"
as_str owner = "owner"

unfoldable pub parse : String → Option Role
parse s =
    if str_eq s "member"
    then some member
    else if str_eq s "admin"
    then some admin
    else if str_eq s "owner"
    then some owner
    else none

unfoldable pub is_administrative_role : Role → Bool
is_administrative_role owner = true
is_administrative_role admin = true
is_administrative_role member = false

-- The derived order: the position of the variant.
abbrev pub rank : Role → ℕ
rank member = 0
rank admin = 1
rank owner = 2

abbrev pub role_eq : Role → Role → Bool
role_eq r s = rank r == rank s

pub data UnknownPolicy : Type 0 where
  strict request_approval public : UnknownPolicy

unfoldable pub policy_as_str : UnknownPolicy → String
policy_as_str strict = "strict"
policy_as_str request_approval = "request_approval"
policy_as_str public = "public"

unfoldable pub policy_parse : String → Option UnknownPolicy
policy_parse s =
    if str_eq s "strict"
    then some strict
    else if str_eq s "request_approval"
    then some request_approval
    else if str_eq s "public"
    then some public
    else none

pub data AccessDecision : Type 0 where
  allow : AccessDecision
  hold : String → AccessDecision
  deny : String → AccessDecision

unfoldable pub is_allow : AccessDecision → Bool
is_allow allow = true
is_allow (hold reason) = false
is_allow (deny reason) = false

pub record User : Type 0 where
  pub id : ℕ
  pub handle : String
  pub display_name : Option String

-- The only fault of SQLite that the tables' declarations bring about: a constraint is violated.
pub data SqliteError : Type 0 where
  constraint_violation : SqliteError

pub data PermissionError : Type 0 where
  sqlite : SqliteError → PermissionError
  not_authorized : ℕ → PermissionError
  owner_already_exists : PermissionError
  unknown_user : ℕ → PermissionError

-- A row of `user_roles`.
pub record RoleRow : Type 0 where
  pub user_id : ℕ
  pub role : String

-- A row of `user_dms`.
pub record DmRow : Type 0 where
  pub user_id : ℕ
  pub channel : String
  pub address : String

-- A row of `standing_instructions`.
pub record InstructionRow : Type 0 where
  pub id : ℕ
  pub user_id : ℕ
  pub scope : String
  pub body : String
  pub active : ℕ

-- The tables behind the crate's `&Connection`.
pub record Conn : Type 0 where
  pub users : List User
  pub user_roles : List RoleRow
  pub user_dms : List DmRow
  pub standing_instructions : List InstructionRow

-- A role or a policy is read back from the text that it is stored as.
pub parse-as_str : (r : Role) → parse (as_str r) ≡ some r
unfolding parse as_str
parse-as_str member = refl
parse-as_str admin = refl
parse-as_str owner = refl

pub policy_parse-policy_as_str : (p : UnknownPolicy) → policy_parse (policy_as_str p) ≡ some p
unfolding policy_parse policy_as_str
policy_parse-policy_as_str strict = refl
policy_parse-policy_as_str request_approval = refl
policy_parse-policy_as_str public = refl
