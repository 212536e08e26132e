-- ===== src/Router/Model.antt =====
-- crates/assistant-router/src/model.rs.
use assistant_platform.Base.{err, if◌then◌else◌, Result, ok, ℕ, String, Option, str_eq}

pub data DropReason : Type 0 where
  unknown_sender unknown_channel not_authorized malformed no_route duplicate not_engaged :
      DropReason

pub data RouterError : Type 0 where
  unknown_enum : String → RouterError

abbrev pub drop_as_str : DropReason → String
drop_as_str unknown_sender = "unknown_sender"
drop_as_str unknown_channel = "unknown_channel"
drop_as_str not_authorized = "not_authorized"
drop_as_str malformed = "malformed"
drop_as_str no_route = "no_route"
drop_as_str duplicate = "duplicate"
drop_as_str not_engaged = "not_engaged"

unfoldable pub drop_parse : String → Result RouterError DropReason
drop_parse s =
    if str_eq s "unknown_sender"
    then ok unknown_sender
    else if str_eq s "unknown_channel"
    then ok unknown_channel
    else if str_eq s "not_authorized"
    then ok not_authorized
    else if str_eq s "malformed"
    then ok malformed
    else if str_eq s "no_route"
    then ok no_route
    else if str_eq s "duplicate"
    then ok duplicate
    else if str_eq s "not_engaged"
    then ok not_engaged
    else err (unknown_enum s)

pub record DroppedMessage : Type 0 where
  pub id : ℕ
  pub channel : String
  pub sender : Option String
  pub reason : DropReason
  pub payload : Option String
  pub created_at : String

-- A row of dropped_messages.
pub record DropRow : Type 0 where
  pub id : ℕ
  pub channel : String
  pub sender : Option String
  pub reason : String
  pub payload : Option String
  pub created_at : String
