-- ===== src/Session/Tables.antt =====
-- The tables of crates/assistant-session/src/schema.rs at the current versions, both databases in one
-- record. Nothing here reads source_session_id.
use assistant_platform.Base.{ℕ, String, Option, List}

pub record InboundRow : Type 0 where
  pub seq : ℕ
  pub sender : String
  pub content : String
  pub metadata : Option String
  pub created_at : String
  pub edited_at : Option String
  pub idempotency_key : Option String
  pub thread_id : Option String

pub record DestinationRow : Type 0 where
  pub destination_id : String
  pub kind : String
  pub display_name : Option String

pub record OutboundRow : Type 0 where
  pub seq : ℕ
  pub kind : String
  pub content : String
  pub metadata : Option String
  pub created_at : String
  pub in_seq : Option ℕ

pub record AckRow : Type 0 where
  pub in_seq : ℕ
  pub claimed_by : String

pub record ContainerState : Type 0 where
  pub status : String
  pub run_id : Option String

pub record Session : Type 0 where
  pub messages_in : List InboundRow
  pub delivered : List ℕ
  pub destinations : List DestinationRow
  pub session_routing : List (String × String)
  pub messages_out : List OutboundRow
  pub processing_ack : List AckRow
  pub container_state : ContainerState

pub data DbKind : Type 0 where
  inbound outbound : DbKind

pub data SessionError : Type 0 where
  sqlite : String → SessionError
  sequence_parity : DbKind → ℕ → SessionError
  unsupported_schema_version : DbKind → ℕ → ℕ → ℕ → SessionError
  bad_migration_sequence : DbKind → ℕ → SessionError
  checksum_mismatch : DbKind → ℕ → String → String → SessionError

abbrev pub with_messages_in : Session → List InboundRow → Session
with_messages_in s rows = record {
  messages_in = rows;
  delivered = s.delivered;
  destinations = s.destinations;
  session_routing = s.session_routing;
  messages_out = s.messages_out;
  processing_ack = s.processing_ack;
  container_state = s.container_state;
}

abbrev pub with_messages_out : Session → List OutboundRow → Session
with_messages_out s rows = record {
  messages_in = s.messages_in;
  delivered = s.delivered;
  destinations = s.destinations;
  session_routing = s.session_routing;
  messages_out = rows;
  processing_ack = s.processing_ack;
  container_state = s.container_state;
}
