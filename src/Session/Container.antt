-- ===== src/Session/Container.antt =====
-- crates/assistant-session/src/control.rs: what a container writes to its outbound database, which is
-- at the version that the build supports, so that the check before a write passes; and the one write
-- of recovery.rs to a table that is modelled.
use assistant_platform.Base.{
  ok, map, ◌==◌, if◌then◌else◌, err, length, any, delete, ℕ, String, true, Option, none, some, List,
  [], ◌∷◌, ◌++◌,
}
use assistant_platform.Session.Tables.{Session, OutboundRow, AckRow, sqlite, with_messages_out}
use assistant_platform.Session.Host.{next_seq, Answer}

abbrev pub out_seqs : Session → List ℕ
out_seqs s = map (λ r. r.seq) s.messages_out

abbrev pub insert_outbound : Session → OutboundRow → Answer
insert_outbound s row =
    if any (λ r. r.seq == row.seq) s.messages_out
    then (err (sqlite "UNIQUE constraint failed"), s)
    else (ok row.seq, with_messages_out s (s.messages_out ++ row ∷ []))

unfoldable pub emit_for : String → Session → Option ℕ → String → String → Answer
emit_for now s in_seq kind content = insert_outbound s (record {
  seq = next_seq true (out_seqs s);
  kind = kind;
  content = content;
  metadata = none;
  created_at = now;
  in_seq = in_seq;
})

abbrev pub emit : String → Session → String → String → Answer
emit now s kind content = emit_for now s none kind content

abbrev pub emit_reply : String → Session → ℕ → String → String → Answer
emit_reply now s in_seq kind content = emit_for now s (some in_seq) kind content

abbrev pub with_acks : Session → List AckRow → Session
with_acks s acks = record {
  messages_in = s.messages_in;
  delivered = s.delivered;
  destinations = s.destinations;
  session_routing = s.session_routing;
  messages_out = s.messages_out;
  processing_ack = acks;
  container_state = s.container_state;
}

-- INSERT OR REPLACE
unfoldable pub claim : Session → ℕ → String → Session
claim s in_seq claimed_by = with_acks s (
    delete (λ a. a.in_seq == in_seq) s.processing_ack
    ++ record { in_seq = in_seq; claimed_by = claimed_by } ∷ [])

abbrev pub cleanup_stale_acks : Session → ℕ × Session
cleanup_stale_acks s = (length s.processing_ack, with_acks s [])

unfoldable pub set_status : Session → String → Option String → Session
set_status s status run_id = record {
  messages_in = s.messages_in;
  delivered = s.delivered;
  destinations = s.destinations;
  session_routing = s.session_routing;
  messages_out = s.messages_out;
  processing_ack = s.processing_ack;
  container_state = record { status = status; run_id = run_id };
}
