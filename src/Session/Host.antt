-- ===== src/Session/Host.antt =====
-- crates/assistant-session/src/session.rs: what the host does with a session. The files are there and
-- at the current schema, so that opening them migrates nothing and the check of the version passes;
-- `now` is datetime('now').
use assistant_platform.Base.{
  ok, map, leb, ◌==◌, if◌then◌else◌, is_some, Result, err, ◌>>=◌, find, any, update, delete, ℕ, ◌+◌,
  ◌%◌, String, Bool, true, false, not, ◌||◌, Option, none, some, List, [], ◌∷◌, ◌++◌, str_eq,
}
use assistant_platform.Session.Tables.{
  Session, InboundRow, DestinationRow, OutboundRow, DbKind, inbound, outbound, SessionError, sqlite,
  sequence_parity, with_messages_in,
}

pub record InboundMessage : Type 0 where
  pub sender : String
  pub content : String
  pub metadata : Option String
  pub thread_id : Option String

-- init_session on a new folder.
abbrev pub new_session : Session
new_session = record {
  messages_in = [];
  delivered = [];
  destinations = [];
  session_routing = [];
  messages_out = [];
  processing_ack = [];
  container_state = record { status = "stopped"; run_id = none };
}

abbrev pub greatest : ℕ → Option ℕ → ℕ
greatest n none = n
greatest n (some m) = if leb n m then m else n

-- SELECT MAX(seq)
abbrev pub max_seq : List ℕ → Option ℕ
max_seq [] = none
max_seq (n ∷ ns) = some (greatest n (max_seq ns))

abbrev pub next_of : Bool → Option ℕ → ℕ
next_of odd none = if odd then 1 else 0
next_of odd (some m) = m + 2

unfoldable pub next_seq : Bool → List ℕ → ℕ
next_seq odd seqs = next_of odd (max_seq seqs)

abbrev pub Answer : Type 0
Answer = Result SessionError ℕ × Session

abbrev pub carries : String → Option String → Bool
carries key none = false
carries key (some k) = str_eq k key

abbrev pub has_key : String → InboundRow → Bool
has_key key row = carries key row.idempotency_key

abbrev pub seq_of : Option InboundRow → Option ℕ
seq_of none = none
seq_of (some row) = some row.seq

abbrev pub existing : Option String → List InboundRow → Option ℕ
existing none rows = none
existing (some key) rows = seq_of (find (has_key key) rows)

-- The primary key and the unique index, in which NULLs are distinct.
abbrev pub clashes : Option String → ℕ → List InboundRow → Bool
clashes key seq rows = any (λ r. r.seq == seq) rows || is_some (existing key rows)

abbrev pub insert_inbound : Session → InboundRow → Answer
insert_inbound s row =
    if clashes row.idempotency_key row.seq s.messages_in
    then (err (sqlite "UNIQUE constraint failed"), s)
    else (ok row.seq, with_messages_in s (s.messages_in ++ row ∷ []))

abbrev pub in_seqs : Session → List ℕ
in_seqs s = map (λ r. r.seq) s.messages_in

abbrev pub inbound_row : String → InboundMessage → Option String → Option String → ℕ → InboundRow
inbound_row now message key thread_id seq = record {
  seq = seq;
  sender = message.sender;
  content = message.content;
  metadata = message.metadata;
  created_at = now;
  edited_at = none;
  idempotency_key = key;
  thread_id = thread_id;
}

unfoldable pub enqueue_inbound_keyed : String → Session → InboundMessage → Option String → Answer
enqueue_inbound_keyed now s message key = elim (existing key s.messages_in) [
  | some seq ↦ (ok seq, s)
  | none ↦
      insert_inbound s (inbound_row now message key message.thread_id (next_seq false (in_seqs s)))
]

abbrev pub enqueue_inbound : String → Session → InboundMessage → Answer
enqueue_inbound now s message = enqueue_inbound_keyed now s message none

abbrev pub edited : String → InboundMessage → InboundRow → InboundRow
edited now message row = record {
  seq = row.seq;
  sender = row.sender;
  content = message.content;
  metadata = message.metadata;
  created_at = row.created_at;
  edited_at = some now;
  idempotency_key = row.idempotency_key;
  thread_id = row.thread_id;
}

unfoldable pub upsert_inbound_meta : String → Session → String → InboundMessage → Answer
upsert_inbound_meta now s key message = elim (existing (some key) s.messages_in) [
  | some seq ↦
      (ok seq, with_messages_in s (update (λ r. r.seq == seq) (edited now message) s.messages_in))
  | none ↦ insert_inbound s (inbound_row now message (some key) none (next_seq false (in_seqs s)))
]

-- ORDER BY seq
abbrev pub insert_seq : OutboundRow → List OutboundRow → List OutboundRow
insert_seq x [] = x ∷ []
insert_seq x (y ∷ ys) =
    let rest = insert_seq x ys in if leb x.seq y.seq then x ∷ y ∷ ys else y ∷ rest

abbrev pub order_seq : List OutboundRow → List OutboundRow
order_seq [] = []
order_seq (x ∷ xs) = insert_seq x (order_seq xs)

abbrev pub read_outbound : Session → List OutboundRow
read_outbound s = order_seq s.messages_out

-- INSERT OR REPLACE
unfoldable pub mark_delivered : Session → ℕ → Session
mark_delivered s seq = record {
  messages_in = s.messages_in;
  delivered = delete (λ n. n == seq) s.delivered ++ seq ∷ [];
  destinations = s.destinations;
  session_routing = s.session_routing;
  messages_out = s.messages_out;
  processing_ack = s.processing_ack;
  container_state = s.container_state;
}

-- COALESCE(MAX(seq), 0)
abbrev pub max_delivered_seq : Session → ℕ
max_delivered_seq s = elim (max_seq s.delivered) [ none ↦ 0 | some m ↦ m ]

-- The primary key of destinations.
abbrev pub has_repeated : List DestinationRow → Bool
has_repeated [] = false
has_repeated (d ∷ ds) = any (λ e. str_eq e.destination_id d.destination_id) ds || has_repeated ds

unfoldable pub set_destinations :
    Session → List DestinationRow → Result SessionError (Unit {0}) × Session
set_destinations s destinations =
    if has_repeated destinations then (err (sqlite "UNIQUE constraint failed"), s) else (
      ok tt,
      record {
        messages_in = s.messages_in;
        delivered = s.delivered;
        destinations = destinations;
        session_routing = s.session_routing;
        messages_out = s.messages_out;
        processing_ack = s.processing_ack;
        container_state = s.container_state;
      },
    )

unfoldable pub set_routing : Session → String → String → Session
set_routing s key value = record {
  messages_in = s.messages_in;
  delivered = s.delivered;
  destinations = s.destinations;
  session_routing =
      if any (λ r. str_eq r.0 key) s.session_routing
      then update (λ r. str_eq r.0 key) (λ _. (key, value)) s.session_routing
      else s.session_routing ++ (key, value) ∷ [];
  messages_out = s.messages_out;
  processing_ack = s.processing_ack;
  container_state = s.container_state;
}

abbrev pub remainder : Bool → ℕ
remainder odd = if odd then 1 else 0

abbrev pub parity_of : DbKind → Option ℕ → Result SessionError (Unit {0})
parity_of kind none = ok tt
parity_of kind (some seq) = err (sequence_parity kind seq)

unfoldable pub check_parity : DbKind → Bool → List ℕ → Result SessionError (Unit {0})
check_parity kind odd seqs = parity_of kind (find (λ n. not (n % 2 == remainder odd)) seqs)

unfoldable pub verify_sequence_parity : Session → Result SessionError (Unit {0})
verify_sequence_parity s = do
  _ ← check_parity inbound false (in_seqs s)
  check_parity outbound true (map (λ r. r.seq) s.messages_out)
