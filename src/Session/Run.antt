-- ===== src/Session/Run.antt =====
-- The writes of the host and of the container, in whatever order they come.
use mathlib.Core.Path.{subst}
use assistant_platform.Base.{
  ok, map, ◌==◌, if◌then◌else◌, err, update, ℕ, String, ◌≡◌, refl, sym, Bool, true, false, Option,
  none, some, List, [], ◌∷◌, ◌++◌, arith,
}
use assistant_platform.Session.Tables.{
  Session, InboundRow, DestinationRow, sqlite, with_messages_in,
}
use assistant_platform.Session.Host.{
  Answer, next_seq, InboundMessage, existing, clashes, insert_inbound, in_seqs, inbound_row,
  enqueue_inbound_keyed, edited, upsert_inbound_meta, mark_delivered, set_destinations, set_routing,
}
use assistant_platform.Session.Container.{emit_for, claim, cleanup_stale_acks, set_status}

pub data Call : Type 0 where
  enqueues : String → InboundMessage → Option String → Call
  upserts : String → String → InboundMessage → Call
  delivers : ℕ → Call
  routes : String → String → Call
  redirects : List DestinationRow → Call
  emits : String → Option ℕ → String → String → Call
  claims : ℕ → String → Call
  cleans : Call
  reports : String → Option String → Call

abbrev pub after : Session → Call → Session
after s (enqueues now message key) = (enqueue_inbound_keyed now s message key).1
after s (upserts now key message) = (upsert_inbound_meta now s key message).1
after s (delivers seq) = mark_delivered s seq
after s (routes key value) = set_routing s key value
after s (redirects destinations) = (set_destinations s destinations).1
after s (emits now in_seq kind content) = (emit_for now s in_seq kind content).1
after s (claims in_seq by) = claim s in_seq by
after s cleans = (cleanup_stale_acks s).1
after s (reports status run_id) = set_status s status run_id

abbrev pub run : Session → List Call → Session
run s [] = s
run s (c ∷ calls) = run (after s c) calls

-- What a call does to the inbound messages: nothing, one row more whose number and key are new, or an
-- edit, which leaves numbers and keys.
pub data InboundChange (rows : List InboundRow) : List InboundRow → Type 0 where
  same : InboundChange rows rows
  added :
      (row : InboundRow)
      → row.seq ≡ next_seq false (map (λ r. r.seq) rows)
      → existing row.idempotency_key rows ≡ none
      → InboundChange rows (rows ++ row ∷ [])
  changed :
      (now : String) (message : InboundMessage) (seq : ℕ)
      → InboundChange rows (update (λ r. r.seq == seq) (edited now message) rows)

-- The change that an answer comes with.
abbrev Changes : List InboundRow → Answer → Type 0
Changes rows answer = InboundChange rows answer.1.messages_in

insert-InboundChange :
    (s : Session) (row : InboundRow)
    → row.seq ≡ next_seq false (in_seqs s)
    → existing row.idempotency_key s.messages_in ≡ none
    → InboundChange s.messages_in (insert_inbound s row).1.messages_in
insert-InboundChange s row e h = at (clashes row.idempotency_key row.seq s.messages_in)
  where
    at :
        (b : Bool)
        → Changes s.messages_in (
            if b
            then (err (sqlite "UNIQUE constraint failed"), s)
            else (ok row.seq, with_messages_in s (s.messages_in ++ row ∷ [])))
    at true = same
    at false = added row e h

enqueue-InboundChange :
    (now : String) (s : Session) (message : InboundMessage) (key : Option String)
    → InboundChange s.messages_in (enqueue_inbound_keyed now s message key).1.messages_in
unfolding enqueue_inbound_keyed
enqueue-InboundChange now s message key = at (existing key s.messages_in) refl
  where
    at :
        (o : Option ℕ)
        → existing key s.messages_in ≡ o
        → Changes s.messages_in (elim o [
          | some seq ↦ (ok seq, s)
          | none ↦
              insert_inbound s
                (inbound_row now message key message.thread_id (next_seq false (in_seqs s)))
        ])
    at none e =
        insert-InboundChange s
          (inbound_row now message key message.thread_id (next_seq false (in_seqs s))) refl e
    at (some seq) e = same

upsert-InboundChange :
    (now : String) (s : Session) (key : String) (message : InboundMessage)
    → InboundChange s.messages_in (upsert_inbound_meta now s key message).1.messages_in
unfolding upsert_inbound_meta
upsert-InboundChange now s key message = at (existing (some key) s.messages_in) refl
  where
    at :
        (o : Option ℕ)
        → existing (some key) s.messages_in ≡ o
        → Changes s.messages_in (elim o [
          | some seq ↦ (
            ok seq,
            with_messages_in s (update (λ r. r.seq == seq) (edited now message) s.messages_in),
          )
          | none ↦
              insert_inbound s
                (inbound_row now message (some key) none (next_seq false (in_seqs s)))
        ])
    at none e =
        insert-InboundChange s
          (inbound_row now message (some key) none (next_seq false (in_seqs s))) refl e
    at (some seq) e = changed now message seq

emit-keeps :
    (now : String) (s : Session) (in_seq : Option ℕ) (kind content : String)
    → (emit_for now s in_seq kind content).1.messages_in ≡ s.messages_in
unfolding emit_for
emit-keeps now s in_seq kind content = ground arith

pub destinations-keeps :
    (s : Session) (ds : List DestinationRow)
    → ((set_destinations s ds).1.messages_in ≡ s.messages_in)
      × ((set_destinations s ds).1.messages_out ≡ s.messages_out)
unfolding set_destinations
destinations-keeps s ds = ground arith

pub after-InboundChange :
    (c : Call) (s : Session) → InboundChange s.messages_in (after s c).messages_in
unfolding mark_delivered set_routing claim set_status
after-InboundChange (enqueues now message key) s = enqueue-InboundChange now s message key
after-InboundChange (upserts now key message) s = upsert-InboundChange now s key message
after-InboundChange (delivers seq) s = same
after-InboundChange (routes key value) s = same
after-InboundChange (redirects ds) s =
    subst (InboundChange s.messages_in) (sym (destinations-keeps s ds).0) same
after-InboundChange (emits now in_seq kind content) s =
    subst (InboundChange s.messages_in) (sym (emit-keeps now s in_seq kind content)) same
after-InboundChange (claims in_seq by) s = same
after-InboundChange cleans s = same
after-InboundChange (reports status run_id) s = same
