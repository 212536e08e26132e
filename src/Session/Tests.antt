-- ===== src/Session/Tests.antt =====
-- A session in which a scheduled turn is tried twice.
use assistant_platform.Session.Parity.{run-parity}
use assistant_platform.Session.Enqueued.{enqueued_once}
use assistant_platform.Base.{
  ok, ◌==◌, All, any, ℕ, String, ◌≡◌, refl, false, none, some, List, [], ◌∷◌, ◌++◌,
}
use assistant_platform.Session.Tables.{Session, inbound}
use assistant_platform.Session.Host.{
  InboundMessage, new_session, next_seq, in_seqs, enqueue_inbound_keyed, upsert_inbound_meta,
  mark_delivered, verify_sequence_parity,
}
use assistant_platform.Session.Container.{emit_for, out_seqs}
use assistant_platform.Database.Migrate.{Engine}
use assistant_platform.Session.Migrate.{
  SessionMigration, SessionDb, check_sequence, schema_version, ensure_meta, migrate_each,
  lazy_migrate,
}
use assistant_platform.Session.Run.{Call, enqueues, upserts, delivers, emits, run}

abbrev remind : InboundMessage
remind = record { sender = "scheduler"; content = "remind me"; metadata = none; thread_id = none }

abbrev calls : List Call
calls =
    enqueues "10:00" remind none
    ∷ emits "10:01" (some 0) "text" "ok"
    ∷ upserts "10:02" "plan" remind
    ∷ emits "10:03" none "text" "done"
    ∷ delivers 1
    ∷ []

numbers :
    (in_seqs (run new_session calls) ≡ 0 ∷ 2 ∷ []) × (out_seqs (run new_session calls) ≡ 1 ∷ 3 ∷ [])
unfolding enqueue_inbound_keyed upsert_inbound_meta emit_for next_seq mark_delivered
numbers = (refl, refl)

run-parity_example :
    (verify_sequence_parity (run new_session calls) ≡ ok tt)
    × All
        (λ n. any (λ m. m == n) (out_seqs (run new_session calls)) ≡ false)
        (in_seqs (run new_session calls))
run-parity_example = run-parity calls

abbrev first : Session
first = (enqueue_inbound_keyed "11:00" (run new_session calls) remind (some "turn")).1

enqueued_once_example :
    (seq : ℕ) × ((enqueue_inbound_keyed "11:00" (run new_session calls) remind (some "turn")).0
      ≡ ok seq)
    × ((more : List Call) (later : String) (other : InboundMessage)
        → enqueue_inbound_keyed later (run first more) other (some "turn")
          ≡ (ok seq, run first more))
enqueued_once_example = enqueued_once "11:00" (run new_session calls) remind "turn"

abbrev scripts : Engine
scripts = record {
  Schema = List String;
  execute_batch = λ sql s. ok (s ++ sql ∷ []);
  sha256_hex = λ t. t;
}

abbrev step : ℕ → String → SessionMigration
step version sql = record { db_kind = inbound; version = version; name = sql; sql = sql }

abbrev empty_db : SessionDb (List String)
empty_db = record { schema = []; meta = none; migrations = [] }

abbrev newer : SessionDb (List String)
newer = (lazy_migrate scripts inbound "10:00" (step 1 "a" ∷ step 2 "b" ∷ []) empty_db).1

-- A build that knows the first migration only opens the database of a newer one.
older_build :
    (schema_version scripts newer ≡ 2)
    × (schema_version scripts (lazy_migrate scripts inbound "10:05" (step 1 "a" ∷ []) newer).1 ≡ 1)
unfolding lazy_migrate migrate_each check_sequence ensure_meta
older_build = (refl, refl)
