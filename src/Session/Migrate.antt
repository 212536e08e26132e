-- ===== src/Session/Migrate.antt =====
-- crates/assistant-session/src/migrate.rs: the lazy migration of one database of a session. SQL and
-- SHA-256 are the Engine of the central database.
use Prim.Native.String.{◌++◌ as ◌<>◌}
use assistant_platform.Base.{
  ok, leb, ◌==◌, if◌then◌else◌, Result, err, or_else, find, any, ℕ, ◌+◌, String, Bool, true, false,
  not, ◌&&◌, ◌||◌, Option, none, some, List, [], ◌∷◌, ◌++◌, str_eq,
}
use assistant_platform.Database.Migrate.{Engine}
use assistant_platform.Session.Tables.{
  DbKind, inbound, outbound, SessionError, unsupported_schema_version, bad_migration_sequence,
  sqlite, checksum_mismatch,
}

pub record SessionMigration : Type 0 where
  pub db_kind : DbKind
  pub version : ℕ
  pub name : String
  pub sql : String

pub record SchemaCompat : Type 0 where
  pub min : ℕ
  pub max : ℕ

abbrev pub exact_version : ℕ → SchemaCompat
exact_version version = record { min = version; max = version }

abbrev pub supports_version : SchemaCompat → ℕ → Bool
supports_version compat version = leb compat.min version && leb version compat.max

-- The row of schema_meta, and a row of schema_migrations.
pub record MetaRow : Type 0 where
  pub db_kind : DbKind
  pub schema_version : ℕ
  pub protocol_version : ℕ

pub record AppliedRow : Type 0 where
  pub version : ℕ
  pub name : String
  pub checksum : String
  pub applied_at : String

pub record SessionDb (S : Type 0) : Type 0 where
  pub schema : S
  pub meta : Option MetaRow
  pub migrations : List AppliedRow

abbrev pub same_kind : DbKind → DbKind → Bool
same_kind inbound inbound = true
same_kind outbound outbound = true
same_kind _ _ = false

abbrev pub is_version : ℕ → AppliedRow → Bool
is_version v row = row.version == v

abbrev pub checksum_of : Option AppliedRow → Option String
checksum_of none = none
checksum_of (some row) = some row.checksum

abbrev pub recorded_at_version : ℕ → List AppliedRow → Option String
recorded_at_version v rows = checksum_of (find (is_version v) rows)

abbrev pub version_in : Option MetaRow → ℕ
version_in none = 0
version_in (some meta) = meta.schema_version

unfoldable pub check_runner_compatibility :
    DbKind → ℕ → SchemaCompat → Result SessionError (Unit {0})
check_runner_compatibility kind found compat =
    if supports_version compat found
    then ok tt
    else err (unsupported_schema_version kind found compat.min compat.max)

unfoldable pub check_sequence : DbKind → ℕ → List SessionMigration → Result SessionError (Unit {0})
check_sequence kind expected [] = ok tt
check_sequence kind expected (m ∷ ms) =
    let rest = check_sequence kind (expected + 1) ms in
    if not (same_kind m.db_kind kind) || not (m.version == expected)
    then err (bad_migration_sequence kind m.version)
    else rest

-- `migrations.last()`, 0 if there is none
abbrev pub last_version : List SessionMigration → ℕ
last_version [] = 0
last_version (m ∷ []) = m.version
last_version (m ∷ n ∷ ms) = last_version (n ∷ ms)

module _ (e : Engine) where
  abbrev pub schema_version : SessionDb e.Schema → ℕ
  schema_version db = version_in db.meta

  abbrev pub migration_checksum : SessionMigration → String
  migration_checksum m = e.sha256_hex (m.name <> "\0" <> m.sql)

  -- INSERT OR IGNORE INTO schema_meta
  unfoldable pub ensure_meta : DbKind → SessionDb e.Schema → SessionDb e.Schema
  ensure_meta kind db = record {
    schema = db.schema;
    meta =
        or_else db.meta
          (some (record { db_kind = kind; schema_version = 0; protocol_version = 1 }));
    migrations = db.migrations;
  }

  abbrev pub with_version : ℕ → Option MetaRow → Option MetaRow
  with_version v none = none
  with_version v (some meta) = some (record {
    db_kind = meta.db_kind;
    schema_version = v;
    protocol_version = meta.protocol_version;
  })

  abbrev pub Migrated : Type 0
  Migrated = Result SessionError (List ℕ) × SessionDb e.Schema

  abbrev pub commit_version :
      String → SessionMigration → List ℕ → SessionDb e.Schema → Result String e.Schema → Migrated
  commit_version now m applied db (err t) = (err (sqlite t), db)
  commit_version now m applied db (ok schema) =
      if any (is_version m.version) db.migrations
      then (err (sqlite "UNIQUE constraint failed"), db)
      else (
        ok (applied ++ m.version ∷ []),
        record {
          schema = schema;
          meta = db.meta;
          migrations =
              db.migrations
              ++ record {
                version = m.version;
                name = m.name;
                checksum = migration_checksum m;
                applied_at = now;
              }
                ∷ [];
        },
      )

  abbrev pub on_checksum :
      DbKind → String → SessionMigration → List ℕ → SessionDb e.Schema → Option String → Migrated
  on_checksum kind now m applied db (some recorded) =
      if str_eq recorded (migration_checksum m)
      then (ok applied, db)
      else (err (checksum_mismatch kind m.version recorded (migration_checksum m)), db)
  on_checksum kind now m applied db none =
      commit_version now m applied db (e.execute_batch m.sql db.schema)

  abbrev pub next_migration : Migrated → (List ℕ → SessionDb e.Schema → Migrated) → Migrated
  next_migration (err t, db) k = (err t, db)
  next_migration (ok applied, db) k = k applied db

  unfoldable pub migrate_each :
      DbKind → String → List SessionMigration → List ℕ → SessionDb e.Schema → Migrated
  migrate_each kind now [] applied db = (ok applied, db)
  migrate_each kind now (m ∷ ms) applied db =
      next_migration
        (on_checksum kind now m applied db (recorded_at_version m.version db.migrations))
        (migrate_each kind now ms)

  abbrev pub set_version : ℕ → List ℕ → SessionDb e.Schema → Migrated
  set_version v applied db = (
    ok applied,
    record { schema = db.schema; meta = with_version v db.meta; migrations = db.migrations },
  )

  abbrev pub after_sequence :
      DbKind
      → String
      → List SessionMigration
      → SessionDb e.Schema
      → Result SessionError (Unit {0})
      → Migrated
  after_sequence kind now ms db (err t) = (err t, db)
  after_sequence kind now ms db (ok _) =
      next_migration (migrate_each kind now ms [] db) (set_version (last_version ms))

  -- `now` is datetime('now').
  unfoldable pub lazy_migrate :
      DbKind → String → List SessionMigration → SessionDb e.Schema → Migrated
  lazy_migrate kind now ms db =
      after_sequence kind now ms (ensure_meta kind db) (check_sequence kind 1 ms)
