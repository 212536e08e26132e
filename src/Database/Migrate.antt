-- ===== src/Database/Migrate.antt =====
-- The migration sets and `apply` of crates/assistant-db/src/migrate.rs. A missing bookkeeping table
-- stands for an empty one, since each function creates the tables first.
use Prim.Native.String.{◌++◌ as ◌<>◌}
use assistant_platform.Base.{
  ok, if◌then◌else◌, ltb, leb, ◌==◌, is_some, Result, err, ◌>>=◌, or_else, find, any, ℕ, suc,
  String, Bool, not, ◌&&◌, ◌||◌, Option, none, some, List, [], ◌∷◌, ◌++◌, str_eq,
}

pub record Migration : Type 0 where
  pub module_id : String
  pub version : ℕ
  pub name : String
  pub sql : String

pub record MigrationSet : Type 0 where
  pub module_order : List String
  pub migrations : List Migration

abbrev pub new_set : List String → MigrationSet
new_set module_order = record { module_order = module_order; migrations = [] }

abbrev pub add : MigrationSet → Migration → MigrationSet
add set migration = record {
  module_order = set.module_order;
  migrations = set.migrations ++ migration ∷ [];
}

pub record MigrationReport : Type 0 where
  pub applied : List (String × ℕ)
  pub skipped : List (String × ℕ)

pub data DbError : Type 0 where
  sqlite : String → DbError
  unknown_migration_module : String → DbError
  duplicate_migration : String → ℕ → DbError
  checksum_mismatch : String → ℕ → String → String → DbError

abbrev pub key : Migration → String × ℕ
key m = (m.module_id, m.version)

abbrev pub same_key : String × ℕ → String × ℕ → Bool
same_key a b = str_eq a.0 b.0 && a.1 == b.1

-- The map from a module to its place: a module that is listed twice has its last place.
unfoldable pub rank_from : ℕ → List String → String → Option ℕ
rank_from i [] id = none
rank_from i (m ∷ ms) id = or_else (rank_from (suc i) ms id) (if str_eq m id then some i else none)

unfoldable pub rank : List String → String → Option ℕ
rank order id = rank_from 0 order id

-- The loop over the registered migrations, with the keys seen so far.
unfoldable pub check_migrations :
    List String → List (String × ℕ) → List Migration → Result DbError (Unit {0})
check_migrations order seen [] = ok tt
check_migrations order seen (m ∷ ms) =
    let rest = check_migrations order (key m ∷ seen) ms in
    if not (is_some (rank order m.module_id))
    then err (unknown_migration_module m.module_id)
    else if any (same_key (key m)) seen
    then err (duplicate_migration m.module_id m.version)
    else rest

-- `rank[…]`, which is only read for modules that have a place.
abbrev pub place_of : List String → Migration → ℕ
place_of order m = elim (rank order m.module_id) [ none ↦ 0 | some i ↦ i ]

abbrev pub comes_first : List String → Migration → Migration → Bool
comes_first order a b =
    ltb (place_of order a) (place_of order b)
    || place_of order a == place_of order b && leb a.version b.version

-- `sort_by_key`, which is stable
unfoldable pub insert_migration : List String → Migration → List Migration → List Migration
insert_migration order x [] = x ∷ []
insert_migration order x (y ∷ ys) =
    let rest = insert_migration order x ys in if comes_first order x y then x ∷ y ∷ ys else y ∷ rest

unfoldable pub sort_migrations : List String → List Migration → List Migration
sort_migrations order [] = []
sort_migrations order (x ∷ xs) = insert_migration order x (sort_migrations order xs)

unfoldable pub ordered : MigrationSet → Result DbError (List Migration)
ordered set = do
  _ ← check_migrations set.module_order [] set.migrations
  ok (sort_migrations set.module_order set.migrations)

pub record MigrationRow : Type 0 where
  pub module_id : String
  pub version : ℕ
  pub name : String
  pub checksum : String
  pub applied_at : String

pub record VersionRow : Type 0 where
  pub module_id : String
  pub module_version : String
  pub product_id : String
  pub product_version : String
  pub platform_version : String
  pub recorded_at : ℕ

-- What the migrations are run by: a batch of SQL changes the schema or fails and is rolled back.
-- It does not write the two bookkeeping tables.
pub record Engine : Type 1 where
  pub Schema : Type 0
  pub execute_batch : String → Schema → Result String Schema
  pub sha256_hex : String → String

pub record Db (S : Type 0) : Type 0 where
  pub schema : S
  pub schema_migrations : List MigrationRow
  pub module_versions : List VersionRow

abbrev pub is_row_of : Migration → MigrationRow → Bool
is_row_of m row = str_eq row.module_id m.module_id && row.version == m.version

abbrev pub recorded_of : Option MigrationRow → Option String
recorded_of none = none
recorded_of (some row) = some row.checksum

abbrev pub recorded_checksum : Migration → List MigrationRow → Option String
recorded_checksum m rows = recorded_of (find (is_row_of m) rows)

abbrev pub note_skipped : MigrationReport → Migration → MigrationReport
note_skipped r m = record { applied = r.applied; skipped = r.skipped ++ key m ∷ [] }

abbrev pub note_applied : MigrationReport → Migration → MigrationReport
note_applied r m = record { applied = r.applied ++ key m ∷ []; skipped = r.skipped }

module _ (e : Engine) where
  abbrev pub checksum : Migration → String
  checksum m = e.sha256_hex (m.name <> "\0" <> m.sql)

  abbrev pub row_of : (Migration → String) → Migration → MigrationRow
  row_of now m = record {
    module_id = m.module_id;
    version = m.version;
    name = m.name;
    checksum = checksum m;
    applied_at = now m;
  }

  abbrev pub Outcome : Type 0
  Outcome = Result DbError MigrationReport × Db e.Schema

  -- The transaction: the batch, the INSERT under the primary key, the commit.
  abbrev pub commit :
      (Migration → String)
      → Migration
      → MigrationReport
      → Db e.Schema
      → Result String e.Schema
      → Outcome
  commit now m report db (err t) = (err (sqlite t), db)
  commit now m report db (ok schema) =
      if any (is_row_of m) db.schema_migrations
      then (err (sqlite "UNIQUE constraint failed"), db)
      else (
        ok (note_applied report m),
        record {
          schema = schema;
          schema_migrations = db.schema_migrations ++ row_of now m ∷ [];
          module_versions = db.module_versions;
        },
      )

  abbrev pub on_recorded :
      (Migration → String) → Migration → MigrationReport → Db e.Schema → Option String → Outcome
  on_recorded now m report db (some recorded) =
      if str_eq recorded (checksum m)
      then (ok (note_skipped report m), db)
      else (err (checksum_mismatch m.module_id m.version recorded (checksum m)), db)
  on_recorded now m report db none = commit now m report db (e.execute_batch m.sql db.schema)

  unfoldable pub apply_one :
      (Migration → String) → Migration → MigrationReport → Db e.Schema → Outcome
  apply_one now m report db = on_recorded now m report db (recorded_checksum m db.schema_migrations)

  abbrev pub go_on : Outcome → (MigrationReport → Db e.Schema → Outcome) → Outcome
  go_on (err t, db) k = (err t, db)
  go_on (ok report, db) k = k report db

  unfoldable pub apply_each :
      (Migration → String) → List Migration → MigrationReport → Db e.Schema → Outcome
  apply_each now [] report db = (ok report, db)
  apply_each now (m ∷ ms) report db = go_on (apply_one now m report db) (apply_each now ms)

  abbrev pub no_report : MigrationReport
  no_report = record { applied = []; skipped = [] }

  abbrev pub apply_ordered :
      (Migration → String) → Db e.Schema → Result DbError (List Migration) → Outcome
  apply_ordered now db (err t) = (err t, db)
  apply_ordered now db (ok ms) = apply_each now ms no_report db

  -- `now m` is the time at which the row of `m` is written.
  unfoldable pub apply : (Migration → String) → MigrationSet → Db e.Schema → Outcome
  apply now set db = apply_ordered now db (ordered set)
