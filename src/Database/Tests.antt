-- ===== src/Database/Tests.antt =====
-- Runs of the migrations.
use mathlib.Core.List.{Memᴰ}
use assistant_platform.Database.Log.{Logged, apply-Logged}
use assistant_platform.Database.Versions.{VersionRecord, record_versions}
use assistant_platform.Database.ReadBack.{read-record_versions, Reads}
use assistant_platform.Database.Again.{apply-again, drift_refused}
use assistant_platform.Database.Applies.{is_new, apply-settles, settled}
use assistant_platform.Database.Ordered.{Orders, ordered_exact}
use assistant_platform.Base.{
  ok, if◌then◌else◌, err, String, ◌≡◌, refl, List, [], ◌∷◌, ◌++◌, str_eq, is_some, is_ok, select,
  inl, false, map, ◌≢◌, eq_iff, arith,
}
use assistant_platform.Database.Migrate.{
  Migration, MigrationSet, new_set, add, rank, check_migrations, insert_migration, sort_migrations,
  ordered, Engine, Db, apply_one, apply_each, apply, MigrationReport, key, recorded_checksum,
  checksum, row_of, no_report, rank_from, VersionRow,
}

-- The schema is the scripts that were run; a script "bad" fails, and the digest is the text itself.
abbrev scripts : Engine
scripts = record {
  Schema = List String;
  execute_batch = λ sql s. if str_eq sql "bad" then err "syntax error" else ok (s ++ sql ∷ []);
  sha256_hex = λ t. t;
}

abbrev base : Migration
base = record { module_id = "core"; version = 1; name = "base"; sql = "create a" }

abbrev users : Migration
users = record { module_id = "users"; version = 1; name = "users"; sql = "create u" }

abbrev late : Migration
late = record { module_id = "core"; version = 2; name = "late"; sql = "alter a" }

abbrev set : MigrationSet
set = add (add (add (new_set ("core" ∷ "users" ∷ [])) users) late) base

abbrev empty_db : Db (List String)
empty_db = record { schema = []; schema_migrations = []; module_versions = [] }

abbrev now : Migration → String
now m = "2026-01-01"

abbrev later : Migration → String
later m = "2026-01-02"

set-ordered : ordered set ≡ ok (base ∷ late ∷ users ∷ [])
unfolding ordered check_migrations sort_migrations insert_migration rank rank_from
set-ordered = refl

ordered_exact_example : Orders set (ordered set)
ordered_exact_example = ordered_exact set

abbrev full_db : Db (List String)
full_db = record {
  schema = "create a" ∷ "alter a" ∷ "create u" ∷ [];
  schema_migrations =
      row_of scripts now base ∷ row_of scripts now late ∷ row_of scripts now users ∷ [];
  module_versions = [];
}

abbrev full_report : MigrationReport
full_report = record { applied = ("core", 1) ∷ ("core", 2) ∷ ("users", 1) ∷ []; skipped = [] }

first_run : apply scripts now set empty_db ≡ (ok full_report, full_db)
unfolding apply apply_each apply_one ordered check_migrations sort_migrations insert_migration rank
    rank_from
first_run = refl

apply-Logged_example :
    Logged scripts now (no_report scripts) empty_db (apply scripts now set empty_db)
apply-Logged_example = apply-Logged scripts now set empty_db

apply-again_example :
    (ms : List Migration) × (ordered set ≡ ok ms)
    × (apply scripts later set full_db
        ≡ (ok (record { applied = []; skipped = map key ms }), full_db))
apply-again_example = apply-again scripts now set empty_db full_db full_report first_run later

apply-settles_example :
    apply scripts now set empty_db
    ≡ settled scripts now
        (no_report scripts)
        empty_db
        (select (is_new scripts now empty_db) (base ∷ late ∷ users ∷ []))
        (select
          (λ m. is_some (recorded_checksum m empty_db.schema_migrations))
          (base ∷ late ∷ users ∷ []))
        ("create a" ∷ "alter a" ∷ "create u" ∷ [])
apply-settles_example =
    apply-settles scripts now set empty_db (base ∷ late ∷ users ∷ [])
      ("create a" ∷ "alter a" ∷ "create u" ∷ []) set-ordered (inl refl, (inl refl, (inl refl, tt)))
      refl

abbrev edited_base : Migration
edited_base = record { module_id = "core"; version = 1; name = "base"; sql = "create b" }

other : checksum scripts base ≢ checksum scripts edited_base
other h =
    let same = (eq_iff (checksum scripts base) (checksum scripts edited_base)).1 h in absurd (cc)

drift_refused_example :
    is_ok (apply scripts now (add (new_set ("core" ∷ [])) edited_base) full_db).0 ≡ false
drift_refused_example =
    drift_refused scripts now (add (new_set ("core" ∷ [])) edited_base) full_db edited_base
      (checksum scripts base) (Memᴰ.head refl) refl other

abbrev release : VersionRecord
release = record {
  product_id = "personal";
  product_version = "2";
  platform_version = "7";
  modules = ("users", "2") ∷ ("core", "3") ∷ [];
}

abbrev old_rows : List VersionRow
old_rows =
    record {
      module_id = "core";
      module_version = "1";
      product_id = "work";
      product_version = "1";
      platform_version = "6";
      recorded_at = 5;
    }
    ∷ []

read-record_versions_example :
    Reads release (record_versions release (λ _. 9) old_rows) release.modules
read-record_versions_example =
    read-record_versions release ("users", "2") (("core", "3") ∷ []) 9 (λ _. 9) old_rows refl
      (λ id. omega arith) ((ground arith, tt), (tt, tt)) (omega arith, tt)
