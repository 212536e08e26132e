-- ===== src/Database/Recorded.antt =====
-- What a run of crates/assistant-db/src/migrate.rs leaves recorded, and what a later run does.
use assistant_platform.Base.{
  ok, ==_refl, Option-cases, find, find-append, String, ◌≡◌, true, none, some, List, [], ◌∷◌, ◌++◌,
  arith, eq_refl, if◌then◌else◌, Result, err, All, any, refl, ap, ◌∙◌, Bool, false, Option, str_eq,
  eq_iff,
}
use assistant_platform.Database.Migrate.{
  Migration, MigrationReport, MigrationRow, Engine, Db, is_row_of, recorded_checksum, note_skipped,
  note_applied, checksum, row_of, sqlite, checksum_mismatch, Outcome, commit, on_recorded,
  apply_one, go_on, apply_each,
}

-- A recorded checksum stays when rows are added behind.
recorded-append :
    (m : Migration) (rows more : List MigrationRow) (c : String)
    → recorded_checksum m rows ≡ some c
    → recorded_checksum m (rows ++ more) ≡ some c
recorded-append m rows more c h =
    ground (arith, find-append (is_row_of m) rows more, Option-cases (find (is_row_of m) rows))

recorded_none :
    (m : Migration) (rows : List MigrationRow)
    → recorded_checksum m rows ≡ none
    → find (is_row_of m) rows ≡ none
recorded_none m rows h = ground (arith, Option-cases (find (is_row_of m) rows))

module _ (e : Engine) (now : Migration → String) where
  is_row_of-row_of : (m : Migration) → is_row_of m (row_of e now m) ≡ true
  is_row_of-row_of m = ground (arith, eq_refl m.module_id, ==_refl m.version)

  abbrev pub Recorded : Db e.Schema → Migration → Type 0
  Recorded db m = recorded_checksum m db.schema_migrations ≡ some (checksum e m)

  recorded-push :
      (m : Migration) (rows : List MigrationRow)
      → recorded_checksum m rows ≡ none
      → recorded_checksum m (rows ++ row_of e now m ∷ []) ≡ some (checksum e m)
  recorded-push m rows h = ground (
    arith,
    find-append (is_row_of m) rows (row_of e now m ∷ []),
    recorded_none m rows h,
    is_row_of-row_of m,
  )

  -- What a migration that did not fail did.
  pub data Done (m : Migration) (old : MigrationReport) (db : Db e.Schema)
      : MigrationReport → Db e.Schema → Type 0 where
    was_skipped : Recorded db m → Done m old db (note_skipped old m) db
    was_run :
        (s : e.Schema)
        → recorded_checksum m db.schema_migrations ≡ none
        → e.execute_batch m.sql db.schema ≡ ok s
        → Done m old db (note_applied old m) (record {
          schema = s;
          schema_migrations = db.schema_migrations ++ row_of e now m ∷ [];
          module_versions = db.module_versions;
        })

  abbrev pub Did : Migration → MigrationReport → Db e.Schema → Outcome e → Type 0
  Did m old db (err x, db') = Unit
  Did m old db (ok r, db') = Done m old db r db'

  commit-Did :
      (m : Migration) (old : MigrationReport) (db : Db e.Schema) (r : Result String e.Schema)
      → recorded_checksum m db.schema_migrations ≡ none
      → e.execute_batch m.sql db.schema ≡ r
      → Did m old db (commit e now m old db r)
  commit-Did m old db (err x) new h = tt
  commit-Did m old db (ok s) new h = at (any (is_row_of m) db.schema_migrations)
    where
      at :
          (b : Bool)
          → Did m old db (
              if b then (err (sqlite "UNIQUE constraint failed"), db) else (
                ok (note_applied old m),
                record {
                  schema = s;
                  schema_migrations = db.schema_migrations ++ row_of e now m ∷ [];
                  module_versions = db.module_versions;
                },
              ))
      at true = tt
      at false = was_run s new h

  on_recorded-Did :
      (m : Migration) (old : MigrationReport) (db : Db e.Schema) (o : Option String)
      → recorded_checksum m db.schema_migrations ≡ o
      → Did m old db (on_recorded e now m old db o)
  on_recorded-Did m old db none h = commit-Did m old db (e.execute_batch m.sql db.schema) h refl
  on_recorded-Did m old db (some c) h = at (str_eq c (checksum e m)) refl
    where
      at :
          (b : Bool)
          → str_eq c (checksum e m) ≡ b
          → Did m old db (
              if b
              then (ok (note_skipped old m), db)
              else (err (checksum_mismatch m.module_id m.version c (checksum e m)), db))
      at true same = was_skipped (h ∙ ap some ((eq_iff c (checksum e m)).0 same))
      at false same = tt

  apply_one-Did :
      (m : Migration) (old : MigrationReport) (db : Db e.Schema)
      → Did m old db (apply_one e now m old db)
  unfolding apply_one
  apply_one-Did m old db = on_recorded-Did m old db (recorded_checksum m db.schema_migrations) refl

  abbrev pub Keeps : Db e.Schema → Db e.Schema → Type 0
  Keeps db db' =
      (m : Migration) (c : String)
      → recorded_checksum m db.schema_migrations ≡ some c
      → recorded_checksum m db'.schema_migrations ≡ some c

  Done-Keeps :
      (m : Migration) (old r : MigrationReport) (db db' : Db e.Schema)
      → Done m old db r db'
      → Keeps db db' × Recorded db' m
  Done-Keeps m old r db db' (was_skipped h) = (λ n c g. g, h)
  Done-Keeps m old r db db' (was_run s h x) = (
    λ n c g. recorded-append n db.schema_migrations (row_of e now m ∷ []) c g,
    recorded-push m db.schema_migrations h,
  )

  abbrev pub AllDone : List Migration → Db e.Schema → Outcome e → Type 0
  AllDone ms db (err x, db') = Unit
  AllDone ms db (ok r, db') = Keeps db db' × All (Recorded db') ms

  go_on-AllDone :
      (m : Migration) (ms : List Migration) (old : MigrationReport) (db : Db e.Schema)
      → (o : Outcome e) (k : MigrationReport → Db e.Schema → Outcome e)
      → ((r : MigrationReport) (db : Db e.Schema) → AllDone ms db (k r db))
      → Did m old db o
      → AllDone (m ∷ ms) db (go_on e o k)
  go_on-AllDone m ms old db (err x, db') k rest h = tt
  go_on-AllDone m ms old db (ok r, db') k rest h = then_rest (k r db') (rest r db')
    where
      then_rest : (o : Outcome e) → AllDone ms db' o → AllDone (m ∷ ms) db o
      then_rest (err x, last) g = tt
      then_rest (ok r', last) g =
          let (keeps, recorded) = Done-Keeps m old r db db' h in
          (λ n c q. g.0 n c (keeps n c q), (g.0 m (checksum e m) recorded, g.1))

  pub apply_each-AllDone :
      (ms : List Migration) (old : MigrationReport) (db : Db e.Schema)
      → AllDone ms db (apply_each e now ms old db)
  unfolding apply_each
  apply_each-AllDone [] old db = (λ n c q. q, tt)
  apply_each-AllDone (m ∷ ms) old db =
      go_on-AllDone m ms old db (apply_one e now m old db) (apply_each e now ms)
        (apply_each-AllDone ms) (apply_one-Did m old db)
