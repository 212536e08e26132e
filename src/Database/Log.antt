-- ===== src/Database/Log.antt =====
-- The table schema_migrations as the log of the scripts that made the schema.
use assistant_platform.Base.{
  ok, if◌then◌else◌, Result, err, ◌>>=◌, any, String, ◌≡◌, refl, sym, Bool, true, false, Option,
  none, some, List, [], ◌∷◌, ◌++◌, map, append-nil, arith, str_eq, ◌∙◌, append_assoc, map-append,
}
use assistant_platform.Database.Migrate.{
  Migration, MigrationReport, DbError, sqlite, checksum_mismatch, key, Engine, Db, is_row_of,
  recorded_checksum, note_skipped, note_applied, checksum, row_of, Outcome, commit, on_recorded,
  apply_one, MigrationSet, ordered, go_on, apply_each, no_report, apply_ordered, apply,
}

module _ (e : Engine) where
  -- The scripts one after the other, up to the first that fails.
  abbrev pub execute_all : List Migration → e.Schema → Result String e.Schema
  execute_all [] s = ok s
  execute_all (m ∷ ms) s = e.execute_batch m.sql s >>= execute_all ms

  execute_all-append :
      (ms ns : List Migration) (s t u : e.Schema)
      → execute_all ms s ≡ ok t
      → execute_all ns t ≡ ok u
      → execute_all (ms ++ ns) s ≡ ok u
  execute_all-append [] ns s t u h k = ground arith
  execute_all-append (m ∷ ms) ns s t u h k =
      next (e.execute_batch m.sql s) (λ s' g. execute_all-append ms ns s' t u g k) h
    where
      next :
          (r : Result String e.Schema)
          → ((s' : e.Schema) → execute_all ms s' ≡ ok t → execute_all (ms ++ ns) s' ≡ ok u)
          → (r >>= execute_all ms) ≡ ok t
          → (r >>= execute_all (ms ++ ns)) ≡ ok u
      next (ok s') f h = f s' h
      next (err x) f h = absurd (cc)

  abbrev pub Reports : Result DbError MigrationReport → MigrationReport → List Migration → Type 0
  Reports (err x) old ran = Unit
  Reports (ok r) old ran = r.applied ≡ old.applied ++ map key ran

  -- `ran` is what was run between `db` and `db'`, and logged.
  abbrev pub Logs : (Migration → String) → Db e.Schema → Db e.Schema → List Migration → Type 0
  Logs now db db' ran =
      (db'.schema_migrations ≡ db.schema_migrations ++ map (row_of e now) ran)
      × (execute_all ran db.schema ≡ ok db'.schema)
      × (db'.module_versions ≡ db.module_versions)

  abbrev pub Logged : (Migration → String) → MigrationReport → Db e.Schema → Outcome e → Type 0
  Logged now old db o = (ran : List Migration) × Logs now db o.1 ran × Reports o.0 old ran

  module _ (now : Migration → String) where
    stays : (old : MigrationReport) (x : DbError) (db : Db e.Schema) → Logged now old db (err x, db)
    stays old x db = ([], (sym (append-nil db.schema_migrations), refl, refl), tt)

    commit-Logged :
        (m : Migration) (old : MigrationReport) (db : Db e.Schema) (r : Result String e.Schema)
        → e.execute_batch m.sql db.schema ≡ r
        → Logged now old db (commit e now m old db r)
    commit-Logged m old db (err x) h = stays old (sqlite x) db
    commit-Logged m old db (ok s) h = at (any (is_row_of m) db.schema_migrations)
      where
        at :
            (b : Bool)
            → Logged now old db (
                if b then (err (sqlite "UNIQUE constraint failed"), db) else (
                  ok (note_applied old m),
                  record {
                    schema = s;
                    schema_migrations = db.schema_migrations ++ row_of e now m ∷ [];
                    module_versions = db.module_versions;
                  },
                ))
        at true = stays old (sqlite "UNIQUE constraint failed") db
        at false = (m ∷ [], (refl, ground arith, refl), refl)

    on_recorded-Logged :
        (m : Migration) (old : MigrationReport) (db : Db e.Schema) (o : Option String)
        → Logged now old db (on_recorded e now m old db o)
    on_recorded-Logged m old db none = commit-Logged m old db (e.execute_batch m.sql db.schema) refl
    on_recorded-Logged m old db (some c) = at (str_eq c (checksum e m))
      where
        at :
            (b : Bool)
            → Logged now old db (
                if b
                then (ok (note_skipped old m), db)
                else (err (checksum_mismatch m.module_id m.version c (checksum e m)), db))
        at true =
            ([], (sym (append-nil db.schema_migrations), refl, refl), sym (append-nil old.applied))
        at false = stays old (checksum_mismatch m.module_id m.version c (checksum e m)) db

    apply_one-Logged :
        (m : Migration) (old : MigrationReport) (db : Db e.Schema)
        → Logged now old db (apply_one e now m old db)
    unfolding apply_one
    apply_one-Logged m old db =
        on_recorded-Logged m old db (recorded_checksum m db.schema_migrations)

    Logs-append :
        (a b c : Db e.Schema) (ran more : List Migration)
        → Logs now a b ran
        → Logs now b c more
        → Logs now a c (ran ++ more)
    Logs-append a b c ran more (rows, schema, versions) (rows', schema', versions') = (
      rw (rows', rows, map-append (row_of e now) ran more)
          (append_assoc a.schema_migrations (map (row_of e now) ran) (map (row_of e now) more)),
      execute_all-append ran more a.schema b.schema c.schema schema schema',
      versions' ∙ versions,
    )

    Reports-append :
        (r : Result DbError MigrationReport) (old new : MigrationReport) (ran more : List Migration)
        → new.applied ≡ old.applied ++ map key ran
        → Reports r new more
        → Reports r old (ran ++ more)
    Reports-append (err x) old new ran more h k = tt
    Reports-append (ok r) old new ran more h k =
        rw (k, h, map-append key ran more) (append_assoc old.applied (map key ran) (map key more))

    go_on-Logged :
        (old : MigrationReport) (db : Db e.Schema) (o : Outcome e)
        → (k : MigrationReport → Db e.Schema → Outcome e)
        → ((r : MigrationReport) (db : Db e.Schema) → Logged now r db (k r db))
        → Logged now old db o
        → Logged now old db (go_on e o k)
    go_on-Logged old db (err x, db') k each h = h
    go_on-Logged old db (ok r, db') k each (ran, logs, reports) =
        let (more, logs', reports') = each r db' in
        (
          ran ++ more,
          Logs-append db db' (k r db').1 ran more logs logs',
          Reports-append (k r db').0 old r ran more reports reports',
        )

    apply_each-Logged :
        (ms : List Migration) (old : MigrationReport) (db : Db e.Schema)
        → Logged now old db (apply_each e now ms old db)
    unfolding apply_each
    apply_each-Logged [] old db =
        ([], (sym (append-nil db.schema_migrations), refl, refl), sym (append-nil old.applied))
    apply_each-Logged (m ∷ ms) old db =
        go_on-Logged old db (apply_one e now m old db) (apply_each e now ms) (apply_each-Logged ms)
          (apply_one-Logged m old db)

    -- However a run ends, there is a list of migrations that it ran: their rows, in that order,
    -- are what it added to schema_migrations, and running their scripts in that order on the schema
    -- before gives the schema after; the recorded versions are as before, and the report of a run
    -- that succeeds lists the keys of exactly these migrations as applied.
    pub apply-Logged :
        (set : MigrationSet) (db : Db e.Schema) → Logged now (no_report e) db (apply e now set db)
    unfolding apply
    apply-Logged set db = at (ordered set)
      where
        at :
            (r : Result DbError (List Migration))
            → Logged now (no_report e) db (apply_ordered e now db r)
        at (err x) = stays (no_report e) x db
        at (ok ms) = apply_each-Logged ms (no_report e) db
