-- ===== src/Database/Applies.antt =====
-- A run of crates/assistant-db/src/migrate.rs that nothing stands in the way of.
use mathlib.Core.Path.{subst}
use assistant_platform.Database.Recorded.{Recorded}
use assistant_platform.Database.Log.{execute_all}
use assistant_platform.Database.Ordered.{Orders, ordered_exact}
use assistant_platform.Database.Keys.{same_key_sym, DistinctKeys}
use assistant_platform.Base.{
  ok, Option-cases, find, any, any-find, find-append, String, ◌≡◌, refl, false, none, some, List,
  [], ◌∷◌, ◌++◌, map, append_assoc, arith, eq_refl, is_some, Result, err, ◌>>=◌, All, select, ◌∙◌,
  ◌⊎◌, inl, inr, not, Option, append-nil, Bool,
}
use assistant_platform.Database.Migrate.{
  Migration, MigrationReport, key, same_key, MigrationRow, Engine, Db, is_row_of, recorded_checksum,
  checksum, row_of, Outcome, apply_one, apply_each, MigrationSet, ordered, no_report, apply,
  note_skipped, note_applied,
}

module _ (e : Engine) (now : Migration → String) where
  -- The outcome of a run that applies `fresh`, skips `old` and ends with the schema `s`.
  abbrev pub settled :
      MigrationReport → Db e.Schema → List Migration → List Migration → e.Schema → Outcome e
  settled report db fresh old s = (
    ok (record {
      applied = report.applied ++ map key fresh;
      skipped = report.skipped ++ map key old;
    }),
    record {
      schema = s;
      schema_migrations = db.schema_migrations ++ map (row_of e now) fresh;
      module_versions = db.module_versions;
    },
  )

  abbrev after : Db e.Schema → Migration → e.Schema → Db e.Schema
  after db m s = record {
    schema = s;
    schema_migrations = db.schema_migrations ++ row_of e now m ∷ [];
    module_versions = db.module_versions;
  }

  settled-applied :
      (report : MigrationReport) (db : Db e.Schema) (m : Migration) (fresh old : List Migration)
      → (s t : e.Schema)
      → settled (note_applied report m) (after db m s) fresh old t
        ≡ settled report db (m ∷ fresh) old t
  settled-applied report db m fresh old s t =
      rw
        (
          append_assoc report.applied (key m ∷ []) (map key fresh),
          append_assoc db.schema_migrations (row_of e now m ∷ []) (map (row_of e now) fresh),
        )
        refl

  settled-skipped :
      (report : MigrationReport) (db : Db e.Schema) (m : Migration) (fresh old : List Migration)
      → (t : e.Schema)
      → settled (note_skipped report m) db fresh old t ≡ settled report db fresh (m ∷ old) t
  settled-skipped report db m fresh old t =
      rw (append_assoc report.skipped (key m ∷ []) (map key old)) refl

  -- A row of another migration is not seen.
  recorded-push_other :
      (m n : Migration) (rows : List MigrationRow)
      → same_key (key n) (key m) ≡ false
      → recorded_checksum n (rows ++ row_of e now m ∷ []) ≡ recorded_checksum n rows
  recorded-push_other m n rows h =
      ground
        (arith, find-append (is_row_of n) rows (row_of e now m ∷ []), same_key_sym (key m) (key n))

  not_any :
      (m : Migration) (rows : List MigrationRow)
      → recorded_checksum m rows ≡ none
      → any (is_row_of m) rows ≡ false
  not_any m rows h =
      ground (arith, any-find (is_row_of m) rows, Option-cases (find (is_row_of m) rows))

  apply_one_new :
      (m : Migration) (report : MigrationReport) (db : Db e.Schema) (s : e.Schema)
      → recorded_checksum m db.schema_migrations ≡ none
      → e.execute_batch m.sql db.schema ≡ ok s
      → apply_one e now m report db ≡ (ok (note_applied report m), after db m s)
  unfolding apply_one
  apply_one_new m report db s h x = rw (h, x, not_any m db.schema_migrations h) refl

  pub apply_one_old :
      (m : Migration) (report : MigrationReport) (db : Db e.Schema)
      → recorded_checksum m db.schema_migrations ≡ some (checksum e m)
      → apply_one e now m report db ≡ (ok (note_skipped report m), db)
  unfolding apply_one
  apply_one_old m report db h = rw (h, eq_refl (checksum e m)) refl

  still_recorded :
      (was : Migration → Option String) (m : Migration) (ms : List Migration)
      → (rows : List MigrationRow) → All (λ n. same_key (key n) (key m) ≡ false) ms
      → All (λ n. recorded_checksum n rows ≡ was n) ms
      → All (λ n. recorded_checksum n (rows ++ row_of e now m ∷ []) ≡ was n) ms
  still_recorded was m [] rows d h = tt
  still_recorded was m (n ∷ ms) rows d h =
      (recorded-push_other m n rows d.0 ∙ h.0, still_recorded was m ms rows d.1 h.1)

  abbrev Settles : (Migration → Option String) → List Migration → Type 0
  Settles was ms =
      (report : MigrationReport) (db : Db e.Schema) (t : e.Schema)
      → All (λ n. recorded_checksum n db.schema_migrations ≡ was n) ms
      → execute_all e (select (λ n. not (is_some (was n))) ms) db.schema ≡ ok t
      → apply_each e now ms report db
        ≡ settled report db (select (λ n. not (is_some (was n))) ms)
            (select (λ n. is_some (was n)) ms) t

  execute_all_first :
      (m : Migration) (ms : List Migration) (s t : e.Schema)
      → execute_all e (m ∷ ms) s ≡ ok t
      → (u : e.Schema) × (e.execute_batch m.sql s ≡ ok u) × (execute_all e ms u ≡ ok t)
  execute_all_first m ms s t h = at (e.execute_batch m.sql s) refl h
    where
      at :
          (r : Result String e.Schema)
          → e.execute_batch m.sql s ≡ r
          → (r >>= execute_all e ms) ≡ ok t
          → (u : e.Schema) × (e.execute_batch m.sql s ≡ ok u) × (execute_all e ms u ≡ ok t)
      at (ok u) g h = (u, g, h)
      at (err x) g h = absurd (cc)

  new_migration :
      (was : Migration → Option String) (m : Migration) (ms : List Migration)
      → was m ≡ none
      → All (λ n. same_key (key n) (key m) ≡ false) ms
      → Settles was ms
      → Settles was (m ∷ ms)
  unfolding apply_each
  new_migration was m ms new d rest report db t h x =
      let (u, first, others) =
        execute_all_first m (select (λ n. not (is_some (was n))) ms) db.schema t (rw new at x) in
      rw (apply_one_new m report db u (h.0 ∙ new) first, new)
        (rest (note_applied report m) (after db m u) t
            (still_recorded was m ms db.schema_migrations d h.1) others
          ∙ settled-applied report db m (select (λ n. not (is_some (was n))) ms)
              (select (λ n. is_some (was n)) ms) u t)

  old_migration :
      (was : Migration → Option String) (m : Migration) (ms : List Migration)
      → was m ≡ some (checksum e m)
      → Settles was ms
      → Settles was (m ∷ ms)
  unfolding apply_each
  old_migration was m ms old rest report db t h x =
      rw (apply_one_old m report db (h.0 ∙ old), old)
        (rest (note_skipped report m) db t h.1 (rw old at x)
          ∙ settled-skipped report db m (select (λ n. not (is_some (was n))) ms)
              (select (λ n. is_some (was n)) ms) t)

  apply_each-Settles :
      (was : Migration → Option String) (ms : List Migration)
      → DistinctKeys ms
      → All (λ n. (was n ≡ none) ⊎ (was n ≡ some (checksum e n))) ms
      → Settles was ms
  unfolding apply_each
  apply_each-Settles was [] d h = λ report db t r x.
      ground (
        arith,
        append-nil report.applied,
        append-nil report.skipped,
        append-nil db.schema_migrations,
      )
  apply_each-Settles was (m ∷ ms) d h = elim h.0 [
    | inl new ↦ new_migration was m ms new d.0 (apply_each-Settles was ms d.1 h.1)
    | inr old ↦ old_migration was m ms old (apply_each-Settles was ms d.1 h.1)
  ]

  All-refl : (was : Migration → Option String) (ms : List Migration) → All (λ n. was n ≡ was n) ms
  All-refl was [] = tt
  All-refl was (m ∷ ms) = (refl, All-refl was ms)

  abbrev pub is_new : Db e.Schema → Migration → Bool
  is_new db m = not (is_some (recorded_checksum m db.schema_migrations))

  -- If the set is well-formed and `ms` is its order, every migration that has been applied before
  -- has the checksum that was recorded for it, and the scripts of the new ones run one after the
  -- other to the schema `s`, then `apply` succeeds: it applies exactly the new migrations, skips
  -- exactly the others, adds the rows of the new ones in order, and leaves the schema `s`.
  pub apply-settles :
      (set : MigrationSet) (db : Db e.Schema) (ms : List Migration) (s : e.Schema)
      → ordered set ≡ ok ms
      → All (λ m. (recorded_checksum m db.schema_migrations ≡ none) ⊎ Recorded e now db m) ms
      → execute_all e (select (is_new db) ms) db.schema ≡ ok s
      → apply e now set db
        ≡ settled
            (no_report e)
            db
            (select (is_new db) ms)
            (select (λ m. is_some (recorded_checksum m db.schema_migrations)) ms)
            s
  unfolding apply
  apply-settles set db ms s o h x =
      let spec = subst (Orders set) o (ordered_exact set) in
      rw o (
        apply_each-Settles (λ m. recorded_checksum m db.schema_migrations) ms spec.1 h (no_report e)
          db s (All-refl (λ m. recorded_checksum m db.schema_migrations) ms) x)
