-- ===== src/Database/Ordered.antt =====
-- `MigrationSet::ordered` of crates/assistant-db/src/migrate.rs.
use assistant_platform.Graph.Cycle.Paths.{listed}
use assistant_platform.Database.Places.{Ordered, listed-rank, Sorted-Ordered}
use assistant_platform.Base.{
  ok, Result, err, ◌>>=◌, All, count_where, ◌≤◌, ◌<◌, ◌≡◌, Bool, List, [], arith, str_eq, All-map,
  true, false,
}
use assistant_platform.Database.Migrate.{
  Migration, MigrationSet, DbError, sqlite, unknown_migration_module, duplicate_migration,
  checksum_mismatch, check_migrations, sort_migrations, ordered,
}
use assistant_platform.Database.Keys.{
  DistinctKeys, has_key, Known, Checked, check_migrations-Checked,
}
use assistant_platform.Database.Sorting.{
  count_where-sort_migrations, sort_migrations-Sorted, sort_migrations-DistinctKeys,
  All-sort_migrations,
}

abbrev pub Orders : MigrationSet → Result DbError (List Migration) → Type 0
Orders set (ok ms) =
    All (λ m. listed m.module_id set.module_order ≡ true) set.migrations
    × DistinctKeys ms
    × Ordered set.module_order ms
    × ((p : Migration → Bool) → count_where p ms ≡ count_where p set.migrations)
Orders set (err (unknown_migration_module id)) =
    (listed id set.module_order ≡ false)
    × (0 < count_where (λ m. str_eq m.module_id id) set.migrations)
Orders set (err (duplicate_migration id version)) =
    2 ≤ count_where (has_key id version) set.migrations
Orders set (err _) = ⊥

-- `ordered` answers with the registered migrations, each as often as it was added: where one stands
-- before another, they are of one module and the version is not larger, or the module of the first
-- precedes that of the other in the list of modules. Then every module is listed and no two migrations
-- have the same module and version. Or it names a module of a migration that is not listed; or it
-- names a module and version that two migrations have; it has no other outcome.
pub ordered_exact : (set : MigrationSet) → Orders set (ordered set)
unfolding ordered
ordered_exact set =
    at (check_migrations set.module_order [] set.migrations)
      (check_migrations-Checked set.module_order [] set.migrations)
  where
    known :
        All (Known set.module_order) set.migrations
        → All (λ m. listed m.module_id set.module_order ≡ true) set.migrations
    known k =
        All-map _ _ set.migrations
          (λ m e. ground (arith, e, listed-rank set.module_order m.module_id)) k

    at :
        (r : Result DbError (Unit {0}))
        → Checked set.module_order [] set.migrations r
        → Orders set (r >>= λ _. ok (sort_migrations set.module_order set.migrations))
    at (ok _) h = (
      known h.0,
      sort_migrations-DistinctKeys set.module_order set.migrations h.1,
      Sorted-Ordered set.module_order (sort_migrations set.module_order set.migrations)
          (All-sort_migrations set.module_order (λ m. listed m.module_id set.module_order ≡ true)
            set.migrations (known h.0))
          (sort_migrations-Sorted set.module_order set.migrations),
      λ p. count_where-sort_migrations set.module_order p set.migrations,
    )
    at (err (unknown_migration_module id)) h =
        (ground (arith, listed-rank set.module_order id, h.0), h.1)
    at (err (duplicate_migration id v)) h = omega arith
    at (err (sqlite t)) h = h
    at (err (checksum_mismatch id v c d)) h = h
