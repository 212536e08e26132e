-- ===== src/Database/Again.antt =====
-- A second run of crates/assistant-db/src/migrate.rs, and the refusal of changed migrations.
use mathlib.Core.List.{Memᴰ}
use assistant_platform.Database.Sorting.{All-of_sorted}
use assistant_platform.Database.Applies.{apply_one_old}
use assistant_platform.Database.Recorded.{Recorded, Keeps, AllDone, apply_each-AllDone}
use mathlib.Core.Path.{subst}
use assistant_platform.Base.{
  ok, Result, err, All, String, ◌≡◌, refl, List, [], ◌∷◌, ◌++◌, map, append-nil, append_assoc,
  arith, ◌>>=◌, is_ok, sym, ◌∙◌, ◌≢◌, false, some, some-injective,
}
use assistant_platform.Database.Migrate.{
  Migration, MigrationSet, MigrationReport, DbError, key, ordered, Engine, Db, note_skipped,
  apply_each, no_report, apply_ordered, apply, check_migrations, sort_migrations, recorded_checksum,
  checksum, Outcome,
}

module _ (e : Engine) (now : Migration → String) where
  apply_each-Recorded :
      (ms : List Migration) (report : MigrationReport) (db : Db e.Schema)
      → All (Recorded e now db) ms
      → apply_each e now ms report db
        ≡ (ok (record { applied = report.applied; skipped = report.skipped ++ map key ms }), db)
  unfolding apply_each
  apply_each-Recorded [] report db h = ground (arith, append-nil report.skipped)
  apply_each-Recorded (m ∷ ms) report db h =
      rw
        (
          apply_one_old e now m report db h.0,
          ← append_assoc report.skipped (key m ∷ []) (map key ms),
        )
        (apply_each-Recorded ms (note_skipped report m) db h.1)

module _ (e : Engine) (now : Migration → String) where
  apply_ok :
      (set : MigrationSet) (db db' : Db e.Schema) (r : MigrationReport)
      → apply e now set db ≡ (ok r, db')
      → (ms : List Migration) × (ordered set ≡ ok ms)
        × Keeps e now db db'
        × All (Recorded e now db') ms
  unfolding apply
  apply_ok set db db' r h = at (ordered set) refl h
    where
      at :
          (o : Result DbError (List Migration))
          → ordered set ≡ o
          → apply_ordered e now db o ≡ (ok r, db')
          → (ms : List Migration) × (ordered set ≡ ok ms)
            × Keeps e now db db'
            × All (Recorded e now db') ms
      at (err x) q h = absurd (cc)
      at (ok ms) q h =
          let did = subst (AllDone e now ms db) h (apply_each-AllDone e now ms (no_report e) db) in
          (ms, q, did.0, did.1)

  -- If a run succeeds, then the set has an order, and any later run of the same set, whatever the
  -- time, succeeds without changing anything: it applies nothing and skips every migration of the
  -- set in that order.
  pub apply-again :
      (set : MigrationSet) (db db' : Db e.Schema) (r : MigrationReport)
      → apply e now set db ≡ (ok r, db')
      → (later : Migration → String)
      → (ms : List Migration) × (ordered set ≡ ok ms)
        × (apply e later set db' ≡ (ok (record { applied = []; skipped = map key ms }), db'))
  unfolding apply
  apply-again set db db' r h later =
      let (ms, q, keeps, recorded) = apply_ok set db db' r h in
      (ms, q, rw q (apply_each-Recorded e later ms (no_report e) db' recorded))

  ordered_ok :
      (set : MigrationSet) (ms : List Migration)
      → ordered set ≡ ok ms
      → ms ≡ sort_migrations set.module_order set.migrations
  unfolding ordered
  ordered_ok set ms h = at (check_migrations set.module_order [] set.migrations) h
    where
      at :
          (r : Result DbError (Unit {0}))
          → (r >>= λ _. ok (sort_migrations set.module_order set.migrations)) ≡ ok ms
          → ms ≡ sort_migrations set.module_order set.migrations
      at (ok _) h = cc
      at (err x) h = absurd (cc)

  All-at :
      (P : Migration → Type 0) (m : Migration) (ms : List Migration) → Memᴰ m ms → All P ms → P m
  All-at P m [] k h = elim k [ ]
  All-at P m (n ∷ ms) (Memᴰ.head q) h = subst P (sym q) h.0
  All-at P m (n ∷ ms) (Memᴰ.tail k) h = All-at P m ms k h.1

  -- A set that holds a migration whose recorded checksum is another than its own is refused: the
  -- run does not succeed, whatever else the set and the tables hold.
  pub drift_refused :
      (set : MigrationSet) (db : Db e.Schema) (m : Migration) (c : String)
      → Memᴰ m set.migrations
      → recorded_checksum m db.schema_migrations ≡ some c
      → c ≢ checksum e m
      → is_ok (apply e now set db).0 ≡ false
  drift_refused set db m c k h ne = at (apply e now set db) refl
    where
      at : (o : Outcome e) → apply e now set db ≡ o → is_ok o.0 ≡ false
      at (err x, db') q = refl
      at (ok r, db') q =
          let (ms, o, keeps, recorded) = apply_ok set db db' r q in
          let listed = All-at (Recorded e now db') m set.migrations k (
            All-of_sorted set.module_order (Recorded e now db') set.migrations
              (subst (All (Recorded e now db')) (ordered_ok set ms o) recorded)) in
          absurd (ne (some-injective c (checksum e m) (sym (keeps m c h) ∙ listed)))
