-- ===== src/Database/Sorting.antt =====
-- The sort of `MigrationSet::ordered` of crates/assistant-db/src/migrate.rs.
use assistant_platform.Base.{
  if◌then◌else◌, All, count_where, keep-if, All-map, String, ◌≡◌, refl, ◌∙◌, Bool, true, false,
  List, [], ◌∷◌, arith,
}
use assistant_platform.Database.Migrate.{
  Migration, key, same_key, comes_first, insert_migration, sort_migrations,
}
use assistant_platform.Database.Keys.{DistinctKeys, Sorted, same_key_sym}

module _ (order : List String) where
  pub count_where-insert_migration :
      (p : Migration → Bool) (x : Migration) (ys : List Migration)
      → count_where p (insert_migration order x ys) ≡ count_where p (x ∷ ys)
  unfolding insert_migration
  count_where-insert_migration p x [] = refl
  count_where-insert_migration p x (y ∷ ys) = ground (arith, count_where-insert_migration p x ys)

  pub count_where-sort_migrations :
      (p : Migration → Bool) (xs : List Migration)
      → count_where p (sort_migrations order xs) ≡ count_where p xs
  unfolding sort_migrations
  count_where-sort_migrations p [] = refl
  count_where-sort_migrations p (x ∷ xs) = ground (
    arith,
    count_where-insert_migration p x (sort_migrations order xs),
    count_where-sort_migrations p xs,
  )

  pub All-insert_migration :
      (P : Migration → Type 0) (x : Migration) (ys : List Migration)
      → P x
      → All P ys
      → All P (insert_migration order x ys)
  unfolding insert_migration
  All-insert_migration P x [] h k = (h, tt)
  All-insert_migration P x (y ∷ ys) h k =
      keep-if (All P) (comes_first order x y) (x ∷ y ∷ ys) (y ∷ insert_migration order x ys) (h, k)
        (k.0, All-insert_migration P x ys h k.1)

  pub All-sort_migrations :
      (P : Migration → Type 0) (xs : List Migration) → All P xs → All P (sort_migrations order xs)
  unfolding sort_migrations
  All-sort_migrations P [] h = tt
  All-sort_migrations P (x ∷ xs) h =
      All-insert_migration P x (sort_migrations order xs) h.0 (All-sort_migrations P xs h.1)

  pub comes_first_trans :
      (a b c : Migration)
      → comes_first order a b ≡ true
      → comes_first order b c ≡ true
      → comes_first order a c ≡ true
  comes_first_trans a b c h k = ground arith

  pub comes_first_total :
      (a b : Migration) → comes_first order a b ≡ false → comes_first order b a ≡ true
  comes_first_total a b h = ground arith

  pub insert_migration-Sorted :
      (x : Migration) (ys : List Migration)
      → Sorted order ys
      → Sorted order (insert_migration order x ys)
  unfolding insert_migration
  insert_migration-Sorted x [] h = (tt, tt)
  insert_migration-Sorted x (y ∷ ys) h =
      at (comes_first order x y) refl (insert_migration-Sorted x ys h.1)
    where
      at :
          (b : Bool)
          → comes_first order x y ≡ b
          → Sorted order (insert_migration order x ys)
          → Sorted order (if b then x ∷ y ∷ ys else y ∷ insert_migration order x ys)
      at true first rest = ((first, All-map _ _ ys (λ n g. comes_first_trans x y n first g) h.0), h)
      at false first rest = (
        All-insert_migration (λ n. comes_first order y n ≡ true) x ys (comes_first_total x y first)
            h.0,
        rest,
      )

  pub sort_migrations-Sorted : (xs : List Migration) → Sorted order (sort_migrations order xs)
  unfolding sort_migrations
  sort_migrations-Sorted [] = tt
  sort_migrations-Sorted (x ∷ xs) =
      insert_migration-Sorted x (sort_migrations order xs) (sort_migrations-Sorted xs)

  pub insert_migration-DistinctKeys :
      (x : Migration) (ys : List Migration)
      → All (λ n. same_key (key n) (key x) ≡ false) ys
      → DistinctKeys ys
      → DistinctKeys (insert_migration order x ys)
  unfolding insert_migration
  insert_migration-DistinctKeys x [] h d = (tt, tt)
  insert_migration-DistinctKeys x (y ∷ ys) h d =
      keep-if DistinctKeys (comes_first order x y) (x ∷ y ∷ ys) (y ∷ insert_migration order x ys)
        (h, d)
        (
          All-insert_migration (λ n. same_key (key n) (key y) ≡ false) x ys
              (same_key_sym (key x) (key y) ∙ h.0) d.0,
          insert_migration-DistinctKeys x ys h.1 d.1,
        )

  pub sort_migrations-DistinctKeys :
      (xs : List Migration) → DistinctKeys xs → DistinctKeys (sort_migrations order xs)
  unfolding sort_migrations
  sort_migrations-DistinctKeys [] d = tt
  sort_migrations-DistinctKeys (x ∷ xs) d =
      insert_migration-DistinctKeys x (sort_migrations order xs)
        (All-sort_migrations (λ n. same_key (key n) (key x) ≡ false) xs d.0)
        (sort_migrations-DistinctKeys xs d.1)

  pub All-of_insert :
      (P : Migration → Type 0) (x : Migration) (ys : List Migration)
      → All P (insert_migration order x ys)
      → All P (x ∷ ys)
  unfolding insert_migration
  All-of_insert P x [] h = h
  All-of_insert P x (y ∷ ys) h = at (comes_first order x y) (All-of_insert P x ys) h
    where
      at :
          (b : Bool)
          → (All P (insert_migration order x ys) → All P (x ∷ ys))
          → All P (if b then x ∷ y ∷ ys else y ∷ insert_migration order x ys)
          → All P (x ∷ y ∷ ys)
      at true f h = h
      at false f h = let (px, rest) = f h.1 in (px, (h.0, rest))

  pub All-of_sorted :
      (P : Migration → Type 0) (xs : List Migration) → All P (sort_migrations order xs) → All P xs
  unfolding sort_migrations
  All-of_sorted P [] h = tt
  All-of_sorted P (x ∷ xs) h =
      let (px, rest) = All-of_insert P x (sort_migrations order xs) h in
      (px, All-of_sorted P xs rest)
