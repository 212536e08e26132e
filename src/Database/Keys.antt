-- ===== src/Database/Keys.antt =====
-- The loop of `MigrationSet::ordered` of crates/assistant-db/src/migrate.rs over the migrations.
use mathlib.Core.Path.{subst}
use assistant_platform.Base.{
  ok, if◌then◌else◌, ==_iff, ==_refl, Bool-cases, Option-cases, is_some, Result, err, All,
  count_where, any, All-map, ℕ, ◌+◌, ◌≤◌, ◌<◌, String, ◌≡◌, refl, sym, ap, ◌∙◌, inl, inr, Bool,
  true, false, not, none, List, [], ◌∷◌, arith, str_eq, eq_iff, eq_refl,
}
use assistant_platform.Database.Migrate.{
  Migration, DbError, sqlite, unknown_migration_module, duplicate_migration, checksum_mismatch, key,
  same_key, rank, check_migrations, comes_first,
}

abbrev pub has_key : String → ℕ → Migration → Bool
has_key id version m = same_key (key m) (id, version)

-- Each migration's module is listed, and no two have the same key.
abbrev pub Known : List String → Migration → Type 0
Known order m = is_some (rank order m.module_id) ≡ true

abbrev pub DistinctKeys : List Migration → Type 0
DistinctKeys [] = Unit
DistinctKeys (m ∷ ms) = All (λ n. same_key (key n) (key m) ≡ false) ms × DistinctKeys ms

abbrev pub Sorted : List String → List Migration → Type 0
Sorted order [] = Unit
Sorted order (m ∷ ms) = All (λ n. comes_first order m n ≡ true) ms × Sorted order ms

-- What the loop over the migrations finds.
abbrev pub Checked :
    List String → List (String × ℕ) → List Migration → Result DbError (Unit {0}) → Type 0
Checked order seen ms (ok _) =
    All (Known order) ms × DistinctKeys ms × All (λ m. any (same_key (key m)) seen ≡ false) ms
Checked order seen ms (err (unknown_migration_module id)) =
    (rank order id ≡ none) × (0 < count_where (λ m. str_eq m.module_id id) ms)
Checked order seen ms (err (duplicate_migration id version)) =
    2 ≤ count_where (λ k. same_key k (id, version)) seen + count_where (has_key id version) ms
Checked order seen ms (err _) = ⊥

pub key_of_same : (a b : String × ℕ) → same_key a b ≡ true → a ≡ b
key_of_same (x, v) (y, w) h =
    let e : (x ≡ y) × (v ≡ w) = ground (arith, eq_iff x y, ==_iff v w) in
    ap (λ z. (z, v)) e.0 ∙ ap (λ u. (y, u)) e.1

pub same_key_refl : (a : String × ℕ) → same_key a a ≡ true
same_key_refl (x, v) = ground (arith, eq_refl x, ==_refl v)

pub same_key_sym : (a b : String × ℕ) → same_key a b ≡ same_key b a
same_key_sym a b = elim (Bool-cases (same_key a b)) [
  | inl h ↦ subst (λ c. same_key a c ≡ same_key c a) (key_of_same a b h) refl
  | inr h ↦ elim (Bool-cases (same_key b a)) [
    | inl g ↦ subst (λ c. same_key c b ≡ same_key b c) (key_of_same b a g) refl
    | inr g ↦ h ∙ sym g
  ]
]

pub seen_counts :
    (a : String × ℕ) (seen : List (String × ℕ))
    → any (same_key a) seen ≡ true
    → 0 < count_where (λ k. same_key k a) seen
seen_counts a [] h = absurd (cc)
seen_counts a (k ∷ seen) h = ground (arith, same_key_sym a k, seen_counts a seen)

module _ (order : List String) (seen : List (String × ℕ)) (m : Migration)
    (ms : List Migration) where
  pub not_seen :
      (n : Migration)
      → any (same_key (key n)) (key m ∷ seen) ≡ false
      → (same_key (key n) (key m) ≡ false) × (any (same_key (key n)) seen ≡ false)
  not_seen n h = ground arith

  pub more-Checked :
      (r : Result DbError (Unit {0}))
      → is_some (rank order m.module_id) ≡ true
      → any (same_key (key m)) seen ≡ false
      → Checked order (key m ∷ seen) ms r
      → Checked order seen (m ∷ ms) r
  more-Checked (ok _) known new (h, distinct, fresh) = (
    (known, h),
    (All-map _ _ ms (λ n g. (not_seen n g).0) fresh, distinct),
    (new, All-map _ _ ms (λ n g. (not_seen n g).1) fresh),
  )
  more-Checked (err (unknown_migration_module id)) known new (h, g) = (h, omega arith)
  more-Checked (err (duplicate_migration id v)) known new h = omega arith
  more-Checked (err (sqlite t)) known new h = h
  more-Checked (err (checksum_mismatch id v c d)) known new h = h

  pub next-Checked :
      (r : Result DbError (Unit {0}))
      → Checked order (key m ∷ seen) ms r
      → (known : Bool) → is_some (rank order m.module_id) ≡ known
      → (old : Bool) → any (same_key (key m)) seen ≡ old
      → Checked order seen (m ∷ ms) (
          if not known
          then err (unknown_migration_module m.module_id)
          else if old
          then err (duplicate_migration m.module_id m.version)
          else r)
  next-Checked r h false k old o =
      (ground (arith, Option-cases (rank order m.module_id)), ground (arith, eq_refl m.module_id))
  next-Checked r h true k true o = ground (arith, seen_counts (key m) seen o, same_key_refl (key m))
  next-Checked r h true k false o = more-Checked r k o h

pub check_migrations-Checked :
    (order : List String) (seen : List (String × ℕ)) (ms : List Migration)
    → Checked order seen ms (check_migrations order seen ms)
unfolding check_migrations
check_migrations-Checked order seen [] = (tt, tt, tt)
check_migrations-Checked order seen (m ∷ ms) =
    next-Checked order seen m ms (check_migrations order (key m ∷ seen) ms)
      (check_migrations-Checked order (key m ∷ seen) ms) (is_some (rank order m.module_id)) refl
      (any (same_key (key m)) seen) refl
