-- ===== src/Database/ReadBack.antt =====
-- What read_version_record of crates/assistant-db/src/migrate.rs reads after record_versions.
use assistant_platform.Database.Migrate.{VersionRow}
use mathlib.Core.Path.{subst}
use assistant_platform.Base.{
  leb, All, any, update, any-append, All-append, keep-if, All-update, All-map, ℕ, ◌≤◌, ◌<◌, String,
  ◌≡◌, refl, sym, ◌∙◌, ◌⊎◌, inl, inr, Bool, true, false, ◌&&◌, some, List, [], ◌∷◌, ◌++◌, map,
  arith, str_eq, eq_iff, eq_refl,
}
use assistant_platform.Database.Versions.{
  VersionRecord, is_of, version_row, upsert_version, record_each, record_versions, order_versions,
  sort_pairs, record_of, read_version_record,
}
use assistant_platform.Database.Latest.{
  Leads, any-order_versions, any-sort_pairs, Before, order_versions-Leads,
}

-- Recorded before the second `t`, or with the identity of `r`.
abbrev OldOr : VersionRecord → ℕ → VersionRow → Type 0
OldOr r t row =
    (row.recorded_at < t)
    ⊎ (row.product_id ≡ r.product_id)
      × (row.product_version ≡ r.product_version)
      × (row.platform_version ≡ r.platform_version)

abbrev is_late : ℕ → VersionRow → Bool
is_late t row = leb t row.recorded_at

module _ (r : VersionRecord) (t : ℕ) (now : String → ℕ) (late : (id : String) → t ≤ now id) where
  upsert_version-OldOr :
      (m : String × String) (rows : List VersionRow)
      → All (OldOr r t) rows
      → All (OldOr r t) (upsert_version (version_row r (now m.0) m) rows)
  upsert_version-OldOr m rows h =
      keep-if (All (OldOr r t)) (any (is_of m.0) rows)
        (update (is_of m.0) (λ _. version_row r (now m.0) m) rows)
        (rows ++ version_row r (now m.0) m ∷ [])
        (All-update (OldOr r t) (is_of m.0) (λ _. version_row r (now m.0) m) rows
          (λ x g. inr (refl, refl, refl)) h)
        (All-append (OldOr r t) rows (version_row r (now m.0) m ∷ []) h
          (inr (refl, refl, refl), tt))

  record_each-OldOr :
      (ms : List (String × String)) (rows : List VersionRow)
      → All (OldOr r t) rows
      → All (OldOr r t) (record_each r now ms rows)
  unfolding record_each
  record_each-OldOr [] rows h = h
  record_each-OldOr (m ∷ ms) rows h =
      record_each-OldOr ms (upsert_version (version_row r (now m.0) m) rows)
        (upsert_version-OldOr m rows h)

  -- A test that holds of the new row holds of a row after an upsert.
  any-upsert_version :
      (p : VersionRow → Bool) (new : VersionRow) (rows : List VersionRow)
      → p new ≡ true
      → any p (upsert_version new rows) ≡ true
  any-upsert_version p new rows h =
      ground (arith, any-append p rows (new ∷ []), any-update_new rows)
    where
      any-update_new :
          (rows : List VersionRow)
          → any (is_of new.module_id) rows ≡ true
          → any p (update (is_of new.module_id) (λ _. new) rows) ≡ true
      any-update_new [] g = absurd (cc)
      any-update_new (row ∷ rows) g = ground (arith, any-update_new rows)

  record_each-late :
      (ms : List (String × String)) (rows : List VersionRow)
      → any (is_late t) rows ≡ true
      → any (is_late t) (record_each r now ms rows) ≡ true
  unfolding record_each
  record_each-late [] rows h = h
  record_each-late (m ∷ ms) rows h =
      record_each-late ms (upsert_version (version_row r (now m.0) m) rows) (
        any-upsert_version (is_late t) (version_row r (now m.0) m) rows
          (let k = late m.0 in ground arith))

abbrev pub lists : String × String → VersionRow → Bool
lists m row = str_eq row.module_id m.0 && str_eq row.module_version m.1

-- The row of another module stays.
any-upsert_other :
    (m : String × String) (new : VersionRow) (rows : List VersionRow)
    → str_eq m.0 new.module_id ≡ false
    → any (lists m) rows ≡ true
    → any (lists m) (upsert_version new rows) ≡ true
any-upsert_other m new rows ne h = ground (arith, any-append (lists m) rows (new ∷ []), stays rows)
  where
    other : (row : VersionRow) → lists m row ≡ true → is_of new.module_id row ≡ false
    other row g = ground (
      arith,
      eq_iff row.module_id m.0,
      eq_iff row.module_id new.module_id,
      eq_iff m.0 new.module_id,
    )

    stays :
        (rows : List VersionRow)
        → any (lists m) rows ≡ true
        → any (lists m) (update (is_of new.module_id) (λ _. new) rows) ≡ true
    stays [] g = absurd (cc)
    stays (row ∷ rows) g = ground (arith, other row, stays rows)

abbrev pub DistinctModules : List (String × String) → Type 0
DistinctModules [] = Unit
DistinctModules (m ∷ ms) = All (λ n. str_eq m.0 n.0 ≡ false) ms × DistinctModules ms

module _ (r : VersionRecord) (now : String → ℕ) where
  record_each-keeps :
      (m : String × String) (ms : List (String × String)) (rows : List VersionRow)
      → All (λ n. str_eq m.0 n.0 ≡ false) ms
      → any (lists m) rows ≡ true
      → any (lists m) (record_each r now ms rows) ≡ true
  unfolding record_each
  record_each-keeps m [] rows d h = h
  record_each-keeps m (n ∷ ms) rows d h =
      record_each-keeps m ms (upsert_version (version_row r (now n.0) n) rows) d.1
        (any-upsert_other m (version_row r (now n.0) n) rows d.0 h)

  record_each-lists :
      (ms : List (String × String)) (rows : List VersionRow)
      → DistinctModules ms
      → All (λ m. any (lists m) (record_each r now ms rows) ≡ true) ms
  unfolding record_each
  record_each-lists [] rows d = tt
  record_each-lists (m ∷ ms) rows d = (
    record_each-keeps m ms (upsert_version (version_row r (now m.0) m) rows) d.0 (
        any-upsert_version r 0 now (λ id. omega arith) (lists m) (version_row r (now m.0) m) rows
          (ground (arith, eq_refl m.0, eq_refl m.1))),
    record_each-lists ms (upsert_version (version_row r (now m.0) m) rows) d.1,
  )

abbrev same_pair : String × String → String × String → Bool
same_pair m n = str_eq n.0 m.0 && str_eq n.1 m.1

lists-pairs :
    (m : String × String) (rows : List VersionRow)
    → any (same_pair m) (map (λ x. (x.module_id, x.module_version)) rows) ≡ any (lists m) rows
lists-pairs m [] = refl
lists-pairs m (row ∷ rows) = ground (arith, lists-pairs m rows)

abbrev pub with_modules : VersionRecord → List (String × String) → VersionRecord
with_modules r modules = record {
  product_id = r.product_id;
  product_version = r.product_version;
  platform_version = r.platform_version;
  modules = modules;
}

-- The modules that are read from the rows.
abbrev pub Reads : VersionRecord → List VersionRow → List (String × String) → Type 0
Reads r rows expected =
    (modules : List (String × String)) × (read_version_record rows ≡ some (with_modules r modules))
    × All (λ m. any (same_pair m) modules ≡ true) expected

read-OldOr :
    (r : VersionRecord) (t : ℕ) (rows : List VersionRow) (expected : List (String × String))
    → All (OldOr r t) rows
    → any (is_late t) rows ≡ true
    → All (λ m. any (lists m) rows ≡ true) expected
    → Reads r rows expected
unfolding read_version_record
read-OldOr r t rows expected h late listed =
    at (order_versions rows) (order_versions-Leads (OldOr r t) rows h)
      (any-order_versions (is_late t) rows ∙ late)
      (All-map _ _ expected (λ m g. any-order_versions (lists m) rows ∙ g) listed)
  where
    not_late :
        (first : VersionRow) (ys : List VersionRow)
        → All (Before first) ys
        → first.recorded_at < t
        → any (is_late t) ys ≡ false
    not_late first [] b g = refl
    not_late first (y ∷ ys) b g = ground (arith, not_late first ys b.1 g)

    at :
        (xs : List VersionRow)
        → Leads (OldOr r t) xs
        → any (is_late t) xs ≡ true
        → All (λ m. any (lists m) xs ≡ true) expected
        → (modules : List (String × String)) × (record_of xs ≡ some (with_modules r modules))
          × All (λ m. any (same_pair m) modules ≡ true) expected
    at [] l q g = absurd (cc)
    at (x ∷ xs) l q g =
        let identity : (x.product_id ≡ r.product_id)
            × (x.product_version ≡ r.product_version)
            × (x.platform_version ≡ r.platform_version) =
          elim l.0 [ inl old ↦ absurd (ground (arith, not_late x xs l.1 old)) | inr new ↦ new ] in
        (
          sort_pairs (map (λ y. (y.module_id, y.module_version)) (x ∷ xs)),
          rw (identity.0, identity.1, identity.2) refl,
          All-map _ _ expected
              (λ m k.
                any-sort_pairs (same_pair m) (map (λ y. (y.module_id, y.module_version)) (x ∷ xs))
                ∙ lists-pairs m (x ∷ xs)
                ∙ k)
              g,
        )

All-old :
    (r : VersionRecord) (t : ℕ) (rows : List VersionRow)
    → All (λ row. row.recorded_at < t) rows
    → All (OldOr r t) rows
All-old r t [] h = tt
All-old r t (row ∷ rows) h = (inl h.0, All-old r t rows h.1)

-- If a record with at least one module, each listed once, is recorded over rows that are all older
-- than the second `t`, and no statement runs before `t`, then what is read back has its product id,
-- product version and platform version, and lists every module of the record with its version.
pub read-record_versions :
    (r : VersionRecord) (m : String × String) (ms : List (String × String)) (t : ℕ)
    → (now : String → ℕ) (rows : List VersionRow) → r.modules ≡ m ∷ ms
    → ((id : String) → t ≤ now id)
    → DistinctModules r.modules
    → All (λ row. row.recorded_at < t) rows
    → Reads r (record_versions r now rows) r.modules
unfolding record_versions record_each
read-record_versions r m ms t now rows e late d old =
    read-OldOr r t (record_each r now r.modules rows) r.modules
      (record_each-OldOr r t now late r.modules rows (All-old r t rows old))
      (subst (λ ns. any (is_late t) (record_each r now ns rows) ≡ true) (sym e)
        (record_each-late r t now late ms (upsert_version (version_row r (now m.0) m) rows) (
          any-upsert_version r t now late (is_late t) (version_row r (now m.0) m) rows
            (let k = late m.0 in ground arith))))
      (record_each-lists r now r.modules rows d)
