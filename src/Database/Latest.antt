-- ===== src/Database/Latest.antt =====
-- The order in which read_version_record of crates/assistant-db/src/migrate.rs takes the rows.
use assistant_platform.Database.Migrate.{VersionRow}
use assistant_platform.Base.{
  if◌then◌else◌, All, any, keep-if, All-map, ◌≤◌, String, ◌≡◌, refl, Bool, true, false, ◌||◌, List,
  [], ◌∷◌, arith,
}
use assistant_platform.Database.Versions.{
  version_le, insert_version, order_versions, insert_pair, sort_pairs,
}

any-insert_version :
    (p : VersionRow → Bool) (x : VersionRow) (ys : List VersionRow)
    → any p (insert_version x ys) ≡ (p x || any p ys)
any-insert_version p x [] = refl
any-insert_version p x (y ∷ ys) = ground (arith, any-insert_version p x ys)

pub any-order_versions :
    (p : VersionRow → Bool) (xs : List VersionRow) → any p (order_versions xs) ≡ any p xs
any-order_versions p [] = refl
any-order_versions p (x ∷ xs) =
    ground (arith, any-insert_version p x (order_versions xs), any-order_versions p xs)

any-insert_pair :
    (p : String × String → Bool) (x : String × String) (ys : List (String × String))
    → any p (insert_pair x ys) ≡ (p x || any p ys)
any-insert_pair p x [] = refl
any-insert_pair p x (y ∷ ys) = ground (arith, any-insert_pair p x ys)

pub any-sort_pairs :
    (p : String × String → Bool) (xs : List (String × String)) → any p (sort_pairs xs) ≡ any p xs
any-sort_pairs p [] = refl
any-sort_pairs p (x ∷ xs) = ground (arith, any-insert_pair p x (sort_pairs xs), any-sort_pairs p xs)

All-insert_version :
    (P : VersionRow → Type 0) (x : VersionRow) (ys : List VersionRow)
    → P x
    → All P ys
    → All P (insert_version x ys)
All-insert_version P x [] h k = (h, tt)
All-insert_version P x (y ∷ ys) h k =
    keep-if (All P) (version_le x y) (x ∷ y ∷ ys) (y ∷ insert_version x ys) (h, k)
      (k.0, All-insert_version P x ys h k.1)

abbrev pub Before : VersionRow → VersionRow → Type 0
Before first row = row.recorded_at ≤ first.recorded_at

-- The first row satisfies `P` and is the latest.
abbrev pub Leads : (VersionRow → Type 0) → List VersionRow → Type 0
Leads P [] = Unit
Leads P (row ∷ rows) = P row × All (Before row) rows

insert_version-Leads :
    (P : VersionRow → Type 0) (x : VersionRow) (ys : List VersionRow)
    → P x
    → Leads P ys
    → Leads P (insert_version x ys)
insert_version-Leads P x [] px h = (px, tt)
insert_version-Leads P x (y ∷ ys) px h = at (version_le x y) refl
  where
    at :
        (b : Bool)
        → version_le x y ≡ b
        → Leads P (if b then x ∷ y ∷ ys else y ∷ insert_version x ys)
    at true q =
        let later : y.recorded_at ≤ x.recorded_at = ground arith in
        (px, (later, All-map (Before y) (Before x) ys (λ z g. omega arith) h.1))
    at false q =
        let later : x.recorded_at ≤ y.recorded_at = ground arith in
        (h.0, All-insert_version (Before y) x ys later h.1)

pub order_versions-Leads :
    (P : VersionRow → Type 0) (xs : List VersionRow) → All P xs → Leads P (order_versions xs)
order_versions-Leads P [] h = tt
order_versions-Leads P (x ∷ xs) h =
    insert_version-Leads P x (order_versions xs) h.0 (order_versions-Leads P xs h.1)
