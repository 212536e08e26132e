-- ===== src/Database/Versions.antt =====
-- record_versions, read_version_record and applied_versions of crates/assistant-db/src/migrate.rs,
-- over the rows of module_versions and schema_migrations.
use Prim.Native.String.{compare}
use Prim.Native.Nat.{max}
use text.Mathlib.Text.{is_le}
use assistant_platform.Base.{
  if◌then◌else◌, ltb, ◌==◌, any, update, ℕ, String, Bool, ◌&&◌, ◌||◌, Option, none, some, List, [],
  ◌∷◌, ◌++◌, map, str_eq,
}
use assistant_platform.Database.Migrate.{VersionRow, MigrationRow}

pub record VersionRecord : Type 0 where
  pub product_id : String
  pub product_version : String
  pub platform_version : String
  pub modules : List (String × String)

abbrev pub is_of : String → VersionRow → Bool
is_of id row = str_eq row.module_id id

-- The row of a module, recorded at `t`.
abbrev pub version_row : VersionRecord → ℕ → String × String → VersionRow
version_row r t m = record {
  module_id = m.0;
  module_version = m.1;
  product_id = r.product_id;
  product_version = r.product_version;
  platform_version = r.platform_version;
  recorded_at = t;
}

-- INSERT … ON CONFLICT(module_id) DO UPDATE, which sets every other column.
abbrev pub upsert_version : VersionRow → List VersionRow → List VersionRow
upsert_version new rows =
    if any (is_of new.module_id) rows
    then update (is_of new.module_id) (λ _. new) rows
    else rows ++ new ∷ []

-- `now id` is the second in which the row of the module `id` is written.
unfoldable pub record_each :
    VersionRecord → (String → ℕ) → List (String × String) → List VersionRow → List VersionRow
record_each r now [] rows = rows
record_each r now (m ∷ ms) rows =
    record_each r now ms (upsert_version (version_row r (now m.0) m) rows)

unfoldable pub record_versions : VersionRecord → (String → ℕ) → List VersionRow → List VersionRow
record_versions r now rows = record_each r now r.modules rows

-- ORDER BY recorded_at DESC, module_id ASC
abbrev pub version_le : VersionRow → VersionRow → Bool
version_le a b =
    ltb b.recorded_at a.recorded_at
    || a.recorded_at == b.recorded_at && is_le (compare a.module_id b.module_id)

abbrev pub insert_version : VersionRow → List VersionRow → List VersionRow
insert_version x [] = x ∷ []
insert_version x (y ∷ ys) =
    let rest = insert_version x ys in if version_le x y then x ∷ y ∷ ys else y ∷ rest

abbrev pub order_versions : List VersionRow → List VersionRow
order_versions [] = []
order_versions (x ∷ xs) = insert_version x (order_versions xs)

-- The order of pairs of texts, in which `modules.sort()` sorts.
abbrev pub pair_le : String × String → String × String → Bool
pair_le a b = if str_eq a.0 b.0 then is_le (compare a.1 b.1) else is_le (compare a.0 b.0)

abbrev pub insert_pair : String × String → List (String × String) → List (String × String)
insert_pair x [] = x ∷ []
insert_pair x (y ∷ ys) = let rest = insert_pair x ys in if pair_le x y then x ∷ y ∷ ys else y ∷ rest

abbrev pub sort_pairs : List (String × String) → List (String × String)
sort_pairs [] = []
sort_pairs (x ∷ xs) = insert_pair x (sort_pairs xs)

abbrev pub record_of : List VersionRow → Option VersionRecord
record_of [] = none
record_of (row ∷ rows) = some (record {
  product_id = row.product_id;
  product_version = row.product_version;
  platform_version = row.platform_version;
  modules = sort_pairs (map (λ r. (r.module_id, r.module_version)) (row ∷ rows));
})

unfoldable pub read_version_record : List VersionRow → Option VersionRecord
read_version_record rows = record_of (order_versions rows)

-- One row per module with its highest version, ordered by module.
abbrev pub note_version : String × ℕ → List (String × ℕ) → List (String × ℕ)
note_version (id, v) [] = (id, v) ∷ []
note_version (id, v) ((other, w) ∷ rest) =
    let later = note_version (id, v) rest in
    if str_eq id other
    then (other, max v w) ∷ rest
    else if is_le (compare id other)
    then (id, v) ∷ (other, w) ∷ rest
    else (other, w) ∷ later

unfoldable pub applied_versions : List MigrationRow → List (String × ℕ)
applied_versions [] = []
applied_versions (row ∷ rows) = note_version (row.module_id, row.version) (applied_versions rows)
