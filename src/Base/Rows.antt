-- ===== src/Base/Rows.antt =====
-- SQL tables as lists of rows in rowid order, and the statements over them: SELECT, COUNT, UPDATE,
-- DELETE with a WHERE clause, and ORDER BY.
use Prim.Native.Nat.{ℕ, suc, ◌+◌, ◌<◌}
use mathlib.Core.Bool.{Bool, false, ◌||◌}
use mathlib.Core.Option.{Option, none, some}
use mathlib.Core.List.{List, [], ◌∷◌}
use assistant_platform.Base.Tests.{leb, if◌then◌else◌}

abbrev pub All {ℓ κ} : {A : Type ℓ} → (A → Type κ) → List A → Type κ
All P [] = Unit
All P (x ∷ xs) = P x × All P xs

abbrev pub or_else {ℓ} : {A : Type ℓ} → Option A → Option A → Option A
or_else none o = o
or_else (some a) o = some a

module _ {ℓ} {A : Type ℓ} where
  abbrev pub length : List A → ℕ
  length [] = 0
  length (x ∷ xs) = suc (length xs)

  -- SELECT … WHERE p
  abbrev pub select : (A → Bool) → List A → List A
  select p [] = []
  select p (x ∷ xs) = let rest = select p xs in if p x then x ∷ rest else rest

  -- `query_row(…).optional()`: the first row of SELECT … WHERE p
  abbrev pub find : (A → Bool) → List A → Option A
  find p [] = none
  find p (x ∷ xs) = let rest = find p xs in if p x then some x else rest

  -- SELECT COUNT(*) … WHERE p
  abbrev pub count_where : (A → Bool) → List A → ℕ
  count_where p [] = 0
  count_where p (x ∷ xs) = (if p x then 1 else 0) + count_where p xs

  -- whether a row satisfies p
  abbrev pub any : (A → Bool) → List A → Bool
  any p [] = false
  any p (x ∷ xs) = p x || any p xs

  -- UPDATE … SET f WHERE p
  abbrev pub update : (A → Bool) → (A → A) → List A → List A
  update p f [] = []
  update p f (x ∷ xs) = (if p x then f x else x) ∷ update p f xs

  -- DELETE … WHERE p
  abbrev pub delete : (A → Bool) → List A → List A
  delete p [] = []
  delete p (x ∷ xs) = let rest = delete p xs in if p x then rest else x ∷ rest

  -- ORDER BY key DESC, as a stable insertion sort
  abbrev pub insert_desc : (A → ℕ) → A → List A → List A
  insert_desc key x [] = x ∷ []
  insert_desc key x (y ∷ ys) =
      let rest = insert_desc key x ys in if leb (key y) (key x) then x ∷ y ∷ ys else y ∷ rest

  abbrev pub order_desc : (A → ℕ) → List A → List A
  order_desc key [] = []
  order_desc key (x ∷ xs) = insert_desc key x (order_desc key xs)

-- The rowid that SQLite gives to a new row of an INTEGER PRIMARY KEY table: one that is above every
-- rowid in use (documented while the largest is below 2^63 - 1).
pub record RowIds : Type 0 where
  pub next : List ℕ → ℕ
  pub above : (ids : List ℕ) → All (λ i. i < next ids) ids
