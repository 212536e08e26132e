-- ===== src/Base/RowLaws.antt =====
-- Laws of the SQL statements on lists of rows.
use mathlib.Core.Option
use Prim.Native.Nat.{ℕ, ◌+◌, ◌≤◌, ◌<◌}
use mathlib.Core.Path.{◌≡◌, refl, subst, ap}
use mathlib.Core.Bool.{Bool, true, false, ◌||◌}
use mathlib.Core.Option.{Option, none, some, some-injective}
use mathlib.Core.List.{map, List, [], ◌∷◌, ◌++◌}
use native.Mathlib.Omega.{arith}
use assistant_platform.Base.Tests.{ltb, ◌==◌, if◌then◌else◌, is_some}
use assistant_platform.Base.Rows.{
  All, or_else, select, find, count_where, any, update, delete, order_desc,
}

module _ {ℓ} {A : Type ℓ} where
  pub any-count_where : (p : A → Bool) (xs : List A) → ltb 0 (count_where p xs) ≡ any p xs
  any-count_where p [] = refl
  any-count_where p (x ∷ xs) = ground (arith, any-count_where p xs)

  pub any-find : (p : A → Bool) (xs : List A) → is_some (find p xs) ≡ any p xs
  any-find p [] = refl
  any-find p (x ∷ xs) = ground (arith, any-find p xs)

  pub any-append : (p : A → Bool) (xs ys : List A) → any p (xs ++ ys) ≡ (any p xs || any p ys)
  any-append p [] ys = refl
  any-append p (x ∷ xs) ys = ground (arith, any-append p xs ys)

  pub count_where-append :
      (p : A → Bool) (xs ys : List A)
      → count_where p (xs ++ ys) ≡ count_where p xs + count_where p ys
  count_where-append p [] ys = omega arith
  count_where-append p (x ∷ xs) ys = ground (arith, count_where-append p xs ys)

  pub count_where-delete-le :
      (p q : A → Bool) (xs : List A) → count_where p (delete q xs) ≤ count_where p xs
  count_where-delete-le p q [] = omega arith
  count_where-delete-le p q (x ∷ xs) = ground (arith, count_where-delete-le p q xs)

  pub find-append :
      (p : A → Bool) (xs ys : List A) → find p (xs ++ ys) ≡ or_else (find p xs) (find p ys)
  find-append p [] ys = refl
  find-append p (x ∷ xs) ys = ground (arith, find-append p xs ys)

  pub select-append :
      (p : A → Bool) (xs ys : List A) → select p (xs ++ ys) ≡ select p xs ++ select p ys
  select-append p [] ys = refl
  select-append p (x ∷ xs) ys = ground (arith, select-append p xs ys)

  pub any-delete_self : (p : A → Bool) (xs : List A) → any p (delete p xs) ≡ false
  any-delete_self p [] = refl
  any-delete_self p (x ∷ xs) = ground (arith, any-delete_self p xs)

  -- Deleting rows that `p` does not match is not seen by `p`.
  pub any-delete_ne :
      (p q : A → Bool) (xs : List A)
      → ((x : A) → q x ≡ true → p x ≡ false)
      → any p (delete q xs) ≡ any p xs
  any-delete_ne p q [] h = refl
  any-delete_ne p q (x ∷ xs) h = ground (arith, h x, any-delete_ne p q xs h)

  pub count_where-delete_ne :
      (p q : A → Bool) (xs : List A)
      → ((x : A) → q x ≡ true → p x ≡ false)
      → count_where p (delete q xs) ≡ count_where p xs
  count_where-delete_ne p q [] h = refl
  count_where-delete_ne p q (x ∷ xs) h = ground (arith, h x, count_where-delete_ne p q xs h)

  pub any-eq_false_of_count : (p : A → Bool) (xs : List A) → any p xs ≡ false → count_where p xs ≡ 0
  any-eq_false_of_count p [] h = refl
  any-eq_false_of_count p (x ∷ xs) h = ground (arith, any-eq_false_of_count p xs)

module _ {ℓ κ} {A : Type ℓ} (P : A → Type κ) where
  pub All-append : (xs ys : List A) → All P xs → All P ys → All P (xs ++ ys)
  All-append [] ys h k = k
  All-append (x ∷ xs) ys h k = (h.0, All-append xs ys h.1 k)

  All-keep : (b : Bool) (x : A) (r : List A) → P x → All P r → All P (if b then r else x ∷ r)
  All-keep true x r px hr = hr
  All-keep false x r px hr = (px, hr)

  pub All-delete : (q : A → Bool) (xs : List A) → All P xs → All P (delete q xs)
  All-delete q [] h = tt
  All-delete q (x ∷ xs) h = All-keep (q x) x (delete q xs) h.0 (All-delete q xs h.1)

  pub keep-if : (b : Bool) (x y : A) → P x → P y → P (if b then x else y)
  keep-if true x y px py = px
  keep-if false x y px py = py

  pub All-update :
      (q : A → Bool) (f : A → A) (xs : List A)
      → ((x : A) → P x → P (f x))
      → All P xs
      → All P (update q f xs)
  All-update q f [] k h = tt
  All-update q f (x ∷ xs) k h = (keep-if (q x) (f x) x (k x h.0) h.0, All-update q f xs k h.1)

pub All-map {ℓ κ μ} :
    {A : Type ℓ} (P : A → Type κ) (Q : A → Type μ) (xs : List A)
    → ((x : A) → P x → Q x)
    → All P xs
    → All Q xs
All-map P Q [] k h = tt
All-map P Q (x ∷ xs) k h = (k x h.0, All-map P Q xs k h.1)

-- No row in use has a fresh rowid.
pub fresh_of_above : (n : ℕ) (ids : List ℕ) → All (λ i. i < n) ids → any (λ i. i == n) ids ≡ false
fresh_of_above n [] h = refl
fresh_of_above n (i ∷ ids) h = ground (arith, fresh_of_above n ids h.1)

pub All-select {ℓ κ} :
    {A : Type ℓ} (P : A → Type κ) (q : A → Bool) (xs : List A) → All P xs → All P (select q xs)
All-select P q [] h = tt
All-select P q (x ∷ xs) h =
    keep-if (All P) (q x) (x ∷ select q xs) (select q xs) (h.0, All-select P q xs h.1)
      (All-select P q xs h.1)

pub All-of_map {ℓ κ μ} :
    {A : Type ℓ} {B : Type κ} (f : A → B) (P : B → Type μ) (xs : List A)
    → All P (map f xs)
    → All (λ x. P (f x)) xs
All-of_map f P [] h = tt
All-of_map f P (x ∷ xs) h = (h.0, All-of_map f P xs h.1)

-- A last row with the greatest key is listed first.
pub order_desc-push {ℓ} :
    {A : Type ℓ} (key : A → ℕ) (x : A) (xs : List A)
    → All (λ y. key y < key x) xs
    → order_desc key (xs ++ x ∷ []) ≡ x ∷ order_desc key xs
order_desc-push key x [] h = refl
order_desc-push key x (y ∷ ys) h = ground (arith, order_desc-push key x ys h.1)

-- Where an update does not change what `p` tests, the first row that `p` matches is the updated one.
pub find-update {ℓ} :
    {A : Type ℓ} (p q : A → Bool) (f : A → A) (xs : List A)
    → ((x : A) → p (f x) ≡ p x)
    → find p (update q f xs) ≡ Option.map (λ x. if q x then f x else x) (find p xs)
find-update p q f [] h = refl
find-update p q f (x ∷ xs) h = ground (arith, h x, find-update p q f xs h)

pub find-holds {ℓ} :
    {A : Type ℓ} (p : A → Bool) (xs : List A) (x : A) → find p xs ≡ some x → p x ≡ true
find-holds p [] x h = cc
find-holds p (y ∷ ys) x h = ground (arith, find-holds p ys x)

All-found {ℓ κ} :
    {A : Type ℓ} (P : A → Type κ) (b : Bool) (y : A) (o : Option A) (x : A)
    → P y
    → (o ≡ some x → P x)
    → (if b then some y else o) ≡ some x
    → P x
All-found P true y o x h rest e = subst P (some-injective y x e) h
All-found P false y o x h rest e = rest e

pub find-All {ℓ κ} :
    {A : Type ℓ} (P : A → Type κ) (p : A → Bool) (xs : List A) (x : A)
    → All P xs
    → find p xs ≡ some x
    → P x
find-All P p [] x h e = absurd (cc)
find-All P p (y ∷ ys) x h e = All-found P (p y) y (find p ys) x h.0 (find-All P p ys x h.1) e

module _ {ℓ} {A : Type ℓ} where
  -- An update that `p` does not see.
  pub any-update :
      (p q : A → Bool) (f : A → A) (xs : List A)
      → ((x : A) → p (f x) ≡ p x)
      → any p (update q f xs) ≡ any p xs
  any-update p q f [] h = refl
  any-update p q f (x ∷ xs) h = ground (arith, h x, any-update p q f xs h)

  pub count_where-update :
      (p q : A → Bool) (f : A → A) (xs : List A)
      → ((x : A) → p (f x) ≡ p x)
      → count_where p (update q f xs) ≡ count_where p xs
  count_where-update p q f [] h = refl
  count_where-update p q f (x ∷ xs) h = ground (arith, h x, count_where-update p q f xs h)

  -- An UPDATE that matches no row.
  pub update-none : (q : A → Bool) (f : A → A) (xs : List A) → any q xs ≡ false → update q f xs ≡ xs
  update-none q f [] h = refl
  update-none q f (x ∷ xs) h = ground (arith, update-none q f xs)

pub map-append {ℓ κ} :
    {A : Type ℓ} {B : Type κ} (f : A → B) (xs ys : List A) → map f (xs ++ ys) ≡ map f xs ++ map f ys
map-append f [] ys = refl
map-append f (x ∷ xs) ys = ap (◌∷◌ (f x)) (map-append f xs ys)
