-- ===== src/Core/Empty.antt =====
-- When a check of crates/assistant-core/src/validate.rs pushes no diagnostic.
use assistant_platform.Base.{
  if◌then◌else◌, All, All-map, String, ◌≡◌, refl, ◌↔◌, Bool, true, false, List, [], ◌∷◌, ◌++◌,
  arith, eq_iff,
}
use assistant_platform.Core.Manifest.{Diagnostic}
use assistant_platform.Core.Validate.{concat_map, duplicates}
use assistant_platform.Graph.Cycle.Paths.{listed}

pub append-empty {ℓ} : {A : Type ℓ} (xs ys : List A) → (xs ++ ys ≡ []) ↔ ((xs ≡ []) × (ys ≡ []))
append-empty [] ys = (λ h. (refl, h), λ h. h.1)
append-empty (x ∷ xs) ys = (λ h. absurd (cc), λ h. absurd (let e = h.0 in cc))

pub All-iff {ℓ κ μ} :
    {A : Type ℓ} (P : A → Type κ) (Q : A → Type μ) (xs : List A)
    → ((x : A) → P x ↔ Q x)
    → All P xs ↔ All Q xs
All-iff P Q xs k = (All-map P Q xs (λ x. (k x).0), All-map Q P xs (λ x. (k x).1))

pub concat_map-empty {ℓ κ} :
    {A : Type ℓ} {B : Type κ} (f : A → List B) (xs : List A)
    → (concat_map f xs ≡ []) ↔ All (λ x. f x ≡ []) xs
concat_map-empty f [] = (λ _. tt, λ _. refl)
concat_map-empty f (x ∷ xs) =
    let head = append-empty (f x) (concat_map f xs) in
    let tail = concat_map-empty f xs in
    (λ h. let e = head.0 h in (e.0, tail.0 e.1), λ h. head.1 (h.0, tail.1 h.1))

pub concat_map-All {ℓ κ μ} :
    {A : Type ℓ} {B : Type κ} (f : A → List B) (P : A → Type μ) (xs : List A)
    → ((x : A) → (f x ≡ []) ↔ P x)
    → (concat_map f xs ≡ []) ↔ All P xs
concat_map-All f P xs k =
    let a = concat_map-empty f xs in
    let b = All-iff (λ x. f x ≡ []) P xs k in (λ h. b.0 (a.0 h), λ h. a.1 (b.1 h))

-- A test that pushes one diagnostic if it fails.
pub push-empty {ℓ} :
    {A : Type ℓ} (b : Bool) (x : A) → ((if b then [] else x ∷ []) ≡ []) ↔ (b ≡ true)
push-empty true x = (λ _. refl, λ _. refl)
push-empty false x = (λ h. absurd (cc), λ h. absurd (cc))

abbrev pub Distinct : List String → Type 0
Distinct [] = Unit
Distinct (x ∷ xs) = (listed x xs ≡ false) × Distinct xs

other_names :
    (id : String) (seen ids : List String)
    → All (λ x. listed x (id ∷ seen) ≡ false) ids
      ↔ ((listed id ids ≡ false) × All (λ x. listed x seen ≡ false) ids)
other_names id seen [] = (λ _. (refl, tt), λ _. tt)
other_names id seen (x ∷ ids) =
    let rest = other_names id seen ids in
    (
      λ h.
          let r = rest.0 h.1 in
          (ground (arith, h.0, r.0, eq_iff id x, eq_iff x id), (ground (arith, h.0), r.1)),
      λ h. (
        ground (arith, h.0, h.1.0, eq_iff id x, eq_iff x id),
        rest.1 (ground (arith, h.0), h.1.1),
      ),
    )

duplicates_step :
    (report : String → Diagnostic) (id : String) (seen ids : List String) (again : Bool)
    → listed id seen ≡ again
    → (rest : List Diagnostic)
    → (rest ≡ []) ↔ (Distinct ids × All (λ x. listed x (id ∷ seen) ≡ false) ids)
    → ((if again then report id ∷ rest else rest) ≡ [])
      ↔ (Distinct (id ∷ ids) × All (λ x. listed x seen ≡ false) (id ∷ ids))
duplicates_step report id seen ids true e rest ih =
    (λ h. absurd (cc), λ h. absurd (let g = h.1.0 in cc))
duplicates_step report id seen ids false e rest ih =
    let names = other_names id seen ids in
    (
      λ h. let g = ih.0 h in let n = names.0 g.1 in ((n.0, g.0), (e, n.1)),
      λ h. ih.1 (h.0.1, names.1 (h.0.0, h.1.1)),
    )

duplicates-empty :
    (report : String → Diagnostic) (seen ids : List String)
    → (duplicates report seen ids ≡ []) ↔ (Distinct ids × All (λ x. listed x seen ≡ false) ids)
duplicates-empty report seen [] = (λ _. (tt, tt), λ _. refl)
duplicates-empty report seen (id ∷ ids) =
    duplicates_step report id seen ids (listed id seen) refl (duplicates report (id ∷ seen) ids)
      (duplicates-empty report (id ∷ seen) ids)

All-unlisted : (ids : List String) → All (λ x. listed x [] ≡ false) ids
All-unlisted [] = tt
All-unlisted (x ∷ ids) = (refl, All-unlisted ids)

pub duplicates-Distinct :
    (report : String → Diagnostic) (ids : List String)
    → (duplicates report [] ids ≡ []) ↔ Distinct ids
duplicates-Distinct report ids =
    let d = duplicates-empty report [] ids in (λ h. (d.0 h).0, λ h. d.1 (h, All-unlisted ids))

-- Three groups of diagnostics, the last of which is read where the first two are empty.
pub three-empty {ℓ κ μ ν} :
    {A : Type ℓ} {P : Type κ} {Q : Type μ} {R : Type ν} (xs ys zs : List A)
    → (xs ≡ []) ↔ P
    → (ys ≡ []) ↔ Q
    → (P → Q → (zs ≡ []) ↔ R)
    → (xs ++ ys ++ zs ≡ []) ↔ (P × Q × R)
three-empty xs ys zs p q r =
    let outer = append-empty (xs ++ ys) zs in
    let inner = append-empty xs ys in
    (
      λ h.
          let o = outer.0 h in
          let i = inner.0 o.0 in let x = p.0 i.0 in let y = q.0 i.1 in (x, y, (r x y).0 o.1),
      λ h. outer.1 (inner.1 (p.1 h.0, q.1 h.1), (r h.0 h.1).1 h.2),
    )
