-- ===== src/Capabilities/Firsts.antt =====
-- The loops of crates/assistant-capabilities/src/registry.rs that push what is not yet there.
use assistant_platform.Base.{
  if◌then◌else◌, Bool-cases, select, delete, any-append, String, ◌≡◌, refl, sym, ap, ◌∙◌, inl, inr,
  Bool, true, not, List, [], ◌∷◌, ◌++◌, append-nil, append_assoc, arith, str_eq, eq_iff,
}
use assistant_platform.Graph.Cycle.Paths.{listed}
use assistant_platform.Capabilities.Registry.{push_new}

-- The first of each, in order.
abbrev pub firsts : List String → List String
firsts [] = []
firsts (x ∷ xs) = x ∷ delete (λ y. str_eq y x) (firsts xs)

abbrev pub unseen : List String → String → Bool
unseen seen x = not (listed x seen)

pub select-delete :
    (seen : List String) (x : String) (ys : List String)
    → select (unseen (seen ++ x ∷ [])) ys ≡ select (unseen seen) (delete (λ y. str_eq y x) ys)
select-delete seen x [] = refl
select-delete seen x (y ∷ ys) = ground (
  arith,
  select-delete seen x ys,
  any-append (λ z. str_eq z y) seen (x ∷ []),
  eq_iff x y,
  eq_iff y x,
)

pub select-delete_seen :
    (seen : List String) (x : String) (ys : List String)
    → listed x seen ≡ true
    → select (unseen seen) (delete (λ y. str_eq y x) ys) ≡ select (unseen seen) ys
select-delete_seen seen x [] h = refl
select-delete_seen seen x (y ∷ ys) h = elim (Bool-cases (str_eq y x)) [
  | inl e ↦
      let same : listed y seen ≡ true = ap (λ z. listed z seen) ((eq_iff y x).0 e) ∙ h in
      ground (arith, select-delete_seen seen x ys h, same)
  | inr e ↦ ground (arith, select-delete_seen seen x ys h)
]

pub push_new-firsts :
    (seen xs : List String) → push_new seen xs ≡ seen ++ select (unseen seen) (firsts xs)
push_new-firsts seen [] = sym (append-nil seen)
push_new-firsts seen (x ∷ xs) = elim (Bool-cases (listed x seen)) [
  | inl e ↦
      rw e
        (push_new-firsts seen xs ∙ ap (◌++◌ seen) (sym (select-delete_seen seen x (firsts xs) e)))
  | inr e ↦ rw e (
      push_new-firsts (seen ++ x ∷ []) xs
      ∙ append_assoc seen (x ∷ []) (select (unseen (seen ++ x ∷ [])) (firsts xs))
      ∙ ap (λ ys. seen ++ x ∷ ys) (select-delete seen x (firsts xs)))
]

pub all_unseen : (xs : List String) → select (unseen []) xs ≡ xs
all_unseen [] = refl
all_unseen (x ∷ xs) = ap (◌∷◌ x) (all_unseen xs)

pub push_new-append :
    (seen xs ys : List String) → push_new seen (xs ++ ys) ≡ push_new (push_new seen xs) ys
push_new-append seen [] ys = refl
push_new-append seen (x ∷ xs) ys =
    push_new-append (if listed x seen then seen else seen ++ x ∷ []) xs ys
