-- ===== src/Core/Fragments.antt =====
-- validate_prompt_fragments of crates/assistant-core/src/validate.rs.
use mathlib.Core.Path.{subst}
use assistant_platform.Core.Edges.{first_cycle_node_lem}
use mathlib.Core.Option
use assistant_platform.Base.{
  if◌then◌else◌, Option-cases, is_some, All, All-map, ℕ, ◌<◌, String, ◌≡◌, refl, ◌↔◌, true, Option,
  none, some, List, [], ◌∷◌, map, arith, eq_refl, sym, ap, ◌∙◌, ◌++◌,
}
use assistant_platform.Core.Manifest.{
  PromptFragment, PromptFragmentManifest, unknown_fragment_owner_module, new_diagnostic,
  duplicate_fragment_id, fragment_dependency_cycle, Diagnostic,
}
use assistant_platform.Core.Validate.{
  concat_map, fragment_node, order_by_id, check_order, check_fragment, fragment_ids, names_of,
  duplicates, cycle_diagnostic, validate_prompt_fragments,
}
use assistant_platform.Core.Empty.{
  Distinct, append-empty, concat_map-All, push-empty, duplicates-Distinct, three-empty,
}
use assistant_platform.Core.Dependencies.{declared, falls, declared-at}
use assistant_platform.Core.Modules.{Acyclic, All-map_iff, names_of-map, cycle-Acyclic}
use assistant_platform.Graph.Cycle.Paths.{listed}

order_by_id-listed :
    (fragments : List PromptFragment) (id : String)
    → is_some (order_by_id fragments id) ≡ listed id (map (λ f. f.id) fragments)
order_by_id-listed [] id = refl
order_by_id-listed (f ∷ fragments) id =
    ground (arith, order_by_id-listed fragments id, Option-cases (order_by_id fragments id))

-- Where the ids are distinct, the order that is looked up is the fragment's own.
own_order :
    (fragments : List PromptFragment)
    → Distinct (map (λ f. f.id) fragments)
    → All (λ f. order_by_id fragments f.id ≡ some f.order) fragments
own_order [] d = tt
own_order (f ∷ fragments) d = (
  ground (
    arith,
    order_by_id-listed fragments f.id,
    Option-cases (order_by_id fragments f.id),
    eq_refl f.id,
    d.0,
  ),
  All-map _ _ fragments (λ g h. rw h refl) (own_order fragments d.1),
)

-- The dependency is a fragment with a smaller order.
abbrev pub OrderedAfter : List PromptFragment → PromptFragment → String → Type 0
OrderedAfter fragments f dep = (o : ℕ) × (order_by_id fragments dep ≡ some o) × (o < f.order)

check_order-empty :
    (f : PromptFragment) (dep : String) (o : Option ℕ)
    → (check_order f dep o ≡ []) ↔ ((n : ℕ) × (o ≡ some n) × (n < f.order))
check_order-empty f dep none = (λ h. absurd (cc), λ h. absurd (let e = h.1 in cc))
check_order-empty f dep (some n) =
    (λ h. (n, refl, ground arith), λ h. let e = h.1 in let l = h.2 in ground arith)

-- The ids are distinct, every owner is a module, and every dependency is a fragment with a smaller
-- order.
pub record SoundFragments (manifest : PromptFragmentManifest) (known_modules : List String)
    : Type 0 where
  pub distinct : Distinct (fragment_ids manifest)
  pub placed :
      All
        (λ f.
          (listed f.owner_module known_modules ≡ true)
          × All (OrderedAfter manifest.fragments f) f.depends_on)
        manifest.fragments

check_fragment-empty :
    (known_modules : List String) (fragments : List PromptFragment) (f : PromptFragment)
    → (check_fragment known_modules fragments f ≡ [])
      ↔ ((listed f.owner_module known_modules ≡ true) × All (OrderedAfter fragments f) f.depends_on)
check_fragment-empty known_modules fragments f =
    let owner =
      push-empty (listed f.owner_module known_modules)
        (new_diagnostic unknown_fragment_owner_module (f.id ∷ f.owner_module ∷ [])) in
    let deps =
      concat_map-All (λ dep. check_order f dep (order_by_id fragments dep))
        (OrderedAfter fragments f) f.depends_on
        (λ dep. check_order-empty f dep (order_by_id fragments dep)) in
    let both =
      append-empty
        (if listed f.owner_module known_modules
          then []
          else new_diagnostic unknown_fragment_owner_module (f.id ∷ f.owner_module ∷ []) ∷ [])
        (concat_map (λ dep. check_order f dep (order_by_id fragments dep)) f.depends_on) in
    (λ h. let b = both.0 h in (owner.0 b.0, deps.0 b.1), λ h. both.1 (owner.1 h.0, deps.1 h.1))

abbrev order_of : List PromptFragment → String → ℕ
order_of fragments id = elim (order_by_id fragments id) [ none ↦ 0 | some o ↦ o ]

abbrev Falls : List PromptFragment → PromptFragment → Type 0
Falls fragments f = All (λ d. order_of fragments d < order_of fragments f.id) f.depends_on

order-Falls :
    (fragments : List PromptFragment) (f : PromptFragment)
    → order_by_id fragments f.id ≡ some f.order
    → All (OrderedAfter fragments f) f.depends_on
    → Falls fragments f
order-Falls fragments f own h =
    All-map (OrderedAfter fragments f) _ f.depends_on
      (λ d g. let e = g.1 in let l = g.2 in ground arith) h

All-both :
    (P Q : PromptFragment → Type 0) (fs : List PromptFragment)
    → All P fs
    → All Q fs
    → All (λ f. P f × Q f) fs
All-both P Q [] h k = tt
All-both P Q (f ∷ fs) h k = ((h.0, k.0), All-both P Q fs h.1 k.1)

-- Orders that fall along the dependencies leave no cycle.
pub orders-Acyclic :
    (fragments : List PromptFragment)
    → Distinct (map (λ f. f.id) fragments)
    → All (λ f. All (OrderedAfter fragments f) f.depends_on) fragments
    → Acyclic (declared (map fragment_node fragments))
orders-Acyclic fragments d h n p =
    let own = own_order fragments d in
    let both = All-both (λ f. order_by_id fragments f.id ≡ some f.order) _ fragments own h in
    let down =
      All-map _ (Falls fragments) fragments (λ f g. order-Falls fragments f g.0 g.1) both in
    let nodes =
      (All-map_iff fragment_node (λ m. All (λ d. order_of fragments d < order_of fragments m.0) m.1)
          fragments).1
        down in
    let less =
      falls (declared (map fragment_node fragments)) (order_of fragments)
        (λ a b e.
          declared-at (λ x y. order_of fragments y < order_of fragments x)
            (map fragment_node fragments) nodes a b e)
        n n p in
    omega arith

pub validate_prompt_fragments_lem :
    (manifest : PromptFragmentManifest) (known_modules : List String)
    → (ds : List Diagnostic) × (validate_prompt_fragments manifest known_modules ≡ some ds)
      × ((ds ≡ []) ↔ SoundFragments manifest known_modules)
unfolding validate_prompt_fragments
validate_prompt_fragments_lem manifest known_modules =
    let ids = fragment_ids manifest in
    let fs = manifest.fragments in
    let nodes = map fragment_node fs in
    let names : names_of nodes ≡ ids = names_of-map fragment_node fs in
    let (r, e, v) = first_cycle_node_lem ids nodes (λ d h. rw names h) in
    let dup = duplicates-Distinct (λ id. new_diagnostic duplicate_fragment_id (id ∷ [])) ids in
    let each =
      concat_map-All (check_fragment known_modules fs) _ fs
        (check_fragment-empty known_modules fs) in
    let after =
      λ (h : All
          (λ f. (listed f.owner_module known_modules ≡ true) × All (OrderedAfter fs f) f.depends_on)
          fs).
        All-map _ (λ f. All (OrderedAfter fs f) f.depends_on) fs (λ f g. g.1) h in
    let known = All-map_iff fragment_node (λ n. All (λ d. listed d ids ≡ true) n.1) fs in
    let parts =
      three-empty (duplicates (λ id. new_diagnostic duplicate_fragment_id (id ∷ [])) [] ids)
        (concat_map (check_fragment known_modules fs) fs)
        (cycle_diagnostic fragment_dependency_cycle r) dup each
        (λ d h.
          cycle-Acyclic fragment_dependency_cycle ids nodes r v (subst Distinct (sym names) d) (
            known.1 (
              All-map _ _ fs
                (λ f g.
                  All-map (OrderedAfter fs f) _ f.depends_on
                    (λ dep o. sym (order_by_id-listed fs dep) ∙ ap is_some o.1) g)
                (after h)))) in
    (
      duplicates (λ id. new_diagnostic duplicate_fragment_id (id ∷ [])) [] ids
          ++ concat_map (check_fragment known_modules fs) fs
          ++ cycle_diagnostic fragment_dependency_cycle r,
      ap (Option.map _) e,
      (
        λ h. let x = parts.0 h in record { distinct = x.0; placed = x.1 },
        λ h. parts.1 (h.distinct, h.placed, orders-Acyclic fs h.distinct (after h.placed)),
      ),
    )
