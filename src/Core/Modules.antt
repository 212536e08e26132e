-- ===== src/Core/Modules.antt =====
-- validate_module_graph of crates/assistant-core/src/validate.rs.
use mathlib.Core.Option
use mathlib.Core.Path.{subst}
use assistant_platform.Base.{
  All, String, ◌≡◌, refl, ap, ◌↔◌, true, Option, none, some, List, [], ◌∷◌, map, sym, ◌++◌,
}
use assistant_platform.Core.Manifest.{
  PlatformManifest, DiagnosticCode, duplicate_module_id, missing_module_id, Diagnostic,
  new_diagnostic, module_graph_cycle,
}
use assistant_platform.Core.Validate.{
  Node, names_of, keys_of, edges_of, cycle_diagnostic, module_node, module_ids,
  missing_dependencies, validate_module_graph, concat_map, duplicates,
}
use assistant_platform.Core.Empty.{
  Distinct, concat_map-All, push-empty, duplicates-Distinct, three-empty,
}
use assistant_platform.Core.Dependencies.{declared, AllKnown, edges_of-declared}
use assistant_platform.Core.Edges.{Verdict-acyclic, first_cycle_node_lem}
use assistant_platform.Graph.Routing.{A2aAcl}
use assistant_platform.Graph.Cycle.Paths.{listed, PathOf}
use assistant_platform.Graph.Cycle.{Verdict}

pub names_of-map {ℓ} :
    {A : Type ℓ} (f : A → Node) (xs : List A) → names_of (map f xs) ≡ map (λ x. (f x).0) xs
names_of-map f [] = refl
names_of-map f (x ∷ xs) = ap (◌∷◌ (f x).0) (names_of-map f xs)

pub All-map_iff {ℓ κ μ} :
    {A : Type ℓ} {B : Type κ} (f : A → B) (P : B → Type μ) (xs : List A)
    → All P (map f xs) ↔ All (λ x. P (f x)) xs
All-map_iff f P [] = (λ _. tt, λ _. tt)
All-map_iff f P (x ∷ xs) =
    let rest = All-map_iff f P xs in (λ h. (h.0, rest.0 h.1), λ h. (h.0, rest.1 h.1))

abbrev pub Acyclic : A2aAcl → Type 0
Acyclic acl = (n : String) → ¬ PathOf acl n n

cycle-empty :
    (code : DiagnosticCode) (r : Option String) → (cycle_diagnostic code r ≡ []) ↔ (r ≡ none)
cycle-empty code none = (λ _. refl, λ _. refl)
cycle-empty code (some n) = (λ h. absurd (cc), λ h. absurd (cc))

-- Where the ids are distinct and the dependencies known, the search pushes nothing exactly if the
-- declared dependencies have no cycle.
pub cycle-Acyclic :
    (code : DiagnosticCode) (known : List String) (nodes : List Node) (r : Option String)
    → Verdict (edges_of known nodes) (keys_of nodes) r
    → Distinct (names_of nodes)
    → AllKnown known nodes
    → (cycle_diagnostic code r ≡ []) ↔ Acyclic (declared nodes)
cycle-Acyclic code known nodes r v d k =
    let empty = cycle-empty code r in
    subst (λ acl. (cycle_diagnostic code r ≡ []) ↔ Acyclic acl) (edges_of-declared known nodes d k)
      (
        λ h. (Verdict-acyclic known nodes r v).0 (empty.0 h),
        λ h. empty.1 ((Verdict-acyclic known nodes r v).1 h),
      )

-- The module ids are distinct, every dependency is a module, and no module depends on itself,
-- directly or through others.
pub record SoundModules (platform : PlatformManifest) : Type 0 where
  pub distinct : Distinct (module_ids platform)
  pub known :
      All (λ m. All (λ d. listed d (module_ids platform) ≡ true) m.depends_on) platform.modules
  pub acyclic : Acyclic (declared (map module_node platform.modules))

pub validate_module_graph_lem :
    (platform : PlatformManifest)
    → (ds : List Diagnostic) × (validate_module_graph platform ≡ some ds)
      × ((ds ≡ []) ↔ SoundModules platform)
unfolding validate_module_graph
validate_module_graph_lem platform =
    let ids = module_ids platform in
    let nodes = map module_node platform.modules in
    let names : names_of nodes ≡ ids = names_of-map module_node platform.modules in
    let (r, e, v) = first_cycle_node_lem ids nodes (λ d h. rw names h) in
    let dup = duplicates-Distinct (λ id. new_diagnostic duplicate_module_id (id ∷ [])) ids in
    let miss =
      concat_map-All (missing_dependencies ids) (λ m. All (λ d. listed d ids ≡ true) m.depends_on)
        platform.modules
        (λ m.
          concat_map-All _ (λ d. listed d ids ≡ true) m.depends_on
            (λ d. push-empty (listed d ids) (new_diagnostic missing_module_id (m.id ∷ d ∷ [])))) in
    let known =
      All-map_iff module_node (λ n. All (λ d. listed d ids ≡ true) n.1) platform.modules in
    let parts =
      three-empty (duplicates (λ id. new_diagnostic duplicate_module_id (id ∷ [])) [] ids)
        (concat_map (missing_dependencies ids) platform.modules)
        (cycle_diagnostic module_graph_cycle r) dup miss
        (λ d k.
          cycle-Acyclic module_graph_cycle ids nodes r v (subst Distinct (sym names) d)
            (known.1 k)) in
    (
      duplicates (λ id. new_diagnostic duplicate_module_id (id ∷ [])) [] ids
          ++ concat_map (missing_dependencies ids) platform.modules
          ++ cycle_diagnostic module_graph_cycle r,
      ap (Option.map _) e,
      (
        λ h. let x = parts.0 h in record { distinct = x.0; known = x.1; acyclic = x.2 },
        λ h. parts.1 (h.distinct, h.known, h.acyclic),
      ),
    )
